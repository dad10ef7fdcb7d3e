-- ===== src/PriorityQueue/Down.antt =====
-- siftDown and heapify: from a heap that is broken only below `i`, back to a heap.
use mathlib.Core.List.Perm
use native.Mathlib.Decide.{ℕ_discrete}
use go_collections.Prelude.{
  ℕ, zero, suc, ◌+◌, ◌-◌, ◌*◌, ◌/◌, ◌≤◌, ◌<◌, ◌≡◌, ◌≢◌, ◌⊎◌, inl, inr, Bool-cases, true, false,
  some, List, Perm, length, ltb, leb, ltb→lt, ltb→le, leb→lt, leb→le, ◌==◌, if◌then◌else◌, arith,
}
use go_collections.Prelude.Int.{is_neg}
use go_collections.Prelude.Outcome.{Returns, returns, Returns-weaken, Returns-branch, Returns-then}
use go_collections.Prelude.Slice.{
  Zero, load_in_range, exchange_in_range, swapped, get_or-swapped, length-swapped, swapped-perm,
}
use go_collections.Comparator.{Comparator, IsComparator, asym, irrefl}
use go_collections.PriorityQueue.{
  parent, call, smallest_child, sift_down_loop, sift_down, heapify_loop, heapify,
}
use go_collections.PriorityQueue.Order.{Before, key, IsHeap, IsHeapFrom}

module _ {ℓ} {A : Type ℓ} (cmp : Comparator A) ⦃z : Zero A⦄ where
  -- The element at `i` may have to sink; all else from `lo` on is in order, also past `i`.
  pub record Sinking (lo : ℕ) (a : List A) (i : ℕ) : Type 0 where
    pub steady :
        (c : ℕ)
        → 0 < c
        → c < length a
        → lo ≤ parent c
        → parent c ≢ i
        → Before cmp (key a (parent c)) (key a c)
    pub past :
        (c : ℕ)
        → 0 < c
        → c < length a
        → parent c ≡ i
        → 0 < i
        → lo ≤ parent i
        → Before cmp (key a (parent i)) (key a c)

  -- `k` is a child of `i` that comes before its sibling.
  record IsFirstChild (a : List A) (i k : ℕ) : Type 0 where
    child : parent k ≡ i
    later : 0 < k
    inside : k < length a
    first : (c : ℕ) → 0 < c → c < length a → parent c ≡ i → Before cmp (key a k) (key a c)

  module _ (law : IsComparator cmp) where
    smallest_child_first :
        (a : List A) (i : ℕ)
        → 2 * i + 1 < length a
        → Returns (IsFirstChild a i) (smallest_child (some cmp) a i)
    unfolding smallest_child call
    smallest_child_first a i h =
        Returns-branch (ltb (2 * i + 1 + 1) (length a))
          (λ two.
            let room = ltb→lt (2 * i + 1 + 1) (length a) two in
            rw
              (
                load_in_range z.zero_value a (2 * i + 1 + 1) room,
                load_in_range z.zero_value a (2 * i + 1) h,
              )
              (elim (Bool-cases (is_neg (cmp right left))) [
                | inl e ↦ rw e (
                    returns (record {
                      child = omega arith;
                      later = omega arith;
                      inside = room;
                      first = λ c p q s.
                          ground (arith, asym law right left e, irrefl law right, one_of_two c p s);
                    }))
                | inr e ↦ rw e (
                    returns (record {
                      child = omega arith;
                      later = omega arith;
                      inside = h;
                      first = λ c p q s. ground (arith, e, irrefl law left, one_of_two c p s);
                    }))
              ]))
          (λ one.
            let alone = ltb→le (2 * i + 1 + 1) (length a) one in
            returns (record {
              child = omega arith;
              later = omega arith;
              inside = h;
              first = λ c p q s. ground (arith, irrefl law left, one_of_two c p s);
            }))
      where
        left : A
        left = key a (2 * i + 1)

        right : A
        right = key a (2 * i + 1 + 1)

        one_of_two : (c : ℕ) → 0 < c → parent c ≡ i → (c ≡ 2 * i + 1) ⊎ (c ≡ 2 * i + 1 + 1)
        one_of_two c p s = omega arith

    module _ (lo : ℕ) (a : List A) (i k : ℕ) (r : Sinking lo a i) (m : IsFirstChild a i k) where
      sunk_out : is_neg (cmp (key a k) (key a i)) ≡ false → IsHeapFrom cmp lo a
      sunk_out stay c p q s = elim (ℕ_discrete (parent c) i) [
        | yes e ↦ rw e (law.trans (key a i) (key a k) (key a c) stay (m.first c p q e))
        | no n ↦ r.steady c p q s n
      ]

      higher : i < k
      higher = omega (arith, m.child, m.later)

      above : i < length a
      above = omega (arith, higher, m.inside)

      abbrev b : List A
      b = swapped z.zero_value a i k

      b_at : (j : ℕ) → key b j ≡ (if k == j then key a i else if i == j then key a k else key a j)
      b_at = get_or-swapped z.zero_value a i k above m.inside

      sunk : is_neg (cmp (key a k) (key a i)) ≡ true → Sinking lo b k
      sunk below =
          let below' = asym law (key a k) (key a i) below in
          let same = length-swapped z.zero_value a i k above m.inside in
          record {
            steady = λ c p q s n. ground (
              arith,
              same,
              below',
              higher,
              m.child,
              b_at c,
              b_at (parent c),
              m.first c,
              r.steady c,
              r.past k,
              m.inside,
            );
            past = λ c p q e f s.
                ground (arith, same, higher, m.child, b_at c, b_at (parent k), r.steady c);
          }

    sunk_leaf :
        (lo : ℕ) (a : List A) (i : ℕ) → Sinking lo a i → length a ≤ 2 * i + 1 → IsHeapFrom cmp lo a
    sunk_leaf lo a i r h c p q s = r.steady c p q s (omega arith)

    -- With fuel past the end the loop of siftDown restores the order from `lo` on.
    sift_down_loop_restores :
        (fuel lo : ℕ) (a : List A) (i : ℕ)
        → length a - i < fuel
        → Sinking lo a i
        → Returns (λ b. IsHeapFrom cmp lo b × Perm b a) (sift_down_loop fuel (some cmp) a i)
    unfolding sift_down_loop call
    sift_down_loop_restores zero lo a i f r = absurd (omega arith)
    sift_down_loop_restores (suc fuel) lo a i f r =
        Returns-branch (leb (length a) (2 * i + 1))
          (λ leaf. returns (sunk_leaf lo a i r (leb→le (length a) (2 * i + 1) leaf), Perm.refl a))
          (λ inner.
            let room = leb→lt (length a) (2 * i + 1) inner in
            Returns-then (smallest_child_first a i room) λ k m.
              let up = higher lo a i k r m in
              rw
                (
                  load_in_range z.zero_value a k m.inside,
                  load_in_range z.zero_value a i (omega arith),
                  exchange_in_range z.zero_value a i k (omega arith) m.inside,
                )
                (Returns-branch (is_neg (cmp (key a k) (key a i)))
                  (λ below.
                    let len = length-swapped z.zero_value a i k (above lo a i k r m) m.inside in
                    Returns-weaken
                      (sift_down_loop_restores fuel lo (b lo a i k r m) k (omega arith)
                        (sunk lo a i k r m below))
                      λ c s. (
                        s.0,
                        Perm.trans s.1 (swapped-perm z.zero_value a i k (omega arith) m.inside),
                      ))
                  (λ stay. returns (sunk_out lo a i k r m stay, Perm.refl a))))

    pub sift_down_restores :
        (lo : ℕ) (a : List A) (i : ℕ)
        → Sinking lo a i
        → Returns (λ b. IsHeapFrom cmp lo b × Perm b a) (sift_down (some cmp) a i)
    unfolding sift_down
    sift_down_restores lo a i r = sift_down_loop_restores (suc (length a)) lo a i (omega arith) r

    heapify_loop_orders :
        (i : ℕ) (a : List A)
        → IsHeapFrom cmp i a
        → Returns (λ b. IsHeap cmp b × Perm b a) (heapify_loop (some cmp) i a)
    unfolding heapify_loop
    heapify_loop_orders zero a h = returns (h, Perm.refl a)
    heapify_loop_orders (suc i) a h =
        Returns-then (sift_down_restores i a i start)
          λ b s. Returns-weaken (heapify_loop_orders i b s.0) λ c t. (t.0, Perm.trans t.1 s.1)
      where
        start : Sinking i a i
        start = record {
          steady = λ c p q s n. h c p q (omega arith);
          past = λ c p q e f s. absurd (omega arith);
        }

    -- heapify orders any slice.
    pub heapify_orders :
        (a : List A) → Returns (λ b. IsHeap cmp b × Perm b a) (heapify (some cmp) a)
    unfolding heapify
    heapify_orders a = heapify_loop_orders (length a / 2) a λ c p q s. absurd (omega arith)
