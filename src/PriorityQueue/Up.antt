-- ===== src/PriorityQueue/Up.antt =====
-- siftUp: from a heap that is broken only above `i`, back to a heap.
use mathlib.Core.List.Perm
use native.Mathlib.Decide.{ℕ_discrete}
use go_collections.Prelude.{
  ℕ, zero, suc, ◌≤◌, ◌<◌, ◌≡◌, ◌≢◌, true, false, some, List, Perm, length, ◌==◌, if◌then◌else◌, ltb,
  ltb→lt, ltb→le, arith,
}
use go_collections.Prelude.Int.{is_neg}
use go_collections.Prelude.Outcome.{Returns, returns, Returns-weaken, Returns-branch}
use go_collections.Prelude.Slice.{
  Zero, load_in_range, exchange_in_range, swapped, get_or-swapped, length-swapped, swapped-perm,
}
use go_collections.Comparator.{Comparator, IsComparator, asym}
use go_collections.PriorityQueue.{parent, call, sift_up_loop, sift_up}
use go_collections.PriorityQueue.Order.{Before, key, IsHeap}

module _ {ℓ} {A : Type ℓ} (cmp : Comparator A) ⦃z : Zero A⦄ where
  -- The element at `i` may have to rise; all else is a heap, also past `i`.
  pub record Rising (a : List A) (i : ℕ) : Type 0 where
    pub inside : i < length a
    pub steady : (c : ℕ) → 0 < c → c < length a → c ≢ i → Before cmp (key a (parent c)) (key a c)
    pub past :
        (c : ℕ)
        → 0 < c
        → c < length a
        → parent c ≡ i
        → 0 < i
        → Before cmp (key a (parent i)) (key a c)

  module _ (law : IsComparator cmp) where
    settled :
        (a : List A) (i : ℕ)
        → Rising a i
        → (0 < i → is_neg (cmp (key a i) (key a (parent i))) ≡ false)
        → IsHeap cmp a
    settled a i r h c p q _ = elim (ℕ_discrete c i) [
      | yes e ↦ rw e (h (omega arith))
      | no n ↦ r.steady c p q n
    ]

    module _ (a : List A) (i : ℕ) (r : Rising a i) (up : 0 < i) where
      abbrev b : List A
      b = swapped z.zero_value a i (parent i)

      b_at :
          (k : ℕ)
          → key b k
            ≡ (if parent i == k then key a i else if i == k then key a (parent i) else key a k)
      b_at = get_or-swapped z.zero_value a i (parent i) r.inside (omega (arith, r.inside))

      length-b : length b ≡ length a
      length-b = length-swapped z.zero_value a i (parent i) r.inside (omega (arith, r.inside))

      risen : is_neg (cmp (key a i) (key a (parent i))) ≡ true → Rising b (parent i)
      risen below =
          let below' = asym law (key a i) (key a (parent i)) below in
          record {
            inside = omega (arith, length-b, r.inside);
            steady = λ c p q n. ground (
              arith,
              length-b,
              below',
              b_at c,
              b_at (parent c),
              r.steady c,
              r.past c,
              law.trans (key a i) (key a (parent i)) (key a c),
            );
            past = λ c p q e f. ground (
              arith,
              length-b,
              b_at c,
              b_at (parent (parent i)),
              r.steady c,
              r.steady (parent i),
              law.trans (key a (parent (parent i))) (key a (parent i)) (key a c),
            );
          }

    -- With fuel above `i` the loop of siftUp ends in a heap of the same elements.
    sift_up_loop_restores :
        (fuel : ℕ) (a : List A) (i : ℕ)
        → i < fuel
        → Rising a i
        → Returns (λ b. IsHeap cmp b × Perm b a) (sift_up_loop fuel (some cmp) a i)
    unfolding sift_up_loop call
    sift_up_loop_restores zero a i f r = absurd (omega arith)
    sift_up_loop_restores (suc fuel) a i f r =
        Returns-branch (ltb 0 i)
          (λ up.
            let hi : 0 < i = ltb→lt 0 i up in
            let hp : parent i < length a = omega (arith, r.inside) in
            rw
              (
                load_in_range z.zero_value a i r.inside,
                load_in_range z.zero_value a (parent i) hp,
                exchange_in_range z.zero_value a i (parent i) r.inside hp,
              )
              (Returns-branch (is_neg (cmp (key a i) (key a (parent i))))
                (λ below.
                  Returns-weaken
                    (sift_up_loop_restores fuel (b a i r hi) (parent i) (omega arith)
                      (risen a i r hi below))
                    λ c s.
                      (s.0, Perm.trans s.1 (swapped-perm z.zero_value a i (parent i) r.inside hp)))
                (λ stay. returns (settled a i r (λ _. stay), Perm.refl a))))
          (λ top.
            let end : i ≤ 0 = ltb→le 0 i top in
            returns (settled a i r (λ h. absurd (omega arith)), Perm.refl a))

    -- siftUp ends in a heap of the same elements.
    pub sift_up_restores :
        (a : List A) (i : ℕ)
        → Rising a i
        → Returns (λ b. IsHeap cmp b × Perm b a) (sift_up (some cmp) a i)
    unfolding sift_up
    sift_up_restores a i r = sift_up_loop_restores (suc i) a i (omega arith) r
