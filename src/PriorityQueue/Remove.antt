-- ===== src/PriorityQueue/Remove.antt =====
-- Pop and Peek.
use mathlib.Core.List.Perm
use mathlib.Core.List.{perm_append_singleton, not-mem-nil, forall_mem-cons}
use go_collections.Prelude.{
  ℕ, zero, suc, ◌-◌, ◌<◌, ◌≡◌, inl, inr, Bool-cases, refl, ap, ◌∙◌, Bool, true, false, List, [],
  ◌∷◌, Perm, Mem, length, get_or, set, take, ◌==◌, if◌then◌else◌, length-set, length-take,
  get_or-set, get_or-take, take-set, take-append_last, arith,
}
use go_collections.Prelude.Outcome.{
  returned, Returns, returns, Returns-weaken, Returns-branch, Returns-then,
}
use go_collections.Prelude.Slice.{Zero, load_in_range, store_in_range, slice_prefix}
use go_collections.Comparator.{Comparator, IsComparator}
use go_collections.PriorityQueue.{PriorityQueue, parent, pop, peek}
use go_collections.PriorityQueue.Order.{Before, key, IsHeap, root_before}
use go_collections.PriorityQueue.Down.{Sinking, sift_down_restores}
use go_collections.PriorityQueue.Insert.{IsValid, empty_of_length}

module _ {ℓ} {A : Type ℓ} (cmp : Comparator A) ⦃z : Zero A⦄ where
  -- What Pop returns on a queue that is not empty: an element that no other one comes before, and
  -- a valid queue of exactly the others.
  pub record Popped (pq : PriorityQueue A) (r : A × Bool × PriorityQueue A) : Type ℓ where
    pub found : r.1 ≡ true
    pub root : r.0 ≡ key pq.items 0
    pub valid : IsValid cmp r.2
    pub others : Perm (r.0 ∷ r.2.items) pq.items
    pub first : (x : A) → Mem x pq.items → Before cmp r.0 x

  before_members :
      (v : A) (xs : List A)
      → ((i : ℕ) → i < length xs → Before cmp v (key xs i))
      → (x : A) → Mem x xs
      → Before cmp v x
  before_members v [] h = λ x m. absurd (not-mem-nil m)
  before_members v (y ∷ xs) h =
      (forall_mem-cons (λ x. hlevel)).1
        (h 0 (omega arith), before_members v xs λ i p. h (suc i) (omega arith))

  module _ (xs : List A) (n : ℕ) (size : length xs ≡ suc n) where
    -- The slice that Pop hands to siftDown.
    abbrev cut : List A
    cut = take n (set (set xs 0 (key xs n)) n z.zero_value)

    cut_at : (i : ℕ) → i < n → key cut i ≡ (if 0 == i then key xs n else key xs i)
    cut_at i h =
        ap (λ ys. key ys i) (take-set n (set xs 0 (key xs n)) n z.zero_value (omega arith))
        ∙ get_or-take n (set xs 0 (key xs n)) i z.zero_value h
        ∙ get_or-set xs 0 i (key xs n) z.zero_value (omega arith)

    cut_sinks : IsHeap cmp xs → Sinking cmp 0 cut 0
    cut_sinks h = record {
      steady = λ c p q s n. ground (arith, length-cut, cut_at c, cut_at (parent c), h c);
      past = λ c p q e f s. absurd (omega arith);
    }
      where
        length-cut : length cut ≡ n
        length-cut =
            length-take n _
            ∙ omega (
              arith,
              size,
              length-set (set xs 0 (key xs n)) n z.zero_value,
              length-set xs 0 (key xs n),
            )

  cut_others : (xs : List A) (n : ℕ) (size : length xs ≡ suc n) → Perm (key xs 0 ∷ cut xs n size) xs
  cut_others [] n size = absurd (omega arith)
  cut_others (x ∷ []) zero size = Perm.refl (x ∷ [])
  cut_others (x ∷ y ∷ xs) zero size = absurd (omega arith)
  cut_others (x ∷ xs) (suc n) size =
      let last = get_or xs n z.zero_value in
      Perm.cons x (
        rw (take-set n xs n z.zero_value (omega arith)) (
          Perm.trans (Perm.symm (perm_append_singleton last (take n xs)))
            (rw (take-append_last n xs z.zero_value (omega arith)) (Perm.refl xs))))

  module _ (law : IsComparator cmp) where
    -- Pop on a queue that is not empty.
    pub pop_correct :
        (pq : PriorityQueue A) → IsValid cmp pq → 0 < length pq.items → Returns (Popped pq) (pop pq)
    unfolding pop
    pop_correct pq v h =
        Returns-branch (length pq.items == 0) (λ e. absurd (ground arith))
          λ _.
            let xs = pq.items in
            let n = length xs - 1 in
            let size : length xs ≡ suc n = omega arith in
            let moved = set xs 0 (key xs n) in
            let len = length-set xs 0 (key xs n) in
            rw
              (
                load_in_range z.zero_value xs 0 h,
                load_in_range z.zero_value xs n (omega arith),
                store_in_range xs 0 (key xs n) h,
                store_in_range moved n z.zero_value (omega arith),
                slice_prefix (set moved n z.zero_value) n
                    (omega (arith, length-set moved n z.zero_value)),
                v.ordered,
              )
              (Returns-then
                (sift_down_restores cmp law 0 (cut xs n size) 0 (cut_sinks xs n size v.heap))
                λ d s. returns (record {
                  found = refl;
                  root = refl;
                  valid = record { ordered = refl; heap = s.0 };
                  others = Perm.trans (Perm.cons _ s.1) (cut_others xs n size);
                  first = before_members (key xs 0) xs λ i. root_before cmp law xs i v.heap;
                }))

    -- Peek shows what Pop returns, and a Pop that finds nothing leaves an empty queue alone.
    pub peek-pop :
        (pq : PriorityQueue A)
        → IsValid cmp pq
        → Returns
            (λ r. (peek pq ≡ returned (r.0, r.1)) × (r.1 ≡ false → (pq.items ≡ []) × (r.2 ≡ pq)))
            (pop pq)
    unfolding peek pop
    peek-pop pq v = elim (Bool-cases (length pq.items == 0)) [
      | inl e ↦ rw (e, pop) (returns (refl, λ _. (empty_of_length pq.items e, refl)))
      | inr e ↦
          let h : 0 < length pq.items = ground arith in
          Returns-weaken (pop_correct pq v h) λ r s. (
            rw (e, load_in_range z.zero_value pq.items 0 h, s.root, s.found),
            λ missing. absurd (ground arith),
          )
    ]
