-- ===== src/PriorityQueue/Insert.antt =====
-- The constructors, Push and PushAll.
use mathlib.Core.List.Perm
use mathlib.Core.List.{perm_middle, append-nil}
use go_collections.Prelude.{
  ◌+◌, ◌-◌, ◌<◌, ◌≡◌, refl, true, some, none, List, [], ◌∷◌, ◌++◌, Perm, length, leb, ◌==◌,
  length-append, get_or-append_left, arith,
}
use go_collections.Prelude.Outcome.{
  panicked, Returns, returns, Returns-weaken, Returns-branch, Returns-then,
}
use go_collections.Prelude.Slice.{Zero}
use go_collections.Comparator.{Comparator, IsComparator}
use go_collections.PriorityQueue.{PriorityQueue, parent, new, new_from, push, push_each, push_all}
use go_collections.PriorityQueue.Order.{IsHeap}
use go_collections.PriorityQueue.Up.{Rising, sift_up_restores}
use go_collections.PriorityQueue.Down.{heapify_orders}

pub empty_of_length {ℓ} : {A : Type ℓ} (xs : List A) → (length xs == 0) ≡ true → xs ≡ []
empty_of_length [] h = refl
empty_of_length (x ∷ xs) h = absurd (ground arith)

module _ {ℓ} {A : Type ℓ} (cmp : Comparator A) ⦃z : Zero A⦄ where
  pub record IsValid (pq : PriorityQueue A) : Type ℓ where
    pub ordered : pq.cmp ≡ some cmp
    pub heap : IsHeap cmp pq.items

  -- A valid queue of exactly the elements `xs`.
  abbrev pub Holds : List A → PriorityQueue A → Type ℓ
  Holds xs pq = IsValid pq × Perm pq.items xs

  module _ (law : IsComparator cmp) where
    appended_rises :
        (xs : List A) (x : A)
        → IsHeap cmp xs
        → Rising cmp (xs ++ x ∷ []) (length (xs ++ x ∷ []) - 1)
    appended_rises xs x h = record {
      inside = omega (arith, len);
      steady = λ c p q n.
          let small : c < length xs = omega (arith, len) in
          rw
            (
              get_or-append_left xs (x ∷ []) c z.zero_value small,
              get_or-append_left xs (x ∷ []) (parent c) z.zero_value (omega arith),
            )
            (h c p small (omega arith));
      past = λ c p q e f. absurd (omega (arith, len));
    }
      where
        len : length (xs ++ x ∷ []) ≡ length xs + 1
        len = length-append xs (x ∷ [])

    -- Push returns a valid queue with exactly the element added.
    pub push_correct :
        (pq : PriorityQueue A) (x : A) → IsValid pq → Returns (Holds (x ∷ pq.items)) (push pq x)
    unfolding push
    push_correct pq x v = rw v.ordered (
        Returns-then (sift_up_restores cmp law _ _ (appended_rises pq.items x v.heap))
          λ a s. returns (record { ordered = refl; heap = s.0 }, Perm.trans s.1 last_first))
      where
        last_first : Perm (pq.items ++ x ∷ []) (x ∷ pq.items)
        last_first = rw (append-nil pq.items) at (perm_middle {a = x} pq.items [])

    push_each_correct :
        (elements : List A) (pq : PriorityQueue A)
        → IsValid pq
        → Returns (Holds (pq.items ++ elements)) (push_each pq elements)
    unfolding push_each
    push_each_correct [] pq v = returns (v, rw (append-nil pq.items) (Perm.refl pq.items))
    push_each_correct (e ∷ elements) pq v = Returns-then (push_correct pq e v) λ pq' s.
        Returns-weaken (push_each_correct elements pq' s.0) λ r t. (
          t.0,
          Perm.trans t.1 (
              Perm.trans (Perm.append_right elements s.1)
                (Perm.symm (perm_middle pq.items elements))),
        )

    -- PushAll adds exactly the given elements, whichever of its three ways it takes.
    pub push_all_correct :
        (pq : PriorityQueue A) (elements : List A)
        → IsValid pq
        → Returns (Holds (pq.items ++ elements)) (push_all pq elements)
    unfolding push_all
    push_all_correct pq elements v =
        Returns-branch (length elements == 0)
          (λ e.
            let none_given : elements ≡ [] = empty_of_length elements e in
            returns (v, rw (none_given, append-nil pq.items) (Perm.refl pq.items)))
          (λ _.
            Returns-branch (leb (length pq.items) (length elements))
              (λ _. rw v.ordered (
                Returns-then (heapify_orders cmp law (pq.items ++ elements))
                  λ a s. returns (record { ordered = refl; heap = s.0 }, s.1)))
              (λ _. push_each_correct elements pq v))

    -- NewPriorityQueueFrom returns a valid queue of exactly the given elements.
    pub new_from_correct :
        (elements : List A) → Returns (Holds elements) (new_from (some cmp) elements)
    unfolding new_from
    new_from_correct elements =
        Returns-then (heapify_orders cmp law elements)
          λ a s. returns (record { ordered = refl; heap = s.0 }, s.1)

-- Every constructor panics at a nil comparator.
pub new_nil {ℓ} :
    {A : Type ℓ} (elements : List A)
    → (new {A = A} none ≡ panicked) × (new_from none elements ≡ panicked)
unfolding new new_from
new_nil elements = (refl, refl)
