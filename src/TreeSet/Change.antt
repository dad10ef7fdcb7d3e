-- ===== src/TreeSet/Change.antt =====
-- Add, Remove, RemoveFunc, PopFirst and PopLast.
use mathlib.Core.List.{append_assoc, append-nil}
use mathlib.Core.List.Perm
use go_collections.Prelude.{
  ◌+◌, ◌≡◌, refl, sym, ap, ap₂, ◌∙◌, Bool, true, false, not, ◌&&◌, Bool-cases, inl, inr, Option,
  none, some, List, [], ◌∷◌, ◌++◌, Perm, length, if◌then◌else◌, arith,
}
use go_collections.Comparator.{Comparator, IsComparator}
use go_collections.BTree.{
  keep, head?, last?, last_of, is_some, less, alike, Ascending, BTree, IsBTree,
}
use go_collections.BTree.Ascending.{
  holds, holds-append, found-holds, keep-keep, keep-append, keep_same, alike_refl, length-keep,
}
use go_collections.BTree.Laws.{set-perm, split_absent}
use go_collections.BTree.Parts.{keep_every, keep_part, keep_others_first, keep_others_last}
use go_collections.TreeSet.{
  TreeSet, size, to_slice, add, remove, collect, delete_each, remove_func, contains, pop_first,
  pop_last,
}

module _ {ℓ} {Tree A : Type ℓ} {cmp : Comparator A} {b : BTree Tree A} (law : IsComparator cmp)
    (tree : IsBTree cmp b) where
  -- Contains looks for an element like the given one.
  pub contains-holds :
      (t : TreeSet Tree) (x : A) → contains b t x ≡ holds (alike cmp x) (to_slice b t)
  unfolding contains to_slice
  contains-holds t x = ap is_some (tree.get_finds t.bt x) ∙ found-holds (alike cmp x) (b.scan t.bt)

  pub add_there : (t : TreeSet Tree) (x : A) → contains b t x ≡ true → add b t x ≡ (false, t)
  unfolding add contains
  add_there t x h = rw h

  pub add_new :
      (t : TreeSet Tree) (x : A)
      → contains b t x ≡ false
      → add b t x ≡ (true, record { bt = b.set t.bt x })
  unfolding add contains
  add_new t x h = rw h

  -- Add reports whether no element like the given one was there; then it adds the element, and
  -- otherwise the set stays as it is. The set stays sorted.
  pub add_tree_set :
      (t : TreeSet Tree) (x : A)
      → ((add b t x).0 ≡ not (contains b t x))
        × Ascending cmp (to_slice b (add b t x).1)
        × Perm
            (to_slice b (add b t x).1)
            (if contains b t x then to_slice b t else x ∷ to_slice b t)
  unfolding to_slice
  add_tree_set t x = elim (Bool-cases (contains b t x)) [
    | inl there ↦
        rw (add_there t x there, there) (refl, tree.scan_sorted t.bt, Perm.refl (b.scan t.bt))
    | inr absent ↦
        rw (add_new t x absent, absent)
          (
            refl,
            tree.scan_sorted (b.set t.bt x),
            set-perm law tree t.bt x (sym (contains-holds t x) ∙ absent),
          )
  ]

  -- Remove takes out what Add has added.
  pub remove-add_tree_set :
      (t : TreeSet Tree) (x : A)
      → contains b t x ≡ false
      → ((remove b (add b t x).1 x).0 ≡ true)
        × (to_slice b (remove b (add b t x).1 x).1 ≡ to_slice b t)
  unfolding remove to_slice
  remove-add_tree_set t x h =
      let before = keep (λ y. less cmp y x) (b.scan t.bt) in
      let after = keep (λ y. less cmp x y) (b.scan t.bt) in
      let absent : holds (alike cmp x) (b.scan t.bt) ≡ false = sym (contains-holds t x) ∙ h in
      rw (add_new t x h) (
        ap is_some (tree.delete_finds (b.set t.bt x) x ∙ tree.get_finds (b.set t.bt x) x)
            ∙ found-holds (alike cmp x) (b.scan (b.set t.bt x))
            ∙ ap (holds (alike cmp x)) (tree.set_inserts t.bt x)
            ∙ holds-append (alike cmp x) before (x ∷ after)
            ∙ rw (alike_refl law x) (ground arith),
        tree.delete_erases (b.set t.bt x) x
            ∙ ap (keep (λ y. not (alike cmp x y))) (tree.set_inserts t.bt x)
            ∙ keep-append (λ y. not (alike cmp x y)) before (x ∷ after)
            ∙ rw (alike_refl law x) (
                ap₂ ◌++◌
                  (keep-keep _ (λ y. less cmp y x) (b.scan t.bt)
                    ∙ keep_same _ (λ y. less cmp y x) (b.scan t.bt) λ y. ground arith)
                  (keep-keep _ (λ y. less cmp x y) (b.scan t.bt)
                    ∙ keep_same _ (λ y. less cmp x y) (b.scan t.bt) λ y. ground arith)
                ∙ split_absent law x (b.scan t.bt) (tree.scan_sorted t.bt) absent),
      )

  collect-keep : (p : A → Bool) (dels xs : List A) → collect p dels xs ≡ dels ++ keep p xs
  unfolding collect
  collect-keep p dels [] = sym (append-nil dels)
  collect-keep p dels (x ∷ xs) = elim (Bool-cases (p x)) [
    | inl e ↦ rw e (collect-keep p (dels ++ x ∷ []) xs ∙ append_assoc dels (x ∷ []) (keep p xs))
    | inr e ↦ rw e (collect-keep p dels xs)
  ]

  delete_each-keep :
      (bt : Tree) (vs : List A)
      → b.scan (delete_each b bt vs) ≡ keep (λ y. not (holds (λ v. alike cmp v y) vs)) (b.scan bt)
  unfolding delete_each
  delete_each-keep bt [] = sym (keep_every (b.scan bt))
  delete_each-keep bt (v ∷ vs) =
      delete_each-keep (b.delete bt v).1 vs
      ∙ ap (keep _) (tree.delete_erases bt v)
      ∙ keep-keep _ _ (b.scan bt)
      ∙ keep_same (λ y. not (alike cmp v y) && not (holds (λ w. alike cmp w y) vs))
          (λ y. not (holds (λ w. alike cmp w y) (v ∷ vs))) (b.scan bt) λ y. ground arith

  -- RemoveFunc leaves exactly the elements that do not satisfy the predicate, and counts the others.
  pub remove_func_tree_set :
      (t : TreeSet Tree) (p : A → Bool)
      → (to_slice b (remove_func b t p).1 ≡ keep (λ y. not (p y)) (to_slice b t))
        × ((remove_func b t p).0 + size b (remove_func b t p).1 ≡ size b t)
  unfolding remove_func to_slice size
  remove_func_tree_set t p =
      let xs = b.scan t.bt in
      let left : b.scan (delete_each b t.bt (collect p [] xs)) ≡ keep (λ y. not (p y)) xs =
        ap (λ vs. b.scan (delete_each b t.bt vs)) (collect-keep p [] xs)
        ∙ delete_each-keep t.bt (keep p xs)
        ∙ keep_part law p xs (keep p xs) (tree.scan_sorted t.bt) refl in
      (
        left,
        omega (
          arith,
          tree.len_counts t.bt,
          tree.len_counts (delete_each b t.bt (collect p [] xs)),
          ap length left,
          ap length (collect-keep p [] xs),
          length-keep p xs,
        ),
      )

-- A list with an element in front, or empty if there is none.
abbrev pub put_front {ℓ} : {A : Type ℓ} → Option A → List A → List A
put_front none xs = []
put_front (some x) xs = x ∷ xs

abbrev pub put_back {ℓ} : {A : Type ℓ} → Option A → List A → List A
put_back none xs = []
put_back (some x) xs = xs ++ x ∷ []

module _ {ℓ} {Tree A : Type ℓ} {cmp : Comparator A} {b : BTree Tree A} (law : IsComparator cmp)
    (tree : IsBTree cmp b) where
  pop_first_of :
      (t : TreeSet Tree) (xs : List A)
      → b.scan t.bt ≡ xs
      → b.scan t.bt ≡ put_front (pop_first b t).0 (b.scan (pop_first b t).1.bt)
  unfolding pop_first
  pop_first_of t [] e = rw (pop_first, tree.min_first t.bt, e) refl
  pop_first_of t (x ∷ xs) e =
      let smallest : b.min t.bt ≡ some x = tree.min_first t.bt ∙ ap head? e in
      let sorted : Ascending cmp (x ∷ xs) = rw e at (tree.scan_sorted t.bt) in
      rw (pop_first, smallest)
        (e
          ∙ ap (◌∷◌ x) (sym (tree.delete_erases t.bt x ∙ rw e (keep_others_first law x xs sorted))))

  pop_last_of :
      (t : TreeSet Tree) (xs : List A)
      → b.scan t.bt ≡ xs
      → b.scan t.bt ≡ put_back (pop_last b t).0 (b.scan (pop_last b t).1.bt)
  unfolding pop_last
  pop_last_of t [] e = rw (pop_last, tree.max_last t.bt, e) refl
  pop_last_of t (x ∷ xs) e =
      let top = last_of x xs in
      let largest : b.max t.bt ≡ some top = tree.max_last t.bt ∙ ap last? e in
      let sorted : Ascending cmp (x ∷ xs) = rw e at (tree.scan_sorted t.bt) in
      rw (pop_last, largest)
        (e
          ∙ sym (keep_others_last law x xs sorted)
          ∙ ap (λ ys. ys ++ top ∷ [])
              (sym (tree.delete_erases t.bt top ∙ ap (keep (λ y. not (alike cmp top y))) e)))

  -- PopFirst takes the first element off and PopLast the last, and nothing only if there is none.
  pub pop_ends :
      (t : TreeSet Tree)
      → (to_slice b t ≡ put_front (pop_first b t).0 (to_slice b (pop_first b t).1))
        × (to_slice b t ≡ put_back (pop_last b t).0 (to_slice b (pop_last b t).1))
  unfolding to_slice
  pop_ends t = (pop_first_of t (b.scan t.bt) refl, pop_last_of t (b.scan t.bt) refl)
