-- ===== src/TreeSet/Select.antt =====
-- The methods that make a new set of a part of the elements, and the ranges.
use mathlib.Core.List.{append_assoc, append-nil}
use go_collections.Prelude.{◌≡◌, sym, ap, ◌∙◌, Bool, not, Bool-cases, inl, inr, List, [], ◌∷◌, ◌++◌}
use go_collections.Comparator.{Comparator, IsComparator}
use go_collections.HashSet.{OtherSet}
use go_collections.BTree.{keep, Ascending, BTree, IsBTree}
use go_collections.BTree.Laws.{set_last, Ascending-skip}
use go_collections.TreeSet.{TreeSet, to_slice, set_where, filter, intersection, difference}

module _ {ℓ} {Tree A : Type ℓ} {cmp : Comparator A} {b : BTree Tree A} (law : IsComparator cmp)
    (tree : IsBTree cmp b) where
  -- The order goes on where an element has been set.
  pub set-Ascending :
      (out : Tree) (x : A) (xs : List A)
      → Ascending cmp (b.scan out ++ x ∷ xs)
      → Ascending cmp (b.scan (b.set out x) ++ xs)
  set-Ascending out x xs s =
      rw (set_last law tree out x xs s, append_assoc (b.scan out) (x ∷ []) xs) s

  pub set-append :
      (out : Tree) (x : A) (xs ys : List A)
      → Ascending cmp (b.scan out ++ x ∷ xs)
      → b.scan (b.set out x) ++ ys ≡ b.scan out ++ x ∷ ys
  set-append out x xs ys s =
      ap (λ zs. zs ++ ys) (set_last law tree out x xs s) ∙ append_assoc (b.scan out) (x ∷ []) ys

  pub set_where-keep :
      (p : A → Bool) (out : Tree) (xs : List A)
      → Ascending cmp (b.scan out ++ xs)
      → b.scan (set_where b p out xs) ≡ b.scan out ++ keep p xs
  unfolding set_where
  set_where-keep p out [] s = sym (append-nil (b.scan out))
  set_where-keep p out (x ∷ xs) s = elim (Bool-cases (p x)) [
    | inl e ↦
        rw (set_where, e)
          (set_where-keep p (b.set out x) xs (set-Ascending out x xs s)
            ∙ set-append out x xs (keep p xs) s)
    | inr e ↦ rw (set_where, e) (set_where-keep p out xs (Ascending-skip law x (b.scan out) xs s))
  ]

  -- A new tree is a start for any sorted list.
  pub start : (xs : List A) → Ascending cmp xs → Ascending cmp (b.scan b.new_btree ++ xs)
  start xs s = rw tree.new_empty s

  pub kept_in_new :
      (p : A → Bool) (xs : List A)
      → Ascending cmp xs
      → b.scan (set_where b p b.new_btree xs) ≡ keep p xs
  kept_in_new p xs s =
      set_where-keep p b.new_btree xs (start xs s) ∙ ap (λ ys. ys ++ keep p xs) tree.new_empty

  -- Filter, Intersection and Difference keep, of the receiver's own elements, those that satisfy the
  -- predicate, that the other set contains, and that it does not contain.
  pub tree_set_parts :
      (t : TreeSet Tree) (o : OtherSet A) (p : A → Bool)
      → (to_slice b (filter b t p) ≡ keep p (to_slice b t))
        × (to_slice b (intersection b t o) ≡ keep o.contains (to_slice b t))
        × (to_slice b (difference b t o) ≡ keep (λ y. not (o.contains y)) (to_slice b t))
  unfolding to_slice filter intersection difference
  tree_set_parts t o p =
      let s = tree.scan_sorted t.bt in
      (
        kept_in_new p (b.scan t.bt) s,
        kept_in_new o.contains (b.scan t.bt) s,
        kept_in_new (λ y. not (o.contains y)) (b.scan t.bt) s,
      )
