-- ===== src/TreeSet/Ranges.antt =====
-- HeadSet, TailSet, SubSet and the ranges between two bounds.
use mathlib.Core.List.{append-nil}
use go_collections.Prelude.{
  ◌≡◌, refl, sym, ap, ◌∙◌, Bool, true, false, not, ◌&&◌, ◌||◌, Bool-cases, inl, inr, List, [], ◌∷◌,
  ◌++◌, if◌then◌else◌, arith,
}
use go_collections.Prelude.Int.{is_neg, is_pos}
use go_collections.Comparator.{Comparator, IsComparator, asym}
use go_collections.BTree.{keep, less, Before, Ascending, BTree, IsBTree}
use go_collections.BTree.Ascending.{less_trans, less_between, keep-keep, keep_same, keep_none}
use go_collections.BTree.Laws.{keep_none_after, Ascending-keep}
use go_collections.TreeSet.{
  TreeSet, new, to_slice, is_zero, set_below, head_set, tail_set, set_up_to, sub_set, up_to,
  range_seq,
}
use go_collections.TreeSet.Select.{set-Ascending, set-append, start, kept_in_new}

module _ {ℓ} {Tree A : Type ℓ} {cmp : Comparator A} {b : BTree Tree A} (law : IsComparator cmp)
    (tree : IsBTree cmp b) where
  stops : (to y z : A) → is_pos (cmp y to) ≡ true → less cmp y z ≡ true → is_pos (cmp z to) ≡ true
  stops to y z h k = law.flip z to ∙ less_trans law to y z (sym (law.flip y to) ∙ h) k

  none_after :
      (to x : A) (xs : List A)
      → is_pos (cmp x to) ≡ true
      → Before cmp x xs
      → keep (λ y. not (is_pos (cmp y to))) xs ≡ []
  none_after to x xs h before =
      keep_none_after law x (λ y. not (is_pos (cmp y to))) xs before λ y k. rw (stops to x y h k)

  up_to-keep :
      (to : A) (xs : List A)
      → Ascending cmp xs
      → up_to b cmp to xs ≡ keep (λ y. not (is_pos (cmp y to))) xs
  unfolding up_to
  up_to-keep to [] s = refl
  up_to-keep to (x ∷ xs) (first, rest) = elim (Bool-cases (is_pos (cmp x to))) [
    | inl e ↦ rw (up_to, e) (sym (none_after to x xs e first))
    | inr e ↦ rw (up_to, e) (ap (◌∷◌ x) (up_to-keep to xs rest))
  ]

  set_up_to-keep :
      (to : A) (out : Tree) (xs : List A)
      → Ascending cmp (b.scan out ++ xs)
      → Ascending cmp xs
      → b.scan (set_up_to b cmp to out xs) ≡ b.scan out ++ keep (λ y. not (is_pos (cmp y to))) xs
  unfolding set_up_to
  set_up_to-keep to out [] s r = sym (append-nil (b.scan out))
  set_up_to-keep to out (x ∷ xs) s (first, rest) = elim (Bool-cases (is_pos (cmp x to))) [
    | inl e ↦ rw (set_up_to, e, none_after to x xs e first) (sym (append-nil (b.scan out)))
    | inr e ↦
        rw (set_up_to, e)
          (set_up_to-keep to (b.set out x) xs (set-Ascending law tree out x xs s) rest
            ∙ set-append law tree out x xs (keep (λ y. not (is_pos (cmp y to))) xs) s)
  ]

  -- HeadSet's test, in terms of the order.
  abbrev below : A → Bool → A → Bool
  below to inclusive y = is_neg (cmp y to) || (inclusive && is_zero b cmp (cmp y to))

  below-less :
      (to : A) (inclusive : Bool) (y : A)
      → below to inclusive y ≡ (if inclusive then not (less cmp to y) else less cmp y to)
  below-less to true y = elim (Bool-cases (less cmp y to)) [
    | inl e ↦ rw (e, asym law y to e) refl
    | inr e ↦ rw (law.flip y to, e) refl
  ]
  below-less to false y = ground arith

  below_stops :
      (to : A) (inclusive : Bool) (x y : A)
      → below to inclusive x ≡ false
      → less cmp x y ≡ true
      → below to inclusive y ≡ false
  below_stops to true x y h k =
      let passed : not (less cmp to x) ≡ false = sym (below-less to true x) ∙ h in
      below-less to true y ∙ ap not (less_trans law to x y (ground arith) k)
  below_stops to false x y h k = elim (Bool-cases (less cmp y to)) [
    | inl e ↦ let before = less_trans law x y to k e in absurd (ground arith)
    | inr e ↦ below-less to false y ∙ e
  ]

  set_below-keep :
      (to : A) (inclusive : Bool) (out : Tree) (xs : List A)
      → Ascending cmp (b.scan out ++ xs)
      → Ascending cmp xs
      → b.scan (set_below b cmp to inclusive out xs) ≡ b.scan out ++ keep (below to inclusive) xs
  unfolding set_below
  set_below-keep to inclusive out [] s r = sym (append-nil (b.scan out))
  set_below-keep to inclusive out (x ∷ xs) s (first, rest) =
      elim (Bool-cases (below to inclusive x)) [
        | inl e ↦
            rw (set_below, e)
              (set_below-keep to inclusive (b.set out x) xs (set-Ascending law tree out x xs s) rest
                ∙ set-append law tree out x xs (keep (below to inclusive) xs) s)
        | inr e ↦
            let none : keep (below to inclusive) xs ≡ [] =
              keep_none_after law x (below to inclusive) xs first
                λ y k. below_stops to inclusive x y e k in
            rw (set_below, e, none) (sym (append-nil (b.scan out)))
      ]

  abbrev wanted : A → Bool → A → Bool
  wanted from inclusive y = is_pos (cmp y from) || (inclusive && is_zero b cmp (cmp y from))

  wanted-less :
      (from : A) (inclusive : Bool) (y : A)
      → not (less cmp y from) && wanted from inclusive y
        ≡ (if inclusive then not (less cmp y from) else less cmp from y)
  wanted-less from true y = ground arith
  wanted-less from false y = elim (Bool-cases (less cmp y from)) [
    | inl e ↦ rw (e, asym law y from e) refl
    | inr e ↦ rw (law.flip y from, e) (ground arith)
  ]

  -- HeadSet has the elements before the bound and TailSet those after it, with what is like the
  -- bound if asked for.
  pub head_set-tail_set :
      (t : TreeSet Tree) (x : A) (inclusive : Bool)
      → (to_slice b (head_set b cmp t x inclusive)
          ≡ keep (λ y. if inclusive then not (less cmp x y) else less cmp y x) (to_slice b t))
        × (to_slice b (tail_set b cmp t x inclusive)
            ≡ keep (λ y. if inclusive then not (less cmp y x) else less cmp x y) (to_slice b t))
  unfolding to_slice head_set tail_set
  head_set-tail_set t x inclusive =
      let xs = b.scan t.bt in
      let s = tree.scan_sorted t.bt in
      (
        set_below-keep x inclusive b.new_btree xs (start law tree xs s) s
            ∙ ap (λ ys. ys ++ keep (below x inclusive) xs) tree.new_empty
            ∙ keep_same (below x inclusive) _ xs (below-less x inclusive),
        kept_in_new law tree (wanted x inclusive) (b.ascend t.bt x)
              (rw (tree.ascend_from t.bt x) (Ascending-keep law (λ y. not (less cmp y x)) xs s))
            ∙ ap (keep (wanted x inclusive)) (tree.ascend_from t.bt x)
            ∙ keep-keep (wanted x inclusive) (λ y. not (less cmp y x)) xs
            ∙ keep_same _ (λ y. if inclusive then not (less cmp y x) else less cmp x y) xs
                (wanted-less x inclusive),
      )

  outside :
      (from to y : A)
      → less cmp to from ≡ true
      → not (less cmp y from) && not (less cmp to y) ≡ false
  outside from to y h = elim (Bool-cases (less cmp to y)) [
    | inl e ↦ rw e (ground arith)
    | inr e ↦ rw (less_between law to from y h e) refl
  ]

  -- SubSet has, and RangeSeq yields, the elements from the first bound to the second.
  pub sub_set-range_seq :
      (t : TreeSet Tree) (from to : A)
      → (to_slice b (sub_set b cmp t from to)
          ≡ keep (λ y. not (less cmp y from) && not (less cmp to y)) (to_slice b t))
        × (range_seq b cmp t from to ≡ to_slice b (sub_set b cmp t from to))
  unfolding to_slice sub_set range_seq new
  sub_set-range_seq t from to =
      let xs = b.scan t.bt in
      let above = keep (λ y. not (less cmp y from)) xs in
      let s : Ascending cmp above =
        Ascending-keep law (λ y. not (less cmp y from)) xs (tree.scan_sorted t.bt) in
      let cut : keep (λ y. not (is_pos (cmp y to))) above
          ≡ keep (λ y. not (less cmp y from) && not (less cmp to y)) xs =
        keep-keep (λ y. not (is_pos (cmp y to))) (λ y. not (less cmp y from)) xs
        ∙ keep_same _ _ xs λ y. ap (λ p. not (less cmp y from) && not p) (law.flip y to) in
      elim (Bool-cases (is_pos (cmp from to))) [
        | inl e ↦
            let none : keep (λ y. not (less cmp y from) && not (less cmp to y)) xs ≡ [] =
              keep_none _ xs λ y. outside from to y (sym (law.flip from to) ∙ e) in
            rw (sub_set, range_seq, new, e) (tree.new_empty ∙ sym none, sym tree.new_empty)
        | inr e ↦
            rw (sub_set, range_seq, e, tree.ascend_from t.bt from)
              (
                set_up_to-keep to b.new_btree above (start law tree above s) s
                    ∙ ap (λ ys. ys ++ keep (λ y. not (is_pos (cmp y to))) above) tree.new_empty
                    ∙ cut,
                up_to-keep to above s
                    ∙ sym (
                        set_up_to-keep to b.new_btree above (start law tree above s) s
                        ∙ ap (λ ys. ys ++ keep (λ y. not (is_pos (cmp y to))) above)
                            tree.new_empty),
              )
      ]
