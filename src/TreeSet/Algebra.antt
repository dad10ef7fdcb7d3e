-- ===== src/TreeSet/Algebra.antt =====
-- Union, SymmetricDifference and IsSubsetOf.
use mathlib.Core.List.{Permᴰ}
use mathlib.Core.Logic.{∥∥₁_elim, ◌↔◌}
use go_collections.Prelude.{
  ap₂, ℕ, ◌+◌, ◌≡◌, refl, sym, ap, ◌∙◌, Bool, true, false, not, ◌&&◌, ◌||◌, Bool-cases, inl, inr,
  List, [], ◌∷◌, Perm, if◌then◌else◌, arith,
}
use go_collections.Comparator.{Comparator, IsComparator}
use go_collections.HashSet.{OtherSet}
use go_collections.BTree.{alike, BTree, IsBTree}
use go_collections.BTree.Ascending.{holds, holds_same, holds-keep, alike-alike, alike_refl}
use go_collections.BTree.Laws.{set-perm}
use go_collections.TreeSet.{
  TreeSet, to_slice, contains, set_where, add, add_each, add_absent, union, symmetric_difference,
  is_subset_of, is_disjoint, all_pass,
}
use go_collections.TreeSet.Change.{contains-holds, add_there, add_new}
use go_collections.TreeSet.Select.{kept_in_new}

false_of_not : (c : Bool) → not c ≡ true → c ≡ false
false_of_not c h = ground arith

module _ {ℓ} {A : Type ℓ} where
  holds_permuted : (p : A → Bool) {xs ys : List A} → Permᴰ xs ys → holds p xs ≡ holds p ys
  holds_permuted p Permᴰ.nil = refl
  holds_permuted p (Permᴰ.cons e q) = ap₂ (λ x c. p x || c) e (holds_permuted p q)
  holds_permuted p (Permᴰ.swap {a} {b} e f) = rw (sym e, sym f) (ground arith)
  holds_permuted p (Permᴰ.trans q r) = holds_permuted p q ∙ holds_permuted p r

  holds-Perm : (p : A → Bool) {xs ys : List A} → Perm xs ys → holds p xs ≡ holds p ys
  holds-Perm p {xs} {ys} q =
      let same_prop : IsProp (holds p xs ≡ holds p ys) = hlevel in
      ∥∥₁_elim q same_prop λ r. holds_permuted p r

-- What the methods of the other set say of each other: it contains what is like an element that its
-- iteration gives.
abbrev pub IsAlikeSet {ℓ} : {A : Type ℓ} → Comparator A → OtherSet A → Type ℓ
IsAlikeSet {A = A} cmp o = (y : A) → o.contains y ≡ holds (alike cmp y) o.seq

module _ {ℓ} {Tree A : Type ℓ} {cmp : Comparator A} {b : BTree Tree A} (law : IsComparator cmp)
    (tree : IsBTree cmp b) where
  contains_alike :
      (t : TreeSet Tree) (x y : A) → alike cmp x y ≡ true → contains b t x ≡ contains b t y
  contains_alike t x y h =
      contains-holds law tree t x
      ∙ holds_same (alike cmp x) (alike cmp y) (to_slice b t) (λ z. alike-alike law x y z h)
      ∙ sym (contains-holds law tree t y)

  contains-set :
      (t : TreeSet Tree) (x y : A)
      → contains b t x ≡ false
      → contains b (record { bt = b.set t.bt x }) y ≡ alike cmp y x || contains b t y
  unfolding to_slice
  contains-set t x y absent =
      contains-holds law tree (record { bt = b.set t.bt x }) y
      ∙ holds-Perm (alike cmp y)
          (set-perm law tree t.bt x (sym (contains-holds law tree t x) ∙ absent))
      ∙ ap (λ c. alike cmp y x || c) (sym (contains-holds law tree t y))

  contains-add :
      (t : TreeSet Tree) (x y : A) → contains b (add b t x).1 y ≡ alike cmp y x || contains b t y
  contains-add t x y = elim (Bool-cases (contains b t x)) [
    | inl there ↦ rw (add_there law tree t x there) (elim (Bool-cases (alike cmp y x)) [
      | inl e ↦ rw e (contains_alike t y x e ∙ there)
      | inr e ↦ rw e refl
    ])
    | inr absent ↦ rw (add_new law tree t x absent) (contains-set t x y absent)
  ]

  contains-add_each :
      (t : TreeSet Tree) (n : ℕ) (es : List A) (y : A)
      → contains b (add_each b t n es).1 y ≡ holds (alike cmp y) es || contains b t y
  unfolding add_each
  contains-add_each t n [] y = refl
  contains-add_each t n (e ∷ es) y =
      contains-add_each (add b t e).1 (if (add b t e).0 then n + 1 else n) es y
      ∙ rw (contains-add t e y) (ground arith)

  contains-add_absent :
      (t out : TreeSet Tree) (vs : List A) (y : A)
      → contains b (add_absent b t out vs) y
        ≡ contains b out y || holds (alike cmp y) vs && not (contains b t y)
  unfolding add_absent contains
  contains-add_absent t out [] y = ground arith
  contains-add_absent t out (v ∷ vs) y = elim (Bool-cases (contains b t v)) [
    | inl there ↦
        rw (add_absent, there)
          (contains-add_absent t out vs y ∙ (elim (Bool-cases (alike cmp y v)) [
            | inl e ↦ rw (e, contains_alike t y v e ∙ there) (ground arith)
            | inr e ↦ rw e refl
          ]))
    | inr absent ↦
        rw (add_absent, absent)
          (contains-add_absent t (add b out v).1 vs y
            ∙ rw (contains-add out v y) (elim (Bool-cases (alike cmp y v)) [
              | inl e ↦ rw (e, contains_alike t y v e ∙ absent) (ground arith)
              | inr e ↦ rw e refl
            ]))
  ]

  contains-copy :
      (t : TreeSet Tree) (y : A) → contains b (record { bt = b.copy t.bt }) y ≡ contains b t y
  unfolding to_slice
  contains-copy t y =
      contains-holds law tree (record { bt = b.copy t.bt }) y
      ∙ ap (holds (alike cmp y)) (tree.copy_keeps t.bt)
      ∙ sym (contains-holds law tree t y)

  contains_same_other :
      (o : OtherSet A)
      → IsAlikeSet cmp o
      → (x y : A) → alike cmp x y ≡ true
      → o.contains x ≡ o.contains y
  contains_same_other o set x y h =
      set x
      ∙ holds_same (alike cmp x) (alike cmp y) o.seq (λ z. alike-alike law x y z h)
      ∙ sym (set y)

  outside :
      (o : OtherSet A)
      → IsAlikeSet cmp o
      → (y : A) (xs : List A)
      → holds (λ x. not (o.contains x) && alike cmp y x) xs
        ≡ holds (alike cmp y) xs && not (o.contains y)
  outside o set y [] = refl
  outside o set y (x ∷ xs) = elim (Bool-cases (alike cmp y x)) [
    | inl e ↦ rw (e, outside o set y xs, contains_same_other o set y x e) (ground arith)
    | inr e ↦ rw (e, outside o set y xs) (ground arith)
  ]

  contains_others :
      (t : TreeSet Tree) (o : OtherSet A)
      → IsAlikeSet cmp o
      → (y : A)
      → contains b
          (record { bt = set_where b (λ item. not (o.contains item)) b.new_btree (b.scan t.bt) })
          y
        ≡ contains b t y && not (o.contains y)
  unfolding to_slice
  contains_others t o set y =
      contains-holds law tree
        (record { bt = set_where b (λ item. not (o.contains item)) b.new_btree (b.scan t.bt) }) y
      ∙ ap (holds (alike cmp y)) (
          kept_in_new law tree (λ item. not (o.contains item)) (b.scan t.bt)
            (tree.scan_sorted t.bt))
      ∙ holds-keep (alike cmp y) (λ item. not (o.contains item)) (b.scan t.bt)
      ∙ outside o set y (b.scan t.bt)
      ∙ ap (λ c. c && not (o.contains y)) (sym (contains-holds law tree t y))

  -- Union contains what either set contains, and SymmetricDifference what exactly one of them
  -- contains, of elements up to likeness, where the other set is one.
  pub contains-union-symmetric_difference :
      (t : TreeSet Tree) (o : OtherSet A)
      → IsAlikeSet cmp o
      → (y : A)
      → (contains b (union b t o) y ≡ contains b t y || o.contains y)
        × (contains b (symmetric_difference b t o) y
            ≡ contains b t y && not (o.contains y) || o.contains y && not (contains b t y))
  unfolding union symmetric_difference
  contains-union-symmetric_difference t o set y = (
    contains-add_each (record { bt = b.copy t.bt }) 0 o.seq y
        ∙ rw (set y, contains-copy t y) (ground arith),
    contains-add_absent t
          (record { bt = set_where b (λ item. not (o.contains item)) b.new_btree (b.scan t.bt) })
          o.seq y
        ∙ rw (contains_others t o set y) (
            ap (λ c. contains b t y && not (o.contains y) || c && not (contains b t y))
              (sym (set y))),
  )

  all_pass-alike :
      (test : A → Bool) (y : A)
      → ((x : A) → alike cmp y x ≡ true → test y ≡ test x)
      → (xs : List A) → all_pass test xs ≡ true
      → holds (alike cmp y) xs ≡ true
      → test y ≡ true
  unfolding all_pass
  all_pass-alike test y same [] all there = ground arith
  all_pass-alike test y same (x ∷ xs) all there = elim (Bool-cases (alike cmp y x)) [
    | inl e ↦ same x e ∙ ground arith
    | inr e ↦ all_pass-alike test y same xs (ground arith) (ground arith)
  ]

  all_pass_of_holds :
      (test : A → Bool) (xs : List A)
      → ((y : A) → holds (alike cmp y) xs ≡ true → test y ≡ true)
      → all_pass test xs ≡ true
  unfolding all_pass
  all_pass_of_holds test [] h = refl
  all_pass_of_holds test (x ∷ xs) h =
      rw (h x (rw (alike_refl law x) refl))
        (all_pass_of_holds test xs λ y k. h y (rw k (ground arith)))

  -- IsSubsetOf says whether the other set contains every element that the receiver contains, and
  -- IsDisjoint whether it contains none of them, where the other set is one.
  pub is_subset_of-is_disjoint :
      (t : TreeSet Tree) (o : OtherSet A)
      → IsAlikeSet cmp o
      → ((is_subset_of b t o ≡ true) ↔ ((y : A) → contains b t y ≡ true → o.contains y ≡ true))
        × ((is_disjoint b t o ≡ true) ↔ ((y : A) → contains b t y ≡ true → o.contains y ≡ false))
  unfolding to_slice is_subset_of is_disjoint
  is_subset_of-is_disjoint t o set =
      let found : (y : A) → contains b t y ≡ holds (alike cmp y) (b.scan t.bt) =
        contains-holds law tree t in
      let same : (x y : A) → alike cmp x y ≡ true → o.contains x ≡ o.contains y =
        contains_same_other o set in
      (
        (
          (λ all y h. all_pass-alike o.contains y (same y) (b.scan t.bt) all (sym (found y) ∙ h)),
          (λ h. all_pass_of_holds o.contains (b.scan t.bt) λ y k. h y (found y ∙ k)),
        ),
        (
          (λ all y h. false_of_not (o.contains y) (
              all_pass-alike (λ x. not (o.contains x)) y (λ x e. ap not (same y x e)) (b.scan t.bt)
                all (sym (found y) ∙ h))),
          (λ h.
              all_pass_of_holds (λ x. not (o.contains x)) (b.scan t.bt)
                λ y k. ap not (h y (found y ∙ k))),
        ),
      )
