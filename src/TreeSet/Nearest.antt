-- ===== src/TreeSet/Nearest.antt =====
-- Floor, Ceiling, Lower and Higher.
use mathlib.Core.List.{append_assoc, append-nil}
use go_collections.Prelude.{
  ◌≡◌, refl, ap, ◌∙◌, Bool, not, ◌&&◌, Bool-cases, inl, inr, some, List, [], ◌∷◌, ◌++◌, arith,
}
use go_collections.Prelude.Int.{is_neg, is_pos}
use go_collections.Comparator.{Comparator, IsComparator, asym}
use go_collections.BTree.{keep, head?, last?, last_of, backward, less, BTree, IsBTree}
use go_collections.BTree.Ascending.{keep-keep, keep_same, keep-append}
use go_collections.TreeSet.{TreeSet, to_slice, first_of, first_where, floor, ceiling, lower, higher}

module _ {ℓ} {A : Type ℓ} where
  first_of-head? : (xs : List A) → first_of xs ≡ head? xs
  unfolding first_of
  first_of-head? [] = refl
  first_of-head? (x ∷ xs) = refl

  first_where-keep : (p : A → Bool) (xs : List A) → first_where p xs ≡ head? (keep p xs)
  unfolding first_where
  first_where-keep p [] = refl
  first_where-keep p (x ∷ xs) = elim (Bool-cases (p x)) [
    | inl e ↦ rw (first_where, e)
    | inr e ↦ rw (first_where, e) (first_where-keep p xs)
  ]

  head-backward : (x : A) (xs zs : List A) → head? (backward (x ∷ xs) ++ zs) ≡ some (last_of x xs)
  head-backward x [] zs = refl
  head-backward x (y ∷ ys) zs =
      ap head? (append_assoc (backward (y ∷ ys)) (x ∷ []) zs) ∙ head-backward y ys (x ∷ zs)

  last-backward : (xs : List A) → head? (backward xs) ≡ last? xs
  last-backward [] = refl
  last-backward (x ∷ []) = refl
  last-backward (x ∷ y ∷ ys) = head-backward y ys (x ∷ [])

  keep-backward : (p : A → Bool) (xs : List A) → keep p (backward xs) ≡ backward (keep p xs)
  keep-backward p [] = refl
  keep-backward p (x ∷ xs) =
      keep-append p (backward xs) (x ∷ [])
      ∙ rw (keep-backward p xs) (elim (Bool-cases (p x)) [
        | inl e ↦ rw e
        | inr e ↦ rw e (append-nil (backward (keep p xs)))
      ])

module _ {ℓ} {Tree A : Type ℓ} {cmp : Comparator A} {b : BTree Tree A} (law : IsComparator cmp)
    (tree : IsBTree cmp b) where
  -- Floor is the last element that is not after the bound and Lower the last before it; Ceiling is
  -- the first that is not before it and Higher the first after it. Each has nothing only if there is
  -- no such element.
  pub nearest_elements :
      (t : TreeSet Tree) (x : A)
      → (floor b t x ≡ last? (keep (λ y. not (less cmp x y)) (to_slice b t)))
        × (lower b cmp t x ≡ last? (keep (λ y. less cmp y x) (to_slice b t)))
        × (ceiling b t x ≡ head? (keep (λ y. not (less cmp y x)) (to_slice b t)))
        × (higher b cmp t x ≡ head? (keep (λ y. less cmp x y) (to_slice b t)))
  unfolding to_slice floor lower ceiling higher
  nearest_elements t x =
      let xs = b.scan t.bt in
      let up_to_x = λ (y : A). not (less cmp x y) in
      let from_x = λ (y : A). not (less cmp y x) in
      (
        first_of-head? (b.descend t.bt x)
            ∙ ap head? (tree.descend_from t.bt x)
            ∙ last-backward (keep up_to_x xs),
        first_where-keep (λ y. is_neg (cmp y x)) (b.descend t.bt x)
            ∙ ap (λ ys. head? (keep (λ y. is_neg (cmp y x)) ys)) (tree.descend_from t.bt x)
            ∙ ap head? (keep-backward (λ y. is_neg (cmp y x)) (keep up_to_x xs))
            ∙ last-backward (keep (λ y. is_neg (cmp y x)) (keep up_to_x xs))
            ∙ ap last? (
                keep-keep (λ y. is_neg (cmp y x)) up_to_x xs
                ∙ keep_same _ (λ y. less cmp y x) xs λ y. not_after_of_less x y),
        first_of-head? (b.ascend t.bt x) ∙ ap head? (tree.ascend_from t.bt x),
        first_where-keep (λ y. is_pos (cmp y x)) (b.ascend t.bt x)
            ∙ ap (λ ys. head? (keep (λ y. is_pos (cmp y x)) ys)) (tree.ascend_from t.bt x)
            ∙ ap head? (
                keep-keep (λ y. is_pos (cmp y x)) from_x xs
                ∙ keep_same _ (λ y. less cmp x y) xs λ y. not_before_of_less x y),
      )
    where
      not_after_of_less : (x y : A) → not (less cmp x y) && less cmp y x ≡ less cmp y x
      not_after_of_less x y = elim (Bool-cases (less cmp y x)) [
        | inl e ↦ rw (e, asym law y x e) refl
        | inr e ↦ rw e (ground arith)
      ]

      not_before_of_less : (x y : A) → not (less cmp y x) && is_pos (cmp y x) ≡ less cmp x y
      not_before_of_less x y = rw (law.flip y x) (elim (Bool-cases (less cmp x y)) [
        | inl e ↦ rw (e, asym law x y e) refl
        | inr e ↦ rw e (ground arith)
      ])
