-- ===== src/BTree/Parts.antt =====
-- Parts of a sorted list that a deletion takes out.
use go_collections.Prelude.{
  ◌≡◌, refl, ap, ◌∙◌, Bool, true, false, not, ◌||◌, Bool-cases, inl, inr, List, [], ◌∷◌, ◌++◌,
  arith,
}
use go_collections.Comparator.{Comparator, IsComparator}
use go_collections.BTree.{keep, last_of, less, alike, Before, Ascending}
use go_collections.BTree.Ascending.{holds, alike_refl}
use go_collections.BTree.Laws.{keep_after, keep_same_after, holds_none_after, Before-keep}

module _ {ℓ} {A : Type ℓ} where
  pub keep_every : (xs : List A) → keep (λ y. true) xs ≡ xs
  keep_every [] = refl
  keep_every (x ∷ xs) = ap (◌∷◌ x) (keep_every xs)

module _ {ℓ} {A : Type ℓ} {cmp : Comparator A} (law : IsComparator cmp) where
  pub alike_comm : (x y : A) → alike cmp x y ≡ alike cmp y x
  alike_comm x y = ground arith

  pub not_alike_of_less : (x y : A) → less cmp x y ≡ true → alike cmp x y ≡ false
  not_alike_of_less x y h = rw h

  -- In a sorted list, what is like an element of a part is that element.
  pub keep_part :
      (p : A → Bool) (xs vs : List A)
      → Ascending cmp xs
      → vs ≡ keep p xs
      → keep (λ y. not (holds (λ v. alike cmp v y) vs)) xs ≡ keep (λ y. not (p y)) xs
  keep_part p [] vs s q = refl
  keep_part p (x ∷ xs) vs (first, rest) q =
      let part : List A → List A = λ ws. keep (λ y. not (holds (λ v. alike cmp v y) ws)) (x ∷ xs) in
      elim (Bool-cases (p x)) [
        | inl e ↦
            let q' : vs ≡ x ∷ keep p xs = q ∙ rw e in
            ap part q'
            ∙ rw (e, alike_refl law x)
                (keep_same_after law x
                    (λ y. not (alike cmp x y || holds (λ v. alike cmp v y) (keep p xs)))
                    (λ y. not (holds (λ v. alike cmp v y) (keep p xs))) xs first
                    (λ y h. rw (not_alike_of_less x y h) refl)
                  ∙ keep_part p xs (keep p xs) rest refl)
        | inr e ↦
            let q' : vs ≡ keep p xs = q ∙ rw e in
            let apart : holds (λ v. alike cmp v x) (keep p xs) ≡ false =
              holds_none_after law x (λ v. alike cmp v x) (keep p xs) (Before-keep law x p xs first)
                λ y h. alike_comm y x ∙ not_alike_of_less x y h in
            ap part q' ∙ rw (e, apart) (ap (◌∷◌ x) (keep_part p xs (keep p xs) rest refl))
      ]

  pub keep_others_first :
      (x : A) (xs : List A) → Ascending cmp (x ∷ xs) → keep (λ y. not (alike cmp x y)) (x ∷ xs) ≡ xs
  keep_others_first x xs s =
      rw (alike_refl law x)
        (keep_after law x (λ y. not (alike cmp x y)) xs s.0 λ y h. rw (not_alike_of_less x y h))

  pub keep_others_last :
      (x : A) (xs : List A)
      → Ascending cmp (x ∷ xs)
      → keep (λ y. not (alike cmp (last_of x xs) y)) (x ∷ xs) ++ last_of x xs ∷ [] ≡ x ∷ xs
  keep_others_last x [] s = rw (alike_refl law x)
  keep_others_last x (y ∷ ys) (first, rest) =
      let apart : alike cmp (last_of y ys) x ≡ false =
        alike_comm (last_of y ys) x
        ∙ not_alike_of_less x (last_of y ys) (Before-last x y ys first) in
      rw apart (ap (◌∷◌ x) (keep_others_last y ys rest))
    where
      Before-last :
          (x y : A) (ys : List A) → Before cmp x (y ∷ ys) → less cmp x (last_of y ys) ≡ true
      Before-last x y [] b = b.0
      Before-last x y (z ∷ zs) b = Before-last x z zs b.1
