-- ===== src/BTree/Ascending.antt =====
-- Sorted lists, and the tests that split them.
use go_collections.Prelude.{
  ◌+◌, length, ◌≡◌, refl, ap, Bool, true, false, not, ◌&&◌, ◌||◌, Bool-cases, inl, inr, List, [],
  ◌∷◌, ◌++◌, arith,
}
use go_collections.Comparator.{Comparator, IsComparator, asym, irrefl}
use go_collections.BTree.{keep, head?, is_some, less, alike}

module _ {ℓ} {A : Type ℓ} where
  -- Some element passes the test.
  abbrev pub holds : (A → Bool) → List A → Bool
  holds p [] = false
  holds p (x ∷ xs) = p x || holds p xs

  pub keep-append : (p : A → Bool) (xs ys : List A) → keep p (xs ++ ys) ≡ keep p xs ++ keep p ys
  keep-append p [] ys = refl
  keep-append p (x ∷ xs) ys = elim (Bool-cases (p x)) [
    | inl e ↦ rw e (ap (◌∷◌ x) (keep-append p xs ys))
    | inr e ↦ rw e (keep-append p xs ys)
  ]

  pub keep-keep : (p q : A → Bool) (xs : List A) → keep p (keep q xs) ≡ keep (λ x. q x && p x) xs
  keep-keep p q [] = refl
  keep-keep p q (x ∷ xs) = elim (Bool-cases (q x)) [
    | inl e ↦ elim (Bool-cases (p x)) [
      | inl f ↦ rw (e, f) (ap (◌∷◌ x) (keep-keep p q xs))
      | inr f ↦ rw (e, f) (keep-keep p q xs)
    ]
    | inr e ↦ rw e (keep-keep p q xs)
  ]

  pub keep_same : (p q : A → Bool) (xs : List A) → ((x : A) → p x ≡ q x) → keep p xs ≡ keep q xs
  keep_same p q [] h = refl
  keep_same p q (x ∷ xs) h = rw (h x, keep_same p q xs h)

  pub keep_none : (p : A → Bool) (xs : List A) → ((x : A) → p x ≡ false) → keep p xs ≡ []
  keep_none p [] h = refl
  keep_none p (x ∷ xs) h = rw (h x) (keep_none p xs h)

  pub holds-keep : (p q : A → Bool) (xs : List A) → holds p (keep q xs) ≡ holds (λ x. q x && p x) xs
  holds-keep p q [] = refl
  holds-keep p q (x ∷ xs) = elim (Bool-cases (q x)) [
    | inl e ↦ rw e (ap (λ b. p x || b) (holds-keep p q xs))
    | inr e ↦ rw e (holds-keep p q xs)
  ]

  pub holds-append : (p : A → Bool) (xs ys : List A) → holds p (xs ++ ys) ≡ holds p xs || holds p ys
  holds-append p [] ys = refl
  holds-append p (x ∷ xs) ys = rw (holds-append p xs ys) (ground arith)

  pub holds_same : (p q : A → Bool) (xs : List A) → ((x : A) → p x ≡ q x) → holds p xs ≡ holds q xs
  holds_same p q [] h = refl
  holds_same p q (x ∷ xs) h = rw (h x, holds_same p q xs h)

  -- A search finds something exactly if something passes.
  pub found-holds : (p : A → Bool) (xs : List A) → is_some (head? (keep p xs)) ≡ holds p xs
  found-holds p [] = refl
  found-holds p (x ∷ xs) = elim (Bool-cases (p x)) [
    | inl e ↦ rw e
    | inr e ↦ rw e (found-holds p xs)
  ]

  pub length-keep :
      (p : A → Bool) (xs : List A)
      → length (keep p xs) + length (keep (λ x. not (p x)) xs) ≡ length xs
  length-keep p [] = omega arith
  length-keep p (x ∷ xs) = elim (Bool-cases (p x)) [
    | inl e ↦ rw e (omega (arith, length-keep p xs))
    | inr e ↦ rw e (omega (arith, length-keep p xs))
  ]

module _ {ℓ} {A : Type ℓ} {cmp : Comparator A} (law : IsComparator cmp) where
  pub less_between : (a b m : A) → less cmp a b ≡ true → less cmp a m ≡ false → less cmp m b ≡ true
  less_between a b m h k = elim (Bool-cases (less cmp m b)) [
    | inl e ↦ e
    | inr e ↦ let no = law.trans b m a e k in absurd (ground arith)
  ]

  pub less_trans : (a b c : A) → less cmp a b ≡ true → less cmp b c ≡ true → less cmp a c ≡ true
  less_trans a b c h k = elim (Bool-cases (less cmp a c)) [
    | inl e ↦ e
    | inr e ↦ let back = less_between a b c h e in let no = asym law b c k in absurd (ground arith)
  ]

  pub alike_refl : (a : A) → alike cmp a a ≡ true
  alike_refl a = rw (irrefl law a)

  pub less-alike_left : (a b c : A) → alike cmp a b ≡ true → less cmp a c ≡ less cmp b c
  less-alike_left a b c h = elim (Bool-cases (less cmp a c)) [
    | inl e ↦ let k = less_between a c b e (ground arith) in ground arith
    | inr e ↦ elim (Bool-cases (less cmp b c)) [
      | inl f ↦ let k = less_between b c a f (ground arith) in ground arith
      | inr f ↦ ground arith
    ]
  ]

  pub less-alike_right : (a b c : A) → alike cmp a b ≡ true → less cmp c a ≡ less cmp c b
  less-alike_right a b c h = elim (Bool-cases (less cmp c a)) [
    | inl e ↦ elim (Bool-cases (less cmp c b)) [
      | inl f ↦ ground arith
      | inr f ↦ let k = less_between c a b e f in ground arith
    ]
    | inr e ↦ elim (Bool-cases (less cmp c b)) [
      | inl f ↦ let k = less_between c b a f e in ground arith
      | inr f ↦ ground arith
    ]
  ]

  pub alike-alike : (a b c : A) → alike cmp a b ≡ true → alike cmp a c ≡ alike cmp b c
  alike-alike a b c h = rw (less-alike_left a b c h, less-alike_right a b c h)
