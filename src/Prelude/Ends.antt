-- ===== src/Prelude/Ends.antt =====
-- The two ends of a list, as calls that take an element off return them: the element or Go's
-- zero value, whether there was one, and the rest.
use Prim.Native.Nat.{suc}
use mathlib.Core.Path.{◌≡◌, refl, ap, ◌∙◌}
use mathlib.Core.Bool.{Bool, true, false}
use mathlib.Core.List.{List, [], ◌∷◌, ◌++◌}
use native.Mathlib.Numerals.{add-one}
use native.Mathlib.Omega.{arith}
use go_collections.Prelude.Tests.{◌==◌}
use go_collections.Prelude.Lists.{
  length, get_or, take, length-append, get_or-append_right, take_append,
}

-- What a call that takes the front off a list returns.
abbrev pub uncons {ℓ} : {A : Type ℓ} → A → List A → A × Bool × List A
uncons zero_value [] = (zero_value, false, [])
uncons zero_value (x ∷ xs) = (x, true, xs)

-- What a call that takes the back off a list returns.
abbrev pub unsnoc {ℓ} : {A : Type ℓ} → A → List A → A × Bool × List A
unsnoc zero_value [] = (zero_value, false, [])
unsnoc zero_value (x ∷ xs) =
    (get_or (x ∷ xs) (length xs) zero_value, true, take (length xs) (x ∷ xs))

-- The list has no element.
abbrev pub none_left {ℓ} : {A : Type ℓ} → List A → Bool
none_left [] = true
none_left (x ∷ xs) = false

pub length-none_left {ℓ} : {A : Type ℓ} (xs : List A) → (length xs == 0) ≡ none_left xs
length-none_left [] = refl
length-none_left (x ∷ xs) = ground arith

pub unsnoc-append {ℓ} :
    {A : Type ℓ} (d : A) (xs : List A) (y : A) → unsnoc d (xs ++ y ∷ []) ≡ (y, true, xs)
unsnoc-append d [] y = refl
unsnoc-append d (x ∷ xs) y =
    let len : length (xs ++ y ∷ []) ≡ suc (length xs) =
      length-append xs (y ∷ []) ∙ add-one (length xs) in
    let last : get_or (xs ++ y ∷ []) (length xs) d ≡ y =
      get_or-append_right xs (y ∷ []) (length xs) d (omega arith)
      ∙ ap (λ k. get_or (y ∷ []) k d) {y = 0} (omega arith) in
    rw (len, last, take_append xs (y ∷ []))
