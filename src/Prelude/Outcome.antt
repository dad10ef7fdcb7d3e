-- ===== src/Prelude/Outcome.antt =====
-- How a Go call ends, and the rules for calls that return.
use mathlib.Core.Path.{◌≡◌, refl}
use mathlib.Core.Bool.{Bool, true, false}
use go_collections.Prelude.Tests.{if◌then◌else◌}

-- `diverged` is the end of a loop's fuel.
pub data Outcome {ℓ} (A : Type ℓ) : Type ℓ where
  returned : A → Outcome A
  panicked diverged : Outcome A

infixl 5 ◌>>=◌
abbrev pub ◌>>=◌ {ℓ κ} : {A : Type ℓ} {B : Type κ} → Outcome A → (A → Outcome B) → Outcome B
returned a >>= f = f a
panicked >>= f = panicked
diverged >>= f = diverged

-- The call returns, with a value of which `P` holds.
pub data Returns {ℓ κ} {A : Type ℓ} (P : A → Type κ) : Outcome A → Type (ℓ ⊔ κ) where
  returns : {a : A} → P a → Returns P (returned a)

module _ {ℓ κ} {A : Type ℓ} {P : A → Type κ} where
  -- What a returning call is good for, as an equation.
  pub Returns-value : {r : Outcome A} → Returns P r → (a : A) × (r ≡ returned a) × P a
  Returns-value (returns p) = (_, refl, p)

  pub Returns-weaken {μ} :
      {Q : A → Type μ} {r : Outcome A} → Returns P r → ((a : A) → P a → Q a) → Returns Q r
  Returns-weaken (returns p) f = returns (f _ p)

  pub Returns-then {μ ν} :
      {B : Type μ} {Q : B → Type ν} {r : Outcome A} {f : A → Outcome B}
      → Returns P r
      → ((a : A) → P a → Returns Q (f a))
      → Returns Q (r >>= f)
  Returns-then (returns p) f = f _ p

  pub Returns-branch :
      (b : Bool) {x y : Outcome A}
      → (b ≡ true → Returns P x)
      → (b ≡ false → Returns P y)
      → Returns P (if b then x else y)
  Returns-branch true f g = f refl
  Returns-branch false f g = g refl
