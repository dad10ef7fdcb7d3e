-- ===== src/ArrayStack.antt =====
-- arraystack.go: a stack in a slice, its top at the end.
-- A method that changes the stack returns the new stack.
pub mod Refine
mod Examples
use mathlib.Core.List.{reverse}
use go_collections.Prelude.{
  ℕ, ◌-◌, Bool, true, false, not, List, [], ◌∷◌, ◌++◌, length, take, replicate, ◌==◌, if◌then◌else◌,
}
use go_collections.Prelude.Outcome.{Outcome, returned, ◌>>=◌}
use go_collections.Prelude.Slice.{Zero, load, store, slice, copy}

pub record ArrayStack {ℓ} (A : Type ℓ) : Type ℓ where
  pub items : List A

module _ {ℓ} {A : Type ℓ} where
  -- NewArrayStack, and NewArrayStackWithCapacity but for the capacity
  pub new : ArrayStack A
  new = record { items = [] }

  pub size : ArrayStack A → ℕ
  size s = length s.items

  pub is_empty : ArrayStack A → Bool
  is_empty s = length s.items == 0

  pub is_not_empty : ArrayStack A → Bool
  is_not_empty s = not (is_empty s)

  pub push : ArrayStack A → A → ArrayStack A
  push s element = record { items = s.items ++ element ∷ [] }

  pub push_all : ArrayStack A → List A → ArrayStack A
  push_all s elements = record { items = s.items ++ elements }

  pub to_slice : ArrayStack A → List A
  to_slice s = s.items

  -- What Seq yields to a consumer that does not stop.
  pub seq : ArrayStack A → List A
  seq s = reverse s.items

module _ {ℓ} {A : Type ℓ} ⦃z : Zero A⦄ where
  -- NewArrayStackFrom
  pub new_from : List A → ArrayStack A
  new_from elements = record {
    items = (copy (replicate (length elements) z.zero_value) elements).0;
  }

  pub clear : ArrayStack A → ArrayStack A
  clear s = record { items = take 0 (replicate (length s.items) z.zero_value) }

  pub pop : ArrayStack A → Outcome (A × Bool × ArrayStack A)
  pop s =
      let n = length s.items in
      let taken : Outcome (A × Bool × ArrayStack A) = do
        v ← load s.items (n - 1)
        items ← store s.items (n - 1) z.zero_value
        rest ← slice items 0 (n - 1)
        returned (v, true, record { items = rest })
      in if n == 0 then returned (z.zero_value, false, s) else taken

  pub peek : ArrayStack A → Outcome (A × Bool)
  peek s =
      let n = length s.items in
      let top : Outcome (A × Bool) = load s.items (n - 1) >>= λ v. returned (v, true) in
      if n == 0 then returned (z.zero_value, false) else top
