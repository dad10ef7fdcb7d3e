-- ===== src/Prelude.antt =====
-- The names that all modules share: the libraries' passed on, Boolean tests, lists under native
-- numbers, Go's int, the outcome of a call, and Go slices.
mod Tests
mod Lists
pub mod Int
pub mod Outcome
pub mod Slice
pub mod Ends
pub use Tests.*
pub use Lists.*
pub use Prim.Native.Nat.{ℕ, zero, suc, ◌+◌, ◌-◌, ◌*◌, ◌/◌, ◌%◌, ◌≤◌, ◌<◌, min}
pub use mathlib.Core.Path.{◌≡◌, refl, sym, ap, ap₂, ◌∙◌}
pub use mathlib.Core.Logic.{◌≢◌, ◌↔◌, ◌⊎◌, inl, inr}
pub use mathlib.Core.Bool.{Bool, true, false, not, ◌&&◌, ◌||◌}
pub use mathlib.Core.Option.{Option, none, some}
pub use mathlib.Core.List.{List, [], ◌∷◌, ◌++◌, Perm, Mem}
pub use native.Mathlib.Omega.{arith}
