-- ===== src/Prelude/Int.antt =====
-- Go's `int` as an integer over the native numbers (the library's ℤ stands on the unary ones).
use Prim.Native.Nat.{ℕ, zero, suc, ◌+◌, ◌-◌, ◌%◌}
use mathlib.Core.Bool.{Bool, true, false}
use go_collections.Prelude.Tests.{leb, if◌then◌else◌}

-- `negsuc n` is -(n + 1).
pub data ℤ : Type 0 where
  pos : ℕ → ℤ
  negsuc : ℕ → ℤ

-- n < 0
abbrev pub is_neg : ℤ → Bool
is_neg (pos n) = false
is_neg (negsuc n) = true

-- n > 0
abbrev pub is_pos : ℤ → Bool
is_pos (pos n) = if leb n 0 then false else true
is_pos (negsuc n) = false

-- The value of an `int` that a guard has shown to be no less than 0.
abbrev pub to_nat : ℤ → ℕ
to_nat (pos n) = n
to_nat (negsuc n) = 0

-- a - b
abbrev pub sub_ℕ : ℕ → ℕ → ℤ
sub_ℕ a b = if leb b a then pos (a - b) else negsuc (b - a - 1)

-- z + m
abbrev pub add_ℕ : ℤ → ℕ → ℤ
add_ℕ (pos n) m = pos (n + m)
add_ℕ (negsuc n) m = sub_ℕ m (suc n)

-- -n
abbrev pub negate : ℕ → ℤ
negate zero = pos 0
negate (suc n) = negsuc n

-- Go's `z % m` for m > 0, which has the sign of z.
unfoldable pub rem : ℤ → ℕ → ℤ
rem (pos n) m = pos (n % m)
rem (negsuc n) m = negate (suc n % m)
