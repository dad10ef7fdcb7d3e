-- ===== src/HashSet/Examples.antt =====
-- Runs of the methods of hashset.go, and the theorems at concrete sets.
use mathlib.Core.List.Perm
use mathlib.Core.Logic.{◌↔◌}
use go_collections.Prelude.{ℕ, ◌≡◌, refl, Bool, true, not, ◌&&◌, ◌||◌, [], ◌∷◌, ltb, ◌==◌, arith}
use go_collections.Prelude.Slice.{nat_zero}
use go_collections.HashSet.{
  Comparable, MapOrder, HashSet, has, contains, add, union, intersection, difference,
  symmetric_difference, filter, equals, view, assign, add_where, new,
}
use go_collections.HashSet.Change.{IsValid}
use go_collections.HashSet.Algebra.{IsOtherSet, view-IsOtherSet, IsSetOf, hash_set_algebra}
use go_collections.HashSet.Order.{equals_correct}

equal_sound : (a b : ℕ) → (a == b) ≡ true → a ≡ b
equal_sound a b h = ground arith

equal_refl : (a : ℕ) → (a == a) ≡ true
equal_refl a = ground arith

instance abbrev nat_comparable : Comparable ℕ
nat_comparable = record { equal = ◌==◌; equal_refl = equal_refl; equal_sound = equal_sound }

-- A runtime that visits the keys in the order in which they came.
abbrev in_order : MapOrder ℕ
in_order = record { visit = λ keys. keys; visit_perm = λ keys. Perm.refl keys }

abbrev primes : HashSet ℕ
primes = record { keys = 2 ∷ 3 ∷ 5 ∷ [] }

abbrev odds : HashSet ℕ
odds = record { keys = 5 ∷ 1 ∷ 3 ∷ [] }

abbrev small : ℕ → Bool
small n = ltb n 4

symmetric_run : (symmetric_difference in_order primes (view odds)).keys ≡ 2 ∷ 1 ∷ []
unfolding symmetric_difference contains has assign add add_where new
symmetric_run = refl

primes-IsValid : IsValid primes
unfolding has
primes-IsValid = (refl, (refl, (refl, tt)))

odds-IsOtherSet : IsOtherSet (view odds)
unfolding has
odds-IsOtherSet = view-IsOtherSet odds (refl, (refl, (refl, tt)))

hash_set_algebra_example :
    IsSetOf (λ y. contains primes y || contains odds y) (union primes (view odds))
    × IsSetOf (λ y. contains primes y && contains odds y) (intersection in_order primes (view odds))
    × IsSetOf
        (λ y. contains primes y && not (contains odds y))
        (difference in_order primes (view odds))
    × IsSetOf
        (λ y.
          (contains primes y && not (contains odds y))
          || (contains odds y && not (contains primes y)))
        (symmetric_difference in_order primes (view odds))
    × IsSetOf (λ y. contains primes y && small y) (filter in_order primes small)
hash_set_algebra_example =
    hash_set_algebra in_order primes (view odds) small primes-IsValid odds-IsOtherSet

equals_correct_example :
    (equals in_order primes (view odds) ≡ true) ↔ ((y : ℕ) → contains primes y ≡ contains odds y)
equals_correct_example = equals_correct in_order primes (view odds) primes-IsValid odds-IsOtherSet
