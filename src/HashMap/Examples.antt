-- ===== src/HashMap/Examples.antt =====
-- Runs of the methods of hashmap.go, and the theorem at a concrete map.
use go_collections.Prelude.{ℕ, ◌+◌, ◌≡◌, refl, true, false, List, [], ◌∷◌, ◌==◌, arith}
use go_collections.Prelude.Slice.{nat_zero}
use go_collections.HashSet.{Comparable}
use go_collections.HashMap.{
  HashMap, lookup, write, delete, get, get_or_default, contains_key, put, put_if_absent, remove,
  remove_if, compute, compute_if_absent, settle, compute_if_present, merge, replace, replace_if,
}
use go_collections.HashMap.Entries.{contents}
use go_collections.HashMap.Refine.{
  Op, get_value, put_value, take_out, merge_value, compute_value, replace_value_if, found, answer,
  step, run, function_run, run_map_refines,
}

equal_sound : (a b : ℕ) → (a == b) ≡ true → a ≡ b
equal_sound a b h = ground arith

equal_refl : (a : ℕ) → (a == a) ≡ true
equal_refl a = ground arith

instance abbrev nat_keys : Comparable ℕ
nat_keys = record { equal = ◌==◌; equal_refl = equal_refl; equal_sound = equal_sound }

abbrev ages : HashMap ℕ ℕ
ages = record { entries = (1, 30) ∷ (2, 40) ∷ [] }

abbrev calls : List (ℕ × Op ℕ ℕ)
calls =
    (2, put_value 41)
    ∷ (1, take_out)
    ∷ (1, get_value)
    ∷ (2, merge_value 5 (λ old new_value. (old + new_value, true)))
    ∷ (2, compute_value (λ key old exists. (old, false)))
    ∷ (3, replace_value_if 1 2 ◌==◌)
    ∷ []

map_calls : run calls ages ≡ (
  found 40 true ∷ found 30 true ∷ found 0 false ∷ found 46 true ∷ found 0 false ∷ answer false ∷ [],
  record { entries = [] },
)
unfolding lookup write delete get get_or_default contains_key put put_if_absent remove remove_if
    compute compute_if_absent settle compute_if_present merge replace replace_if step run
map_calls = refl

run_map_refines_example :
    ((run calls ages).0, contents (run calls ages).1) ≡ function_run calls (contents ages)
run_map_refines_example = run_map_refines calls ages
