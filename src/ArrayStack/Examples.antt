-- ===== src/ArrayStack/Examples.antt =====
-- Runs of the methods of arraystack.go, and the theorems at concrete stacks.
use go_collections.Prelude.{ℕ, ◌≡◌, refl, true, false, [], ◌∷◌}
use go_collections.Prelude.Outcome.{returned}
use go_collections.Prelude.Slice.{nat_zero, load, store, slice}
use go_collections.ArrayStack.{new, size, is_empty, push, push_all, to_slice, seq, clear, pop, peek}
use go_collections.ArrayStack.Refine.{
  put, put_all, get, see, test_empty, show_back, unit, answer, element, elements, step, run,
  list_run, run_stack_refines,
}

stack_calls :
    run
      (put_all (1 ∷ 2 ∷ 3 ∷ []) ∷ get ∷ put 4 ∷ see ∷ show_back ∷ get ∷ test_empty ∷ [])
      (new {A = ℕ})
    ≡ returned (
      unit
          ∷ element 3 true
          ∷ unit
          ∷ element 4 true
          ∷ elements (4 ∷ 2 ∷ 1 ∷ [])
          ∷ element 4 true
          ∷ answer false
          ∷ [],
      record { items = 1 ∷ 2 ∷ [] },
    )
unfolding new size is_empty push push_all to_slice seq clear pop peek load store slice step run
stack_calls = refl

run_stack_refines_example :
    run {A = ℕ} (get ∷ get ∷ see ∷ []) (record { items = 7 ∷ 8 ∷ 9 ∷ [] })
    ≡ returned (
      (list_run (get ∷ get ∷ see ∷ []) (7 ∷ 8 ∷ 9 ∷ [])).0,
      record { items = (list_run (get ∷ get ∷ see ∷ []) (7 ∷ 8 ∷ 9 ∷ [])).1 },
    )
run_stack_refines_example = run_stack_refines (get ∷ get ∷ see ∷ []) (7 ∷ 8 ∷ 9 ∷ [])
