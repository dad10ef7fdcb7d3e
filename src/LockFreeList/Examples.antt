-- ===== src/LockFreeList/Examples.antt =====
-- Runs of the calls of lockfreelist.go, and the theorems at concrete runs.
use go_collections.Prelude.{ℕ, ◌≡◌, refl, true, some, List, [], ◌∷◌}
use go_collections.LockFreeList.State.{
  same_ref, next_at, state_at, with_next, with_state, link, retire, build_chain, new,
}
use go_collections.LockFreeList.Task.{
  Call, start, start_all, done, taken, finished, add, remove_first, to_remove_first, to_add,
}
use go_collections.LockFreeList.Action.{at_node, if_live, test_box, step}
use go_collections.LockFreeList.System.{System, put_task, task_at, schedule, run}
use go_collections.LockFreeList.Chain.{new-IsSound}
use go_collections.LockFreeList.Safe.{IsSafe, interleaved_calls-IsSafe}
use go_collections.LockFreeList.Fresh.{fails, swapped}
use go_collections.LockFreeList.Progress.{first_failure-swapped, second_failure-swapped}
use go_collections.LockFreeList.Walk.{Finishes}
use go_collections.LockFreeList.Once.{taken_once, new-IsOwned}
use go_collections.LockFreeList.Alone.{interleaved_call-Finishes}

-- Two calls of Add and one of RemoveFirst on an empty list.
abbrev calls : List (Call ℕ)
calls = to_add 5 ∷ to_add 7 ∷ to_remove_first ∷ []

abbrev at_start : System ℕ
at_start = record { heap = new; tasks = start_all calls }

-- The second Add links its node while the first stands before its compare-and-swap.
abbrev overtaken : List ℕ
overtaken = 0 ∷ 1 ∷ 1 ∷ []

overtaken_run : task_at (run at_start overtaken).tasks 1 ≡ finished done
unfolding run schedule step start start_all add task_at put_task at_node new next_at same_ref link
    build_chain with_next
overtaken_run = refl

-- RemoveFirst takes the element of the second Add.
removed_run :
    task_at (run at_start (0 ∷ 1 ∷ 1 ∷ 2 ∷ 2 ∷ 2 ∷ [])).tasks 2 ≡ finished (taken (some 0))
unfolding run schedule step start start_all add remove_first task_at put_task at_node if_live
    test_box new next_at state_at same_ref link build_chain with_next retire with_state
removed_run = refl

interleaved_calls-IsSafe_example : IsSafe (run at_start overtaken)
interleaved_calls-IsSafe_example = interleaved_calls-IsSafe new calls overtaken (new-IsSound ℕ)

interleaved_call-Finishes_example :
    Finishes (run at_start overtaken).heap (task_at (run at_start overtaken).tasks 0)
interleaved_call-Finishes_example = interleaved_call-Finishes new calls overtaken 0 (new-IsSound ℕ)

overtaken-fails :
    fails (run at_start overtaken).heap (task_at (run at_start overtaken).tasks 0) ≡ true
unfolding run schedule step start start_all add task_at put_task at_node new next_at same_ref link
    build_chain with_next
overtaken-fails = refl

first_failure-swapped_example : swapped at_start overtaken ≡ true
first_failure-swapped_example =
    first_failure-swapped new calls overtaken 0 (new-IsSound ℕ) overtaken-fails

-- Three calls of Add, of which the last overtakes the first once more.
abbrev three_calls : System ℕ
three_calls = record { heap = new; tasks = start_all (to_add 5 ∷ to_add 7 ∷ to_add 9 ∷ []) }

abbrev overtaken_once : System ℕ
overtaken_once = run three_calls (0 ∷ 1 ∷ 2 ∷ 1 ∷ [])

abbrev once_more : List ℕ
once_more = 0 ∷ 0 ∷ 2 ∷ 2 ∷ 2 ∷ 2 ∷ []

first_fails : fails overtaken_once.heap (task_at overtaken_once.tasks 0) ≡ true
unfolding run schedule step start start_all add task_at put_task at_node new next_at same_ref link
    build_chain with_next
first_fails = refl

second_fails :
    fails
      (run (schedule overtaken_once 0) once_more).heap
      (task_at (run (schedule overtaken_once 0) once_more).tasks 0)
    ≡ true
unfolding run schedule step start start_all add task_at put_task at_node new next_at same_ref link
    build_chain with_next
second_fails = refl

overtaken_once-IsSafe : IsSafe overtaken_once
overtaken_once-IsSafe =
    interleaved_calls-IsSafe new (to_add 5 ∷ to_add 7 ∷ to_add 9 ∷ []) (0 ∷ 1 ∷ 2 ∷ 1 ∷ [])
      (new-IsSound ℕ)

second_failure-swapped_example : swapped (schedule overtaken_once 0) once_more ≡ true
second_failure-swapped_example =
    second_failure-swapped overtaken_once once_more 0 overtaken_once-IsSafe first_fails second_fails

-- Two calls of RemoveFirst on a list of one element, of which the second comes too late.
abbrev racing : List (Call ℕ)
racing = to_add 5 ∷ to_remove_first ∷ to_remove_first ∷ []

abbrev race : List ℕ
race = 0 ∷ 0 ∷ 1 ∷ 2 ∷ 1 ∷ 2 ∷ 2 ∷ 1 ∷ []

second_wins :
    task_at (run (record { heap = new; tasks = start_all racing }) race).tasks 2
    ≡ finished (taken (some 0))
unfolding run schedule step start start_all add remove_first task_at put_task at_node if_live
    test_box new next_at state_at same_ref link build_chain with_next retire with_state
second_wins = refl

taken_once_example :
    (◌≡◌ {A = ℕ} 2 2)
    × ¬ (
        state_at (run (record { heap = new; tasks = start_all racing }) race).heap.nodes 2 ≡ some 0)
taken_once_example = taken_once new racing race 2 2 0 2 (new-IsOwned ℕ) second_wins second_wins
