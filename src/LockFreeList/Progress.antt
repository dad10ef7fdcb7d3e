-- ===== src/LockFreeList/Progress.antt =====
-- Progress: a compare-and-swap fails only if another one has succeeded.
use go_collections.Prelude.{
  ℕ, zero, suc, ◌≡◌, refl, ap, Bool, true, false, none, some, List, [], ◌∷◌, ◌==◌, arith, not,
  Bool-cases, inl, inr, if◌then◌else◌,
}
use go_collections.Prelude.Int.{pos, negsuc}
use go_collections.LockFreeList.State.{Heap, head, tail, same_ref, next_at, state_at}
use go_collections.LockFreeList.Task.{
  Task, Call, start, start_all, done, finished, clear_swap, append_next, append_swap,
  insert_first_next, insert_first_swap, insert_next, insert_swap, set_again, set_swap,
  remove_at_next, remove_at_swap, remove_state, remove_swap, remove_last_next, remove_last_swap,
  remove_func_next, remove_func_swap, clear, add, add_all, insert, set, remove_at, remove,
  remove_first, remove_last, remove_func, to_clear, to_remove_first, to_remove_last, to_add,
  to_add_all, to_insert, to_set, to_remove_at, to_remove, to_remove_func,
}
use go_collections.LockFreeList.Action.{step}
use go_collections.LockFreeList.System.{System, put_task, task_at, schedule, run}
use go_collections.LockFreeList.Chain.{IsSound}
use go_collections.LockFreeList.Safe.{IsSafe, interleaved_calls-IsSafe, schedule-IsSafe}
use go_collections.LockFreeList.Fresh.{fresh, swaps, fails, swapped, still, step-fresh}

module _ {ℓ} {A : Type ℓ} where
  -- After a failure the call goes back and reads again.
  if-reads_again :
      (h : Heap A) (c : Bool) (done_swap : Heap A × Task A) (t : Task A)
      → not c ≡ true
      → fresh h t ≡ true
      → fresh (if c then done_swap else (h, t)).0 (if c then done_swap else (h, t)).1 ≡ true
  if-reads_again h true d t e f = ground arith
  if-reads_again h false d t e f = f

  failed-fresh :
      (h : Heap A) (t : Task A) → fails h t ≡ true → fresh (step h t).0 (step h t).1 ≡ true
  unfolding step
  failed-fresh h (clear_swap first) e =
      if-reads_again h (same_ref (next_at h.nodes head) first) _ _ e refl
  failed-fresh h (append_swap x xs pred) e =
      if-reads_again h (same_ref (next_at h.nodes pred) (some tail)) _ (append_next x xs head) e
        refl
  failed-fresh h (insert_first_swap x first) e =
      if-reads_again h (same_ref (next_at h.nodes head) first) _ (insert_first_next x) e refl
  failed-fresh h (insert_swap index x pred next) e =
      if-reads_again h (same_ref (next_at h.nodes pred) next) _ (insert_next index x 0 head) e refl
  failed-fresh h (set_swap index x curr v) e =
      if-reads_again h (same_ref (state_at h.nodes curr) (some v)) _ (set_again index x curr) e refl
  failed-fresh h (remove_at_swap index curr v) e =
      if-reads_again h (same_ref (state_at h.nodes curr) (some v)) _ (remove_at_next index 0 head) e
        refl
  failed-fresh h (remove_swap test curr v) e =
      if-reads_again h (same_ref (state_at h.nodes curr) (some v)) _ (remove_state test curr) e refl
  failed-fresh h (remove_last_swap curr v) e =
      if-reads_again h (same_ref (state_at h.nodes curr) (some v)) _ (remove_last_next none head) e
        refl
  failed-fresh h (remove_func_swap predicate n curr v) e =
      if-reads_again h (same_ref (state_at h.nodes curr) (some v)) _
        (remove_func_next predicate n curr) e refl
  failed-fresh h t e = absurd (ground arith)

  put_task-either :
      (P : Task A → Type 0) (ts : List (Task A)) (i j : ℕ) (t : Task A)
      → (i ≡ j → P t)
      → P (task_at ts i)
      → P (task_at (put_task ts j t) i)
  unfolding task_at put_task
  put_task-either P [] i j t own old = old
  put_task-either P (u ∷ us) zero zero t own old = own refl
  put_task-either P (u ∷ us) (suc i) zero t own old = old
  put_task-either P (u ∷ us) zero (suc j) t own old = old
  put_task-either P (u ∷ us) (suc i) (suc j) t own old =
      put_task-either P us i j t (λ e. own (ap suc e)) old

  own-fresh :
      (s : System A) (i : ℕ)
      → IsSafe s
      → fresh s.heap (task_at s.tasks i) ≡ true
      → swaps s.heap (task_at s.tasks i) ≡ false
      → fresh s.heap (step s.heap (task_at s.tasks i)).1 ≡ true
  own-fresh s i safe f e = step-fresh s.heap (task_at s.tasks i) safe.0 (safe.1 i) f (ground arith)

  schedule-fresh :
      (s : System A) (i j : ℕ)
      → IsSafe s
      → fresh s.heap (task_at s.tasks i) ≡ true
      → swaps s.heap (task_at s.tasks j) ≡ false
      → fresh (schedule s j).heap (task_at (schedule s j).tasks i) ≡ true
  unfolding schedule
  schedule-fresh s i j safe f e =
      let t = task_at s.tasks j in
      rw (still s.heap t e) (
        put_task-either (λ u. fresh s.heap u ≡ true) s.tasks i j (step s.heap t).1
          (λ same. own-fresh s j safe (rw same at f) e) f)

  -- While nothing is swapped, what a call relies on stays up to date.
  run-fresh :
      (s : System A) (order : List ℕ) (i : ℕ)
      → IsSafe s
      → fresh s.heap (task_at s.tasks i) ≡ true
      → swapped s order ≡ false
      → fresh (run s order).heap (task_at (run s order).tasks i) ≡ true
  unfolding run
  run-fresh s [] i safe f e = f
  run-fresh s (j ∷ order) i safe f e =
      run-fresh (schedule s j) order i (schedule-IsSafe s j safe)
        (schedule-fresh s i j safe f (ground arith)) (ground arith)

  put_task-own :
      (P : Task A → Type 0) (ts : List (Task A)) (i : ℕ) (t : Task A)
      → P t
      → P (finished done)
      → P (task_at (put_task ts i t) i)
  unfolding task_at put_task
  put_task-own P [] i t own other = other
  put_task-own P (u ∷ us) zero t own other = own
  put_task-own P (u ∷ us) (suc i) t own other = put_task-own P us i t own other

  failure-swapped :
      (s : System A) (order : List ℕ) (i : ℕ)
      → IsSafe s
      → fresh s.heap (task_at s.tasks i) ≡ true
      → fails (run s order).heap (task_at (run s order).tasks i) ≡ true
      → swapped s order ≡ true
  failure-swapped s order i safe f failed = elim (Bool-cases (swapped s order)) [
    | inl e ↦ e
    | inr e ↦ let still_fresh = run-fresh s order i safe f e in absurd (ground arith)
  ]

  -- Where a compare-and-swap of a call fails, and one of the same call fails again later, some
  -- compare-and-swap has succeeded in between.
  pub second_failure-swapped :
      (s : System A) (order : List ℕ) (i : ℕ)
      → IsSafe s
      → fails s.heap (task_at s.tasks i) ≡ true
      → fails (run (schedule s i) order).heap (task_at (run (schedule s i) order).tasks i) ≡ true
      → swapped (schedule s i) order ≡ true
  unfolding schedule
  second_failure-swapped s order i safe first second =
      let t = task_at s.tasks i in
      failure-swapped (schedule s i) order i (schedule-IsSafe s i safe)
        (put_task-own (λ u. fresh (step s.heap t).0 u ≡ true) s.tasks i (step s.heap t).1
          (failed-fresh s.heap t first) refl)
        second

  start-fresh : (h : Heap A) (c : Call A) → fresh h (start c) ≡ true
  unfolding start clear add add_all insert set remove_at remove remove_first remove_last remove_func
  start-fresh h to_clear = refl
  start-fresh h (to_add x) = refl
  start-fresh h (to_add_all []) = refl
  start-fresh h (to_add_all (x ∷ xs)) = refl
  start-fresh h (to_insert (pos index) x) = elim (Bool-cases (index == 0)) [
    | inl e ↦ rw e refl
    | inr e ↦ rw e refl
  ]
  start-fresh h (to_insert (negsuc n) x) = refl
  start-fresh h (to_set (pos index) x) = refl
  start-fresh h (to_set (negsuc n) x) = refl
  start-fresh h (to_remove_at (pos index)) = refl
  start-fresh h (to_remove_at (negsuc n)) = refl
  start-fresh h (to_remove element eq) = refl
  start-fresh h to_remove_first = refl
  start-fresh h to_remove_last = refl
  start-fresh h (to_remove_func predicate) = refl

  start_all-fresh :
      (h : Heap A) (cs : List (Call A)) (i : ℕ) → fresh h (task_at (start_all cs) i) ≡ true
  unfolding start_all task_at
  start_all-fresh h [] i = refl
  start_all-fresh h (c ∷ cs) zero = start-fresh h c
  start_all-fresh h (c ∷ cs) (suc i) = start_all-fresh h cs i

  -- From the start of the calls on, a compare-and-swap of any call fails only if some
  -- compare-and-swap has succeeded before.
  pub first_failure-swapped :
      (h : Heap A) (cs : List (Call A)) (order : List ℕ) (i : ℕ)
      → IsSound h.nodes
      → fails
          (run (record { heap = h; tasks = start_all cs }) order).heap
          (task_at (run (record { heap = h; tasks = start_all cs }) order).tasks i)
        ≡ true
      → swapped (record { heap = h; tasks = start_all cs }) order ≡ true
  unfolding run
  first_failure-swapped h cs order i sound =
      failure-swapped (record { heap = h; tasks = start_all cs }) order i
        (interleaved_calls-IsSafe h cs [] sound) (start_all-fresh h cs i)
