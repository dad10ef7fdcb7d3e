-- ===== src/LockFreeList/Safe.antt =====
-- What every interleaving of calls keeps: a chain from each node to the tail.
use go_collections.Prelude.{
  ℕ, zero, suc, ◌+◌, ◌-◌, ◌≤◌, true, false, none, some, List, [], ◌∷◌, length, ◌==◌, arith,
}
use go_collections.Prelude.Int.{pos, negsuc}
use go_collections.LockFreeList.State.{
  Node, Heap, head, tail, same_ref, next_at, state_at, with_state,
}
use go_collections.LockFreeList.Task.{
  Task, Call, start, start_all, done, answer, taken, counted, finished, clear_next, clear_swap,
  append_next, append_swap, insert_first_next, insert_first_swap, insert_next, insert_state,
  insert_after, insert_swap, set_next, set_state, set_again, set_swap, remove_at_next,
  remove_at_state, remove_at_swap, remove_next, remove_state, remove_swap, remove_last_next,
  remove_last_state, remove_last_swap, remove_func_next, remove_func_state, remove_func_swap, clear,
  add, add_all, insert, set, remove_at, remove, remove_first, remove_last, remove_func, to_clear,
  to_remove_first, to_remove_last, to_add, to_add_all, to_insert, to_set, to_remove_at, to_remove,
  to_remove_func,
}
use go_collections.LockFreeList.Action.{test_box, swap_last, step}
use go_collections.LockFreeList.System.{System, put_task, task_at, schedule, run}
use go_collections.LockFreeList.Nodes.{length-with_state}
use go_collections.LockFreeList.Chain.{IsSound}
use go_collections.LockFreeList.Keep.{
  Valid, head-IsNode, later-IsNode, next_node-Valid, if_live-Valid, if-Valid, swap_last-Valid, Kept,
  stay, swap-Kept, link-Kept, detach-Kept, retire-Kept, renew-Kept,
}

module _ {ℓ} {A : Type ℓ} where
  step-Kept : (h : Heap A) (t : Task A) → IsSound h.nodes → Valid h.nodes t → Kept h (step h t)
  unfolding step
  step-Kept h (finished r) s v = stay h (finished r) s tt
  step-Kept h clear_next s v = stay h _ s tt
  step-Kept h (clear_swap first) s v =
      swap-Kept h (same_ref (next_at h.nodes head) first) _ _ (detach-Kept h done s)
        (stay h clear_next s tt)
  step-Kept h (append_next x xs pred) s v =
      stay h _ s (
        next_node-Valid h.nodes pred (append_next x xs) (append_swap x xs pred) s v (λ curr n. n) v)
  step-Kept h (append_swap x xs pred) s v =
      swap-Kept h (same_ref (next_at h.nodes pred) (some tail)) _ _
        (link-Kept h pred x xs (finished done) s v tt) (stay h _ s (head-IsNode h.nodes s))
  step-Kept h (insert_first_next x) s v = stay h _ s tt
  step-Kept h (insert_first_swap x first) s v =
      swap-Kept h (same_ref (next_at h.nodes head) first) _ _
        (link-Kept h head x [] (finished (answer true)) s (head-IsNode h.nodes s) tt)
        (stay h (insert_first_next x) s tt)
  step-Kept h (insert_next index x i pred) s v = stay h _ s (
      next_node-Valid h.nodes pred (insert_state index x i) (finished (answer false)) s v
        (λ curr n. n) tt)
  step-Kept h (insert_state index x i curr) s v = stay h _ s (
      if_live-Valid h.nodes (state_at h.nodes curr) _ _
        (λ w. if-Valid h.nodes (i == index - 1) _ _ v v) v)
  step-Kept h (insert_after index x pred) s v = stay h _ s v
  step-Kept h (insert_swap index x pred next) s v =
      swap-Kept h (same_ref (next_at h.nodes pred) next) _ _
        (link-Kept h pred x [] (finished (answer true)) s v tt) (stay h _ s (head-IsNode h.nodes s))
  step-Kept h (set_next index x i pred) s v = stay h _ s (
      next_node-Valid h.nodes pred (set_state index x i) (finished (taken none)) s v (λ curr n. n)
        tt)
  step-Kept h (set_state index x i curr) s v = stay h _ s (
      if_live-Valid h.nodes (state_at h.nodes curr) _ _
        (λ w. if-Valid h.nodes (i == index) (set_swap index x curr w) _ tt v) v)
  step-Kept h (set_swap index x curr w) s v =
      swap-Kept h (same_ref (state_at h.nodes curr) (some w)) _ _
        (renew-Kept h curr x (taken (some w)) s) (stay h (set_again index x curr) s tt)
  step-Kept h (set_again index x curr) s v = stay h _ s (
      if_live-Valid h.nodes (state_at h.nodes curr) (set_swap index x curr) _ (λ w. tt)
        (head-IsNode h.nodes s))
  step-Kept h (remove_at_next index i pred) s v = stay h _ s (
      next_node-Valid h.nodes pred (remove_at_state index i) (finished (taken none)) s v
        (λ curr n. n) tt)
  step-Kept h (remove_at_state index i curr) s v = stay h _ s (
      if_live-Valid h.nodes (state_at h.nodes curr) _ _
        (λ w. if-Valid h.nodes (i == index) (remove_at_swap index curr w) _ tt v) v)
  step-Kept h (remove_at_swap index curr w) s v =
      swap-Kept h (same_ref (state_at h.nodes curr) (some w)) _ _
        (retire-Kept h curr (finished (taken (some w))) s tt) (stay h _ s (head-IsNode h.nodes s))
  step-Kept h (remove_next test pred) s v = stay h _ s (
      next_node-Valid h.nodes pred (remove_state test) (finished (taken none)) s v (λ curr n. n) tt)
  step-Kept h (remove_state test curr) s v = stay h _ s (
      if_live-Valid h.nodes (state_at h.nodes curr) _ _
        (λ w. if-Valid h.nodes (test_box test h w) (remove_swap test curr w) _ v v) v)
  step-Kept h (remove_swap test curr w) s v =
      swap-Kept h (same_ref (state_at h.nodes curr) (some w)) _ _
        (retire-Kept h curr (finished (taken (some w))) s tt) (stay h _ s v)
  step-Kept h (remove_last_next last pred) s v = stay h _ s (
      next_node-Valid h.nodes pred (remove_last_state last) (swap_last last) s v (λ curr n. n)
        (swap_last-Valid A h.nodes last))
  step-Kept h (remove_last_state last curr) s v =
      stay h _ s (if_live-Valid h.nodes (state_at h.nodes curr) _ _ (λ w. v) v)
  step-Kept h (remove_last_swap curr w) s v =
      swap-Kept h (same_ref (state_at h.nodes curr) (some w)) _ _
        (retire-Kept h curr (finished (taken (some w))) s tt) (stay h _ s (head-IsNode h.nodes s))
  step-Kept h (remove_func_next predicate n pred) s v = stay h _ s (
      next_node-Valid h.nodes pred (remove_func_state predicate n) (finished (counted n)) s v
        (λ curr k. k) tt)
  step-Kept h (remove_func_state predicate n curr) s v = stay h _ s (
      if_live-Valid h.nodes (state_at h.nodes curr) _ _
        (λ w. if-Valid h.nodes (test_box predicate h w) (remove_func_swap predicate n curr w) _ v v)
        v)
  step-Kept h (remove_func_swap predicate n curr w) s v =
      swap-Kept h (same_ref (state_at h.nodes curr) (some w)) _ _
        (retire-Kept h curr (remove_func_next predicate (n + 1) curr) s (
          later-IsNode h.nodes (with_state h.nodes curr none) curr
            (omega (arith, length-with_state h.nodes curr none)) v))
        (stay h _ s v)

  later-Valid : (ns ms : List Node) (t : Task A) → length ns ≤ length ms → Valid ns t → Valid ms t
  later-Valid ns ms (finished r) m v = v
  later-Valid ns ms clear_next m v = v
  later-Valid ns ms (clear_swap first) m v = v
  later-Valid ns ms (append_next x xs pred) m v = later-IsNode ns ms pred m v
  later-Valid ns ms (append_swap x xs pred) m v = later-IsNode ns ms pred m v
  later-Valid ns ms (insert_first_next x) m v = v
  later-Valid ns ms (insert_first_swap x first) m v = v
  later-Valid ns ms (insert_next index x i pred) m v = later-IsNode ns ms pred m v
  later-Valid ns ms (insert_state index x i curr) m v = later-IsNode ns ms curr m v
  later-Valid ns ms (insert_after index x pred) m v = later-IsNode ns ms pred m v
  later-Valid ns ms (insert_swap index x pred next) m v = later-IsNode ns ms pred m v
  later-Valid ns ms (set_next index x i pred) m v = later-IsNode ns ms pred m v
  later-Valid ns ms (set_state index x i curr) m v = later-IsNode ns ms curr m v
  later-Valid ns ms (set_again index x curr) m v = v
  later-Valid ns ms (set_swap index x curr w) m v = v
  later-Valid ns ms (remove_at_next index i pred) m v = later-IsNode ns ms pred m v
  later-Valid ns ms (remove_at_state index i curr) m v = later-IsNode ns ms curr m v
  later-Valid ns ms (remove_at_swap index curr w) m v = v
  later-Valid ns ms (remove_next test pred) m v = later-IsNode ns ms pred m v
  later-Valid ns ms (remove_state test curr) m v = later-IsNode ns ms curr m v
  later-Valid ns ms (remove_swap test curr w) m v = later-IsNode ns ms curr m v
  later-Valid ns ms (remove_last_next last pred) m v = later-IsNode ns ms pred m v
  later-Valid ns ms (remove_last_state last curr) m v = later-IsNode ns ms curr m v
  later-Valid ns ms (remove_last_swap curr w) m v = v
  later-Valid ns ms (remove_func_next predicate n pred) m v = later-IsNode ns ms pred m v
  later-Valid ns ms (remove_func_state predicate n curr) m v = later-IsNode ns ms curr m v
  later-Valid ns ms (remove_func_swap predicate n curr w) m v = later-IsNode ns ms curr m v

  start-Valid : (ns : List Node) (c : Call A) → IsSound ns → Valid ns (start c)
  unfolding start clear add add_all insert set remove_at remove remove_first remove_last remove_func
  start-Valid ns to_clear s = tt
  start-Valid ns (to_add x) s = head-IsNode ns s
  start-Valid ns (to_add_all []) s = tt
  start-Valid ns (to_add_all (x ∷ xs)) s = head-IsNode ns s
  start-Valid ns (to_insert (pos index) x) s = if-Valid ns (index == 0) _ _ tt (head-IsNode ns s)
  start-Valid ns (to_insert (negsuc n) x) s = tt
  start-Valid ns (to_set (pos index) x) s = head-IsNode ns s
  start-Valid ns (to_set (negsuc n) x) s = tt
  start-Valid ns (to_remove_at (pos index)) s = head-IsNode ns s
  start-Valid ns (to_remove_at (negsuc n)) s = tt
  start-Valid ns (to_remove element eq) s = head-IsNode ns s
  start-Valid ns to_remove_first s = head-IsNode ns s
  start-Valid ns to_remove_last s = head-IsNode ns s
  start-Valid ns (to_remove_func predicate) s = head-IsNode ns s

  -- Every node leads to the tail, and every call can go on.
  abbrev pub IsSafe : System A → Type 0
  IsSafe s = IsSound s.heap.nodes × ((i : ℕ) → Valid s.heap.nodes (task_at s.tasks i))

  start_all-Valid :
      (ns : List Node) (cs : List (Call A)) (i : ℕ)
      → IsSound ns
      → Valid ns (task_at (start_all cs) i)
  unfolding start_all task_at
  start_all-Valid ns [] i s = tt
  start_all-Valid ns (c ∷ cs) zero s = start-Valid ns c s
  start_all-Valid ns (c ∷ cs) (suc i) s = start_all-Valid ns cs i s

  put_task-Valid :
      (ns ms : List Node) (ts : List (Task A)) (i : ℕ) (t : Task A)
      → length ns ≤ length ms
      → ((j : ℕ) → Valid ns (task_at ts j))
      → Valid ms t
      → (j : ℕ) → Valid ms (task_at (put_task ts i t) j)
  unfolding task_at put_task
  put_task-Valid ns ms [] i t m all v j = tt
  put_task-Valid ns ms (u ∷ us) zero t m all v zero = v
  put_task-Valid ns ms (u ∷ us) zero t m all v (suc j) =
      later-Valid ns ms (task_at us j) m (all (suc j))
  put_task-Valid ns ms (u ∷ us) (suc i) t m all v zero = later-Valid ns ms u m (all zero)
  put_task-Valid ns ms (u ∷ us) (suc i) t m all v (suc j) =
      put_task-Valid ns ms us i t m (λ k. all (suc k)) v j

  pub schedule-IsSafe : (s : System A) (i : ℕ) → IsSafe s → IsSafe (schedule s i)
  unfolding schedule
  schedule-IsSafe s i (sound, all) =
      let k = step-Kept s.heap (task_at s.tasks i) sound (all i) in
      (
        k.sound,
        put_task-Valid s.heap.nodes (step s.heap (task_at s.tasks i)).0.nodes s.tasks i
            (step s.heap (task_at s.tasks i)).1 k.more all k.valid,
      )

  run-IsSafe : (s : System A) (order : List ℕ) → IsSafe s → IsSafe (run s order)
  unfolding run
  run-IsSafe s [] safe = safe
  run-IsSafe s (i ∷ order) safe = run-IsSafe (schedule s i) order (schedule-IsSafe s i safe)

  -- Whatever calls are under way together, and in whichever order their atomic actions happen, from
  -- each node a walk by `next` comes to the tail sentinel, also from those that Clear has detached,
  -- and each call goes on from nodes of the list.
  pub interleaved_calls-IsSafe :
      (h : Heap A) (cs : List (Call A)) (order : List ℕ)
      → IsSound h.nodes
      → IsSafe (run (record { heap = h; tasks = start_all cs }) order)
  interleaved_calls-IsSafe h cs order sound =
      run-IsSafe (record { heap = h; tasks = start_all cs }) order
        (sound, λ i. start_all-Valid h.nodes cs i sound)
