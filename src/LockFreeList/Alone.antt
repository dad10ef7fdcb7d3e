-- ===== src/LockFreeList/Alone.antt =====
-- Any call, from any of its actions on, comes to its end when it runs alone.
use go_collections.Prelude.{ℕ, ◌+◌, refl, Bool, true, Option, none, some, List, []}
use go_collections.LockFreeList.State.{
  Heap, head, tail, same_ref, next_at, state_at, link, detach, retire, renew,
}
use go_collections.LockFreeList.Task.{
  Task, Call, start_all, done, answer, taken, finished, clear_next, clear_swap, append_next,
  append_swap, insert_first_next, insert_first_swap, insert_next, insert_state, insert_after,
  insert_swap, set_next, set_state, set_again, set_swap, remove_at_next, remove_at_state,
  remove_at_swap, remove_next, remove_state, remove_swap, remove_last_next, remove_last_state,
  remove_last_swap, remove_func_next, remove_func_state, remove_func_swap,
}
use go_collections.LockFreeList.Action.{step}
use go_collections.LockFreeList.System.{task_at, run}
use go_collections.LockFreeList.Chain.{IsSound, IsNode}
use go_collections.LockFreeList.Nodes.{next_at-with_state}
use go_collections.LockFreeList.Chain.{IsNode, IsSound}
use go_collections.LockFreeList.Keep.{Valid, head-IsNode}
use go_collections.LockFreeList.Walk.{
  Finishes, now, later, swap-Finishes, swap_succeeds, if_live-Finishes, loop-Finishes,
  node-Finishes,
}
use go_collections.LockFreeList.Loops.{
  append_loop, insert_loop, set_loop, remove_at_loop, remove_loop, remove_func_loop,
  remove_last_loop,
}
use go_collections.LockFreeList.Safe.{IsSafe, interleaved_calls-IsSafe}

module _ {ℓ} {A : Type ℓ} (h : Heap A) (sound : IsSound h.nodes) where
  top : IsNode h.nodes head
  top = head-IsNode h.nodes sound

  append-Finishes :
      (x : A) (xs : List A) (a : ℕ) → IsNode h.nodes a → Finishes h (append_next x xs a)
  unfolding append_loop
  append-Finishes x xs a v = loop-Finishes (append_loop h x xs) h tt a refl sound v

  insert-Finishes :
      (index : ℕ) (x : A) (i a : ℕ) → IsNode h.nodes a → Finishes h (insert_next index x i a)
  unfolding insert_loop
  insert-Finishes index x i a v = loop-Finishes (insert_loop h index x) h i a refl sound v

  set-Finishes :
      (index : ℕ) (x : A) (i a : ℕ) → IsNode h.nodes a → Finishes h (set_next index x i a)
  unfolding set_loop
  set-Finishes index x i a v = loop-Finishes (set_loop h index x) h i a refl sound v

  remove_at-Finishes : (index i a : ℕ) → IsNode h.nodes a → Finishes h (remove_at_next index i a)
  unfolding remove_at_loop
  remove_at-Finishes index i a v = loop-Finishes (remove_at_loop h index) h i a refl sound v

  remove-Finishes : (test : A → Bool) (a : ℕ) → IsNode h.nodes a → Finishes h (remove_next test a)
  unfolding remove_loop
  remove-Finishes test a v = loop-Finishes (remove_loop h test) h tt a refl sound v

  remove_last-Finishes :
      (last : Option (ℕ × ℕ)) (a : ℕ) → IsNode h.nodes a → Finishes h (remove_last_next last a)
  unfolding remove_last_loop
  remove_last-Finishes last a v = loop-Finishes (remove_last_loop h sound) h last a refl sound v

  remove_func-Finishes :
      (test : A → Bool) (n a : ℕ) → IsNode h.nodes a → Finishes h (remove_func_next test n a)
  unfolding remove_func_loop
  remove_func-Finishes test n a v =
      loop-Finishes (remove_func_loop h test) h n a record { lower = λ b. refl } sound v

  clear-Finishes : Finishes h clear_next
  unfolding step
  clear-Finishes =
      let first = next_at h.nodes head in
      later (
        later {t = clear_swap first}
          (swap_succeeds first first (detach h, finished done) (h, clear_next) refl now))

  insert_first-Finishes : (x : A) → Finishes h (insert_first_next x)
  unfolding step
  insert_first-Finishes x =
      let first = next_at h.nodes head in
      later (
        later {t = insert_first_swap x first} (
          swap_succeeds first first (link h head x [], finished (answer true))
            (h, insert_first_next x) refl now))

  insert_after-Finishes : (index : ℕ) (x : A) (a : ℕ) → Finishes h (insert_after index x a)
  unfolding step
  insert_after-Finishes index x a =
      let next = next_at h.nodes a in
      later (
        later {t = insert_swap index x a next} (
          swap_succeeds next next (link h a x [], finished (answer true))
            (h, insert_next index x 0 head) refl now))

  set_again-Finishes : (index : ℕ) (x : A) (a : ℕ) → Finishes h (set_again index x a)
  unfolding step
  set_again-Finishes index x a = later (
      if_live-Finishes h (state_at h.nodes a) (set_swap index x a) (set_next index x 0 head)
        (λ v k. later (
          swap_succeeds (state_at h.nodes a) (some v) (renew h a x, finished (taken (some v)))
            (h, set_again index x a) k now))
        (set-Finishes index x 0 head top))

  -- On a sound list a call that can go on comes to its end when it runs alone, wherever it stands.
  pub alone-Finishes : (t : Task A) → Valid h.nodes t → Finishes h t
  unfolding step retire append_loop insert_loop set_loop remove_at_loop remove_loop remove_func_loop
      remove_last_loop
  alone-Finishes (finished r) v = now
  alone-Finishes clear_next v = clear-Finishes
  alone-Finishes (clear_swap first) v = later (
      swap-Finishes (same_ref (next_at h.nodes head) first) (detach h, finished done)
        (h, clear_next) (λ c. now) (λ c. clear-Finishes))
  alone-Finishes (insert_first_next x) v = insert_first-Finishes x
  alone-Finishes (insert_first_swap x first) v = later (
      swap-Finishes (same_ref (next_at h.nodes head) first)
        (link h head x [], finished (answer true)) (h, insert_first_next x) (λ c. now)
        (λ c. insert_first-Finishes x))
  alone-Finishes (insert_after index x a) v = insert_after-Finishes index x a
  alone-Finishes (set_again index x a) v = set_again-Finishes index x a
  alone-Finishes (set_swap index x a w) v = later (
      swap-Finishes (same_ref (state_at h.nodes a) (some w))
        (renew h a x, finished (taken (some w))) (h, set_again index x a) (λ c. now)
        (λ c. set_again-Finishes index x a))
  alone-Finishes (append_next x xs a) v = append-Finishes x xs a v
  alone-Finishes (append_swap x xs a) v = later (
      swap-Finishes (same_ref (next_at h.nodes a) (some tail)) (link h a x xs, finished done)
        (h, append_next x xs head) (λ c. now) (λ c. append-Finishes x xs head top))
  alone-Finishes (insert_next index x i a) v = insert-Finishes index x i a v
  alone-Finishes (insert_state index x i a) v =
      node-Finishes (insert_loop h index x) h i a refl sound v
  alone-Finishes (insert_swap index x a next) v = later (
      swap-Finishes (same_ref (next_at h.nodes a) next) (link h a x [], finished (answer true))
        (h, insert_next index x 0 head) (λ c. now) (λ c. insert-Finishes index x 0 head top))
  alone-Finishes (set_next index x i a) v = set-Finishes index x i a v
  alone-Finishes (set_state index x i a) v = node-Finishes (set_loop h index x) h i a refl sound v
  alone-Finishes (remove_at_next index i a) v = remove_at-Finishes index i a v
  alone-Finishes (remove_at_state index i a) v =
      node-Finishes (remove_at_loop h index) h i a refl sound v
  alone-Finishes (remove_at_swap index a w) v = later (
      swap-Finishes (same_ref (state_at h.nodes a) (some w)) (retire h a, finished (taken (some w)))
        (h, remove_at_next index 0 head) (λ c. now) (λ c. remove_at-Finishes index 0 head top))
  alone-Finishes (remove_next test a) v = remove-Finishes test a v
  alone-Finishes (remove_state test a) v = node-Finishes (remove_loop h test) h tt a refl sound v
  alone-Finishes (remove_swap test a w) v = later (
      swap-Finishes (same_ref (state_at h.nodes a) (some w)) (retire h a, finished (taken (some w)))
        (h, remove_state test a) (λ c. now)
        (λ c. node-Finishes (remove_loop h test) h tt a refl sound v))
  alone-Finishes (remove_last_next last a) v = remove_last-Finishes last a v
  alone-Finishes (remove_last_state last a) v =
      node-Finishes (remove_last_loop h sound) h last a refl sound v
  alone-Finishes (remove_last_swap a w) v = later (
      swap-Finishes (same_ref (state_at h.nodes a) (some w)) (retire h a, finished (taken (some w)))
        (h, remove_last_next none head) (λ c. now) (λ c. remove_last-Finishes none head top))
  alone-Finishes (remove_func_next test n a) v = remove_func-Finishes test n a v
  alone-Finishes (remove_func_state test n a) v =
      node-Finishes (remove_func_loop h test) h n a record { lower = λ b. refl } sound v
  alone-Finishes (remove_func_swap test n a w) v = later (
      swap-Finishes (same_ref (state_at h.nodes a) (some w))
        (retire h a, remove_func_next test (n + 1) a) (h, remove_func_next test n a)
        (λ c.
          loop-Finishes (remove_func_loop h test) (retire h a) (n + 1) a
            record { lower = λ b. next_at-with_state h.nodes a b none } sound v)
        (λ c. remove_func-Finishes test n a v))

module _ {ℓ} {A : Type ℓ} where
  -- After any interleaving of calls on a sound list, each of them comes to its end if it runs alone
  -- from there on, also where it has to try again.
  pub interleaved_call-Finishes :
      (h : Heap A) (cs : List (Call A)) (order : List ℕ) (i : ℕ)
      → IsSound h.nodes
      → Finishes
          (run (record { heap = h; tasks = start_all cs }) order).heap
          (task_at (run (record { heap = h; tasks = start_all cs }) order).tasks i)
  interleaved_call-Finishes h cs order i sound =
      let s = run (record { heap = h; tasks = start_all cs }) order in
      let safe : IsSafe s = interleaved_calls-IsSafe h cs order sound in
      alone-Finishes s.heap safe.0 (task_at s.tasks i) (safe.1 i)
