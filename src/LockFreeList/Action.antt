-- ===== src/LockFreeList/Action.antt =====
-- lockfreelist.go: the atomic actions of the calls, each a load or a compare-and-swap.
use go_collections.Prelude.{
  ℕ, ◌+◌, ◌-◌, Bool, true, false, Option, none, some, List, [], get_elem?, ◌==◌, if◌then◌else◌,
}
use go_collections.LockFreeList.State.{
  Heap, head, tail, same_ref, next_at, state_at, link, detach, retire, renew,
}
use go_collections.LockFreeList.Task.{
  Task, done, answer, taken, counted, finished, clear_next, clear_swap, append_next, append_swap,
  insert_first_next, insert_first_swap, insert_next, insert_state, insert_after, insert_swap,
  set_next, set_state, set_again, set_swap, remove_at_next, remove_at_state, remove_at_swap,
  remove_next, remove_state, remove_swap, remove_last_next, remove_last_state, remove_last_swap,
  remove_func_next, remove_func_state, remove_func_swap,
}

module _ {ℓ} {A : Type ℓ} where
  -- The loops' `curr != nil && curr != l.tail`: what to do at a node, and at the end.
  unfoldable pub at_node : Option ℕ → (ℕ → Task A) → Task A → Task A
  at_node none go end = end
  at_node (some curr) go end = if curr == tail then end else go curr

  unfoldable pub if_live : Option ℕ → (ℕ → Task A) → Task A → Task A
  if_live none go skip = skip
  if_live (some v) go skip = go v

  unfoldable pub test_box : (A → Bool) → Heap A → ℕ → Bool
  test_box test h v = elim (get_elem? h.boxes v) [ none ↦ false | some x ↦ test x ]

  unfoldable pub swap_last : Option (ℕ × ℕ) → Task A
  swap_last none = finished (taken none)
  swap_last (some (curr, v)) = remove_last_swap curr v

  -- The atomic actions: what each does to the heap, and where the call stands then.
  abbrev pub clear_next_action : Heap A → Heap A × Task A
  clear_next_action h = (h, clear_swap (next_at h.nodes head))

  abbrev pub clear_swap_action : Heap A → Option ℕ → Heap A × Task A
  clear_swap_action h first =
      if same_ref (next_at h.nodes head) first then (detach h, finished done) else (h, clear_next)

  abbrev pub append_next_action : Heap A → A → List A → ℕ → Heap A × Task A
  append_next_action h x xs pred =
      (h, at_node (next_at h.nodes pred) (append_next x xs) (append_swap x xs pred))

  abbrev pub append_swap_action : Heap A → A → List A → ℕ → Heap A × Task A
  append_swap_action h x xs pred =
      if same_ref (next_at h.nodes pred) (some tail)
      then (link h pred x xs, finished done)
      else (h, append_next x xs head)

  abbrev pub insert_first_next_action : Heap A → A → Heap A × Task A
  insert_first_next_action h x = (h, insert_first_swap x (next_at h.nodes head))

  abbrev pub insert_first_swap_action : Heap A → A → Option ℕ → Heap A × Task A
  insert_first_swap_action h x first =
      if same_ref (next_at h.nodes head) first
      then (link h head x [], finished (answer true))
      else (h, insert_first_next x)

  abbrev pub insert_next_action : Heap A → ℕ → A → ℕ → ℕ → Heap A × Task A
  insert_next_action h index x i pred =
      (h, at_node (next_at h.nodes pred) (insert_state index x i) (finished (answer false)))

  abbrev pub insert_state_action : Heap A → ℕ → A → ℕ → ℕ → Heap A × Task A
  insert_state_action h index x i curr = (
    h,
    if_live (state_at h.nodes curr)
        (λ v.
          if i == index - 1 then insert_after index x curr else insert_next index x (i + 1) curr)
        (insert_next index x i curr),
  )

  abbrev pub insert_after_action : Heap A → ℕ → A → ℕ → Heap A × Task A
  insert_after_action h index x pred = (h, insert_swap index x pred (next_at h.nodes pred))

  abbrev pub insert_swap_action : Heap A → ℕ → A → ℕ → Option ℕ → Heap A × Task A
  insert_swap_action h index x pred next =
      if same_ref (next_at h.nodes pred) next
      then (link h pred x [], finished (answer true))
      else (h, insert_next index x 0 head)

  abbrev pub set_next_action : Heap A → ℕ → A → ℕ → ℕ → Heap A × Task A
  set_next_action h index x i pred =
      (h, at_node (next_at h.nodes pred) (set_state index x i) (finished (taken none)))

  abbrev pub set_state_action : Heap A → ℕ → A → ℕ → ℕ → Heap A × Task A
  set_state_action h index x i curr = (
    h,
    if_live (state_at h.nodes curr)
        (λ v. if i == index then set_swap index x curr v else set_next index x (i + 1) curr)
        (set_next index x i curr),
  )

  abbrev pub set_swap_action : Heap A → ℕ → A → ℕ → ℕ → Heap A × Task A
  set_swap_action h index x curr v =
      if same_ref (state_at h.nodes curr) (some v)
      then (renew h curr x, finished (taken (some v)))
      else (h, set_again index x curr)

  abbrev pub set_again_action : Heap A → ℕ → A → ℕ → Heap A × Task A
  set_again_action h index x curr =
      (h, if_live (state_at h.nodes curr) (set_swap index x curr) (set_next index x 0 head))

  abbrev pub remove_at_next_action : Heap A → ℕ → ℕ → ℕ → Heap A × Task A
  remove_at_next_action h index i pred =
      (h, at_node (next_at h.nodes pred) (remove_at_state index i) (finished (taken none)))

  abbrev pub remove_at_state_action : Heap A → ℕ → ℕ → ℕ → Heap A × Task A
  remove_at_state_action h index i curr = (
    h,
    if_live (state_at h.nodes curr)
        (λ v. if i == index then remove_at_swap index curr v else remove_at_next index (i + 1) curr)
        (remove_at_next index i curr),
  )

  abbrev pub remove_at_swap_action : Heap A → ℕ → ℕ → ℕ → Heap A × Task A
  remove_at_swap_action h index curr v =
      if same_ref (state_at h.nodes curr) (some v)
      then (retire h curr, finished (taken (some v)))
      else (h, remove_at_next index 0 head)

  abbrev pub remove_next_action : Heap A → (A → Bool) → ℕ → Heap A × Task A
  remove_next_action h test pred =
      (h, at_node (next_at h.nodes pred) (remove_state test) (finished (taken none)))

  abbrev pub remove_state_action : Heap A → (A → Bool) → ℕ → Heap A × Task A
  remove_state_action h test curr = (
    h,
    if_live (state_at h.nodes curr)
        (λ v. if test_box test h v then remove_swap test curr v else remove_next test curr)
        (remove_next test curr),
  )

  abbrev pub remove_swap_action : Heap A → (A → Bool) → ℕ → ℕ → Heap A × Task A
  remove_swap_action h test curr v =
      if same_ref (state_at h.nodes curr) (some v)
      then (retire h curr, finished (taken (some v)))
      else (h, remove_state test curr)

  abbrev pub remove_last_next_action : Heap A → Option (ℕ × ℕ) → ℕ → Heap A × Task A
  remove_last_next_action h last pred =
      (h, at_node (next_at h.nodes pred) (remove_last_state last) (swap_last last))

  abbrev pub remove_last_state_action : Heap A → Option (ℕ × ℕ) → ℕ → Heap A × Task A
  remove_last_state_action h last curr = (
    h,
    if_live (state_at h.nodes curr) (λ v. remove_last_next (some (curr, v)) curr)
        (remove_last_next last curr),
  )

  abbrev pub remove_last_swap_action : Heap A → ℕ → ℕ → Heap A × Task A
  remove_last_swap_action h curr v =
      if same_ref (state_at h.nodes curr) (some v)
      then (retire h curr, finished (taken (some v)))
      else (h, remove_last_next none head)

  abbrev pub remove_func_next_action : Heap A → (A → Bool) → ℕ → ℕ → Heap A × Task A
  remove_func_next_action h predicate removed pred = (
    h,
    at_node (next_at h.nodes pred) (remove_func_state predicate removed)
        (finished (counted removed)),
  )

  abbrev pub remove_func_state_action : Heap A → (A → Bool) → ℕ → ℕ → Heap A × Task A
  remove_func_state_action h predicate removed curr = (
    h,
    if_live (state_at h.nodes curr)
        (λ v.
          if test_box predicate h v
          then remove_func_swap predicate removed curr v
          else remove_func_next predicate removed curr)
        (remove_func_next predicate removed curr),
  )

  abbrev pub remove_func_swap_action : Heap A → (A → Bool) → ℕ → ℕ → ℕ → Heap A × Task A
  remove_func_swap_action h predicate removed curr v =
      if same_ref (state_at h.nodes curr) (some v)
      then (retire h curr, remove_func_next predicate (removed + 1) curr)
      else (h, remove_func_next predicate removed curr)

  -- The next atomic action of a call.
  unfoldable pub step : Heap A → Task A → Heap A × Task A
  step h (finished r) = (h, finished r)
  step h clear_next = clear_next_action h
  step h (clear_swap first) = clear_swap_action h first
  step h (append_next x xs pred) = append_next_action h x xs pred
  step h (append_swap x xs pred) = append_swap_action h x xs pred
  step h (insert_first_next x) = insert_first_next_action h x
  step h (insert_first_swap x first) = insert_first_swap_action h x first
  step h (insert_next index x i pred) = insert_next_action h index x i pred
  step h (insert_state index x i curr) = insert_state_action h index x i curr
  step h (insert_after index x pred) = insert_after_action h index x pred
  step h (insert_swap index x pred next) = insert_swap_action h index x pred next
  step h (set_next index x i pred) = set_next_action h index x i pred
  step h (set_state index x i curr) = set_state_action h index x i curr
  step h (set_swap index x curr v) = set_swap_action h index x curr v
  step h (set_again index x curr) = set_again_action h index x curr
  step h (remove_at_next index i pred) = remove_at_next_action h index i pred
  step h (remove_at_state index i curr) = remove_at_state_action h index i curr
  step h (remove_at_swap index curr v) = remove_at_swap_action h index curr v
  step h (remove_next test pred) = remove_next_action h test pred
  step h (remove_state test curr) = remove_state_action h test curr
  step h (remove_swap test curr v) = remove_swap_action h test curr v
  step h (remove_last_next last pred) = remove_last_next_action h last pred
  step h (remove_last_state last curr) = remove_last_state_action h last curr
  step h (remove_last_swap curr v) = remove_last_swap_action h curr v
  step h (remove_func_next predicate removed pred) =
      remove_func_next_action h predicate removed pred
  step h (remove_func_state predicate removed curr) =
      remove_func_state_action h predicate removed curr
  step h (remove_func_swap predicate removed curr v) =
      remove_func_swap_action h predicate removed curr v
