-- ===== src/LockFreeList/Fresh.antt =====
-- What a call has read and relies on, and how long it stays up to date.
use go_collections.Prelude.{
  ℕ, ◌-◌, ◌≡◌, refl, ap, Bool, true, false, Option, none, some, List, [], ◌∷◌, ◌==◌, arith, ◌&&◌,
  ◌||◌, not, Bool-cases, inl, inr, if◌then◌else◌,
}
use go_collections.LockFreeList.State.{Heap, head, tail, same_ref, next_at, state_at}
use go_collections.LockFreeList.Task.{
  Task, answer, taken, counted, finished, clear_next, clear_swap, append_next, append_swap,
  insert_first_next, insert_first_swap, insert_next, insert_state, insert_after, insert_swap,
  set_next, set_state, set_again, set_swap, remove_at_next, remove_at_state, remove_at_swap,
  remove_next, remove_state, remove_swap, remove_last_next, remove_last_state, remove_last_swap,
  remove_func_next, remove_func_state, remove_func_swap,
}
use go_collections.LockFreeList.Action.{at_node, if_live, test_box, swap_last, step}
use go_collections.LockFreeList.System.{System, task_at, schedule}
use go_collections.LockFreeList.Chain.{Leads, IsSound, IsNode, Leads-next}
use go_collections.LockFreeList.Nodes.{same_ref_refl}
use go_collections.LockFreeList.Chain.{Leads, IsSound, IsNode, Leads-next}
use go_collections.LockFreeList.Keep.{Valid}

read_again : (r : Option ℕ) (v : ℕ) → r ≡ some v → same_ref r (some v) ≡ true
read_again r v e = rw e (same_ref_refl (some v))

module _ {ℓ} {A : Type ℓ} where
  -- The next action is a compare-and-swap.
  abbrev pub at_swap : Task A → Bool
  at_swap (clear_swap first) = true
  at_swap (append_swap x xs pred) = true
  at_swap (insert_first_swap x first) = true
  at_swap (insert_swap index x pred next) = true
  at_swap (set_swap index x curr v) = true
  at_swap (remove_at_swap index curr v) = true
  at_swap (remove_swap test curr v) = true
  at_swap (remove_last_swap curr v) = true
  at_swap (remove_func_swap predicate n curr v) = true
  at_swap t = false

  abbrev pub same_last : Heap A → Option (ℕ × ℕ) → Bool
  same_last h none = true
  same_last h (some (curr, v)) = same_ref (state_at h.nodes curr) (some v)

  -- What the call has read and will compare with is still there.
  abbrev pub fresh : Heap A → Task A → Bool
  fresh h (clear_swap first) = same_ref (next_at h.nodes head) first
  fresh h (append_swap x xs pred) = same_ref (next_at h.nodes pred) (some tail)
  fresh h (insert_first_swap x first) = same_ref (next_at h.nodes head) first
  fresh h (insert_swap index x pred next) = same_ref (next_at h.nodes pred) next
  fresh h (set_swap index x curr v) = same_ref (state_at h.nodes curr) (some v)
  fresh h (remove_at_swap index curr v) = same_ref (state_at h.nodes curr) (some v)
  fresh h (remove_swap test curr v) = same_ref (state_at h.nodes curr) (some v)
  fresh h (remove_last_next last pred) = same_last h last
  fresh h (remove_last_state last pred) = same_last h last
  fresh h (remove_last_swap curr v) = same_ref (state_at h.nodes curr) (some v)
  fresh h (remove_func_swap predicate n curr v) = same_ref (state_at h.nodes curr) (some v)
  fresh h t = true

  -- The next action is a compare-and-swap that succeeds, and one that fails.
  abbrev pub swaps : Heap A → Task A → Bool
  swaps h t = at_swap t && fresh h t

  abbrev pub fails : Heap A → Task A → Bool
  fails h t = at_swap t && not (fresh h t)

  -- Some compare-and-swap succeeds in a run.
  abbrev pub swapped : System A → List ℕ → Bool
  swapped s [] = false
  swapped s (i ∷ order) = swaps s.heap (task_at s.tasks i) || swapped (schedule s i) order

  pub if_still :
      (h : Heap A) (c : Bool) (yes_swap : Heap A × Task A) (t : Task A)
      → c ≡ false
      → (if c then yes_swap else (h, t)).0 ≡ h
  if_still h true y t e = ground arith
  if_still h false y t e = refl

  -- Only a compare-and-swap that succeeds changes the heap.
  pub still : (h : Heap A) (t : Task A) → swaps h t ≡ false → (step h t).0 ≡ h
  unfolding step
  still h (finished r) e = refl
  still h clear_next e = refl
  still h (clear_swap first) e = if_still h (same_ref (next_at h.nodes head) first) _ _ e
  still h (append_next x xs pred) e = refl
  still h (append_swap x xs pred) e = if_still h (same_ref (next_at h.nodes pred) (some tail)) _ _ e
  still h (insert_first_next x) e = refl
  still h (insert_first_swap x first) e = if_still h (same_ref (next_at h.nodes head) first) _ _ e
  still h (insert_next index x i pred) e = refl
  still h (insert_state index x i curr) e = refl
  still h (insert_after index x pred) e = refl
  still h (insert_swap index x pred next) e =
      if_still h (same_ref (next_at h.nodes pred) next) _ _ e
  still h (set_next index x i pred) e = refl
  still h (set_state index x i curr) e = refl
  still h (set_again index x curr) e = refl
  still h (set_swap index x curr v) e = if_still h (same_ref (state_at h.nodes curr) (some v)) _ _ e
  still h (remove_at_next index i pred) e = refl
  still h (remove_at_state index i curr) e = refl
  still h (remove_at_swap index curr v) e =
      if_still h (same_ref (state_at h.nodes curr) (some v)) _ _ e
  still h (remove_next test pred) e = refl
  still h (remove_state test curr) e = refl
  still h (remove_swap test curr v) e = if_still h (same_ref (state_at h.nodes curr) (some v)) _ _ e
  still h (remove_last_next last pred) e = refl
  still h (remove_last_state last curr) e = refl
  still h (remove_last_swap curr v) e = if_still h (same_ref (state_at h.nodes curr) (some v)) _ _ e
  still h (remove_func_next predicate n pred) e = refl
  still h (remove_func_state predicate n curr) e = refl
  still h (remove_func_swap predicate n curr v) e =
      if_still h (same_ref (state_at h.nodes curr) (some v)) _ _ e

  at_node-fresh :
      (h : Heap A) (r : Option ℕ) (go : ℕ → Task A) (end : Task A)
      → Leads h.nodes r
      → ((curr : ℕ) → fresh h (go curr) ≡ true)
      → (r ≡ some tail → fresh h end ≡ true)
      → fresh h (at_node r go end) ≡ true
  unfolding at_node
  at_node-fresh h none go end l f e = elim l [ ]
  at_node-fresh h (some curr) go end l f e = elim (Bool-cases (curr == tail)) [
    | inl over ↦ let here : curr ≡ tail = ground arith in rw over (e (ap some here))
    | inr apart ↦ rw apart (f curr)
  ]

  next_node-fresh :
      (h : Heap A) (pred : ℕ) (go : ℕ → Task A) (end : Task A)
      → IsSound h.nodes
      → IsNode h.nodes pred
      → ((curr : ℕ) → fresh h (go curr) ≡ true)
      → (next_at h.nodes pred ≡ some tail → fresh h end ≡ true)
      → fresh h (at_node (next_at h.nodes pred) go end) ≡ true
  next_node-fresh h pred go end s p =
      at_node-fresh h (next_at h.nodes pred) go end
        (Leads-next h.nodes pred p.not_tail (s.leads pred p.inside))

  if_live-fresh :
      (h : Heap A) (r : Option ℕ) (go : ℕ → Task A) (skip : Task A)
      → ((v : ℕ) → r ≡ some v → fresh h (go v) ≡ true)
      → fresh h skip ≡ true
      → fresh h (if_live r go skip) ≡ true
  unfolding if_live
  if_live-fresh h none go skip f e = e
  if_live-fresh h (some v) go skip f e = f v refl

  if-fresh :
      (h : Heap A) (c : Bool) (t u : Task A)
      → fresh h t ≡ true
      → fresh h u ≡ true
      → fresh h (if c then t else u) ≡ true
  if-fresh h true t u v w = v
  if-fresh h false t u v w = w

  swap_last-fresh :
      (h : Heap A) (last : Option (ℕ × ℕ))
      → same_last h last ≡ true
      → fresh h (swap_last last) ≡ true
  unfolding swap_last
  swap_last-fresh h none e = refl
  swap_last-fresh h (some (curr, v)) e = e

  -- A call's own action keeps what it relies on up to date, as long as it swaps nothing.
  pub step-fresh :
      (h : Heap A) (t : Task A)
      → IsSound h.nodes
      → Valid h.nodes t
      → fresh h t ≡ true
      → at_swap t ≡ false
      → fresh h (step h t).1 ≡ true
  unfolding step
  step-fresh h (finished r) s v f e = refl
  step-fresh h clear_next s v f e = same_ref_refl (next_at h.nodes head)
  step-fresh h (clear_swap first) s v f e = ground arith
  step-fresh h (append_next x xs pred) s v f e =
      next_node-fresh h pred (append_next x xs) (append_swap x xs pred) s v (λ curr. refl)
        λ k. read_again _ tail k
  step-fresh h (append_swap x xs pred) s v f e = ground arith
  step-fresh h (insert_first_next x) s v f e = same_ref_refl (next_at h.nodes head)
  step-fresh h (insert_first_swap x first) s v f e = ground arith
  step-fresh h (insert_next index x i pred) s v f e =
      next_node-fresh h pred (insert_state index x i) (finished (answer false)) s v (λ curr. refl)
        λ k. refl
  step-fresh h (insert_state index x i curr) s v f e =
      if_live-fresh h (state_at h.nodes curr) _ _
        (λ w k. if-fresh h (i == index - 1) (insert_after index x curr) _ refl refl) refl
  step-fresh h (insert_after index x pred) s v f e = same_ref_refl (next_at h.nodes pred)
  step-fresh h (insert_swap index x pred next) s v f e = ground arith
  step-fresh h (set_next index x i pred) s v f e =
      next_node-fresh h pred (set_state index x i) (finished (taken none)) s v (λ curr. refl)
        λ k. refl
  step-fresh h (set_state index x i curr) s v f e =
      if_live-fresh h (state_at h.nodes curr) _ _
        (λ w k. if-fresh h (i == index) (set_swap index x curr w) _ (read_again _ w k) refl) refl
  step-fresh h (set_again index x curr) s v f e =
      if_live-fresh h (state_at h.nodes curr) (set_swap index x curr) _ (λ w k. read_again _ w k)
        refl
  step-fresh h (set_swap index x curr w) s v f e = ground arith
  step-fresh h (remove_at_next index i pred) s v f e =
      next_node-fresh h pred (remove_at_state index i) (finished (taken none)) s v (λ curr. refl)
        λ k. refl
  step-fresh h (remove_at_state index i curr) s v f e =
      if_live-fresh h (state_at h.nodes curr) _ _
        (λ w k. if-fresh h (i == index) (remove_at_swap index curr w) _ (read_again _ w k) refl)
        refl
  step-fresh h (remove_at_swap index curr w) s v f e = ground arith
  step-fresh h (remove_next test pred) s v f e =
      next_node-fresh h pred (remove_state test) (finished (taken none)) s v (λ curr. refl)
        λ k. refl
  step-fresh h (remove_state test curr) s v f e =
      if_live-fresh h (state_at h.nodes curr) _ _
        (λ w k. if-fresh h (test_box test h w) (remove_swap test curr w) _ (read_again _ w k) refl)
        refl
  step-fresh h (remove_swap test curr w) s v f e = ground arith
  step-fresh h (remove_last_next last pred) s v f e =
      next_node-fresh h pred (remove_last_state last) (swap_last last) s v (λ curr. f)
        λ k. swap_last-fresh h last f
  step-fresh h (remove_last_state last curr) s v f e =
      if_live-fresh h (state_at h.nodes curr) (λ w. remove_last_next (some (curr, w)) curr)
        (remove_last_next last curr) (λ w k. read_again _ w k) f
  step-fresh h (remove_last_swap curr w) s v f e = ground arith
  step-fresh h (remove_func_next predicate n pred) s v f e =
      next_node-fresh h pred (remove_func_state predicate n) (finished (counted n)) s v
        (λ curr. refl) λ k. refl
  step-fresh h (remove_func_state predicate n curr) s v f e =
      if_live-fresh h (state_at h.nodes curr) _ _
        (λ w k.
          if-fresh h (test_box predicate h w) (remove_func_swap predicate n curr w) _
            (read_again _ w k) refl)
        refl
  step-fresh h (remove_func_swap predicate n curr w) s v f e = ground arith
