-- ===== src/LockFreeList/Taken.antt =====
-- Each element is taken by at most one call: what the actions do to the count of its pointers.
use go_collections.Prelude.{
  ℕ, ◌+◌, ◌-◌, ◌≡◌, refl, ap, ◌≤◌, Bool, true, false, Option, none, some, List, [], length, ◌==◌,
  arith, Bool-cases, inl, inr, if◌then◌else◌,
}
use go_collections.LockFreeList.State.{
  Heap, head, tail, same_ref, next_at, state_at, link, detach, retire, renew,
}
use go_collections.LockFreeList.Task.{
  Task, done, taken, finished, clear_next, clear_swap, append_next, append_swap, insert_first_next,
  insert_first_swap, insert_next, insert_state, insert_after, insert_swap, set_next, set_state,
  set_again, set_swap, remove_at_next, remove_at_state, remove_at_swap, remove_next, remove_state,
  remove_swap, remove_last_next, remove_last_state, remove_last_swap, remove_func_next,
  remove_func_state, remove_func_swap,
}
use go_collections.LockFreeList.Action.{at_node, if_live, test_box, swap_last, step}
use go_collections.LockFreeList.Nodes.{same_ref-≡}
use go_collections.LockFreeList.Count.{
  one_if, refers, held, below, held-link, held-detach, held-retire, held-renew,
}

module _ {ℓ} {A : Type ℓ} where
  -- 1 for a call that has returned the element in box `v`
  abbrev pub took : ℕ → Task A → ℕ
  took v (finished (taken r)) = refers v r
  took v t = 0

  at_node-took :
      (v : ℕ) (r : Option ℕ) (go : ℕ → Task A) (end : Task A)
      → ((curr : ℕ) → took v (go curr) ≡ 0)
      → took v end ≡ 0
      → took v (at_node r go end) ≡ 0
  unfolding at_node
  at_node-took v none go end f e = e
  at_node-took v (some curr) go end f e = elim (Bool-cases (curr == tail)) [
    | inl over ↦ rw over e
    | inr apart ↦ rw apart (f curr)
  ]

  if_live-took :
      (v : ℕ) (r : Option ℕ) (go : ℕ → Task A) (skip : Task A)
      → ((w : ℕ) → took v (go w) ≡ 0)
      → took v skip ≡ 0
      → took v (if_live r go skip) ≡ 0
  unfolding if_live
  if_live-took v none go skip f e = e
  if_live-took v (some w) go skip f e = f w

  if-took :
      (v : ℕ) (c : Bool) (t u : Task A)
      → took v t ≡ 0
      → took v u ≡ 0
      → took v (if c then t else u) ≡ 0
  if-took v true t u e f = e
  if-took v false t u e f = f

swap_last-took {ℓ} :
    (A : Type ℓ) (v : ℕ) (last : Option (ℕ × ℕ)) → took {A = A} v (swap_last last) ≡ 0
unfolding swap_last
swap_last-took A v none = refl
swap_last-took A v (some (curr, w)) = refl

module _ {ℓ} {A : Type ℓ} where
  -- An action takes a box out of the nodes where the call returns it, and else brings in new boxes.
  abbrev pub Counts : ℕ → Heap A → Task A → Heap A × Task A → Type 0
  Counts v h t after =
      held v after.0.nodes + took v after.1 + below v (length h.boxes)
      ≤ held v h.nodes + took v t + below v (length after.0.boxes)

  stay-Counts : (v : ℕ) (h : Heap A) (t u : Task A) → took v u ≡ 0 → Counts v h t (h, u)
  stay-Counts v h t u e = omega (arith, e)

  swap-Counts :
      (v : ℕ) (h : Heap A) (t : Task A) (c : Bool) (yes_swap no_swap : Heap A × Task A)
      → (c ≡ true → Counts v h t yes_swap)
      → Counts v h t no_swap
      → Counts v h t (if c then yes_swap else no_swap)
  swap-Counts v h t true y n e f = e refl
  swap-Counts v h t false y n e f = f

  next-Counts :
      (v : ℕ) (h : Heap A) (t : Task A) (r : Option ℕ) (go : ℕ → Task A) (end : Task A)
      → ((curr : ℕ) → took v (go curr) ≡ 0)
      → took v end ≡ 0
      → Counts v h t (h, at_node r go end)
  next-Counts v h t r go end f e =
      stay-Counts v h t (at_node r go end) (at_node-took v r go end f e)

  state-Counts :
      (v : ℕ) (h : Heap A) (t : Task A) (r : Option ℕ) (go : ℕ → Task A) (skip : Task A)
      → ((w : ℕ) → took v (go w) ≡ 0)
      → took v skip ≡ 0
      → Counts v h t (h, if_live r go skip)
  state-Counts v h t r go skip f e =
      stay-Counts v h t (if_live r go skip) (if_live-took v r go skip f e)

  link-Counts :
      (v : ℕ) (h : Heap A) (t : Task A) (c : Bool) (pred : ℕ) (x : A) (xs : List A) (u w : Task A)
      → took v u ≡ 0
      → took v w ≡ 0
      → Counts v h t (if c then (link h pred x xs, u) else (h, w))
  link-Counts v h t c pred x xs u w e f =
      swap-Counts v h t c (link h pred x xs, u) (h, w)
        (λ d. omega (arith, held-link v h pred x xs, e)) (stay-Counts v h t w f)

  boxes-retire : (h : Heap A) (a : ℕ) → (retire h a).boxes ≡ h.boxes
  unfolding retire
  boxes-retire h a = refl

  boxes-detach : (h : Heap A) → (detach h).boxes ≡ h.boxes
  unfolding detach
  boxes-detach h = refl

  retire-Counts :
      (v : ℕ) (h : Heap A) (t : Task A) (a w : ℕ) (u again : Task A)
      → took v u ≤ one_if (v == w)
      → took v again ≡ 0
      → Counts v h t
          (if same_ref (state_at h.nodes a) (some w) then (retire h a, u) else (h, again))
  retire-Counts v h t a w u again e f =
      swap-Counts v h t (same_ref (state_at h.nodes a) (some w)) (retire h a, u) (h, again)
        (λ d.
          let same_boxes : below v (length (retire h a).boxes) ≡ below v (length h.boxes) =
            ap (λ bs. below v (length bs)) (boxes-retire h a) in
          omega (
            arith,
            held-retire v h a w (same_ref-≡ (state_at h.nodes a) (some w) d),
            e,
            same_boxes,
          ))
        (stay-Counts v h t again f)

  pub step-Counts : (v : ℕ) (h : Heap A) (t : Task A) → Counts v h t (step h t)
  unfolding step
  step-Counts v h (finished r) = omega arith
  step-Counts v h clear_next = omega arith
  step-Counts v h (clear_swap first) =
      let same_boxes : below v (length (detach h).boxes) ≡ below v (length h.boxes) =
        ap (λ bs. below v (length bs)) (boxes-detach h) in
      swap-Counts v h (clear_swap first) (same_ref (next_at h.nodes head) first)
        (detach h, finished done) (h, clear_next) (λ d. omega (arith, held-detach v h, same_boxes))
        (omega arith)
  step-Counts v h (append_next x xs a) =
      next-Counts v h (append_next x xs a) (next_at h.nodes a) _ _ (λ c. refl) refl
  step-Counts v h (append_swap x xs a) = link-Counts v h (append_swap x xs a) _ a x xs _ _ refl refl
  step-Counts v h (insert_first_next x) = omega arith
  step-Counts v h (insert_first_swap x first) =
      link-Counts v h (insert_first_swap x first) _ head x [] _ _ refl refl
  step-Counts v h (insert_next index x i a) =
      next-Counts v h (insert_next index x i a) (next_at h.nodes a) _ _ (λ c. refl) refl
  step-Counts v h (insert_state index x i a) =
      state-Counts v h (insert_state index x i a) (state_at h.nodes a) _ _
        (λ w. if-took v (i == index - 1) _ _ refl refl) refl
  step-Counts v h (insert_after index x a) = omega arith
  step-Counts v h (insert_swap index x a next) =
      link-Counts v h (insert_swap index x a next) _ a x [] _ _ refl refl
  step-Counts v h (set_next index x i a) =
      next-Counts v h (set_next index x i a) (next_at h.nodes a) _ _ (λ c. refl) refl
  step-Counts v h (set_state index x i a) =
      state-Counts v h (set_state index x i a) (state_at h.nodes a) _ _
        (λ w. if-took v (i == index) _ _ refl refl) refl
  step-Counts v h (set_again index x a) =
      state-Counts v h (set_again index x a) (state_at h.nodes a) _ _ (λ w. refl) refl
  step-Counts v h (set_swap index x a w) =
      swap-Counts v h (set_swap index x a w) (same_ref (state_at h.nodes a) (some w))
        (renew h a x, finished (taken (some w))) (h, set_again index x a)
        (λ d. omega (arith, held-renew v h a w x (same_ref-≡ (state_at h.nodes a) (some w) d)))
        (omega arith)
  step-Counts v h (remove_at_next index i a) =
      next-Counts v h (remove_at_next index i a) (next_at h.nodes a) _ _ (λ c. refl) refl
  step-Counts v h (remove_at_state index i a) =
      state-Counts v h (remove_at_state index i a) (state_at h.nodes a) _ _
        (λ w. if-took v (i == index) _ _ refl refl) refl
  step-Counts v h (remove_at_swap index a w) =
      retire-Counts v h (remove_at_swap index a w) a w _ _ (omega arith) refl
  step-Counts v h (remove_next test a) =
      next-Counts v h (remove_next test a) (next_at h.nodes a) _ _ (λ c. refl) refl
  step-Counts v h (remove_state test a) =
      state-Counts v h (remove_state test a) (state_at h.nodes a) _ _
        (λ w. if-took v (test_box test h w) _ _ refl refl) refl
  step-Counts v h (remove_swap test a w) =
      retire-Counts v h (remove_swap test a w) a w _ _ (omega arith) refl
  step-Counts v h (remove_last_next last a) =
      next-Counts v h (remove_last_next last a) (next_at h.nodes a) _ _ (λ c. refl)
        (swap_last-took A v last)
  step-Counts v h (remove_last_state last a) =
      state-Counts v h (remove_last_state last a) (state_at h.nodes a) _ _ (λ w. refl) refl
  step-Counts v h (remove_last_swap a w) =
      retire-Counts v h (remove_last_swap a w) a w _ _ (omega arith) refl
  step-Counts v h (remove_func_next test n a) =
      next-Counts v h (remove_func_next test n a) (next_at h.nodes a) _ _ (λ c. refl) refl
  step-Counts v h (remove_func_state test n a) =
      state-Counts v h (remove_func_state test n a) (state_at h.nodes a) _ _
        (λ w. if-took v (test_box test h w) _ _ refl refl) refl
  step-Counts v h (remove_func_swap test n a w) =
      retire-Counts v h (remove_func_swap test n a w) a w _ _ (omega arith) refl
