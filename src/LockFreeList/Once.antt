-- ===== src/LockFreeList/Once.antt =====
-- Each element is taken by at most one call.
use go_collections.Prelude.{
  ℕ, zero, suc, ◌+◌, ◌≡◌, refl, ap, ◌≤◌, some, List, [], ◌∷◌, length, ◌==◌, arith, Bool-cases, inl,
  inr,
}
use go_collections.Prelude.Int.{pos, negsuc}
use go_collections.LockFreeList.State.{Heap, state_at, new}
use go_collections.LockFreeList.Task.{
  Task, Call, done, taken, finished, clear, add, add_all, insert, set, remove_at, remove,
  remove_first, remove_last, remove_func, start, start_all, to_clear, to_remove_first,
  to_remove_last, to_add, to_add_all, to_insert, to_set, to_remove_at, to_remove, to_remove_func,
}
use go_collections.LockFreeList.Action.{step}
use go_collections.LockFreeList.System.{System, put_task, task_at, schedule, run}
use go_collections.LockFreeList.Count.{one_if, held, below, state_at-held}
use go_collections.LockFreeList.Taken.{took, step-Counts}

module _ {ℓ} {A : Type ℓ} where
  -- The number of calls that have returned the element in box `v`.
  abbrev tooks : ℕ → List (Task A) → ℕ
  tooks v [] = 0
  tooks v (t ∷ ts) = took v t + tooks v ts

  -- Each box is in one node at most, and there are no others.
  abbrev pub IsOwned : Heap A → Type 0
  IsOwned h = (v : ℕ) → held v h.nodes ≤ below v (length h.boxes)

  -- A box is in one node or has been returned by one call, at most.
  Single : System A → Type 0
  Single s = (v : ℕ) → held v s.heap.nodes + tooks v s.tasks ≤ below v (length s.heap.boxes)

  tooks-put_task :
      (v : ℕ) (ts : List (Task A)) (i : ℕ) (t : Task A)
      → tooks v (put_task ts i t) + took v (task_at ts i) ≤ tooks v ts + took v t
  unfolding put_task task_at
  tooks-put_task v [] i t = omega arith
  tooks-put_task v (u ∷ us) zero t = omega arith
  tooks-put_task v (u ∷ us) (suc i) t = omega (arith, tooks-put_task v us i t)

  schedule-Single : (s : System A) (i : ℕ) → Single s → Single (schedule s i)
  unfolding schedule Single
  schedule-Single s i single v =
      let t = task_at s.tasks i in
      let counts = step-Counts v s.heap t in
      let put = tooks-put_task v s.tasks i (step s.heap t).1 in
      let before = single v in omega (arith, counts, put, before)

  run-Single : (s : System A) (order : List ℕ) → Single s → Single (run s order)
  unfolding run
  run-Single s [] single = single
  run-Single s (i ∷ order) single = run-Single (schedule s i) order (schedule-Single s i single)

  took-start : (v : ℕ) (c : Call A) → took v (start c) ≡ 0
  unfolding start clear add add_all insert set remove_at remove remove_first remove_last remove_func
  took-start v to_clear = refl
  took-start v (to_add x) = refl
  took-start v (to_add_all []) = refl
  took-start v (to_add_all (x ∷ xs)) = refl
  took-start v (to_insert (pos index) x) = elim (Bool-cases (index == 0)) [
    | inl e ↦ rw e refl
    | inr e ↦ rw e refl
  ]
  took-start v (to_insert (negsuc n) x) = refl
  took-start v (to_set (pos index) x) = refl
  took-start v (to_set (negsuc n) x) = refl
  took-start v (to_remove_at (pos index)) = refl
  took-start v (to_remove_at (negsuc n)) = refl
  took-start v (to_remove element eq) = refl
  took-start v to_remove_first = refl
  took-start v to_remove_last = refl
  took-start v (to_remove_func predicate) = refl

  tooks-start_all : (v : ℕ) (cs : List (Call A)) → tooks v (start_all cs) ≡ 0
  unfolding start_all
  tooks-start_all v [] = refl
  tooks-start_all v (c ∷ cs) = omega (arith, took-start v c, tooks-start_all v cs)

  done-took : (v : ℕ) → ¬ (◌≡◌ {A = Task A} (finished done) (finished (taken (some v))))
  done-took v e =
      let nothing : 0 ≡ one_if (v == v) = ap (took v) e in
      let own : one_if (v == v) ≡ 1 = ground arith in omega (arith, nothing, own)

  took_at :
      (v : ℕ) (ts : List (Task A)) (i : ℕ)
      → task_at ts i ≡ finished (taken (some v))
      → 1 ≤ tooks v ts
  unfolding task_at
  took_at v [] i e = absurd (done-took v e)
  took_at v (t ∷ ts) zero e =
      let here : took v t ≡ one_if (v == v) = ap (took v) e in
      let own : one_if (v == v) ≡ 1 = ground arith in omega (arith, here, own)
  took_at v (t ∷ ts) (suc i) e = omega (arith, took_at v ts i e)

  same_call :
      (v : ℕ) (ts : List (Task A)) (i j : ℕ)
      → tooks v ts ≤ 1
      → task_at ts i ≡ finished (taken (some v))
      → task_at ts j ≡ finished (taken (some v))
      → i ≡ j
  unfolding task_at
  same_call v [] i j h e f = absurd (done-took v e)
  same_call v (t ∷ ts) zero zero h e f = refl
  same_call v (t ∷ ts) zero (suc j) h e f =
      let here : took v t ≡ one_if (v == v) = ap (took v) e in
      let own : one_if (v == v) ≡ 1 = ground arith in
      absurd (omega (arith, h, here, own, took_at v ts j f))
  same_call v (t ∷ ts) (suc i) zero h e f =
      let here : took v t ≡ one_if (v == v) = ap (took v) f in
      let own : one_if (v == v) ≡ 1 = ground arith in
      absurd (omega (arith, h, here, own, took_at v ts i e))
  same_call v (t ∷ ts) (suc i) (suc j) h e f = ap suc (same_call v ts i j (omega (arith, h)) e f)

  -- In any interleaving of calls, no two of them return the same element in the same box, and what a
  -- call has returned is in no node any more.
  pub taken_once :
      (h : Heap A) (cs : List (Call A)) (order : List ℕ) (i j v a : ℕ)
      → IsOwned h
      → task_at (run (record { heap = h; tasks = start_all cs }) order).tasks i
        ≡ finished (taken (some v))
      → task_at (run (record { heap = h; tasks = start_all cs }) order).tasks j
        ≡ finished (taken (some v))
      → (i ≡ j)
        × ¬ (state_at (run (record { heap = h; tasks = start_all cs }) order).heap.nodes a ≡ some v)
  unfolding Single
  taken_once h cs order i j v a owned e f =
      let first : System A = record { heap = h; tasks = start_all cs } in
      let s = run first order in
      let single = run-Single first order (λ w. omega (arith, owned w, tooks-start_all w cs)) v in
      let bound : below v (length s.heap.boxes) ≤ 1 = ground arith in
      let one = took_at v s.tasks i e in
      (
        same_call v s.tasks i j (omega (arith, single, bound)) e f,
        λ there. omega (arith, single, bound, one, state_at-held v s.heap.nodes a there),
      )

pub new-IsOwned {ℓ} : (A : Type ℓ) → IsOwned (new {A = A})
unfolding new
new-IsOwned A v = omega arith
