-- ===== src/LockFreeList/System.antt =====
-- lockfreelist.go: calls that goroutines have under way together.
use go_collections.Prelude.{ℕ, zero, suc, List, [], ◌∷◌}
use go_collections.LockFreeList.State.{Heap}
use go_collections.LockFreeList.Task.{Task, done, finished}
use go_collections.LockFreeList.Action.{step}

-- The list and the calls that goroutines have under way.
pub record System {ℓ} (A : Type ℓ) : Type ℓ where
  pub heap : Heap A
  pub tasks : List (Task A)

module _ {ℓ} {A : Type ℓ} where
  unfoldable pub put_task : List (Task A) → ℕ → Task A → List (Task A)
  put_task [] i t = []
  put_task (u ∷ us) zero t = t ∷ us
  put_task (u ∷ us) (suc i) t = u ∷ put_task us i t

  unfoldable pub task_at : List (Task A) → ℕ → Task A
  task_at [] i = finished done
  task_at (t ∷ ts) zero = t
  task_at (t ∷ ts) (suc i) = task_at ts i

  -- Call `i` takes its next step.
  unfoldable pub schedule : System A → ℕ → System A
  schedule s i =
      let (h, t) = step s.heap (task_at s.tasks i) in
      record { heap = h; tasks = put_task s.tasks i t }

  -- The steps of the calls in a given order.
  unfoldable pub run : System A → List ℕ → System A
  run s [] = s
  run s (i ∷ order) = run (schedule s i) order
