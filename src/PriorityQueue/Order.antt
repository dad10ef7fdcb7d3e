-- ===== src/PriorityQueue/Order.antt =====
-- The heap order of priorityqueue.go, and what a lawful comparator gives.
use go_collections.Prelude.{ℕ, zero, suc, ◌≤◌, ◌<◌, ◌≡◌, false, List, length, get_or, arith}
use go_collections.Prelude.Int.{is_neg}
use go_collections.Prelude.Slice.{Zero}
use go_collections.Comparator.{Comparator, IsComparator, irrefl}
use go_collections.PriorityQueue.{parent}

module _ {ℓ} {A : Type ℓ} (cmp : Comparator A) where
  -- `x` need not come after `y`: `cmp(y, x) >= 0`
  abbrev pub Before : A → A → Type 0
  Before x y = is_neg (cmp y x) ≡ false

module _ {ℓ} {A : Type ℓ} ⦃z : Zero A⦄ where
  abbrev pub key : List A → ℕ → A
  key a i = get_or a i z.zero_value

module _ {ℓ} {A : Type ℓ} (cmp : Comparator A) ⦃z : Zero A⦄ where
  -- The edges whose parent stands at `lo` or later are in order.
  abbrev pub IsHeapFrom : ℕ → List A → Type 0
  IsHeapFrom lo a =
      (c : ℕ) → 0 < c → c < length a → lo ≤ parent c → Before cmp (key a (parent c)) (key a c)

  abbrev pub IsHeap : List A → Type 0
  IsHeap a = IsHeapFrom 0 a

  root_before_below :
      IsComparator cmp
      → (k : ℕ) (a : List A) (i : ℕ) → IsHeap a
      → i < k
      → i < length a
      → Before cmp (key a 0) (key a i)
  root_before_below law zero a i h f p = absurd (omega arith)
  root_before_below law (suc k) a zero h f p = irrefl law (key a 0)
  root_before_below law (suc k) a (suc i) h f p =
      law.trans (key a 0) (key a (parent (suc i))) (key a (suc i))
        (root_before_below law k a (parent (suc i)) h (omega arith) (omega arith))
        (h (suc i) (omega arith) p (omega arith))

  -- The root of a heap comes before every other element.
  pub root_before :
      IsComparator cmp
      → (a : List A) (i : ℕ) → IsHeap a
      → i < length a
      → Before cmp (key a 0) (key a i)
  root_before law a i h p = root_before_below law (suc i) a i h (omega arith) p
