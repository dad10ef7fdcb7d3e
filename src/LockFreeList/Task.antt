-- ===== src/LockFreeList/Task.antt =====
-- lockfreelist.go: where a call stands, and where it starts.
use go_collections.Prelude.{ℕ, Bool, true, false, Option, none, List, [], ◌∷◌, ◌==◌, if◌then◌else◌}
use go_collections.Prelude.Int.{ℤ, pos, negsuc}
use go_collections.LockFreeList.State.{head}

-- What a call returns; an element by its box.
pub data Reply : Type 0 where
  done : Reply
  answer : Bool → Reply
  taken : Option ℕ → Reply
  counted : ℕ → Reply

-- Where a call stands: `_next` before a load of `next`, `_state` before a load of `state`, and `_swap`
-- before a compare-and-swap.
pub data Task {ℓ} (A : Type ℓ) : Type ℓ where
  finished : Reply → Task A
  clear_next : Task A
  clear_swap : Option ℕ → Task A
  append_next append_swap : A → List A → ℕ → Task A
  insert_first_next : A → Task A
  insert_first_swap : A → Option ℕ → Task A
  insert_next insert_state : ℕ → A → ℕ → ℕ → Task A
  insert_after : ℕ → A → ℕ → Task A
  insert_swap : ℕ → A → ℕ → Option ℕ → Task A
  set_next set_state : ℕ → A → ℕ → ℕ → Task A
  set_again : ℕ → A → ℕ → Task A
  set_swap : ℕ → A → ℕ → ℕ → Task A
  remove_at_next remove_at_state : ℕ → ℕ → ℕ → Task A
  remove_at_swap : ℕ → ℕ → ℕ → Task A
  remove_next remove_state : (A → Bool) → ℕ → Task A
  remove_swap : (A → Bool) → ℕ → ℕ → Task A
  remove_last_next remove_last_state : Option (ℕ × ℕ) → ℕ → Task A
  remove_last_swap : ℕ → ℕ → Task A
  remove_func_next remove_func_state : (A → Bool) → ℕ → ℕ → Task A
  remove_func_swap : (A → Bool) → ℕ → ℕ → ℕ → Task A

module _ {ℓ} {A : Type ℓ} where
  -- The calls. An index below 0 is refused at once.
  unfoldable pub clear : Task A
  clear = clear_next

  unfoldable pub add : A → Task A
  add x = append_next x [] head

  unfoldable pub add_all : List A → Task A
  add_all [] = finished done
  add_all (x ∷ xs) = append_next x xs head

  unfoldable pub insert : ℤ → A → Task A
  insert (pos index) x = if index == 0 then insert_first_next x else insert_next index x 0 head
  insert (negsuc n) x = finished (answer false)

  unfoldable pub set : ℤ → A → Task A
  set (pos index) x = set_next index x 0 head
  set (negsuc n) x = finished (taken none)

  unfoldable pub remove_at : ℤ → Task A
  remove_at (pos index) = remove_at_next index 0 head
  remove_at (negsuc n) = finished (taken none)

  unfoldable pub remove : A → (A → A → Bool) → Task A
  remove element eq = remove_next (λ v. eq v element) head

  unfoldable pub remove_first : Task A
  remove_first = remove_next (λ v. true) head

  unfoldable pub remove_last : Task A
  remove_last = remove_last_next none head

  unfoldable pub remove_func : (A → Bool) → Task A
  remove_func predicate = remove_func_next predicate 0 head

-- The methods that change a list, with their arguments.
pub data Call {ℓ} (A : Type ℓ) : Type ℓ where
  to_clear to_remove_first to_remove_last : Call A
  to_add : A → Call A
  to_add_all : List A → Call A
  to_insert to_set : ℤ → A → Call A
  to_remove_at : ℤ → Call A
  to_remove : A → (A → A → Bool) → Call A
  to_remove_func : (A → Bool) → Call A

module _ {ℓ} {A : Type ℓ} where
  unfoldable pub start : Call A → Task A
  start to_clear = clear
  start (to_add x) = add x
  start (to_add_all xs) = add_all xs
  start (to_insert index x) = insert index x
  start (to_set index x) = set index x
  start (to_remove_at index) = remove_at index
  start (to_remove element eq) = remove element eq
  start to_remove_first = remove_first
  start to_remove_last = remove_last
  start (to_remove_func predicate) = remove_func predicate

  unfoldable pub start_all : List (Call A) → List (Task A)
  start_all [] = []
  start_all (c ∷ cs) = start c ∷ start_all cs
