-- ===== src/ArrayDeque.antt =====
-- arraydeque.go: a double-ended queue in a circular buffer.
-- A method that changes the deque returns the new deque.
pub mod Ring
pub mod Grow
pub mod Front
pub mod Back
pub mod Iterate
pub mod Serialize
pub mod Refine
mod Examples
use go_collections.Prelude.{
  ℕ, zero, suc, ◌+◌, ◌-◌, ◌*◌, min, ◌≡◌, Bool, true, false, not, List, [], ◌∷◌, ◌++◌, length, take,
  drop, replicate, tabulate, ltb, ◌==◌, if◌then◌else◌,
}
use go_collections.Prelude.Int.{ℤ, pos, is_neg, to_nat, sub_ℕ, add_ℕ, rem}
use go_collections.Prelude.Outcome.{Outcome, returned, panicked, ◌>>=◌}
use go_collections.Prelude.Slice.{Zero, load, store, slice, copy}

pub record ArrayDeque {ℓ} (A : Type ℓ) : Type ℓ where
  pub buf : List A
  pub head : ℕ
  pub tail : ℕ
  pub size : ℕ

-- The method mod; `%` by 0 panics.
pub wrap : ℤ → ℕ → Outcome ℕ
wrap n m =
    let r = rem n m in
    if m == 0 then panicked else returned (to_nat (if is_neg r then add_ℕ r m else r))

module _ {ℓ} {A : Type ℓ} ⦃z : Zero A⦄ where
  -- NewArrayDeque
  pub new : ArrayDeque A
  new = record { buf = []; head = 0; tail = 0; size = 0 }

  -- NewArrayDequeWithCapacity
  pub new_with_capacity : ℤ → ArrayDeque A
  new_with_capacity capacity =
      let n = if is_neg capacity then 0 else to_nat capacity in
      record { buf = replicate n z.zero_value; head = 0; tail = 0; size = 0 }

  -- NewArrayDequeFrom, and replaceFromSlice
  pub new_from : List A → ArrayDeque A
  new_from elements =
      let cp = (copy (replicate (length elements) z.zero_value) elements).0 in
      record { buf = cp; head = 0; tail = 0; size = length cp }

  pub is_empty : ArrayDeque A → Bool
  is_empty d = d.size == 0

  pub is_not_empty : ArrayDeque A → Bool
  is_not_empty d = not (is_empty d)

  pub clear : ArrayDeque A → ArrayDeque A
  clear d = record { buf = replicate (length d.buf) z.zero_value; head = 0; tail = 0; size = 0 }

  pub copy_to : ArrayDeque A → List A → Outcome (List A)
  copy_to d dst =
      let both : Outcome (List A) = do
        first ← slice d.buf d.head (min (d.head + d.size) (length d.buf))
        let (dst', n) = copy dst first
        rest ← slice dst' n (length dst')
        second ← slice d.buf 0 (d.size - n)
        returned (take n dst' ++ (copy rest second).0)
      in if d.size == 0 then returned dst else both

  pub to_slice : ArrayDeque A → Outcome (List A)
  to_slice d = copy_to d (replicate d.size z.zero_value)

  pub ensure_capacity_for_one : ArrayDeque A → Outcome (ArrayDeque A)
  ensure_capacity_for_one d =
      let new_cap = if ltb 0 (length d.buf) then length d.buf * 2 else 1 in
      let grown : Outcome (ArrayDeque A) = do
        new_buf ← copy_to d (replicate new_cap z.zero_value)
        returned (record d { buf = new_buf; head = 0; tail = d.size })
      in if ltb d.size (length d.buf) then returned d else grown

  pub push_front : ArrayDeque A → A → Outcome (ArrayDeque A)
  push_front d element = do
    e ← ensure_capacity_for_one d
    h ← wrap (sub_ℕ e.head 1) (length e.buf)
    b ← store e.buf h element
    returned (record e { buf = b; head = h; size = e.size + 1 })

  pub pop_front : ArrayDeque A → Outcome (A × Bool × ArrayDeque A)
  pop_front d =
      let taken : Outcome (A × Bool × ArrayDeque A) = do
        v ← load d.buf d.head
        b ← store d.buf d.head z.zero_value
        h ← wrap (pos (d.head + 1)) (length b)
        returned (v, true, record d { buf = b; head = h; size = d.size - 1 })
      in if d.size == 0 then returned (z.zero_value, false, d) else taken

  pub peek_front : ArrayDeque A → Outcome (A × Bool)
  peek_front d =
      let first : Outcome (A × Bool) = load d.buf d.head >>= λ v. returned (v, true) in
      if d.size == 0 then returned (z.zero_value, false) else first

  pub push_back : ArrayDeque A → A → Outcome (ArrayDeque A)
  push_back d element = do
    e ← ensure_capacity_for_one d
    b ← store e.buf e.tail element
    t ← wrap (pos (e.tail + 1)) (length b)
    returned (record e { buf = b; tail = t; size = e.size + 1 })

  pub pop_back : ArrayDeque A → Outcome (A × Bool × ArrayDeque A)
  pop_back d =
      let taken : Outcome (A × Bool × ArrayDeque A) = do
        t ← wrap (sub_ℕ d.tail 1) (length d.buf)
        v ← load d.buf t
        b ← store d.buf t z.zero_value
        returned (v, true, record d { buf = b; tail = t; size = d.size - 1 })
      in if d.size == 0 then returned (z.zero_value, false, d) else taken

  pub peek_back : ArrayDeque A → Outcome (A × Bool)
  peek_back d =
      let last : Outcome (A × Bool) = do
        idx ← wrap (sub_ℕ d.tail 1) (length d.buf)
        v ← load d.buf idx
        returned (v, true)
      in if d.size == 0 then returned (z.zero_value, false) else last

  pub at : ArrayDeque A → ℕ → Outcome A
  at d i = do idx ← wrap (pos (d.head + i)) (length d.buf); load d.buf idx

  -- What Seq yields until the consumer stops: `n` rounds from index `i` on.
  pub seq_from : ArrayDeque A → ℕ → ℕ → Outcome (List A)
  seq_from d zero i = returned []
  seq_from d (suc n) i = do v ← at d i; vs ← seq_from d n (i + 1); returned (v ∷ vs)

  pub seq : ArrayDeque A → Outcome (List A)
  seq d = seq_from d d.size 0

  -- What Reversed yields: the rounds from index `n - 1` down to 0.
  pub reversed_from : ArrayDeque A → ℕ → Outcome (List A)
  reversed_from d zero = returned []
  reversed_from d (suc n) = do v ← at d n; vs ← reversed_from d n; returned (v ∷ vs)

  pub reversed : ArrayDeque A → Outcome (List A)
  reversed d = reversed_from d d.size
