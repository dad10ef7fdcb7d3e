-- ===== src/ArrayQueue.antt =====
-- arrayqueue.go: a FIFO queue in a slice whose consumed front is reclaimed from time to time.
-- A method that changes the queue returns the new queue. `room` is cap(q.data); how far append
-- grows it is up to the Go runtime, so that is a parameter.
pub mod Contents
pub mod Serialize
pub mod Refine
mod Examples
use go_collections.Prelude.{
  ℕ, zero, suc, ◌+◌, ◌-◌, ◌/◌, ◌≤◌, ◌≡◌, Bool, true, false, not, List, [], ◌∷◌, ◌++◌, ◌&&◌, length,
  take, drop, replicate, ltb, leb, ◌==◌, if◌then◌else◌,
}
use go_collections.Prelude.Int.{ℤ, is_neg, to_nat}
use go_collections.Prelude.Outcome.{Outcome, returned, ◌>>=◌}
use go_collections.Prelude.Slice.{Zero, load, store, slice, copy}

pub record ArrayQueue {ℓ} (A : Type ℓ) : Type ℓ where
  pub items : List A
  pub room : ℕ
  pub head : ℕ

-- The capacity that append gives a slice of a capacity that has to hold a number of elements.
pub record Runtime : Type 0 where
  pub grown : ℕ → ℕ → ℕ
  pub grown_enough : (old needed : ℕ) → needed ≤ grown old needed

-- The capacity after append.
abbrev pub room_for : Runtime → ℕ → ℕ → ℕ
room_for rt old needed = if leb needed old then old else rt.grown old needed

module _ {ℓ} {A : Type ℓ} where
  -- NewArrayQueue
  pub new : ArrayQueue A
  new = record { items = []; room = 0; head = 0 }

  -- NewArrayQueueWithCapacity
  pub new_with_capacity : ℤ → ArrayQueue A
  new_with_capacity capacity =
      let n = if is_neg capacity then 0 else to_nat capacity in
      record { items = []; room = n; head = 0 }

  pub size : ArrayQueue A → ℕ
  size q = length q.items - q.head

  pub is_empty : ArrayQueue A → Bool
  is_empty q = size q == 0

  pub is_not_empty : ArrayQueue A → Bool
  is_not_empty q = not (is_empty q)

  module _ (rt : Runtime) where
    pub enqueue : ArrayQueue A → A → ArrayQueue A
    enqueue q element =
        let items = q.items ++ element ∷ [] in
        record q { items = items; room = room_for rt q.room (length items) }

    pub enqueue_all : ArrayQueue A → List A → ArrayQueue A
    enqueue_all q elements =
        let items = q.items ++ elements in
        record q { items = items; room = room_for rt q.room (length items) }

  pub to_slice : ArrayQueue A → Outcome (List A)
  to_slice q = slice q.items q.head (length q.items)

  -- What Seq yields to a consumer that does not stop.
  pub seq : ArrayQueue A → Outcome (List A)
  seq q = slice q.items q.head (length q.items)

module _ {ℓ} {A : Type ℓ} ⦃z : Zero A⦄ where
  -- NewArrayQueueFrom
  pub new_from : List A → ArrayQueue A
  new_from elements =
      let cp = (copy (replicate (length elements) z.zero_value) elements).0 in
      record { items = cp; room = length cp; head = 0 }

  pub clear : ArrayQueue A → ArrayQueue A
  clear q = record q { items = take 0 (replicate (length q.items) z.zero_value); head = 0 }

  pub compact : ArrayQueue A → Outcome (ArrayQueue A)
  compact q =
      let live = length q.items - q.head in
      let shrunk : Outcome (ArrayQueue A) = do
        rest ← slice q.items q.head (length q.items)
        let new_data = (copy (replicate live z.zero_value) rest).0
        returned (record { items = new_data; room = length new_data; head = 0 })
      in let shifted : Outcome (ArrayQueue A) = do
        front ← slice q.items 0 live
        rest ← slice q.items q.head (length q.items)
        let moved = (copy front rest).0 ++ drop live q.items
        vacated ← slice moved live (length moved)
        let cleared = take live moved ++ replicate (length vacated) z.zero_value
        kept ← slice cleared 0 live
        returned (record q { items = kept; head = 0 })
        in if q.head == 0
          then returned q
          else if ltb live (q.room / 4) && ltb 64 q.room
          then shrunk
          else shifted

  pub dequeue : ArrayQueue A → Outcome (A × Bool × ArrayQueue A)
  dequeue q =
      let taken : Outcome (A × Bool × ArrayQueue A) = do
        v ← load q.items q.head
        items ← store q.items q.head z.zero_value
        let head = q.head + 1
        let q' = record q { items = items; head = head }
        q'' ← if ltb (length items / 2) head then compact q' else returned q'
        returned (v, true, q'')
      in if leb (length q.items) q.head then returned (z.zero_value, false, q) else taken

  pub peek : ArrayQueue A → Outcome (A × Bool)
  peek q =
      let first : Outcome (A × Bool) = load q.items q.head >>= λ v. returned (v, true) in
      if leb (length q.items) q.head then returned (z.zero_value, false) else first
