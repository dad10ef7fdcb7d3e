-- ===== src/PriorityQueue.antt =====
-- priorityqueue.go: a binary heap in a slice, ordered by a comparator.
-- A method that changes the queue returns the new queue. The comparator may be nil, and a call
-- of nil panics.
pub mod Order
pub mod Up
pub mod Down
pub mod Insert
pub mod Remove
pub mod Serialize
pub mod Drain
mod Examples
use go_collections.Prelude.{
  ℕ, zero, suc, ◌+◌, ◌-◌, ◌*◌, ◌/◌, ◌≡◌, Bool, true, false, Option, none, some, List, [], ◌∷◌, ◌++◌,
  length, take, replicate, ltb, leb, ◌==◌, if◌then◌else◌,
}
use go_collections.Prelude.Int.{ℤ, is_neg}
use go_collections.Prelude.Outcome.{Outcome, returned, panicked, diverged, ◌>>=◌}
use go_collections.Prelude.Slice.{Zero, load, store, slice, exchange}
use go_collections.Comparator.{Comparator, Ordered, compare_func, reverse_func}

pub record PriorityQueue {ℓ} (A : Type ℓ) : Type ℓ where
  pub items : List A
  pub cmp : Option (Comparator A)

abbrev pub parent : ℕ → ℕ
parent i = (i - 1) / 2

module _ {ℓ} {A : Type ℓ} where
  -- `pq.cmp(x, y)`
  pub call : Option (Comparator A) → A → A → Outcome ℤ
  call none x y = panicked
  call (some cmp) x y = returned (cmp x y)

  -- The `for` of siftUp, with fuel.
  pub sift_up_loop : ℕ → Option (Comparator A) → List A → ℕ → Outcome (List A)
  sift_up_loop zero cmp a i = diverged
  sift_up_loop (suc fuel) cmp a i =
      let again = exchange a i (parent i) >>= λ b. sift_up_loop fuel cmp b (parent i) in
      let round = do
        x ← load a i
        y ← load a (parent i)
        order ← call cmp x y
        if is_neg order then again else returned a
      in if ltb 0 i then round else returned a

  pub sift_up : Option (Comparator A) → List A → ℕ → Outcome (List A)
  sift_up cmp a i = sift_up_loop (suc i) cmp a i

  -- `smallest`, where the left child exists
  pub smallest_child : Option (Comparator A) → List A → ℕ → Outcome ℕ
  smallest_child cmp a i =
      let left = 2 * i + 1 in
      let right = left + 1 in
      let both = do
        x ← load a right
        y ← load a left
        order ← call cmp x y
        returned (if is_neg order then right else left)
      in if ltb right (length a) then both else returned left

  -- The `for` of siftDown, with fuel.
  pub sift_down_loop : ℕ → Option (Comparator A) → List A → ℕ → Outcome (List A)
  sift_down_loop zero cmp a i = diverged
  sift_down_loop (suc fuel) cmp a i =
      let round = do
        child ← smallest_child cmp a i
        x ← load a child
        y ← load a i
        order ← call cmp x y
        let again = exchange a i child >>= λ b. sift_down_loop fuel cmp b child
        if is_neg order then again else returned a
      in if leb (length a) (2 * i + 1) then returned a else round

  pub sift_down : Option (Comparator A) → List A → ℕ → Outcome (List A)
  sift_down cmp a i = sift_down_loop (suc (length a)) cmp a i

  -- The `for` of heapify, from `i - 1` down to 0.
  pub heapify_loop : Option (Comparator A) → ℕ → List A → Outcome (List A)
  heapify_loop cmp zero a = returned a
  heapify_loop cmp (suc i) a = sift_down cmp a i >>= heapify_loop cmp i

  pub heapify : Option (Comparator A) → List A → Outcome (List A)
  heapify cmp a = heapify_loop cmp (length a / 2) a

  -- NewPriorityQueue
  pub new : Option (Comparator A) → Outcome (PriorityQueue A)
  new none = panicked
  new (some cmp) = returned (record { items = []; cmp = some cmp })

  -- NewPriorityQueueFrom
  pub new_from : Option (Comparator A) → List A → Outcome (PriorityQueue A)
  new_from none elements = panicked
  new_from (some cmp) elements = do
    a ← heapify (some cmp) elements
    returned (record { items = a; cmp = some cmp })

  pub size : PriorityQueue A → ℕ
  size pq = length pq.items

  pub is_empty : PriorityQueue A → Bool
  is_empty pq = length pq.items == 0

  pub push : PriorityQueue A → A → Outcome (PriorityQueue A)
  push pq element = do
    let grown = pq.items ++ element ∷ []
    a ← sift_up pq.cmp grown (length grown - 1)
    returned (record pq { items = a })

  -- The last loop of PushAll.
  pub push_each : PriorityQueue A → List A → Outcome (PriorityQueue A)
  push_each pq [] = returned pq
  push_each pq (e ∷ elements) = push pq e >>= λ pq'. push_each pq' elements

  pub push_all : PriorityQueue A → List A → Outcome (PriorityQueue A)
  push_all pq elements =
      let batch = do a ← heapify pq.cmp (pq.items ++ elements); returned (record pq { items = a })
      in if length elements == 0
        then returned pq
        else if leb (length pq.items) (length elements)
        then batch
        else push_each pq elements

-- NewPriorityQueueOrdered and NewMaxPriorityQueue
module _ {ℓ} {A : Type ℓ} ⦃o : Ordered A⦄ where
  pub new_ordered : Outcome (PriorityQueue A)
  new_ordered = new (some compare_func)

  pub new_max : Outcome (PriorityQueue A)
  new_max = new (some (reverse_func compare_func))

module _ {ℓ} {A : Type ℓ} ⦃z : Zero A⦄ where
  pub clear : PriorityQueue A → PriorityQueue A
  clear pq = record pq { items = take 0 (replicate (length pq.items) z.zero_value) }

  pub pop : PriorityQueue A → Outcome (A × Bool × PriorityQueue A)
  pop pq =
      let taken : Outcome (A × Bool × PriorityQueue A) = do
        v ← load pq.items 0
        let n = length pq.items - 1
        moved ← load pq.items n
        a ← store pq.items 0 moved
        b ← store a n z.zero_value
        c ← slice b 0 n
        d ← sift_down pq.cmp c 0
        returned (v, true, record pq { items = d })
      in if length pq.items == 0 then returned (z.zero_value, false, pq) else taken

  pub peek : PriorityQueue A → Outcome (A × Bool)
  peek pq =
      let first : Outcome (A × Bool) = load pq.items 0 >>= λ v. returned (v, true) in
      if length pq.items == 0 then returned (z.zero_value, false) else first
