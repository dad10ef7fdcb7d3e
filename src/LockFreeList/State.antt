-- ===== src/LockFreeList/State.antt =====
-- lockfreelist.go: the nodes, and what a successful compare-and-swap makes of them.
use go_collections.Prelude.{
  ℕ, zero, suc, ◌+◌, Bool, true, false, Option, none, some, List, [], ◌∷◌, ◌++◌, length, ◌==◌,
}

-- A pointer to a node is an address, and nil is none. `state` points to the element, which has a box
-- of its own, since the compare-and-swaps compare pointers.
pub record Node : Type 0 where
  pub state : Option ℕ
  pub next : Option ℕ

pub record Heap {ℓ} (A : Type ℓ) : Type ℓ where
  pub nodes : List Node
  pub boxes : List A

-- The sentinels
abbrev pub head : ℕ
head = 0

abbrev pub tail : ℕ
tail = 1

unfoldable pub same_ref : Option ℕ → Option ℕ → Bool
same_ref none none = true
same_ref none (some b) = false
same_ref (some a) none = false
same_ref (some a) (some b) = a == b

-- `next.Load()` and `state.Load()`
unfoldable pub next_at : List Node → ℕ → Option ℕ
next_at [] a = none
next_at (n ∷ ns) zero = n.next
next_at (n ∷ ns) (suc a) = next_at ns a

unfoldable pub state_at : List Node → ℕ → Option ℕ
state_at [] a = none
state_at (n ∷ ns) zero = n.state
state_at (n ∷ ns) (suc a) = state_at ns a

-- What a successful compare-and-swap writes.
unfoldable pub with_next : List Node → ℕ → Option ℕ → List Node
with_next [] a r = []
with_next (n ∷ ns) zero r = record { state = n.state; next = r } ∷ ns
with_next (n ∷ ns) (suc a) r = n ∷ with_next ns a r

unfoldable pub with_state : List Node → ℕ → Option ℕ → List Node
with_state [] a s = []
with_state (n ∷ ns) zero s = record { state = s; next = n.next } ∷ ns
with_state (n ∷ ns) (suc a) s = n ∷ with_state ns a s

module _ {ℓ} {A : Type ℓ} where
  -- NewLockFreeList
  unfoldable pub new : Heap A
  new = record {
    nodes = record { state = none; next = some tail } ∷ record { state = none; next = none } ∷ [];
    boxes = [];
  }

  -- The nodes of buildChain, of which the first has address `a` and box `v`; the last leads to
  -- `after`.
  unfoldable pub build_chain : ℕ → ℕ → A → List A → Option ℕ → List Node
  build_chain a v x [] after = record { state = some v; next = after } ∷ []
  build_chain a v x (y ∷ ys) after =
      record { state = some v; next = some (a + 1) } ∷ build_chain (a + 1) (v + 1) y ys after

  -- New nodes between `pred` and what follows it.
  unfoldable pub link : Heap A → ℕ → A → List A → Heap A
  link h pred x xs =
      let a = length h.nodes in
      record {
        nodes =
            with_next h.nodes pred (some a)
            ++ build_chain a (length h.boxes) x xs (next_at h.nodes pred);
        boxes = h.boxes ++ x ∷ xs;
      }

  -- The chain of the head sentinel goes.
  unfoldable pub detach : Heap A → Heap A
  detach h = record { nodes = with_next h.nodes head (some tail); boxes = h.boxes }

  -- A logical deletion
  unfoldable pub retire : Heap A → ℕ → Heap A
  retire h a = record { nodes = with_state h.nodes a none; boxes = h.boxes }

  -- An element in the place of another
  unfoldable pub renew : Heap A → ℕ → A → Heap A
  renew h a x = record {
    nodes = with_state h.nodes a (some (length h.boxes));
    boxes = h.boxes ++ x ∷ [];
  }
