-- ===== src/LockFreeList/Keep.antt =====
-- What one write of a call keeps: chains to the tail, and nodes for the calls to go on from.
use go_collections.Prelude.{
  ℕ, refl, ◌≤◌, Bool, true, false, Option, none, some, List, length, ◌==◌, arith, Bool-cases, inl,
  inr, if◌then◌else◌,
}
use go_collections.LockFreeList.State.{
  Node, Heap, head, tail, next_at, with_state, link, detach, retire, renew,
}
use go_collections.LockFreeList.Task.{
  Task, Reply, finished, append_next, append_swap, insert_next, insert_state, insert_after,
  insert_swap, set_next, set_state, remove_at_next, remove_at_state, remove_next, remove_state,
  remove_swap, remove_last_next, remove_last_state, remove_func_next, remove_func_state,
  remove_func_swap,
}
use go_collections.LockFreeList.Action.{at_node, if_live, swap_last}
use go_collections.LockFreeList.Nodes.{length-with_next, length-with_state}
use go_collections.LockFreeList.Chain.{
  Leads, IsSound, IsNode, Leads-inside, Leads-next, with_state-IsSound, detach-IsSound,
  link-IsSound, length-link,
}

pub head-IsNode : (ns : List Node) → IsSound ns → IsNode ns head
head-IsNode ns s = record { inside = omega (arith, s.sentinels); not_tail = refl }

pub later-IsNode : (ns ms : List Node) (a : ℕ) → length ns ≤ length ms → IsNode ns a → IsNode ms a
later-IsNode ns ms a more n = record { inside = omega (arith, n.inside); not_tail = n.not_tail }

module _ {ℓ} {A : Type ℓ} where
  -- The nodes that a call will go on from are nodes of the list.
  abbrev pub Valid : List Node → Task A → Type 0
  Valid ns (append_next x xs pred) = IsNode ns pred
  Valid ns (append_swap x xs pred) = IsNode ns pred
  Valid ns (insert_next index x i pred) = IsNode ns pred
  Valid ns (insert_state index x i curr) = IsNode ns curr
  Valid ns (insert_after index x pred) = IsNode ns pred
  Valid ns (insert_swap index x pred next) = IsNode ns pred
  Valid ns (set_next index x i pred) = IsNode ns pred
  Valid ns (set_state index x i curr) = IsNode ns curr
  Valid ns (remove_at_next index i pred) = IsNode ns pred
  Valid ns (remove_at_state index i curr) = IsNode ns curr
  Valid ns (remove_next test pred) = IsNode ns pred
  Valid ns (remove_state test curr) = IsNode ns curr
  Valid ns (remove_swap test curr v) = IsNode ns curr
  Valid ns (remove_last_next last pred) = IsNode ns pred
  Valid ns (remove_last_state last curr) = IsNode ns curr
  Valid ns (remove_func_next predicate n pred) = IsNode ns pred
  Valid ns (remove_func_state predicate n curr) = IsNode ns curr
  Valid ns (remove_func_swap predicate n curr v) = IsNode ns curr
  Valid ns t = Unit

  at_node-Valid :
      (ns : List Node) (r : Option ℕ) (go : ℕ → Task A) (end : Task A)
      → Leads ns r
      → ((curr : ℕ) → IsNode ns curr → Valid ns (go curr))
      → Valid ns end
      → Valid ns (at_node r go end)
  unfolding at_node
  at_node-Valid ns none go end l f e = e
  at_node-Valid ns (some curr) go end l f e = elim (Bool-cases (curr == tail)) [
    | inl over ↦ rw over e
    | inr no_tail ↦
        let inside = Leads-inside ns curr (Leads-next ns curr no_tail l) in
        rw no_tail (f curr record { inside = inside; not_tail = no_tail })
  ]

  pub next_node-Valid :
      (ns : List Node) (pred : ℕ) (go : ℕ → Task A) (end : Task A)
      → IsSound ns
      → IsNode ns pred
      → ((curr : ℕ) → IsNode ns curr → Valid ns (go curr))
      → Valid ns end
      → Valid ns (at_node (next_at ns pred) go end)
  next_node-Valid ns pred go end s p =
      at_node-Valid ns (next_at ns pred) go end
        (Leads-next ns pred p.not_tail (s.leads pred p.inside))

  pub if_live-Valid :
      (ns : List Node) (r : Option ℕ) (go : ℕ → Task A) (skip : Task A)
      → ((v : ℕ) → Valid ns (go v))
      → Valid ns skip
      → Valid ns (if_live r go skip)
  unfolding if_live
  if_live-Valid ns none go skip f e = e
  if_live-Valid ns (some v) go skip f e = f v

  pub if-Valid :
      (ns : List Node) (c : Bool) (t u : Task A)
      → Valid ns t
      → Valid ns u
      → Valid ns (if c then t else u)
  if-Valid ns true t u v w = v
  if-Valid ns false t u v w = w

pub swap_last-Valid {ℓ} :
    (A : Type ℓ) (ns : List Node) (last : Option (ℕ × ℕ)) → Valid {A = A} ns (swap_last last)
unfolding swap_last
swap_last-Valid A ns none = tt
swap_last-Valid A ns (some (curr, v)) = tt

module _ {ℓ} {A : Type ℓ} where
  -- A step from `h` leaves a sound list, has lost no node, and the call can go on.
  pub record Kept (h : Heap A) (after : Heap A × Task A) : Type ℓ where
    pub sound : IsSound after.0.nodes
    pub valid : Valid after.0.nodes after.1
    pub more : length h.nodes ≤ length after.0.nodes

  pub stay : (h : Heap A) (t : Task A) → IsSound h.nodes → Valid h.nodes t → Kept h (h, t)
  stay h t s v = record { sound = s; valid = v; more = omega arith }

  pub swap-Kept :
      (h : Heap A) (c : Bool) (yes no_swap : Heap A × Task A)
      → Kept h yes
      → Kept h no_swap
      → Kept h (if c then yes else no_swap)
  swap-Kept h true y n k l = k
  swap-Kept h false y n k l = l

  pub detach-Kept : (h : Heap A) (r : Reply) → IsSound h.nodes → Kept h (detach h, finished r)
  unfolding detach
  detach-Kept h r s = record {
    sound = detach-IsSound h s;
    valid = tt;
    more = omega (arith, length-with_next h.nodes head (some tail));
  }

  pub retire-Kept :
      (h : Heap A) (a : ℕ) (t : Task A)
      → IsSound h.nodes
      → Valid (with_state h.nodes a none) t
      → Kept h (retire h a, t)
  unfolding retire
  retire-Kept h a t s v = record {
    sound = with_state-IsSound h.nodes a none s;
    valid = v;
    more = omega (arith, length-with_state h.nodes a none);
  }

  pub renew-Kept :
      (h : Heap A) (a : ℕ) (x : A) (r : Reply) → IsSound h.nodes → Kept h (renew h a x, finished r)
  unfolding renew
  renew-Kept h a x r s = record {
    sound = with_state-IsSound h.nodes a (some (length h.boxes)) s;
    valid = tt;
    more = omega (arith, length-with_state h.nodes a (some (length h.boxes)));
  }

  pub link-Kept :
      (h : Heap A) (pred : ℕ) (x : A) (xs : List A) (t : Task A)
      → IsSound h.nodes
      → IsNode h.nodes pred
      → Valid (link h pred x xs).nodes t
      → Kept h (link h pred x xs, t)
  unfolding link
  link-Kept h pred x xs t s p v = record {
    sound = link-IsSound h pred x xs s p;
    valid = v;
    more = length-link h pred x xs;
  }
