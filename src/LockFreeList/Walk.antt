-- ===== src/LockFreeList/Walk.antt =====
-- Loops over the nodes, and that each ends when its call runs alone.
use go_collections.Prelude.{
  ℕ, ◌≡◌, refl, ap, ◌∙◌, Bool, true, false, Option, none, some, List, ◌==◌, arith, Bool-cases, inl,
  inr, if◌then◌else◌,
}
use go_collections.LockFreeList.State.{Node, Heap, tail, same_ref, next_at}
use go_collections.LockFreeList.Task.{Task, Reply, finished}
use go_collections.LockFreeList.Action.{at_node, if_live, step}
use go_collections.LockFreeList.Chain.{Leads, IsSound, IsNode, Leads-next}
use go_collections.LockFreeList.Nodes.{same_ref_refl}
use go_collections.LockFreeList.Chain.{IsNode, IsSound, Leads, at_tail, by_next, Leads-next}

-- The call is finished after some of its own actions.
pub data Finishes {ℓ} {A : Type ℓ} : Heap A → Task A → Type ℓ where
  now : {h : Heap A} {r : Reply} → Finishes h (finished r)
  later : {h : Heap A} {t : Task A} → Finishes (step h t).0 (step h t).1 → Finishes h t

module _ {ℓ} {A : Type ℓ} where
  pub if_live-Finishes :
      (h : Heap A) (r : Option ℕ) (go : ℕ → Task A) (skip : Task A)
      → ((v : ℕ) → r ≡ some v → Finishes h (go v))
      → Finishes h skip
      → Finishes h (if_live r go skip)
  unfolding if_live
  if_live-Finishes h none go skip f e = e
  if_live-Finishes h (some v) go skip f e = f v refl

  pub if-Finishes :
      (h : Heap A) (c : Bool) (t u : Task A)
      → Finishes h t
      → Finishes h u
      → Finishes h (if c then t else u)
  if-Finishes h true t u v w = v
  if-Finishes h false t u v w = w

  pub swap-Finishes :
      (c : Bool) (yes_swap no_swap : Heap A × Task A)
      → (c ≡ true → Finishes yes_swap.0 yes_swap.1)
      → (c ≡ false → Finishes no_swap.0 no_swap.1)
      → Finishes (if c then yes_swap else no_swap).0 (if c then yes_swap else no_swap).1
  swap-Finishes true y n v w = v refl
  swap-Finishes false y n v w = w refl

  -- A compare-and-swap with what is there succeeds.
  pub swap_succeeds :
      (r s : Option ℕ) (yes_swap no_swap : Heap A × Task A)
      → r ≡ s
      → Finishes yes_swap.0 yes_swap.1
      → Finishes
          (if same_ref r s then yes_swap else no_swap).0
          (if same_ref r s then yes_swap else no_swap).1
  swap_succeeds r s y n e v =
      swap-Finishes (same_ref r s) y n (λ c. v)
        (λ c. let same : same_ref r s ≡ true = rw e (same_ref_refl s) in absurd (ground arith))

-- A loop over the nodes, with what it remembers: `next_task` stands before a load of `next`, and it
-- goes on to `node_task` at a node and to `end_task` at the end. The list may change in the meantime
-- as `Around` allows, but not in its pointers.
pub record Loop {ℓ} (A : Type ℓ) (ns : List Node) (Memory : Type 0) : Type (ℓ + 1) where
  pub Around : Heap A → Type ℓ
  pub next_task : Memory → ℕ → Task A
  pub node_task : Memory → ℕ → Task A
  pub end_task : Memory → ℕ → Task A
  pub pointers : (g : Heap A) → Around g → (a : ℕ) → next_at g.nodes a ≡ next_at ns a
  pub loads :
      (g : Heap A) (m : Memory) (a : ℕ)
      → step g (next_task m a) ≡ (g, at_node (next_at g.nodes a) (node_task m) (end_task m a))
  pub at_end :
      (g : Heap A) (m : Memory) (a : ℕ)
      → Around g
      → next_at ns a ≡ some tail
      → Finishes g (end_task m a)
  pub on_node :
      (g : Heap A) (m : Memory) (a : ℕ)
      → Around g
      → ((f : Heap A) (n : Memory) → Around f → Finishes f (next_task n a))
      → Finishes g (node_task m a)

module _ {ℓ} {A : Type ℓ} {ns : List Node} {Memory : Type 0} (L : Loop A ns Memory) where
  walk :
      (g : Heap A) (m : Memory) (a : ℕ) (r : Option ℕ)
      → L.Around g
      → next_at ns a ≡ r
      → Leads ns r
      → Finishes g (at_node r (L.node_task m) (L.end_task m a))
  unfolding at_node
  walk g m a r ok e at_tail = L.at_end g m a ok e
  walk g m a r ok e (by_next {a = c} l) = elim (Bool-cases (c == tail)) [
    | inl over ↦
        let here : c ≡ tail = ground arith in rw over (L.at_end g m a ok (e ∙ ap some here))
    | inr apart ↦ rw apart (
        L.on_node g m c ok λ f n ok'.
          later (rw (L.loads f n c, L.pointers f ok' c) (walk f n c (next_at ns c) ok' refl l)))
  ]

  -- The loop ends, from each node of a sound list on.
  pub loop-Finishes :
      (g : Heap A) (m : Memory) (a : ℕ)
      → L.Around g
      → IsSound ns
      → IsNode ns a
      → Finishes g (L.next_task m a)
  loop-Finishes g m a ok s p = later (
      rw (L.loads g m a, L.pointers g ok a)
        (walk g m a (next_at ns a) ok refl (Leads-next ns a p.not_tail (s.leads a p.inside))))

  -- Also from the middle of a round on.
  pub node-Finishes :
      (g : Heap A) (m : Memory) (a : ℕ)
      → L.Around g
      → IsSound ns
      → IsNode ns a
      → Finishes g (L.node_task m a)
  node-Finishes g m a ok s p = L.on_node g m a ok λ f n ok'. loop-Finishes f n a ok' s p
