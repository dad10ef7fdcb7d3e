-- ===== src/LockFreeList/Count.antt =====
-- How often an element is in the nodes.
use go_collections.Prelude.{
  ℕ, zero, suc, ◌+◌, ◌≡◌, refl, ap, ◌≤◌, Bool, Option, none, some, List, [], ◌∷◌, ◌++◌, length,
  length-append, ltb, ◌==◌, arith, if◌then◌else◌,
}
use go_collections.LockFreeList.State.{
  Node, Heap, head, tail, next_at, state_at, with_next, with_state, build_chain, link, detach,
  retire, renew,
}

abbrev pub one_if : Bool → ℕ
one_if c = if c then 1 else 0

-- 1 for the pointer to box `v`
abbrev pub refers : ℕ → Option ℕ → ℕ
refers v none = 0
refers v (some w) = one_if (v == w)

-- The number of nodes that hold box `v`.
abbrev pub held : ℕ → List Node → ℕ
held v [] = 0
held v (n ∷ ns) = refers v n.state + held v ns

-- 1 for a box that there is
abbrev pub below : ℕ → ℕ → ℕ
below v n = one_if (ltb v n)

below_next : (v n : ℕ) → one_if (v == n) + below v n ≤ below v (n + 1)
below_next v n = ground arith

pub held-append : (v : ℕ) (ns ms : List Node) → held v (ns ++ ms) ≡ held v ns + held v ms
held-append v [] ms = omega arith
held-append v (n ∷ ns) ms = omega (arith, held-append v ns ms)

pub held-with_next :
    (v : ℕ) (ns : List Node) (a : ℕ) (r : Option ℕ) → held v (with_next ns a r) ≡ held v ns
unfolding with_next
held-with_next v [] a r = refl
held-with_next v (n ∷ ns) zero r = refl
held-with_next v (n ∷ ns) (suc a) r = ap (λ k. refers v n.state + k) (held-with_next v ns a r)

-- A write of a state puts one pointer in the place of another.
pub held-with_state :
    (v : ℕ) (ns : List Node) (a w : ℕ) (s : Option ℕ)
    → state_at ns a ≡ some w
    → held v (with_state ns a s) + one_if (v == w) ≤ held v ns + refers v s
unfolding with_state state_at
held-with_state v [] a w s e = absurd (ground arith)
held-with_state v (n ∷ ns) zero w s e =
    let before : refers v n.state ≡ one_if (v == w) = ap (refers v) e in omega (arith, before)
held-with_state v (n ∷ ns) (suc a) w s e = omega (arith, held-with_state v ns a w s e)

pub state_at-held : (v : ℕ) (ns : List Node) (a : ℕ) → state_at ns a ≡ some v → 1 ≤ held v ns
unfolding state_at
state_at-held v [] a e = absurd (ground arith)
state_at-held v (n ∷ ns) zero e =
    let here : refers v n.state ≡ one_if (v == v) = ap (refers v) e in
    let own : one_if (v == v) ≡ 1 = ground arith in omega (arith, here, own)
state_at-held v (n ∷ ns) (suc a) e = omega (arith, state_at-held v ns a e)

module _ {ℓ} {A : Type ℓ} where
  pub held-build_chain :
      (v a b : ℕ) (x : A) (xs : List A) (after : Option ℕ)
      → held v (build_chain a b x xs after) + below v b ≤ below v (b + length (x ∷ xs))
  unfolding build_chain
  held-build_chain v a b x [] after = omega (arith, below_next v b)
  held-build_chain v a b x (y ∷ ys) after =
      let rest = held-build_chain v (a + 1) (b + 1) y ys after in
      let same_end : b + 1 + length (y ∷ ys) ≡ b + length (x ∷ y ∷ ys) = omega arith in
      let same_below : below v (b + 1 + length (y ∷ ys)) ≡ below v (b + length (x ∷ y ∷ ys)) =
        ap (below v) same_end in
      let next = below_next v b in omega (arith, rest, same_below, next)

  -- The writes neither lose count of a box nor hold one twice.
  pub held-link :
      (v : ℕ) (h : Heap A) (pred : ℕ) (x : A) (xs : List A)
      → held v (link h pred x xs).nodes + below v (length h.boxes)
        ≤ held v h.nodes + below v (length (link h pred x xs).boxes)
  unfolding link
  held-link v h pred x xs =
      let changed = with_next h.nodes pred (some (length h.nodes)) in
      let after = next_at h.nodes pred in
      let fresh = build_chain (length h.nodes) (length h.boxes) x xs after in
      let both = held-append v changed fresh in
      let old = held-with_next v h.nodes pred (some (length h.nodes)) in
      let chain = held-build_chain v (length h.nodes) (length h.boxes) x xs after in
      let size : below v (length (h.boxes ++ x ∷ xs)) ≡ below v (length h.boxes + length (x ∷ xs)) =
        ap (below v) (length-append h.boxes (x ∷ xs)) in
      omega (arith, both, old, chain, size)

  pub held-detach : (v : ℕ) (h : Heap A) → held v (detach h).nodes ≡ held v h.nodes
  unfolding detach
  held-detach v h = held-with_next v h.nodes head (some tail)

  pub held-retire :
      (v : ℕ) (h : Heap A) (a w : ℕ)
      → state_at h.nodes a ≡ some w
      → held v (retire h a).nodes + one_if (v == w) ≤ held v h.nodes
  unfolding retire
  held-retire v h a w e = omega (arith, held-with_state v h.nodes a w none e)

  pub held-renew :
      (v : ℕ) (h : Heap A) (a w : ℕ) (x : A)
      → state_at h.nodes a ≡ some w
      → held v (renew h a x).nodes + one_if (v == w) + below v (length h.boxes)
        ≤ held v h.nodes + below v (length (renew h a x).boxes)
  unfolding renew
  held-renew v h a w x e =
      let swap = held-with_state v h.nodes a w (some (length h.boxes)) e in
      let size : below v (length (h.boxes ++ x ∷ [])) ≡ below v (length h.boxes + 1) =
        ap (below v) (length-append h.boxes (x ∷ [])) in
      omega (arith, swap, size, below_next v (length h.boxes))
