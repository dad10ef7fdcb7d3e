-- ===== src/LockFreeList/Chain.antt =====
-- Chains of nodes that end at the tail sentinel, and what the writes make of them.
use mathlib.Core.List.{append_assoc}
use go_collections.Prelude.{
  ℕ, suc, ◌+◌, ◌≡◌, refl, sym, ◌∙◌, ◌<◌, ◌≤◌, false, Option, none, some, List, [], ◌∷◌, ◌++◌,
  length, length-append, ltb, ltb→lt, ltb→le, ◌==◌, arith, Bool-cases, inl, inr,
}
use mathlib.Core.Path.{subst}
use go_collections.LockFreeList.State.{
  Node, Heap, head, tail, next_at, with_next, with_state, build_chain, link, detach, new,
}
use go_collections.LockFreeList.Nodes.{
  length-with_next, length-with_state, next_at-with_next, next_at-with_next_other,
  next_at-with_state, next_at-append, next_at-middle, next_at_of_le, length-build_chain,
}

-- A walk from the pointer by `next` ends at the tail sentinel, and never meets nil.
pub data Leads (ns : List Node) : Option ℕ → Type 0 where
  at_tail : Leads ns (some tail)
  by_next : {a : ℕ} → Leads ns (next_at ns a) → Leads ns (some a)

pub Leads-same :
    {ns ms : List Node} {r : Option ℕ}
    → ((a : ℕ) → next_at ns a ≡ next_at ms a)
    → Leads ns r
    → Leads ms r
Leads-same e at_tail = at_tail
Leads-same {ms = ms} e (by_next {a} l) = by_next (subst (Leads ms) (e a) (Leads-same e l))

not_nil : {ns : List Node} → ¬ Leads ns none
not_nil l = elim l [ ]

-- What leads to the tail by its `next` is a node.
pub Leads-inside : (ns : List Node) (a : ℕ) → Leads ns (next_at ns a) → a < length ns
Leads-inside ns a l = elim (Bool-cases (ltb a (length ns))) [
  | inl e ↦ ltb→lt a (length ns) e
  | inr e ↦ absurd (not_nil (subst (Leads ns) (next_at_of_le ns a (ltb→le a (length ns) e)) l))
]

module _ {ℓ} {A : Type ℓ} where
  -- The new nodes lead to the tail if what follows them does.
  build_chain-Leads :
      (pre ms : List Node) (a v : ℕ) (x : A) (xs : List A) (after : Option ℕ)
      → a ≡ length pre
      → ms ≡ pre ++ build_chain a v x xs after
      → Leads ms after
      → (k : ℕ) → a ≤ k
      → k < length ms
      → Leads ms (some k)
  unfolding build_chain
  build_chain-Leads pre ms a v x [] after at same l k low high =
      let last : Node = record { state = some v; next = after } in
      let reach : next_at ms a ≡ after = next_at-middle pre last [] ms a at same in
      let size : length ms ≡ length pre + 1 = rw same (length-append pre (last ∷ [])) in
      let only : k ≡ a = omega arith in rw only (by_next (subst (Leads ms) (sym reach) l))
  build_chain-Leads pre ms a v x (y ∷ ys) after at same l k low high =
      let first : Node = record { state = some v; next = some (a + 1) } in
      let later = build_chain (a + 1) (v + 1) y ys after in
      let reach : next_at ms a ≡ some (a + 1) = next_at-middle pre first later ms a at same in
      let next_length : a + 1 ≡ length (pre ++ first ∷ []) =
        rw (length-append pre (first ∷ [])) (omega (arith, at)) in
      let split : ms ≡ (pre ++ first ∷ []) ++ later =
        same ∙ sym (append_assoc pre (first ∷ []) later) in
      let rest =
        build_chain-Leads (pre ++ first ∷ []) ms (a + 1) (v + 1) y ys after next_length split l in
      let size : length ms ≡ length pre + suc (length later) =
        rw same (length-append pre (first ∷ later)) in
      let more = length-build_chain (a + 1) (v + 1) y ys after in
      elim (Bool-cases (k == a)) [
        | inl e ↦
            let here : k ≡ a = ground arith in
            rw here (
              by_next (
                subst (Leads ms) (sym reach)
                  (rest (a + 1) (omega arith) (omega (arith, at, size, more)))))
        | inr e ↦ rest k (ground arith) high
      ]

-- Both sentinels are there, and every node leads to the tail, also those that Clear has detached.
pub record IsSound (ns : List Node) : Type 0 where
  pub sentinels : tail < length ns
  pub leads : (a : ℕ) → a < length ns → Leads ns (some a)

pub same_next-IsSound :
    (ns ms : List Node)
    → length ns ≡ length ms
    → ((a : ℕ) → next_at ns a ≡ next_at ms a)
    → IsSound ns
    → IsSound ms
same_next-IsSound ns ms size same s = record {
  sentinels = omega (arith, s.sentinels);
  leads = λ a h. Leads-same same (s.leads a (omega arith));
}

pub with_state-IsSound :
    (ns : List Node) (a : ℕ) (s : Option ℕ) → IsSound ns → IsSound (with_state ns a s)
with_state-IsSound ns a s =
    same_next-IsSound ns (with_state ns a s) (sym (length-with_state ns a s))
      λ b. sym (next_at-with_state ns a b s)

-- A chain stays one where a node is made to lead to the tail at once.
detached-Leads :
    (ns : List Node) (r : Option ℕ) → Leads ns r → Leads (with_next ns head (some tail)) r
detached-Leads ns r at_tail = at_tail
detached-Leads ns r (by_next {a} l) =
    let inside = Leads-inside ns a l in
    let rest = detached-Leads ns (next_at ns a) l in
    elim (Bool-cases (a == head)) [
      | inl e ↦
          let here : a ≡ head = ground arith in
          let first = next_at-with_next ns head (some tail) (omega arith) in
          rw here (by_next (subst (Leads (with_next ns head (some tail))) (sym first) at_tail))
      | inr e ↦ by_next (
          subst (Leads (with_next ns head (some tail)))
            (sym (next_at-with_next_other ns head a (some tail) e)) rest)
    ]

module _ {ℓ} {A : Type ℓ} where
  pub detach-IsSound : (h : Heap A) → IsSound h.nodes → IsSound (detach h).nodes
  unfolding detach
  detach-IsSound h s =
      let size = length-with_next h.nodes head (some tail) in
      record {
        sentinels = omega (arith, s.sentinels, size);
        leads = λ a k. detached-Leads h.nodes (some a) (s.leads a (omega (arith, size)));
      }

-- A node of the list, or the head sentinel.
pub record IsNode (ns : List Node) (a : ℕ) : Type 0 where
  pub inside : a < length ns
  pub not_tail : (a == tail) ≡ false

pub Leads-next :
    (ns : List Node) (a : ℕ) → (a == tail) ≡ false → Leads ns (some a) → Leads ns (next_at ns a)
Leads-next ns a apart at_tail = absurd (ground arith)
Leads-next ns a apart (by_next l) = l

-- A chain in which new nodes that lead on to `after` stand between `pred` and `after`.
linked-Leads :
    (ns ms : List Node) (pred : ℕ)
    → next_at ms pred ≡ some (length ns)
    → ((b : ℕ) → b < length ns → (b == pred) ≡ false → next_at ms b ≡ next_at ns b)
    → (Leads ms (next_at ns pred) → Leads ms (some (length ns)))
    → (r : Option ℕ) → Leads ns r
    → Leads ms r
linked-Leads ns ms pred first same fresh r at_tail = at_tail
linked-Leads ns ms pred first same fresh r (by_next {a} l) =
    let rest = linked-Leads ns ms pred first same fresh (next_at ns a) l in
    elim (Bool-cases (a == pred)) [
      | inl e ↦
          let here : a ≡ pred = ground arith in
          rw here (
            by_next (
              subst (Leads ms) (sym first)
                (fresh (subst (λ b. Leads ms (next_at ns b)) here rest))))
      | inr e ↦ by_next (subst (Leads ms) (sym (same a (Leads-inside ns a l) e)) rest)
    ]

module _ {ℓ} {A : Type ℓ} where
  pub link-IsSound :
      (h : Heap A) (pred : ℕ) (x : A) (xs : List A)
      → IsSound h.nodes
      → IsNode h.nodes pred
      → IsSound (link h pred x xs).nodes
  unfolding link
  link-IsSound h pred x xs s p =
      let ns = h.nodes in
      let len = length ns in
      let after = next_at ns pred in
      let changed = with_next ns pred (some len) in
      let fresh = build_chain len (length h.boxes) x xs after in
      let ms = changed ++ fresh in
      let kept : length changed ≡ len = length-with_next ns pred (some len) in
      let size : length ms ≡ length changed + length fresh = length-append changed fresh in
      let first : next_at ms pred ≡ some len =
        next_at-append changed fresh pred (omega (arith, p.inside, kept))
        ∙ next_at-with_next ns pred (some len) p.inside in
      let same : (b : ℕ) → b < len → (b == pred) ≡ false → next_at ms b ≡ next_at ns b = λ b k e.
        next_at-append changed fresh b (omega (arith, kept))
        ∙ next_at-with_next_other ns pred b (some len) e in
      let some_fresh : 0 < length fresh =
        omega (arith, length-build_chain len (length h.boxes) x xs after) in
      let new_leads : Leads ms after → (k : ℕ) → len ≤ k → k < length ms → Leads ms (some k) =
        build_chain-Leads changed ms len (length h.boxes) x xs after (sym kept) refl in
      let old_leads =
        linked-Leads ns ms pred first same
          (λ l. new_leads l len (omega arith) (omega (arith, size, kept, some_fresh))) in
      record {
        sentinels = omega (arith, s.sentinels, size, kept);
        leads = λ a k. elim (Bool-cases (ltb a len)) [
          | inl e ↦ old_leads (some a) (s.leads a (ltb→lt a len e))
          | inr e ↦
              new_leads (old_leads after (Leads-next ns pred p.not_tail (s.leads pred p.inside))) a
                (ltb→le a len e) k
        ];
      }

  pub length-link :
      (h : Heap A) (pred : ℕ) (x : A) (xs : List A)
      → length h.nodes ≤ length (link h pred x xs).nodes
  unfolding link
  length-link h pred x xs =
      let ns = h.nodes in
      let fresh = build_chain (length ns) (length h.boxes) x xs (next_at ns pred) in
      omega (
        arith,
        length-append (with_next ns pred (some (length ns))) fresh,
        length-with_next ns pred (some (length ns)),
      )

pub new-IsSound {ℓ} : (A : Type ℓ) → IsSound (new {A = A}).nodes
unfolding new next_at
new-IsSound A = record {
  sentinels = omega arith;
  leads = λ a k. elim (Bool-cases (a == tail)) [
    | inl e ↦ let here : a ≡ tail = ground arith in rw here at_tail
    | inr e ↦ let here : a ≡ head = ground arith in rw here (by_next at_tail)
  ];
}
