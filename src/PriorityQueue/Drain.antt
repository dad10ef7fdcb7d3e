-- ===== src/PriorityQueue/Drain.antt =====
-- Sequences of Pop.
use mathlib.Core.List.Perm
use mathlib.Core.List.{Pairwise}
use go_collections.Prelude.{
  ℕ, zero, suc, ◌≡◌, refl, ap, Bool, true, List, [], ◌∷◌, Perm, length, length-perm, arith,
}
use mathlib.Core.List.{mem-cons_of_mem}
use go_collections.Prelude.Outcome.{Outcome, returned, Returns, returns}
use go_collections.Prelude.Slice.{Zero}
use go_collections.Comparator.{Comparator, IsComparator}
use go_collections.PriorityQueue.{PriorityQueue, pop}
use go_collections.PriorityQueue.Order.{Before}
use go_collections.PriorityQueue.Insert.{IsValid}
use go_collections.PriorityQueue.Remove.{Popped, pop_correct}

module _ {ℓ} {A : Type ℓ} ⦃z : Zero A⦄ where
  -- Calls of Pop that find elements, with what they return in order.
  pub data Pops : PriorityQueue A → List A → PriorityQueue A → Type ℓ where
    done : {pq : PriorityQueue A} → Pops pq [] pq
    next :
        {pq pq' pq'' : PriorityQueue A} {v : A} {vs : List A}
        → pop pq ≡ returned (v, true, pq')
        → Pops pq' vs pq''
        → Pops pq (v ∷ vs) pq''

module _ {ℓ} {A : Type ℓ} (cmp : Comparator A) ⦃z : Zero A⦄ (law : IsComparator cmp) where
  -- What a queue that is popped until it is empty returns.
  pub record Drained (pq : PriorityQueue A) (vs : List A) : Type ℓ where
    pub rest : PriorityQueue A
    pub run : Pops pq vs rest
    pub emptied : rest.items ≡ []
    pub ascending : Pairwise (Before cmp) vs
    pub same : Perm vs pq.items

  -- A Pop that finds an element, taken apart.
  pop_found :
      {pq : PriorityQueue A} {r : Outcome (A × Bool × PriorityQueue A)}
      → Returns (Popped cmp pq) r
      → (v : A) × (pq' : PriorityQueue A) × (r ≡ returned (v, true, pq'))
        × Popped cmp pq (v, true, pq')
  pop_found {pq} (returns {a = (v, found, pq')} s) = (
    v,
    pq',
    ap (λ f. returned (v, f, pq')) s.found,
    record { found = refl; root = s.root; valid = s.valid; others = s.others; first = s.first },
  )

  drain_below :
      (k : ℕ) (pq : PriorityQueue A)
      → length pq.items ≡ k
      → IsValid cmp pq
      → (vs : List A) × Drained pq vs
  drain_below zero pq e v =
      let none_left : pq.items ≡ [] = grind arith in
      (
        [],
        record {
          rest = pq;
          run = done;
          emptied = none_left;
          ascending = Pairwise.nil;
          same = rw none_left Perm.nil;
        },
      )
  drain_below (suc k) pq e v =
      let (x, pq', popped, s) = pop_found (pop_correct cmp law pq v (omega arith)) in
      let (vs, d) = drain_below k pq' (omega (arith, length-perm s.others)) s.valid in
      let all = Perm.trans (Perm.cons x d.same) s.others in
      (
        x ∷ vs,
        record {
          rest = d.rest;
          run = next popped d.run;
          emptied = d.emptied;
          ascending =
              Pairwise.cons (λ u m. s.first u ((Perm.mem_iff all).0 (mem-cons_of_mem x m)))
                d.ascending;
          same = all;
        },
      )

  -- A valid queue can be popped until it is empty, and the elements come in ascending order, each
  -- exactly once.
  pub drain_sorts : (pq : PriorityQueue A) → IsValid cmp pq → (vs : List A) × Drained pq vs
  drain_sorts pq v = drain_below (length pq.items) pq refl v
