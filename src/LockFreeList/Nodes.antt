-- ===== src/LockFreeList/Nodes.antt =====
-- Reads of the nodes after writes.
use go_collections.Prelude.{
  ℕ, zero, suc, ◌+◌, ◌≡◌, refl, ap, ap₂, ◌∙◌, ◌<◌, ◌≤◌, true, false, Option, none, some, List, [],
  ◌∷◌, ◌++◌, length, ◌==◌, arith,
}
use go_collections.LockFreeList.State.{Node, next_at, with_next, with_state, same_ref, build_chain}

pub same_ref-≡ : (r s : Option ℕ) → same_ref r s ≡ true → r ≡ s
unfolding same_ref
same_ref-≡ none none h = refl
same_ref-≡ none (some b) h = ground arith
same_ref-≡ (some a) none h = ground arith
same_ref-≡ (some a) (some b) h = ap some (ground arith)

pub same_ref_refl : (r : Option ℕ) → same_ref r r ≡ true
unfolding same_ref
same_ref_refl none = refl
same_ref_refl (some a) = ground arith

pub length-with_next :
    (ns : List Node) (a : ℕ) (r : Option ℕ) → length (with_next ns a r) ≡ length ns
unfolding with_next
length-with_next [] a r = refl
length-with_next (n ∷ ns) zero r = refl
length-with_next (n ∷ ns) (suc a) r = ap suc (length-with_next ns a r)

pub length-with_state :
    (ns : List Node) (a : ℕ) (s : Option ℕ) → length (with_state ns a s) ≡ length ns
unfolding with_state
length-with_state [] a s = refl
length-with_state (n ∷ ns) zero s = refl
length-with_state (n ∷ ns) (suc a) s = ap suc (length-with_state ns a s)

pub next_at-with_next :
    (ns : List Node) (a : ℕ) (r : Option ℕ) → a < length ns → next_at (with_next ns a r) a ≡ r
unfolding with_next next_at
next_at-with_next [] a r h = absurd (omega arith)
next_at-with_next (n ∷ ns) zero r h = refl
next_at-with_next (n ∷ ns) (suc a) r h = next_at-with_next ns a r (omega arith)

pub next_at-with_next_other :
    (ns : List Node) (a b : ℕ) (r : Option ℕ)
    → (b == a) ≡ false
    → next_at (with_next ns a r) b ≡ next_at ns b
unfolding with_next next_at
next_at-with_next_other [] a b r h = refl
next_at-with_next_other (n ∷ ns) zero zero r h = ground arith
next_at-with_next_other (n ∷ ns) zero (suc b) r h = refl
next_at-with_next_other (n ∷ ns) (suc a) zero r h = refl
next_at-with_next_other (n ∷ ns) (suc a) (suc b) r h =
    next_at-with_next_other ns a b r (ground arith)

pub next_at-with_state :
    (ns : List Node) (a b : ℕ) (s : Option ℕ) → next_at (with_state ns a s) b ≡ next_at ns b
unfolding with_state next_at
next_at-with_state [] a b s = refl
next_at-with_state (n ∷ ns) zero zero s = refl
next_at-with_state (n ∷ ns) zero (suc b) s = refl
next_at-with_state (n ∷ ns) (suc a) zero s = refl
next_at-with_state (n ∷ ns) (suc a) (suc b) s = next_at-with_state ns a b s

pub next_at-append :
    (ns ms : List Node) (a : ℕ) → a < length ns → next_at (ns ++ ms) a ≡ next_at ns a
unfolding next_at
next_at-append [] ms a h = absurd (omega arith)
next_at-append (n ∷ ns) ms zero h = refl
next_at-append (n ∷ ns) ms (suc a) h = next_at-append ns ms a (omega arith)

pub next_at-append_right :
    (ns : List Node) (n : Node) (ms : List Node) → next_at (ns ++ n ∷ ms) (length ns) ≡ n.next
unfolding next_at
next_at-append_right [] n ms = refl
next_at-append_right (m ∷ ns) n ms = next_at-append_right ns n ms

pub next_at-middle :
    (ns : List Node) (n : Node) (ms ks : List Node) (a : ℕ)
    → a ≡ length ns
    → ks ≡ ns ++ n ∷ ms
    → next_at ks a ≡ n.next
next_at-middle ns n ms ks a at same = ap₂ next_at same at ∙ next_at-append_right ns n ms

-- No pointer stands behind the last node.
pub next_at_of_le : (ns : List Node) (a : ℕ) → length ns ≤ a → next_at ns a ≡ none
unfolding next_at
next_at_of_le [] a h = refl
next_at_of_le (n ∷ ns) zero h = absurd (omega arith)
next_at_of_le (n ∷ ns) (suc a) h = next_at_of_le ns a (omega arith)

module _ {ℓ} {A : Type ℓ} where
  pub length-build_chain :
      (a v : ℕ) (x : A) (xs : List A) (after : Option ℕ)
      → length (build_chain a v x xs after) ≡ length (x ∷ xs)
  unfolding build_chain
  length-build_chain a v x [] after = refl
  length-build_chain a v x (y ∷ ys) after = ap suc (length-build_chain (a + 1) (v + 1) y ys after)
