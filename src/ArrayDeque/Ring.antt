-- ===== src/ArrayDeque/Ring.antt =====
-- The circular indices of arraydeque.go, its invariant, and the list that a deque stands for.
use native.Mathlib.Nat.{mod-eq_of_lt, mod-eq-sub-mod}
use go_collections.Prelude.{
  ℕ, zero, suc, ◌+◌, ◌-◌, ◌*◌, ◌%◌, ◌≤◌, ◌<◌, ◌≡◌, ◌≢◌, refl, ap, ◌∙◌, List, length, get_or,
  tabulate, ltb, ltb→lt, ltb→le, Bool-cases, inl, inr, ◌==◌, if◌then◌else◌, arith,
}
use go_collections.Prelude.Int.{pos, sub_ℕ, rem}
use go_collections.Prelude.Outcome.{returned}
use go_collections.Prelude.Slice.{Zero}
use go_collections.ArrayDeque.{ArrayDeque, wrap}

-- `n % m` where `n` is less than two rounds.
unfoldable pub turn : ℕ → ℕ → ℕ
turn m n = if ltb n m then n else n - m

-- The index before `n` on the ring.
unfoldable pub back : ℕ → ℕ → ℕ
back m n = if n == 0 then m - 1 else n - 1

pub mod-turn : (m n : ℕ) → n < 2 * m → n % m ≡ turn m n
unfolding turn
mod-turn m n h = elim (Bool-cases (ltb n m)) [
  | inl small ↦ rw (small, turn) (mod-eq_of_lt (ltb→lt n m small))
  | inr large ↦
      rw (large, turn)
        (mod-eq-sub-mod (ltb→le n m large) ∙ mod-eq_of_lt (omega (arith, ltb→le n m large)))
]

pub turn_low : (m n : ℕ) → n < m → turn m n ≡ n
unfolding turn
turn_low m n h = ground arith

pub turn_high : (m n : ℕ) → m ≤ n → turn m n ≡ n - m
unfolding turn
turn_high m n h = ground arith

pub wrap-turn : (m n : ℕ) → n < 2 * m → wrap (pos n) m ≡ returned (turn m n)
unfolding wrap rem
wrap-turn m n h = rw mod-turn (ground arith)

pub wrap-back : (m n : ℕ) → n < m → wrap (sub_ℕ n 1) m ≡ returned (back m n)
unfolding wrap rem back
wrap-back zero n h = absurd (omega arith)
wrap-back (suc zero) zero h = refl
wrap-back (suc (suc m)) zero h =
    let one : 1 % suc (suc m) ≡ 1 = mod-eq_of_lt (omega arith) in rw one (ground arith)
wrap-back (suc m) (suc n) h =
    let small : n % suc m ≡ n = mod-eq_of_lt (omega arith) in ground (arith, small)

-- One step back on the ring, and `i` steps forth.
module _ (m h : ℕ) (inside : h < m) where
  pub back-lt : back m h < m
  unfolding back
  back-lt = ground arith

  pub back_shift : (i : ℕ) → i < m → turn m (back m h + suc i) ≡ turn m (h + i)
  unfolding back turn
  back_shift i p = ground arith

  pub back_ne : (i : ℕ) → i + 1 < m → back m h ≢ turn m (h + i)
  unfolding back turn
  back_ne i p = ground arith

  pub turn_ne : (i : ℕ) → i + 1 < m → h ≢ turn m (h + suc i)
  unfolding turn
  turn_ne i p = ground arith

  pub turn-lt : (i : ℕ) → i < m + 1 → turn m (h + i) < m
  unfolding turn
  turn-lt i p = ground arith

  -- The steps after a step forth.
  pub turn-turn : (i : ℕ) → i < m → turn m (turn m (h + 1) + i) ≡ turn m (h + suc i)
  unfolding turn
  turn-turn i p = ground arith

  pub turn_next : (n : ℕ) → n < m → turn m (turn m (h + n) + 1) ≡ turn m (h + (n + 1))
  unfolding turn
  turn_next n p = ground arith

  -- The last of `n + 1` steps is one step back from the end.
  pub back-turn : (n : ℕ) → n < m → back m (turn m (h + suc n)) ≡ turn m (h + n)
  unfolding back turn
  back-turn n p = ground arith

  -- Different steps end at different places.
  pub turn_apart : (i j : ℕ) → i < j → j < m → turn m (h + j) ≢ turn m (h + i)
  unfolding turn
  turn_apart i j p q = ground arith

module _ {ℓ} {A : Type ℓ} ⦃z : Zero A⦄ where
  -- The entry that stands `i` places behind the head.
  abbrev pub entry : ArrayDeque A → ℕ → A
  entry d i = get_or d.buf ((d.head + i) % length d.buf) z.zero_value

  -- The list that a deque stands for, front to back.
  abbrev pub contents : ArrayDeque A → List A
  contents d = tabulate d.size (entry d)

  -- The invariant that the comment on PushFront names, and the ranges of the fields.
  pub record IsValid (d : ArrayDeque A) : Type 0 where
    pub fits : d.size ≤ length d.buf
    pub starts : d.head < length d.buf + 1
    pub inside : 0 < length d.buf → d.head < length d.buf
    pub ends : d.tail ≡ (d.head + d.size) % length d.buf

  module _ (d : ArrayDeque A) (v : IsValid d) where
    pub entry-turn :
        (i : ℕ)
        → i < length d.buf
        → entry d i ≡ get_or d.buf (turn (length d.buf) (d.head + i)) z.zero_value
    entry-turn i h =
        ap (λ k. get_or d.buf k z.zero_value)
          (mod-turn (length d.buf) (d.head + i) (omega (arith, v.inside)))

    pub tail-turn : 0 < length d.buf → d.tail ≡ turn (length d.buf) (d.head + d.size)
    tail-turn h =
        v.ends ∙ mod-turn (length d.buf) (d.head + d.size) (omega (arith, v.inside, v.fits))

    -- The entry behind a known index.
    pub entry_at :
        (i k : ℕ)
        → i < length d.buf
        → turn (length d.buf) (d.head + i) ≡ k
        → entry d i ≡ get_or d.buf k z.zero_value
    entry_at i k h e = entry-turn i h ∙ ap (λ j. get_or d.buf j z.zero_value) e
