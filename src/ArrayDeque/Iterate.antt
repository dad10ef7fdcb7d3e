-- ===== src/ArrayDeque/Iterate.antt =====
-- The constructors, Clear, Seq and Reversed.
use mathlib.Core.List.{reverse, reverse-append, append-nil}
use go_collections.Prelude.{
  ℕ, zero, suc, ◌+◌, ◌%◌, ◌≤◌, ◌<◌, ◌≡◌, refl, sym, ap, ◌∙◌, List, [], ◌∷◌, length, replicate,
  tabulate, get_or, length-replicate, length-tabulate, tabulate_ext, tabulate_snoc, get_or-tabulate,
  drop_all, arith,
}
use go_collections.Prelude.Int.{ℤ}
use go_collections.Prelude.Outcome.{returned}
use go_collections.Prelude.Slice.{Zero, load_in_range, copy_fits}
use go_collections.ArrayDeque.{
  ArrayDeque, new, new_with_capacity, new_from, clear, at, seq_from, seq, reversed_from, reversed,
}
use go_collections.ArrayDeque.Ring.{turn, turn-lt, wrap-turn, entry, contents, IsValid, entry_at}
use go_collections.ArrayDeque.Front.{Shows}
use native.Mathlib.Nat.{mod-eq_of_lt, mod_self}

module _ {ℓ} {A : Type ℓ} ⦃z : Zero A⦄ where
  -- A deque whose elements fill the buffer from its start.
  pub filled-IsValid :
      (xs : List A) (n : ℕ)
      → n ≡ length xs
      → Shows xs (record { buf = xs; head = 0; tail = 0; size = n })
  filled-IsValid xs n e = (
    record {
      fits = omega arith;
      starts = omega arith;
      inside = λ p. p;
      ends = sym (ap (λ k. k % length xs) (omega arith) ∙ mod_self (length xs));
    },
    tabulate_ext n _ xs z.zero_value (sym e)
        λ i p. ap (λ k. get_or xs k z.zero_value) (mod-eq_of_lt (omega arith) ∙ omega arith),
  )

  blank-IsValid :
      (n : ℕ) → Shows [] (record { buf = replicate n z.zero_value; head = 0; tail = 0; size = 0 })
  blank-IsValid n = (
    record { fits = omega arith; starts = omega arith; inside = λ p. p; ends = blank_tail n },
    tabulate_ext 0 _ [] z.zero_value refl λ i p. absurd (omega arith),
  )
    where
      blank_tail : (n : ℕ) → 0 ≡ (0 + 0) % length (replicate n z.zero_value)
      blank_tail zero = refl
      blank_tail (suc n) = sym (mod-eq_of_lt (omega arith))

  -- Every constructor and Clear give a valid deque: of the given elements, and of none.
  pub new_deque_contents :
      (elements : List A) (capacity : ℤ) (d : ArrayDeque A)
      → Shows elements (new_from elements)
        × Shows {A = A} [] new
        × Shows {A = A} [] (new_with_capacity capacity)
        × Shows {A = A} [] (clear d)
  unfolding new new_from new_with_capacity clear
  new_deque_contents elements capacity d = (
    rw
        (
          copy_fits (replicate (length elements) z.zero_value) elements
              (omega (arith, length-replicate (length elements) z.zero_value)),
          drop_all (length elements) (replicate (length elements) z.zero_value)
              (omega (arith, length-replicate (length elements) z.zero_value)),
          append-nil elements,
        )
        (filled-IsValid elements (length elements) refl),
    blank-IsValid 0,
    blank-IsValid _,
    blank-IsValid (length d.buf),
  )

  module _ (d : ArrayDeque A) (v : IsValid d) where
    at-entry : (i : ℕ) → i < d.size → at d i ≡ returned (entry d i)
    unfolding at
    at-entry i p =
        let inside : d.head < length d.buf = v.inside (omega (arith, v.fits)) in
        let here = turn-lt (length d.buf) d.head inside i (omega (arith, v.fits)) in
        rw (
          wrap-turn (length d.buf) (d.head + i) (omega (arith, inside, v.fits)),
          load_in_range z.zero_value d.buf (turn (length d.buf) (d.head + i)) here,
          entry_at d v i _ (omega (arith, v.fits)) refl,
        )

    seq_from-list :
        (n i : ℕ) (xs : List A)
        → i + n ≤ d.size
        → length xs ≡ n
        → ((j : ℕ) → j < n → entry d (i + j) ≡ get_or xs j z.zero_value)
        → seq_from d n i ≡ returned xs
    unfolding seq_from
    seq_from-list zero i [] h e same = refl
    seq_from-list zero i (x ∷ xs) h e same = absurd (omega arith)
    seq_from-list (suc n) i [] h e same = absurd (omega arith)
    seq_from-list (suc n) i (x ∷ xs) h e same =
        let head : entry d i ≡ x = ap (entry d) (omega arith) ∙ same 0 (omega arith) in
        let tail =
          seq_from-list n (i + 1) xs (omega arith) (omega arith)
            (λ j p. ap (entry d) (omega arith) ∙ same (suc j) (omega arith)) in
        rw (at-entry i (omega arith), tail, head)

    -- Seq yields the contents.
    pub seq-contents : seq d ≡ returned (contents d)
    unfolding seq
    seq-contents =
        seq_from-list d.size 0 (contents d) (omega arith) (length-tabulate d.size (entry d)) λ j p.
          ap (entry d) (omega arith) ∙ sym (get_or-tabulate d.size (entry d) j z.zero_value p)

    reversed_from-table :
        (n : ℕ) → n ≤ d.size → reversed_from d n ≡ returned (reverse (tabulate n (entry d)))
    unfolding reversed_from
    reversed_from-table zero h =
        rw (tabulate_ext 0 (entry d) [] z.zero_value refl λ i p. absurd (omega arith))
    reversed_from-table (suc n) h = rw (
      at-entry n h,
      reversed_from-table n (omega arith),
      tabulate_snoc n (entry d) (entry d) (entry d n) (λ i p. refl) refl,
      reverse-append (tabulate n (entry d)) (entry d n ∷ []),
    )

    -- Reversed yields the contents backwards.
    pub reversed-contents : reversed d ≡ returned (reverse (contents d))
    unfolding reversed
    reversed-contents = reversed_from-table d.size (omega arith)
