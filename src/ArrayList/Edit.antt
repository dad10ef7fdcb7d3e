-- ===== src/ArrayList/Edit.antt =====
-- Insert, InsertAll and RemoveAt.
use native.Mathlib.Numerals.{add-one}
use go_collections.Prelude.{
  ℕ, suc, ◌+◌, ◌<◌, ◌≤◌, ◌≡◌, refl, sym, ap, ◌∙◌, true, false, Bool-cases, inl, inr, List, [], ◌∷◌,
  ◌++◌, length, get_or, take, drop, ltb, leb, ltb→lt, ltb→le, leb→lt, leb→le, le→leb, le→ltb,
  lt→ltb, lt→leb, ◌==◌, length-append, length-take, length-drop, take-append-drop, take_append,
  drop_append, drop_cons, drop-drop, get_or-append_right, arith,
}
use go_collections.Prelude.Int.{ℤ, pos, negsuc}
use go_collections.Prelude.Outcome.{returned, Returns, returns, ◌>>=◌}
use go_collections.Prelude.Slice.{Zero, load_in_range}
use go_collections.ArrayList.{
  ArrayList, insert_slice, delete_slice, get, insert, insert_all, remove_at,
}
use go_collections.ArrayList.Access.{get_in_range, get_past, get_neg}

module _ {ℓ} {A : Type ℓ} where
  -- The list with elements put in before index `i`.
  abbrev spliced : List A → ℕ → List A → List A
  spliced xs i vs = take i xs ++ (vs ++ drop i xs)

  length-before : (xs : List A) (i : ℕ) → i ≤ length xs → length (take i xs) ≡ i
  length-before xs i h = length-take i xs ∙ omega arith

  length-spliced :
      (xs : List A) (i : ℕ) (vs : List A)
      → i ≤ length xs
      → length (spliced xs i vs) ≡ length xs + length vs
  length-spliced xs i vs h =
      length-append (take i xs) (vs ++ drop i xs)
      ∙ omega (arith, length-before xs i h, length-append vs (drop i xs), length-drop i xs)

  take-before :
      (xs : List A) (i : ℕ) (ys : List A) → i ≤ length xs → take i (take i xs ++ ys) ≡ take i xs
  take-before xs i ys h =
      ap (λ n. take n (take i xs ++ ys)) (sym (length-before xs i h)) ∙ take_append (take i xs) ys

  drop-before : (xs : List A) (i : ℕ) (ys : List A) → i ≤ length xs → drop i (take i xs ++ ys) ≡ ys
  drop-before xs i ys h =
      ap (λ n. drop n (take i xs ++ ys)) (sym (length-before xs i h)) ∙ drop_append (take i xs) ys

  insert_neg : (l : ArrayList A) (i : ℕ) (x : A) → insert l (negsuc i) x ≡ returned (false, l)
  unfolding insert
  insert_neg l i x = refl

  insert_in_range :
      (l : ArrayList A) (i : ℕ) (x : A)
      → i ≤ length l.items
      → insert l (pos i) x ≡ returned (true, record { items = spliced l.items i (x ∷ []) })
  unfolding insert insert_slice
  insert_in_range l i x h = rw (le→ltb (length l.items) i h, le→leb i (length l.items) h)

  insert_past :
      (l : ArrayList A) (i : ℕ) (x : A)
      → length l.items < i
      → insert l (pos i) x ≡ returned (false, l)
  unfolding insert
  insert_past l i x h = rw (lt→ltb (length l.items) i h)

  insert_all_in_range :
      (l : ArrayList A) (i : ℕ) (vs : List A)
      → i ≤ length l.items
      → insert_all l (pos i) vs ≡ returned (true, record { items = spliced l.items i vs })
  unfolding insert_all insert_slice
  insert_all_in_range l i [] h =
      rw (le→ltb (length l.items) i h)
        (ap (λ ys. returned (true, record { items = ys })) (sym (take-append-drop i l.items)))
  insert_all_in_range l i (v ∷ vs) h =
      let some_given : (suc (length vs) == 0) ≡ false = ground arith in
      rw (le→ltb (length l.items) i h, some_given, le→leb i (length l.items) h)

  insert_all_past :
      (l : ArrayList A) (i : ℕ) (vs : List A)
      → length l.items < i
      → insert_all l (pos i) vs ≡ returned (false, l)
  unfolding insert_all
  insert_all_past l i vs h = rw (lt→ltb (length l.items) i h)

  insert_all_neg :
      (l : ArrayList A) (i : ℕ) (vs : List A) → insert_all l (negsuc i) vs ≡ returned (false, l)
  unfolding insert_all
  insert_all_neg l i vs = refl

  -- InsertAll is Insert of the first element after InsertAll of the others, at every index.
  pub insert_all-insert :
      (l : ArrayList A) (index : ℤ) (x : A) (xs : List A)
      → insert_all l index (x ∷ xs) ≡ (insert_all l index xs >>= λ r. insert r.1 index x)
  insert_all-insert l (negsuc i) x xs =
      rw (insert_all_neg l i (x ∷ xs), insert_all_neg l i xs) (sym (insert_neg l i x))
  insert_all-insert l (pos i) x xs = elim (Bool-cases (ltb (length l.items) i)) [
    | inl past ↦
        let h = ltb→lt (length l.items) i past in
        rw (insert_all_past l i (x ∷ xs) h, insert_all_past l i xs h) (sym (insert_past l i x h))
    | inr within ↦
        let h = ltb→le (length l.items) i within in
        let new = spliced l.items i xs in
        rw (
          insert_all_in_range l i (x ∷ xs) h,
          insert_all_in_range l i xs h,
          insert_in_range (record { items = new }) i x
              (omega (arith, length-spliced l.items i xs h)),
          take-before l.items i (xs ++ drop i l.items) h,
          drop-before l.items i (xs ++ drop i l.items) h,
        )
  ]

module _ {ℓ} {A : Type ℓ} ⦃z : Zero A⦄ where
  -- The entry at the place of an insertion.
  entry-spliced :
      (xs : List A) (i : ℕ) (x : A)
      → i ≤ length xs
      → get_or (spliced xs i (x ∷ [])) i z.zero_value ≡ x
  entry-spliced xs i x h =
      get_or-append_right (take i xs) (x ∷ drop i xs) i z.zero_value
        (omega (arith, length-before xs i h))
      ∙ ap (λ k. get_or (x ∷ drop i xs) k z.zero_value) {y = 0}
          (omega (arith, length-before xs i h))

  pub remove_at_in_range :
      (l : ArrayList A) (i : ℕ)
      → i < length l.items
      → remove_at l (pos i)
        ≡ returned (
          get_or l.items i z.zero_value,
          true,
          record { items = take i l.items ++ drop (i + 1) l.items },
        )
  unfolding remove_at delete_slice
  remove_at_in_range l i h = rw (
    lt→leb (length l.items) i h,
    load_in_range z.zero_value l.items i h,
    le→leb i (i + 1) (omega arith),
    le→leb (i + 1) (length l.items) (omega arith),
  )

  remove_at_neg :
      (l : ArrayList A) (i : ℕ) → remove_at l (negsuc i) ≡ returned (z.zero_value, false, l)
  unfolding remove_at
  remove_at_neg l i = refl

  remove_at_past :
      (l : ArrayList A) (i : ℕ)
      → length l.items ≤ i
      → remove_at l (pos i) ≡ returned (z.zero_value, false, l)
  unfolding remove_at
  remove_at_past l i h = rw (le→leb (length l.items) i h)

  -- RemoveAt takes out what Insert put in, and a refused Insert changes nothing.
  pub remove_at-insert :
      (l : ArrayList A) (index : ℤ) (x : A)
      → Returns
          (λ r.
            (r.0 ≡ true → remove_at r.1 index ≡ returned (x, true, l)) × (r.0 ≡ false → r.1 ≡ l))
          (insert l index x)
  remove_at-insert l (negsuc i) x =
      rw (insert_neg l i x) (returns ((λ wrong. absurd (ground arith)), λ _. refl))
  remove_at-insert l (pos i) x = elim (Bool-cases (ltb (length l.items) i)) [
    | inl past ↦
        rw (insert_past l i x (ltb→lt (length l.items) i past))
          (returns ((λ wrong. absurd (ground arith)), λ _. refl))
    | inr within ↦
        let h = ltb→le (length l.items) i within in
        let new = spliced l.items i (x ∷ []) in
        let len = length-spliced l.items i (x ∷ []) h in
        rw (insert_in_range l i x h) (
          returns (
            (λ _. rw (
              remove_at_in_range (record { items = new }) i (omega (arith, len)),
              entry-spliced l.items i x h,
              take-before l.items i (x ∷ drop i l.items) h,
              ← drop-drop 1 i new,
              drop-before l.items i (x ∷ drop i l.items) h,
              take-append-drop i l.items,
            )),
            λ wrong. absurd (ground arith),
          ))
  ]

  -- Insert puts back what RemoveAt took out, RemoveAt returns what Get shows, and a refused
  -- RemoveAt changes nothing.
  pub insert-remove_at :
      (l : ArrayList A) (index : ℤ)
      → Returns
          (λ r.
            (get l index ≡ returned (r.0, r.1))
            × (r.1 ≡ true → insert r.2 index r.0 ≡ returned (true, l))
            × (r.1 ≡ false → r.2 ≡ l))
          (remove_at l index)
  insert-remove_at l (negsuc i) =
      rw (remove_at_neg l i) (returns (get_neg l i, (λ wrong. absurd (ground arith)), λ _. refl))
  insert-remove_at l (pos i) = elim (Bool-cases (leb (length l.items) i)) [
    | inl past ↦
        let h = leb→le (length l.items) i past in
        rw (remove_at_past l i h)
          (returns (get_past l i h, (λ wrong. absurd (ground arith)), λ _. refl))
    | inr within ↦
        let h = leb→lt (length l.items) i within in
        let rest = drop (i + 1) l.items in
        let kept = take i l.items ++ rest in
        rw (remove_at_in_range l i h) (
          returns (
            get_in_range l i h,
            (λ _. rw (
              insert_in_range (record { items = kept }) i (get_or l.items i z.zero_value)
                  (omega (
                    arith,
                    length-append (take i l.items) rest,
                    length-before l.items i (omega arith),
                  )),
              take-before l.items i rest (omega arith),
              drop-before l.items i rest (omega arith),
              add-one i,
              ← drop_cons i l.items z.zero_value h,
              take-append-drop i l.items,
            )),
            λ wrong. absurd (ground arith),
          ))
  ]
