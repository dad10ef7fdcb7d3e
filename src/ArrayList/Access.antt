-- ===== src/ArrayList/Access.antt =====
-- Get and Set.
use go_collections.Prelude.{
  ℕ, ◌<◌, ◌≤◌, ◌≡◌, refl, Bool, true, false, ◌&&◌, Bool-cases, inl, inr, length, get_or,
  set as set_elem, leb, leb→lt, leb→le, le→leb, lt→leb, ◌==◌, if◌then◌else◌, length-set, get_or-set,
  arith,
}
use go_collections.Prelude.Int.{ℤ, pos, negsuc}
use go_collections.Prelude.Outcome.{returned, Returns, returns}
use go_collections.Prelude.Slice.{Zero, load_in_range, store_in_range}
use go_collections.ArrayList.{ArrayList, get, set}

-- Two indices that name one element.
abbrev pub same_index : ℤ → ℤ → Bool
same_index (pos i) (pos j) = i == j
same_index (pos i) (negsuc j) = false
same_index (negsuc i) j = false

module _ {ℓ} {A : Type ℓ} ⦃z : Zero A⦄ where
  pub get_in_range :
      (l : ArrayList A) (i : ℕ)
      → i < length l.items
      → get l (pos i) ≡ returned (get_or l.items i z.zero_value, true)
  unfolding get
  get_in_range l i h = rw (lt→leb (length l.items) i h, load_in_range z.zero_value l.items i h)

  pub get_past :
      (l : ArrayList A) (i : ℕ)
      → length l.items ≤ i
      → get l (pos i) ≡ returned (z.zero_value, false)
  unfolding get
  get_past l i h = rw (le→leb (length l.items) i h)

  pub get_neg : (l : ArrayList A) (i : ℕ) → get l (negsuc i) ≡ returned (z.zero_value, false)
  unfolding get
  get_neg l i = refl

  -- The list with one element replaced, read anywhere.
  get-replaced :
      (l : ArrayList A) (i : ℕ) (x : A) (h : i < length l.items) (j : ℤ)
      → get (record { items = set_elem l.items i x }) j
        ≡ (if true && same_index (pos i) j then returned (x, true) else get l j)
  unfolding get
  get-replaced l i x h (negsuc j) = refl
  get-replaced l i x h (pos j) = elim (Bool-cases (leb (length l.items) j)) [
    | inl past ↦
        let apart : (i == j) ≡ false = ground arith in rw (length-set l.items i x, past, apart)
    | inr within ↦
        let hj = leb→lt (length l.items) j within in
        rw
          (
            length-set l.items i x,
            within,
            load_in_range z.zero_value (set_elem l.items i x) j
                (omega (arith, length-set l.items i x)),
            load_in_range z.zero_value l.items j hj,
            get_or-set l.items i j x z.zero_value h,
          )
          (elim (Bool-cases (i == j)) [ inl e ↦ rw e | inr e ↦ rw e ])
  ]

  -- Set returns what Get shows. Where it reports success, the element at the index has changed and
  -- no other; where not, Get answers as before everywhere.
  pub set-get :
      (l : ArrayList A) (index : ℤ) (x : A)
      → Returns
          (λ r.
            (get l index ≡ returned (r.0, r.1))
            × ((j : ℤ)
                → get r.2 j ≡ (if r.1 && same_index index j then returned (x, true) else get l j)))
          (set l index x)
  unfolding set
  set-get l (negsuc i) x = returns (get_neg l i, λ j. refl)
  set-get l (pos i) x = elim (Bool-cases (leb (length l.items) i)) [
    | inl past ↦ rw past (returns (get_past l i (leb→le (length l.items) i past), λ j. refl))
    | inr within ↦
        let h = leb→lt (length l.items) i within in
        rw (within, load_in_range z.zero_value l.items i h, store_in_range l.items i x h)
          (returns (get_in_range l i h, get-replaced l i x h))
  ]
