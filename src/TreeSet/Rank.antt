-- ===== src/TreeSet/Rank.antt =====
-- Rank, a binary search by index.
use go_collections.Prelude.{
  ℕ, zero, suc, ◌+◌, ◌/◌, ◌≤◌, ◌<◌, ◌≡◌, refl, sym, ◌∙◌, Bool, true, false, Bool-cases, inl, inr,
  List, [], ◌∷◌, length, get_or, get_elem?_of_lt, ltb, ltb→lt, ltb→le, arith,
}
use go_collections.Prelude.Int.{ℤ, pos, negsuc, is_neg, is_pos, sub_ℕ}
use go_collections.Prelude.Outcome.{Returns, returns}
use go_collections.Prelude.Slice.{Zero}
use go_collections.Comparator.{Comparator, IsComparator}
use go_collections.BTree.{less, alike, Before, Ascending, BTree, IsBTree}
use go_collections.BTree.Ascending.{holds, less_trans}
use go_collections.TreeSet.{TreeSet, to_slice, rank_loop, rank}

module _ {ℓ} {A : Type ℓ} {cmp : Comparator A} (law : IsComparator cmp) ⦃z : Zero A⦄ where
  Before-get_or :
      (x : A) (xs : List A) (i : ℕ)
      → Before cmp x xs
      → i < length xs
      → less cmp x (get_or xs i z.zero_value) ≡ true
  Before-get_or x [] i b h = absurd (omega arith)
  Before-get_or x (y ∷ ys) zero b h = b.0
  Before-get_or x (y ∷ ys) (suc i) b h = Before-get_or x ys i b.1 (omega arith)

  Ascending-get_or :
      (xs : List A) (i j : ℕ)
      → Ascending cmp xs
      → i < j
      → j < length xs
      → less cmp (get_or xs i z.zero_value) (get_or xs j z.zero_value) ≡ true
  Ascending-get_or [] i j s h k = absurd (omega arith)
  Ascending-get_or (x ∷ xs) i zero s h k = absurd (omega arith)
  Ascending-get_or (x ∷ xs) zero (suc j) s h k = Before-get_or x xs j s.0 (omega arith)
  Ascending-get_or (x ∷ xs) (suc i) (suc j) s h k =
      Ascending-get_or xs i j s.1 (omega arith) (omega arith)

  -- If no index shows a passing element, none passes.
  none_passes :
      (p : A → Bool) (xs : List A)
      → ((i : ℕ) → i < length xs → p (get_or xs i z.zero_value) ≡ false)
      → holds p xs ≡ false
  none_passes p [] h = refl
  none_passes p (x ∷ xs) h =
      rw (h zero (omega arith)) (none_passes p xs λ i k. h (suc i) (omega arith))

sub-suc : (n : ℕ) → sub_ℕ (suc n) 1 ≡ pos n
sub-suc n = ground arith

module _ {ℓ} {A : Type ℓ} (cmp : Comparator A) ⦃z : Zero A⦄ where
  -- The index of an element like `x`, or -1 if there is none.
  abbrev pub IsRank : List A → A → ℤ → Type 0
  IsRank xs x (pos i) = (i < length xs) × (alike cmp x (get_or xs i z.zero_value) ≡ true)
  IsRank xs x (negsuc n) = (n ≡ 0) × (holds (alike cmp x) xs ≡ false)

  -- What lies outside the part still to search: elements before `x` below `lo`, and after it from
  -- `end` on, where `end` is `hi + 1`.
  record Searching (xs : List A) (x : A) (lo end : ℕ) : Type 0 where
    within : end ≤ length xs
    lower_part : (i : ℕ) → i < lo → i < length xs → less cmp (get_or xs i z.zero_value) x ≡ true
    upper_part : (i : ℕ) → end ≤ i → i < length xs → less cmp x (get_or xs i z.zero_value) ≡ true

module _ {ℓ} {Tree A : Type ℓ} {cmp : Comparator A} {b : BTree Tree A} (law : IsComparator cmp)
    (tree : IsBTree cmp b) ⦃z : Zero A⦄ where
  lower_next :
      (t : Tree) (x : A) (mid : ℕ)
      → mid < length (b.scan t)
      → less cmp (get_or (b.scan t) mid z.zero_value) x ≡ true
      → (i : ℕ) → i < mid + 1
      → i < length (b.scan t)
      → less cmp (get_or (b.scan t) i z.zero_value) x ≡ true
  lower_next t x mid h m i k l = elim (Bool-cases (ltb i mid)) [
    | inl e ↦
        less_trans law _ _ _
          (Ascending-get_or law (b.scan t) i mid (tree.scan_sorted t) (ltb→lt _ _ e) h) m
    | inr e ↦ let same : i ≡ mid = ground arith in rw same m
  ]

  upper_next :
      (t : Tree) (x : A) (mid : ℕ)
      → less cmp x (get_or (b.scan t) mid z.zero_value) ≡ true
      → (i : ℕ) → mid ≤ i
      → i < length (b.scan t)
      → less cmp x (get_or (b.scan t) i z.zero_value) ≡ true
  upper_next t x mid m i k l = elim (Bool-cases (ltb mid i)) [
    | inl e ↦
        less_trans law _ _ _ m
          (Ascending-get_or law (b.scan t) mid i (tree.scan_sorted t) (ltb→lt _ _ e) l)
    | inr e ↦ let same : i ≡ mid = ground arith in rw same m
  ]

  -- Nothing is left to search.
  searched :
      (t : Tree) (x : A) (end : ℕ)
      → Searching cmp (b.scan t) x end end
      → holds (alike cmp x) (b.scan t) ≡ false
  searched t x end s = none_passes law (alike cmp x) (b.scan t) λ i k.
      elim (Bool-cases (ltb i end)) [
        | inl e ↦ rw (s.lower_part i (ltb→lt _ _ e) k) (ground arith)
        | inr e ↦ rw (s.upper_part i (ground arith) k) refl
      ]

  rank_loop-IsRank :
      (fuel : ℕ) (t : Tree) (x : A) (lo end : ℕ)
      → lo ≤ end
      → end < fuel + lo
      → Searching cmp (b.scan t) x lo end
      → Returns (IsRank cmp (b.scan t) x) (rank_loop b cmp fuel t x lo (sub_ℕ end 1))
  unfolding rank_loop
  rank_loop-IsRank zero t x lo end k h s = absurd (omega arith)
  rank_loop-IsRank (suc fuel) t x lo zero k h s =
      let at_start : lo ≡ 0 = omega arith in returns (refl, searched t x 0 (rw at_start at s))
  rank_loop-IsRank (suc fuel) t x lo (suc hi) k h s = elim (Bool-cases (ltb hi lo)) [
    | inl done ↦
        let over : lo ≡ suc hi = ground arith in
        rw (sub-suc hi, rank_loop, done) (returns (refl, searched t x (suc hi) (rw over at s)))
    | inr more ↦
        let mid = (lo + hi) / 2 in
        let inside : mid < length (b.scan t) = omega (arith, s.within, ltb→le hi lo more) in
        let at_mid = tree.get_at_index t mid ∙ get_elem?_of_lt (b.scan t) mid z.zero_value inside in
        let item = get_or (b.scan t) mid z.zero_value in
        elim (Bool-cases (is_neg (cmp item x))) [
          | inl before ↦
              rw (sub-suc hi, rank_loop, more, at_mid, before)
                (rw (sub-suc hi) at (
                  rank_loop-IsRank fuel t x (mid + 1) (suc hi) (omega (arith, ltb→le hi lo more))
                    (omega (arith, ltb→le hi lo more))
                    record {
                      within = s.within;
                      lower_part = lower_next t x mid inside before;
                      upper_part = s.upper_part;
                    }))
          | inr not_before ↦ elim (Bool-cases (is_pos (cmp item x))) [
            | inl after ↦
                rw (sub-suc hi, rank_loop, more, at_mid, not_before, after)
                  (rank_loop-IsRank fuel t x lo mid (omega (arith, ltb→le hi lo more))
                    (omega (arith, ltb→le hi lo more))
                    record {
                      within = omega (arith, inside);
                      lower_part = s.lower_part;
                      upper_part = upper_next t x mid (sym (law.flip item x) ∙ after);
                    })
            | inr not_after ↦
                rw (sub-suc hi, rank_loop, more, at_mid, not_before, not_after)
                  (returns (inside, rw (not_before, sym (law.flip item x) ∙ not_after) refl))
          ]
        ]
  ]

  -- On any tree Rank ends within its fuel. It returns an index at which the tree has an element like
  -- `x`, or -1 if no element is like `x`.
  pub rank-IsRank :
      (t : TreeSet Tree) (x : A) → Returns (IsRank cmp (to_slice b t) x) (rank b cmp t x)
  unfolding to_slice rank
  rank-IsRank t x = rw (tree.len_counts t.bt) (
      rank_loop-IsRank (length (b.scan t.bt) + 1) t.bt x 0 (length (b.scan t.bt)) (omega arith)
        (omega arith)
        record {
          within = omega arith;
          lower_part = λ i h k. absurd (omega arith);
          upper_part = λ i h k. absurd (omega arith);
        })
