-- ===== src/ArrayList/Search.antt =====
-- IndexOf, LastIndexOf, FindIndex, Find, Contains, Any, Every and Remove.
use go_collections.Prelude.{
  ℕ, zero, suc, ◌+◌, ◌<◌, ◌≡◌, refl, sym, ap, ◌∙◌, Bool, true, false, not, Bool-cases, inl, inr,
  List, [], ◌∷◌, ◌++◌, length, get_or, take, drop, leb, leb→le, leb→lt, if◌then◌else◌, arith,
}
use go_collections.Prelude.Int.{ℤ, pos, negsuc, is_neg}
use go_collections.Prelude.Outcome.{returned}
use go_collections.Prelude.Slice.{Zero}
use go_collections.Comparator.{Equaler}
use go_collections.ArrayList.{
  ArrayList, index_func, index_of_from, index_of, contains, find_index, find_in, find, any_of, any,
  every_of, every, get, remove,
}
use go_collections.ArrayList.Access.{get_in_range, get_past, get_neg}
use go_collections.ArrayList.Edit.{remove_at_in_range}

-- An index moved by `n` places.
abbrev shift : ℕ → ℤ → ℤ
shift n (pos i) = pos (n + i)
shift n (negsuc k) = negsuc k

abbrev later : ℤ → ℤ
later (pos i) = pos (suc i)
later (negsuc k) = negsuc k

shift-zero : (r : ℤ) → shift 0 r ≡ r
shift-zero (pos i) = ap pos (omega arith)
shift-zero (negsuc k) = refl

shift-later : (n : ℕ) (r : ℤ) → shift n (later r) ≡ shift (n + 1) r
shift-later n (pos i) = ap pos (omega arith)
shift-later n (negsuc k) = refl

is_neg-later : (r : ℤ) → is_neg (later r) ≡ is_neg r
is_neg-later (pos i) = refl
is_neg-later (negsuc k) = refl

is_neg-shift : (n : ℕ) (r : ℤ) → is_neg (shift n r) ≡ is_neg r
is_neg-shift n (pos i) = refl
is_neg-shift n (negsuc k) = refl

module _ {ℓ} {A : Type ℓ} where
  -- The index of the first element with a property, by recursion.
  first_index : (A → Bool) → List A → ℤ
  first_index p [] = negsuc 0
  first_index p (x ∷ xs) = if p x then pos 0 else later (first_index p xs)

  index_func-first :
      (xs : List A) (p : A → Bool) (n : ℕ) → index_func xs p n ≡ shift n (first_index p xs)
  unfolding index_func first_index
  index_func-first [] p n = refl
  index_func-first (x ∷ xs) p n = elim (Bool-cases (p x)) [
    | inl e ↦ rw e (ap pos (omega arith))
    | inr e ↦ rw e (index_func-first xs p (n + 1) ∙ sym (shift-later n (first_index p xs)))
  ]

  index_of_from-first :
      (xs : List A) (element : A) (eq : Equaler A) (n : ℕ)
      → index_of_from xs element eq n ≡ shift n (first_index (λ v. eq v element) xs)
  unfolding index_of_from first_index
  index_of_from-first [] element eq n = refl
  index_of_from-first (x ∷ xs) element eq n = elim (Bool-cases (eq x element)) [
    | inl e ↦ rw e (ap pos (omega arith))
    | inr e ↦ rw e (
        index_of_from-first xs element eq (n + 1)
        ∙ sym (shift-later n (first_index (λ v. eq v element) xs)))
  ]

  any-first : (xs : List A) (p : A → Bool) → not (is_neg (first_index p xs)) ≡ any_of xs p
  unfolding first_index any_of
  any-first [] p = refl
  any-first (x ∷ xs) p = elim (Bool-cases (p x)) [
    | inl e ↦ rw e
    | inr e ↦ rw (e, is_neg-later (first_index p xs)) (any-first xs p)
  ]

  -- Contains answers as Any does with the equality for its predicate.
  pub contains-any :
      (l : ArrayList A) (element : A) (eq : Equaler A)
      → contains l element eq ≡ any l (λ v. eq v element)
  unfolding contains index_of any
  contains-any l element eq =
      rw
        (
          index_of_from-first l.items element eq 0,
          is_neg-shift 0 (first_index (λ v. eq v element) l.items),
        )
        (any-first l.items (λ v. eq v element))

  every-any_of : (xs : List A) (p : A → Bool) → every_of xs p ≡ not (any_of xs (λ v. not (p v)))
  unfolding every_of any_of
  every-any_of [] p = refl
  every-any_of (x ∷ xs) p = elim (Bool-cases (p x)) [
    | inl e ↦ rw e (every-any_of xs p)
    | inr e ↦ rw e
  ]

  -- Every holds exactly if Any does not hold of the opposite predicate.
  pub every-any :
      (l : ArrayList A) (predicate : A → Bool)
      → every l predicate ≡ not (any l (λ v. not (predicate v)))
  unfolding every any
  every-any l predicate = every-any_of l.items predicate

module _ {ℓ} {A : Type ℓ} ⦃z : Zero A⦄ where
  -- Where the first element with a property stands: at the index, or nowhere if that is negative.
  abbrev pub IsFirst : (A → Bool) → List A → ℤ → Type 0
  IsFirst p xs (pos i) =
      (i < length xs)
      × (p (get_or xs i z.zero_value) ≡ true)
      × ((j : ℕ) → j < i → p (get_or xs j z.zero_value) ≡ false)
  IsFirst p xs (negsuc n) =
      (n ≡ 0) × ((j : ℕ) → j < length xs → p (get_or xs j z.zero_value) ≡ false)

  IsFirst-here : (p : A → Bool) (x : A) (xs : List A) → p x ≡ true → IsFirst p (x ∷ xs) (pos 0)
  IsFirst-here p x xs e = (omega arith, e, λ j h. absurd (omega arith))

  IsFirst-later :
      (p : A → Bool) (x : A) (xs : List A) (r : ℤ)
      → p x ≡ false
      → IsFirst p xs r
      → IsFirst p (x ∷ xs) (later r)
  IsFirst-later p x xs (pos i) e (inside, holds, before) = (omega arith, holds, at_each)
    where
      at_each : (j : ℕ) → j < suc i → p (get_or (x ∷ xs) j z.zero_value) ≡ false
      at_each zero h = e
      at_each (suc j) h = before j (omega arith)
  IsFirst-later p x xs (negsuc n) e (minus_one, never) = (minus_one, at_each)
    where
      at_each : (j : ℕ) → j < suc (length xs) → p (get_or (x ∷ xs) j z.zero_value) ≡ false
      at_each zero h = e
      at_each (suc j) h = never j (omega arith)

  first_index-IsFirst : (p : A → Bool) (xs : List A) → IsFirst p xs (first_index p xs)
  unfolding first_index
  first_index-IsFirst p [] = (refl, λ j h. absurd (omega arith))
  first_index-IsFirst p (x ∷ xs) = elim (Bool-cases (p x)) [
    | inl e ↦ rw e (IsFirst-here p x xs e)
    | inr e ↦ rw e (IsFirst-later p x xs (first_index p xs) e (first_index-IsFirst p xs))
  ]

  index_of-first :
      (l : ArrayList A) (element : A) (eq : Equaler A)
      → index_of l element eq ≡ first_index (λ v. eq v element) l.items
  unfolding index_of
  index_of-first l element eq =
      index_of_from-first l.items element eq 0
      ∙ shift-zero (first_index (λ v. eq v element) l.items)

  -- IndexOf gives the index of the first element that equals the given one, and -1 exactly if there
  -- is none.
  pub index_of-IsFirst :
      (l : ArrayList A) (element : A) (eq : Equaler A)
      → IsFirst (λ v. eq v element) l.items (index_of l element eq)
  index_of-IsFirst l element eq =
      rw (index_of-first l element eq) (first_index-IsFirst (λ v. eq v element) l.items)

  -- FindIndex gives the index of the first element that satisfies the predicate, and -1 exactly if
  -- there is none.
  pub find_index-IsFirst :
      (l : ArrayList A) (predicate : A → Bool) → IsFirst predicate l.items (find_index l predicate)
  unfolding find_index
  find_index-IsFirst l predicate =
      rw (index_func-first l.items predicate 0)
        (rw (shift-zero (first_index predicate l.items)) (first_index-IsFirst predicate l.items))

  get-later :
      (x : A) (xs : List A) (r : ℤ)
      → get (record { items = x ∷ xs }) (later r) ≡ get (record { items = xs }) r
  get-later x xs (negsuc k) = get_neg _ k ∙ sym (get_neg _ k)
  get-later x xs (pos i) = elim (Bool-cases (leb (length xs) i)) [
    | inl e ↦
        let h = leb→le (length xs) i e in get_past _ (suc i) (omega arith) ∙ sym (get_past _ i h)
    | inr e ↦
        let h = leb→lt (length xs) i e in
        get_in_range _ (suc i) (omega arith) ∙ sym (get_in_range _ i h)
  ]

  find_in-first :
      (p : A → Bool) (xs : List A)
      → get (record { items = xs }) (first_index p xs) ≡ returned (find_in xs p)
  unfolding first_index find_in
  find_in-first p [] = get_neg _ 0
  find_in-first p (x ∷ xs) = elim (Bool-cases (p x)) [
    | inl e ↦ rw e (get_in_range _ 0 (omega arith))
    | inr e ↦ rw (e, get-later x xs (first_index p xs)) (find_in-first p xs)
  ]

  -- Find returns what Get shows at the index that FindIndex finds.
  pub get-find_index :
      (l : ArrayList A) (predicate : A → Bool)
      → get l (find_index l predicate) ≡ returned (find l predicate)
  unfolding find_index find
  get-find_index l predicate =
      rw (index_func-first l.items predicate 0, shift-zero (first_index predicate l.items))
        (find_in-first predicate l.items)

  -- A list without its first element with a property.
  abbrev pub erase_first : (A → Bool) → List A → List A
  erase_first p [] = []
  erase_first p (x ∷ xs) = if p x then xs else x ∷ erase_first p xs

  abbrev erased : List A → ℤ → List A
  erased xs (pos i) = take i xs ++ drop (i + 1) xs
  erased xs (negsuc k) = xs

  erased-later : (x : A) (xs : List A) (r : ℤ) → erased (x ∷ xs) (later r) ≡ x ∷ erased xs r
  erased-later x xs (pos i) =
      ap (λ n. x ∷ (take i xs ++ drop n (x ∷ xs))) {y = suc (i + 1)} (omega arith)
  erased-later x xs (negsuc k) = refl

  erased-first : (p : A → Bool) (xs : List A) → erased xs (first_index p xs) ≡ erase_first p xs
  unfolding first_index
  erased-first p [] = refl
  erased-first p (x ∷ xs) = elim (Bool-cases (p x)) [
    | inl e ↦ rw e (ap (λ n. drop n (x ∷ xs)) {x = 0 + 1} {y = 1} (omega arith))
    | inr e ↦ rw (e, erased-later x xs (first_index p xs)) (ap (◌∷◌ x) (erased-first p xs))
  ]

  remove_found :
      (l : ArrayList A) (element : A) (eq : Equaler A) (r : ℤ)
      → index_of l element eq ≡ r
      → IsFirst (λ v. eq v element) l.items r
      → remove l element eq ≡ returned (not (is_neg r), record { items = erased l.items r })
  unfolding remove
  remove_found l element eq (pos i) e f = rw (e, remove_at_in_range l i f.0)
  remove_found l element eq (negsuc k) e f = rw e

  -- Remove takes out the first element that equals the given one, and reports what Contains says.
  pub remove-erase_first :
      (l : ArrayList A) (element : A) (eq : Equaler A)
      → remove l element eq
        ≡ returned
            (contains l element eq, record { items = erase_first (λ v. eq v element) l.items })
  unfolding contains
  remove-erase_first l element eq =
      remove_found l element eq (index_of l element eq) refl (index_of-IsFirst l element eq)
      ∙ ap (λ xs. returned (contains l element eq, record { items = xs }))
          (ap (erased l.items) (index_of-first l element eq)
            ∙ erased-first (λ v. eq v element) l.items)
