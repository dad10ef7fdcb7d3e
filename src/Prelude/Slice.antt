-- ===== src/Prelude/Slice.antt =====
-- Go slices as lists: reads and writes that panic out of range, zero values.
use Prim.Native.Nat.{ℕ, zero, suc, ◌<◌, ◌≤◌, ◌-◌, min}
use mathlib.Core.Path.{◌≡◌, ◌∙◌, ap}
use mathlib.Core.Option.{none, some}
use mathlib.Core.List.{List, [], ◌∷◌, ◌++◌, Perm}
use mathlib.Core.List.Perm
use native.Mathlib.Omega.{arith}
use go_collections.Prelude.Tests.{leb, ltb, le→leb, ◌==◌, if◌then◌else◌}
use go_collections.Prelude.Lists.{
  length, get_elem?, get_or, set, take, drop, take_all, length-drop, get_elem?_of_lt, length-set,
  get_or-set,
}
use go_collections.Prelude.Outcome.{Outcome, returned, panicked, ◌>>=◌}

-- `var zero T`
pub record Zero {ℓ} (A : Type ℓ) : Type ℓ where
  pub zero_value : A

-- `xs[i]`
unfoldable pub load {ℓ} : {A : Type ℓ} → List A → ℕ → Outcome A
load xs i = elim (get_elem? xs i) [ some x ↦ returned x | none ↦ panicked ]

-- `xs[i] = v`
unfoldable pub store {ℓ} : {A : Type ℓ} → List A → ℕ → A → Outcome (List A)
store xs i v = if ltb i (length xs) then returned (set xs i v) else panicked

-- `xs[lo:hi]`; the code never reslices past the length, so the capacity plays no part.
unfoldable pub slice {ℓ} : {A : Type ℓ} → List A → ℕ → ℕ → Outcome (List A)
slice xs lo hi =
    if leb lo hi
    then if leb hi (length xs) then returned (take (hi - lo) (drop lo xs)) else panicked
    else panicked

-- `copy(dst, src)`, with the number of entries copied
unfoldable pub copy {ℓ} : {A : Type ℓ} → List A → List A → List A × ℕ
copy dst src = let n = min (length dst) (length src) in (take n src ++ drop n dst, n)

-- `xs[i], xs[j] = xs[j], xs[i]`
unfoldable pub exchange {ℓ} : {A : Type ℓ} → List A → ℕ → ℕ → Outcome (List A)
unfolding load store
exchange xs i j = do y ← load xs j; x ← load xs i; ys ← store xs i y; store ys j x

-- The values that the operations give in range.
module _ {ℓ} {A : Type ℓ} (d : A) where
  pub load_in_range : (xs : List A) (i : ℕ) → i < length xs → load xs i ≡ returned (get_or xs i d)
  unfolding load
  load_in_range xs i h = rw (get_elem?_of_lt xs i d h, load)

  -- Both entries of an exchange, written down.
  abbrev pub swapped : List A → ℕ → ℕ → List A
  swapped xs i j = set (set xs i (get_or xs j d)) j (get_or xs i d)

  module _ (xs : List A) (i j : ℕ) (hi : i < length xs) (hj : j < length xs) where
    pub exchange_in_range : exchange xs i j ≡ returned (swapped xs i j)
    unfolding exchange
    exchange_in_range =
        rw (load_in_range xs j hj, load_in_range xs i hi)
          (ground (arith, length-set xs i (get_or xs j d)))

    pub length-swapped : length (swapped xs i j) ≡ length xs
    length-swapped =
        length-set (set xs i (get_or xs j d)) j (get_or xs i d) ∙ length-set xs i (get_or xs j d)

    pub get_or-swapped :
        (k : ℕ)
        → get_or (swapped xs i j) k d
          ≡ (if j == k then get_or xs i d else if i == k then get_or xs j d else get_or xs k d)
    get_or-swapped k = rw (
      get_or-set (set xs i (get_or xs j d)) j k (get_or xs i d) d (rw length-set hj),
      get_or-set xs i k (get_or xs j d) d hi,
    )

pub store_in_range {ℓ} :
    {A : Type ℓ} (xs : List A) (i : ℕ) (v : A)
    → i < length xs
    → store xs i v ≡ returned (set xs i v)
unfolding store
store_in_range xs i v h = ground arith

pub slice_in_range {ℓ} :
    {A : Type ℓ} (xs : List A) (lo hi : ℕ)
    → lo ≤ hi
    → hi ≤ length xs
    → slice xs lo hi ≡ returned (take (hi - lo) (drop lo xs))
unfolding slice
slice_in_range xs lo hi h k = rw (le→leb lo hi h, le→leb hi (length xs) k)

-- `xs[:n]`
pub slice_prefix {ℓ} :
    {A : Type ℓ} (xs : List A) (n : ℕ) → n ≤ length xs → slice xs 0 n ≡ returned (take n xs)
slice_prefix xs n h =
    slice_in_range xs 0 n (omega arith) h ∙ ap (λ k. returned (take k xs)) (omega arith)

-- `xs[n:]`
pub slice_suffix {ℓ} :
    {A : Type ℓ} (xs : List A) (n : ℕ)
    → n ≤ length xs
    → slice xs n (length xs) ≡ returned (drop n xs)
slice_suffix xs n h =
    slice_in_range xs n (length xs) h (omega arith)
    ∙ ap returned (take_all (length xs - n) (drop n xs) (omega (arith, length-drop n xs)))

-- A copy into a slice with room.
pub copy_fits {ℓ} :
    {A : Type ℓ} (dst src : List A)
    → length src ≤ length dst
    → copy dst src ≡ (src ++ drop (length src) dst, length src)
unfolding copy
copy_fits dst src h =
    let all : min (length dst) (length src) ≡ length src = omega arith in
    rw (all, take_all (length src) src (omega arith))

-- An overwritten entry, put back at the front, is what the write took away.
pub set-perm {ℓ} :
    {A : Type ℓ} (d : A) (xs : List A) (i : ℕ) (v : A)
    → i < length xs
    → Perm (get_or xs i d ∷ set xs i v) (v ∷ xs)
set-perm d [] i v h = absurd (omega arith)
set-perm d (x ∷ xs) zero v h = Perm.swap v x xs
set-perm d (x ∷ xs) (suc i) v h =
    Perm.trans (Perm.swap x (get_or xs i d) (set xs i v))
      (Perm.trans (Perm.cons x (set-perm d xs i v (omega arith))) (Perm.swap v x xs))

pub swapped-perm {ℓ} :
    {A : Type ℓ} (d : A) (xs : List A) (i j : ℕ)
    → i < length xs
    → j < length xs
    → Perm (swapped d xs i j) xs
swapped-perm d xs i j hi hj =
    let first = set xs i (get_or xs j d) in
    let same : get_or first j d ≡ get_or xs j d =
      ground (arith, get_or-set xs i j (get_or xs j d) d) in
    let put_back = set-perm d first j (get_or xs i d) (rw length-set hj) in
    Perm.cons_inv (Perm.trans (rw same at put_back) (set-perm d xs i (get_or xs j d) hi))

instance abbrev pub nat_zero : Zero ℕ
nat_zero = record { zero_value = 0 }
