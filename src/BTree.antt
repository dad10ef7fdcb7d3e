-- ===== src/BTree.antt =====
-- github.com/tidwall/btree, which treeset.go and treemap.go call: a parameter. Its operations are a
-- record, and what its documentation says of them is a record of laws.
pub mod Ascending
pub mod Laws
pub mod Parts
pub mod Sorted
use go_collections.Prelude.{
  ℕ, ◌≡◌, Bool, true, false, not, ◌&&◌, ◌||◌, Option, none, some, List, [], ◌∷◌, ◌++◌, length,
  get_elem?, if◌then◌else◌,
}
use go_collections.Prelude.Int.{is_neg}
use go_collections.Comparator.{Comparator}

-- The elements that pass a test, in their order.
abbrev pub keep {ℓ} : {A : Type ℓ} → (A → Bool) → List A → List A
keep p [] = []
keep p (x ∷ xs) = let rest = keep p xs in if p x then x ∷ rest else rest

-- `ok`, of a call that returns an option
abbrev pub is_some {ℓ} : {A : Type ℓ} → Option A → Bool
is_some none = false
is_some (some x) = true

abbrev pub head? {ℓ} : {A : Type ℓ} → List A → Option A
head? [] = none
head? (x ∷ xs) = some x

abbrev pub last_of {ℓ} : {A : Type ℓ} → A → List A → A
last_of x [] = x
last_of x (y ∷ ys) = last_of y ys

abbrev pub last? {ℓ} : {A : Type ℓ} → List A → Option A
last? [] = none
last? (x ∷ xs) = some (last_of x xs)

-- The reverse of a list, in the library's words: what Reverse and Descend visit.
abbrev pub backward {ℓ} : {A : Type ℓ} → List A → List A
backward [] = []
backward (x ∷ xs) = backward xs ++ x ∷ []

module _ {ℓ} {A : Type ℓ} (cmp : Comparator A) where
  -- `less`, as the constructors build it
  abbrev pub less : A → A → Bool
  less a b = is_neg (cmp a b)

  -- Neither comes before the other.
  abbrev pub alike : A → A → Bool
  alike a b = not (less a b) && not (less b a)

  -- `x` comes before all of them.
  abbrev pub Before : A → List A → Type 0
  Before x [] = Unit
  Before x (y ∷ ys) = (less x y ≡ true) × Before x ys

  -- Each comes before all that follow it.
  abbrev pub Ascending : List A → Type 0
  Ascending [] = Unit
  Ascending (x ∷ xs) = Before x xs × Ascending xs

-- The calls of BTreeG. A call that returns `(item, ok)` returns an option. An iteration is the list
-- of the items that it visits while its callback returns true.
pub record BTree {ℓ} (Tree A : Type ℓ) : Type ℓ where
  pub new_btree : Tree
  pub scan : Tree → List A
  pub reverse : Tree → List A
  pub ascend : Tree → A → List A
  pub descend : Tree → A → List A
  pub len : Tree → ℕ
  pub get : Tree → A → Option A
  pub set : Tree → A → Tree
  pub replaced : Tree → A → Option A
  pub delete : Tree → A → Option A × Tree
  pub min : Tree → Option A
  pub max : Tree → Option A
  pub get_at : Tree → ℕ → Option A
  pub clear : Tree → Tree
  pub copy : Tree → Tree

-- What the documentation of BTreeG says, in terms of the items that Scan visits.
pub record IsBTree {ℓ} {Tree A : Type ℓ} (cmp : Comparator A) (b : BTree Tree A) : Type ℓ where
  pub new_empty : b.scan b.new_btree ≡ []
  pub scan_sorted : (t : Tree) → Ascending cmp (b.scan t)
  pub reverse_backward : (t : Tree) → b.reverse t ≡ backward (b.scan t)
  pub ascend_from : (t : Tree) (x : A) → b.ascend t x ≡ keep (λ y. not (less cmp y x)) (b.scan t)
  pub descend_from :
      (t : Tree) (x : A) → b.descend t x ≡ backward (keep (λ y. not (less cmp x y)) (b.scan t))
  pub len_counts : (t : Tree) → b.len t ≡ length (b.scan t)
  pub get_finds : (t : Tree) (x : A) → b.get t x ≡ head? (keep (alike cmp x) (b.scan t))
  -- What Set returns beside the tree is the item that it replaces.
  pub replaced_finds : (t : Tree) (x : A) → b.replaced t x ≡ b.get t x
  -- Set puts the item where the order wants it, in the place of one that is alike.
  pub set_inserts :
      (t : Tree) (x : A)
      → b.scan (b.set t x)
        ≡ keep (λ y. less cmp y x) (b.scan t) ++ x ∷ keep (λ y. less cmp x y) (b.scan t)
  pub delete_finds : (t : Tree) (x : A) → (b.delete t x).0 ≡ b.get t x
  pub delete_erases :
      (t : Tree) (x : A) → b.scan (b.delete t x).1 ≡ keep (λ y. not (alike cmp x y)) (b.scan t)
  pub min_first : (t : Tree) → b.min t ≡ head? (b.scan t)
  pub max_last : (t : Tree) → b.max t ≡ last? (b.scan t)
  pub get_at_index : (t : Tree) (i : ℕ) → b.get_at t i ≡ get_elem? (b.scan t) i
  pub clear_empties : (t : Tree) → b.scan (b.clear t) ≡ []
  pub copy_keeps : (t : Tree) → b.scan (b.copy t) ≡ b.scan t
