-- ===== src/HashSet/Change.antt =====
-- Add, Remove, Pop and the methods that change a set by many elements at once.
use go_collections.Prelude.{◌+◌, ◌≤◌, ◌≡◌, not, ◌&&◌, ◌||◌, List, [], ◌∷◌, length, arith}
use go_collections.HashSet.{
  Comparable, HashSet, has, assign, delete, assign_each, delete_each, size, add, add_all, remove,
  remove_all, contains,
}
use go_collections.HashSet.Keys.{has-assign, has-delete, has-assign_each, has-delete_each}
use go_collections.HashSet.Distinct.{
  Distinct, assign-Distinct, delete-Distinct, assign_each-Distinct, delete_each-Distinct,
  length-assign, length-delete,
}

module _ {ℓ} {A : Type ℓ} ⦃c : Comparable A⦄ where
  abbrev pub IsValid : HashSet A → Type 0
  IsValid s = Distinct s.keys

  -- Add reports whether the element was missing, keeps the set valid, and adds it and no other.
  pub add_correct :
      (s : HashSet A) (x : A)
      → IsValid s
      → ((add s x).0 ≡ not (contains s x))
        × IsValid (add s x).1
        × ((y : A) → contains (add s x).1 y ≡ contains s y || c.equal x y)
  unfolding add contains
  add_correct s x v =
      (rw (length-assign s.keys x) (ground arith), assign-Distinct s.keys x v, has-assign s.keys x)

  -- Remove reports whether the element was there, keeps the set valid, and takes it out and no
  -- other.
  pub remove_correct :
      (s : HashSet A) (x : A)
      → IsValid s
      → ((remove s x).0 ≡ contains s x)
        × IsValid (remove s x).1
        × ((y : A) → contains (remove s x).1 y ≡ contains s y && not (c.equal x y))
  unfolding remove contains
  remove_correct s x v =
      let shorter = length-delete s.keys x v in
      (ground arith, delete-Distinct s.keys x v, has-delete s.keys x)

  assign_each-longer : (m xs : List A) → length m ≤ length (assign_each m xs)
  unfolding assign_each
  assign_each-longer m [] = omega arith
  assign_each-longer m (x ∷ xs) =
      let one : length m ≤ length (assign m x) = rw (length-assign m x) (ground arith) in
      let others = assign_each-longer (assign m x) xs in omega arith

  delete_each-shorter : (m xs : List A) → Distinct m → length (delete_each m xs) ≤ length m
  unfolding delete_each
  delete_each-shorter m [] d = omega arith
  delete_each-shorter m (x ∷ xs) d =
      let step = length-delete m x d in
      let one : length (delete m x) ≤ length m = ground arith in
      let others = delete_each-shorter (delete m x) xs (delete-Distinct m x d) in omega arith

  -- AddAll keeps the set valid, adds the given elements and no other, and returns by how much the
  -- size has grown.
  pub add_all_correct :
      (s : HashSet A) (xs : List A)
      → IsValid s
      → IsValid (add_all s xs).1
        × ((y : A) → contains (add_all s xs).1 y ≡ contains s y || has y xs)
        × (size (add_all s xs).1 ≡ size s + (add_all s xs).0)
  unfolding add_all contains size
  add_all_correct s xs v =
      let longer = assign_each-longer s.keys xs in
      (assign_each-Distinct s.keys xs v, has-assign_each s.keys xs, omega arith)

  -- RemoveAll keeps the set valid, takes out the given elements and no other, and returns by how
  -- much the size has shrunk.
  pub remove_all_correct :
      (s : HashSet A) (xs : List A)
      → IsValid s
      → IsValid (remove_all s xs).1
        × ((y : A) → contains (remove_all s xs).1 y ≡ contains s y && not (has y xs))
        × (size s ≡ size (remove_all s xs).1 + (remove_all s xs).0)
  unfolding remove_all contains size
  remove_all_correct s xs v =
      let shorter = delete_each-shorter s.keys xs v in
      (delete_each-Distinct s.keys xs v, has-delete_each s.keys xs, omega arith)
