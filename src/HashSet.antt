-- ===== src/HashSet.antt =====
-- hashset.go: a set in the keys of a built-in map.
-- A method that changes the set returns the new set. The keys are a list without repetitions. A
-- `range` visits them in an order of the runtime's, which is a parameter.
pub mod Keys
pub mod Distinct
pub mod Change
pub mod Remove
pub mod Algebra
pub mod Order
mod Examples
use go_collections.Prelude.{
  ℕ, zero, suc, ◌+◌, ◌-◌, ◌≡◌, Bool, true, false, not, ◌&&◌, ◌||◌, List, [], ◌∷◌, ◌++◌, Perm,
  length, ltb, ◌==◌, if◌then◌else◌,
}
use go_collections.Prelude.Slice.{Zero}

-- A comparable type with its `==`. The laws leave out floats: NaN is not equal to itself, and the two
-- zeros are equal and not the same.
pub record Comparable {ℓ} (A : Type ℓ) : Type ℓ where
  pub equal : A → A → Bool
  pub equal_refl : (a : A) → equal a a ≡ true
  pub equal_sound : (a b : A) → equal a b ≡ true → a ≡ b

-- The order in which the runtime visits the keys of a map: any order, each key once.
pub record MapOrder {ℓ} (A : Type ℓ) : Type ℓ where
  pub visit : List A → List A
  pub visit_perm : (keys : List A) → Perm (visit keys) keys

-- What the methods call of another set.
pub record OtherSet {ℓ} (A : Type ℓ) : Type ℓ where
  pub size : ℕ
  pub seq : List A
  pub contains : A → Bool

pub record HashSet {ℓ} (A : Type ℓ) : Type ℓ where
  pub keys : List A

module _ {ℓ} {A : Type ℓ} ⦃c : Comparable A⦄ where
  -- `_, ok := m[e]`
  unfoldable pub has : A → List A → Bool
  has e [] = false
  has e (k ∷ ks) = c.equal k e || has e ks

  -- `m[e] = struct{}{}`
  pub assign : List A → A → List A
  assign m e = if has e m then m else m ++ e ∷ []

  -- `delete(m, e)`
  pub delete : List A → A → List A
  delete [] e = []
  delete (k ∷ ks) e = if c.equal k e then delete ks e else k ∷ delete ks e

  -- The loop of NewHashSetFrom, AddAll and AddSeq.
  pub assign_each : List A → List A → List A
  assign_each m [] = m
  assign_each m (e ∷ es) = assign_each (assign m e) es

  -- The loop of RemoveAll and RemoveSeq.
  pub delete_each : List A → List A → List A
  delete_each m [] = m
  delete_each m (e ∷ es) = delete_each (delete m e) es

  -- NewHashSet, and NewHashSetWithCapacity but for the capacity
  pub new : HashSet A
  new = record { keys = [] }

  pub new_from : List A → HashSet A
  new_from elements = record { keys = assign_each [] elements }

  pub size : HashSet A → ℕ
  size s = length s.keys

  pub is_empty : HashSet A → Bool
  is_empty s = length s.keys == 0

  pub clear : HashSet A → HashSet A
  clear s = record { keys = [] }

  pub add : HashSet A → A → Bool × HashSet A
  add s element =
      let m = assign s.keys element in (ltb (length s.keys) (length m), record { keys = m })

  pub add_all : HashSet A → List A → ℕ × HashSet A
  add_all s elements =
      let m = assign_each s.keys elements in (length m - length s.keys, record { keys = m })

  pub remove : HashSet A → A → Bool × HashSet A
  remove s element =
      let m = delete s.keys element in (ltb (length m) (length s.keys), record { keys = m })

  pub remove_all : HashSet A → List A → ℕ × HashSet A
  remove_all s elements =
      let m = delete_each s.keys elements in (length s.keys - length m, record { keys = m })

  pub contains : HashSet A → A → Bool
  contains s element = has element s.keys

  pub contains_all : HashSet A → List A → Bool
  contains_all s [] = true
  contains_all s (e ∷ es) = if not (has e s.keys) then false else contains_all s es

  pub contains_any : HashSet A → List A → Bool
  contains_any s [] = false
  contains_any s (e ∷ es) = if has e s.keys then true else contains_any s es

  -- The loop of RemoveFunc, with the keys still to visit and the count so far.
  pub remove_where : (A → Bool) → List A → ℕ → List A → ℕ × List A
  remove_where predicate m removed [] = (removed, m)
  remove_where predicate m removed (v ∷ vs) =
      let m' = if predicate v then delete m v else m in
      let n = if predicate v then removed + 1 else removed in remove_where predicate m' n vs

  -- `for v := range ... { if test(v) { out.Add(v) } }`
  pub add_where : (A → Bool) → HashSet A → List A → HashSet A
  add_where test out [] = out
  add_where test out (v ∷ vs) = add_where test (if test v then (add out v).1 else out) vs

  -- `for v := range ... { if !test(v) { return false } }; return true`
  pub all_pass : (A → Bool) → List A → Bool
  all_pass test [] = true
  all_pass test (v ∷ vs) = if not (test v) then false else all_pass test vs

  -- `for v := range ... { if test(v) { return true } }; return false`
  pub any_pass : (A → Bool) → List A → Bool
  any_pass test [] = false
  any_pass test (v ∷ vs) = if test v then true else any_pass test vs

  -- A hash set, as other sets call it.
  abbrev pub view : HashSet A → OtherSet A
  view s = record { size = length s.keys; seq = s.keys; contains = λ e. contains s e }

  pub union : HashSet A → OtherSet A → HashSet A
  union s other = record { keys = assign_each s.keys other.seq }

  module _ (rt : MapOrder A) where
    pub remove_func : HashSet A → (A → Bool) → ℕ × HashSet A
    remove_func s predicate =
        let r = remove_where predicate s.keys 0 (rt.visit s.keys) in (r.0, record { keys = r.1 })

    pub retain_func : HashSet A → (A → Bool) → ℕ × HashSet A
    retain_func s predicate = remove_func s (λ element. not (predicate element))

    -- ToSlice and Seq
    pub to_slice : HashSet A → List A
    to_slice s = rt.visit s.keys

    pub intersection : HashSet A → OtherSet A → HashSet A
    intersection s other = add_where other.contains new (rt.visit s.keys)

    pub difference : HashSet A → OtherSet A → HashSet A
    difference s other = add_where (λ v. not (other.contains v)) new (rt.visit s.keys)

    pub symmetric_difference : HashSet A → OtherSet A → HashSet A
    symmetric_difference s other =
        let out = add_where (λ v. not (other.contains v)) new (rt.visit s.keys) in
        add_where (λ v. not (has v s.keys)) out other.seq

    pub filter : HashSet A → (A → Bool) → HashSet A
    filter s predicate = add_where predicate new (rt.visit s.keys)

    pub is_subset_of : HashSet A → OtherSet A → Bool
    is_subset_of s other = all_pass other.contains (rt.visit s.keys)

    -- IsSupersetOf, where the other set is a hash set too
    pub is_superset_of : HashSet A → HashSet A → Bool
    is_superset_of s other = is_subset_of other (view s)

    pub is_proper_subset_of : HashSet A → OtherSet A → Bool
    is_proper_subset_of s other = ltb (size s) other.size && is_subset_of s other

    pub is_disjoint : HashSet A → OtherSet A → Bool
    is_disjoint s other = all_pass (λ v. not (other.contains v)) (rt.visit s.keys)

    pub equals : HashSet A → OtherSet A → Bool
    equals s other =
        if not (size s == other.size) then false else all_pass other.contains (rt.visit s.keys)

    pub any : HashSet A → (A → Bool) → Bool
    any s predicate = any_pass predicate (rt.visit s.keys)

    pub every : HashSet A → (A → Bool) → Bool
    every s predicate = all_pass predicate (rt.visit s.keys)

    module _ ⦃z : Zero A⦄ where
      -- The loop of Pop, which ends in its first round.
      pub pop_visited : HashSet A → List A → A × Bool × HashSet A
      pop_visited s [] = (z.zero_value, false, s)
      pop_visited s (v ∷ vs) = (v, true, record { keys = delete s.keys v })

      pub pop : HashSet A → A × Bool × HashSet A
      pop s = pop_visited s (rt.visit s.keys)

  pub clone : HashSet A → HashSet A
  clone s = record { keys = s.keys }
