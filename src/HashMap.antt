-- ===== src/HashMap.antt =====
-- hashmap.go: a map in a built-in map.
-- A method that changes the map returns the new map. The entries are a list with each key once; a
-- `range` visits them in an order of the runtime's, which is a parameter.
pub mod Entries
pub mod Refine
mod Examples
use go_collections.Prelude.{
  ℕ, zero, suc, ◌+◌, ◌≡◌, Bool, true, false, not, ◌&&◌, ◌||◌, Option, none, some, List, [], ◌∷◌,
  ◌++◌, Perm, length, ◌==◌, if◌then◌else◌,
}
use go_collections.Prelude.Slice.{Zero}
use go_collections.Comparator.{Equaler}
use go_collections.HashSet.{Comparable, has, MapOrder}

pub record HashMap {ℓ} (K V : Type ℓ) : Type ℓ where
  pub entries : List (K × V)

module _ {ℓ} {K V : Type ℓ} ⦃c : Comparable K⦄ where
  -- `m[key]`, where the key is there
  unfoldable pub lookup : K → List (K × V) → Option V
  lookup key [] = none
  lookup key (e ∷ es) = if c.equal e.0 key then some e.1 else lookup key es

  -- `m[key] = value`
  pub write : List (K × V) → K → V → List (K × V)
  write [] key value = (key, value) ∷ []
  write (e ∷ es) key value =
      let rest = write es key value in if c.equal e.0 key then (e.0, value) ∷ es else e ∷ rest

  -- `delete(m, key)`
  pub delete : List (K × V) → K → List (K × V)
  delete [] key = []
  delete (e ∷ es) key = if c.equal e.0 key then delete es key else e ∷ delete es key

  -- NewHashMap, and NewHashMapWithCapacity but for the capacity
  pub new : HashMap K V
  new = record { entries = [] }

  pub size : HashMap K V → ℕ
  size h = length h.entries

  pub is_empty : HashMap K V → Bool
  is_empty h = length h.entries == 0

  pub clear : HashMap K V → HashMap K V
  clear h = record { entries = [] }

  pub put_if_absent : HashMap K V → K → V → V × Bool × HashMap K V
  put_if_absent h key value = elim (lookup key h.entries) [
    | some old ↦ (old, false, h)
    | none ↦ (value, true, record { entries = write h.entries key value })
  ]

  -- maps.Insert and maps.Copy, which PutAll and NewHashMapFrom call.
  pub write_each : List (K × V) → List (K × V) → List (K × V)
  write_each m [] = m
  write_each m (e ∷ es) = write_each (write m e.0 e.1) es

  pub new_from : List (K × V) → HashMap K V
  new_from src = record { entries = write_each [] src }

  pub put_all : HashMap K V → List (K × V) → HashMap K V
  put_all h other = record { entries = write_each h.entries other }

  -- The loop of PutSeq, with the keys seen and the count so far.
  pub put_each : HashMap K V → List K → ℕ → List (K × V) → ℕ × HashMap K V
  put_each h seen changed [] = (changed, h)
  put_each h seen changed (e ∷ es) =
      let h' : HashMap K V = record { entries = write h.entries e.0 e.1 } in
      if not (has e.0 seen)
      then put_each h' (e.0 ∷ seen) (changed + 1) es
      else put_each h' seen changed es

  pub put_seq : HashMap K V → List (K × V) → ℕ × HashMap K V
  put_seq h seq = put_each h [] 0 seq

  pub get_or_default : HashMap K V → K → V → V
  get_or_default h key default_value = elim (lookup key h.entries) [
    | some v ↦ v
    | none ↦ default_value
  ]

  pub remove_if : HashMap K V → K → V → Equaler V → Bool × HashMap K V
  remove_if h key value eq = elim (lookup key h.entries) [
    | some old ↦
        if eq old value then (true, record { entries = delete h.entries key }) else (false, h)
    | none ↦ (false, h)
  ]

  pub contains_key : HashMap K V → K → Bool
  contains_key h key = elim (lookup key h.entries) [ some v ↦ true | none ↦ false ]

  -- The loop of RemoveAll and RemoveSeq.
  pub delete_each : HashMap K V → ℕ → List K → ℕ × HashMap K V
  delete_each h removed [] = (removed, h)
  delete_each h removed (k ∷ ks) =
      let next = if contains_key h k then removed + 1 else removed in
      let h' : HashMap K V = record { entries = delete h.entries k } in
      delete_each (if contains_key h k then h' else h) next ks

  pub remove_all : HashMap K V → List K → ℕ × HashMap K V
  remove_all h keys = delete_each h 0 keys

  pub compute_if_absent : HashMap K V → K → (K → V) → V × HashMap K V
  compute_if_absent h key mapping = elim (lookup key h.entries) [
    | some v ↦ (v, h)
    | none ↦ let v = mapping key in (v, record { entries = write h.entries key v })
  ]

  pub replace_if : HashMap K V → K → V → V → Equaler V → Bool × HashMap K V
  replace_if h key old_value new_value eq = elim (lookup key h.entries) [
    | some old ↦
        if eq old old_value
        then (true, record { entries = write h.entries key new_value })
        else (false, h)
    | none ↦ (false, h)
  ]

  pub clone : HashMap K V → HashMap K V
  clone h = record { entries = h.entries }

  module _ ⦃z : Zero V⦄ where
    -- `v, ok := m[key]`
    pub get : HashMap K V → K → V × Bool
    get h key = elim (lookup key h.entries) [ some v ↦ (v, true) | none ↦ (z.zero_value, false) ]

    pub put : HashMap K V → K → V → V × Bool × HashMap K V
    put h key value =
        let (old, ok) = get h key in (old, ok, record { entries = write h.entries key value })

    pub remove : HashMap K V → K → V × Bool × HashMap K V
    remove h key =
        let (old, ok) = get h key in
        (old, ok, if ok then record { entries = delete h.entries key } else h)

    pub compute : HashMap K V → K → (K → V → Bool → V × Bool) → V × Bool × HashMap K V
    compute h key remapping =
        let (old, exists) = get h key in
        let (new_val, keep) = remapping key old exists in
        let without : HashMap K V =
          if exists then record { entries = delete h.entries key } else h in
        if not keep
        then (z.zero_value, false, without)
        else (new_val, true, record { entries = write h.entries key new_val })

    -- What ComputeIfPresent and Merge do with the outcome for a key that is there.
    pub settle : HashMap K V → K → V → Bool → V × Bool × HashMap K V
    settle h key new_val keep =
        if not keep
        then (z.zero_value, false, record { entries = delete h.entries key })
        else (new_val, true, record { entries = write h.entries key new_val })

    pub compute_if_present : HashMap K V → K → (K → V → V × Bool) → V × Bool × HashMap K V
    compute_if_present h key remapping = elim (lookup key h.entries) [
      | some old ↦ let r = remapping key old in settle h key r.0 r.1
      | none ↦ (z.zero_value, false, h)
    ]

    pub merge : HashMap K V → K → V → (V → V → V × Bool) → V × Bool × HashMap K V
    merge h key value remapping = elim (lookup key h.entries) [
      | some old ↦ let r = remapping old value in settle h key r.0 r.1
      | none ↦ (value, true, record { entries = write h.entries key value })
    ]

    pub replace : HashMap K V → K → V → V × Bool × HashMap K V
    replace h key value = elim (lookup key h.entries) [
      | some old ↦ (old, true, record { entries = write h.entries key value })
      | none ↦ (z.zero_value, false, h)
    ]
