-- ===== src/TreeMap.antt =====
-- treemap.go: a sorted map in a B-tree of entries, which are compared by their keys.
-- The B-tree's calls are a parameter, as for the tree set. A call that returns `(value, ok)` returns
-- an option: `none` for `(zero, false)`.
pub mod Lookup
pub mod Change
pub mod Conditional
pub mod Update
pub mod Navigate
mod Examples
use go_collections.Prelude.{
  ℕ, ◌+◌, ◌≡◌, Bool, true, false, ◌&&◌, Option, none, some, List, [], ◌∷◌, ◌++◌, length, ◌==◌,
  if◌then◌else◌,
}
use go_collections.Prelude.Slice.{Zero}
use go_collections.Comparator.{Comparator, Equaler}
use go_collections.BTree.{BTree, is_some}

pub record MapEntry {ℓ} (K V : Type ℓ) : Type ℓ where
  pub key : K
  pub value : V

-- The comparison that newTreeMap gives to the B-tree.
abbrev pub by_key {ℓ} : {K V : Type ℓ} → Comparator K → Comparator (MapEntry K V)
by_key cmp a b = cmp a.key b.key

-- The value of an entry that a call has returned.
abbrev pub value_of {ℓ} : {K V : Type ℓ} → Option (MapEntry K V) → Option V
value_of none = none
value_of (some me) = some me.value

pub record TreeMap {ℓ} (Tree : Type ℓ) : Type ℓ where
  pub bt : Tree

module _ {ℓ} {Tree K V : Type ℓ} (b : BTree Tree (MapEntry K V)) where
  -- newTreeMap, where the comparator is not nil
  unfoldable pub new : TreeMap Tree
  new = record { bt = b.new_btree }

  pub size : TreeMap Tree → ℕ
  size t = b.len t.bt

  pub is_empty : TreeMap Tree → Bool
  is_empty t = b.len t.bt == 0

  pub clear : TreeMap Tree → TreeMap Tree
  clear t = record { bt = b.clear t.bt }

  pub put : TreeMap Tree → K → V → Option V × TreeMap Tree
  put t key value =
      let entry : MapEntry K V = record { key = key; value = value } in
      (value_of (b.replaced t.bt entry), record { bt = b.set t.bt entry })

  -- The loops of PutAll and NewTreeMapFrom.
  pub set_each : Tree → List (MapEntry K V) → Tree
  set_each bt [] = bt
  set_each bt (me ∷ entries) = set_each (b.set bt me) entries

  pub put_all : TreeMap Tree → List (MapEntry K V) → TreeMap Tree
  put_all t entries = record { bt = set_each t.bt entries }

  pub entries : TreeMap Tree → List (MapEntry K V)
  entries t = b.scan t.bt

  module _ ⦃z : Zero V⦄ where
    -- `mapEntry[K, V]{key: key}`
    abbrev pub key_entry : K → MapEntry K V
    key_entry key = record { key = key; value = z.zero_value }

    pub get : TreeMap Tree → K → Option V
    get t key = value_of (b.get t.bt (key_entry key))

    pub get_or_default : TreeMap Tree → K → V → V
    get_or_default t key default_value = elim (b.get t.bt (key_entry key)) [
      | none ↦ default_value
      | some me ↦ me.value
    ]

    pub contains_key : TreeMap Tree → K → Bool
    contains_key t key = is_some (b.get t.bt (key_entry key))

    pub put_if_absent : TreeMap Tree → K → V → V × Bool × TreeMap Tree
    put_if_absent t key value = elim (b.get t.bt (key_entry key)) [
      | none ↦ (value, true, record { bt = b.set t.bt record { key = key; value = value } })
      | some me ↦ (me.value, false, t)
    ]

    pub remove : TreeMap Tree → K → Option V × TreeMap Tree
    remove t key =
        let (prev, bt) = b.delete t.bt (key_entry key) in (value_of prev, record { bt = bt })

    pub remove_if : TreeMap Tree → K → V → Equaler V → Bool × TreeMap Tree
    remove_if t key value eq = elim (b.get t.bt (key_entry key)) [
      | none ↦ (false, t)
      | some me ↦
          if eq me.value value then (true, record { bt = (b.delete t.bt me).1 }) else (false, t)
    ]

    -- RemoveAll and RemoveSeq, with the count so far
    pub remove_each : Tree → ℕ → List K → ℕ × Tree
    remove_each bt removed [] = (removed, bt)
    remove_each bt removed (k ∷ ks) =
        let (stored, bt') = b.delete bt (key_entry k) in
        remove_each bt' (if is_some stored then removed + 1 else removed) ks

    pub remove_all : TreeMap Tree → List K → ℕ × TreeMap Tree
    remove_all t keys = let (removed, bt) = remove_each t.bt 0 keys in (removed, record { bt = bt })

    -- `remapping` takes the old value, or the zero value and false.
    pub compute : TreeMap Tree → K → (K → V → Bool → V × Bool) → Option V × TreeMap Tree
    compute t key remapping = elim (b.get t.bt (key_entry key)) [
      | none ↦
          let (new_val, keep) = remapping key z.zero_value false in
          if keep
          then (some new_val, record { bt = b.set t.bt record { key = key; value = new_val } })
          else (none, t)
      | some me ↦
          let (new_val, keep) = remapping key me.value true in
          if keep
          then (some new_val, record { bt = b.set t.bt record { key = key; value = new_val } })
          else (none, record { bt = (b.delete t.bt me).1 })
    ]

    pub compute_if_absent : TreeMap Tree → K → (K → V) → V × TreeMap Tree
    compute_if_absent t key mapping = elim (b.get t.bt (key_entry key)) [
      | none ↦
          let v = mapping key in (v, record { bt = b.set t.bt record { key = key; value = v } })
      | some me ↦ (me.value, t)
    ]

    pub compute_if_present : TreeMap Tree → K → (K → V → V × Bool) → Option V × TreeMap Tree
    compute_if_present t key remapping = elim (b.get t.bt (key_entry key)) [
      | none ↦ (none, t)
      | some me ↦
          let (new_val, keep) = remapping key me.value in
          if keep
          then (some new_val, record { bt = b.set t.bt record { key = key; value = new_val } })
          else (none, record { bt = (b.delete t.bt me).1 })
    ]

    pub merge : TreeMap Tree → K → V → (V → V → V × Bool) → Option V × TreeMap Tree
    merge t key value remapping = elim (b.get t.bt (key_entry key)) [
      | none ↦ (some value, record { bt = b.set t.bt record { key = key; value = value } })
      | some me ↦
          let (merged, keep) = remapping me.value value in
          if keep
          then (some merged, record { bt = b.set t.bt record { key = key; value = merged } })
          else (none, record { bt = (b.delete t.bt me).1 })
    ]

    pub replace : TreeMap Tree → K → V → Option V × TreeMap Tree
    replace t key value = elim (b.get t.bt (key_entry key)) [
      | none ↦ (none, t)
      | some me ↦ (some me.value, record { bt = b.set t.bt record { key = key; value = value } })
    ]

    pub replace_if : TreeMap Tree → K → V → V → Equaler V → Bool × TreeMap Tree
    replace_if t key old_value new_value eq = elim (b.get t.bt (key_entry key)) [
      | none ↦ (false, t)
      | some me ↦
          if eq me.value old_value
          then (true, record { bt = b.set t.bt record { key = key; value = new_value } })
          else (false, t)
    ]
