-- ===== src/TreeMap/Conditional.antt =====
-- Replace, ReplaceIf and RemoveIf, by what Get shows after them at every key.
use go_collections.Prelude.{
  ◌≡◌, refl, Bool, false, Bool-cases, inl, inr, Option, none, some, if◌then◌else◌,
}
use go_collections.Prelude.Slice.{Zero}
use go_collections.Comparator.{Comparator, Equaler, IsComparator}
use go_collections.BTree.{BTree, IsBTree}
use go_collections.TreeMap.{
  MapEntry, TreeMap, by_key, key_entry, get, remove_if, replace, replace_if,
}
use go_collections.TreeMap.Change.{
  write_at, get-set, get-delete, absent, present, kept_absent, stored-alike,
}

-- The value is there and equal to the given one.
abbrev pub matches {ℓ} : {V : Type ℓ} → Equaler V → V → Option V → Bool
matches eq value none = false
matches eq value (some v) = eq v value

-- The value in the place of one that is there.
abbrev pub instead {ℓ} : {V : Type ℓ} → V → Option V → Option V
instead value none = none
instead value (some v) = some value

-- What the three calls return, and what Get shows at `q` after each.
abbrev pub Conditional {ℓ} :
    {Tree K V : Type ℓ} (cmp : Comparator K) (b : BTree Tree (MapEntry K V)) ⦃z : Zero V⦄
    → TreeMap Tree
    → K
    → V
    → V
    → Equaler V
    → K
    → Type ℓ
Conditional cmp b t k v w eq q =
    ((replace b t k v).0 ≡ get b t k)
    × (get b (replace b t k v).1 q ≡ write_at cmp k (instead v (get b t k)) (get b t) q)
    × ((replace_if b t k w v eq).0 ≡ matches eq w (get b t k))
    × (get b (replace_if b t k w v eq).1 q
        ≡ (if matches eq w (get b t k) then write_at cmp k (some v) (get b t) q else get b t q))
    × ((remove_if b t k w eq).0 ≡ matches eq w (get b t k))
    × (get b (remove_if b t k w eq).1 q
        ≡ (if matches eq w (get b t k) then write_at cmp k none (get b t) q else get b t q))

module _ {ℓ} {Tree K V : Type ℓ} {cmp : Comparator K} {b : BTree Tree (MapEntry K V)}
    (law : IsComparator cmp) (tree : IsBTree (by_key cmp) b) ⦃z : Zero V⦄ where
  found-Conditional :
      (t : TreeMap Tree) (k : K) (v w : V) (eq : Equaler V) (q : K) (o : Option (MapEntry K V))
      → b.get t.bt (key_entry b k) ≡ o
      → Conditional cmp b t k v w eq q
  unfolding replace replace_if remove_if
  found-Conditional t k v w eq q none e =
      let gone = absent law tree t k e in
      rw (gone, replace, replace_if, remove_if, e)
        (refl, kept_absent law tree t k q e, refl, refl, refl, refl)
  found-Conditional t k v w eq q (some me) e =
      let here = present law tree t k me e in
      elim (Bool-cases (eq me.value w)) [
        | inl h ↦
            rw (here, replace, replace_if, remove_if, e, h)
              (
                refl,
                get-set law tree t.bt k v q,
                refl,
                get-set law tree t.bt k v q,
                refl,
                get-delete law tree t.bt k me q (stored-alike law tree t k me e),
              )
        | inr h ↦
            rw (here, replace, replace_if, remove_if, e, h)
              (refl, get-set law tree t.bt k v q, refl, refl, refl, refl)
      ]

  -- Replace returns what Get showed at the key, and writes where there was a value; ReplaceIf writes
  -- and RemoveIf deletes exactly where the value there is equal to the given one, which they report.
  -- Get shows the change at each key like the given one, and what it showed before at each other.
  pub replace-remove_if-get :
      (t : TreeMap Tree) (k : K) (v w : V) (eq : Equaler V) (q : K) → Conditional cmp b t k v w eq q
  replace-remove_if-get t k v w eq q =
      found-Conditional t k v w eq q (b.get t.bt (key_entry b k)) refl
