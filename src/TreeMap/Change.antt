-- ===== src/TreeMap/Change.antt =====
-- Put and Remove, by what Get shows after them at every key.
use go_collections.Prelude.{
  ◌≡◌, refl, sym, ap, ◌∙◌, true, Bool-cases, inl, inr, Option, none, some, if◌then◌else◌,
}
use go_collections.Prelude.Slice.{Zero}
use go_collections.Comparator.{Comparator, IsComparator}
use go_collections.BTree.{alike, BTree, IsBTree}
use go_collections.BTree.Ascending.{alike-alike, alike_refl}
use go_collections.BTree.Parts.{alike_comm}
use go_collections.TreeMap.{MapEntry, TreeMap, by_key, value_of, key_entry, put, get, remove}
use go_collections.TreeMap.Lookup.{
  get-set_alike, get-set_other, get-delete_alike, get-delete_other, get-alike, get_alike_keys,
}

-- The map with `new` at the keys like `k`.
abbrev pub write_at {ℓ} :
    {K V : Type ℓ} → Comparator K → K → Option V → (K → Option V) → K → Option V
write_at cmp k new f q = if alike cmp q k then new else f q

pub by_key-IsComparator {ℓ} :
    (K V : Type ℓ) (cmp : Comparator K) → IsComparator cmp → IsComparator (by_key {V = V} cmp)
by_key-IsComparator K V cmp law = record {
  flip = λ x y. law.flip x.key y.key;
  trans = λ x y w. law.trans x.key y.key w.key;
}

module _ {ℓ} {Tree K V : Type ℓ} {cmp : Comparator K} {b : BTree Tree (MapEntry K V)}
    (law : IsComparator cmp) (tree : IsBTree (by_key cmp) b) ⦃z : Zero V⦄ where
  order : IsComparator (by_key {V = V} cmp)
  order = by_key-IsComparator K V cmp law

  pub get-set :
      (bt : Tree) (k : K) (v : V) (q : K)
      → get b (record { bt = b.set bt record { key = k; value = v } }) q
        ≡ write_at cmp k (some v) (get b (record { bt = bt })) q
  unfolding get
  get-set bt k v q =
      let e : MapEntry K V = record { key = k; value = v } in
      elim (Bool-cases (alike cmp q k)) [
        | inl h ↦ rw h (ap value_of (get-set_alike order tree bt e (key_entry b q) h))
        | inr h ↦ rw h (ap value_of (get-set_other order tree bt e (key_entry b q) h))
      ]

  pub get-delete :
      (bt : Tree) (k : K) (e : MapEntry K V) (q : K)
      → alike cmp k e.key ≡ true
      → get b (record { bt = (b.delete bt e).1 }) q
        ≡ write_at cmp k none (get b (record { bt = bt })) q
  unfolding get
  get-delete bt k e q same =
      let keys : alike cmp q k ≡ alike cmp q e.key =
        alike_comm law q k ∙ alike-alike law k e.key q same ∙ alike_comm law e.key q in
      elim (Bool-cases (alike cmp q k)) [
        | inl h ↦
            rw h (ap value_of (get-delete_alike order tree bt e (key_entry b q) (sym keys ∙ h)))
        | inr h ↦
            rw h (ap value_of (get-delete_other order tree bt e (key_entry b q) (sym keys ∙ h)))
      ]

  pub get-same :
      (t : TreeMap Tree) (k : K) (q : K) → get b t q ≡ write_at cmp k (get b t k) (get b t) q
  unfolding get
  get-same t k q = elim (Bool-cases (alike cmp q k)) [
    | inl h ↦ rw h (ap value_of (get_alike_keys order tree t.bt (key_entry b q) (key_entry b k) h))
    | inr h ↦ rw h refl
  ]

  pub absent : (t : TreeMap Tree) (k : K) → b.get t.bt (key_entry b k) ≡ none → get b t k ≡ none
  unfolding get
  absent t k e = ap value_of e

  pub present :
      (t : TreeMap Tree) (k : K) (me : MapEntry K V)
      → b.get t.bt (key_entry b k) ≡ some me
      → get b t k ≡ some me.value
  unfolding get
  present t k me e = ap value_of e

  pub kept_absent :
      (t : TreeMap Tree) (k : K) (q : K)
      → b.get t.bt (key_entry b k) ≡ none
      → get b t q ≡ write_at cmp k none (get b t) q
  kept_absent t k q e = get-same t k q ∙ ap (λ o. write_at cmp k o (get b t) q) (absent t k e)

  pub stored-alike :
      (t : TreeMap Tree) (k : K) (me : MapEntry K V)
      → b.get t.bt (key_entry b k) ≡ some me
      → alike cmp k me.key ≡ true
  stored-alike t k me e = get-alike order tree t.bt (key_entry b k) me e

  -- Put returns what Get showed at the key, and Remove too; then Get shows the new value, or nothing,
  -- at each key like the given one, and what it showed before at each other key.
  pub put-remove-get :
      (t : TreeMap Tree) (k : K) (v : V) (q : K)
      → ((put b t k v).0 ≡ get b t k)
        × (get b (put b t k v).1 q ≡ write_at cmp k (some v) (get b t) q)
        × ((remove b t k).0 ≡ get b t k)
        × (get b (remove b t k).1 q ≡ write_at cmp k none (get b t) q)
  unfolding put remove get
  put-remove-get t k v q = (
    ap value_of (
        tree.replaced_finds t.bt record { key = k; value = v }
        ∙ get_alike_keys order tree t.bt record { key = k; value = v } (key_entry b k)
            (alike_refl law k)),
    get-set t.bt k v q,
    ap value_of (tree.delete_finds t.bt (key_entry b k)),
    get-delete t.bt k (key_entry b k) q (alike_refl law k),
  )
