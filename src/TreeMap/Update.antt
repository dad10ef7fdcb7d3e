-- ===== src/TreeMap/Update.antt =====
-- Compute, ComputeIfPresent, ComputeIfAbsent, Merge and PutIfAbsent, by the value at the key before
-- them.
use go_collections.Prelude.{
  ◌≡◌, refl, ap, ◌∙◌, Bool, true, false, Bool-cases, inl, inr, Option, none, some, if◌then◌else◌,
}
use go_collections.Prelude.Slice.{Zero}
use go_collections.Comparator.{Comparator, IsComparator}
use go_collections.BTree.{BTree, IsBTree}
use go_collections.TreeMap.{
  MapEntry, TreeMap, by_key, key_entry, get, put_if_absent, compute, compute_if_absent,
  compute_if_present, merge,
}
use go_collections.TreeMap.Change.{
  write_at, get-set, get-delete, get-same, absent, present, kept_absent, stored-alike,
}

-- The value of a remapping function that asks to keep it.
abbrev pub kept {ℓ} : {V : Type ℓ} → V × Bool → Option V
kept r = if r.1 then some r.0 else none

-- Compute: the function of the value there, or of Go's zero value.
abbrev pub computed {ℓ} : {V : Type ℓ} → V → (V → Bool → V × Bool) → Option V → Option V
computed zero_value f none = kept (f zero_value false)
computed zero_value f (some v) = kept (f v true)

-- ComputeIfPresent: the function of the value there.
abbrev pub computed_present {ℓ} : {V : Type ℓ} → (V → V × Bool) → Option V → Option V
computed_present f none = none
computed_present f (some v) = kept (f v)

-- Merge: the given value, or the function of the value there.
abbrev pub merged {ℓ} : {V : Type ℓ} → V → (V → V × Bool) → Option V → Option V
merged value f none = some value
merged value f (some old) = kept (f old)

-- PutIfAbsent and ComputeIfAbsent: the value there, or else the new one.
abbrev pub filled {ℓ} : {V : Type ℓ} → V → Option V → V
filled value none = value
filled value (some old) = old

abbrev pub missing {ℓ} : {V : Type ℓ} → Option V → Bool
missing none = true
missing (some v) = false

-- What the five calls return, and what Get shows at `q` after each.
abbrev pub Updated {ℓ} :
    {Tree K V : Type ℓ} (cmp : Comparator K) (b : BTree Tree (MapEntry K V)) ⦃z : Zero V⦄
    → TreeMap Tree
    → K
    → V
    → (K → V → Bool → V × Bool)
    → (K → V → V × Bool)
    → (V → V → V × Bool)
    → (K → V)
    → K
    → Type ℓ
Updated {V = V} cmp b ⦃z = z⦄ t k v f g h m q =
    let old = get b t k in
    let wrote : Option V → Option V = λ new. write_at cmp k new (get b t) q in
    ((compute b t k f).0 ≡ computed z.zero_value (f k) old)
    × (get b (compute b t k f).1 q ≡ wrote (computed z.zero_value (f k) old))
    × ((compute_if_present b t k g).0 ≡ computed_present (g k) old)
    × (get b (compute_if_present b t k g).1 q ≡ wrote (computed_present (g k) old))
    × ((merge b t k v h).0 ≡ merged v (λ w. h w v) old)
    × (get b (merge b t k v h).1 q ≡ wrote (merged v (λ w. h w v) old))
    × ((put_if_absent b t k v).0 ≡ filled v old)
    × ((put_if_absent b t k v).1 ≡ missing old)
    × (get b (put_if_absent b t k v).2 q ≡ wrote (some (filled v old)))
    × ((compute_if_absent b t k m).0 ≡ filled (m k) old)
    × (get b (compute_if_absent b t k m).1 q ≡ wrote (some (filled (m k) old)))

module _ {ℓ} {Tree K V : Type ℓ} {cmp : Comparator K} {b : BTree Tree (MapEntry K V)}
    (law : IsComparator cmp) (tree : IsBTree (by_key cmp) b) ⦃z : Zero V⦄ where
  -- Get shows the map unchanged where the value at the key is written back.
  kept_present :
      (t : TreeMap Tree) (k : K) (q : K) (v : V)
      → get b t k ≡ some v
      → get b t q ≡ write_at cmp k (some v) (get b t) q
  kept_present t k q v here = get-same law tree t k q ∙ ap (λ o. write_at cmp k o (get b t) q) here

  compute-get :
      (t : TreeMap Tree) (k : K) (f : K → V → Bool → V × Bool) (q : K) (o : Option (MapEntry K V))
      → b.get t.bt (key_entry b k) ≡ o
      → ((compute b t k f).0 ≡ computed z.zero_value (f k) (get b t k))
        × (get b (compute b t k f).1 q
            ≡ write_at cmp k (computed z.zero_value (f k) (get b t k)) (get b t) q)
  unfolding compute
  compute-get t k f q none e =
      let gone = absent law tree t k e in
      elim (Bool-cases (f k z.zero_value false).1) [
        | inl h ↦
            rw (gone, compute, e, h) (refl, get-set law tree t.bt k (f k z.zero_value false).0 q)
        | inr h ↦ rw (gone, compute, e, h) (refl, kept_absent law tree t k q e)
      ]
  compute-get t k f q (some me) e =
      let here = present law tree t k me e in
      elim (Bool-cases (f k me.value true).1) [
        | inl h ↦ rw (here, compute, e, h) (refl, get-set law tree t.bt k (f k me.value true).0 q)
        | inr h ↦
            rw (here, compute, e, h)
              (refl, get-delete law tree t.bt k me q (stored-alike law tree t k me e))
      ]

  compute_if_present-get :
      (t : TreeMap Tree) (k : K) (g : K → V → V × Bool) (q : K) (o : Option (MapEntry K V))
      → b.get t.bt (key_entry b k) ≡ o
      → ((compute_if_present b t k g).0 ≡ computed_present (g k) (get b t k))
        × (get b (compute_if_present b t k g).1 q
            ≡ write_at cmp k (computed_present (g k) (get b t k)) (get b t) q)
  unfolding compute_if_present
  compute_if_present-get t k g q none e =
      rw (absent law tree t k e, compute_if_present, e) (refl, kept_absent law tree t k q e)
  compute_if_present-get t k g q (some me) e =
      let here = present law tree t k me e in
      elim (Bool-cases (g k me.value).1) [
        | inl h ↦
            rw (here, compute_if_present, e, h) (refl, get-set law tree t.bt k (g k me.value).0 q)
        | inr h ↦
            rw (here, compute_if_present, e, h)
              (refl, get-delete law tree t.bt k me q (stored-alike law tree t k me e))
      ]

  merge-get :
      (t : TreeMap Tree) (k : K) (v : V) (h : V → V → V × Bool) (q : K) (o : Option (MapEntry K V))
      → b.get t.bt (key_entry b k) ≡ o
      → ((merge b t k v h).0 ≡ merged v (λ w. h w v) (get b t k))
        × (get b (merge b t k v h).1 q
            ≡ write_at cmp k (merged v (λ w. h w v) (get b t k)) (get b t) q)
  unfolding merge
  merge-get t k v h q none e =
      rw (absent law tree t k e, merge, e) (refl, get-set law tree t.bt k v q)
  merge-get t k v h q (some me) e =
      let here = present law tree t k me e in
      elim (Bool-cases (h me.value v).1) [
        | inl keep ↦ rw (here, merge, e, keep) (refl, get-set law tree t.bt k (h me.value v).0 q)
        | inr drop ↦
            rw (here, merge, e, drop)
              (refl, get-delete law tree t.bt k me q (stored-alike law tree t k me e))
      ]

  put_if_absent-get :
      (t : TreeMap Tree) (k : K) (v : V) (q : K) (o : Option (MapEntry K V))
      → b.get t.bt (key_entry b k) ≡ o
      → ((put_if_absent b t k v).0 ≡ filled v (get b t k))
        × ((put_if_absent b t k v).1 ≡ missing (get b t k))
        × (get b (put_if_absent b t k v).2 q
            ≡ write_at cmp k (some (filled v (get b t k))) (get b t) q)
  unfolding put_if_absent
  put_if_absent-get t k v q none e =
      rw (absent law tree t k e, put_if_absent, e) (refl, refl, get-set law tree t.bt k v q)
  put_if_absent-get t k v q (some me) e =
      let here = present law tree t k me e in
      rw (here, put_if_absent, e) (refl, refl, kept_present t k q me.value here)

  compute_if_absent-get :
      (t : TreeMap Tree) (k : K) (m : K → V) (q : K) (o : Option (MapEntry K V))
      → b.get t.bt (key_entry b k) ≡ o
      → ((compute_if_absent b t k m).0 ≡ filled (m k) (get b t k))
        × (get b (compute_if_absent b t k m).1 q
            ≡ write_at cmp k (some (filled (m k) (get b t k))) (get b t) q)
  unfolding compute_if_absent
  compute_if_absent-get t k m q none e =
      rw (absent law tree t k e, compute_if_absent, e) (refl, get-set law tree t.bt k (m k) q)
  compute_if_absent-get t k m q (some me) e =
      let here = present law tree t k me e in
      rw (here, compute_if_absent, e) (refl, kept_present t k q me.value here)

  -- With a lawful comparator of keys and a B-tree that does what its documentation says, Compute,
  -- ComputeIfPresent, Merge, PutIfAbsent and ComputeIfAbsent return what their rules say of the value
  -- Get showed at the key: the value of the remapping function where it asks to keep it and nothing
  -- where it does not (ComputeIfPresent also nothing where there was no value), the given value where
  -- Merge, PutIfAbsent or ComputeIfAbsent finds none, and the value there where PutIfAbsent or
  -- ComputeIfAbsent finds one; PutIfAbsent also reports whether there was none. Then Get shows that
  -- result at each key like the given one, and what it showed before at each other key.
  pub updates-get :
      (t : TreeMap Tree) (k : K) (v : V) (f : K → V → Bool → V × Bool) (g : K → V → V × Bool)
      (h : V → V → V × Bool) (m : K → V) (q : K)
      → Updated cmp b t k v f g h m q
  updates-get t k v f g h m q =
      let o = b.get t.bt (key_entry b k) in
      let (c, c') = compute-get t k f q o refl in
      let (p, p') = compute_if_present-get t k g q o refl in
      let (r, r') = merge-get t k v h q o refl in
      let (a, was, a') = put_if_absent-get t k v q o refl in
      let (d, d') = compute_if_absent-get t k m q o refl in (c, c', p, p', r, r', a, was, a', d, d')
