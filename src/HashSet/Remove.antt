-- ===== src/HashSet/Remove.antt =====
-- RemoveFunc, RetainFunc and Pop, which visit the keys of the map while they delete.
use mathlib.Core.List.Perm
use go_collections.Prelude.{
  ℕ, ◌+◌, ◌≡◌, refl, sym, ◌∙◌, Bool, true, false, not, ◌&&◌, Bool-cases, inl, inr, List, [], ◌∷◌,
  length, length-perm, arith,
}
use go_collections.Prelude.Slice.{Zero}
use go_collections.HashSet.{
  Comparable, MapOrder, HashSet, has, delete, size, is_empty, contains, remove_where, remove_func,
  pop_visited, pop,
}
use go_collections.HashSet.Keys.{has-delete, has-perm, has-delete_kept}
use go_collections.HashSet.Distinct.{Distinct, delete-Distinct, length-delete, perm-Distinct}
use go_collections.HashSet.Change.{IsValid}

module _ {ℓ} {A : Type ℓ} ⦃c : Comparable A⦄ where
  -- The loop of RemoveFunc over some keys.
  has-remove_where :
      (p : A → Bool) (m : List A) (n : ℕ) (vs : List A) (y : A)
      → has y (remove_where p m n vs).1 ≡ has y m && not (p y && has y vs)
  unfolding remove_where has
  has-remove_where p m n [] y = ground arith
  has-remove_where p m n (v ∷ vs) y = elim (Bool-cases (p v)) [
    | inl t ↦
        rw (remove_where, t, has-remove_where p (delete m v) (n + 1) vs y, has-delete m v y)
          (elim (Bool-cases (c.equal v y)) [
            | inl e ↦ let passes : p y ≡ true = rw (← c.equal_sound v y e) t in ground arith
            | inr e ↦ ground arith
          ])
    | inr t ↦
        rw (remove_where, t, has-remove_where p m n vs y)
          (elim (Bool-cases (c.equal v y)) [
            | inl e ↦ let fails : p y ≡ false = rw (← c.equal_sound v y e) t in ground arith
            | inr e ↦ ground arith
          ])
  ]

  remove_where-Distinct :
      (p : A → Bool) (m : List A) (n : ℕ) (vs : List A)
      → Distinct m
      → Distinct (remove_where p m n vs).1
  unfolding remove_where
  remove_where-Distinct p m n [] d = d
  remove_where-Distinct p m n (v ∷ vs) d = elim (Bool-cases (p v)) [
    | inl t ↦
        rw (remove_where, t)
          (remove_where-Distinct p (delete m v) (n + 1) vs (delete-Distinct m v d))
    | inr t ↦ rw (remove_where, t) (remove_where-Distinct p m n vs d)
  ]

  -- Of keys that stand in the map, each once, the loop counts those that it takes out.
  remove_where-count :
      (p : A → Bool) (m : List A) (n : ℕ) (vs : List A)
      → Distinct m
      → Distinct vs
      → ((y : A) → has y vs ≡ true → has y m ≡ true)
      → (remove_where p m n vs).0 + length (remove_where p m n vs).1 ≡ n + length m
  unfolding remove_where has
  remove_where-count p m n [] d e inside = refl
  remove_where-count p m n (v ∷ vs) d (once, e) inside = elim (Bool-cases (p v)) [
    | inl t ↦
        let there : has v m ≡ true = inside v (rw (c.equal_refl v) refl) in
        let shorter = length-delete m v d in
        let one : length m ≡ length (delete m v) + 1 = rw there at shorter in
        rw (remove_where, t)
          (remove_where-count p (delete m v) (n + 1) vs (delete-Distinct m v d) e
              (λ y h. has-delete_kept m vs v y once h (inside y (ground arith)))
            ∙ omega arith)
    | inr t ↦
        rw (remove_where, t) (remove_where-count p m n vs d e (λ y h. inside y (ground arith)))
  ]

  module _ (rt : MapOrder A) where
    visit-Distinct : (m : List A) → Distinct m → Distinct (rt.visit m)
    visit-Distinct m d = perm-Distinct (Perm.symm (rt.visit_perm m)) d

    -- RemoveFunc keeps the set valid, takes out the elements that satisfy the predicate and no
    -- other, and returns how many these are.
    pub remove_func_correct :
        (s : HashSet A) (p : A → Bool)
        → IsValid s
        → IsValid (remove_func rt s p).1
          × ((y : A) → contains (remove_func rt s p).1 y ≡ contains s y && not (p y))
          × (size s ≡ (remove_func rt s p).0 + size (remove_func rt s p).1)
    unfolding remove_func contains size
    remove_func_correct s p v =
        let vs = rt.visit s.keys in
        let visited : (y : A) → has y vs ≡ has y s.keys = λ y. has-perm y (rt.visit_perm s.keys) in
        (
          remove_where-Distinct p s.keys 0 vs v,
          λ y. rw (has-remove_where p s.keys 0 vs y, visited y) (ground arith),
          let counted =
                remove_where-count p s.keys 0 vs v (visit-Distinct s.keys v)
                  λ y h. rw visited at h in
              omega arith,
        )

    module _ ⦃z : Zero A⦄ where
      -- Pop over keys that are those of the map.
      pop_visited_first :
          (s : HashSet A) (vs : List A)
          → IsValid s
          → ((y : A) → has y vs ≡ has y s.keys)
          → length vs ≡ length s.keys
          → let r = pop_visited rt s vs in
            (r.1 ≡ not (is_empty s))
            × (contains s r.0 ≡ r.1)
            × IsValid r.2
            × ((y : A) → contains r.2 y ≡ contains s y && not (r.1 && c.equal r.0 y))
      unfolding pop_visited contains is_empty has
      pop_visited_first s [] v same len =
          (ground arith, sym (same z.zero_value), v, λ y. rw (← same y) refl)
      pop_visited_first s (k ∷ vs) v same len = (
        ground arith,
        sym (same k) ∙ rw (c.equal_refl k) refl,
        delete-Distinct s.keys k v,
        λ y. has-delete s.keys k y,
      )

      -- Pop reports whether the set has an element; if so, it returns one that the set contains and
      -- takes it out and no other, and if not, the set stays empty. The set stays valid.
      pub pop_hash_set :
          (s : HashSet A)
          → IsValid s
          → ((pop rt s).1 ≡ not (is_empty s))
            × (contains s (pop rt s).0 ≡ (pop rt s).1)
            × IsValid (pop rt s).2
            × ((y : A)
                → contains (pop rt s).2 y
                  ≡ contains s y && not ((pop rt s).1 && c.equal (pop rt s).0 y))
      unfolding pop
      pop_hash_set s v =
          let order = rt.visit_perm s.keys in
          pop_visited_first s (rt.visit s.keys) v (λ y. has-perm y order) (length-perm order)
