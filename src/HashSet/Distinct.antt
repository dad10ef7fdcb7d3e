-- ===== src/HashSet/Distinct.antt =====
-- The keys of the map in hashset.go stay distinct, and how many there are.
use mathlib.Core.List.{Permᴰ}
use mathlib.Core.Path.{subst}
use mathlib.Core.Logic.{∥∥₁_elim}
use go_collections.Prelude.{
  ◌+◌, ◌≡◌, refl, sym, ap, ◌∙◌, Bool, false, Bool-cases, inl, inr, List, [], ◌∷◌, ◌++◌, Perm,
  length, length-append, if◌then◌else◌, arith,
}
use go_collections.HashSet.{
  Comparable, HashSet, has, assign, delete, assign_each, delete_each, add_where, add,
}
use go_collections.HashSet.Keys.{equal_sym, has-equal, has-append, has-permuted, has-delete}

module _ {ℓ} {A : Type ℓ} ⦃c : Comparable A⦄ where
  -- No key stands twice.
  abbrev pub Distinct : List A → Type 0
  Distinct [] = Unit
  Distinct (k ∷ ks) = (has k ks ≡ false) × Distinct ks

  snoc-Distinct : (m : List A) (x : A) → Distinct m → has x m ≡ false → Distinct (m ++ x ∷ [])
  unfolding has
  snoc-Distinct [] x d absent = (refl, tt)
  snoc-Distinct (k ∷ ks) x (first, rest) absent = elim (Bool-cases (c.equal x k)) [
    | inl e ↦ let twice = equal_sym x k e in absurd (ground arith)
    | inr e ↦ (rw (has-append k ks (x ∷ [])) (ground arith), snoc-Distinct ks x rest (ground arith))
  ]

  -- The keys stay distinct.
  pub assign-Distinct : (m : List A) (x : A) → Distinct m → Distinct (assign m x)
  unfolding assign
  assign-Distinct m x d = elim (Bool-cases (has x m)) [
    | inl there ↦ rw there d
    | inr absent ↦ rw absent (snoc-Distinct m x d absent)
  ]

  pub delete-Distinct : (m : List A) (x : A) → Distinct m → Distinct (delete m x)
  unfolding delete
  delete-Distinct [] x d = d
  delete-Distinct (k ∷ ks) x (first, rest) = elim (Bool-cases (c.equal k x)) [
    | inl e ↦ rw e (delete-Distinct ks x rest)
    | inr e ↦ rw e (rw (has-delete ks x k) (ground arith), delete-Distinct ks x rest)
  ]

  pub assign_each-Distinct : (m xs : List A) → Distinct m → Distinct (assign_each m xs)
  unfolding assign_each
  assign_each-Distinct m [] d = d
  assign_each-Distinct m (x ∷ xs) d = assign_each-Distinct (assign m x) xs (assign-Distinct m x d)

  pub delete_each-Distinct : (m xs : List A) → Distinct m → Distinct (delete_each m xs)
  unfolding delete_each
  delete_each-Distinct m [] d = d
  delete_each-Distinct m (x ∷ xs) d = delete_each-Distinct (delete m x) xs (delete-Distinct m x d)

  pub add_where-Distinct :
      (test : A → Bool) (out : HashSet A) (xs : List A)
      → Distinct out.keys
      → Distinct (add_where test out xs).keys
  unfolding add_where add
  add_where-Distinct test out [] d = d
  add_where-Distinct test out (x ∷ xs) d = elim (Bool-cases (test x)) [
    | inl t ↦
        rw (add_where, t)
          (add_where-Distinct test (record { keys = assign out.keys x }) xs
            (assign-Distinct out.keys x d))
    | inr t ↦ rw (add_where, t) (add_where-Distinct test out xs d)
  ]

  -- A write makes the map longer exactly if the key is new, and a deletion shorter if it is there.
  pub length-assign :
      (m : List A) (x : A) → length (assign m x) ≡ (if has x m then length m else length m + 1)
  unfolding assign
  length-assign m x = elim (Bool-cases (has x m)) [
    | inl there ↦ rw there
    | inr absent ↦ rw absent (length-append m (x ∷ []))
  ]

  delete_absent : (m : List A) (x : A) → has x m ≡ false → delete m x ≡ m
  unfolding delete has
  delete_absent [] x absent = refl
  delete_absent (k ∷ ks) x absent =
      let apart : c.equal k x ≡ false = ground arith in
      rw apart (ap (◌∷◌ k) (delete_absent ks x (ground arith)))

  pub length-delete :
      (m : List A) (x : A)
      → Distinct m
      → length m ≡ (if has x m then length (delete m x) + 1 else length (delete m x))
  unfolding delete has
  length-delete [] x d = refl
  length-delete (k ∷ ks) x (first, rest) = elim (Bool-cases (c.equal k x)) [
    | inl e ↦
        let gone : has x ks ≡ false = sym (has-equal k x ks e) ∙ first in
        rw (e, delete_absent ks x gone) (omega arith)
    | inr e ↦ rw e (elim (Bool-cases (has x ks)) [
      | inl there ↦
          let shorter = length-delete ks x rest in rw there (omega (arith, rw there at shorter))
      | inr absent ↦
          let same = length-delete ks x rest in rw absent (omega (arith, rw absent at same))
    ])
  ]

  Distinct-prop : (m : List A) → IsProp (Distinct m)
  Distinct-prop [] = hlevel
  Distinct-prop (k ∷ ks) = let rest = Distinct-prop ks in hlevel

  exchanged-Distinct : (a b : A) (l : List A) → Distinct (a ∷ b ∷ l) → Distinct (b ∷ a ∷ l)
  unfolding has
  exchanged-Distinct a b l (first, (second, rest)) = elim (Bool-cases (c.equal a b)) [
    | inl twice ↦ let same = equal_sym a b twice in absurd (ground arith)
    | inr apart ↦ (rw apart second, (ground arith, rest))
  ]

  permuted-Distinct : {xs ys : List A} → Permᴰ xs ys → Distinct xs → Distinct ys
  unfolding has
  permuted-Distinct Permᴰ.nil d = d
  permuted-Distinct (Permᴰ.cons e p) (first, rest) =
      (rw (← e, ← has-permuted _ p) first, permuted-Distinct p rest)
  permuted-Distinct (Permᴰ.swap {a = a} {b = b} {a' = a'} {b' = b'} {l = l} e f) d =
      subst (λ x. Distinct (x ∷ b' ∷ l)) f
        (subst (λ x. Distinct (b ∷ x ∷ l)) e (exchanged-Distinct a b l d))
  permuted-Distinct (Permᴰ.trans p q) d = permuted-Distinct q (permuted-Distinct p d)

  pub perm-Distinct : {xs ys : List A} → Perm xs ys → Distinct xs → Distinct ys
  perm-Distinct {xs} {ys} p d = ∥∥₁_elim p (Distinct-prop ys) λ q. permuted-Distinct q d
