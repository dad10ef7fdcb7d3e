-- ===== src/HashSet/Keys.antt =====
-- The keys of the map in hashset.go: which are there after a write, a deletion or a loop of them.
use mathlib.Core.Bool.{Bool-set}
use mathlib.Core.List.{Permᴰ}
use mathlib.Core.Logic.{∥∥₁_elim}
use go_collections.Prelude.{
  ◌≡◌, refl, sym, ap, ◌∙◌, Bool, true, false, not, ◌&&◌, ◌||◌, Bool-cases, inl, inr, List, [], ◌∷◌,
  ◌++◌, Perm, arith,
}
use go_collections.HashSet.{
  Comparable, HashSet, has, assign, delete, assign_each, delete_each, add_where, add,
}

module _ {ℓ} {A : Type ℓ} ⦃c : Comparable A⦄ where
  pub equal_sym : (x y : A) → c.equal x y ≡ true → c.equal y x ≡ true
  equal_sym x y e = rw (sym (c.equal_sound x y e)) (c.equal_refl x)

  pub has-equal : (x y : A) (m : List A) → c.equal x y ≡ true → has x m ≡ has y m
  has-equal x y m e = ap (λ v. has v m) (c.equal_sound x y e)

  pub has-append : (y : A) (xs ys : List A) → has y (xs ++ ys) ≡ has y xs || has y ys
  unfolding has
  has-append y [] ys = refl
  has-append y (x ∷ xs) ys = rw (has-append y xs ys) (ground arith)

  pub has-permuted : {xs ys : List A} (y : A) → Permᴰ xs ys → has y xs ≡ has y ys
  unfolding has
  has-permuted y Permᴰ.nil = refl
  has-permuted y (Permᴰ.cons {l₁ = xs} {l₂ = ys} e p) = rw (e, has-permuted y p)
  has-permuted y (Permᴰ.swap e f) = rw (e, f) (ground arith)
  has-permuted y (Permᴰ.trans p q) = has-permuted y p ∙ has-permuted y q

  pub has-perm : {xs ys : List A} (y : A) → Perm xs ys → has y xs ≡ has y ys
  has-perm {xs} {ys} y p = ∥∥₁_elim p (Bool-set (has y xs) (has y ys)) λ q. has-permuted y q

  -- A write adds its key and no other.
  pub has-assign : (m : List A) (x y : A) → has y (assign m x) ≡ has y m || c.equal x y
  unfolding assign has
  has-assign m x y = elim (Bool-cases (has x m)) [
    | inl there ↦ elim (Bool-cases (c.equal x y)) [
      | inl e ↦ rw (there, e) (let same = has-equal x y m e in ground arith)
      | inr e ↦ rw (there, e) (ground arith)
    ]
    | inr absent ↦ rw (absent, has-append y m (x ∷ [])) (ground arith)
  ]

  -- A deletion takes out its key and no other.
  pub has-delete : (m : List A) (x y : A) → has y (delete m x) ≡ has y m && not (c.equal x y)
  unfolding delete has
  has-delete [] x y = refl
  has-delete (k ∷ ks) x y = elim (Bool-cases (c.equal k x)) [
    | inl e ↦
        let same : c.equal k y ≡ c.equal x y = ap (λ v. c.equal v y) (c.equal_sound k x e) in
        rw (e, has-delete ks x y) (ground arith)
    | inr e ↦
        rw (e, has-delete ks x y)
          (elim (Bool-cases (c.equal x y)) [
            | inl f ↦ let apart : c.equal k y ≡ false = rw (← c.equal_sound x y f) e in ground arith
            | inr f ↦ ground arith
          ])
  ]

  -- A key that stands among others without `x` survives the deletion of `x`.
  pub has-delete_kept :
      (m xs : List A) (x y : A)
      → has x xs ≡ false
      → has y xs ≡ true
      → has y m ≡ true
      → has y (delete m x) ≡ true
  has-delete_kept m xs x y absent there inside =
      rw (has-delete m x y, inside)
        (elim (Bool-cases (c.equal x y)) [
          | inl twice ↦ let same = has-equal x y xs twice in absurd (ground arith)
          | inr apart ↦ ground arith
        ])

  pub has-assign_each : (m xs : List A) (y : A) → has y (assign_each m xs) ≡ has y m || has y xs
  unfolding assign_each has
  has-assign_each m [] y = ground arith
  has-assign_each m (x ∷ xs) y =
      rw (has-assign_each (assign m x) xs y, has-assign m x y) (ground arith)

  pub has-delete_each :
      (m xs : List A) (y : A) → has y (delete_each m xs) ≡ has y m && not (has y xs)
  unfolding delete_each has
  has-delete_each m [] y = ground arith
  has-delete_each m (x ∷ xs) y =
      rw (has-delete_each (delete m x) xs y, has-delete m x y) (ground arith)

  -- The loop that adds what passes a test.
  pub has-add_where :
      (test : A → Bool) (out : HashSet A) (xs : List A) (y : A)
      → has y (add_where test out xs).keys ≡ has y out.keys || (test y && has y xs)
  unfolding add_where add has
  has-add_where test out [] y = ground arith
  has-add_where test out (x ∷ xs) y = elim (Bool-cases (test x)) [
    | inl t ↦
        rw
          (
            add_where,
            t,
            has-add_where test (record { keys = assign out.keys x }) xs y,
            has-assign out.keys x y,
          )
          (elim (Bool-cases (c.equal x y)) [
            | inl e ↦ let passes : test y ≡ true = rw (← c.equal_sound x y e) t in ground arith
            | inr e ↦ ground arith
          ])
    | inr t ↦
        rw (add_where, t, has-add_where test out xs y)
          (elim (Bool-cases (c.equal x y)) [
            | inl e ↦ let fails : test y ≡ false = rw (← c.equal_sound x y e) t in ground arith
            | inr e ↦ ground arith
          ])
  ]
