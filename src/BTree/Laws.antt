-- ===== src/BTree/Laws.antt =====
-- What a set and a deletion make of a sorted list, and loops of sets in ascending order.
use mathlib.Core.List.{perm_middle}
use go_collections.Prelude.{
  ◌≡◌, refl, ap, ◌∙◌, Bool, true, false, Bool-cases, inl, inr, List, [], ◌∷◌, ◌++◌, Perm, arith,
}
use go_collections.Comparator.{Comparator, IsComparator, asym}
use go_collections.BTree.{keep, less, alike, Before, Ascending, BTree, IsBTree}
use go_collections.BTree.Ascending.{holds, less_trans}

module _ {ℓ} {A : Type ℓ} {cmp : Comparator A} (law : IsComparator cmp) where
  pub Before-keep :
      (x : A) (p : A → Bool) (xs : List A) → Before cmp x xs → Before cmp x (keep p xs)
  Before-keep x p [] b = b
  Before-keep x p (y ∷ ys) (first, rest) = elim (Bool-cases (p y)) [
    | inl e ↦ rw e (first, Before-keep x p ys rest)
    | inr e ↦ rw e (Before-keep x p ys rest)
  ]

  pub Ascending-keep : (p : A → Bool) (xs : List A) → Ascending cmp xs → Ascending cmp (keep p xs)
  Ascending-keep p [] s = s
  Ascending-keep p (x ∷ xs) (first, rest) = elim (Bool-cases (p x)) [
    | inl e ↦ rw e (Before-keep x p xs first, Ascending-keep p xs rest)
    | inr e ↦ rw e (Ascending-keep p xs rest)
  ]

  pub Before_trans :
      (x y : A) (ys : List A) → less cmp x y ≡ true → Before cmp y ys → Before cmp x ys
  Before_trans x y [] h b = tt
  Before_trans x y (z ∷ zs) h (first, rest) =
      (less_trans law x y z h first, Before_trans x y zs h rest)

  -- All that follow `x` pass a test that holds after `x`.
  pub keep_after :
      (x : A) (p : A → Bool) (xs : List A)
      → Before cmp x xs
      → ((y : A) → less cmp x y ≡ true → p y ≡ true)
      → keep p xs ≡ xs
  keep_after x p [] b h = refl
  keep_after x p (y ∷ ys) (first, rest) h = rw (h y first) (ap (◌∷◌ y) (keep_after x p ys rest h))

  pub keep_none_after :
      (x : A) (p : A → Bool) (xs : List A)
      → Before cmp x xs
      → ((y : A) → less cmp x y ≡ true → p y ≡ false)
      → keep p xs ≡ []
  keep_none_after x p [] b h = refl
  keep_none_after x p (y ∷ ys) (first, rest) h = rw (h y first) (keep_none_after x p ys rest h)

  pub keep_same_after :
      (x : A) (p q : A → Bool) (xs : List A)
      → Before cmp x xs
      → ((y : A) → less cmp x y ≡ true → p y ≡ q y)
      → keep p xs ≡ keep q xs
  keep_same_after x p q [] b h = refl
  keep_same_after x p q (y ∷ ys) (first, rest) h = rw (h y first, keep_same_after x p q ys rest h)

  pub holds_none_after :
      (x : A) (p : A → Bool) (xs : List A)
      → Before cmp x xs
      → ((y : A) → less cmp x y ≡ true → p y ≡ false)
      → holds p xs ≡ false
  holds_none_after x p [] b h = refl
  holds_none_after x p (y ∷ ys) (first, rest) h = rw (h y first) (holds_none_after x p ys rest h)

  -- A list without an element like `x` is what comes before `x` and what comes after.
  pub split_absent :
      (x : A) (xs : List A)
      → Ascending cmp xs
      → holds (alike cmp x) xs ≡ false
      → keep (λ y. less cmp y x) xs ++ keep (λ y. less cmp x y) xs ≡ xs
  split_absent x [] s h = refl
  split_absent x (y ∷ ys) (first, rest) h = elim (Bool-cases (less cmp y x)) [
    | inl e ↦ rw (e, asym law y x e) (ap (◌∷◌ y) (split_absent x ys rest (ground arith)))
    | inr e ↦
        let after : less cmp x y ≡ true = ground arith in
        rw (e, after)
          (rw
            (
              keep_none_after y (λ z. less cmp z x) ys first
                  λ z k. asym law x z (less_trans law x y z after k),
              keep_after y (λ z. less cmp x z) ys first λ z k. less_trans law x y z after k,
            )
            refl)
  ]

  -- What comes after all of `xs` in a sorted list comes after each.
  pub keep_all_before :
      (x : A) (xs ys : List A)
      → Ascending cmp (xs ++ x ∷ ys)
      → (keep (λ y. less cmp y x) xs ≡ xs) × (keep (λ y. less cmp x y) xs ≡ [])
  keep_all_before x [] ys s = (refl, refl)
  keep_all_before x (z ∷ zs) ys (first, rest) =
      let r = keep_all_before x zs ys rest in
      let h = Before-middle z zs first in (rw h (ap (◌∷◌ z) r.0), rw (asym law z x h) r.1)
    where
      Before-middle : (z : A) (zs : List A) → Before cmp z (zs ++ x ∷ ys) → less cmp z x ≡ true
      Before-middle z [] b = b.0
      Before-middle z (w ∷ ws) b = Before-middle z ws b.1

  Before-skip : (z x : A) (xs ys : List A) → Before cmp z (xs ++ x ∷ ys) → Before cmp z (xs ++ ys)
  Before-skip z x [] ys b = b.1
  Before-skip z x (w ∷ ws) ys b = (b.0, Before-skip z x ws ys b.1)

  pub Ascending-skip :
      (x : A) (xs ys : List A) → Ascending cmp (xs ++ x ∷ ys) → Ascending cmp (xs ++ ys)
  Ascending-skip x [] ys s = s.1
  Ascending-skip x (z ∷ zs) ys (first, rest) =
      (Before-skip z x zs ys first, Ascending-skip x zs ys rest)

module _ {ℓ} {Tree A : Type ℓ} {cmp : Comparator A} {b : BTree Tree A} (law : IsComparator cmp)
    (tree : IsBTree cmp b) where
  -- A new element adds itself.
  pub set-perm :
      (t : Tree) (x : A)
      → holds (alike cmp x) (b.scan t) ≡ false
      → Perm (b.scan (b.set t x)) (x ∷ b.scan t)
  set-perm t x h =
      let split = split_absent law x (b.scan t) (tree.scan_sorted t) h in
      rw (tree.set_inserts t x) (
        rw split at (
          perm_middle {a = x} (keep (λ y. less cmp y x) (b.scan t))
            (keep (λ y. less cmp x y) (b.scan t))))

  -- An element after all others goes to the end.
  pub set_last :
      (t : Tree) (x : A) (ys : List A)
      → Ascending cmp (b.scan t ++ x ∷ ys)
      → b.scan (b.set t x) ≡ b.scan t ++ x ∷ []
  set_last t x ys s =
      let parts = keep_all_before law x (b.scan t) ys s in
      tree.set_inserts t x ∙ rw (parts.0, parts.1)
