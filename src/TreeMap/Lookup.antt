-- ===== src/TreeMap/Lookup.antt =====
-- What the B-tree finds after a set and after a deletion.
use go_collections.Prelude.{
  ◌≡◌, refl, sym, ap, ap₂, ◌∙◌, Bool, true, false, not, ◌&&◌, Bool-cases, inl, inr, Option, none,
  some, List, [], ◌∷◌, ◌++◌, arith,
}
use mathlib.Core.List.{append-nil}
use go_collections.Comparator.{Comparator, IsComparator, asym}
use go_collections.BTree.{keep, head?, less, alike, BTree, IsBTree}
use go_collections.BTree.Ascending.{
  keep-append, keep-keep, keep_same, keep_none, less-alike_left, less-alike_right, alike-alike,
}
use go_collections.BTree.Parts.{alike_comm}

module _ {ℓ} {Tree A : Type ℓ} {cmp : Comparator A} {b : BTree Tree A} (law : IsComparator cmp)
    (tree : IsBTree cmp b) where
  -- Of a part of the elements, those like `q`
  like_part :
      (q : A) (p : A → Bool) (xs : List A)
      → ((y : A) → alike cmp q y ≡ true → p y ≡ true)
      → keep (alike cmp q) (keep p xs) ≡ keep (alike cmp q) xs
  like_part q p xs h =
      keep-keep (alike cmp q) p xs
      ∙ keep_same (λ y. p y && alike cmp q y) (alike cmp q) xs
          λ y. elim (Bool-cases (alike cmp q y)) [
            | inl e ↦ rw (e, h y e) refl
            | inr e ↦ rw e (ground arith)
          ]

  like_none :
      (q : A) (p : A → Bool) (xs : List A)
      → ((y : A) → alike cmp q y ≡ true → p y ≡ false)
      → keep (alike cmp q) (keep p xs) ≡ []
  like_none q p xs h =
      keep-keep (alike cmp q) p xs
      ∙ keep_none (λ y. p y && alike cmp q y) xs
          λ y. elim (Bool-cases (alike cmp q y)) [
            | inl e ↦ rw (e, h y e) refl
            | inr e ↦ rw e (ground arith)
          ]

  set-kept :
      (t : Tree) (e q : A)
      → keep (alike cmp q) (b.scan (b.set t e))
        ≡ keep (alike cmp q) (keep (λ y. less cmp y e) (b.scan t))
          ++ keep (alike cmp q) (e ∷ keep (λ y. less cmp e y) (b.scan t))
  set-kept t e q =
      ap (keep (alike cmp q)) (tree.set_inserts t e)
      ∙ keep-append (alike cmp q) (keep (λ y. less cmp y e) (b.scan t))
          (e ∷ keep (λ y. less cmp e y) (b.scan t))

  pub get-set_alike : (t : Tree) (e q : A) → alike cmp q e ≡ true → b.get (b.set t e) q ≡ some e
  get-set_alike t e q h =
      tree.get_finds (b.set t e) q
      ∙ ap head? {y = e ∷ keep (alike cmp q) (keep (λ y. less cmp e y) (b.scan t))} (
          set-kept t e q
          ∙ rw
              (
                h,
                like_none q (λ y. less cmp y e) (b.scan t)
                    λ y k. sym (less-alike_left law q y e k) ∙ ground arith,
              )
              refl)

  pub get-set_other : (t : Tree) (e q : A) → alike cmp q e ≡ false → b.get (b.set t e) q ≡ b.get t q
  get-set_other t e q h =
      tree.get_finds (b.set t e) q
      ∙ ap head? (
          set-kept t e q
          ∙ rw h (elim (Bool-cases (less cmp q e)) [
            | inl before ↦
                ap₂ ◌++◌
                  (like_part q (λ y. less cmp y e) (b.scan t)
                    λ y k. sym (less-alike_left law q y e k) ∙ before)
                  (like_none q (λ y. less cmp e y) (b.scan t)
                    λ y k. sym (less-alike_right law q y e k) ∙ asym law q e before)
                ∙ append-nil (keep (alike cmp q) (b.scan t))
            | inr not_before ↦
                let after : less cmp e q ≡ true = ground arith in
                ap₂ ◌++◌
                  (like_none q (λ y. less cmp y e) (b.scan t)
                    λ y k. sym (less-alike_left law q y e k) ∙ not_before)
                  (like_part q (λ y. less cmp e y) (b.scan t)
                    λ y k. sym (less-alike_right law q y e k) ∙ after)
          ]))
      ∙ sym (tree.get_finds t q)

  pub get-delete_alike :
      (t : Tree) (e q : A) → alike cmp q e ≡ true → b.get (b.delete t e).1 q ≡ none
  get-delete_alike t e q h =
      tree.get_finds (b.delete t e).1 q
      ∙ ap head? (
          ap (keep (alike cmp q)) (tree.delete_erases t e)
          ∙ like_none q (λ y. not (alike cmp e y)) (b.scan t)
              λ y k. ap not (sym (alike-alike law q e y h) ∙ k))

  pub get-delete_other :
      (t : Tree) (e q : A) → alike cmp q e ≡ false → b.get (b.delete t e).1 q ≡ b.get t q
  get-delete_other t e q h =
      tree.get_finds (b.delete t e).1 q
      ∙ ap head? (
          ap (keep (alike cmp q)) (tree.delete_erases t e)
          ∙ like_part q (λ y. not (alike cmp e y)) (b.scan t)
              λ y k. ap not (alike_comm law e y ∙ sym (alike-alike law q y e k) ∙ h))
      ∙ sym (tree.get_finds t q)

  -- What is found is like what was looked for, and what is like it finds the same.
  pub get-alike : (t : Tree) (q e : A) → b.get t q ≡ some e → alike cmp q e ≡ true
  get-alike t q e h = first_passes (alike cmp q) (b.scan t) (sym (tree.get_finds t q) ∙ h)
    where
      passes : (A → Bool) → Option A → Bool
      passes p none = true
      passes p (some y) = p y

      first_passes : (p : A → Bool) (xs : List A) → head? (keep p xs) ≡ some e → p e ≡ true
      first_passes p [] k = absurd (ground arith)
      first_passes p (x ∷ xs) k = elim (Bool-cases (p x)) [
        | inl there ↦ let same : some x ≡ some e = rw there at k in sym (ap (passes p) same) ∙ there
        | inr absent ↦ first_passes p xs (rw absent at k)
      ]

  pub get_alike_keys : (t : Tree) (q e : A) → alike cmp q e ≡ true → b.get t q ≡ b.get t e
  get_alike_keys t q e h =
      tree.get_finds t q
      ∙ ap head? (keep_same (alike cmp q) (alike cmp e) (b.scan t) λ y. alike-alike law q e y h)
      ∙ sym (tree.get_finds t e)
