-- ===== src/HashSet/Order.antt =====
-- IsSubsetOf, IsSupersetOf, IsProperSubsetOf, IsDisjoint and Equals.
use mathlib.Core.Logic.{◌↔◌}
use go_collections.Prelude.{
  ◌+◌, ◌≤◌, ◌≡◌, refl, sym, ◌∙◌, Bool, true, not, ◌&&◌, Bool-cases, inl, inr, List, [], ◌∷◌, length,
  arith,
}
use go_collections.HashSet.{
  Comparable, MapOrder, OtherSet, HashSet, has, delete, size, contains, all_pass, view,
  is_subset_of, is_superset_of, is_proper_subset_of, is_disjoint, equals,
}
use go_collections.HashSet.Keys.{has-perm, has-delete_kept}
use go_collections.HashSet.Distinct.{Distinct, length-delete, delete-Distinct}
use go_collections.HashSet.Change.{IsValid}
use go_collections.HashSet.Algebra.{IsOtherSet}

module _ {ℓ} {A : Type ℓ} ⦃c : Comparable A⦄ where
  all_pass-elim :
      (test : A → Bool) (xs : List A)
      → all_pass test xs ≡ true
      → (y : A) → has y xs ≡ true
      → test y ≡ true
  unfolding all_pass has
  all_pass-elim test [] h y k = absurd (ground arith)
  all_pass-elim test (x ∷ xs) h y k = elim (Bool-cases (c.equal x y)) [
    | inl e ↦ rw (← c.equal_sound x y e) (ground arith)
    | inr e ↦ all_pass-elim test xs (ground arith) y (ground arith)
  ]

  all_pass-intro :
      (test : A → Bool) (xs : List A)
      → ((y : A) → has y xs ≡ true → test y ≡ true)
      → all_pass test xs ≡ true
  unfolding all_pass has
  all_pass-intro test [] h = refl
  all_pass-intro test (x ∷ xs) h =
      rw (h x (rw (c.equal_refl x) refl)) (all_pass-intro test xs λ y k. h y (ground arith))

  -- Distinct keys that all stand among others are no more than these.
  pub length-included :
      (xs ys : List A)
      → Distinct xs
      → Distinct ys
      → ((y : A) → has y xs ≡ true → has y ys ≡ true)
      → length xs ≤ length ys
  unfolding has
  length-included [] ys d e inside = omega arith
  length-included (x ∷ xs) ys (once, d) e inside =
      let there : has x ys ≡ true = inside x (rw (c.equal_refl x) refl) in
      let shorter = length-delete ys x e in
      let one : length ys ≡ length (delete ys x) + 1 = rw there at shorter in
      let others =
        length-included xs (delete ys x) d (delete-Distinct ys x e)
          (λ y h. has-delete_kept ys xs x y once h (inside y (ground arith))) in
      omega arith

  module _ (rt : MapOrder A) where
    visited : (s : HashSet A) (y : A) → has y (rt.visit s.keys) ≡ contains s y
    unfolding contains
    visited s y = has-perm y (rt.visit_perm s.keys)

    all_visited :
        (s : HashSet A) (test : A → Bool)
        → (all_pass test (rt.visit s.keys) ≡ true) ↔ ((y : A) → contains s y ≡ true → test y ≡ true)
    all_visited s test = (
      (λ h y k. all_pass-elim test (rt.visit s.keys) h y (visited s y ∙ k)),
      λ h. all_pass-intro test (rt.visit s.keys) λ y k. h y (sym (visited s y) ∙ k),
    )

    -- IsSubsetOf holds exactly if the other set contains every element.
    is_subset_of_correct :
        (s : HashSet A) (o : OtherSet A)
        → (is_subset_of rt s o ≡ true) ↔ ((y : A) → contains s y ≡ true → o.contains y ≡ true)
    unfolding is_subset_of
    is_subset_of_correct s o = all_visited s o.contains

    -- IsSupersetOf holds exactly if the set contains every element of the other.
    is_superset_of_correct :
        (s t : HashSet A)
        → (is_superset_of rt s t ≡ true) ↔ ((y : A) → contains t y ≡ true → contains s y ≡ true)
    unfolding is_superset_of
    is_superset_of_correct s t = is_subset_of_correct t (view s)

    -- IsDisjoint holds exactly if the other set contains no element.
    is_disjoint_correct :
        (s : HashSet A) (o : OtherSet A)
        → (is_disjoint rt s o ≡ true) ↔ ((y : A) → contains s y ≡ true → not (o.contains y) ≡ true)
    unfolding is_disjoint
    is_disjoint_correct s o = all_visited s (λ y. not (o.contains y))

    -- IsSubsetOf holds exactly if the other set contains every element, IsSupersetOf exactly if the
    -- set contains every element of the other, and IsDisjoint exactly if the other set contains no
    -- element.
    pub inclusions_correct :
        (s t : HashSet A) (o : OtherSet A)
        → ((is_subset_of rt s o ≡ true) ↔ ((y : A) → contains s y ≡ true → o.contains y ≡ true))
          × ((is_superset_of rt s t ≡ true) ↔ ((y : A) → contains t y ≡ true → contains s y ≡ true))
          × ((is_disjoint rt s o ≡ true)
              ↔ ((y : A) → contains s y ≡ true → not (o.contains y) ≡ true))
    inclusions_correct s t o =
        (is_subset_of_correct s o, is_superset_of_correct s t, is_disjoint_correct s o)

    -- Of two sets with as many elements, if one includes the other, they contain the same.
    included_alike :
        (s : HashSet A) (o : OtherSet A)
        → IsValid s
        → IsOtherSet o
        → length s.keys ≡ o.size
        → ((y : A) → contains s y ≡ true → o.contains y ≡ true)
        → (y : A) → contains s y ≡ o.contains y
    unfolding contains
    included_alike s o v w same inside y = elim (Bool-cases (has y s.keys)) [
      | inl there ↦ there ∙ sym (inside y there)
      | inr absent ↦ elim (Bool-cases (o.contains y)) [
        | inl extra ↦
            let shorter = length-delete o.seq y w.once in
            let one : length o.seq ≡ length (delete o.seq y) + 1 =
              rw (w.yields y, extra) at shorter in
            let others =
              length-included s.keys (delete o.seq y) v (delete-Distinct o.seq y w.once)
                (λ x h. has-delete_kept o.seq s.keys y x absent h (w.yields x ∙ inside x h)) in
            absurd (omega (arith, w.counts))
        | inr missing ↦ absent ∙ sym missing
      ]
    ]

    -- Equals holds exactly if the sets contain the same elements.
    pub equals_correct :
        (s : HashSet A) (o : OtherSet A)
        → IsValid s
        → IsOtherSet o
        → (equals rt s o ≡ true) ↔ ((y : A) → contains s y ≡ o.contains y)
    unfolding equals size contains
    equals_correct s o v w = (
      (λ h.
          let alike : length s.keys ≡ o.size = ground arith in
          let passed : all_pass o.contains (rt.visit s.keys) ≡ true = ground arith in
          included_alike s o v w alike ((all_visited s o.contains).0 passed)),
      λ h.
          let inside : all_pass o.contains (rt.visit s.keys) ≡ true =
            (all_visited s o.contains).1 λ y k. sym (h y) ∙ k in
          let fewer = length-included s.keys o.seq v w.once λ y k. w.yields y ∙ (sym (h y) ∙ k) in
          let more = length-included o.seq s.keys w.once v λ y k. h y ∙ (sym (w.yields y) ∙ k) in
          let alike : length s.keys ≡ o.size = omega (arith, w.counts) in ground arith,
    )

    -- IsProperSubsetOf holds exactly if IsSubsetOf does and Equals does not.
    pub is_proper_subset_of_correct :
        (s : HashSet A) (o : OtherSet A)
        → IsValid s
        → IsOtherSet o
        → is_proper_subset_of rt s o ≡ (is_subset_of rt s o && not (equals rt s o))
    unfolding is_proper_subset_of is_subset_of equals size contains
    is_proper_subset_of_correct s o v w =
        elim (Bool-cases (all_pass o.contains (rt.visit s.keys))) [
          | inl all ↦
              let fewer =
                length-included s.keys o.seq v w.once
                  λ y k. w.yields y ∙ (all_visited s o.contains).0 all y k in
              ground (arith, w.counts)
          | inr some_missing ↦ ground arith
        ]
