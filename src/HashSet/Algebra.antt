-- ===== src/HashSet/Algebra.antt =====
-- Union, Intersection, Difference, SymmetricDifference and Filter.
use go_collections.Prelude.{◌≡◌, refl, ap, ◌∙◌, Bool, not, ◌&&◌, ◌||◌, List, [], length, arith}
use go_collections.HashSet.{
  Comparable, MapOrder, OtherSet, HashSet, has, new, new_from, contains, view, union, intersection,
  difference, symmetric_difference, filter, add_where,
}
use go_collections.HashSet.Keys.{has-add_where, has-assign_each, has-perm}
use go_collections.HashSet.Distinct.{Distinct, assign_each-Distinct, add_where-Distinct}
use go_collections.HashSet.Change.{IsValid}

module _ {ℓ} {A : Type ℓ} ⦃c : Comparable A⦄ where
  -- What the interface asks of another set: its sequence yields each element that it contains once.
  pub record IsOtherSet (o : OtherSet A) : Type ℓ where
    pub once : Distinct o.seq
    pub yields : (y : A) → has y o.seq ≡ o.contains y
    pub counts : length o.seq ≡ o.size

  -- A hash set keeps it.
  pub view-IsOtherSet : (s : HashSet A) → IsValid s → IsOtherSet (view s)
  unfolding contains
  view-IsOtherSet s v = record { once = v; yields = λ y. refl; counts = refl }

  -- The set is valid and contains exactly what the function says.
  abbrev pub IsSetOf : (A → Bool) → HashSet A → Type ℓ
  IsSetOf member r = Distinct r.keys × ((y : A) → contains r y ≡ member y)

  -- NewHashSetFrom gives a valid set of exactly the given elements.
  pub new_from_hash_set :
      (xs : List A) → IsValid (new_from xs) × ((y : A) → contains (new_from xs) y ≡ has y xs)
  unfolding new_from contains has
  new_from_hash_set xs = (assign_each-Distinct [] xs tt, has-assign_each [] xs)

  -- Union gives a valid set that contains what either set contains.
  union_correct :
      (s : HashSet A) (o : OtherSet A)
      → IsValid s
      → IsOtherSet o
      → IsValid (union s o) × ((y : A) → contains (union s o) y ≡ contains s y || o.contains y)
  unfolding union contains
  union_correct s o v w = (
    assign_each-Distinct s.keys o.seq v,
    λ y. has-assign_each s.keys o.seq y ∙ ap (λ b. has y s.keys || b) (w.yields y),
  )

  module _ (rt : MapOrder A) where
    -- The loop that picks from the keys of a set.
    picked :
        (test : A → Bool) (s : HashSet A) (y : A)
        → has y (add_where test new (rt.visit s.keys)).keys ≡ has y s.keys && test y
    unfolding new has
    picked test s y =
        rw (has-add_where test new (rt.visit s.keys) y, has-perm y (rt.visit_perm s.keys))
          (ground arith)

    -- Intersection gives a valid set that contains what both sets contain.
    intersection_correct :
        (s : HashSet A) (o : OtherSet A)
        → IsValid (intersection rt s o)
          × ((y : A) → contains (intersection rt s o) y ≡ contains s y && o.contains y)
    unfolding intersection new contains
    intersection_correct s o =
        (add_where-Distinct o.contains new (rt.visit s.keys) tt, picked o.contains s)

    -- Difference gives a valid set that contains what the set contains and the other does not.
    difference_correct :
        (s : HashSet A) (o : OtherSet A)
        → IsValid (difference rt s o)
          × ((y : A) → contains (difference rt s o) y ≡ contains s y && not (o.contains y))
    unfolding difference new contains
    difference_correct s o =
        let apart : A → Bool = λ y. not (o.contains y) in
        (add_where-Distinct apart new (rt.visit s.keys) tt, picked apart s)

    -- Filter gives a valid set that contains the elements that satisfy the predicate.
    filter_correct :
        (s : HashSet A) (p : A → Bool)
        → IsValid (filter rt s p) × ((y : A) → contains (filter rt s p) y ≡ contains s y && p y)
    unfolding filter new contains
    filter_correct s p = (add_where-Distinct p new (rt.visit s.keys) tt, picked p s)

    -- SymmetricDifference gives a valid set that contains what one of the sets contains and the
    -- other does not.
    symmetric_difference_correct :
        (s : HashSet A) (o : OtherSet A)
        → IsOtherSet o
        → IsValid (symmetric_difference rt s o)
          × ((y : A)
              → contains (symmetric_difference rt s o) y
                ≡ (contains s y && not (o.contains y)) || (o.contains y && not (contains s y)))
    unfolding symmetric_difference new contains
    symmetric_difference_correct s o w =
        let apart : A → Bool = λ y. not (o.contains y) in
        let absent : A → Bool = λ y. not (has y s.keys) in
        let out = add_where apart new (rt.visit s.keys) in
        (
          add_where-Distinct absent out o.seq (add_where-Distinct apart new (rt.visit s.keys) tt),
          λ y.
              rw (has-add_where absent out o.seq y, w.yields y)
                (rw (picked apart s y) (ground arith)),
        )

    -- The operations of the algebra of sets give valid sets of the elements that the names promise:
    -- those of either set, of both, of the set and not the other, of exactly one, and of the set
    -- where the predicate holds.
    pub hash_set_algebra :
        (s : HashSet A) (o : OtherSet A) (p : A → Bool)
        → IsValid s
        → IsOtherSet o
        → IsSetOf (λ y. contains s y || o.contains y) (union s o)
          × IsSetOf (λ y. contains s y && o.contains y) (intersection rt s o)
          × IsSetOf (λ y. contains s y && not (o.contains y)) (difference rt s o)
          × IsSetOf
              (λ y. (contains s y && not (o.contains y)) || (o.contains y && not (contains s y)))
              (symmetric_difference rt s o)
          × IsSetOf (λ y. contains s y && p y) (filter rt s p)
    hash_set_algebra s o p v w = (
      union_correct s o v w,
      intersection_correct s o,
      difference_correct s o,
      symmetric_difference_correct s o w,
      filter_correct s p,
    )
