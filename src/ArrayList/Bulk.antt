-- ===== src/ArrayList/Bulk.antt =====
-- RemoveFunc, RetainFunc, Filter, SubList and the sequences.
use mathlib.Core.List.Perm
use mathlib.Core.List.{perm_middle, append_assoc, append-nil}
use go_collections.Prelude.{
  ℕ, ◌+◌, ◌-◌, ◌<◌, ◌≤◌, ◌≡◌, refl, sym, ap, ◌∙◌, Bool, true, not, Bool-cases, inl, inr, List, [],
  ◌∷◌, ◌++◌, Perm, length, take, drop, le→ltb, length-perm, length-append, length-take, length-drop,
  get_or-take, get_or-drop, arith,
}
use go_collections.Prelude.Int.{pos}
use go_collections.Prelude.Outcome.{returned, Returns, returns}
use go_collections.Prelude.Slice.{Zero, slice_in_range}
use go_collections.ArrayList.{
  ArrayList, delete_func, remove_func, retain_func, size, every_of, every, filter_onto, filter,
  sub_list, get,
}
use go_collections.ArrayList.Access.{get_in_range}

module _ {ℓ} {A : Type ℓ} where
  delete_func-perm :
      (xs : List A) (p : A → Bool) → Perm (delete_func xs p ++ delete_func xs (λ x. not (p x))) xs
  unfolding delete_func
  delete_func-perm [] p = Perm.nil
  delete_func-perm (x ∷ xs) p = elim (Bool-cases (p x)) [
    | inl e ↦
        rw e (Perm.trans (perm_middle (delete_func xs p) _) (Perm.cons x (delete_func-perm xs p)))
    | inr e ↦ rw e (Perm.cons x (delete_func-perm xs p))
  ]

  every-delete_func :
      (xs : List A) (p : A → Bool) → every_of (delete_func xs p) (λ x. not (p x)) ≡ true
  unfolding delete_func every_of
  every-delete_func [] p = refl
  every-delete_func (x ∷ xs) p = elim (Bool-cases (p x)) [
    | inl e ↦ rw e (every-delete_func xs p)
    | inr e ↦ rw e (rw e (every-delete_func xs p))
  ]

  -- RemoveFunc and RetainFunc share the elements out: together they keep each once, RemoveFunc keeps
  -- none that satisfies the predicate, and counts those that RetainFunc keeps.
  pub remove_func-retain_func :
      (l : ArrayList A) (predicate : A → Bool)
      → Perm ((remove_func l predicate).1.items ++ (retain_func l predicate).1.items) l.items
        × (every (remove_func l predicate).1 (λ x. not (predicate x)) ≡ true)
        × ((remove_func l predicate).0 ≡ pos (size (retain_func l predicate).1))
  unfolding remove_func retain_func every size
  remove_func-retain_func l p =
      let parts = delete_func-perm l.items p in
      let total =
        sym (length-perm parts)
        ∙ length-append (delete_func l.items p) (delete_func l.items (λ x. not (p x))) in
      (parts, every-delete_func l.items p, rw total (ground arith))

  filter_onto-delete_func :
      (out xs : List A) (p : A → Bool)
      → filter_onto out xs p ≡ out ++ delete_func xs (λ x. not (p x))
  unfolding filter_onto delete_func
  filter_onto-delete_func out [] p = sym (append-nil out)
  filter_onto-delete_func out (x ∷ xs) p = elim (Bool-cases (p x)) [
    | inl e ↦ rw e (filter_onto-delete_func (out ++ x ∷ []) xs p ∙ append_assoc out (x ∷ []) _)
    | inr e ↦ rw e (filter_onto-delete_func out xs p)
  ]

  -- Filter makes a new list of what RetainFunc keeps.
  pub filter-retain_func :
      (l : ArrayList A) (predicate : A → Bool) → filter l predicate ≡ (retain_func l predicate).1
  unfolding filter retain_func remove_func
  filter-retain_func l predicate =
      ap (λ ys. record { items = ys }) (filter_onto-delete_func [] l.items predicate)

module _ {ℓ} {A : Type ℓ} ⦃z : Zero A⦄ where
  -- A part of a list within its bounds has the asked size, and the elements from `from` on.
  pub get-sub_list :
      (l : ArrayList A) (from to : ℕ)
      → from ≤ to
      → to ≤ length l.items
      → Returns
          (λ s.
            (size s ≡ to - from)
            × ((j : ℕ) → j < to - from → get s (pos j) ≡ get l (pos (from + j))))
          (sub_list l (pos from) (pos to))
  unfolding sub_list size
  get-sub_list l from to h k =
      let part = take (to - from) (drop from l.items) in
      let len : length part ≡ to - from =
        length-take (to - from) (drop from l.items) ∙ omega (arith, length-drop from l.items) in
      rw (le→ltb (length l.items) to k, le→ltb to from h, slice_in_range l.items from to h k)
        (returns (
          len,
          λ j p.
              get_in_range (record { items = part }) j (omega (arith, len))
              ∙ ap (λ v. returned (v, true))
                  (get_or-take (to - from) (drop from l.items) j z.zero_value p
                    ∙ get_or-drop from l.items j z.zero_value)
              ∙ sym (get_in_range l (from + j) (omega arith)),
        ))
