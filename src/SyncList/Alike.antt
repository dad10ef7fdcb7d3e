-- ===== src/SyncList/Alike.antt =====
-- RemoveFunc of the list in synclist.go, which moves elements in the slice, against the one of the
-- list in arraylist.go, which calls slices.DeleteFunc.
use mathlib.Core.List.{append_assoc, append-nil}
use go_collections.Prelude.{
  ℕ, zero, suc, ◌+◌, ◌<◌, ◌≡◌, refl, sym, ap, ◌∙◌, Bool, Bool-cases, inl, inr, List, [], ◌∷◌, ◌++◌,
  length, get_or, take, drop, replicate, set, length-set, length-take, length-append, drop_cons,
  drop-set, drop_all, take_append, arith,
}
use go_collections.Prelude.Outcome.{Returns, returns, Returns-then, Returns-weaken}
use go_collections.Prelude.Slice.{Zero, slice_suffix, slice_prefix, load_in_range, store_in_range}
use go_collections.ArrayList.{delete_func}
use go_collections.SyncList.{SyncList, keep_from, remove_func}

take_stored {ℓ} :
    {A : Type ℓ} (xs : List A) (n : ℕ) (v : A)
    → n < length xs
    → take (suc n) (set xs n v) ≡ take n xs ++ v ∷ []
take_stored [] n v h = absurd (omega arith)
take_stored (x ∷ xs) zero v h = refl
take_stored (x ∷ xs) (suc n) v h = ap (◌∷◌ x) (take_stored xs n v (omega arith))

module _ {ℓ} {A : Type ℓ} ⦃z : Zero A⦄ (p : A → Bool) where
  -- What the loop leaves: the kept elements in front, and as many others as were removed.
  record Kept (items : List A) (i kept removed : ℕ) (r : List A × ℕ × ℕ) : Type ℓ where
    same_length : length r.0 ≡ length items
    counted : r.1 + r.2 ≡ length items
    in_front : take r.1 r.0 ≡ take kept items ++ delete_func (drop i items) p

  keep_from-Kept :
      (left : ℕ) (items : List A) (i kept removed : ℕ)
      → i + left ≡ length items
      → kept + removed ≡ i
      → Returns (Kept items i kept removed) (keep_from p left items i kept removed)
  unfolding keep_from delete_func
  keep_from-Kept zero items i kept removed e c = returns record {
    same_length = refl;
    counted = omega arith;
    in_front = rw (drop_all i items (omega arith)) (sym (append-nil (take kept items)));
  }
  keep_from-Kept (suc left) items i kept removed e c =
      let v = get_or items i z.zero_value in
      let next : drop i items ≡ v ∷ drop (i + 1) items =
        drop_cons i items z.zero_value (omega arith)
        ∙ ap (λ n. v ∷ drop n items) {x = suc i} {y = i + 1} (omega arith) in
      rw (load_in_range z.zero_value items i (omega arith)) (elim (Bool-cases (p v)) [
        | inl t ↦ rw t (
            Returns-weaken
              (keep_from-Kept left items (i + 1) kept (removed + 1) (omega arith) (omega arith))
              λ r k. record {
                same_length = k.same_length;
                counted = k.counted;
                in_front = k.in_front ∙ rw (next, delete_func, t) refl;
              })
        | inr f ↦
            rw (f, store_in_range items kept v (omega arith))
              (Returns-weaken
                (keep_from-Kept left (set items kept v) (i + 1) (kept + 1) removed
                  (omega (arith, length-set items kept v)) (omega arith))
                λ r k. record {
                  same_length = k.same_length ∙ length-set items kept v;
                  counted = k.counted ∙ length-set items kept v;
                  in_front =
                      k.in_front
                      ∙ ap
                          (λ n.
                            take n (set items kept v)
                            ++ delete_func (drop (i + 1) (set items kept v)) p)
                          {y = suc kept} (omega arith)
                      ∙ rw
                          (
                            take_stored items kept v (omega arith),
                            drop-set (i + 1) items kept v (omega arith),
                            append_assoc (take kept items) (v ∷ [])
                                (delete_func (drop (i + 1) items) p),
                            next,
                            delete_func,
                            f,
                          )
                          refl;
                })
      ])

  -- RemoveFunc returns; it leaves what slices.DeleteFunc leaves, in the same order, and counts what
  -- is gone.
  pub remove_func-delete_func :
      (l : SyncList A)
      → Returns
          (λ r. (r.1.items ≡ delete_func l.items p) × (r.0 + length r.1.items ≡ length l.items))
          (remove_func l p)
  unfolding remove_func
  remove_func-delete_func l =
      Returns-then (keep_from-Kept (length l.items) l.items 0 0 0 (omega arith) (omega arith))
        λ r k.
          let front = take r.1 r.0 in
          let zeros = replicate (length (drop r.1 r.0)) z.zero_value in
          let len : length front ≡ r.1 =
            length-take r.1 r.0 ∙ omega (arith, k.counted, k.same_length) in
          let cut : take r.1 (front ++ zeros) ≡ front =
            ap (λ n. take n (front ++ zeros)) (sym len) ∙ take_append front zeros in
          rw
            (
              slice_suffix r.0 r.1 (omega (arith, k.counted, k.same_length)),
              slice_prefix (front ++ zeros) r.1 (omega (arith, length-append front zeros, len)),
              cut,
            )
            (returns (k.in_front, omega (arith, len, k.counted)))
