-- ===== src/ArrayDeque/Back.antt =====
-- PushBack, PopBack and PeekBack against the list of the contents.
use native.Mathlib.Numerals.{add-one}
use go_collections.Prelude.{
  ℕ, suc, ◌+◌, ◌-◌, ◌<◌, ◌≡◌, refl, sym, ap, ◌∙◌, inl, inr, Bool-cases, [], ◌∷◌, ◌++◌, length, set,
  tabulate, get_or, ◌==◌, length-set, tabulate_snoc, get_or-set_self, get_or-set_ne, arith,
}
use go_collections.Prelude.Outcome.{returned, Returns, returns, Returns-branch, Returns-then}
use go_collections.Prelude.Ends.{unsnoc, unsnoc-append}
use go_collections.Prelude.Slice.{Zero, load_in_range, store_in_range}
use go_collections.ArrayDeque.{ArrayDeque, push_back, pop_back, peek_back}
use go_collections.ArrayDeque.Ring.{
  turn, back, back-lt, turn-lt, turn_next, back-turn, turn_apart, mod-turn, wrap-turn, wrap-back,
  entry, contents, IsValid, entry_at, tail-turn,
}
use go_collections.ArrayDeque.Grow.{ensure_capacity_for_one-Roomy}
use go_collections.ArrayDeque.Front.{Shows, contents_none}

module _ {ℓ} {A : Type ℓ} ⦃z : Zero A⦄ where
  module _ (d : ArrayDeque A) (v : IsValid d) (room : d.size < length d.buf) (x : A) where
    abbrev after : ℕ
    after = turn (length d.buf) (d.tail + 1)

    abbrev pushed : ArrayDeque A
    pushed = record d { buf = set d.buf d.tail x; tail = after; size = d.size + 1 }

    length-pushed : length pushed.buf ≡ length d.buf
    length-pushed = length-set d.buf d.tail x

    inside : d.head < length d.buf
    inside = v.inside (omega arith)

    at_tail : d.tail ≡ turn (length d.buf) (d.head + d.size)
    at_tail = tail-turn d v (omega arith)

    tail_inside : d.tail < length d.buf
    tail_inside = rw at_tail (turn-lt (length d.buf) d.head inside d.size (omega arith))

    pushed-IsValid : IsValid pushed
    pushed-IsValid = record {
      fits = omega (arith, length-pushed);
      starts = omega (arith, length-pushed, inside);
      inside = λ _. omega (arith, length-pushed, inside);
      ends =
          next
          ∙ sym (
              mod-turn (length pushed.buf) (d.head + (d.size + 1))
                (omega (arith, length-pushed, inside)));
    }
      where
        next : after ≡ turn (length pushed.buf) (d.head + (d.size + 1))
        next = rw (length-pushed, at_tail) (turn_next (length d.buf) d.head inside d.size room)

    pushed-entry : (i : ℕ) → i < d.size → entry pushed i ≡ entry d i
    pushed-entry i p =
        entry_at pushed pushed-IsValid i (turn (length d.buf) (d.head + i))
          (omega (arith, length-pushed)) (rw length-pushed refl)
        ∙ get_or-set_ne d.buf d.tail (turn (length d.buf) (d.head + i)) x z.zero_value
            (rw at_tail (turn_apart (length d.buf) d.head inside i d.size p room))
        ∙ sym (entry_at d v i _ (omega arith) refl)

    pushed_last : entry pushed d.size ≡ x
    pushed_last =
        entry_at pushed pushed-IsValid d.size d.tail (omega (arith, length-pushed))
          (rw length-pushed (sym at_tail))
        ∙ get_or-set_self d.buf d.tail x z.zero_value tail_inside

    pushed-contents : contents pushed ≡ contents d ++ x ∷ []
    pushed-contents =
        ap (λ n. tabulate n (entry pushed)) (add-one d.size)
        ∙ tabulate_snoc d.size (entry pushed) (entry d) x pushed-entry pushed_last

  -- PushBack puts the element behind the contents.
  pub push_back-contents :
      (d : ArrayDeque A) (x : A)
      → IsValid d
      → Returns (Shows (contents d ++ x ∷ [])) (push_back d x)
  unfolding push_back
  push_back-contents d x v = Returns-then (ensure_capacity_for_one-Roomy d v) λ e r.
      let inside' = tail_inside e r.valid r.room x in
      rw
        (
          store_in_range e.buf e.tail x inside',
          length-pushed e r.valid r.room x,
          wrap-turn (length e.buf) (e.tail + 1) (omega (arith, inside')),
        )
        (returns (
          pushed-IsValid e r.valid r.room x,
          pushed-contents e r.valid r.room x ∙ ap (λ ys. ys ++ x ∷ []) r.same,
        ))

  module _ (d : ArrayDeque A) (v : IsValid d) (n : ℕ) (size : d.size ≡ suc n) where
    abbrev last : ℕ
    last = back (length d.buf) d.tail

    abbrev popped : ArrayDeque A
    popped = record d { buf = set d.buf last z.zero_value; tail = last; size = d.size - 1 }

    length-popped : length popped.buf ≡ length d.buf
    length-popped = length-set d.buf last z.zero_value

    head_inside : d.head < length d.buf
    head_inside = v.inside (omega (arith, v.fits))

    fewer : n < length d.buf
    fewer = omega (arith, v.fits)

    tail_at : d.tail ≡ turn (length d.buf) (d.head + suc n)
    tail_at =
        tail-turn d v (omega (arith, head_inside)) ∙ ap (λ k. turn (length d.buf) (d.head + k)) size

    last_at : last ≡ turn (length d.buf) (d.head + n)
    last_at = rw tail_at (back-turn (length d.buf) d.head head_inside n fewer)

    old_tail_inside : d.tail < length d.buf
    old_tail_inside =
        rw tail_at (turn-lt (length d.buf) d.head head_inside (suc n) (omega (arith, fewer)))

    last_inside : last < length d.buf
    last_inside = back-lt (length d.buf) d.tail old_tail_inside

    popped-IsValid : IsValid popped
    popped-IsValid = record {
      fits = omega (arith, length-popped, v.fits);
      starts = omega (arith, length-popped, head_inside);
      inside = λ _. omega (arith, length-popped, head_inside);
      ends =
          last_at
          ∙ ap (turn (length d.buf)) (omega arith)
          ∙ ap (λ m. turn m (d.head + (d.size - 1))) (sym length-popped)
          ∙ sym (
              mod-turn (length popped.buf) (d.head + (d.size - 1))
                (omega (arith, length-popped, head_inside, fewer)));
    }

    popped-entry : (i : ℕ) → i < n → entry d i ≡ entry popped i
    popped-entry i p =
        entry_at d v i _ (omega (arith, fewer)) refl
        ∙ sym (
            entry_at popped popped-IsValid i (turn (length d.buf) (d.head + i))
              (omega (arith, length-popped, fewer)) (rw length-popped refl)
            ∙ get_or-set_ne d.buf last (turn (length d.buf) (d.head + i)) z.zero_value z.zero_value
                (rw last_at (turn_apart (length d.buf) d.head head_inside i n p fewer)))

    popped-contents : contents d ≡ contents popped ++ get_or d.buf last z.zero_value ∷ []
    popped-contents =
        ap (λ k. tabulate k (entry d)) size
        ∙ tabulate_snoc n (entry d) (entry popped) (get_or d.buf last z.zero_value) popped-entry
            (entry_at d v n last fewer (sym last_at))
        ∙ ap (λ k. tabulate k (entry popped) ++ get_or d.buf last z.zero_value ∷ []) (omega arith)

  -- PopBack takes the last element off the contents, and reports an empty deque.
  pub pop_back-contents :
      (d : ArrayDeque A)
      → IsValid d
      → Returns
          (λ r. IsValid r.2 × ((r.0, r.1, contents r.2) ≡ unsnoc z.zero_value (contents d)))
          (pop_back d)
  unfolding pop_back
  pop_back-contents d v =
      Returns-branch (d.size == 0) (λ e. returns (v, rw (contents_none d e)))
        (λ e.
          let size : d.size ≡ suc (d.size - 1) = ground arith in
          let n = d.size - 1 in
          rw
            (
              wrap-back (length d.buf) d.tail (old_tail_inside d v n size),
              load_in_range z.zero_value d.buf (last d v n size) (last_inside d v n size),
              store_in_range d.buf (last d v n size) z.zero_value (last_inside d v n size),
            )
            (returns (
              popped-IsValid d v n size,
              sym (
                  ap (unsnoc z.zero_value) (popped-contents d v n size)
                  ∙ unsnoc-append z.zero_value _ _),
            )))

  -- PeekBack shows what PopBack returns.
  pub peek_back-contents :
      (d : ArrayDeque A)
      → IsValid d
      → peek_back d
        ≡ returned ((unsnoc z.zero_value (contents d)).0, (unsnoc z.zero_value (contents d)).1)
  unfolding peek_back
  peek_back-contents d v = elim (Bool-cases (d.size == 0)) [
    | inl e ↦ rw (e, contents_none d e)
    | inr e ↦
        let size : d.size ≡ suc (d.size - 1) = ground arith in
        let n = d.size - 1 in
        rw (
          e,
          wrap-back (length d.buf) d.tail (old_tail_inside d v n size),
          load_in_range z.zero_value d.buf (last d v n size) (last_inside d v n size),
          popped-contents d v n size,
          unsnoc-append z.zero_value (contents (popped d v n size))
              (get_or d.buf (last d v n size) z.zero_value),
        )
  ]
