-- ===== src/ArrayDeque/Front.antt =====
-- PushFront, PopFront and PeekFront against the list of the contents.
use native.Mathlib.Numerals.{add-one}
use go_collections.Prelude.{
  ℕ, zero, suc, ◌+◌, ◌-◌, ◌<◌, ◌≡◌, refl, sym, ap, ◌∙◌, inl, inr, Bool-cases, true, List, [], ◌∷◌,
  length, set, get_or, ◌==◌, length-set, length-tabulate, tabulate_ext, get_or-tabulate,
  get_or-set_self, get_or-set_ne, arith,
}
use go_collections.Prelude.Outcome.{returned, Returns, returns, Returns-branch, Returns-then}
use go_collections.Prelude.Ends.{uncons}
use go_collections.Prelude.Slice.{Zero, load_in_range, store_in_range}
use go_collections.ArrayDeque.{ArrayDeque, push_front, pop_front, peek_front}
use go_collections.ArrayDeque.Ring.{
  turn, back, turn_low, back-lt, back_shift, back_ne, turn_ne, turn-lt, turn-turn, mod-turn,
  wrap-turn, wrap-back, entry, contents, IsValid, entry_at, tail-turn,
}
use go_collections.ArrayDeque.Grow.{ensure_capacity_for_one-Roomy}

module _ {ℓ} {A : Type ℓ} ⦃z : Zero A⦄ where
  -- A valid deque of the contents `xs`.
  abbrev pub Shows : List A → ArrayDeque A → Type ℓ
  Shows xs d = IsValid d × (contents d ≡ xs)

  module _ (d : ArrayDeque A) (v : IsValid d) (room : d.size < length d.buf) (x : A) where
    abbrev before : ℕ
    before = back (length d.buf) d.head

    abbrev pushed : ArrayDeque A
    pushed = record d { buf = set d.buf before x; head = before; size = d.size + 1 }

    length-pushed : length pushed.buf ≡ length d.buf
    length-pushed = length-set d.buf before x

    inside : d.head < length d.buf
    inside = v.inside (omega arith)

    before_inside : before < length d.buf
    before_inside = back-lt (length d.buf) d.head inside

    pushed-IsValid : IsValid pushed
    pushed-IsValid = record {
      fits = omega (arith, length-pushed);
      starts = omega (arith, length-pushed, before_inside);
      inside = λ _. omega (arith, length-pushed, before_inside);
      ends =
          tail-turn d v (omega arith)
          ∙ same
          ∙ sym (
              mod-turn (length pushed.buf) (before + (d.size + 1))
                (omega (arith, length-pushed, before_inside)));
    }
      where
        same :
            turn (length d.buf) (d.head + d.size) ≡ turn (length pushed.buf) (before + (d.size + 1))
        same =
            rw (length-pushed, add-one d.size)
              (sym (back_shift (length d.buf) d.head inside d.size room))

    pushed-entry : (i : ℕ) → i < d.size → entry pushed (suc i) ≡ entry d i
    pushed-entry i p =
        entry_at pushed pushed-IsValid (suc i) (turn (length d.buf) (d.head + i))
          (omega (arith, length-pushed))
          (rw length-pushed (back_shift (length d.buf) d.head inside i (omega arith)))
        ∙ get_or-set_ne d.buf before (turn (length d.buf) (d.head + i)) x z.zero_value
            (back_ne (length d.buf) d.head inside i (omega arith))
        ∙ sym (entry_at d v i _ (omega arith) refl)

    pushed_first : entry pushed 0 ≡ x
    pushed_first =
        entry_at pushed pushed-IsValid 0 before (omega (arith, length-pushed)) (
          rw length-pushed
            (turn_low (length d.buf) (before + 0) (omega (arith, before_inside)) ∙ omega arith))
        ∙ get_or-set_self d.buf before x z.zero_value before_inside

    pushed-contents : contents pushed ≡ x ∷ contents d
    pushed-contents =
        tabulate_ext (d.size + 1) (entry pushed) (x ∷ contents d) z.zero_value
          (omega (arith, length-tabulate d.size (entry d))) at_each
      where
        at_each : (i : ℕ) → i < d.size + 1 → entry pushed i ≡ get_or (x ∷ contents d) i z.zero_value
        at_each zero p = pushed_first
        at_each (suc i) p =
            pushed-entry i (omega arith)
            ∙ sym (get_or-tabulate d.size (entry d) i z.zero_value (omega arith))

  -- PushFront puts the element before the contents.
  pub push_front-contents :
      (d : ArrayDeque A) (x : A) → IsValid d → Returns (Shows (x ∷ contents d)) (push_front d x)
  unfolding push_front
  push_front-contents d x v = Returns-then (ensure_capacity_for_one-Roomy d v) λ e r.
      let inside = r.valid.inside (omega (arith, r.room)) in
      rw
        (
          wrap-back (length e.buf) e.head inside,
          store_in_range e.buf (back (length e.buf) e.head) x
              (back-lt (length e.buf) e.head inside),
        )
        (returns (
          pushed-IsValid e r.valid r.room x,
          pushed-contents e r.valid r.room x ∙ ap (◌∷◌ x) r.same,
        ))

  module _ (d : ArrayDeque A) (v : IsValid d) (some_left : 0 < d.size) where
    abbrev after : ℕ
    after = turn (length d.buf) (d.head + 1)

    abbrev popped : ArrayDeque A
    popped = record d { buf = set d.buf d.head z.zero_value; head = after; size = d.size - 1 }

    length-popped : length popped.buf ≡ length d.buf
    length-popped = length-set d.buf d.head z.zero_value

    head_inside : d.head < length d.buf
    head_inside = v.inside (omega (arith, v.fits))

    after_inside : after < length d.buf
    after_inside = turn-lt (length d.buf) d.head head_inside 1 (omega (arith, head_inside))

    popped-IsValid : IsValid popped
    popped-IsValid = record {
      fits = omega (arith, length-popped, v.fits);
      starts = omega (arith, length-popped, after_inside);
      inside = λ _. omega (arith, length-popped, after_inside);
      ends =
          tail-turn d v (omega (arith, head_inside))
          ∙ same
          ∙ sym (
              mod-turn (length popped.buf) (after + (d.size - 1))
                (omega (arith, length-popped, after_inside, v.fits)));
    }
      where
        same :
            turn (length d.buf) (d.head + d.size) ≡ turn (length popped.buf) (after + (d.size - 1))
        same = rw length-popped (
            ap (λ n. turn (length d.buf) (d.head + n)) (omega arith)
            ∙ sym
                (turn-turn (length d.buf) d.head head_inside (d.size - 1) (omega (arith, v.fits))))

    popped-entry : (i : ℕ) → suc i < d.size → entry d (suc i) ≡ entry popped i
    popped-entry i p =
        entry_at d v (suc i) _ (omega (arith, v.fits)) refl
        ∙ sym (
            entry_at popped popped-IsValid i (turn (length d.buf) (d.head + suc i))
              (omega (arith, length-popped, v.fits))
              (rw length-popped
                (turn-turn (length d.buf) d.head head_inside i (omega (arith, v.fits))))
            ∙ get_or-set_ne d.buf d.head (turn (length d.buf) (d.head + suc i)) z.zero_value
                z.zero_value (turn_ne (length d.buf) d.head head_inside i (omega (arith, v.fits))))

    first_entry : entry d 0 ≡ get_or d.buf d.head z.zero_value
    first_entry =
        entry_at d v 0 d.head (omega (arith, v.fits))
          (turn_low (length d.buf) (d.head + 0) (omega (arith, head_inside)) ∙ omega arith)

    popped-contents : contents d ≡ get_or d.buf d.head z.zero_value ∷ contents popped
    popped-contents =
        tabulate_ext d.size (entry d) (get_or d.buf d.head z.zero_value ∷ contents popped)
          z.zero_value (omega (arith, length-tabulate (d.size - 1) (entry popped))) at_each
      where
        at_each :
            (i : ℕ)
            → i < d.size
            → entry d i ≡ get_or (get_or d.buf d.head z.zero_value ∷ contents popped) i z.zero_value
        at_each zero p = first_entry
        at_each (suc i) p =
            popped-entry i p
            ∙ sym (get_or-tabulate (d.size - 1) (entry popped) i z.zero_value (omega arith))

  pub contents_none : (d : ArrayDeque A) → (d.size == 0) ≡ true → contents d ≡ []
  contents_none d e =
      tabulate_ext d.size (entry d) [] z.zero_value (ground arith) λ i p. absurd (ground arith)

  -- PopFront takes the first element off the contents, and reports an empty deque.
  pub pop_front-contents :
      (d : ArrayDeque A)
      → IsValid d
      → Returns
          (λ r. IsValid r.2 × ((r.0, r.1, contents r.2) ≡ uncons z.zero_value (contents d)))
          (pop_front d)
  unfolding pop_front
  pop_front-contents d v =
      Returns-branch (d.size == 0) (λ e. returns (v, rw (contents_none d e)))
        (λ e.
          let h : 0 < d.size = ground arith in
          rw
            (
              load_in_range z.zero_value d.buf d.head (head_inside d v h),
              store_in_range d.buf d.head z.zero_value (head_inside d v h),
              length-popped d v h,
              wrap-turn (length d.buf) (d.head + 1) (omega (arith, head_inside d v h)),
            )
            (returns (popped-IsValid d v h, rw (popped-contents d v h))))

  -- PeekFront shows what PopFront returns.
  pub peek_front-contents :
      (d : ArrayDeque A)
      → IsValid d
      → peek_front d
        ≡ returned ((uncons z.zero_value (contents d)).0, (uncons z.zero_value (contents d)).1)
  unfolding peek_front
  peek_front-contents d v = elim (Bool-cases (d.size == 0)) [
    | inl e ↦ rw (e, contents_none d e)
    | inr e ↦
        let h : 0 < d.size = ground arith in
        rw (e, load_in_range z.zero_value d.buf d.head (head_inside d v h), popped-contents d v h)
  ]
