-- ===== src/ArrayDeque/Grow.antt =====
-- copyTo, ToSlice and ensureCapacityForOne.
use native.Mathlib.Nat.{mod-eq_of_lt}
use mathlib.Core.List.{append_assoc, append-nil}
use go_collections.Prelude.{
  ℕ, ◌+◌, ◌-◌, ◌*◌, min, ◌≤◌, ◌<◌, ◌≡◌, refl, sym, ap, ◌∙◌, inl, inr, Bool-cases, List, [], ◌++◌,
  length, take, drop, replicate, get_or, ltb, ltb→lt, ltb→le, ◌==◌, if◌then◌else◌, length-append,
  length-take, length-drop, length-replicate, length-tabulate, take_append, drop_append, drop-drop,
  drop_all, get_or-append_left, get_or-append_right, get_or-take, get_or-drop, tabulate_ext, arith,
}
use go_collections.Prelude.Outcome.{returned, Returns, returns, Returns-branch}
use go_collections.Prelude.Slice.{Zero, slice_in_range, slice_prefix, slice_suffix, copy_fits}
use go_collections.ArrayDeque.{ArrayDeque, copy_to, to_slice, ensure_capacity_for_one}
use go_collections.ArrayDeque.Ring.{turn, turn_low, turn_high, entry, contents, IsValid, entry-turn}

module _ {ℓ} {A : Type ℓ} ⦃z : Zero A⦄ (d : ArrayDeque A) (v : IsValid d) where
  -- The two segments of the ring that hold the elements.
  abbrev first : List A
  first = take (min (d.head + d.size) (length d.buf) - d.head) (drop d.head d.buf)

  abbrev second : List A
  second = take (d.size - length first) d.buf

  length-first : length first ≡ min (d.head + d.size) (length d.buf) - d.head
  length-first = length-take _ (drop d.head d.buf) ∙ omega (arith, length-drop d.head d.buf)

  length-second : length second ≡ d.size - length first
  length-second = length-take (d.size - length first) d.buf ∙ omega (arith, v.fits)

  segments : 0 < d.size → contents d ≡ first ++ second
  segments h = tabulate_ext d.size (entry d) (first ++ second) z.zero_value len λ i p.
      elim (Bool-cases (ltb i (length first))) [
        | inl l ↦
            let q = ltb→lt i (length first) l in
            let same : turn (length d.buf) (d.head + i) ≡ d.head + i =
              turn_low _ _ (omega (arith, length-first)) in
            entry-turn d v i (omega (arith, v.fits))
            ∙ ap (λ k. get_or d.buf k z.zero_value) same
            ∙ sym (
                get_or-append_left first second i z.zero_value q
                ∙ get_or-take _ (drop d.head d.buf) i z.zero_value (omega (arith, length-first))
                ∙ get_or-drop d.head d.buf i z.zero_value)
        | inr r ↦
            let q = ltb→le i (length first) r in
            let same : turn (length d.buf) (d.head + i) ≡ i - length first =
              turn_high (length d.buf) (d.head + i) (omega (arith, length-first, v.fits))
              ∙ omega (arith, length-first) in
            entry-turn d v i (omega (arith, v.fits))
            ∙ ap (λ k. get_or d.buf k z.zero_value) same
            ∙ sym (
                get_or-append_right first second i z.zero_value q
                ∙ get_or-take _ d.buf (i - length first) z.zero_value (omega (arith, length-first)))
      ]
    where
      len : length (first ++ second) ≡ d.size
      len = length-append first second ∙ omega (arith, length-first, length-second, v.fits)

  -- copyTo writes the contents over the front of a slice with room.
  pub copy_to-contents :
      (dst : List A)
      → d.size ≤ length dst
      → copy_to d dst ≡ returned (contents d ++ drop d.size dst)
  unfolding copy_to
  copy_to-contents dst h = elim (Bool-cases (d.size == 0)) [
    | inl e ↦
        let empty : d.size ≡ 0 = ground arith in
        rw
          (e, tabulate_ext d.size (entry d) [] z.zero_value (sym empty) λ i p. absurd (omega arith))
          (ap (λ n. returned (drop n dst)) (sym empty))
    | inr e ↦
        let some_left : 0 < d.size = ground arith in
        let len : length first ≤ length dst = omega (arith, length-first) in
        rw
          (
            e,
            slice_in_range d.buf d.head (min (d.head + d.size) (length d.buf))
                (omega (arith, v.inside, v.fits)) (omega arith),
            copy_fits dst first len,
            slice_suffix (first ++ drop (length first) dst) (length first)
                (omega (arith, length-append first (drop (length first) dst))),
            drop_append first (drop (length first) dst),
            take_append first (drop (length first) dst),
            slice_prefix d.buf (d.size - length first) (omega (arith, v.fits)),
            copy_fits (drop (length first) dst) second
                (omega (arith, length-second, length-drop (length first) dst)),
            segments some_left,
          )
          (ap returned (
            ap (λ ys. first ++ (second ++ ys))
              (drop-drop (length second) (length first) dst
                ∙ ap (λ k. drop k dst) (omega (arith, length-first, length-second, v.fits)))
            ∙ sym (append_assoc first second (drop d.size dst))))
  ]

  -- ToSlice copies the contents.
  pub to_slice-contents : to_slice d ≡ returned (contents d)
  unfolding to_slice
  to_slice-contents =
      let blank = replicate d.size z.zero_value in
      copy_to-contents blank (omega (arith, length-replicate d.size z.zero_value))
      ∙ ap returned (
          ap (λ ys. contents d ++ ys)
            (drop_all d.size blank (omega (arith, length-replicate d.size z.zero_value)))
          ∙ append-nil (contents d))

module _ {ℓ} {A : Type ℓ} ⦃z : Zero A⦄ where
  -- A valid deque of the same contents, with room for one more.
  pub record Roomy (d e : ArrayDeque A) : Type ℓ where
    pub valid : IsValid e
    pub same : contents e ≡ contents d
    pub size : e.size ≡ d.size
    pub room : e.size < length e.buf

  -- The deque that the elements of `d` are moved to.
  abbrev moved : ArrayDeque A → ℕ → ArrayDeque A
  moved d n = record d {
    buf = contents d ++ drop d.size (replicate n z.zero_value);
    head = 0;
    tail = d.size;
  }

  moved-Roomy : (d : ArrayDeque A) (n : ℕ) → d.size < n → Roomy d (moved d n)
  moved-Roomy d n h = record {
    valid = record {
      fits = omega (arith, len);
      starts = omega (arith, len);
      inside = λ p. p;
      ends = sym (mod-eq_of_lt (omega (arith, len)) ∙ omega arith);
    };
    same =
        tabulate_ext d.size (entry (moved d n)) (contents d) z.zero_value
          (length-tabulate d.size (entry d))
          λ i p.
            ap (λ k. get_or (moved d n).buf k z.zero_value)
              (mod-eq_of_lt (omega (arith, len)) ∙ omega arith)
            ∙ get_or-append_left (contents d) _ i z.zero_value
                (omega (arith, length-tabulate d.size (entry d)));
    size = refl;
    room = omega (arith, len);
  }
    where
      len : length (moved d n).buf ≡ n
      len =
          length-append (contents d) (drop d.size (replicate n z.zero_value))
          ∙ omega (
            arith,
            length-tabulate d.size (entry d),
            length-drop d.size (replicate n z.zero_value),
            length-replicate n z.zero_value,
          )

  -- ensureCapacityForOne makes room and keeps the contents.
  pub ensure_capacity_for_one-Roomy :
      (d : ArrayDeque A) → IsValid d → Returns (Roomy d) (ensure_capacity_for_one d)
  unfolding ensure_capacity_for_one
  ensure_capacity_for_one-Roomy d v =
      Returns-branch (ltb d.size (length d.buf))
        (λ free. returns (record {
          valid = v;
          same = refl;
          size = refl;
          room = ltb→lt d.size (length d.buf) free;
        }))
        (λ full.
          let n = if ltb 0 (length d.buf) then length d.buf * 2 else 1 in
          let enough : d.size < n = ground (arith, v.fits, ltb→le d.size (length d.buf) full) in
          rw
            (copy_to-contents d v (replicate n z.zero_value)
              (omega (arith, length-replicate n z.zero_value)))
            (returns (moved-Roomy d n enough)))
