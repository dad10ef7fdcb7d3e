-- ===== src/ArrayQueue/Contents.antt =====
-- Every method of arrayqueue.go against the list of the elements that are not consumed.
use mathlib.Core.List.{append-nil}
use go_collections.Prelude.{
  ℕ, suc, ◌+◌, ◌-◌, ◌/◌, ◌≤◌, ◌≡◌, refl, sym, ap, ◌∙◌, inl, inr, true, Bool-cases, List, [], ◌∷◌,
  ◌++◌, ◌&&◌, length, take, drop, set, replicate, get_or, ltb, leb, ltb→le, leb→lt, leb→le, ◌==◌,
  length-append, length-drop, length-take, length-set, length-replicate, drop_all, take_append,
  drop-set, drop_cons, drop-append, arith,
}
use go_collections.Prelude.Int.{ℤ}
use go_collections.Prelude.Ends.{uncons}
use go_collections.Prelude.Outcome.{returned, Returns, returns, Returns-branch, Returns-then}
use go_collections.Prelude.Slice.{
  Zero, copy, load_in_range, store_in_range, slice_prefix, slice_suffix, copy_fits,
}
use go_collections.ArrayQueue.{
  ArrayQueue, Runtime, room_for, new, new_with_capacity, new_from, size, enqueue, enqueue_all,
  to_slice, seq, clear, compact, dequeue, peek,
}

-- The capacity after append holds the elements.
room_enough : (rt : Runtime) (old needed : ℕ) → needed ≤ room_for rt old needed
room_enough rt old needed = ground (arith, rt.grown_enough old needed)

module _ {ℓ} {A : Type ℓ} where
  -- The list that a queue stands for, front to back.
  abbrev pub contents : ArrayQueue A → List A
  contents q = drop q.head q.items

  -- No more than half of the slice is consumed, and the slice fits its capacity.
  pub record IsValid (q : ArrayQueue A) : Type 0 where
    pub half : q.head ≤ length q.items / 2
    pub fits : length q.items ≤ q.room

  abbrev pub Shows : List A → ArrayQueue A → Type ℓ
  Shows xs q = IsValid q × (contents q ≡ xs)

  -- Size counts the contents, and ToSlice copies them.
  pub size-to_slice :
      (q : ArrayQueue A)
      → IsValid q
      → (size q ≡ length (contents q)) × (to_slice q ≡ returned (contents q))
  unfolding size to_slice
  size-to_slice q v =
      (sym (length-drop q.head q.items), slice_suffix q.items q.head (omega (arith, v.half)))

  -- Seq yields the contents.
  pub seq-contents : (q : ArrayQueue A) → IsValid q → seq q ≡ returned (contents q)
  unfolding seq
  seq-contents q v = slice_suffix q.items q.head (omega (arith, v.half))

  module _ (rt : Runtime) where
    -- EnqueueAll puts the elements behind the contents.
    pub enqueue_all-contents :
        (q : ArrayQueue A) (elements : List A)
        → IsValid q
        → Shows (contents q ++ elements) (enqueue_all rt q elements)
    unfolding enqueue_all
    enqueue_all-contents q elements v = (
      record {
        half = omega (arith, v.half, length-append q.items elements);
        fits = room_enough rt q.room (length (q.items ++ elements));
      },
      drop-append q.head q.items elements (omega (arith, v.half)),
    )

    -- Enqueue puts the element behind the contents.
    pub enqueue-contents :
        (q : ArrayQueue A) (x : A) → IsValid q → Shows (contents q ++ x ∷ []) (enqueue rt q x)
    unfolding enqueue
    enqueue-contents q x v = (
      record {
        half = omega (arith, v.half, length-append q.items (x ∷ []));
        fits = room_enough rt q.room (length (q.items ++ x ∷ []));
      },
      drop-append q.head q.items (x ∷ []) (omega (arith, v.half)),
    )

module _ {ℓ} {A : Type ℓ} ⦃z : Zero A⦄ where
  -- Every constructor and Clear give a valid queue: of the given elements, and of none.
  pub new_queue_contents :
      (elements : List A) (capacity : ℤ) (q : ArrayQueue A)
      → Shows elements (new_from elements)
        × Shows {A = A} [] new
        × Shows {A = A} [] (new_with_capacity capacity)
        × Shows {A = A} [] (clear q)
  unfolding new new_from new_with_capacity clear
  new_queue_contents elements capacity q = (
    rw
        (
          copy_fits (replicate (length elements) z.zero_value) elements
              (omega (arith, length-replicate (length elements) z.zero_value)),
          drop_all (length elements) (replicate (length elements) z.zero_value)
              (omega (arith, length-replicate (length elements) z.zero_value)),
          append-nil elements,
        )
        (record { half = omega arith; fits = omega arith }, refl),
    (record { half = omega arith; fits = omega arith }, refl),
    (record { half = omega arith; fits = omega arith }, refl),
    (record { half = omega arith; fits = omega arith }, refl),
  )

  module _ (q : ArrayQueue A) (within : q.head ≤ length q.items)
      (fits : length q.items ≤ q.room) where
    abbrev live : ℕ
    live = length q.items - q.head

    length-rest : length (contents q) ≡ live
    length-rest = length-drop q.head q.items

    -- The copy to a new slice.
    shrunk-rest : (copy (replicate live z.zero_value) (contents q)).0 ≡ contents q
    shrunk-rest =
        let blank = length-replicate live z.zero_value in
        rw
          (
            copy_fits (replicate live z.zero_value) (contents q)
                (omega (arith, length-rest, blank)),
            drop_all (length (contents q)) (replicate live z.zero_value)
                (omega (arith, length-rest, blank)),
          )
          (append-nil (contents q))

    -- The shift in place.
    shifted-rest :
        (copy (take live q.items) (contents q)).0 ++ drop live q.items
        ≡ contents q ++ drop live q.items
    shifted-rest =
        let front = length-take live q.items in
        rw (
          copy_fits (take live q.items) (contents q) (omega (arith, length-rest, front)),
          drop_all (length (contents q)) (take live q.items) (omega (arith, length-rest, front)),
          append-nil (contents q),
        )

    cut_rest : (ys : List A) → take live (contents q ++ ys) ≡ contents q
    cut_rest ys = rw (← length-rest) (take_append (contents q) ys)

    -- compact keeps the contents, in either way, and leaves nothing consumed.
    pub compact-contents : Returns (λ q'. Shows (contents q) q' × (q'.head ≡ 0)) (compact q)
    unfolding compact
    compact-contents =
        Returns-branch (q.head == 0)
          (λ e.
            let none_consumed : q.head ≡ 0 = ground arith in
            returns (((record { half = omega arith; fits = fits }), refl), none_consumed))
          λ _.
            Returns-branch (ltb live (q.room / 4) && ltb 64 q.room)
              (λ _.
                rw (slice_suffix q.items q.head within, shrunk-rest)
                  (returns ((record { half = omega arith; fits = omega arith }, refl), refl)))
              (λ _.
                let len = length-append (contents q) (drop live q.items) in
                let cleared =
                  replicate (length (drop live (contents q ++ drop live q.items))) z.zero_value in
                rw
                  (
                    slice_prefix q.items live (omega arith),
                    slice_suffix q.items q.head within,
                    shifted-rest,
                    slice_suffix (contents q ++ drop live q.items) live
                        (omega (arith, len, length-rest)),
                    cut_rest (drop live q.items),
                    slice_prefix (contents q ++ cleared) live
                        (omega (arith, length-append (contents q) cleared, length-rest)),
                    cut_rest cleared,
                  )
                  (returns (
                    (record { half = omega arith; fits = omega (arith, length-rest) }, refl),
                    refl,
                  )))

  -- Dequeue takes the first element off the contents, and reports an empty queue.
  pub dequeue-contents :
      (q : ArrayQueue A)
      → IsValid q
      → Returns
          (λ r. IsValid r.2 × ((r.0, r.1, contents r.2) ≡ uncons z.zero_value (contents q)))
          (dequeue q)
  unfolding dequeue
  dequeue-contents q v =
      Returns-branch (leb (length q.items) q.head)
        (λ e. returns (v, rw (drop_all q.head q.items (leb→le (length q.items) q.head e))))
        (λ e.
          let h = leb→lt (length q.items) q.head e in
          let head' : q.head + 1 ≡ suc q.head = omega arith in
          let len = length-set q.items q.head z.zero_value in
          let front = ap (uncons z.zero_value) (drop_cons q.head q.items z.zero_value h) in
          let rest =
            ap (λ n. drop n (set q.items q.head z.zero_value)) head'
            ∙ drop-set (suc q.head) q.items q.head z.zero_value (omega arith) in
          rw
            (
              load_in_range z.zero_value q.items q.head h,
              store_in_range q.items q.head z.zero_value h,
              front,
            )
            (elim (Bool-cases (ltb (length (set q.items q.head z.zero_value) / 2) (q.head + 1))) [
              | inl late ↦ rw late (
                  Returns-then
                    (compact-contents
                      (record q { items = set q.items q.head z.zero_value; head = q.head + 1 })
                      (omega (arith, len)) (omega (arith, len, v.fits)))
                    λ q' s. returns (
                      s.0.0,
                      ap (λ xs. (get_or q.items q.head z.zero_value, true, xs)) (s.0.1 ∙ rest),
                    ))
              | inr early ↦ rw early (
                  returns (
                    record { half = ltb→le _ _ early; fits = omega (arith, len, v.fits) },
                    ap (λ xs. (get_or q.items q.head z.zero_value, true, xs)) rest,
                  ))
            ]))

  -- Peek shows what Dequeue returns.
  pub peek-contents :
      (q : ArrayQueue A)
      → peek q
        ≡ returned ((uncons z.zero_value (contents q)).0, (uncons z.zero_value (contents q)).1)
  unfolding peek
  peek-contents q = elim (Bool-cases (leb (length q.items) q.head)) [
    | inl e ↦ rw (e, drop_all q.head q.items (leb→le (length q.items) q.head e))
    | inr e ↦
        let h = leb→lt (length q.items) q.head e in
        rw (e, load_in_range z.zero_value q.items q.head h, drop_cons q.head q.items z.zero_value h)
  ]
