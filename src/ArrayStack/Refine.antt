-- ===== src/ArrayStack/Refine.antt =====
-- Any sequence of calls on a stack answers as the same calls on a list do, the top last.
use mathlib.Core.List.{reverse, append-nil}
use mathlib.Core.Bool.{false}
use go_collections.Prelude.{
  ℕ, ◌-◌, ◌≡◌, refl, ap, ◌∙◌, Bool, not, List, [], ◌∷◌, ◌++◌, length, set, take, replicate,
  length-set, take-set, length-replicate, drop_all, ◌==◌, arith,
}
use go_collections.Prelude.Ends.{unsnoc}
use go_collections.Prelude.Outcome.{Outcome, returned, ◌>>=◌}
use go_collections.Prelude.Slice.{
  Zero, slice, copy_fits, load_in_range, store_in_range, slice_prefix,
}
use go_collections.ArrayStack.{
  ArrayStack, new, size, is_empty, is_not_empty, push, push_all, to_slice, seq, new_from, clear,
  pop, peek,
}

-- The calls of the Stack interface but String. Seq has a consumer that does not stop.
pub data Op {ℓ} (A : Type ℓ) : Type ℓ where
  put : A → Op A
  put_all : List A → Op A
  get see count test_empty test_not_empty show_all show_back remove_all : Op A

pub data Reply {ℓ} (A : Type ℓ) : Type ℓ where
  unit : Reply A
  number : ℕ → Reply A
  answer : Bool → Reply A
  element : A → Bool → Reply A
  elements : List A → Reply A

module _ {ℓ} {A : Type ℓ} ⦃z : Zero A⦄ where
  -- The same calls on a list, from the bottom to the top.
  unfoldable pub list_step : Op A → List A → Reply A × List A
  list_step (put x) xs = (unit, xs ++ x ∷ [])
  list_step (put_all ys) xs = (unit, xs ++ ys)
  list_step get xs = let r = unsnoc z.zero_value xs in (element r.0 r.1, r.2)
  list_step see xs = let r = unsnoc z.zero_value xs in (element r.0 r.1, xs)
  list_step count xs = (number (length xs), xs)
  list_step test_empty xs = (answer (length xs == 0), xs)
  list_step test_not_empty xs = (answer (not (length xs == 0)), xs)
  list_step show_all xs = (elements xs, xs)
  list_step show_back xs = (elements (reverse xs), xs)
  list_step remove_all xs = (unit, [])

  unfoldable pub list_run : List (Op A) → List A → List (Reply A) × List A
  list_run [] xs = ([], xs)
  list_run (op ∷ ops) xs =
      let (reply, xs') = list_step op xs in
      let (replies, xs'') = list_run ops xs' in (reply ∷ replies, xs'')

  unfoldable pub step : Op A → ArrayStack A → Outcome (Reply A × ArrayStack A)
  step (put x) s = returned (unit, push s x)
  step (put_all xs) s = returned (unit, push_all s xs)
  step get s = pop s >>= λ r. returned (element r.0 r.1, r.2)
  step see s = peek s >>= λ r. returned (element r.0 r.1, s)
  step count s = returned (number (size s), s)
  step test_empty s = returned (answer (is_empty s), s)
  step test_not_empty s = returned (answer (is_not_empty s), s)
  step show_all s = returned (elements (to_slice s), s)
  step show_back s = returned (elements (seq s), s)
  step remove_all s = returned (unit, clear s)

  unfoldable pub run : List (Op A) → ArrayStack A → Outcome (List (Reply A) × ArrayStack A)
  run [] s = returned ([], s)
  run (op ∷ ops) s = do
    (reply, s') ← step op s
    (replies, s'') ← run ops s'
    returned (reply ∷ replies, s'')

  abbrev stack : List A → ArrayStack A
  stack xs = record { items = xs }

  pop-stack :
      (xs : List A)
      → pop (stack xs) ≡ (let r = unsnoc z.zero_value xs in returned (r.0, r.1, stack r.2))
  unfolding pop
  pop-stack [] = refl
  pop-stack (x ∷ xs) =
      let n = length xs in
      let all = x ∷ xs in
      let last_index : length all - 1 ≡ n = omega arith in
      let filled : (length all == 0) ≡ false = ground arith in
      let kept : slice (set all n z.zero_value) 0 n ≡ returned (take n all) =
        slice_prefix (set all n z.zero_value) n (omega (arith, length-set all n z.zero_value))
        ∙ ap returned (take-set n all n z.zero_value (omega arith)) in
      rw (
        filled,
        last_index,
        load_in_range z.zero_value all n (omega arith),
        store_in_range all n z.zero_value (omega arith),
        kept,
      )

  peek-stack :
      (xs : List A) → peek (stack xs) ≡ (let r = unsnoc z.zero_value xs in returned (r.0, r.1))
  unfolding peek
  peek-stack [] = refl
  peek-stack (x ∷ xs) =
      let last_index : length (x ∷ xs) - 1 ≡ length xs = omega arith in
      let filled : (length (x ∷ xs) == 0) ≡ false = ground arith in
      rw (filled, last_index, load_in_range z.zero_value (x ∷ xs) (length xs) (omega arith))

  -- One call is the call on the list.
  step_refines :
      (op : Op A) (xs : List A)
      → step op (stack xs) ≡ (let r = list_step op xs in returned (r.0, stack r.1))
  unfolding step list_step size is_empty is_not_empty push push_all to_slice seq clear
  step_refines (put x) xs = refl
  step_refines (put_all ys) xs = refl
  step_refines get xs = rw (pop-stack xs)
  step_refines see xs = rw (peek-stack xs)
  step_refines count xs = refl
  step_refines test_empty xs = refl
  step_refines test_not_empty xs = refl
  step_refines show_all xs = refl
  step_refines show_back xs = refl
  step_refines remove_all xs = refl

  -- Every sequence of calls of the Stack interface but String, with a consumer of Seq that does not
  -- stop, returns, with the replies that the same calls on a list give, and leaves the elements that
  -- the list has then.
  pub run_stack_refines :
      (ops : List (Op A)) (xs : List A)
      → run ops (record { items = xs })
        ≡ returned ((list_run ops xs).0, record { items = (list_run ops xs).1 })
  unfolding run list_run
  run_stack_refines [] xs = refl
  run_stack_refines (op ∷ ops) xs =
      let r = list_step op xs in rw (step_refines op xs, run_stack_refines ops r.1)

  -- NewArrayStackFrom gives a stack of the given elements, though it copies them into a slice of
  -- zero values, and pushing them on a new stack gives the same.
  pub new_from-push_all : (xs : List A) → new_from xs ≡ push_all new xs
  unfolding new_from push_all new
  new_from-push_all xs = ap stack (
      ap (λ r. r.0)
        (copy_fits (replicate (length xs) z.zero_value) xs
          (omega (arith, length-replicate (length xs) z.zero_value)))
      ∙ rw
          (drop_all (length xs) (replicate (length xs) z.zero_value)
            (omega (arith, length-replicate (length xs) z.zero_value)))
          (append-nil xs))
