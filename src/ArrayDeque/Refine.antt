-- ===== src/ArrayDeque/Refine.antt =====
-- Any sequence of calls on a deque answers as the same calls on a list do.
use mathlib.Core.List.{reverse}
use go_collections.Prelude.{
  ℕ, ◌≡◌, refl, sym, ap, ◌∙◌, not, ◌==◌, length, length-tabulate, Bool, List, [], ◌∷◌, ◌++◌,
}
use go_collections.Prelude.Outcome.{Outcome, returned, Returns, returns, Returns-then, ◌>>=◌}
use go_collections.Prelude.Ends.{uncons, unsnoc, none_left, length-none_left}
use go_collections.Prelude.Slice.{Zero}
use go_collections.ArrayDeque.{
  ArrayDeque, is_empty, is_not_empty, seq, reversed, clear, to_slice, push_front, push_back,
  pop_front, pop_back, peek_front, peek_back,
}
use go_collections.ArrayDeque.Ring.{entry, contents, IsValid}
use go_collections.ArrayDeque.Grow.{to_slice-contents}
use go_collections.ArrayDeque.Front.{push_front-contents, pop_front-contents, peek_front-contents}
use go_collections.ArrayDeque.Back.{push_back-contents, pop_back-contents, peek_back-contents}
use go_collections.ArrayDeque.Iterate.{new_deque_contents, seq-contents, reversed-contents}
use go_collections.Prelude.Int.{pos}

-- The calls of the Deque interface but String. Seq and Reversed have a consumer that does not stop.
pub data Op {ℓ} (A : Type ℓ) : Type ℓ where
  push_first push_last : A → Op A
  pop_first pop_last see_first see_last show_all remove_all : Op A
  count ask_empty ask_not_empty each each_reversed : Op A

pub data Reply {ℓ} (A : Type ℓ) : Type ℓ where
  unit : Reply A
  number : ℕ → Reply A
  flag : Bool → Reply A
  element : A → Bool → Reply A
  elements : List A → Reply A

module _ {ℓ} {A : Type ℓ} ⦃z : Zero A⦄ where
  unfoldable pub step : Op A → ArrayDeque A → Outcome (Reply A × ArrayDeque A)
  step (push_first x) d = push_front d x >>= λ d'. returned (unit, d')
  step (push_last x) d = push_back d x >>= λ d'. returned (unit, d')
  step pop_first d = pop_front d >>= λ r. returned (element r.0 r.1, r.2)
  step pop_last d = pop_back d >>= λ r. returned (element r.0 r.1, r.2)
  step see_first d = peek_front d >>= λ r. returned (element r.0 r.1, d)
  step see_last d = peek_back d >>= λ r. returned (element r.0 r.1, d)
  step show_all d = to_slice d >>= λ xs. returned (elements xs, d)
  step remove_all d = returned (unit, clear d)
  step count d = returned (number d.size, d)
  step ask_empty d = returned (flag (is_empty d), d)
  step ask_not_empty d = returned (flag (is_not_empty d), d)
  step each d = seq d >>= λ xs. returned (elements xs, d)
  step each_reversed d = reversed d >>= λ xs. returned (elements xs, d)

  -- The same calls on a list, front to back.
  unfoldable pub list_step : Op A → List A → Reply A × List A
  list_step (push_first x) xs = (unit, x ∷ xs)
  list_step (push_last x) xs = (unit, xs ++ x ∷ [])
  list_step pop_first xs = let r = uncons z.zero_value xs in (element r.0 r.1, r.2)
  list_step pop_last xs = let r = unsnoc z.zero_value xs in (element r.0 r.1, r.2)
  list_step see_first xs = let r = uncons z.zero_value xs in (element r.0 r.1, xs)
  list_step see_last xs = let r = unsnoc z.zero_value xs in (element r.0 r.1, xs)
  list_step show_all xs = (elements xs, xs)
  list_step remove_all xs = (unit, [])
  list_step count xs = (number (length xs), xs)
  list_step ask_empty xs = (flag (none_left xs), xs)
  list_step ask_not_empty xs = (flag (not (none_left xs)), xs)
  list_step each xs = (elements xs, xs)
  list_step each_reversed xs = (elements (reverse xs), xs)

  unfoldable pub run : List (Op A) → ArrayDeque A → Outcome (List (Reply A) × ArrayDeque A)
  run [] d = returned ([], d)
  run (op ∷ ops) d = do
    (reply, d') ← step op d
    (replies, d'') ← run ops d'
    returned (reply ∷ replies, d'')

  unfoldable pub list_run : List (Op A) → List A → List (Reply A) × List A
  list_run [] xs = ([], xs)
  list_run (op ∷ ops) xs =
      let (reply, xs') = list_step op xs in
      let (replies, xs'') = list_run ops xs' in (reply ∷ replies, xs'')

  is_empty-contents : (d : ArrayDeque A) → is_empty d ≡ none_left (contents d)
  unfolding is_empty
  is_empty-contents d =
      ap (λ n. n == 0) (sym (length-tabulate d.size (entry d))) ∙ length-none_left (contents d)

  -- One call refines the call on the list of the contents.
  step_refines :
      (op : Op A) (d : ArrayDeque A)
      → IsValid d
      → Returns (λ r. IsValid r.1 × ((r.0, contents r.1) ≡ list_step op (contents d))) (step op d)
  unfolding step list_step is_not_empty
  step_refines (push_first x) d v =
      Returns-then (push_front-contents d x v) λ d' s. returns (s.0, ap (λ xs. (unit, xs)) s.1)
  step_refines (push_last x) d v =
      Returns-then (push_back-contents d x v) λ d' s. returns (s.0, ap (λ xs. (unit, xs)) s.1)
  step_refines pop_first d v =
      Returns-then (pop_front-contents d v)
        λ r s. returns (s.0, ap (λ t. (element t.0 t.1, t.2)) s.1)
  step_refines pop_last d v =
      Returns-then (pop_back-contents d v)
        λ r s. returns (s.0, ap (λ t. (element t.0 t.1, t.2)) s.1)
  step_refines see_first d v = rw (peek_front-contents d v) (returns (v, refl))
  step_refines see_last d v = rw (peek_back-contents d v) (returns (v, refl))
  step_refines show_all d v = rw (to_slice-contents d v) (returns (v, refl))
  step_refines remove_all d v =
      let s = (new_deque_contents [] (pos 0) d).3 in returns (s.0, ap (λ xs. (unit, xs)) s.1)
  step_refines count d v =
      returns (v, ap (λ n. (number n, contents d)) (sym (length-tabulate d.size (entry d))))
  step_refines ask_empty d v = returns (v, ap (λ c. (flag c, contents d)) (is_empty-contents d))
  step_refines ask_not_empty d v =
      returns (v, ap (λ c. (flag (not c), contents d)) (is_empty-contents d))
  step_refines each d v = rw (seq-contents d v) (returns (v, refl))
  step_refines each_reversed d v = rw (reversed-contents d v) (returns (v, refl))

  -- Every sequence of calls of the Deque interface but String, with consumers of Seq and Reversed that
  -- do not stop, on a valid circular buffer returns, keeps the buffer valid, and gives the replies and
  -- in the end the contents that the same calls on a list give.
  pub run_deque_refines :
      (ops : List (Op A)) (d : ArrayDeque A)
      → IsValid d
      → Returns (λ r. IsValid r.1 × ((r.0, contents r.1) ≡ list_run ops (contents d))) (run ops d)
  unfolding run list_run
  run_deque_refines [] d v = returns (v, refl)
  run_deque_refines (op ∷ ops) d v = Returns-then (step_refines op d v) λ (reply, d') s.
      Returns-then (run_deque_refines ops d' s.0)
        λ (replies, d'') t. returns (t.0, rw (← s.1, ← t.1))
