-- ===== src/ArrayQueue/Refine.antt =====
-- Any sequence of calls on a queue answers as the same calls on a list do.
use go_collections.Prelude.{ℕ, ◌≡◌, refl, ap, ◌∙◌, not, ◌==◌, Bool, List, [], ◌∷◌, ◌++◌, length}
use go_collections.Prelude.Int.{pos}
use go_collections.Prelude.Ends.{uncons, none_left, length-none_left}
use go_collections.Prelude.Outcome.{Outcome, returned, Returns, returns, Returns-then, ◌>>=◌}
use go_collections.Prelude.Slice.{Zero}
use go_collections.ArrayQueue.{
  ArrayQueue, Runtime, is_empty, is_not_empty, seq, size, enqueue, enqueue_all, to_slice, clear,
  dequeue, peek,
}
use go_collections.ArrayQueue.Contents.{
  contents, IsValid, size-to_slice, seq-contents, enqueue-contents, enqueue_all-contents,
  new_queue_contents, dequeue-contents, peek-contents,
}

-- The calls of the Queue interface but String. Seq has a consumer that does not stop.
pub data Op {ℓ} (A : Type ℓ) : Type ℓ where
  put : A → Op A
  put_all : List A → Op A
  get see count show_all remove_all : Op A
  ask_empty ask_not_empty each : Op A

pub data Reply {ℓ} (A : Type ℓ) : Type ℓ where
  unit : Reply A
  number : ℕ → Reply A
  flag : Bool → Reply A
  element : A → Bool → Reply A
  elements : List A → Reply A

module _ {ℓ} {A : Type ℓ} ⦃z : Zero A⦄ where
  -- The same calls on a list, front to back.
  unfoldable pub list_step : Op A → List A → Reply A × List A
  list_step (put x) xs = (unit, xs ++ x ∷ [])
  list_step (put_all ys) xs = (unit, xs ++ ys)
  list_step get xs = let r = uncons z.zero_value xs in (element r.0 r.1, r.2)
  list_step see xs = let r = uncons z.zero_value xs in (element r.0 r.1, xs)
  list_step count xs = (number (length xs), xs)
  list_step show_all xs = (elements xs, xs)
  list_step remove_all xs = (unit, [])
  list_step ask_empty xs = (flag (none_left xs), xs)
  list_step ask_not_empty xs = (flag (not (none_left xs)), xs)
  list_step each xs = (elements xs, xs)

  unfoldable pub list_run : List (Op A) → List A → List (Reply A) × List A
  list_run [] xs = ([], xs)
  list_run (op ∷ ops) xs =
      let (reply, xs') = list_step op xs in
      let (replies, xs'') = list_run ops xs' in (reply ∷ replies, xs'')

  module _ (rt : Runtime) where
    unfoldable pub step : Op A → ArrayQueue A → Outcome (Reply A × ArrayQueue A)
    step (put x) q = returned (unit, enqueue rt q x)
    step (put_all xs) q = returned (unit, enqueue_all rt q xs)
    step get q = dequeue q >>= λ r. returned (element r.0 r.1, r.2)
    step see q = peek q >>= λ r. returned (element r.0 r.1, q)
    step count q = returned (number (size q), q)
    step show_all q = to_slice q >>= λ xs. returned (elements xs, q)
    step remove_all q = returned (unit, clear q)
    step ask_empty q = returned (flag (is_empty q), q)
    step ask_not_empty q = returned (flag (is_not_empty q), q)
    step each q = seq q >>= λ xs. returned (elements xs, q)

    unfoldable pub run : List (Op A) → ArrayQueue A → Outcome (List (Reply A) × ArrayQueue A)
    run [] q = returned ([], q)
    run (op ∷ ops) q = do
      (reply, q') ← step op q
      (replies, q'') ← run ops q'
      returned (reply ∷ replies, q'')

    is_empty-contents : (q : ArrayQueue A) → IsValid q → is_empty q ≡ none_left (contents q)
    unfolding is_empty
    is_empty-contents q v = ap (λ n. n == 0) (size-to_slice q v).0 ∙ length-none_left (contents q)

    -- One call refines the call on the list of the contents.
    step_refines :
        (op : Op A) (q : ArrayQueue A)
        → IsValid q
        → Returns (λ r. IsValid r.1 × ((r.0, contents r.1) ≡ list_step op (contents q))) (step op q)
    unfolding step list_step is_not_empty
    step_refines (put x) q v =
        let s = enqueue-contents rt q x v in returns (s.0, ap (λ xs. (unit, xs)) s.1)
    step_refines (put_all ys) q v =
        let s = enqueue_all-contents rt q ys v in returns (s.0, ap (λ xs. (unit, xs)) s.1)
    step_refines get q v =
        Returns-then (dequeue-contents q v)
          λ r s. returns (s.0, ap (λ t. (element t.0 t.1, t.2)) s.1)
    step_refines see q v = rw (peek-contents q) (returns (v, refl))
    step_refines count q v = returns (v, ap (λ n. (number n, contents q)) (size-to_slice q v).0)
    step_refines show_all q v = rw ((size-to_slice q v).1) (returns (v, refl))
    step_refines remove_all q v =
        let s = (new_queue_contents [] (pos 0) q).3 in returns (s.0, ap (λ xs. (unit, xs)) s.1)
    step_refines ask_empty q v = returns (v, ap (λ c. (flag c, contents q)) (is_empty-contents q v))
    step_refines ask_not_empty q v =
        returns (v, ap (λ c. (flag (not c), contents q)) (is_empty-contents q v))
    step_refines each q v = rw (seq-contents q v) (returns (v, refl))

    -- Every sequence of calls of the Queue interface but String, with a consumer of Seq that does not
    -- stop, on a valid queue returns, keeps it valid, and gives the replies and in the end the contents
    -- that the same calls on a list give.
    pub run_queue_refines :
        (ops : List (Op A)) (q : ArrayQueue A)
        → IsValid q
        → Returns (λ r. IsValid r.1 × ((r.0, contents r.1) ≡ list_run ops (contents q))) (run ops q)
    unfolding run list_run
    run_queue_refines [] q v = returns (v, refl)
    run_queue_refines (op ∷ ops) q v = Returns-then (step_refines op q v) λ (reply, q') s.
        Returns-then (run_queue_refines ops q' s.0)
          λ (replies, q'') t. returns (t.0, rw (← s.1, ← t.1))
