-- ===== src/HashMap/Refine.antt =====
-- Any sequence of calls on a hash map answers as the same calls on a function do.
use go_collections.Prelude.{
  ◌≡◌, refl, ap, ◌∙◌, Bool, true, false, not, Bool-cases, inl, inr, Option, none, some, List, [],
  ◌∷◌, if◌then◌else◌,
}
use go_collections.Prelude.Slice.{Zero}
use go_collections.Comparator.{Equaler}
use go_collections.HashSet.{Comparable}
use go_collections.HashMap.{
  HashMap, write, delete, get, get_or_default, contains_key, put, put_if_absent, remove, remove_if,
  compute, compute_if_absent, settle, compute_if_present, merge, replace, replace_if,
}
use go_collections.HashMap.Entries.{update, contents, update_known, contents-write, contents-delete}

-- The calls of the Map interface at one key.
pub data Op {ℓ} (K V : Type ℓ) : Type ℓ where
  get_value : Op K V
  get_default : V → Op K V
  test_key : Op K V
  put_value : V → Op K V
  put_absent : V → Op K V
  take_out : Op K V
  take_out_if : V → Equaler V → Op K V
  compute_value : (K → V → Bool → V × Bool) → Op K V
  compute_absent : (K → V) → Op K V
  compute_present : (K → V → V × Bool) → Op K V
  merge_value : V → (V → V → V × Bool) → Op K V
  replace_value : V → Op K V
  replace_value_if : V → V → Equaler V → Op K V

pub data Reply {ℓ} (V : Type ℓ) : Type ℓ where
  value : V → Reply V
  found : V → Bool → Reply V
  answer : Bool → Reply V

module _ {ℓ} {V : Type ℓ} ⦃z : Zero V⦄ where
  -- A new value to keep, or none.
  abbrev kept : V × Bool → Reply V × Option V
  kept (v, true) = (found v true, some v)
  kept (v, false) = (found z.zero_value false, none)

module _ {ℓ} {K V : Type ℓ} ⦃c : Comparable K⦄ ⦃z : Zero V⦄ where
  -- What each call does with what the map has at its key.
  unfoldable pub cell_step : Op K V → K → Option V → Reply V × Option V
  cell_step get_value key (some v) = (found v true, some v)
  cell_step get_value key none = (found z.zero_value false, none)
  cell_step (get_default d) key (some v) = (value v, some v)
  cell_step (get_default d) key none = (value d, none)
  cell_step test_key key (some v) = (answer true, some v)
  cell_step test_key key none = (answer false, none)
  cell_step (put_value w) key (some v) = (found v true, some w)
  cell_step (put_value w) key none = (found z.zero_value false, some w)
  cell_step (put_absent w) key (some v) = (found v false, some v)
  cell_step (put_absent w) key none = (found w true, some w)
  cell_step take_out key (some v) = (found v true, none)
  cell_step take_out key none = (found z.zero_value false, none)
  cell_step (take_out_if w eq) key (some v) = (answer (eq v w), if eq v w then none else some v)
  cell_step (take_out_if w eq) key none = (answer false, none)
  cell_step (compute_value f) key (some v) = kept (f key v true)
  cell_step (compute_value f) key none = kept (f key z.zero_value false)
  cell_step (compute_absent f) key (some v) = (value v, some v)
  cell_step (compute_absent f) key none = (value (f key), some (f key))
  cell_step (compute_present f) key (some v) = kept (f key v)
  cell_step (compute_present f) key none = (found z.zero_value false, none)
  cell_step (merge_value w f) key (some v) = kept (f v w)
  cell_step (merge_value w f) key none = (found w true, some w)
  cell_step (replace_value w) key (some v) = (found v true, some w)
  cell_step (replace_value w) key none = (found z.zero_value false, none)
  cell_step (replace_value_if v' w eq) key (some v) =
      (answer (eq v v'), if eq v v' then some w else some v)
  cell_step (replace_value_if v' w eq) key none = (answer false, none)

  unfoldable pub function_run : List (K × Op K V) → (K → Option V) → List (Reply V) × (K → Option V)
  function_run [] f = ([], f)
  function_run (call ∷ calls) f =
      let r = cell_step call.1 call.0 (f call.0) in
      let (replies, f') = function_run calls (update call.0 r.1 f) in (r.0 ∷ replies, f')

  unfoldable pub step : Op K V → K → HashMap K V → Reply V × HashMap K V
  step get_value key h = let r = get h key in (found r.0 r.1, h)
  step (get_default d) key h = (value (get_or_default h key d), h)
  step test_key key h = (answer (contains_key h key), h)
  step (put_value w) key h = let r = put h key w in (found r.0 r.1, r.2)
  step (put_absent w) key h = let r = put_if_absent h key w in (found r.0 r.1, r.2)
  step take_out key h = let r = remove h key in (found r.0 r.1, r.2)
  step (take_out_if w eq) key h = let r = remove_if h key w eq in (answer r.0, r.1)
  step (compute_value f) key h = let r = compute h key f in (found r.0 r.1, r.2)
  step (compute_absent f) key h = let r = compute_if_absent h key f in (value r.0, r.1)
  step (compute_present f) key h = let r = compute_if_present h key f in (found r.0 r.1, r.2)
  step (merge_value w f) key h = let r = merge h key w f in (found r.0 r.1, r.2)
  step (replace_value w) key h = let r = replace h key w in (found r.0 r.1, r.2)
  step (replace_value_if v' w eq) key h = let r = replace_if h key v' w eq in (answer r.0, r.1)

  unfoldable pub run : List (K × Op K V) → HashMap K V → List (Reply V) × HashMap K V
  run [] h = ([], h)
  run (call ∷ calls) h =
      let (reply, h') = step call.1 call.0 h in
      let (replies, h'') = run calls h' in (reply ∷ replies, h'')

  -- A call that answers and leaves the map alone.
  unchanged :
      (h : HashMap K V) (key : K) (o : Option V) (reply : Reply V)
      → contents h key ≡ o
      → ◌≡◌ {A = Reply V × (K → Option V)} (reply, contents h) (reply, update key o (contents h))
  unchanged h key o reply e = ap (λ f. (reply, f)) (update_known (contents h) key o e)

  written :
      (h : HashMap K V) (key : K) (v : V) (reply : Reply V)
      → ◌≡◌ {A = Reply V × (K → Option V)}
          (reply, contents (record { entries = write h.entries key v }))
          (reply, update key (some v) (contents h))
  written h key v reply = ap (λ f. (reply, f)) (contents-write h.entries key v)

  deleted :
      (h : HashMap K V) (key : K) (reply : Reply V)
      → ◌≡◌ {A = Reply V × (K → Option V)}
          (reply, contents (record { entries = delete h.entries key }))
          (reply, update key none (contents h))
  deleted h key reply = ap (λ f. (reply, f)) (contents-delete h.entries key)

  -- One call does to its key what the call on the cell does, and nothing elsewhere.
  abbrev Refines : Op K V → K → HashMap K V → Option V → Type ℓ
  Refines op key h o =
      let r = step op key h in
      let a = cell_step op key o in
      ◌≡◌ {A = Reply V × (K → Option V)} (r.0, contents r.1) (a.0, update key a.1 (contents h))

  settled :
      (h : HashMap K V) (key : K) (r : V × Bool)
      → let s = settle h key r.0 r.1 in
        ◌≡◌ {A = Reply V × (K → Option V)}
          (found s.0 s.1, contents s.2)
          ((kept r).0, update key (kept r).1 (contents h))
  unfolding settle
  settled h key (v, true) = written h key v (found v true)
  settled h key (v, false) = deleted h key (found z.zero_value false)

  step_present :
      (op : Op K V) (key : K) (h : HashMap K V) (v : V)
      → contents h key ≡ some v
      → Refines op key h (some v)
  unfolding step cell_step get get_or_default contains_key put put_if_absent remove remove_if
      compute compute_if_absent compute_if_present merge replace replace_if contents settle
  step_present get_value key h v e = rw (step, get, e) (unchanged h key (some v) (found v true) e)
  step_present (get_default d) key h v e =
      rw (step, get_or_default, e) (unchanged h key (some v) (value v) e)
  step_present test_key key h v e =
      rw (step, contains_key, e) (unchanged h key (some v) (answer true) e)
  step_present (put_value w) key h v e = rw (step, put, get, e) (written h key w (found v true))
  step_present (put_absent w) key h v e =
      rw (step, put_if_absent, e) (unchanged h key (some v) (found v false) e)
  step_present take_out key h v e = rw (step, remove, get, e) (deleted h key (found v true))
  step_present (take_out_if w eq) key h v e =
      rw (step, remove_if, e)
        (elim (Bool-cases (eq v w)) [
          | inl t ↦ rw t (deleted h key (answer true))
          | inr t ↦ rw t (unchanged h key (some v) (answer false) e)
        ])
  step_present (compute_value f) key h v e =
      rw (step, compute, get, e) (settled h key (f key v true))
  step_present (compute_absent f) key h v e =
      rw (step, compute_if_absent, e) (unchanged h key (some v) (value v) e)
  step_present (compute_present f) key h v e =
      rw (step, compute_if_present, e) (settled h key (f key v))
  step_present (merge_value w f) key h v e = rw (step, merge, e) (settled h key (f v w))
  step_present (replace_value w) key h v e = rw (step, replace, e) (written h key w (found v true))
  step_present (replace_value_if v' w eq) key h v e =
      rw (step, replace_if, e)
        (elim (Bool-cases (eq v v')) [
          | inl t ↦ rw t (written h key w (answer true))
          | inr t ↦ rw t (unchanged h key (some v) (answer false) e)
        ])

  settled_absent :
      (h : HashMap K V) (key : K) (r : V × Bool)
      → contents h key ≡ none
      → let s : V × Bool × HashMap K V =
          if not r.1
          then (z.zero_value, false, h)
          else (r.0, true, record { entries = write h.entries key r.0 }) in
        ◌≡◌ {A = Reply V × (K → Option V)}
          (found s.0 s.1, contents s.2)
          ((kept r).0, update key (kept r).1 (contents h))
  settled_absent h key (v, true) e = written h key v (found v true)
  settled_absent h key (v, false) e = unchanged h key none (found z.zero_value false) e

  step_absent :
      (op : Op K V) (key : K) (h : HashMap K V) → contents h key ≡ none → Refines op key h none
  unfolding step cell_step get get_or_default contains_key put put_if_absent remove remove_if
      compute compute_if_absent compute_if_present merge replace replace_if contents settle
  step_absent get_value key h e =
      rw (step, get, e) (unchanged h key none (found z.zero_value false) e)
  step_absent (get_default d) key h e =
      rw (step, get_or_default, e) (unchanged h key none (value d) e)
  step_absent test_key key h e = rw (step, contains_key, e) (unchanged h key none (answer false) e)
  step_absent (put_value w) key h e =
      rw (step, put, get, e) (written h key w (found z.zero_value false))
  step_absent (put_absent w) key h e = rw (step, put_if_absent, e) (written h key w (found w true))
  step_absent take_out key h e =
      rw (step, remove, get, e) (unchanged h key none (found z.zero_value false) e)
  step_absent (take_out_if w eq) key h e =
      rw (step, remove_if, e) (unchanged h key none (answer false) e)
  step_absent (compute_value f) key h e =
      rw (step, compute, get, e) (settled_absent h key (f key z.zero_value false) e)
  step_absent (compute_absent f) key h e =
      rw (step, compute_if_absent, e) (written h key (f key) (value (f key)))
  step_absent (compute_present f) key h e =
      rw (step, compute_if_present, e) (unchanged h key none (found z.zero_value false) e)
  step_absent (merge_value w f) key h e = rw (step, merge, e) (written h key w (found w true))
  step_absent (replace_value w) key h e =
      rw (step, replace, e) (unchanged h key none (found z.zero_value false) e)
  step_absent (replace_value_if v' w eq) key h e =
      rw (step, replace_if, e) (unchanged h key none (answer false) e)

  step_of :
      (op : Op K V) (key : K) (h : HashMap K V) (o : Option V)
      → contents h key ≡ o
      → Refines op key h o
  step_of op key h none e = step_absent op key h e
  step_of op key h (some v) e = step_present op key h v e

  -- Every sequence of calls at keys gives the replies that the calls on a function from keys to
  -- values give, and leaves the map with what the function has then.
  pub run_map_refines :
      (calls : List (K × Op K V)) (h : HashMap K V)
      → ((run calls h).0, contents (run calls h).1) ≡ function_run calls (contents h)
  unfolding run function_run
  run_map_refines [] h = refl
  run_map_refines (call ∷ calls) h =
      let r = step call.1 call.0 h in
      let one = step_of call.1 call.0 h (contents h call.0) refl in
      let others = run_map_refines calls r.1 in
      ap (λ t. (r.0 ∷ t.0, t.1)) others
      ∙ ap (λ (q : Reply V × (K → Option V)). let t = function_run calls q.1 in (q.0 ∷ t.0, t.1))
          one
