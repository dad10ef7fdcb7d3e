-- ===== src/LockFreeList/Loops.antt =====
-- The loops of the calls.
use go_collections.Prelude.{
  ℕ, ◌+◌, ◌-◌, ◌≡◌, refl, ap, ◌∙◌, Bool, true, false, Option, none, some, List, [], ◌==◌, arith,
}
use go_collections.LockFreeList.State.{
  Heap, head, tail, same_ref, next_at, state_at, link, retire, renew,
}
use go_collections.LockFreeList.Task.{
  done, answer, taken, counted, finished, append_next, append_swap, insert_next, insert_state,
  set_next, set_state, set_again, remove_at_next, remove_at_state, remove_next, remove_state,
  remove_last_next, remove_last_state, remove_func_next, remove_func_state,
}
use go_collections.LockFreeList.Action.{test_box, swap_last, step}
use go_collections.LockFreeList.Chain.{IsSound}
use mathlib.Core.Logic.{Lift}
use go_collections.LockFreeList.Nodes.{same_ref_refl, next_at-with_state}
use go_collections.LockFreeList.Chain.{IsSound}
use go_collections.LockFreeList.Keep.{head-IsNode}
use go_collections.LockFreeList.Fresh.{same_last}
use go_collections.LockFreeList.Walk.{
  Finishes, now, later, if-Finishes, swap-Finishes, swap_succeeds, if_live-Finishes, Loop,
  loop-Finishes,
}

module _ {ℓ} {A : Type ℓ} (h : Heap A) where
  pub same_pointers : (g : Heap A) → g ≡ h → (a : ℕ) → next_at g.nodes a ≡ next_at h.nodes a
  same_pointers g ok a = ap (λ f. next_at f.nodes a) ok

  unfoldable pub append_loop : A → List A → Loop A h.nodes Unit
  unfolding step
  append_loop x xs = record {
    Around = λ g. g ≡ h;
    next_task = λ m a. append_next x xs a;
    node_task = λ m a. append_next x xs a;
    end_task = λ m a. append_swap x xs a;
    pointers = same_pointers;
    loads = λ g m a. refl;
    at_end = λ g m a ok e. later (
        swap_succeeds (next_at g.nodes a) (some tail) (link g a x xs, finished done)
          (g, append_next x xs head) (same_pointers g ok a ∙ e) now);
    on_node = λ g m a ok f. f g m ok;
  }

  -- The loops that count live nodes up to an index
  unfoldable pub insert_loop : ℕ → A → Loop A h.nodes ℕ
  unfolding step
  insert_loop index x = record {
    Around = λ g. g ≡ h;
    next_task = insert_next index x;
    node_task = insert_state index x;
    end_task = λ i a. finished (answer false);
    pointers = same_pointers;
    loads = λ g i a. refl;
    at_end = λ g i a ok e. now;
    on_node = λ g i a ok f. later (
        if_live-Finishes g (state_at g.nodes a) _ _
          (λ v k.
            if-Finishes g (i == index - 1) _ _
              (later (
                later (
                  swap_succeeds (next_at g.nodes a) (next_at g.nodes a)
                    (link g a x [], finished (answer true)) (g, insert_next index x 0 head) refl
                    now)))
              (f g (i + 1) ok))
          (f g i ok));
  }

  unfoldable pub set_loop : ℕ → A → Loop A h.nodes ℕ
  unfolding step
  set_loop index x = record {
    Around = λ g. g ≡ h;
    next_task = set_next index x;
    node_task = set_state index x;
    end_task = λ i a. finished (taken none);
    pointers = same_pointers;
    loads = λ g i a. refl;
    at_end = λ g i a ok e. now;
    on_node = λ g i a ok f. later (
        if_live-Finishes g (state_at g.nodes a) _ _
          (λ v k.
            if-Finishes g (i == index) _ _
              (later (
                swap_succeeds (state_at g.nodes a) (some v) (renew g a x, finished (taken (some v)))
                  (g, set_again index x a) k now))
              (f g (i + 1) ok))
          (f g i ok));
  }

  unfoldable pub remove_at_loop : ℕ → Loop A h.nodes ℕ
  unfolding step
  remove_at_loop index = record {
    Around = λ g. g ≡ h;
    next_task = remove_at_next index;
    node_task = remove_at_state index;
    end_task = λ i a. finished (taken none);
    pointers = same_pointers;
    loads = λ g i a. refl;
    at_end = λ g i a ok e. now;
    on_node = λ g i a ok f. later (
        if_live-Finishes g (state_at g.nodes a) _ _
          (λ v k.
            if-Finishes g (i == index) _ _
              (later (
                swap_succeeds (state_at g.nodes a) (some v) (retire g a, finished (taken (some v)))
                  (g, remove_at_next index 0 head) k now))
              (f g (i + 1) ok))
          (f g i ok));
  }

  unfoldable pub remove_loop : (A → Bool) → Loop A h.nodes Unit
  unfolding step
  remove_loop test = record {
    Around = λ g. g ≡ h;
    next_task = λ m a. remove_next test a;
    node_task = λ m a. remove_state test a;
    end_task = λ m a. finished (taken none);
    pointers = same_pointers;
    loads = λ g m a. refl;
    at_end = λ g m a ok e. now;
    on_node = λ g m a ok f. later (
        if_live-Finishes g (state_at g.nodes a) _ _
          (λ v k.
            if-Finishes g (test_box test g v) _ _
              (later (
                swap_succeeds (state_at g.nodes a) (some v) (retire g a, finished (taken (some v)))
                  (g, remove_state test a) k now))
              (f g m ok))
          (f g m ok));
  }

  -- RemoveFunc goes on after a removal, which leaves the pointers.
  unfoldable pub remove_func_loop : (A → Bool) → Loop A h.nodes ℕ
  unfolding step retire
  remove_func_loop test = record {
    Around = λ g. Lift ((a : ℕ) → next_at g.nodes a ≡ next_at h.nodes a);
    next_task = remove_func_next test;
    node_task = remove_func_state test;
    end_task = λ n a. finished (counted n);
    pointers = λ g ok a. ok.lower a;
    loads = λ g n a. refl;
    at_end = λ g n a ok e. now;
    on_node = λ g n a ok f. later (
        if_live-Finishes g (state_at g.nodes a) _ _
          (λ v k.
            if-Finishes g (test_box test g v) _ _
              (later (
                swap_succeeds (state_at g.nodes a) (some v)
                  (retire g a, remove_func_next test (n + 1) a) (g, remove_func_next test n a) k
                  (f (retire g a) (n + 1)
                    record { lower = λ c. next_at-with_state g.nodes a c none ∙ ok.lower c })))
              (f g n ok))
          (f g n ok));
  }

  -- RemoveLast keeps the last live node that it has met, with its element.
  abbrev Met : Type 0
  Met = (last : Option (ℕ × ℕ)) × (same_last h last ≡ true)

  pub last-Finishes :
      (last : Option (ℕ × ℕ))
      → (same_last h last ≡ false → Finishes h (remove_last_next none head))
      → Finishes h (swap_last last)
  unfolding step swap_last
  last-Finishes none again = now
  last-Finishes (some (curr, v)) again = later (
      swap-Finishes (same_ref (state_at h.nodes curr) (some v))
        (retire h curr, finished (taken (some v))) (h, remove_last_next none head) (λ c. now) again)

  fresh_last_loop : Loop A h.nodes Met
  unfolding step
  fresh_last_loop = record {
    Around = λ g. g ≡ h;
    next_task = λ m a. remove_last_next m.0 a;
    node_task = λ m a. remove_last_state m.0 a;
    end_task = λ m a. swap_last m.0;
    pointers = same_pointers;
    loads = λ g m a. refl;
    at_end = λ g m a ok e. rw ok (last-Finishes m.0 λ c. let there = m.1 in absurd (ground arith));
    on_node = λ g m a ok f. later (
        if_live-Finishes g (state_at g.nodes a) (λ v. remove_last_next (some (a, v)) a)
          (remove_last_next m.0 a)
          (λ v k. f g (some (a, v), rw (← ok, k) (same_ref_refl (some v))) ok) (f g m ok));
  }

  pub fresh_last-Finishes : IsSound h.nodes → Finishes h (remove_last_next none head)
  unfolding fresh_last_loop
  fresh_last-Finishes s =
      loop-Finishes fresh_last_loop h (none, refl) head refl s (head-IsNode h.nodes s)

  unfoldable pub remove_last_loop : IsSound h.nodes → Loop A h.nodes (Option (ℕ × ℕ))
  unfolding step
  remove_last_loop s = record {
    Around = λ g. g ≡ h;
    next_task = remove_last_next;
    node_task = remove_last_state;
    end_task = λ last a. swap_last last;
    pointers = same_pointers;
    loads = λ g m a. refl;
    at_end = λ g last a ok e. rw ok (last-Finishes last λ c. fresh_last-Finishes s);
    on_node = λ g last a ok f. later (
        if_live-Finishes g (state_at g.nodes a) (λ v. remove_last_next (some (a, v)) a)
          (remove_last_next last a) (λ v k. f g (some (a, v)) ok) (f g last ok));
  }
