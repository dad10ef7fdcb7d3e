-- ===== src/ArrayDeque/Examples.antt =====
-- Runs of the methods of arraydeque.go, and the theorems at concrete deques.
use go_collections.Prelude.{sym, some, List, ℕ, ◌≡◌, refl, true, [], ◌∷◌, arith}
use go_collections.Prelude.Int.{rem}
use go_collections.Prelude.Outcome.{returned, Returns}
use go_collections.Prelude.Slice.{nat_zero, load, store, slice, copy}
use go_collections.Codec.{Codec, IsCodec, Whenever}
use go_collections.ArrayDeque.Serialize.{marshal, unmarshal, unmarshal-marshal_deque}
use go_collections.ArrayDeque.{
  ArrayDeque, new, new_with_capacity, new_from, clear, copy_to, to_slice, ensure_capacity_for_one,
  push_front, pop_front, peek_front, push_back, pop_back, peek_back, wrap, at, seq, seq_from,
  reversed, reversed_from,
}
use go_collections.ArrayDeque.Ring.{contents, IsValid}
use go_collections.ArrayDeque.Front.{Shows, push_front-contents}
use go_collections.ArrayDeque.Refine.{
  push_first, push_last, pop_first, pop_last, see_last, show_all, ask_empty, each_reversed, count,
  unit, element, elements, step, run, list_run, run_deque_refines,
}

-- All that the runs below compute with.
program : Unit {0}
unfolding new new_with_capacity new_from clear copy_to to_slice ensure_capacity_for_one push_front
    pop_front peek_front push_back pop_back peek_back wrap rem at seq seq_from reversed
    reversed_from load store slice copy step run
program = tt

-- Three elements that go round the end of the buffer.
abbrev sample : ArrayDeque ℕ
sample = record { buf = 7 ∷ 8 ∷ 0 ∷ 6 ∷ []; head = 3; tail = 2; size = 3 }

calls_run :
    run
      (push_last 2 ∷ push_first 1 ∷ push_last 3 ∷ show_all ∷ pop_last ∷ pop_first ∷ see_last ∷ [])
      (new {A = ℕ})
    ≡ returned (
      unit
          ∷ unit
          ∷ unit
          ∷ elements (1 ∷ 2 ∷ 3 ∷ [])
          ∷ element 3 true
          ∷ element 1 true
          ∷ element 2 true
          ∷ [],
      record { buf = 0 ∷ 2 ∷ 0 ∷ 0 ∷ []; head = 1; tail = 2; size = 1 },
    )
unfolding program
calls_run = refl

sample-IsValid : IsValid sample
sample-IsValid = record {
  fits = omega arith;
  starts = omega arith;
  inside = λ _. omega arith;
  ends = refl;
}

to_slice-sample : to_slice sample ≡ returned (6 ∷ 7 ∷ 8 ∷ [])
unfolding program
to_slice-sample = refl

push_front-contents_example : Returns (Shows (5 ∷ contents sample)) (push_front sample 5)
push_front-contents_example = push_front-contents sample 5 sample-IsValid

run_deque_refines_example :
    Returns
      (λ r.
        IsValid r.1
        × ((r.0, contents r.1)
            ≡ list_run
                (pop_first ∷ push_last 9 ∷ ask_empty ∷ each_reversed ∷ count ∷ [])
                (contents sample)))
      (run (pop_first ∷ push_last 9 ∷ ask_empty ∷ each_reversed ∷ count ∷ []) sample)
run_deque_refines_example =
    run_deque_refines (pop_first ∷ push_last 9 ∷ ask_empty ∷ each_reversed ∷ count ∷ []) sample
      sample-IsValid

-- An encoder that writes the elements as they are.
abbrev plain : Codec ℕ (List ℕ)
plain = record { encode = λ xs. some xs; decode = λ bytes. some bytes }

plain-IsCodec : IsCodec plain
plain-IsCodec = record { reads_back = λ xs bytes e. sym e }

unmarshal-marshal_deque_example :
    Returns
      (λ r. Whenever r λ bytes.
        ((unmarshal plain sample bytes).0 ≡ true)
        × Shows (contents sample) (unmarshal plain sample bytes).1)
      (marshal plain sample)
unmarshal-marshal_deque_example =
    unmarshal-marshal_deque plain sample sample plain-IsCodec sample-IsValid
