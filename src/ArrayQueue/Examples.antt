-- ===== src/ArrayQueue/Examples.antt =====
-- Runs of the methods of arrayqueue.go, and the theorems at concrete queues.
use go_collections.Prelude.{sym, some, List, ℕ, ◌+◌, ◌≡◌, refl, true, [], ◌∷◌, arith}
use go_collections.Prelude.Outcome.{returned, Returns}
use go_collections.Prelude.Slice.{nat_zero, load, store, slice, copy}
use go_collections.Codec.{Codec, IsCodec, Whenever}
use go_collections.ArrayQueue.Serialize.{marshal, unmarshal, unmarshal-marshal_queue}
use go_collections.ArrayQueue.{
  ArrayQueue, Runtime, new, new_with_capacity, new_from, size, enqueue, enqueue_all, to_slice,
  clear, compact, dequeue, peek,
}
use go_collections.ArrayQueue.Contents.{contents, IsValid, Shows, compact-contents}
use go_collections.ArrayQueue.Refine.{
  put, put_all, get, see, count, show_all, ask_empty, each, unit, number, element, elements, step,
  run, list_run, run_queue_refines,
}

-- All that the runs below compute with.
program : Unit {0}
unfolding new new_with_capacity new_from size enqueue enqueue_all to_slice clear compact dequeue
    peek load store slice copy step run
program = tt

-- A runtime that doubles what is needed.
abbrev doubling : Runtime
doubling = record {
  grown = λ old needed. needed + needed;
  grown_enough = λ old needed. omega arith;
}

abbrev sample : ArrayQueue ℕ
sample = record { items = 0 ∷ 5 ∷ 6 ∷ 7 ∷ []; room = 6; head = 1 }

calls_run :
    run doubling
      (put_all (1 ∷ 2 ∷ 3 ∷ []) ∷ get ∷ get ∷ put 4 ∷ see ∷ count ∷ show_all ∷ [])
      (new {A = ℕ})
    ≡ returned (
      unit
          ∷ element 1 true
          ∷ element 2 true
          ∷ unit
          ∷ element 3 true
          ∷ number 2
          ∷ elements (3 ∷ 4 ∷ [])
          ∷ [],
      record { items = 3 ∷ 4 ∷ []; room = 6; head = 0 },
    )
unfolding program
calls_run = refl

sample-IsValid : IsValid sample
sample-IsValid = record { half = omega arith; fits = omega arith }

compact-contents_example :
    Returns (λ q'. Shows (contents sample) q' × (q'.head ≡ 0)) (compact sample)
compact-contents_example = compact-contents sample (omega arith) (omega arith)

run_queue_refines_example :
    Returns
      (λ r.
        IsValid r.1
        × ((r.0, contents r.1)
            ≡ list_run (get ∷ get ∷ ask_empty ∷ each ∷ put 9 ∷ []) (contents sample)))
      (run doubling (get ∷ get ∷ ask_empty ∷ each ∷ put 9 ∷ []) sample)
run_queue_refines_example =
    run_queue_refines doubling (get ∷ get ∷ ask_empty ∷ each ∷ put 9 ∷ []) sample sample-IsValid

-- An encoder that writes the elements as they are.
abbrev plain : Codec ℕ (List ℕ)
plain = record { encode = λ xs. some xs; decode = λ bytes. some bytes }

plain-IsCodec : IsCodec plain
plain-IsCodec = record { reads_back = λ xs bytes e. sym e }

unmarshal-marshal_queue_example :
    Returns
      (λ r. Whenever r λ bytes.
        ((unmarshal plain 3 sample bytes).0 ≡ true)
        × Shows (contents sample) (unmarshal plain 3 sample bytes).1)
      (marshal plain sample)
unmarshal-marshal_queue_example =
    unmarshal-marshal_queue plain 3 sample sample plain-IsCodec sample-IsValid
