-- ===== src/PriorityQueue/Examples.antt =====
-- Runs of the methods of priorityqueue.go, and the theorems at concrete queues.
use go_collections.Prelude.{sym, ℕ, ◌≡◌, refl, true, false, some, List, [], ◌∷◌, ◌++◌, arith}
use go_collections.Prelude.Outcome.{returned, Returns, ◌>>=◌}
use go_collections.Prelude.Slice.{nat_zero, load, store, slice, exchange}
use go_collections.Comparator.{
  IsComparator, nat_ordered, compare_func, reverse_func, compare_func-IsComparator,
}
use go_collections.Codec.{Codec, IsCodec, Whenever}
use go_collections.PriorityQueue.Serialize.{marshal, unmarshal, unmarshal-marshal_priority}
use go_collections.PriorityQueue.{
  PriorityQueue, new, new_from, new_max, push, push_each, push_all, pop, peek, clear, heapify,
  heapify_loop, sift_up, sift_up_loop, sift_down, sift_down_loop, smallest_child, call,
}
use go_collections.PriorityQueue.Insert.{IsValid, Holds, push_correct, push_all_correct}
use go_collections.PriorityQueue.Remove.{Popped, pop_correct, peek-pop}
use go_collections.PriorityQueue.Drain.{Drained, drain_sorts}

-- All that the runs below compute with.
program : Unit {0}
unfolding new new_from new_max push push_each push_all pop peek clear heapify heapify_loop sift_up
    sift_up_loop sift_down sift_down_loop smallest_child call load store slice exchange compare_func
    reverse_func
program = tt

abbrev three : PriorityQueue ℕ
three = record { items = 1 ∷ 4 ∷ 3 ∷ []; cmp = some compare_func }

abbrev five : PriorityQueue ℕ
five = record { items = 1 ∷ 2 ∷ 7 ∷ 4 ∷ 9 ∷ []; cmp = some compare_func }

new_from_run : new_from (some compare_func) (9 ∷ 4 ∷ 7 ∷ 1 ∷ 2 ∷ []) ≡ returned five
unfolding program
new_from_run = refl

pop_run : pop five ≡ returned (1, true, record five { items = 2 ∷ 4 ∷ 7 ∷ 9 ∷ [] })
unfolding program
pop_run = refl

push_run : push five 3 ≡ returned (record five { items = 1 ∷ 2 ∷ 3 ∷ 4 ∷ 9 ∷ 7 ∷ [] })
unfolding program
push_run = refl

max_run :
    (do q ← new_max {A = ℕ}; q' ← push_all q (3 ∷ 8 ∷ 5 ∷ []); (v, found, _) ← pop q'; returned v)
    ≡ returned 8
unfolding program
max_run = refl

law : IsComparator {A = ℕ} compare_func
law = compare_func-IsComparator

five-IsValid : IsValid compare_func five
unfolding compare_func
five-IsValid = record { ordered = refl; heap = grind arith }

push_correct_example : Returns (Holds compare_func (3 ∷ five.items)) (push five 3)
push_correct_example = push_correct compare_func law five 3 five-IsValid

push_all_correct_example :
    Returns (Holds compare_func (five.items ++ 6 ∷ 0 ∷ [])) (push_all five (6 ∷ 0 ∷ []))
push_all_correct_example = push_all_correct compare_func law five (6 ∷ 0 ∷ []) five-IsValid

pop_correct_example : Returns (Popped compare_func five) (pop five)
pop_correct_example = pop_correct compare_func law five five-IsValid (omega arith)

peek-pop_example :
    Returns
      (λ r. (peek five ≡ returned (r.0, r.1)) × (r.1 ≡ false → (five.items ≡ []) × (r.2 ≡ five)))
      (pop five)
peek-pop_example = peek-pop compare_func law five five-IsValid

drain_sorts_example : (vs : List ℕ) × Drained compare_func law five vs
drain_sorts_example = drain_sorts compare_func law five five-IsValid

-- An encoder that writes the elements as they are.
abbrev plain : Codec ℕ (List ℕ)
plain = record { encode = λ xs. some xs; decode = λ bytes. some bytes }

plain-IsCodec : IsCodec plain
plain-IsCodec = record { reads_back = λ xs bytes e. sym e }

unmarshal-marshal_priority_example : Whenever (marshal plain five) λ bytes.
    Returns
      (λ r. (r.0 ≡ true) × Holds compare_func five.items r.1)
      (unmarshal plain (record { cmp = some compare_func; items = [] }) bytes)
unmarshal-marshal_priority_example =
    unmarshal-marshal_priority compare_func law plain five [] plain-IsCodec
