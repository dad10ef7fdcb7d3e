-- ===== src/ArrayList/Examples.antt =====
-- Runs of the methods of arraylist.go, and the theorems at concrete lists.
use go_collections.Prelude.{
  ℕ, ◌+◌, ◌-◌, ◌<◌, ◌≡◌, refl, Bool, true, false, [], ◌∷◌, ltb, ◌==◌, arith,
}
use go_collections.Prelude.Int.{pos, negsuc}
use go_collections.Prelude.Outcome.{returned, Returns}
use go_collections.Prelude.Slice.{nat_zero, load, store, slice, copy}
use go_collections.ArrayList.{
  ArrayList, delete_func, insert_slice, delete_slice, index_func, new, size, insert, insert_all,
  remove_func, retain_func, index_of_from, index_of, last_index_of_below, last_index_of, contains,
  find_index, sub_list, filter_onto, filter, any_of, any, every_of, every, for_each, get, set,
  remove_at, remove, remove_last, find_in, find,
}
use go_collections.ArrayList.Edit.{remove_at-insert, insert-remove_at}
use go_collections.ArrayList.Search.{erase_first, remove-erase_first}
use go_collections.ArrayList.Bulk.{get-sub_list}

-- All that the runs below compute with.
program : Unit {0}
unfolding delete_func insert_slice delete_slice index_func new size insert insert_all remove_func
    retain_func index_of_from index_of last_index_of_below last_index_of contains find_index
    sub_list filter_onto filter any_of any every_of every for_each get set remove_at remove
    remove_last find_in find load store slice copy
program = tt

abbrev sample : ArrayList ℕ
sample = record { items = 4 ∷ 7 ∷ 4 ∷ 9 ∷ [] }

abbrev nat_equal : ℕ → ℕ → Bool
nat_equal a b = a == b

abbrev small : ℕ → Bool
small n = ltb n 5

edits :
    (insert_all sample (pos 1) (1 ∷ 2 ∷ [])
      ≡ returned (true, record { items = 4 ∷ 1 ∷ 2 ∷ 7 ∷ 4 ∷ 9 ∷ [] }))
    × (insert sample (pos 5) 1 ≡ returned (false, sample))
    × (remove_last sample ≡ returned (9, true, record { items = 4 ∷ 7 ∷ 4 ∷ [] }))
    × (remove sample 7 nat_equal ≡ returned (true, record { items = 4 ∷ 4 ∷ 9 ∷ [] }))
    × (remove_func sample small ≡ (pos 2, record { items = 7 ∷ 9 ∷ [] }))
unfolding program
edits = (refl, refl, refl, refl, refl)

searches :
    (index_of sample 4 nat_equal ≡ pos 0)
    × (last_index_of sample 4 nat_equal ≡ pos 2)
    × (last_index_of sample 5 nat_equal ≡ negsuc 0)
    × (find sample (λ n. ltb 6 n) ≡ (7, true))
    × (sub_list sample (pos 3) (pos 1) ≡ returned new)
    × (for_each sample.items (λ n total. (total + n, ltb n 5)) 0 ≡ 11)
unfolding program
searches = (refl, refl, refl, refl, refl, refl)

remove_at-insert_example :
    Returns
      (λ r.
        (r.0 ≡ true → remove_at r.1 (pos 2) ≡ returned (5, true, sample))
        × (r.0 ≡ false → r.1 ≡ sample))
      (insert sample (pos 2) 5)
remove_at-insert_example = remove_at-insert sample (pos 2) 5

insert-remove_at_example :
    Returns
      (λ r.
        (get sample (pos 2) ≡ returned (r.0, r.1))
        × (r.1 ≡ true → insert r.2 (pos 2) r.0 ≡ returned (true, sample))
        × (r.1 ≡ false → r.2 ≡ sample))
      (remove_at sample (pos 2))
insert-remove_at_example = insert-remove_at sample (pos 2)

remove-erase_first_example :
    remove sample 4 nat_equal
    ≡ returned (
      contains sample 4 nat_equal,
      record { items = erase_first (λ v. nat_equal v 4) sample.items },
    )
remove-erase_first_example = remove-erase_first sample 4 nat_equal

get-sub_list_example :
    Returns
      (λ s. (size s ≡ 3 - 1) × ((j : ℕ) → j < 3 - 1 → get s (pos j) ≡ get sample (pos (1 + j))))
      (sub_list sample (pos 1) (pos 3))
get-sub_list_example = get-sub_list sample 1 3 (omega arith) (omega arith)
