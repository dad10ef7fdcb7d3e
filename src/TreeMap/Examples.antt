-- ===== src/TreeMap/Examples.antt =====
-- Runs of the methods of treemap.go on a sorted list, and the theorems at a concrete map.
use go_collections.Prelude.{
  ℕ, ◌+◌, ◌*◌, ◌≡◌, not, ◌&&◌, if◌then◌else◌, refl, Bool, true, none, some, [], ◌∷◌, ltb, ◌==◌,
}
use go_collections.Prelude.Slice.{nat_zero}
use go_collections.Comparator.{IsComparator, compare_func, compare_func-IsComparator, nat_ordered}
use go_collections.BTree.{keep, head?, last?, less, BTree, IsBTree}
use go_collections.BTree.Sorted.{Sorted, sorted_btree, sorted_btree-IsBTree}
use go_collections.TreeMap.{
  entries, MapEntry, TreeMap, by_key, new, put, put_all, set_each, get, remove,
}
use go_collections.TreeMap.Conditional.{Conditional, replace-remove_if-get}
use go_collections.TreeMap.Navigate.{
  floor_entry, lower_entry, ceiling_entry, higher_entry, head_map, tail_map, sub_map,
  nearest_entries, head_map-tail_map-sub_map,
}
use go_collections.TreeMap.Change.{by_key-IsComparator, write_at, put-remove-get}
use go_collections.TreeMap.Update.{Updated, updates-get}

abbrev nat_law : IsComparator {A = ℕ} compare_func
nat_law = compare_func-IsComparator

abbrev key_law : IsComparator (by_key {V = ℕ} (compare_func {A = ℕ}))
key_law = by_key-IsComparator ℕ ℕ compare_func nat_law

abbrev sorted : BTree (Sorted (by_key {V = ℕ} (compare_func {A = ℕ}))) (MapEntry ℕ ℕ)
sorted = sorted_btree (by_key compare_func) key_law

abbrev sorted_law : IsBTree (by_key compare_func) sorted
sorted_law = sorted_btree-IsBTree (by_key compare_func) key_law

abbrev ages : TreeMap (Sorted (by_key {V = ℕ} (compare_func {A = ℕ})))
ages = put_all sorted (new sorted) (
    record { key = 7; value = 70 }
    ∷ record { key = 2; value = 20 }
    ∷ record { key = 7; value = 77 }
    ∷ [])

get_run : get sorted ages 7 ≡ some 77
unfolding get put_all set_each new compare_func
get_run = refl

put_run : (put sorted ages 2 25).0 ≡ some 20
unfolding put put_all set_each new compare_func
put_run = refl

abbrev grow : ℕ → ℕ → ℕ × Bool
grow old value = (old + value, true)

abbrev drop_small : ℕ → ℕ → ℕ × Bool
drop_small key old = (old, ltb 30 old)

abbrev count_up : ℕ → ℕ → Bool → ℕ × Bool
count_up key old exists = (old + 1, true)

put-remove-get_example :
    ((put sorted ages 2 25).0 ≡ get sorted ages 2)
    × (get sorted (put sorted ages 2 25).1 7
        ≡ write_at compare_func 2 (some 25) (get sorted ages) 7)
    × ((remove sorted ages 2).0 ≡ get sorted ages 2)
    × (get sorted (remove sorted ages 2).1 7 ≡ write_at compare_func 2 none (get sorted ages) 7)
put-remove-get_example = put-remove-get nat_law sorted_law ages 2 25 7

abbrev tenfold : ℕ → ℕ
tenfold key = key * 10

updates-get_example : Updated compare_func sorted ages 2 5 count_up drop_small grow tenfold 2
updates-get_example = updates-get nat_law sorted_law ages 2 5 count_up drop_small grow tenfold 2

replace-remove_if-get_example : Conditional compare_func sorted ages 2 25 20 ◌==◌ 2
replace-remove_if-get_example = replace-remove_if-get nat_law sorted_law ages 2 25 20 ◌==◌ 2

nearest_entries_example :
    (floor_entry sorted compare_func ages 5
      ≡ last? (keep (λ me. not (less compare_func 5 me.key)) (entries sorted ages)))
    × (lower_entry sorted compare_func ages 5
        ≡ last? (keep (λ me. less compare_func me.key 5) (entries sorted ages)))
    × (ceiling_entry sorted compare_func ages 5
        ≡ head? (keep (λ me. not (less compare_func me.key 5)) (entries sorted ages)))
    × (higher_entry sorted compare_func ages 5
        ≡ head? (keep (λ me. less compare_func 5 me.key) (entries sorted ages)))
nearest_entries_example = nearest_entries nat_law sorted_law ages 5

head_map-tail_map-sub_map_example :
    (entries sorted (head_map sorted compare_func ages 2 true)
      ≡ keep
          (λ me. if true then not (less compare_func 2 me.key) else less compare_func me.key 2)
          (entries sorted ages))
    × (entries sorted (tail_map sorted compare_func ages 2 true)
        ≡ keep
            (λ me. if true then not (less compare_func me.key 2) else less compare_func 2 me.key)
            (entries sorted ages))
    × (entries sorted (sub_map sorted compare_func ages 2 5)
        ≡ keep
            (λ me. not (less compare_func me.key 2) && not (less compare_func 5 me.key))
            (entries sorted ages))
head_map-tail_map-sub_map_example = head_map-tail_map-sub_map nat_law sorted_law ages 2 5 true
