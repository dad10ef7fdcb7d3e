-- ===== src/TreeSet/Examples.antt =====
-- Runs of the methods of treeset.go on a sorted list, and the theorems at concrete sets.
use mathlib.Core.Logic.{◌↔◌}
use go_collections.Prelude.{
  ℕ, ◌+◌, ◌≡◌, refl, Bool, true, false, not, ◌&&◌, ◌||◌, [], ◌∷◌, Perm, ltb, if◌then◌else◌,
}
use go_collections.Prelude.Int.{pos, negsuc}
use go_collections.Prelude.Outcome.{returned, Returns}
use go_collections.Prelude.Slice.{nat_zero}
use go_collections.Comparator.{IsComparator, compare_func, compare_func-IsComparator, nat_ordered}
use go_collections.HashSet.{OtherSet}
use go_collections.BTree.{keep, head?, last?, less, alike, Ascending, BTree, IsBTree}
use go_collections.BTree.Ascending.{holds}
use go_collections.BTree.Sorted.{Sorted, sorted_btree, sorted_btree-IsBTree}
use go_collections.TreeSet.{
  TreeSet, new, new_from, add_each, size, to_slice, add, remove_func, contains, union, intersection,
  difference, symmetric_difference, filter, is_subset_of, is_disjoint, pop_first, pop_last, floor,
  lower, ceiling, higher, rank_loop, head_set, tail_set, sub_set, range_seq, rank,
}
use go_collections.TreeSet.Change.{
  add_tree_set, remove_func_tree_set, put_front, put_back, pop_ends,
}
use go_collections.TreeSet.Select.{tree_set_parts}
use go_collections.TreeSet.Ranges.{head_set-tail_set, sub_set-range_seq}
use go_collections.TreeSet.Algebra.{
  IsAlikeSet, contains-union-symmetric_difference, is_subset_of-is_disjoint,
}
use go_collections.TreeSet.Nearest.{nearest_elements}
use go_collections.TreeSet.Rank.{IsRank, rank-IsRank}

abbrev nat_law : IsComparator {A = ℕ} compare_func
nat_law = compare_func-IsComparator

abbrev sorted : BTree (Sorted {A = ℕ} compare_func) ℕ
sorted = sorted_btree compare_func nat_law

abbrev sorted_law : IsBTree compare_func sorted
sorted_law = sorted_btree-IsBTree compare_func nat_law

abbrev primes : TreeSet (Sorted {A = ℕ} compare_func)
primes = new_from sorted (7 ∷ 2 ∷ 5 ∷ 3 ∷ 5 ∷ [])

abbrev odds : OtherSet ℕ
odds = record { size = 3; seq = 5 ∷ 1 ∷ 3 ∷ []; contains = holds_odd }
  where
    holds_odd : ℕ → Bool
    holds_odd y = holds (alike compare_func y) (5 ∷ 1 ∷ 3 ∷ [])

abbrev small : ℕ → Bool
small n = ltb n 4

sorted_run : to_slice sorted primes ≡ 2 ∷ 3 ∷ 5 ∷ 7 ∷ []
unfolding to_slice new_from compare_func add_each add new
sorted_run = refl

rank_run : rank sorted compare_func primes 5 ≡ returned (pos 2)
unfolding rank rank_loop to_slice new_from compare_func add_each add new
rank_run = refl

rank_absent : rank sorted compare_func primes 6 ≡ returned (negsuc 0)
unfolding rank rank_loop to_slice new_from compare_func add_each add new
rank_absent = refl

four_absent : contains sorted primes 4 ≡ false
unfolding contains new_from compare_func add_each add new
four_absent = refl

odds-IsAlikeSet : IsAlikeSet compare_func odds
odds-IsAlikeSet y = refl

add_tree_set_example :
    ((add sorted primes 4).0 ≡ not (contains sorted primes 4))
    × Ascending compare_func (to_slice sorted (add sorted primes 4).1)
    × Perm
        (to_slice sorted (add sorted primes 4).1)
        (if contains sorted primes 4 then to_slice sorted primes else 4 ∷ to_slice sorted primes)
add_tree_set_example = add_tree_set nat_law sorted_law primes 4

remove_func_tree_set_example :
    (to_slice sorted (remove_func sorted primes small).1
      ≡ keep (λ y. not (small y)) (to_slice sorted primes))
    × ((remove_func sorted primes small).0 + size sorted (remove_func sorted primes small).1
        ≡ size sorted primes)
remove_func_tree_set_example = remove_func_tree_set nat_law sorted_law primes small

pop_ends_example :
    (to_slice sorted primes
      ≡ put_front (pop_first sorted primes).0 (to_slice sorted (pop_first sorted primes).1))
    × (to_slice sorted primes
        ≡ put_back (pop_last sorted primes).0 (to_slice sorted (pop_last sorted primes).1))
pop_ends_example = pop_ends nat_law sorted_law primes

tree_set_parts_example :
    (to_slice sorted (filter sorted primes small) ≡ keep small (to_slice sorted primes))
    × (to_slice sorted (intersection sorted primes odds)
        ≡ keep odds.contains (to_slice sorted primes))
    × (to_slice sorted (difference sorted primes odds)
        ≡ keep (λ y. not (odds.contains y)) (to_slice sorted primes))
tree_set_parts_example = tree_set_parts nat_law sorted_law primes odds small

head_set-tail_set_example :
    (to_slice sorted (head_set sorted compare_func primes 5 true)
      ≡ keep
          (λ y. if true then not (less compare_func 5 y) else less compare_func y 5)
          (to_slice sorted primes))
    × (to_slice sorted (tail_set sorted compare_func primes 5 true)
        ≡ keep
            (λ y. if true then not (less compare_func y 5) else less compare_func 5 y)
            (to_slice sorted primes))
head_set-tail_set_example = head_set-tail_set nat_law sorted_law primes 5 true

sub_set-range_seq_example :
    (to_slice sorted (sub_set sorted compare_func primes 3 5)
      ≡ keep
          (λ y. not (less compare_func y 3) && not (less compare_func 5 y))
          (to_slice sorted primes))
    × (range_seq sorted compare_func primes 3 5
        ≡ to_slice sorted (sub_set sorted compare_func primes 3 5))
sub_set-range_seq_example = sub_set-range_seq nat_law sorted_law primes 3 5

nearest_elements_example :
    (floor sorted primes 4
      ≡ last? (keep (λ y. not (less compare_func 4 y)) (to_slice sorted primes)))
    × (lower sorted compare_func primes 4
        ≡ last? (keep (λ y. less compare_func y 4) (to_slice sorted primes)))
    × (ceiling sorted primes 4
        ≡ head? (keep (λ y. not (less compare_func y 4)) (to_slice sorted primes)))
    × (higher sorted compare_func primes 4
        ≡ head? (keep (λ y. less compare_func 4 y) (to_slice sorted primes)))
nearest_elements_example = nearest_elements nat_law sorted_law primes 4

rank-IsRank_example :
    Returns (IsRank compare_func (to_slice sorted primes) 5) (rank sorted compare_func primes 5)
rank-IsRank_example = rank-IsRank nat_law sorted_law primes 5

contains-union-symmetric_difference_example :
    (contains sorted (union sorted primes odds) 4 ≡ contains sorted primes 4 || odds.contains 4)
    × (contains sorted (symmetric_difference sorted primes odds) 4
        ≡ contains sorted primes 4 && not (odds.contains 4)
          || odds.contains 4 && not (contains sorted primes 4))
contains-union-symmetric_difference_example =
    contains-union-symmetric_difference nat_law sorted_law primes odds odds-IsAlikeSet 4

is_subset_of-is_disjoint_example :
    ((is_subset_of sorted primes odds ≡ true)
      ↔ ((y : ℕ) → contains sorted primes y ≡ true → odds.contains y ≡ true))
    × ((is_disjoint sorted primes odds ≡ true)
        ↔ ((y : ℕ) → contains sorted primes y ≡ true → odds.contains y ≡ false))
is_subset_of-is_disjoint_example =
    is_subset_of-is_disjoint nat_law sorted_law primes odds odds-IsAlikeSet
