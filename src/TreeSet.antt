-- ===== src/TreeSet.antt =====
-- treeset.go: a sorted set in a B-tree.
-- The B-tree's calls are a parameter, and so is the comparator, which a set keeps for life. A call
-- that returns `(element, ok)` returns an option: `none` for `(zero, false)`.
pub mod Change
pub mod Select
pub mod Ranges
pub mod Algebra
pub mod Nearest
pub mod Rank
mod Examples
use go_collections.Prelude.{
  ℕ, zero, suc, ◌+◌, ◌-◌, ◌/◌, ◌≡◌, Bool, true, false, not, ◌&&◌, ◌||◌, Option, none, some, List,
  [], ◌∷◌, ◌++◌, length, leb, ltb, ◌==◌, if◌then◌else◌,
}
use go_collections.Prelude.Int.{ℤ, pos, negsuc, is_neg, is_pos, to_nat, sub_ℕ}
use go_collections.Prelude.Outcome.{Outcome, returned, diverged, ◌>>=◌}
use go_collections.Prelude.Slice.{Zero}
use go_collections.Comparator.{Comparator}
use go_collections.HashSet.{OtherSet}
use go_collections.BTree.{BTree, is_some}

pub record TreeSet {ℓ} (Tree : Type ℓ) : Type ℓ where
  pub bt : Tree

-- The first item that a callback is given, where it stops at once.
pub first_of {ℓ} : {A : Type ℓ} → List A → Option A
first_of [] = none
first_of (item ∷ items) = some item

-- The first item that passes the callback's test, where it stops.
pub first_where {ℓ} : {A : Type ℓ} → (A → Bool) → List A → Option A
first_where test [] = none
first_where test (item ∷ items) =
    let rest = first_where test items in if test item then some item else rest

-- The callbacks of IsSubsetOf, Equals and Every.
pub all_pass {ℓ} : {A : Type ℓ} → (A → Bool) → List A → Bool
all_pass test [] = true
all_pass test (item ∷ items) =
    let rest = all_pass test items in if not (test item) then false else rest

-- The callback that RemoveFunc collects with.
pub collect {ℓ} : {A : Type ℓ} → (A → Bool) → List A → List A → List A
collect predicate dels [] = dels
collect predicate dels (item ∷ items) =
    collect predicate (if predicate item then dels ++ item ∷ [] else dels) items

module _ {ℓ} {Tree A : Type ℓ} (b : BTree Tree A) where
  -- newTreeSet, where the comparator is not nil
  unfoldable pub new : TreeSet Tree
  new = record { bt = b.new_btree }

  pub size : TreeSet Tree → ℕ
  size t = b.len t.bt

  pub is_empty : TreeSet Tree → Bool
  is_empty t = b.len t.bt == 0

  pub clear : TreeSet Tree → TreeSet Tree
  clear t = record { bt = b.clear t.bt }

  -- ToSlice and Seq
  unfoldable pub to_slice : TreeSet Tree → List A
  to_slice t = b.scan t.bt

  pub add : TreeSet Tree → A → Bool × TreeSet Tree
  add t element =
      if is_some (b.get t.bt element)
      then (false, t)
      else (true, record { bt = b.set t.bt element })

  -- AddAll and AddSeq, with the count so far
  pub add_each : TreeSet Tree → ℕ → List A → ℕ × TreeSet Tree
  add_each t added [] = (added, t)
  add_each t added (e ∷ es) =
      let (new_element, t') = add t e in add_each t' (if new_element then added + 1 else added) es

  pub add_all : TreeSet Tree → List A → ℕ × TreeSet Tree
  add_all t elements = add_each t 0 elements

  pub new_from : List A → TreeSet Tree
  new_from elements = (add_each new 0 elements).1

  pub remove : TreeSet Tree → A → Bool × TreeSet Tree
  remove t element =
      let (stored, bt) = b.delete t.bt element in (is_some stored, record { bt = bt })

  pub remove_and_get : TreeSet Tree → A → Option A × TreeSet Tree
  remove_and_get t element =
      let (stored, bt) = b.delete t.bt element in (stored, record { bt = bt })

  -- RemoveAll and RemoveSeq, with the count so far
  pub remove_each : Tree → ℕ → List A → ℕ × Tree
  remove_each bt removed [] = (removed, bt)
  remove_each bt removed (e ∷ es) =
      let (stored, bt') = b.delete bt e in
      remove_each bt' (if is_some stored then removed + 1 else removed) es

  pub remove_all : TreeSet Tree → List A → ℕ × TreeSet Tree
  remove_all t elements =
      let (removed, bt) = remove_each t.bt 0 elements in (removed, record { bt = bt })

  -- The loop of RemoveFunc that deletes what it has collected.
  pub delete_each : Tree → List A → Tree
  delete_each bt [] = bt
  delete_each bt (v ∷ vs) = delete_each (b.delete bt v).1 vs

  pub remove_func : TreeSet Tree → (A → Bool) → ℕ × TreeSet Tree
  remove_func t predicate =
      let dels = collect predicate [] (b.scan t.bt) in
      (length dels, record { bt = delete_each t.bt dels })

  pub retain_func : TreeSet Tree → (A → Bool) → ℕ × TreeSet Tree
  retain_func t predicate = remove_func t (λ element. not (predicate element))

  pub contains : TreeSet Tree → A → Bool
  contains t element = is_some (b.get t.bt element)

  -- The loops that set what passes a test in a new tree.
  pub set_where : (A → Bool) → Tree → List A → Tree
  set_where test out [] = out
  set_where test out (item ∷ items) =
      set_where test (if test item then b.set out item else out) items

  -- Union, from a copy of the tree
  pub union : TreeSet Tree → OtherSet A → TreeSet Tree
  union t other = (add_each (record { bt = b.copy t.bt }) 0 other.seq).1

  pub intersection : TreeSet Tree → OtherSet A → TreeSet Tree
  intersection t other = record { bt = set_where other.contains b.new_btree (b.scan t.bt) }

  pub difference : TreeSet Tree → OtherSet A → TreeSet Tree
  difference t other = record {
    bt = set_where (λ item. not (other.contains item)) b.new_btree (b.scan t.bt);
  }

  -- The second loop of SymmetricDifference.
  pub add_absent : TreeSet Tree → TreeSet Tree → List A → TreeSet Tree
  add_absent t out [] = out
  add_absent t out (v ∷ vs) =
      add_absent t (if not (is_some (b.get t.bt v)) then (add out v).1 else out) vs

  pub symmetric_difference : TreeSet Tree → OtherSet A → TreeSet Tree
  symmetric_difference t other =
      let out = set_where (λ item. not (other.contains item)) b.new_btree (b.scan t.bt) in
      add_absent t (record { bt = out }) other.seq

  pub is_subset_of : TreeSet Tree → OtherSet A → Bool
  is_subset_of t other = all_pass other.contains (b.scan t.bt)

  pub is_disjoint : TreeSet Tree → OtherSet A → Bool
  is_disjoint t other = all_pass (λ item. not (other.contains item)) (b.scan t.bt)

  pub equals : TreeSet Tree → OtherSet A → Bool
  equals t other =
      if not (size t == other.size) then false else all_pass other.contains (b.scan t.bt)

  pub filter : TreeSet Tree → (A → Bool) → TreeSet Tree
  filter t predicate = record { bt = set_where predicate b.new_btree (b.scan t.bt) }

  pub find : TreeSet Tree → (A → Bool) → Option A
  find t predicate = first_where predicate (b.scan t.bt)

  pub every : TreeSet Tree → (A → Bool) → Bool
  every t predicate = all_pass predicate (b.scan t.bt)

  -- First and Min
  pub first : TreeSet Tree → Option A
  first t = b.min t.bt

  -- Last and Max
  pub last : TreeSet Tree → Option A
  last t = b.max t.bt

  -- PopFirst and Pop
  pub pop_first : TreeSet Tree → Option A × TreeSet Tree
  pop_first t = elim (b.min t.bt) [
    | none ↦ (none, t)
    | some item ↦ (some item, record { bt = (b.delete t.bt item).1 })
  ]

  pub pop_last : TreeSet Tree → Option A × TreeSet Tree
  pop_last t = elim (b.max t.bt) [
    | none ↦ (none, t)
    | some item ↦ (some item, record { bt = (b.delete t.bt item).1 })
  ]

  unfoldable pub floor : TreeSet Tree → A → Option A
  floor t x = first_of (b.descend t.bt x)

  unfoldable pub ceiling : TreeSet Tree → A → Option A
  ceiling t x = first_of (b.ascend t.bt x)

  -- Descend and Reversed
  pub reversed : TreeSet Tree → List A
  reversed t = b.reverse t.bt

  -- CloneSorted and Clone
  pub clone_sorted : TreeSet Tree → TreeSet Tree
  clone_sorted t = record { bt = b.copy t.bt }

  pub get_by_rank : TreeSet Tree → ℕ → Option A
  get_by_rank t rank = b.get_at t.bt rank

  module _ (cmp : Comparator A) where
    unfoldable pub lower : TreeSet Tree → A → Option A
    lower t x = first_where (λ item. is_neg (cmp item x)) (b.descend t.bt x)

    unfoldable pub higher : TreeSet Tree → A → Option A
    higher t x = first_where (λ item. is_pos (cmp item x)) (b.ascend t.bt x)

    -- What Range and RangeSeq give their callback while it returns true.
    pub up_to : A → List A → List A
    up_to to [] = []
    up_to to (item ∷ items) =
        let rest = up_to to items in if is_pos (cmp item to) then [] else item ∷ rest

    pub range_seq : TreeSet Tree → A → A → List A
    range_seq t from to = if is_pos (cmp from to) then [] else up_to to (b.ascend t.bt from)

    -- The loop of SubSet.
    pub set_up_to : A → Tree → List A → Tree
    set_up_to to out [] = out
    set_up_to to out (item ∷ items) =
        let rest = set_up_to to (b.set out item) items in if is_pos (cmp item to) then out else rest

    unfoldable pub sub_set : TreeSet Tree → A → A → TreeSet Tree
    sub_set t from to =
        if is_pos (cmp from to)
        then new
        else record { bt = set_up_to to b.new_btree (b.ascend t.bt from) }

    -- `c == 0`
    abbrev pub is_zero : ℤ → Bool
    is_zero c = not (is_neg c) && not (is_pos c)

    -- The loop of HeadSet, which stops past the bound.
    pub set_below : A → Bool → Tree → List A → Tree
    set_below to inclusive out [] = out
    set_below to inclusive out (item ∷ items) =
        let c = cmp item to in
        let rest = set_below to inclusive (b.set out item) items in
        if is_neg c || (inclusive && is_zero c) then rest else out

    unfoldable pub head_set : TreeSet Tree → A → Bool → TreeSet Tree
    head_set t to inclusive = record { bt = set_below to inclusive b.new_btree (b.scan t.bt) }

    unfoldable pub tail_set : TreeSet Tree → A → Bool → TreeSet Tree
    tail_set t from inclusive =
        let wanted =
          λ (item : A). is_pos (cmp item from) || (inclusive && is_zero (cmp item from)) in
        record { bt = set_where wanted b.new_btree (b.ascend t.bt from) }

    -- The loop of Rank, with fuel. `hi` is below 0 where the part to search is empty and starts at 0.
    pub rank_loop : ⦃z : Zero A⦄ → ℕ → Tree → A → ℕ → ℤ → Outcome ℤ
    rank_loop zero bt x lo hi = diverged
    rank_loop ⦃z⦄ (suc fuel) bt x lo hi =
        let mid = (lo + to_nat hi) / 2 in
        let c = cmp (elim (b.get_at bt mid) [ some item ↦ item | none ↦ z.zero_value ]) x in
        let right = rank_loop fuel bt x (mid + 1) hi in
        let left = rank_loop fuel bt x lo (sub_ℕ mid 1) in
        if is_neg hi || ltb (to_nat hi) lo
        then returned (negsuc 0)
        else if is_zero c
        then returned (pos mid)
        else if is_neg c
        then right
        else left

    -- Each round takes away a part of the `len` places, and one round ends the loop.
    pub rank : ⦃z : Zero A⦄ → TreeSet Tree → A → Outcome ℤ
    rank t x = rank_loop (b.len t.bt + 1) t.bt x 0 (sub_ℕ (b.len t.bt) 1)
