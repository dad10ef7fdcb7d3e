-- ===== src/TreeMap/Navigate.antt =====
-- treemap.go: the neighbours of a key, and the maps of a range of keys. Their loops are those of the
-- tree set, on entries.
use go_collections.Prelude.{
  ◌≡◌, refl, ◌∙◌, Bool-cases, inl, inr, Bool, not, ◌&&◌, ◌||◌, Option, if◌then◌else◌,
}
use go_collections.Prelude.Int.{is_neg, is_pos}
use go_collections.Prelude.Slice.{Zero}
use go_collections.Comparator.{Comparator, IsComparator}
use go_collections.BTree.{keep, head?, last?, less, BTree, IsBTree}
use go_collections.TreeSet.{
  TreeSet, to_slice, first_of, first_where, set_where, set_up_to, set_below, is_zero, floor,
  ceiling, lower, higher, head_set, tail_set, sub_set,
}
use go_collections.TreeSet.Nearest.{nearest_elements}
use go_collections.TreeSet.Ranges.{head_set-tail_set, sub_set-range_seq}
use go_collections.TreeMap.{MapEntry, TreeMap, by_key, key_entry, entries, new}
use go_collections.TreeMap.Change.{by_key-IsComparator}

module _ {ℓ} {Tree K V : Type ℓ} (b : BTree Tree (MapEntry K V)) (cmp : Comparator K)
    ⦃z : Zero V⦄ where
  pub floor_entry : TreeMap Tree → K → Option (MapEntry K V)
  floor_entry t k = first_of (b.descend t.bt (key_entry b k))

  pub ceiling_entry : TreeMap Tree → K → Option (MapEntry K V)
  ceiling_entry t k = first_of (b.ascend t.bt (key_entry b k))

  pub lower_entry : TreeMap Tree → K → Option (MapEntry K V)
  lower_entry t k = first_where (λ me. is_neg (cmp me.key k)) (b.descend t.bt (key_entry b k))

  pub higher_entry : TreeMap Tree → K → Option (MapEntry K V)
  higher_entry t k = first_where (λ me. is_pos (cmp me.key k)) (b.ascend t.bt (key_entry b k))

  pub sub_map : TreeMap Tree → K → K → TreeMap Tree
  sub_map t from to = if is_pos (cmp from to) then new b else record {
    bt = set_up_to b (by_key cmp) (key_entry b to) b.new_btree (b.ascend t.bt (key_entry b from));
  }

  pub head_map : TreeMap Tree → K → Bool → TreeMap Tree
  head_map t to inclusive = record {
    bt = set_below b (by_key cmp) (key_entry b to) inclusive b.new_btree (b.scan t.bt);
  }

  pub tail_map : TreeMap Tree → K → Bool → TreeMap Tree
  tail_map t from inclusive =
      let wanted = λ (me : MapEntry K V).
        is_pos (cmp me.key from)
        || (inclusive && is_zero b (by_key {V = V} cmp) (cmp me.key from)) in
      record { bt = set_where b wanted b.new_btree (b.ascend t.bt (key_entry b from)) }

module _ {ℓ} {Tree K V : Type ℓ} {cmp : Comparator K} {b : BTree Tree (MapEntry K V)}
    (law : IsComparator cmp) (tree : IsBTree (by_key cmp) b) ⦃z : Zero V⦄ where
  -- FloorEntry is the last entry whose key is not after the bound and LowerEntry the last before it;
  -- CeilingEntry is the first that is not before it and HigherEntry the first after it. Each has
  -- nothing only if there is no such entry.
  pub nearest_entries :
      (t : TreeMap Tree) (k : K)
      → (floor_entry b cmp t k ≡ last? (keep (λ me. not (less cmp k me.key)) (entries b t)))
        × (lower_entry b cmp t k ≡ last? (keep (λ me. less cmp me.key k) (entries b t)))
        × (ceiling_entry b cmp t k ≡ head? (keep (λ me. not (less cmp me.key k)) (entries b t)))
        × (higher_entry b cmp t k ≡ head? (keep (λ me. less cmp k me.key) (entries b t)))
  unfolding entries floor_entry lower_entry ceiling_entry higher_entry floor lower ceiling higher
      to_slice
  nearest_entries t k =
      nearest_elements (by_key-IsComparator K V cmp law) tree (record { bt = t.bt }) (key_entry b k)

  sub_map-sub_set :
      (t : TreeMap Tree) (from to : K)
      → entries b (sub_map b cmp t from to)
        ≡ to_slice b
            (sub_set b (by_key cmp) (record { bt = t.bt }) (key_entry b from) (key_entry b to))
  unfolding entries sub_map sub_set to_slice new go_collections.TreeSet.new
  sub_map-sub_set t from to = elim (Bool-cases (is_pos (cmp from to))) [
    | inl e ↦ rw e refl
    | inr e ↦ rw e refl
  ]

  -- HeadMap has the entries before the bound and TailMap those after it, with what is like the bound
  -- if asked for, and SubMap those from the first bound to the second, in their order.
  pub head_map-tail_map-sub_map :
      (t : TreeMap Tree) (k to : K) (inclusive : Bool)
      → (entries b (head_map b cmp t k inclusive)
          ≡ keep
              (λ me. if inclusive then not (less cmp k me.key) else less cmp me.key k)
              (entries b t))
        × (entries b (tail_map b cmp t k inclusive)
            ≡ keep
                (λ me. if inclusive then not (less cmp me.key k) else less cmp k me.key)
                (entries b t))
        × (entries b (sub_map b cmp t k to)
            ≡ keep (λ me. not (less cmp me.key k) && not (less cmp to me.key)) (entries b t))
  unfolding entries head_map tail_map sub_map head_set tail_set sub_set to_slice
  head_map-tail_map-sub_map t k to inclusive =
      let order = by_key-IsComparator K V cmp law in
      let ends = head_set-tail_set order tree (record { bt = t.bt }) (key_entry b k) inclusive in
      let part =
        sub_set-range_seq order tree (record { bt = t.bt }) (key_entry b k) (key_entry b to) in
      (ends.0, ends.1, sub_map-sub_set t k to ∙ part.0)
