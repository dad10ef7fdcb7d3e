-- ===== src/SyncList/Examples.antt =====
-- A run of RemoveFunc of synclist.go, and the theorem at a concrete list.
use go_collections.Prelude.{ℕ, ◌+◌, ◌≡◌, refl, Bool, [], ◌∷◌, length, ltb}
use go_collections.Prelude.Outcome.{returned, Returns}
use go_collections.Prelude.Slice.{nat_zero, load, store, slice}
use go_collections.ArrayList.{delete_func}
use go_collections.SyncList.{SyncList, keep_from, remove_func}
use go_collections.SyncList.Alike.{remove_func-delete_func}

abbrev sample : SyncList ℕ
sample = record { items = 1 ∷ 9 ∷ 2 ∷ 8 ∷ [] }

abbrev small : ℕ → Bool
small n = ltb n 5

small_removed : remove_func sample small ≡ returned (2, record { items = 9 ∷ 8 ∷ [] })
unfolding remove_func keep_from load store slice
small_removed = refl

remove_func-delete_func_example :
    Returns
      (λ r. (r.1.items ≡ delete_func sample.items small) × (r.0 + length r.1.items ≡ 4))
      (remove_func sample small)
remove_func-delete_func_example = remove_func-delete_func small sample
