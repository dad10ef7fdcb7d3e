-- ===== src/BTree/Sorted.antt =====
-- A sorted list with the operations of a B-tree: the laws of BTree.antt can hold.
use go_collections.Prelude.{
  ◌≡◌, refl, Bool, true, not, Bool-cases, inl, inr, List, [], ◌∷◌, ◌++◌, length, get_elem?,
}
use go_collections.Comparator.{Comparator, IsComparator}
use go_collections.BTree.{
  keep, head?, last?, backward, less, alike, Before, Ascending, BTree, IsBTree,
}
use go_collections.BTree.Ascending.{less_trans}
use go_collections.BTree.Laws.{Ascending-keep}

module _ {ℓ} {A : Type ℓ} {cmp : Comparator A} (law : IsComparator cmp) where
  pub keep-Before : (x : A) (xs : List A) → Before cmp x (keep (λ y. less cmp x y) xs)
  keep-Before x [] = tt
  keep-Before x (y ∷ ys) = elim (Bool-cases (less cmp x y)) [
    | inl e ↦ rw e (e, keep-Before x ys)
    | inr e ↦ rw e (keep-Before x ys)
  ]

  Before-middle :
      (z x : A) (p : A → Bool) (xs ys : List A)
      → Before cmp z xs
      → less cmp z x ≡ true
      → Before cmp z ys
      → Before cmp z (keep p xs ++ x ∷ ys)
  Before-middle z x p [] ys b h c = (h, c)
  Before-middle z x p (w ∷ ws) ys b h c = elim (Bool-cases (p w)) [
    | inl e ↦ rw e (b.0, Before-middle z x p ws ys b.1 h c)
    | inr e ↦ rw e (Before-middle z x p ws ys b.1 h c)
  ]

  Before_later : (z x : A) (ys : List A) → less cmp z x ≡ true → Before cmp x ys → Before cmp z ys
  Before_later z x [] h b = tt
  Before_later z x (y ∷ ys) h b = (less_trans law z x y h b.0, Before_later z x ys h b.1)

  pub inserted-Ascending :
      (x : A) (xs ys : List A)
      → Ascending cmp xs
      → Before cmp x ys
      → Ascending cmp ys
      → Ascending cmp (keep (λ y. less cmp y x) xs ++ x ∷ ys)
  inserted-Ascending x [] ys s b c = (b, c)
  inserted-Ascending x (w ∷ ws) ys s b c = elim (Bool-cases (less cmp w x)) [
    | inl e ↦ rw e (
      Before-middle w x (λ y. less cmp y x) ws ys s.0 e (Before_later w x ys e b),
      inserted-Ascending x ws ys s.1 b c,
    )
    | inr e ↦ rw e (inserted-Ascending x ws ys s.1 b c)
  ]

-- A list with the proof that it is sorted.
abbrev pub Sorted {ℓ} : {A : Type ℓ} → Comparator A → Type ℓ
Sorted {A = A} cmp = (xs : List A) × Ascending cmp xs

module _ {ℓ} {A : Type ℓ} (cmp : Comparator A) (law : IsComparator cmp) where
  abbrev pub sorted_btree : BTree (Sorted cmp) A
  sorted_btree = record {
    new_btree = ([], tt);
    scan = λ t. t.0;
    reverse = λ t. backward t.0;
    ascend = λ t x. keep (λ y. not (less cmp y x)) t.0;
    descend = λ t x. backward (keep (λ y. not (less cmp x y)) t.0);
    len = λ t. length t.0;
    get = λ t x. head? (keep (alike cmp x) t.0);
    replaced = λ t x. head? (keep (alike cmp x) t.0);
    set = λ t x. (
      keep (λ y. less cmp y x) t.0 ++ x ∷ keep (λ y. less cmp x y) t.0,
      inserted-Ascending law x t.0 (keep (λ y. less cmp x y) t.0) t.1 (keep-Before law x t.0)
          (Ascending-keep law (λ y. less cmp x y) t.0 t.1),
    );
    delete = λ t x. (
      head? (keep (alike cmp x) t.0),
      (keep (λ y. not (alike cmp x y)) t.0, Ascending-keep law (λ y. not (alike cmp x y)) t.0 t.1),
    );
    min = λ t. head? t.0;
    max = λ t. last? t.0;
    get_at = λ t i. get_elem? t.0 i;
    clear = λ t. ([], tt);
    copy = λ t. t;
  }

  pub sorted_btree-IsBTree : IsBTree cmp sorted_btree
  sorted_btree-IsBTree = record {
    new_empty = refl;
    scan_sorted = λ t. t.1;
    reverse_backward = λ t. refl;
    ascend_from = λ t x. refl;
    descend_from = λ t x. refl;
    len_counts = λ t. refl;
    get_finds = λ t x. refl;
    replaced_finds = λ t x. refl;
    set_inserts = λ t x. refl;
    delete_finds = λ t x. refl;
    delete_erases = λ t x. refl;
    min_first = λ t. refl;
    max_last = λ t. refl;
    get_at_index = λ t i. refl;
    clear_empties = λ t. refl;
    copy_keeps = λ t. refl;
  }
