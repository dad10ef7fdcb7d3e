-- ===== src/SyncList.antt =====
-- synclist.go: a list in a slice behind one lock.
-- Each method holds the lock from its first access to the slice to its last, or copies the slice
-- under the lock, so a call is one step and the lock has no part in its result.
pub mod Alike
mod Examples
use mathlib.Core.List.{reverse}
use go_collections.Prelude.{
  ℕ, zero, suc, ◌+◌, ◌-◌, ◌≡◌, Bool, true, false, not, ◌||◌, List, [], ◌∷◌, ◌++◌, length, take,
  drop, replicate, ltb, leb, ◌==◌, if◌then◌else◌,
}
use go_collections.Prelude.Int.{ℤ, pos, negsuc, is_neg, to_nat}
use go_collections.Prelude.Outcome.{Outcome, returned, panicked, ◌>>=◌}
use go_collections.Prelude.Slice.{Zero, load, store, slice, copy}
use go_collections.Comparator.{Equaler}
use go_collections.ArrayList.{insert_slice, delete_slice, index_func}

pub record SyncList {ℓ} (A : Type ℓ) : Type ℓ where
  pub items : List A

module _ {ℓ} {A : Type ℓ} where
  pub new : SyncList A
  new = record { items = [] }

  pub size : SyncList A → ℕ
  size l = length l.items

  pub is_empty : SyncList A → Bool
  is_empty l = size l == 0

  pub to_slice : SyncList A → List A
  to_slice l = l.items

  pub add : SyncList A → A → SyncList A
  add l element = record { items = l.items ++ element ∷ [] }

  -- AddAll, and AddSeq
  pub add_all : SyncList A → List A → SyncList A
  add_all l elements = if length elements == 0 then l else record { items = l.items ++ elements }

  pub insert : SyncList A → ℤ → A → Outcome (Bool × SyncList A)
  insert l index element =
      let inserted : Outcome (Bool × SyncList A) = do
        items ← insert_slice l.items (to_nat index) (element ∷ [])
        returned (true, record { items = items })
      in if is_neg index || ltb (length l.items) (to_nat index)
        then returned (false, l)
        else inserted

  pub insert_all : SyncList A → ℤ → List A → Outcome (Bool × SyncList A)
  insert_all l index elements =
      let inserted : Outcome (Bool × SyncList A) = do
        items ← insert_slice l.items (to_nat index) elements
        returned (true, record { items = items })
      in if length elements == 0
        then returned (true, l)
        else if is_neg index || ltb (length l.items) (to_nat index)
        then returned (false, l)
        else inserted

  pub index_of : SyncList A → A → Equaler A → ℤ
  index_of l element eq = index_func l.items (λ v. eq v element) 0

  pub contains : SyncList A → A → Equaler A → Bool
  contains l element eq = not (is_neg (index_of l element eq))

  pub find_index : SyncList A → (A → Bool) → ℤ
  find_index l predicate = index_func l.items predicate 0

  pub sub_list : SyncList A → ℤ → ℤ → Outcome (SyncList A)
  sub_list l from to =
      let part : Outcome (SyncList A) = do
        items ← slice l.items (to_nat from) (to_nat to)
        returned (record { items = items })
      in if is_neg from
          || (ltb (length l.items) (to_nat to) || (is_neg to || ltb (to_nat to) (to_nat from)))
        then returned new
        else part

  pub reversed : SyncList A → List A
  reversed l = reverse (to_slice l)

  pub clone : SyncList A → SyncList A
  clone l = record { items = to_slice l }

  -- The loop of Remove, from index `i` on.
  pub remove_from : List A → List A → A → Equaler A → ℕ → Outcome (Bool × SyncList A)
  remove_from all [] element eq i = returned (false, record { items = all })
  remove_from all (v ∷ vs) element eq i =
      let rest = remove_from all vs element eq (i + 1) in
      let removed : Outcome (Bool × SyncList A) = do
        items ← delete_slice all i (i + 1)
        returned (true, record { items = items })
      in if eq v element then removed else rest

  pub remove : SyncList A → A → Equaler A → Outcome (Bool × SyncList A)
  remove l element eq = remove_from l.items l.items element eq 0

module _ {ℓ} {A : Type ℓ} ⦃z : Zero A⦄ where
  -- NewSyncListFrom
  pub new_from : List A → SyncList A
  new_from elements = record {
    items = (copy (replicate (length elements) z.zero_value) elements).0;
  }

  pub clear : SyncList A → SyncList A
  clear l = record { items = take 0 (replicate (length l.items) z.zero_value) }

  pub get : SyncList A → ℤ → Outcome (A × Bool)
  get l index =
      let found : Outcome (A × Bool) = load l.items (to_nat index) >>= λ v. returned (v, true) in
      if is_neg index || leb (length l.items) (to_nat index)
      then returned (z.zero_value, false)
      else found

  pub set : SyncList A → ℤ → A → Outcome (A × Bool × SyncList A)
  set l index element =
      let replaced : Outcome (A × Bool × SyncList A) = do
        old ← load l.items (to_nat index)
        items ← store l.items (to_nat index) element
        returned (old, true, record { items = items })
      in if is_neg index || leb (length l.items) (to_nat index)
        then returned (z.zero_value, false, l)
        else replaced

  pub first : SyncList A → Outcome (A × Bool)
  first l = get l (pos 0)

  pub last : SyncList A → Outcome (A × Bool)
  last l =
      let found : Outcome (A × Bool) =
        load l.items (length l.items - 1) >>= λ v. returned (v, true) in
      if length l.items == 0 then returned (z.zero_value, false) else found

  pub remove_at : SyncList A → ℤ → Outcome (A × Bool × SyncList A)
  remove_at l index =
      let taken : Outcome (A × Bool × SyncList A) = do
        removed ← load l.items (to_nat index)
        items ← delete_slice l.items (to_nat index) (to_nat index + 1)
        returned (removed, true, record { items = items })
      in if is_neg index || leb (length l.items) (to_nat index)
        then returned (z.zero_value, false, l)
        else taken

  pub remove_first : SyncList A → Outcome (A × Bool × SyncList A)
  remove_first l = remove_at l (pos 0)

  pub remove_last : SyncList A → Outcome (A × Bool × SyncList A)
  remove_last l =
      let end = length l.items - 1 in
      let taken : Outcome (A × Bool × SyncList A) = do
        removed ← load l.items end
        items ← store l.items end z.zero_value
        rest ← slice items 0 end
        returned (removed, true, record { items = rest })
      in if length l.items == 0 then returned (z.zero_value, false, l) else taken

  -- The loop of RemoveFunc over the slice from index `i` on, which moves the elements to keep to the
  -- front: `kept` of them so far.
  pub keep_from : (A → Bool) → ℕ → List A → ℕ → ℕ → ℕ → Outcome (List A × ℕ × ℕ)
  keep_from predicate zero items i kept removed = returned (items, kept, removed)
  keep_from predicate (suc left) items i kept removed = do
    v ← load items i
    moved ← (if predicate v then returned items else store items kept v)
    keep_from predicate left moved (i + 1) (if predicate v then kept else kept + 1)
        (if predicate v then removed + 1 else removed)

  pub remove_func : SyncList A → (A → Bool) → Outcome (ℕ × SyncList A)
  remove_func l predicate = do
    (items, kept, removed) ← keep_from predicate (length l.items) l.items 0 0 0
    vacated ← slice items kept (length items)
    let cleared = take kept items ++ replicate (length vacated) z.zero_value
    rest ← slice cleared 0 kept
    returned (removed, record { items = rest })

  pub retain_func : SyncList A → (A → Bool) → Outcome (ℕ × SyncList A)
  retain_func l predicate = remove_func l (λ element. not (predicate element))
