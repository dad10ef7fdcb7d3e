-- ===== src/ArrayList.antt =====
-- arraylist.go: a list in a slice.
-- A method that changes the list returns the new list. A sequence is the list of what it yields.
pub mod Access
pub mod Edit
pub mod Search
pub mod Bulk
mod Examples
use mathlib.Core.List.{reverse}
use go_collections.Prelude.{
  ℕ, zero, suc, ◌+◌, ◌-◌, ◌≡◌, Bool, true, false, not, ◌||◌, List, [], ◌∷◌, ◌++◌, length, take,
  drop, replicate, ltb, leb, ◌==◌, if◌then◌else◌,
}
use go_collections.Prelude.Int.{ℤ, pos, negsuc, is_neg, to_nat, sub_ℕ}
use go_collections.Prelude.Outcome.{Outcome, returned, panicked, ◌>>=◌}
use go_collections.Prelude.Slice.{Zero, load, store, slice, copy}
use go_collections.Comparator.{Equaler}

pub record ArrayList {ℓ} (A : Type ℓ) : Type ℓ where
  pub items : List A

-- slices.DeleteFunc
unfoldable pub delete_func {ℓ} : {A : Type ℓ} → List A → (A → Bool) → List A
delete_func [] predicate = []
delete_func (x ∷ xs) predicate =
    if predicate x then delete_func xs predicate else x ∷ delete_func xs predicate

-- slices.Insert, which panics past the end
pub insert_slice {ℓ} : {A : Type ℓ} → List A → ℕ → List A → Outcome (List A)
insert_slice xs i vs =
    if leb i (length xs) then returned (take i xs ++ (vs ++ drop i xs)) else panicked

-- slices.Delete, which panics out of range
pub delete_slice {ℓ} : {A : Type ℓ} → List A → ℕ → ℕ → Outcome (List A)
delete_slice xs i j =
    if leb i j
    then if leb j (length xs) then returned (take i xs ++ drop j xs) else panicked
    else panicked

-- slices.IndexFunc, counting from `i`
pub index_func {ℓ} : {A : Type ℓ} → List A → (A → Bool) → ℕ → ℤ
index_func [] predicate i = negsuc 0
index_func (x ∷ xs) predicate i = if predicate x then pos i else index_func xs predicate (i + 1)

module _ {ℓ} {A : Type ℓ} where
  -- `index < 0 || index >= len(l.data)`
  abbrev pub out_of_range : ArrayList A → ℤ → Bool
  out_of_range l index = is_neg index || leb (length l.items) (to_nat index)

  -- NewArrayList, and NewArrayListWithCapacity but for the capacity
  pub new : ArrayList A
  new = record { items = [] }

  pub size : ArrayList A → ℕ
  size l = length l.items

  pub is_empty : ArrayList A → Bool
  is_empty l = length l.items == 0

  pub to_slice : ArrayList A → List A
  to_slice l = l.items

  -- The loop of ForEach; the action may keep a state of its own.
  pub for_each {κ} : {S : Type κ} → List A → (A → S → S × Bool) → S → S
  for_each [] action s = s
  for_each (x ∷ xs) action s =
      let (s', more) = action x s in let rest = for_each xs action s' in if more then rest else s'

  pub add : ArrayList A → A → ArrayList A
  add l element = record { items = l.items ++ element ∷ [] }

  -- AddAll, and AddSeq
  pub add_all : ArrayList A → List A → ArrayList A
  add_all l elements = record { items = l.items ++ elements }

  pub insert : ArrayList A → ℤ → A → Outcome (Bool × ArrayList A)
  insert l index element =
      let inserted : Outcome (Bool × ArrayList A) = do
        items ← insert_slice l.items (to_nat index) (element ∷ [])
        returned (true, record { items = items })
      in if is_neg index || ltb (length l.items) (to_nat index)
        then returned (false, l)
        else inserted

  pub insert_all : ArrayList A → ℤ → List A → Outcome (Bool × ArrayList A)
  insert_all l index elements =
      let inserted : Outcome (Bool × ArrayList A) = do
        items ← insert_slice l.items (to_nat index) elements
        returned (true, record { items = items })
      in if is_neg index || ltb (length l.items) (to_nat index)
        then returned (false, l)
        else if length elements == 0
        then returned (true, l)
        else inserted

  pub remove_func : ArrayList A → (A → Bool) → ℤ × ArrayList A
  remove_func l predicate =
      let kept = delete_func l.items predicate in
      (sub_ℕ (length l.items) (length kept), record { items = kept })

  pub retain_func : ArrayList A → (A → Bool) → ℤ × ArrayList A
  retain_func l predicate = remove_func l (λ element. not (predicate element))

  -- The loop of IndexOf from index `i` on.
  pub index_of_from : List A → A → Equaler A → ℕ → ℤ
  index_of_from [] element eq i = negsuc 0
  index_of_from (v ∷ xs) element eq i =
      if eq v element then pos i else index_of_from xs element eq (i + 1)

  pub index_of : ArrayList A → A → Equaler A → ℤ
  index_of l element eq = index_of_from l.items element eq 0

  -- The loop of LastIndexOf over the slice backwards, with `n` elements left.
  pub last_index_of_below : List A → A → Equaler A → ℕ → ℤ
  last_index_of_below [] element eq n = negsuc 0
  last_index_of_below (v ∷ xs) element eq n =
      if eq v element then pos (n - 1) else last_index_of_below xs element eq (n - 1)

  pub last_index_of : ArrayList A → A → Equaler A → ℤ
  last_index_of l element eq = last_index_of_below (reverse l.items) element eq (length l.items)

  pub contains : ArrayList A → A → Equaler A → Bool
  contains l element eq = not (is_neg (index_of l element eq))

  pub find_index : ArrayList A → (A → Bool) → ℤ
  find_index l predicate = index_func l.items predicate 0

  pub sub_list : ArrayList A → ℤ → ℤ → Outcome (ArrayList A)
  sub_list l from to =
      let part : Outcome (ArrayList A) = do
        items ← slice l.items (to_nat from) (to_nat to)
        returned (record { items = items })
      in if is_neg from
          || (ltb (length l.items) (to_nat to) || (is_neg to || ltb (to_nat to) (to_nat from)))
        then returned new
        else part

  pub reversed : ArrayList A → List A
  reversed l = reverse l.items

  pub clone : ArrayList A → ArrayList A
  clone l = record { items = to_slice l }

  -- The loop of Filter, onto the elements kept so far.
  pub filter_onto : List A → List A → (A → Bool) → List A
  filter_onto out [] predicate = out
  filter_onto out (v ∷ xs) predicate =
      filter_onto (if predicate v then out ++ v ∷ [] else out) xs predicate

  pub filter : ArrayList A → (A → Bool) → ArrayList A
  filter l predicate = record { items = filter_onto [] l.items predicate }

  -- slices.ContainsFunc
  pub any_of : List A → (A → Bool) → Bool
  any_of [] predicate = false
  any_of (v ∷ xs) predicate = predicate v || any_of xs predicate

  pub any : ArrayList A → (A → Bool) → Bool
  any l predicate = any_of l.items predicate

  -- The loop of Every.
  pub every_of : List A → (A → Bool) → Bool
  every_of [] predicate = true
  every_of (v ∷ xs) predicate = if not (predicate v) then false else every_of xs predicate

  pub every : ArrayList A → (A → Bool) → Bool
  every l predicate = every_of l.items predicate

module _ {ℓ} {A : Type ℓ} ⦃z : Zero A⦄ where
  -- NewArrayListFrom
  pub new_from : List A → ArrayList A
  new_from elements = record {
    items = (copy (replicate (length elements) z.zero_value) elements).0;
  }

  pub clear : ArrayList A → ArrayList A
  clear l = record { items = take 0 (replicate (length l.items) z.zero_value) }

  pub get : ArrayList A → ℤ → Outcome (A × Bool)
  get l index =
      let found : Outcome (A × Bool) = load l.items (to_nat index) >>= λ v. returned (v, true) in
      if out_of_range l index then returned (z.zero_value, false) else found

  pub set : ArrayList A → ℤ → A → Outcome (A × Bool × ArrayList A)
  set l index element =
      let replaced : Outcome (A × Bool × ArrayList A) = do
        old ← load l.items (to_nat index)
        items ← store l.items (to_nat index) element
        returned (old, true, record { items = items })
      in if out_of_range l index then returned (z.zero_value, false, l) else replaced

  pub first : ArrayList A → Outcome (A × Bool)
  first l =
      let found : Outcome (A × Bool) = load l.items 0 >>= λ v. returned (v, true) in
      if length l.items == 0 then returned (z.zero_value, false) else found

  pub last : ArrayList A → Outcome (A × Bool)
  last l =
      let n = length l.items in
      let found : Outcome (A × Bool) = load l.items (n - 1) >>= λ v. returned (v, true) in
      if n == 0 then returned (z.zero_value, false) else found

  pub remove_at : ArrayList A → ℤ → Outcome (A × Bool × ArrayList A)
  remove_at l index =
      let removed : Outcome (A × Bool × ArrayList A) = do
        v ← load l.items (to_nat index)
        items ← delete_slice l.items (to_nat index) (to_nat index + 1)
        returned (v, true, record { items = items })
      in if out_of_range l index then returned (z.zero_value, false, l) else removed

  pub remove : ArrayList A → A → Equaler A → Outcome (Bool × ArrayList A)
  remove l element eq =
      let i = index_of l element eq in
      let removed : Outcome (Bool × ArrayList A) = remove_at l i >>= λ r. returned (true, r.2) in
      if is_neg i then returned (false, l) else removed

  pub remove_first : ArrayList A → Outcome (A × Bool × ArrayList A)
  remove_first l = remove_at l (pos 0)

  pub remove_last : ArrayList A → Outcome (A × Bool × ArrayList A)
  remove_last l = remove_at l (sub_ℕ (length l.items) 1)

  -- The loop of Find.
  pub find_in : List A → (A → Bool) → A × Bool
  find_in [] predicate = (z.zero_value, false)
  find_in (v ∷ xs) predicate = if predicate v then (v, true) else find_in xs predicate

  pub find : ArrayList A → (A → Bool) → A × Bool
  find l predicate = find_in l.items predicate
