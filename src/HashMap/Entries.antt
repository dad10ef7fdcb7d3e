-- ===== src/HashMap/Entries.antt =====
-- The entries of the built-in map in hashmap.go as a function, after a write and a deletion.
use go_collections.Prelude.{
  ◌≡◌, refl, ap, Bool, true, false, Bool-cases, inl, inr, Option, none, some, List, [], ◌∷◌,
  if◌then◌else◌,
}
use go_collections.HashSet.{Comparable}
use go_collections.HashMap.{HashMap, lookup, write, delete}

-- The orders of two tests.
module _ {ℓ} {V : Type ℓ} where
  shadowed :
      (a b : Bool) (x w y : Option V)
      → b ≡ a
      → (if a then x else y) ≡ (if a then x else if b then w else y)
  shadowed a b x w y e = elim (Bool-cases a) [ inl t ↦ rw t | inr f ↦ rw (e, f) ]

  commuted :
      (a b : Bool) (x w y : Option V)
      → (a ≡ true → b ≡ false)
      → (if b then w else if a then x else y) ≡ (if a then x else if b then w else y)
  commuted a b x w y h = elim (Bool-cases a) [ inl t ↦ rw (t, h t) | inr f ↦ rw f ]

module _ {ℓ} {K : Type ℓ} ⦃c : Comparable K⦄ where
  same_key : (a b k : K) → c.equal a b ≡ true → c.equal a k ≡ c.equal b k
  same_key a b k e = ap (λ x. c.equal x k) (c.equal_sound a b e)

  other_key : (a b k : K) → c.equal a b ≡ false → c.equal b k ≡ true → c.equal a k ≡ false
  other_key a b k apart e = rw (← c.equal_sound b k e) apart

module _ {ℓ} {K V : Type ℓ} ⦃c : Comparable K⦄ where
  -- A function changed at one key.
  unfoldable pub update : K → Option V → (K → Option V) → K → Option V
  update key o f k = if c.equal key k then o else f k

  -- What the map has at each key.
  unfoldable pub contents : HashMap K V → K → Option V
  contents h k = lookup k h.entries

  update_same : (f : K → Option V) (key k : K) (o : Option V) → f key ≡ o → f k ≡ update key o f k
  unfolding update
  update_same f key k o e = elim (Bool-cases (c.equal key k)) [
    | inl same ↦ rw (same, ← c.equal_sound key k same) e
    | inr apart ↦ rw apart
  ]

  -- A function is unchanged if the key gets what it has.
  pub update_known : (f : K → Option V) (key : K) (o : Option V) → f key ≡ o → f ≡ update key o f
  update_known f key o e = λ i. λ k. update_same f key k o e i

  lookup-write :
      (m : List (K × V)) (key : K) (v : V) (k : K)
      → lookup k (write m key v) ≡ (if c.equal key k then some v else lookup k m)
  unfolding lookup write
  lookup-write [] key v k = refl
  lookup-write (e ∷ es) key v k = elim (Bool-cases (c.equal e.0 key)) [
    | inl same ↦
        rw (same, same_key e.0 key k same)
          (shadowed (c.equal key k) (c.equal key k) (some v) (some e.1) (lookup k es) refl)
    | inr apart ↦
        rw (apart, lookup-write es key v k)
          (commuted (c.equal key k) (c.equal e.0 k) (some v) (some e.1) (lookup k es)
            (other_key e.0 key k apart))
  ]

  lookup-delete :
      (m : List (K × V)) (key k : K)
      → lookup k (delete m key) ≡ (if c.equal key k then none else lookup k m)
  unfolding lookup delete
  lookup-delete [] key k = elim (Bool-cases (c.equal key k)) [ inl e ↦ rw e | inr e ↦ rw e ]
  lookup-delete (e ∷ es) key k = elim (Bool-cases (c.equal e.0 key)) [
    | inl same ↦
        rw (same, lookup-delete es key k)
          (shadowed (c.equal key k) (c.equal e.0 k) none (some e.1) (lookup k es)
            (same_key e.0 key k same))
    | inr apart ↦
        rw (apart, lookup-delete es key k)
          (commuted (c.equal key k) (c.equal e.0 k) none (some e.1) (lookup k es)
            (other_key e.0 key k apart))
  ]

  -- A write changes what the map has at its key.
  pub contents-write :
      (m : List (K × V)) (key : K) (v : V)
      → contents (record { entries = write m key v })
        ≡ update key (some v) (contents (record { entries = m }))
  unfolding contents update
  contents-write m key v = λ i. λ k. lookup-write m key v k i

  -- A deletion leaves nothing at its key.
  pub contents-delete :
      (m : List (K × V)) (key : K)
      → contents (record { entries = delete m key })
        ≡ update key none (contents (record { entries = m }))
  unfolding contents update
  contents-delete m key = λ i. λ k. lookup-delete m key k i
