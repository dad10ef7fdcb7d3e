-- ===== src/Comparator.antt =====
-- constraints.go: Comparator, Equaler and Ordered.
use go_collections.Prelude.{
  ◌≡◌, refl, Bool, true, false, ℕ, ltb, if◌then◌else◌, arith, Bool-cases, inl, inr,
}
use go_collections.Prelude.Int.{ℤ, pos, negsuc, is_neg, is_pos}

-- `func(a, b T) int`
abbrev pub Comparator {ℓ} : Type ℓ → Type ℓ
Comparator A = A → A → ℤ

-- `func(a, b T) bool`
abbrev pub Equaler {ℓ} : Type ℓ → Type ℓ
Equaler A = A → A → Bool

-- What the comments on Comparator ask of a function: the sign turns when the arguments are
-- exchanged, and "not after" is transitive.
pub record IsComparator {ℓ} {A : Type ℓ} (cmp : Comparator A) : Type ℓ where
  pub flip : (a b : A) → is_pos (cmp a b) ≡ is_neg (cmp b a)
  pub trans :
      (a b c : A) → is_neg (cmp b a) ≡ false → is_neg (cmp c b) ≡ false → is_neg (cmp c a) ≡ false

not_neg_of_pos : (z : ℤ) → is_pos z ≡ true → is_neg z ≡ false
not_neg_of_pos (pos n) h = refl
not_neg_of_pos (negsuc n) h = ground arith

-- Of two values at most one comes before the other.
pub asym {ℓ} :
    {A : Type ℓ} {cmp : Comparator A}
    → IsComparator cmp
    → (a b : A) → is_neg (cmp a b) ≡ true
    → is_neg (cmp b a) ≡ false
asym {cmp = cmp} law a b h = not_neg_of_pos (cmp b a) (rw (law.flip b a) h)

-- No value comes before itself.
pub irrefl {ℓ} :
    {A : Type ℓ} {cmp : Comparator A} → IsComparator cmp → (a : A) → is_neg (cmp a a) ≡ false
irrefl {cmp = cmp} law a = elim (Bool-cases (is_neg (cmp a a))) [
  | inl e ↦ asym law a a e
  | inr e ↦ e
]

-- A type with the operator `<`; the laws leave out NaN, at which `<` is not an order.
pub record Ordered {ℓ} (A : Type ℓ) : Type ℓ where
  pub less : A → A → Bool
  pub less_asym : (a b : A) → less a b ≡ true → less b a ≡ false
  pub less_trans : (a b c : A) → less b a ≡ false → less c b ≡ false → less c a ≡ false

-- cmp.Compare
unfoldable pub compare_func {ℓ} : {A : Type ℓ} ⦃o : Ordered A⦄ → Comparator A
compare_func ⦃o⦄ a b = if o.less a b then negsuc 0 else if o.less b a then pos 1 else pos 0

-- `func(a, b T) int { return c(b, a) }`
unfoldable pub reverse_func {ℓ} : {A : Type ℓ} → Comparator A → Comparator A
reverse_func c a b = c b a

neg_iff_less {ℓ} : {A : Type ℓ} ⦃o : Ordered A⦄ (a b : A) → is_neg (compare_func a b) ≡ o.less a b
unfolding compare_func
neg_iff_less a b = ground arith

pub compare_func-IsComparator {ℓ} :
    {A : Type ℓ} ⦃o : Ordered A⦄ → IsComparator (compare_func {A = A})
unfolding compare_func
compare_func-IsComparator {A} ⦃o⦄ = record {
  flip = λ a b. ground (arith, o.less_asym a b, o.less_asym b a);
  trans = λ a b c h k.
      rw (neg_iff_less c a)
        (o.less_trans a b c (rw (neg_iff_less b a) at h) (rw (neg_iff_less c b) at k));
}

pub reverse_func-IsComparator {ℓ} :
    {A : Type ℓ} {cmp : Comparator A} → IsComparator cmp → IsComparator (reverse_func cmp)
unfolding reverse_func
reverse_func-IsComparator law = record {
  flip = λ a b. law.flip b a;
  trans = λ a b c h k. law.trans c b a k h;
}

pub ltb_asym : (a b : ℕ) → ltb a b ≡ true → ltb b a ≡ false
ltb_asym a b h = ground arith

pub ltb_trans : (a b c : ℕ) → ltb b a ≡ false → ltb c b ≡ false → ltb c a ≡ false
ltb_trans a b c h k = ground arith

instance abbrev pub nat_ordered : Ordered ℕ
nat_ordered = record { less = ltb; less_asym = ltb_asym; less_trans = ltb_trans }
