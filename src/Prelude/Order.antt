-- ===== src/Prelude/Order.antt =====
-- The interface of a total order given by a three-way comparison, the orders of the key types, and
-- the operation that keeps the greater of two values.
use Prim.Native.Nat.{ℕ, compare, Ordering}
use mathlib.Core.Path.{◌≡◌, refl}
use mathlib.Core.Bool.{Bool, true, false}
use mathlib.Core.List.{List, [], ◌∷◌}
use native.Mathlib.Omega.{arith}
use agent_memory.Prelude.Tests.{if◌then◌else◌}

-- -1, 0 and 1 of a Go comparison, seen from the other side.
abbrev pub flip : Ordering → Ordering
flip Ordering.lt = Ordering.gt
flip Ordering.eq = Ordering.eq
flip Ordering.gt = Ordering.lt

-- The first comparison decides, unless it finds equality.
abbrev pub lex : Ordering → Ordering → Ordering
lex Ordering.lt p = Ordering.lt
lex Ordering.eq p = p
lex Ordering.gt p = Ordering.gt

-- `c >= 0`, `c > 0` and `c == 0`
abbrev pub is_ge : Ordering → Bool
is_ge Ordering.lt = false
is_ge _ = true

abbrev pub is_gt : Ordering → Bool
is_gt Ordering.gt = true
is_gt _ = false

abbrev pub is_eq : Ordering → Bool
is_eq Ordering.eq = true
is_eq _ = false

pub record Ord {ℓ} (K : Type ℓ) : Type ℓ where
  pub cmp : K → K → Ordering
  pub cmp_refl : (a : K) → cmp a a ≡ Ordering.eq
  pub eq_of_cmp : (a b : K) → cmp a b ≡ Ordering.eq → a ≡ b
  pub cmp_flip : (a b : K) → cmp b a ≡ flip (cmp a b)
  pub cmp_trans :
      (a b c : K) → cmp a b ≡ Ordering.lt → cmp b c ≡ Ordering.lt → cmp a c ≡ Ordering.lt

pub nat_refl : (a : ℕ) → compare a a ≡ Ordering.eq
nat_refl a = ground arith

pub nat_eq : (a b : ℕ) → compare a b ≡ Ordering.eq → a ≡ b
nat_eq a b h = ground arith

pub nat_flip : (a b : ℕ) → compare b a ≡ flip (compare a b)
nat_flip a b = ground arith

pub nat_trans :
    (a b c : ℕ) → compare a b ≡ Ordering.lt → compare b c ≡ Ordering.lt → compare a c ≡ Ordering.lt
nat_trans a b c h k = ground arith

instance abbrev pub nat_ord : Ord ℕ
nat_ord = record {
  cmp = compare;
  cmp_refl = nat_refl;
  eq_of_cmp = nat_eq;
  cmp_flip = nat_flip;
  cmp_trans = nat_trans;
}

-- One step of a lexicographic comparison keeps the laws.
pub lex-flip : (p q : Ordering) → lex (flip p) (flip q) ≡ flip (lex p q)
lex-flip p q = ground arith

-- A three-way comparison of lists: `strings.Compare` and `bytes.Compare`.
abbrev pub cmp_list : List ℕ → List ℕ → Ordering
cmp_list [] [] = Ordering.eq
cmp_list [] (y ∷ ys) = Ordering.lt
cmp_list (x ∷ xs) [] = Ordering.gt
cmp_list (x ∷ xs) (y ∷ ys) = lex (compare x y) (cmp_list xs ys)

pub list_refl : (a : List ℕ) → cmp_list a a ≡ Ordering.eq
list_refl [] = refl
list_refl (x ∷ a) = ground (arith, list_refl a)

pub list_eq : (a b : List ℕ) → cmp_list a b ≡ Ordering.eq → a ≡ b
list_eq [] [] h = refl
list_eq [] (y ∷ b) h = ground arith
list_eq (x ∷ a) [] h = ground arith
list_eq (x ∷ a) (y ∷ b) h = ground (arith, list_eq a b)

pub list_flip : (a b : List ℕ) → cmp_list b a ≡ flip (cmp_list a b)
list_flip [] [] = refl
list_flip [] (y ∷ b) = refl
list_flip (x ∷ a) [] = refl
list_flip (x ∷ a) (y ∷ b) = ground (arith, list_flip a b)

pub list_trans :
    (a b c : List ℕ)
    → cmp_list a b ≡ Ordering.lt
    → cmp_list b c ≡ Ordering.lt
    → cmp_list a c ≡ Ordering.lt
list_trans [] [] c h k = ground arith
list_trans [] (y ∷ b) [] h k = ground arith
list_trans [] (y ∷ b) (z ∷ c) h k = refl
list_trans (x ∷ a) [] c h k = ground arith
list_trans (x ∷ a) (y ∷ b) [] h k = ground arith
list_trans (x ∷ a) (y ∷ b) (z ∷ c) h k = ground (arith, list_trans a b c)

instance abbrev pub list_ord : Ord (List ℕ)
list_ord = record {
  cmp = cmp_list;
  cmp_refl = list_refl;
  eq_of_cmp = list_eq;
  cmp_flip = list_flip;
  cmp_trans = list_trans;
}

-- Of two values, the one with the greater key; the first one on a tie.
module _ {ℓ κ} {A : Type ℓ} {K : Type κ} ⦃o : Ord K⦄ (key : A → K) where
  abbrev pub max_by : A → A → A
  max_by a b = if is_ge (o.cmp (key a) (key b)) then a else b

  pub max_by_idem : (a : A) → max_by a a ≡ a
  max_by_idem a = ground (arith, o.cmp_refl (key a))

  -- On a tie the two values have to be one for the order of the arguments not to matter.
  pub max_by_comm : (a b : A) → (key a ≡ key b → a ≡ b) → max_by a b ≡ max_by b a
  max_by_comm a b h = ground (arith, h, o.eq_of_cmp (key a) (key b), o.cmp_flip (key a) (key b))

  pub max_by_assoc : (a b c : A) → max_by (max_by a b) c ≡ max_by a (max_by b c)
  max_by_assoc a b c = ground (
    arith,
    o.eq_of_cmp (key a) (key b),
    o.eq_of_cmp (key b) (key c),
    o.eq_of_cmp (key a) (key c),
    o.cmp_flip (key a) (key b),
    o.cmp_flip (key b) (key c),
    o.cmp_flip (key a) (key c),
    o.cmp_trans (key a) (key b) (key c),
    o.cmp_trans (key c) (key b) (key a),
  )
