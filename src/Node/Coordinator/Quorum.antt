-- ===== src/Node/Coordinator/Quorum.antt =====
-- Two sets of members that are together larger than the membership have a member in common.
use agent_memory.Prelude.{
  ◌+◌, ◌≡◌, ◌<◌, ◌≤◌, refl, true, false, ◌||◌, List, [], ◌∷◌, ◌++◌, if◌then◌else◌, Text, arith,
  eq_text, eq_text→eq, eq_text_refl, elem, NoDup, length, length-append, ◌⊎◌, inl, inr, Bool-cases,
}

-- The list without the first copy of a string.
abbrev without : Text → List Text → List Text
without t [] = []
without t (u ∷ l) = if eq_text u t then l else u ∷ without t l

length-without : (t : Text) (l : List Text) → elem t l ≡ true → length (without t l) + 1 ≡ length l
length-without t [] h = absurd (ground arith)
length-without t (u ∷ l) h = ground (arith, length-without t l)

elem-without :
    (t : Text) (l : List Text) (u : Text)
    → elem u l ≡ true
    → eq_text t u ≡ false
    → elem u (without t l) ≡ true
elem-without t [] u h k = absurd (ground arith)
elem-without t (x ∷ l) u h k = ground (arith, elem-without t l u, eq_text→eq x t, eq_text→eq x u)

abbrev pub Sub : List Text → List Text → Type 0
Sub xs ys = (t : Text) → elem t xs ≡ true → elem t ys ≡ true

pub length-Sub : (xs ys : List Text) → NoDup xs → Sub xs ys → length xs ≤ length ys
length-Sub [] ys d s = omega arith
length-Sub (x ∷ xs) ys d s =
    let here : elem x ys ≡ true = s x (ground (arith, eq_text_refl x)) in
    let rest =
      length-Sub xs (without x ys) d.1
        (λ t h. elem-without x ys t (s t (ground arith)) (ground (arith, d.0, eq_text→eq x t))) in
    omega (arith, length-without x ys here, rest)

pub elem-append : (t : Text) (xs ys : List Text) → elem t (xs ++ ys) ≡ (elem t xs || elem t ys)
elem-append t [] ys = refl
elem-append t (x ∷ xs) ys = ground (arith, elem-append t xs ys)

abbrev pub Disjoint : List Text → List Text → Type 0
Disjoint xs ys = (t : Text) → elem t xs ≡ true → elem t ys ≡ false

pub NoDup-append : (xs ys : List Text) → NoDup xs → NoDup ys → Disjoint xs ys → NoDup (xs ++ ys)
NoDup-append [] ys d e s = e
NoDup-append (x ∷ xs) ys d e s = (
  ground (arith, elem-append x xs ys, d.0, s x, eq_text_refl x),
  NoDup-append xs ys d.1 e (λ t h. s t (ground arith)),
)

common_or :
    (xs ys : List Text) → ((t : Text) × (elem t xs ≡ true) × (elem t ys ≡ true)) ⊎ Disjoint xs ys
common_or [] ys = inr (λ t h. absurd (ground arith))
common_or (x ∷ xs) ys = elim (Bool-cases (elem x ys)) [
  | inl e ↦ inl (x, ground (arith, eq_text_refl x), e)
  | inr e ↦ elim (common_or xs ys) [
    | inl (t, h, k) ↦ inl (t, ground arith, k)
    | inr d ↦ inr (λ t h. ground (arith, d t, eq_text→eq x t, e))
  ]
]

pub common_member :
    (xs ys zs : List Text)
    → NoDup xs
    → NoDup ys
    → Sub xs zs
    → Sub ys zs
    → length zs < length xs + length ys
    → (t : Text) × (elem t xs ≡ true) × (elem t ys ≡ true)
common_member xs ys zs d e s s' h = elim (common_or xs ys) [
  | inl c ↦ c
  | inr dis ↦
      let small =
        length-Sub (xs ++ ys) zs (NoDup-append xs ys d e dis)
          (λ t i. ground (arith, s t, s' t, elem-append t xs ys)) in
      absurd (omega (arith, small, length-append xs ys, h))
]
