-- ===== src/Node/Coordinator/Tags.antt =====
-- The tags that nodes give to the adds of their OR-Sets.
use mathlib.Core.Option.{some-injective}
use agent_memory.Prelude.{
  digits, ℕ, zero, suc, ◌+◌, ◌/◌, ◌%◌, ◌<◌, ◌≡◌, ◌≢◌, ◌⊎◌, ◌&&◌, ap, sym, ◌∙◌, true, false, List,
  [], ◌∷◌, ◌++◌, Text, codes, arith, eq_text, eq_text→eq, elem, NoDup, ◌==◌, Bool-cases, inl, inr,
}
use agent_memory.Types.Clock.{u64_mod}
use agent_memory.Store.FactKey.{fact_key, split_fact_key}
use agent_memory.Store.FactKey.Laws.{NoColon, split-fact_key}
use agent_memory.Node.Coordinator.{Node, next_orset_tag}
use agent_memory.Node.Server.Numbers.{parse_digits}
use agent_memory.Node.Server.Numbers.Laws.{parse_digits-digits}

-- The next tags of a node.
unfoldable pub issue : ℕ → Node → List Text
issue zero n = []
issue (suc k) n = let (n', tag) = next_orset_tag n in tag ∷ issue k n'

append-NoColon : (s : Text) (d : ℕ) → NoColon s → (d == b':') ≡ false → NoColon (s ++ d ∷ [])
append-NoColon [] d h k = (k, tt)
append-NoColon (c ∷ s) d h k = (h.0, append-NoColon s d h.1 k)

digits-NoColon : (fuel c : ℕ) → NoColon (digits fuel c)
unfolding digits
digits-NoColon zero c = tt
digits-NoColon (suc fuel) c =
    ground
      (arith, append-NoColon (digits fuel (c / 10)) (b'0' + c % 10) (digits-NoColon fuel (c / 10)))

digits_inj : (c d : ℕ) → c < u64_mod → d < u64_mod → digits 20 c ≡ digits 20 d → c ≡ d
digits_inj c d h k e =
    let p = parse_digits-digits 20 c (omega arith) h in
    let q = parse_digits-digits 20 d (omega arith) k in
    some-injective c d (sym p ∙ ap (parse_digits 0) e ∙ q)

fact_key_inj :
    (id jd s t : Text) → NoColon s → NoColon t → fact_key id s ≡ fact_key jd t → (id ≡ jd) × (s ≡ t)
fact_key_inj id jd s t h k e =
    let p = sym (split-fact_key id s h) ∙ ap split_fact_key e ∙ split-fact_key jd t k in
    (ap (λ x. x.0) p, ap (λ x. x.1) p)

-- The counter behind a tag.
abbrev tag_of : Text → ℕ → Text
tag_of id c = id ++ (codes ":" ++ digits 20 c)

tag_of_inj :
    (id jd : Text) (c d : ℕ)
    → c < u64_mod
    → d < u64_mod
    → tag_of id c ≡ tag_of jd d
    → (id ≡ jd) × (c ≡ d)
unfolding fact_key
tag_of_inj id jd c d h k e =
    let p =
      fact_key_inj id jd (digits 20 c) (digits 20 d) (digits-NoColon 20 c) (digits-NoColon 20 d)
        e in
    (p.0, digits_inj c d h k p.1)

elem-cons : (t a : Text) (l : List Text) → elem t (a ∷ l) ≡ true → (a ≡ t) ⊎ (elem t l ≡ true)
elem-cons t a l h = elim (Bool-cases (eq_text a t)) [
  | inl g ↦ inl (eq_text→eq a t g)
  | inr g ↦ inr (ground (arith, g, h))
]

-- The node after a tag.
abbrev advanced : Node → Node
advanced n = record n { tag_counter = (n.tag_counter + 1) % u64_mod }

-- A tag that a node issues has its id and a counter above the node's.
record IsIssued (k : ℕ) (n : Node) (t : Text) : Type 0 where
  c : ℕ
  above : n.tag_counter < c
  within : c < n.tag_counter + k + 1
  is_tag : t ≡ tag_of n.id c

issue-IsIssued :
    (k : ℕ) (n : Node) (t : Text)
    → n.tag_counter + k < u64_mod
    → elem t (issue k n) ≡ true
    → IsIssued k n t
unfolding issue next_orset_tag
issue-IsIssued zero n t h e = absurd (cc (e))
issue-IsIssued (suc k) n t h e =
    elim (elem-cons t (tag_of n.id ((n.tag_counter + 1) % u64_mod)) (issue k (advanced n)) e) [
      | inl g ↦ record {
        c = (n.tag_counter + 1) % u64_mod;
        above = omega arith;
        within = omega arith;
        is_tag = sym g;
      }
      | inr g ↦
          let rest = issue-IsIssued k (advanced n) t (omega arith) g in
          record {
            c = rest.c;
            above = let a = rest.above in omega arith;
            within = let a = rest.within in omega arith;
            is_tag = rest.is_tag;
          }
    ]

not_elem : (t : Text) (l : List Text) → (elem t l ≡ true → ⊥) → elem t l ≡ false
not_elem t l h = elim (Bool-cases (elem t l)) [ inl g ↦ absurd (h g) | inr g ↦ g ]

issue-NoDup : (k : ℕ) (n : Node) → n.tag_counter + k < u64_mod → NoDup (issue k n)
unfolding issue next_orset_tag
issue-NoDup zero n h = tt
issue-NoDup (suc k) n h = (
  not_elem (tag_of n.id ((n.tag_counter + 1) % u64_mod)) (issue k (advanced n)) (λ g.
      let found =
        issue-IsIssued k (advanced n) (tag_of n.id ((n.tag_counter + 1) % u64_mod)) (omega arith)
          g in
      let same =
        (tag_of_inj n.id n.id ((n.tag_counter + 1) % u64_mod) found.c (omega arith)
          (let w = found.within in omega arith) found.is_tag).1 in
      let a = found.above in omega arith),
  issue-NoDup k (advanced n) (omega arith),
)

-- The next tags that a node gives to adds are all different, and none of them is among the next
-- tags of a node with another id, while the two counters stay below 2^64; ids may hold colons and
-- digits.
pub issued_tags_differ :
    (k j : ℕ) (n m : Node) (t : Text)
    → n.tag_counter + k < u64_mod
    → m.tag_counter + j < u64_mod
    → n.id ≢ m.id
    → NoDup (issue k n) × ((elem t (issue k n) && elem t (issue j m)) ≡ false)
issued_tags_differ k j n m t h l d = (
  issue-NoDup k n h,
  elim (Bool-cases (elem t (issue k n) && elem t (issue j m))) [
    | inr g ↦ g
    | inl g ↦
        let a = issue-IsIssued k n t h (ground (arith, g)) in
        let b = issue-IsIssued j m t l (ground (arith, g)) in
        let below_c = a.within in
        let below_d = b.within in
        absurd
          (d (tag_of_inj n.id m.id a.c b.c (omega arith) (omega arith) (sym a.is_tag ∙ b.is_tag)).0)
  ],
)
