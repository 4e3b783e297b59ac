-- ===== src/Store/FactKey/Laws.antt =====
-- A fact key splits at its last colon.
use native.Mathlib.Numerals.{add-one}
use agent_memory.Prelude.{
  ℕ, zero, suc, ◌≡◌, refl, [], ◌∷◌, ◌++◌, none, some, false, ◌≢◌, ap₂, Text, ◌==◌, take, drop,
  take-length, arith, inl, inr, Option-cases, ap, length,
}
use agent_memory.Store.FactKey.{fact_key, last_colon, split_fact_key}

-- No colon in the text.
abbrev pub NoColon : Text → Type 0
NoColon [] = Unit
NoColon (c ∷ s) = ((c == b':') ≡ false) × NoColon s

last_colon-none : (s : Text) → NoColon s → last_colon s ≡ none
unfolding last_colon
last_colon-none [] h = refl
last_colon-none (c ∷ s) h = ground (arith, last_colon-none s h.1)

last_colon_split : (s t : Text) → NoColon t → last_colon (s ++ b':' ∷ t) ≡ some (length s)
unfolding last_colon
last_colon_split [] t h = ground (arith, last_colon-none t h)
last_colon_split (c ∷ s) t h = ground (arith, last_colon_split s t h)

drop_colon : (s : Text) (c : ℕ) (t : Text) → drop (suc (length s)) (s ++ c ∷ t) ≡ t
drop_colon [] c t = refl
drop_colon (d ∷ s) c t = drop_colon s c t

-- The key of a fact splits into its entity and its attribute, if the attribute has no colon.
pub split-fact_key :
    (entity attribute : Text)
    → NoColon attribute
    → split_fact_key (fact_key entity attribute) ≡ (entity, attribute)
unfolding split_fact_key fact_key
split-fact_key entity attribute h =
    rw (last_colon_split entity attribute h, split_fact_key, add-one)
      (ap₂ (λ (a b : Text). (a, b)) (take-length entity (b':' ∷ attribute))
        (drop_colon entity b':' attribute))

NoColon-of_none : (s : Text) → last_colon s ≡ none → NoColon s
unfolding last_colon
NoColon-of_none [] h = tt
NoColon-of_none (c ∷ s) h = ground (arith, NoColon-of_none s)

rejoin :
    (s : Text) (i : ℕ)
    → last_colon s ≡ some i
    → (take i s ++ b':' ∷ drop (suc i) s ≡ s) × NoColon (drop (suc i) s)
unfolding last_colon
rejoin [] i h = absurd (ground arith)
rejoin (c ∷ s) zero h = ground (arith, NoColon-of_none s)
rejoin (c ∷ s) (suc i) h = let (e, n) = rejoin s i (ground arith) in (ap (◌∷◌ c) e, n)

-- Splitting and joining again gives every key back that has a colon, and the attribute has none. A
-- key with no colon is all entity.
pub fact_key-split :
    (key : Text)
    → (last_colon key ≡ none → split_fact_key key ≡ (key, []))
      × (last_colon key ≢ none
          → (fact_key (split_fact_key key).0 (split_fact_key key).1 ≡ key)
            × NoColon (split_fact_key key).1)
unfolding split_fact_key fact_key
fact_key-split key = elim (Option-cases (last_colon key)) [
  | inl e ↦ (λ _. rw (e, split_fact_key), λ h. absurd (h e))
  | inr (i, e) ↦ (λ h. cc, λ _. rw (e, split_fact_key, add-one) (rejoin key i e))
]
