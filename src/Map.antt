-- ===== src/Map.antt =====
-- Go's `map`: an association list in the order of its keys, each key once. The order stands for no
-- order of the program: Go ranges over a map in any order. Clients have the laws of `Lookup`,
-- and `Extensional`: two such lists with the same lookups are equal.
pub mod Lookup
pub mod Extensional
use agent_memory.Prelude.{
  ◌≡◌, Bool, true, false, Option, none, some, List, [], ◌∷◌, Ordering, if◌then◌else◌,
}
use agent_memory.Prelude.Order.{Ord, is_eq}

abbrev pub Map {ℓ κ} : Type ℓ → Type κ → Type (ℓ ⊔ κ)
Map K V = List (K × V)

abbrev pub empty {ℓ κ} : {K : Type ℓ} {V : Type κ} → Map K V
empty = []

module _ {ℓ κ} {K : Type ℓ} {V : Type κ} ⦃o : Ord K⦄ where
  -- v, ok := m[k]
  unfoldable pub lookup : K → Map K V → Option V
  lookup k [] = none
  lookup k ((j, v) ∷ m) = if is_eq (o.cmp j k) then some v else lookup k m

  -- m[k] = v
  unfoldable pub insert : K → V → Map K V → Map K V
  insert k v [] = (k, v) ∷ []
  insert k v ((j, w) ∷ m) = elim (o.cmp k j) [
    | Ordering.lt ↦ (k, v) ∷ (j, w) ∷ m
    | Ordering.eq ↦ (k, v) ∷ m
    | Ordering.gt ↦ (j, w) ∷ insert k v m
  ]

  -- delete(m, k)
  unfoldable pub delete : K → Map K V → Map K V
  delete k [] = []
  delete k ((j, w) ∷ m) = let rest = delete k m in if is_eq (o.cmp j k) then rest else (j, w) ∷ rest

  -- Whether the key is there, whatever its value.
  abbrev pub has : K → Map K V → Bool
  has k m = elim (lookup k m) [ none ↦ false | some v ↦ true ]

  -- Every key of the list is above `k`.
  abbrev pub Above : K → Map K V → Type 0
  Above k [] = Unit
  Above k ((j, v) ∷ m) = (o.cmp k j ≡ Ordering.lt) × Above k m

  -- The keys rise: every list that stands for a Go map has this.
  abbrev pub IsSorted : Map K V → Type 0
  IsSorted [] = Unit
  IsSorted ((k, v) ∷ m) = Above k m × IsSorted m
