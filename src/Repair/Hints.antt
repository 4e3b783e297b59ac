-- ===== src/Repair/Hints.antt =====
-- internal/repair/hinted_handoff.go: writes that a node keeps for replicas it could not reach. Each
-- method holds the lock for its whole body.
pub mod Laws
use agent_memory.Prelude.{ℕ, ◌+◌, List, [], ◌∷◌, ◌++◌, Option, none, some, Text, length}
use agent_memory.Prelude.Order.{list_ord}
use agent_memory.Map.{Map, lookup, insert, delete, empty}
use agent_memory.Types.Value.{Value}

pub record Hint : Type 0 where
  pub target : Text
  pub key : Text
  pub value : Value

abbrev pub Hints : Type 0
Hints = Map Text (List Hint)

abbrev pub new_hints : Hints
new_hints = empty

-- h.m[target], where a missing key reads as the nil slice
unfoldable pub peek : Text → Hints → List Hint
peek target h = elim (lookup target h) [ none ↦ [] | some hs ↦ hs ]

unfoldable pub store : Text → Text → Value → Hints → Hints
store target key val h =
    insert target (peek target h ++ record { target = target; key = key; value = val } ∷ []) h

unfoldable pub take : Text → Hints → Hints × List Hint
take target h = (delete target h, peek target h)

unfoldable pub count : Hints → ℕ
count [] = 0
count ((id, hs) ∷ h) = length hs + count h

unfoldable pub targets : Hints → List Text
targets [] = []
targets ((id, hs) ∷ h) = id ∷ targets h
