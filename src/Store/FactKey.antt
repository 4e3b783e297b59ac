-- ===== src/Store/FactKey.antt =====
-- `FactKey` and `SplitFactKey` of internal/store/kv.go.
pub mod Laws
use agent_memory.Prelude.{
  ℕ, zero, suc, ◌+◌, [], ◌∷◌, ◌++◌, Option, none, some, if◌then◌else◌, Text, codes, ◌==◌, take,
  drop,
}

unfoldable pub fact_key : Text → Text → Text
fact_key entity attribute = entity ++ (codes ":" ++ attribute)

-- strings.LastIndex(key, ":"); `none` is -1.
unfoldable pub last_colon : Text → Option ℕ
last_colon [] = none
last_colon (c ∷ s) = elim (last_colon s) [
  | some i ↦ some (suc i)
  | none ↦ if c == b':' then some 0 else none
]

unfoldable pub split_fact_key : Text → Text × Text
split_fact_key key = elim (last_colon key) [
  | none ↦ (key, [])
  | some i ↦ (take i key, drop (i + 1) key)
]
