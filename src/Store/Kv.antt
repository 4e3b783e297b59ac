-- ===== src/Store/Kv.antt =====
-- `KV` of internal/store/kv.go. Each method holds the lock for its whole body, so it is one step.
pub mod Laws
use agent_memory.Prelude.{
  ℕ, Bool, true, false, not, ◌&&◌, [], ◌∷◌, Option, none, some, if◌then◌else◌, Text, length, ◌==◌,
}
use agent_memory.Prelude.Order.{list_ord}
use agent_memory.Map.{Map, lookup, insert, empty, has}
use agent_memory.Types.Version.{Version, version_ord}
use agent_memory.Types.Value.{Value}

pub record Kv : Type 0 where
  pub m : Map Text Value
  pub applied : Map Text (Map Version (Unit {0}))

abbrev pub new_kv : Kv
new_kv = record { m = empty; applied = empty }

-- `none` is `(Value{}, false)`.
unfoldable pub get : Text → Kv → Option Value
get key kv = lookup key kv.m

-- applied[key], where a missing key reads as the nil map
unfoldable pub versions_of : Text → Kv → Map Version (Unit {0})
versions_of key kv = elim (lookup key kv.applied) [ none ↦ [] | some vs ↦ vs ]

-- applied[key][ver] = struct{}{}, with the inner map made on first use
unfoldable pub mark : Text → Version → Kv → Map Text (Map Version (Unit {0}))
mark key ver kv = insert key (insert ver tt (versions_of key kv)) kv.applied

unfoldable pub apply : Text → Value → Kv → Kv × Value
apply key v kv = (record { m = insert key v kv.m; applied = mark key v.version kv }, v)

unfoldable pub seen : Text → Version → Kv → Bool
seen key ver kv = has ver (versions_of key kv)

copy_all : Map Text Value → Map Text Value → Map Text Value
copy_all out [] = out
copy_all out ((k, v) ∷ m) = copy_all (insert k v out) m

unfoldable pub snapshot : Kv → Map Text Value
unfolding copy_all
snapshot kv = copy_all empty kv.m

-- strings.HasPrefix
unfoldable pub has_prefix : Text → Text → Bool
has_prefix s [] = true
has_prefix [] (p ∷ ps) = false
has_prefix (c ∷ s) (p ∷ ps) = c == p && has_prefix s ps

copy_prefix : Text → Map Text Value → Map Text Value → Map Text Value
copy_prefix p out [] = out
copy_prefix p out ((k, v) ∷ m) =
    copy_prefix p (if has_prefix k p && not v.tombstone then insert k v out else out) m

unfoldable pub prefix : Text → Kv → Map Text Value
unfolding copy_prefix
prefix p kv = copy_prefix p empty kv.m

unfoldable pub len : Kv → ℕ
len kv = length kv.m

unfoldable pub inject : Text → Value → Kv → Kv
inject key v kv = record { m = insert key v kv.m; applied = mark key v.version kv }
