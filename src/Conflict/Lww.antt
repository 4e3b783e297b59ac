-- ===== src/Conflict/Lww.antt =====
-- internal/conflict/lww.go: last write wins.
pub mod Laws
use mathlib.Core.List.{foldl}
use agent_memory.Prelude.{Bool, true, false, not, List, Ordering, if◌then◌else◌, Option, none, some}
use agent_memory.Prelude.Order.{cmp_list, is_ge, is_gt, is_eq}
use agent_memory.Types.Version.{compare_version}
use agent_memory.Types.Value.{Value, ReplicaView, eq_bool, zero_value}

unfoldable pub cmp_value : Value → Value → Ordering
cmp_value a b =
    let c = compare_version a.version b.version in
    if not (is_eq c)
    then c
    else if not (eq_bool a.tombstone b.tombstone)
    then (if a.tombstone then Ordering.gt else Ordering.lt)
    else cmp_list a.content b.content

unfoldable pub lww : Value → Value → Value
lww a b = if is_ge (cmp_value a b) then a else b

-- The body of the loop of `Winner`; `none` is `found == false`.
better : Option Value → ReplicaView → Option Value
better best v = if not v.found then best else elim best [
  | none ↦ some v.value
  | some x ↦ if is_gt (compare_version v.value.version x.version) then some v.value else some x
]

unfoldable pub winner : List ReplicaView → Option Value
unfolding better
winner = foldl better none
