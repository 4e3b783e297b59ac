-- ===== src/Conflict/Resolve.antt =====
-- internal/conflict/resolve.go: the merge under the policy of a key.
pub mod Laws
pub mod Many
use mathlib.Core.List.{foldl}
use agent_memory.Prelude.{
  Bool, true, false, not, ◌&&◌, List, [], ◌∷◌, Option, none, some, if◌then◌else◌, ℕ, ◌+◌, ltb,
}
use agent_memory.Prelude.Order.{is_gt}
use agent_memory.Types.Version.{compare_version, is_zero}
use agent_memory.Types.Value.{Value, Policy, ReplicaView, eq_policy, equal_value}
use agent_memory.Conflict.Codec.{Codec}
use agent_memory.Conflict.Lww.{lww}
use agent_memory.Conflict.Register.{merge_lwwreg}
use agent_memory.Conflict.OrSet.{merge_orset}

unfoldable pub choose_policy : Value → Value → Policy
choose_policy a b =
    let policy = if is_zero a.version then b.policy else a.policy in
    if not (eq_policy b.policy a.policy)
      && (not (is_zero b.version) && is_gt (compare_version b.version a.version))
    then b.policy
    else policy

module _ ⦃codec : Codec⦄ where
  unfoldable pub resolve : Value → Value → Value
  resolve a b = elim (choose_policy a b) [
    | Policy.crdt_lwwreg ↦ merge_lwwreg a b
    | Policy.crdt_orset ↦ merge_orset a b
    | _ ↦ lww a b
  ]

  -- The body of the loop of `ResolveMany`; `none` is `found == false`.
  unfoldable pub resolve_view : Option Value → ReplicaView → Option Value
  resolve_view acc v =
      if not v.found
      then acc
      else elim acc [ none ↦ some v.value | some x ↦ some (resolve x v.value) ]

  unfoldable pub resolve_many : List ReplicaView → Option Value
  resolve_many = foldl resolve_view none

-- The loop of `Agreed`: `none` is the early return.
agreed_from : ℕ → List ReplicaView → Value → Bool
agreed_from seen [] winner = ltb 0 seen
agreed_from seen (v ∷ views) winner =
    let skipped = agreed_from seen views winner in
    let counted = agreed_from (seen + 1) views winner in
    if not v.found then skipped else if not (equal_value v.value winner) then false else counted

unfoldable pub agreed : List ReplicaView → Value → Bool
unfolding agreed_from
agreed views winner = agreed_from 0 views winner
