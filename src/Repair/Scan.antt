-- ===== src/Repair/Scan.antt =====
-- internal/repair/anti_entropy.go and read_repair.go.
pub mod Laws
use agent_memory.Prelude.{
  Bool, true, false, not, List, [], ◌∷◌, Option, none, some, if◌then◌else◌, Text,
}
use agent_memory.Prelude.Order.{list_ord}
use agent_memory.Map.{Map, lookup, insert, empty, has}
use agent_memory.Types.Value.{Value, ReplicaView, equal_value}
use agent_memory.Conflict.Codec.{Codec}
use agent_memory.Conflict.Resolve.{resolve, agreed}

pub record Plan : Type 0 where
  pub push : Map Text Value
  pub pull : Map Text Value

module _ ⦃codec : Codec⦄ where
  -- The body of the loop over the local map.
  unfoldable pub scan_local : Map Text Value → Plan → Text → Value → Plan
  scan_local remote p k lv = elim (lookup k remote) [
    | none ↦ record p { push = insert k lv p.push }
    | some rv ↦
        let merged = resolve lv rv in
        record p {
          pull = if not (equal_value merged lv) then insert k merged p.pull else p.pull;
          push = if not (equal_value merged rv) then insert k merged p.push else p.push;
        }
  ]

  unfoldable pub scan_locals : Map Text Value → Plan → Map Text Value → Plan
  scan_locals remote p [] = p
  scan_locals remote p ((k, lv) ∷ rest) = scan_locals remote (scan_local remote p k lv) rest

-- The loop over the remote map: `seen` holds the keys of the local map.
unfoldable pub scan_remotes : Map Text Value → Plan → Map Text Value → Plan
scan_remotes local p [] = p
scan_remotes local p ((k, rv) ∷ rest) =
    scan_remotes local (if has k local then p else record p { pull = insert k rv p.pull }) rest

module _ ⦃codec : Codec⦄ where
  unfoldable pub scan : Map Text Value → Map Text Value → Plan
  scan local remote =
      scan_remotes local (scan_locals remote (record { push = empty; pull = empty }) local) remote

unfoldable pub stale_among : List ReplicaView → Value → List Text
stale_among [] winner = []
stale_among (v ∷ views) winner =
    let rest = stale_among views winner in
    if not v.found
    then v.node_id ∷ rest
    else if not (equal_value v.value winner)
    then v.node_id ∷ rest
    else rest

unfoldable pub needs_repair : List ReplicaView → Value → Bool
needs_repair views winner = not (agreed views winner)

-- `PushWinner`: `replicate_write` is the method of its `Pusher`.
unfoldable pub push_winner {ℓ} : {R : Type ℓ} → (Text → Text → Value → R) → Text → Text → Value → R
push_winner replicate_write dest key winner = replicate_write dest key winner
