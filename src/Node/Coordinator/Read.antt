-- ===== src/Node/Coordinator/Read.antt =====
-- `Read` of internal/node/coordinator.go. A schedule says in what order the answers come, which
-- requests get through, and when the deadline passes.
use agent_memory.Prelude.{
  ℕ, ◌-◌, Bool, true, false, not, ◌&&◌, ◌||◌, List, [], ◌∷◌, ◌++◌, Option, none, some,
  if◌then◌else◌, Text, eq_text, ◌==◌, length,
}
use agent_memory.Prelude.Int.{ℤ, pos, ltb_int}
use agent_memory.Types.Value.{Value, ReadReq, ReplicaView, zero_value}
use agent_memory.Conflict.Codec.{Codec}
use agent_memory.Conflict.Resolve.{resolve_many, agreed}
use agent_memory.Store.Wal.{EntryCodec}
use agent_memory.Cluster
use agent_memory.Repair.Scan.{stale_among}
use agent_memory.Node.Coordinator.{
  World, Fate, update, validate_quorum, serve_read, is_found, value_or_zero, apply_replicate,
  replicate_write,
}
use agent_memory.Node.Coordinator.Write.{io_of}

pub data ReadError : Type 0 where
  no_error quorum_range too_few_responses : ReadError

pub record ReadResp : Type 0 where
  pub value : Value
  pub found : Bool
  pub replicas_responded : ℕ
  pub replicas_agreed : Bool
  pub repaired : Bool
  pub error : ReadError

-- The request to a peer is answered, or fails on the way; or the deadline passes.
pub data Answer : Type 0 where
  answers fails : Text → Answer
  deadline : Answer

-- What a goroutine sends: the view, or no view for an error. The node's own answer needs no transport.
unfoldable pub view_of : Text → Text → Text → Bool → World → List ReplicaView
view_of self key peer reached w =
    if eq_text peer self || reached
    then elim (serve_read key (w peer)) [
      | none ↦ []
      | some v ↦ record { node_id = peer; value = value_or_zero v; found = is_found v } ∷ []
    ]
    else []

-- The condition of the loop fails.
unfoldable pub has_ended : ℤ → List ReplicaView → ℕ → Bool
has_ended quorum views remaining = remaining == 0 || not (ltb_int (pos (length views)) quorum)

-- The loop: the views when it ends. `none` is a loop that still waits.
unfoldable pub collect :
    Text → Text → ℤ → World → List ReplicaView → ℕ → List Answer → Option (List ReplicaView)
collect self key quorum w views remaining [] =
    if has_ended quorum views remaining then some views else none
collect self key quorum w views remaining (deadline ∷ es) = some views
collect self key quorum w views remaining (answers peer ∷ es) =
    let more =
      collect self key quorum w (views ++ view_of self key peer true w) (remaining - 1) es in
    if has_ended quorum views remaining then some views else more
collect self key quorum w views remaining (fails peer ∷ es) =
    let more =
      collect self key quorum w (views ++ view_of self key peer false w) (remaining - 1) es in
    if has_ended quorum views remaining then some views else more

module _ ⦃codec : Codec⦄ ⦃entries : EntryCodec⦄ where
  -- The loop of the repair, over the stale ids; the result is `repaired`.
  unfoldable pub repair :
      Text → Text → Value → (Text → Fate) → List Text → Bool → World → World × Bool
  repair self key winner fates [] repaired w = (w, repaired)
  repair self key winner fates (dest ∷ rest) repaired w =
      let (n, ignored) = apply_replicate (io_of (fates self)) key winner (w self) in
      let (w', good) = replicate_write (fates dest) dest key winner w in
      if eq_text dest self
      then repair self key winner fates rest true (update self n w)
      else repair self key winner fates rest (good || repaired) w'

  -- What `Read` does with the views that the loop ends with.
  unfoldable pub respond :
      Text → ReadReq → (Text → Fate) → List ReplicaView → World → World × ReadResp
  respond self req fates views w =
      let winner = resolve_many views in
      let value = value_or_zero winner in
      let all_agreed = is_found winner && agreed views value in
      let repairs = (w self).read_repair && (is_found winner && not all_agreed) in
      let (w', repaired) =
        if repairs
        then repair self req.key value fates (stale_among views value) false w
        else (w, false) in
      let found = is_found winner && not value.tombstone in
      if ltb_int (pos (length views)) req.r
      then (
        w,
        record {
          value = zero_value;
          found = false;
          replicas_responded = length views;
          replicas_agreed = false;
          repaired = false;
          error = too_few_responses;
        },
      )
      else (
        w',
        record {
          value = value;
          found = found;
          replicas_responded = length views;
          replicas_agreed = all_agreed;
          repaired = repaired;
          error = no_error;
        },
      )

  -- `Read` on the node `self` under a schedule; a reply of `none` says that the loop still waits.
  unfoldable pub read :
      Text → ReadReq → (Text → Fate) → List Answer → World → World × Option ReadResp
  read self req fates events w =
      if not (validate_quorum req.r (w self))
      then (
        w,
        some (record {
          value = zero_value;
          found = false;
          replicas_responded = 0;
          replicas_agreed = false;
          repaired = false;
          error = quorum_range;
        }),
      )
      else elim (collect self req.key req.r w [] (Cluster.n (w self).members) events) [
        | none ↦ (w, none)
        | some views ↦ let (w', resp) = respond self req fates views w in (w', some resp)
      ]
