-- ===== src/Node/Coordinator.antt =====
-- internal/node/coordinator.go: a node with its replica, its hints and its counter of tags, and the
-- write path over a cluster of such nodes. A world gives the node of each id. The transport is what
-- becomes of each request: it reaches the peer, whose handler runs, and the reply comes back or is
-- lost, or it does not reach it.
pub mod Write
pub mod Read
pub mod Quorum
pub mod Prepare
pub mod Acked
pub mod Backed
pub mod Views
pub mod Visible
pub mod Overlap
pub mod Handoff
pub mod Answered
pub mod Tags
pub mod Sync
use agent_memory.Prelude.{
  ℕ, zero, suc, ◌+◌, ◌-◌, ◌/◌, ◌%◌, Bool, true, false, not, ◌||◌, List, [], ◌∷◌, ◌++◌, Option, none,
  some, if◌then◌else◌, Text, codes, eq_text, ltb, ◌==◌, map, digits,
}
use agent_memory.Prelude.Int.{ℤ, pos, ltb_int}
use agent_memory.Map.{Map}
use agent_memory.Types.Version.{Version}
use agent_memory.Types.Clock.{u64_mod, tick}
use agent_memory.Types.Value.{Value, Policy, WriteReq, zero_value}
use agent_memory.Conflict.Codec.{Codec}
use agent_memory.Conflict.Register.{apply_lwwreg_write}
use agent_memory.Conflict.OrSet.{apply_orset_op}
use agent_memory.Store.Wal.{EntryCodec, Io}
use agent_memory.Cluster.{Membership}
use agent_memory.Cluster
use agent_memory.Repair.Hints.{Hints}
use agent_memory.Node.Replica
use agent_memory.Node.Replica.{Replica, Applied, ok, wal_error}

-- Without the transport and the timers.
pub record Node : Type 0 where
  pub id : Text
  pub members : Membership
  pub replica : Replica
  pub hints : Hints
  pub tag_counter : ℕ
  pub read_repair : Bool

-- `err == nil`; the error is of the range of a quorum.
unfoldable pub validate_quorum : ℤ → Node → Bool
validate_quorum q n = not (ltb_int q (pos 1) || ltb_int (pos (Cluster.n n.members)) q)

-- A uint64 has at most 20 digits.
unfoldable pub next_orset_tag : Node → Node × Text
next_orset_tag n =
    let c = (n.tag_counter + 1) % u64_mod in
    (record n { tag_counter = c }, n.id ++ (codes ":" ++ digits 20 c))

-- `found`, and the value or `Value{}`
abbrev pub is_found : Option Value → Bool
is_found none = false
is_found (some v) = true

abbrev pub value_or_zero : Option Value → Value
value_or_zero none = zero_value
value_or_zero (some v) = v

-- `err == nil` of `Apply`
abbrev pub is_ok : Applied → Bool
is_ok (ok v) = true
is_ok (wal_error v) = false

module _ ⦃codec : Codec⦄ where
  -- The error is always nil.
  unfoldable pub local_prepare : WriteReq → Version → Node → Node × Value
  local_prepare req ver n =
      let cur = Replica.get req.key n.replica in
      elim req.policy [
        | Policy.crdt_orset ↦
            let (n', tag) = next_orset_tag n in
            (
              n',
              apply_orset_op (value_or_zero cur) (is_found cur) req.orset_op req.orset_elem tag ver,
            )
        | Policy.crdt_lwwreg ↦
            (n, apply_lwwreg_write (value_or_zero cur) (is_found cur) req.content ver req.tombstone)
        | _ ↦ (
          n,
          record {
            content = req.content;
            version = ver;
            policy = Policy.lww;
            tombstone = req.tombstone;
            crdt = [];
          },
        )
      ]

  -- What `Write` does under `writeMu`: the version and the payload.
  unfoldable pub start_write : WriteReq → Node → Node × Version × Value
  start_write req n =
      let (clock', lamport) = tick n.replica.clock in
      let ver : Version = record { lamport = lamport; node_id = n.id } in
      let n' : Node = record n { replica = record n.replica { clock = clock' } } in
      let (n'', payload) = local_prepare req ver n' in (n'', ver, payload)

  module _ ⦃entries : EntryCodec⦄ where
    -- The node after the call, and whether the error is nil.
    unfoldable pub apply_replicate : Io → Text → Value → Node → Node × Bool
    apply_replicate io key val n =
        let (r, a) = Replica.apply io key val n.replica in (record n { replica = r }, is_ok a)

-- `some` of the value and `found`, or `none` for the error "reads disabled"
unfoldable pub serve_read : Text → Node → Option (Option Value)
serve_read key n =
    if not (Replica.reads_enabled n.replica) then none else some (Replica.get key n.replica)

unfoldable pub serve_digest : Node → Map Text Value
serve_digest n = Replica.snapshot n.replica

abbrev pub World : Type 0
World = Text → Node

unfoldable pub update : Text → Node → World → World
update id n w = λ j. if eq_text id j then n else w j

-- What becomes of a request that changes its target: it runs there and the reply comes back, it runs
-- and the reply is lost, or it is lost itself.
pub data Fate : Type 0 where
  delivered reply_lost : Io → Fate
  lost : Fate

module _ ⦃codec : Codec⦄ ⦃entries : EntryCodec⦄ where
  -- `Net.ReplicateWrite`, over the handler of the target.
  unfoldable pub replicate_write : Fate → Text → Text → Value → World → World × Bool
  replicate_write (delivered io) id key val w =
      let (n, good) = apply_replicate io key val (w id) in (update id n w, good)
  replicate_write (reply_lost io) id key val w =
      let (n, good) = apply_replicate io key val (w id) in (update id n w, false)
  replicate_write lost id key val w = (w, false)
