-- ===== src/Node/Replica.antt =====
-- internal/node/replica.go: the local copy of the keyspace with its log. `Apply` and the two methods
-- on `Reads` hold the replica's lock for the whole body; what the others do is one locked call.
pub mod Step
pub mod Again
pub mod Converge
pub mod Recovery
pub mod Above
pub mod Valid
use mathlib.Core.List.{foldl}
use agent_memory.Prelude.{
  ℕ, Bool, true, false, List, [], ◌∷◌, Option, none, some, if◌then◌else◌, Text,
}
use agent_memory.Map.{Map}
use agent_memory.Types.Clock.{Lamport, zero_clock, observe}
use agent_memory.Types.Value.{Value, HistoryEntry, equal_value}
use agent_memory.Conflict.Codec.{Codec}
use agent_memory.Conflict.Resolve.{resolve}
use agent_memory.Store.Kv
use agent_memory.Store.Kv.{Kv, new_kv}
use agent_memory.Store.Wal
use agent_memory.Store.Wal.{Wal, EntryCodec, Io}

-- `wal` is `none` for a nil WAL.
pub record Replica : Type 0 where
  pub id : Text
  pub kv : Kv
  pub wal : Option Wal
  pub clock : Lamport
  pub reads : Bool

-- A value, or the value beside the error of the log.
pub data Applied : Type 0 where
  ok : Value → Applied
  wal_error : Value → Applied

unfoldable pub get : Text → Replica → Option Value
get key r = Kv.get key r.kv

unfoldable pub snapshot : Replica → Map Text Value
snapshot r = Kv.snapshot r.kv

unfoldable pub history : Text → Replica → List HistoryEntry
history key r = elim r.wal [ none ↦ [] | some w ↦ Wal.history key w ]

unfoldable pub set_reads_enabled : Bool → Replica → Replica
set_reads_enabled on r = record r { reads = on }

unfoldable pub reads_enabled : Replica → Bool
reads_enabled r = r.reads

unfoldable pub inject : Text → Value → Replica → Replica
inject key v r = record r { kv = Kv.inject key v r.kv }

module _ ⦃codec : Codec⦄ where
  unfoldable pub merge_incoming : Text → Value → Kv → Value
  merge_incoming key incoming kv = elim (Kv.get key kv) [
    | none ↦ incoming
    | some cur ↦ resolve cur incoming
  ]

  -- The body of the loop of `NewReplica`.
  unfoldable pub replay_entry : Replica → HistoryEntry → Replica
  replay_entry r e = record r {
    kv = (Kv.apply e.key (merge_incoming e.key e.value r.kv) r.kv).0;
    clock = observe e.value.version.lamport r.clock;
  }

  unfoldable pub new_replica : Text → Option Wal → Replica
  new_replica id wal =
      let r : Replica = record {
        id = id;
        kv = new_kv;
        wal = wal;
        clock = zero_clock;
        reads = true;
      } in
      elim wal [ none ↦ r | some w ↦ foldl replay_entry r (Wal.replay w) ]

  module _ ⦃entries : EntryCodec⦄ where
    -- The store of the merged value.
    unfoldable pub store_merged : Text → Value → Replica → Replica × Applied
    store_merged key merged r =
        let (kv', stored) = Kv.apply key merged r.kv in (record r { kv = kv' }, ok stored)

    -- From `if r.WAL != nil` on: the incoming value to the log, then the merged one to the map.
    unfoldable pub log_and_store : Io → Text → Value → Value → Replica → Replica × Applied
    unfolding store_merged
    log_and_store io key incoming merged r = elim r.wal [
      | none ↦ store_merged key merged r
      | some w ↦
          let (w', e, done) = Wal.append io key incoming w in
          let logged : Replica = record r { wal = some w' } in
          if done then store_merged key merged logged else (logged, wal_error merged)
    ]

    unfoldable pub apply : Io → Text → Value → Replica → Replica × Applied
    unfolding log_and_store
    apply io key incoming r =
        let r' : Replica = record r { clock = observe incoming.version.lamport r.clock } in
        let merged = merge_incoming key incoming r'.kv in
        elim (Kv.get key r'.kv) [
          | none ↦ log_and_store io key incoming merged r'
          | some cur ↦
              if equal_value cur merged
              then (r', ok cur)
              else log_and_store io key incoming merged r'
        ]
