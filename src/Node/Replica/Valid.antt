-- ===== src/Node/Replica/Valid.antt =====
-- Every delivery keeps the map valid.
use agent_memory.Prelude.{
  Bool, true, false, Option, none, some, if◌then◌else◌, Text, Bool-cases, inl, inr,
}
use agent_memory.Types.Clock.{observe}
use agent_memory.Types.Value.{Value, equal_value}
use agent_memory.Conflict.Codec.{Codec}
use agent_memory.Store.Kv
use agent_memory.Store.Kv.Laws.{IsValid, apply-IsValid}
use agent_memory.Store.Wal
use agent_memory.Store.Wal.{Wal, EntryCodec, Io}
use agent_memory.Node.Replica.{
  Replica, Applied, ok, wal_error, apply, log_and_store, store_merged, merge_incoming,
}

-- The map of a replica is valid after a call.
abbrev IsKept : Replica × Applied → Type 0
IsKept (r, a) = IsValid r.kv

module _ ⦃codec : Codec⦄ ⦃entries : EntryCodec⦄ (io : Io) (key : Text) (incoming : Value) where
  store_merged-IsValid :
      (merged : Value) (r : Replica) → IsValid r.kv → IsValid (store_merged key merged r).0.kv
  unfolding store_merged
  store_merged-IsValid merged r h = apply-IsValid r.kv key merged h

  if-IsValid :
      (b : Bool) (merged : Value) (r : Replica)
      → IsValid r.kv
      → IsValid (if b then store_merged key merged r else (r, wal_error merged)).0.kv
  if-IsValid true merged r h = store_merged-IsValid merged r h
  if-IsValid false merged r h = h

  by_wal :
      (o : Option Wal) (merged : Value) (r : Replica)
      → IsValid r.kv
      → IsKept (elim o [
        | none ↦ store_merged key merged r
        | some w ↦
            let logged : Replica = record r { wal = some (Wal.append io key incoming w).0 } in
            if (Wal.append io key incoming w).2
            then store_merged key merged logged
            else (logged, wal_error merged)
      ])
  by_wal none merged r h = store_merged-IsValid merged r h
  by_wal (some w) merged r h =
      if-IsValid (Wal.append io key incoming w).2 merged
        (record r { wal = some (Wal.append io key incoming w).0 }) h

  log_and_store-IsValid :
      (merged : Value) (r : Replica)
      → IsValid r.kv
      → IsValid (log_and_store io key incoming merged r).0.kv
  unfolding log_and_store
  log_and_store-IsValid merged r h = by_wal r.wal merged r h

  by_get :
      (o : Option Value) (merged : Value) (r : Replica)
      → IsValid r.kv
      → IsKept (elim o [
        | none ↦ log_and_store io key incoming merged r
        | some cur ↦
            if equal_value cur merged then (r, ok cur) else log_and_store io key incoming merged r
      ])
  by_get none merged r h = log_and_store-IsValid merged r h
  by_get (some cur) merged r h = elim (Bool-cases (equal_value cur merged)) [
    | inl e ↦ rw e h
    | inr e ↦ rw e (log_and_store-IsValid merged r h)
  ]

  pub kept-IsValid : (r : Replica) → IsValid r.kv → IsValid (apply io key incoming r).0.kv
  unfolding apply
  kept-IsValid r h =
      let r' : Replica = record r { clock = observe incoming.version.lamport r.clock } in
      by_get (Kv.get key r.kv) (merge_incoming key incoming r.kv) r' h
