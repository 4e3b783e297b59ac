-- ===== src/Node/Replica/Step.antt =====
-- One call of `Apply`, on every branch, and the values that a run of calls leaves.
use agent_memory.Prelude.{
  ◌≡◌, refl, Bool, true, false, [], ◌∷◌, Option, none, some, if◌then◌else◌, Text, arith, eq_text,
  eq_text→eq, inl, inr, Bool-cases, ◌++◌,
}
use agent_memory.Types.Clock.{observe}
use agent_memory.Types.Value.{Value, HistoryEntry, equal_value, equal_value_iff}
use agent_memory.Conflict.Codec.{Codec}
use agent_memory.Store.Kv
use agent_memory.Store.Kv.{Kv, new_kv}
use agent_memory.Store.Kv.Laws.{get-apply, stored-apply}
use agent_memory.Store.Wal.Laws.{next_entry, log-append, done-append}
use agent_memory.Store.Wal
use agent_memory.Store.Wal.{Wal, EntryCodec, Io, written, short, unsynced, empty_wal}
use agent_memory.Node.Replica.{
  Replica, Applied, ok, wal_error, get, merge_incoming, store_merged, log_and_store, apply,
}

module _ ⦃codec : Codec⦄ ⦃entries : EntryCodec⦄ where
  -- The incoming entry reaches the log.
  abbrev pub Logs : Text → Value → Replica → Replica → Type 0
  Logs key incoming r r' =
      (w w' : Wal) × (r.wal ≡ some w)
      × (r'.wal ≡ some w')
      × ((e : HistoryEntry) × (e.key ≡ key) × (e.value ≡ incoming) × (w'.log ≡ w.log ++ e ∷ []))

  -- What a call of `Apply` leaves: on success the merged value under its key, and every other key as it
  -- was; on an error of the log no key changed, and the entry in the log all the same.
  abbrev pub Outcome : Text → Value → Replica → Replica × Applied → Type 0
  Outcome key incoming r (r', ok v) =
      (v ≡ merge_incoming key incoming r.kv)
      × ((j : Text) → get j r' ≡ (if eq_text key j then some v else get j r))
  Outcome key incoming r (r', wal_error v) = (r'.kv ≡ r.kv) × Logs key incoming r r'

  stored-Outcome :
      (key : Text) (incoming : Value) (r : Replica) (w : Option Wal)
      → Outcome key incoming r
          (store_merged key (merge_incoming key incoming r.kv) (record r { wal = w }))
  unfolding store_merged get
  stored-Outcome key incoming r w = (
    stored-apply r.kv key (merge_incoming key incoming r.kv),
    λ j. rw stored-apply (get-apply r.kv key j (merge_incoming key incoming r.kv)),
  )

  logged-Outcome :
      (io : Io) (key : Text) (incoming : Value) (r : Replica) (w : Wal) (done : Bool)
      → r.wal ≡ some w
      → let logged : Replica = record r { wal = some (Wal.append io key incoming w).0 } in
        let merged = merge_incoming key incoming r.kv in
        Outcome key incoming r
          (if done then store_merged key merged logged else (logged, wal_error merged))
  logged-Outcome io key incoming r w true e = stored-Outcome key incoming r _
  logged-Outcome io key incoming r w false e =
      let (entry, grown) = log-append io key incoming w in
      (refl, (w, _, e, refl, (next_entry key incoming w, refl, refl, grown)))

  module _ (io : Io) (key : Text) (incoming : Value) where
    by_wal :
        (r : Replica) (o : Option Wal)
        → r.wal ≡ o
        → let merged = merge_incoming key incoming r.kv in
          Outcome key incoming r (elim o [
            | none ↦ store_merged key merged r
            | some w ↦
                let logged : Replica = record r { wal = some (Wal.append io key incoming w).0 } in
                if (Wal.append io key incoming w).2
                then store_merged key merged logged
                else (logged, wal_error merged)
          ])
    by_wal r none e = stored-Outcome key incoming r r.wal
    by_wal r (some w) e = logged-Outcome io key incoming r w (Wal.append io key incoming w).2 e

    log-Outcome :
        (r : Replica)
        → Outcome key incoming r
            (log_and_store io key incoming (merge_incoming key incoming r.kv) r)
    unfolding log_and_store
    log-Outcome r = by_wal r r.wal refl

    current-Outcome :
        (r : Replica) (cur : Value)
        → get key r ≡ some cur
        → cur ≡ merge_incoming key incoming r.kv
        → Outcome key incoming r (r, ok cur)
    current-Outcome r cur e m = (m, λ j. ground (arith, eq_text→eq key j))

    by_get :
        (r : Replica) (o : Option Value)
        → get key r ≡ o
        → Outcome key incoming r (elim o [
          | none ↦ log_and_store io key incoming (merge_incoming key incoming r.kv) r
          | some cur ↦
              if equal_value cur (merge_incoming key incoming r.kv)
              then (r, ok cur)
              else log_and_store io key incoming (merge_incoming key incoming r.kv) r
        ])
    by_get r none e = log-Outcome r
    by_get r (some cur) e = elim (Bool-cases (equal_value cur (merge_incoming key incoming r.kv))) [
      | inl same ↦ rw same (current-Outcome r cur e ((equal_value_iff _ _).0 same))
      | inr differs ↦ rw differs (log-Outcome r)
    ]

    -- Every call of Apply that returns no error leaves the merged value under its key and every
    -- other key as it was; one that returns the error of the log leaves the map as it was, and the
    -- entry at the end of the log in memory.
    pub apply-Outcome : (r : Replica) → Outcome key incoming r (apply io key incoming r)
    unfolding apply get
    apply-Outcome r =
        by_get (record r { clock = observe incoming.version.lamport r.clock }) (Kv.get key r.kv)
          refl

  -- The call of `Apply` did not end in an error of the log.
  abbrev IsOk : Replica × Applied → Type 0
  IsOk (r, ok v) = Unit
  IsOk (r, wal_error v) = ⊥

  module _ (key : Text) (incoming merged : Value) where
    logged-IsOk :
        (r : Replica) (o : Option Wal)
        → IsOk (elim o [
          | none ↦ store_merged key merged r
          | some w ↦
              let logged : Replica = record r {
                wal = some (Wal.append written key incoming w).0;
              } in
              if (Wal.append written key incoming w).2
              then store_merged key merged logged
              else (logged, wal_error merged)
        ])
    unfolding store_merged
    logged-IsOk r none = tt
    logged-IsOk r (some w) = rw (done-append key incoming w) tt

    by_get-IsOk :
        (r : Replica) (o : Option Value)
        → IsOk (elim o [
          | none ↦ log_and_store written key incoming merged r
          | some cur ↦
              if equal_value cur merged
              then (r, ok cur)
              else log_and_store written key incoming merged r
        ])
    unfolding log_and_store
    by_get-IsOk r none = logged-IsOk r r.wal
    by_get-IsOk r (some cur) = elim (Bool-cases (equal_value cur merged)) [
      | inl e ↦ rw e tt
      | inr e ↦ rw e (logged-IsOk r r.wal)
    ]

  -- With no log, or where the file system carries the write out, `Apply` has no error.
  pub apply-IsOk :
      (key : Text) (incoming : Value) (r : Replica) → IsOk (apply written key incoming r)
  unfolding apply
  apply-IsOk key incoming r =
      by_get-IsOk key incoming (merge_incoming key incoming r.kv)
        (record r { clock = observe incoming.version.lamport r.clock }) (Kv.get key r.kv)

  get_of_Outcome :
      (key : Text) (incoming : Value) (r : Replica) (out : Replica × Applied)
      → Outcome key incoming r out
      → IsOk out
      → (j : Text)
      → get j out.0 ≡ (if eq_text key j then some (merge_incoming key incoming r.kv) else get j r)
  get_of_Outcome key incoming r (r', ok v) o h j = rw (← o.0) (o.1 j)
  get_of_Outcome key incoming r (r', wal_error v) o h j = absurd h

  -- So such a call leaves the merged value under its key, and every other key as it was.
  pub get-apply_written :
      (key : Text) (incoming : Value) (r : Replica) (j : Text)
      → get j (apply written key incoming r).0
        ≡ (if eq_text key j then some (merge_incoming key incoming r.kv) else get j r)
  get-apply_written key incoming r =
      get_of_Outcome key incoming r (apply written key incoming r)
        (apply-Outcome written key incoming r) (apply-IsOk key incoming r)
