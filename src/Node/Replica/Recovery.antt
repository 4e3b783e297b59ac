-- ===== src/Node/Replica/Recovery.antt =====
-- A restart from the log: `OpenWAL` on the file and `NewReplica` on the log give the map back.
use mathlib.Core.List.{foldl, foldl-append}
use agent_memory.Prelude.{
  ℕ, ◌+◌, ◌<◌, ◌≤◌, ◌≡◌, refl, true, List, [], ◌∷◌, ◌++◌, Option, none, some, if◌then◌else◌, Text,
  arith, length, Bool-cases, inl, inr,
}
use agent_memory.Types.Clock.{zero_clock, u64_mod, observe}
use agent_memory.Types.Clock.Laws.{observe-le, observe-max}
use agent_memory.Types.Value.{Value, HistoryEntry, equal_value}
use agent_memory.Conflict.Codec.{Codec}
use agent_memory.Store.Kv
use agent_memory.Store.Kv.{Kv, new_kv}
use agent_memory.Store.Wal
use agent_memory.Store.Wal.{Wal, EntryCodec, Io, written, empty_wal, max_line, open_wal, replay}
use agent_memory.Store.Wal.Laws.{
  IsDurable, next_entry, log-append, done-append, append-IsDurable, open_wal-IsDurable,
}
use agent_memory.Node.Replica.{
  Replica, Applied, ok, wal_error, merge_incoming, store_merged, log_and_store, apply, replay_entry,
  new_replica,
}
use agent_memory.Node.Replica.Converge.{deliver}

module _ ⦃codec : Codec⦄ ⦃entries : EntryCodec⦄ where
  -- The replica that a restart builds from a log.
  abbrev pub restarted : Replica → Wal → Replica
  restarted r w = new_replica r.id (some w)

  -- The log is on disk with at most `n` entries, and its replay rebuilds the map, under a clock that
  -- is not ahead.
  pub record IsRecoverable (n : ℕ) (r : Replica) : Type 0 where
    pub w : Wal
    pub logged : r.wal ≡ some w
    pub durable : IsDurable w
    pub used : w.seq ≤ n
    pub rebuilt : (restarted r w).kv ≡ r.kv
    pub behind : (restarted r w).clock.t ≤ r.clock.t

  abbrev start : Text → Wal → Replica
  start id w = record { id = id; kv = new_kv; wal = some w; clock = zero_clock; reads = true }

  -- The log that a replica carries has no part in the replay.
  replay_same :
      (l : List HistoryEntry) (r r' : Replica)
      → r.kv ≡ r'.kv
      → r.clock ≡ r'.clock
      → ((foldl replay_entry r l).kv ≡ (foldl replay_entry r' l).kv)
        × ((foldl replay_entry r l).clock ≡ (foldl replay_entry r' l).clock)
  unfolding replay_entry
  replay_same [] r r' e f = (e, f)
  replay_same (x ∷ l) r r' e f = replay_same l (replay_entry r x) (replay_entry r' x) (cc e) (cc f)

  one_more :
      (a b : Replica) (e : HistoryEntry)
      → a.kv ≡ b.kv
      → a.clock ≡ b.clock
      → ((replay_entry a e).kv ≡ (Kv.apply e.key (merge_incoming e.key e.value b.kv) b.kv).0)
        × ((replay_entry a e).clock ≡ observe e.value.version.lamport b.clock)
  unfolding replay_entry
  one_more a b e p q = (cc (p), cc (q))

  replay_snoc :
      (a b : Replica) (l' l : List HistoryEntry) (e : HistoryEntry)
      → l' ≡ l ++ e ∷ []
      → a.kv ≡ b.kv
      → a.clock ≡ b.clock
      → let q = foldl replay_entry b l in
        ((foldl replay_entry a l').kv ≡ (Kv.apply e.key (merge_incoming e.key e.value q.kv) q.kv).0)
        × ((foldl replay_entry a l').clock ≡ observe e.value.version.lamport q.clock)
  replay_snoc a b l' l e h p q =
      let (p', q') = replay_same l a b p q in
      rw (h, foldl-append) (one_more (foldl replay_entry a l) (foldl replay_entry b l) e p' q')

  -- One more entry in the log is one more merge at a restart.
  restarted-append :
      (r : Replica) (w w' : Wal) (e : HistoryEntry)
      → w'.log ≡ w.log ++ e ∷ []
      → ((restarted r w').kv
          ≡ (Kv.apply e.key (merge_incoming e.key e.value (restarted r w).kv) (restarted r w).kv).0)
        × ((restarted r w').clock ≡ observe e.value.version.lamport (restarted r w).clock)
  unfolding new_replica replay
  restarted-append r w w' e h =
      replay_snoc (start r.id w') (start r.id w) w'.log w.log e h refl refl

  -- The replica after a call of `Apply`, whatever it returns.
  abbrev Leaves : (Replica → Type 0) → Replica × Applied → Type 0
  Leaves P (r, a) = P r

  -- The replica after a call of `Apply` that the file system carries out, on its two branches.
  module _ (key : Text) (v : Value) (r : Replica) where
    abbrev seen_by : Replica
    seen_by = record r { clock = observe v.version.lamport r.clock }

    abbrev merged_by : Value
    merged_by = merge_incoming key v r.kv

    abbrev stored_by : Wal → Replica
    stored_by w = record seen_by {
      kv = (Kv.apply key merged_by r.kv).0;
      wal = some (Wal.append written key v w).0;
    }

    module _ (w : Wal) (P : Replica → Type 0) where
      by_log :
          (o : Option Wal)
          → o ≡ some w
          → P (stored_by w)
          → Leaves P (elim o [
            | none ↦ store_merged key merged_by seen_by
            | some x ↦
                let logged : Replica = record seen_by {
                  wal = some (Wal.append written key v x).0;
                } in
                if (Wal.append written key v x).2
                then store_merged key merged_by logged
                else (logged, wal_error merged_by)
          ])
      unfolding store_merged
      by_log none e h = absurd (ground arith)
      by_log (some x) e h = let same : x ≡ w = ground arith in rw (same, done-append key v w) h

      by_get :
          (o : Option Value)
          → r.wal ≡ some w
          → P seen_by
          → P (stored_by w)
          → Leaves P (elim o [
            | none ↦ log_and_store written key v merged_by seen_by
            | some cur ↦
                if equal_value cur merged_by
                then (seen_by, ok cur)
                else log_and_store written key v merged_by seen_by
          ])
      unfolding log_and_store
      by_get none e h k = by_log r.wal e k
      by_get (some cur) e h k = elim (Bool-cases (equal_value cur merged_by)) [
        | inl same ↦ rw same h
        | inr differs ↦ rw differs (by_log r.wal e k)
      ]

      -- It has seen the time of the value, and either nothing else has changed, or the value is in the
      -- log and the merged one in the map.
      pub apply_cases : r.wal ≡ some w → P seen_by → P (stored_by w) → P (apply written key v r).0
      unfolding apply
      apply_cases e h k = by_get (Kv.get key r.kv) e h k

  -- The entry fits the scanner's buffer, whatever its number.
  abbrev pub FitsLine : Text → Value → Type 0
  FitsLine key v =
      (n : ℕ)
      → n < u64_mod
      → length (entries.marshal (record { seq = n; key = key; value = v })) < max_line

  seq-append :
      (key : Text) (v : Value) (w : Wal)
      → w.seq + 1 < u64_mod
      → (Wal.append written key v w).0.seq ≡ w.seq + 1
  unfolding Wal.append
  seq-append key v w h = ground arith

  -- A call of `Apply` that the file system carries out keeps the replica recoverable.
  pub apply-IsRecoverable :
      (n : ℕ) (key : Text) (v : Value) (r : Replica)
      → IsRecoverable n r
      → n + 1 < u64_mod
      → FitsLine key v
      → IsRecoverable (n + 1) (apply written key v r).0
  apply-IsRecoverable n key v r h room fits =
      apply_cases key v r h.w (IsRecoverable (n + 1)) h.logged
        (record {
          w = h.w;
          logged = h.logged;
          durable = h.durable;
          used = omega (arith, h.used);
          rebuilt = h.rebuilt;
          behind = omega (arith, h.behind, (observe-le v.version.lamport r.clock).1);
        })
        (record {
          w = (Wal.append written key v h.w).0;
          logged = refl;
          durable =
              append-IsDurable h.w key v h.durable (omega (arith, h.used)) (fits _ (omega arith));
          used = omega (arith, h.used, seq-append key v h.w);
          rebuilt = cc (grown.0, h.rebuilt);
          behind = ground (
            arith,
            grown.1,
            h.behind,
            observe-max v.version.lamport r.clock,
            observe-max v.version.lamport (restarted r h.w).clock,
          );
        })
    where
      grown :
          ((restarted r (Wal.append written key v h.w).0).kv
            ≡ (Kv.apply key (merge_incoming key v (restarted r h.w).kv) (restarted r h.w).kv).0)
          × ((restarted r (Wal.append written key v h.w).0).clock
              ≡ observe v.version.lamport (restarted r h.w).clock)
      grown =
          restarted-append r h.w (Wal.append written key v h.w).0 (next_entry key v h.w)
            (log-append written key v h.w).1

  abbrev pub AllFit : List (Text × Value) → Type 0
  AllFit [] = Unit
  AllFit ((key, v) ∷ ops) = FitsLine key v × AllFit ops

  deliver-IsRecoverable :
      (ops : List (Text × Value)) (n m : ℕ) (r : Replica)
      → n + length ops ≡ m
      → m < u64_mod
      → IsRecoverable n r
      → AllFit ops
      → IsRecoverable m (deliver ops r)
  unfolding deliver
  deliver-IsRecoverable [] n m r e room h fits = let same : n ≡ m = omega arith in rw (← same) h
  deliver-IsRecoverable ((key, v) ∷ ops) n m r e room h fits =
      deliver-IsRecoverable ops (n + 1) m (apply written key v r).0 (omega arith) room
        (apply-IsRecoverable n key v r h (omega arith) fits.0) fits.1

  -- A node that starts on an empty file.
  abbrev pub first_start : Text → Replica
  first_start id = new_replica id (some (record empty_wal { file = some [] }))

  first_start-IsRecoverable : (id : Text) → IsRecoverable 0 (first_start id)
  unfolding new_replica replay
  first_start-IsRecoverable id = record {
    w = record empty_wal { file = some [] };
    logged = refl;
    durable = record { on_disk = refl; counted = refl; fits = tt };
    used = omega arith;
    rebuilt = refl;
    behind = omega arith;
  }

  -- Durability: after any deliveries, each written, to a node that started on an empty file, the
  -- file opens as the log that the node had, and the replica that is built from it has the map that
  -- the node had, under a clock that is not ahead. The deliveries are fewer than 2^64, and the line
  -- of each fits the buffer of the scanner.
  pub restart_rebuilds :
      (id : Text) (ops : List (Text × Value))
      → length ops < u64_mod
      → AllFit ops
      → let r = deliver ops (first_start id) in
        (w : Wal) × (r.wal ≡ some w)
        × (open_wal w.file ≡ some w)
        × ((new_replica r.id (some w)).kv ≡ r.kv)
        × ((new_replica r.id (some w)).clock.t ≤ r.clock.t)
  restart_rebuilds id ops room fits =
      let h =
        deliver-IsRecoverable ops 0 (length ops) (first_start id) (omega arith) room
          (first_start-IsRecoverable id) fits in
      (h.w, h.logged, open_wal-IsDurable h.w h.durable, h.rebuilt, h.behind)
