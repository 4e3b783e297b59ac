-- ===== src/Node/Replica/Again.antt =====
-- At-least-once delivery: a value that is delivered again changes nothing.
use agent_memory.Prelude.{◌≤◌, ◌≡◌, refl, Option, none, some, Text, arith, eq_text_refl}
use agent_memory.Types.Clock.{observe}
use agent_memory.Types.Clock.Laws.{observe-le, observe_of_le}
use agent_memory.Types.Value.{Value, Policy, equal_value_iff}
use agent_memory.Conflict.Codec.{Codec}
use agent_memory.Conflict.Resolve.{resolve}
use agent_memory.Conflict.Resolve.Laws.{IsOf, resolve_semilattice}
use agent_memory.Prelude.Semilattice.{op-absorb}
use agent_memory.Store.Wal.{EntryCodec, Io, written}
use agent_memory.Node.Replica.{Replica, ok, get, merge_incoming, store_merged, log_and_store, apply}
use agent_memory.Node.Replica.Step.{get-apply_written}

module _ ⦃codec : Codec⦄ ⦃entries : EntryCodec⦄ where
  module _ (io : Io) (key : Text) (v : Value) where
    clock_by_wal :
        (merged : Value) (r : Replica) → (log_and_store io key v merged r).0.clock ≡ r.clock
    unfolding log_and_store store_merged
    clock_by_wal merged r = ground arith

    -- Success or not, `Apply` raises the clock to the lamport time of the value.
    pub clock-apply : (r : Replica) → (apply io key v r).0.clock ≡ observe v.version.lamport r.clock
    unfolding apply
    clock-apply r = ground (
      arith,
      clock_by_wal (merge_incoming key v r.kv)
          (record r { clock = observe v.version.lamport r.clock }),
    )

    merge_some :
        (r : Replica) (m : Value) → get key r ≡ some m → merge_incoming key v r.kv ≡ resolve m v
    unfolding merge_incoming get
    merge_some r m e = ground arith

    observed :
        (r : Replica)
        → v.version.lamport ≤ r.clock.t
        → record r { clock = observe v.version.lamport r.clock } ≡ r
    observed r h = cc (observe_of_le v.version.lamport r.clock h)

    apply_noop :
        (r : Replica) (m : Value)
        → get key r ≡ some m
        → resolve m v ≡ m
        → v.version.lamport ≤ r.clock.t
        → apply io key v r ≡ (r, ok m)
    unfolding apply get
    apply_noop r m e k h =
        ground
          (arith, observed r h, merge_some r m e, (equal_value_iff m (merge_incoming key v r.kv)).1)

  absorb :
      (p : Policy) (key : Text) (v : Value) (r : Replica) (o : Option Value)
      → get key r ≡ o
      → IsOf p v
      → ((cur : Value) → get key r ≡ some cur → IsOf p cur)
      → resolve (merge_incoming key v r.kv) v ≡ merge_incoming key v r.kv
  unfolding merge_incoming get
  absorb p key v r none e h hr = ground (arith, (resolve_semilattice p).idem v h)
  absorb p key v r (some cur) e h hr =
      ground (arith, op-absorb (resolve_semilattice p) cur v (hr cur e) h)

  -- At-least-once delivery: a value of the key's policy that was delivered and written leaves the
  -- replica, its map, its log and its clock as they are when it is delivered again, whatever a
  -- second write would have met, if the key held a value of the policy or none.
  pub apply-apply :
      (p : Policy) (io : Io) (key : Text) (v : Value) (r : Replica)
      → IsOf p v
      → ((cur : Value) → get key r ≡ some cur → IsOf p cur)
      → let r' = (apply written key v r).0 in
        apply io key v r' ≡ (r', ok (merge_incoming key v r.kv))
  apply-apply p io key v r h hr =
      apply_noop io key v (apply written key v r).0 (merge_incoming key v r.kv) stored absorbed seen
    where
      stored : get key (apply written key v r).0 ≡ some (merge_incoming key v r.kv)
      stored = ground (arith, get-apply_written key v r key, eq_text_refl key)

      absorbed : resolve (merge_incoming key v r.kv) v ≡ merge_incoming key v r.kv
      absorbed = absorb p key v r (get key r) refl h hr

      seen : v.version.lamport ≤ (apply written key v r).0.clock.t
      seen = rw clock-apply (observe-le v.version.lamport r.clock).0
