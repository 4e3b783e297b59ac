-- ===== src/Node/Coordinator/Sync/Replay.antt =====
-- What the replay of the hints of a target leaves, at the target and in its queue.
use agent_memory.Prelude.{
  ℕ, ◌+◌, ◌≡◌, refl, true, List, [], ◌∷◌, Text, arith, length, ltb, All, inl, inr, Bool-cases,
}
use agent_memory.Types.Value.{Value, Policy}
use agent_memory.Conflict.Codec.{Codec}
use agent_memory.Conflict.Resolve.Laws.{IsOf}
use agent_memory.Store.Wal.{EntryCodec}
use agent_memory.Repair.Hints
use agent_memory.Repair.Hints.{Hint, Hints}
use agent_memory.Node.Replica.Above.{HasAbove, FitsKey}
use agent_memory.Node.Coordinator.{Node, World, Fate, update, replicate_write}
use agent_memory.Node.Coordinator.Acked.{
  AllUnder, Grows, Grows-refl, Grows-trans, Grows-replicate_write, Grows-hinted, above_written,
}
use agent_memory.Node.Coordinator.Handoff.{IsQueued}
use agent_memory.Node.Coordinator.Sync.{send_hints, store_hints, replay_target}

-- The queue of what was stored.
abbrev pub queue_of : Text → List (Text × Value) → List Hint
queue_of target [] = []
queue_of target ((k, v) ∷ more) =
    record { target = target; key = k; value = v } ∷ queue_of target more

module _ ⦃codec : Codec⦄ ⦃entries : EntryCodec⦄ where
  module _ (p : Policy) (k : Text) (target : Text) where
    -- Every hint of the key has a value of its policy.
    abbrev pub HintsFit : List Hint → Type 0
    HintsFit = All (λ h. FitsKey p k h.key h.value)

    Grows-send_hints :
        (fates : Text → Fate) (hs : List Hint) (w : World) (c : ℕ)
        → HintsFit hs
        → Grows p k w (send_hints target fates hs (w, c)).0
    unfolding send_hints
    Grows-send_hints fates [] w c f = Grows-refl p k w
    Grows-send_hints fates (h ∷ hs) w c f =
        let out = replicate_write (fates h.key) target h.key h.value w in
        let one = Grows-replicate_write p k (fates h.key) target h.key h.value w f.0 in
        elim (Bool-cases out.1) [
          | inl good ↦ rw good (
              Grows-trans p k w out.0 (send_hints target fates hs (out.0, c + 1)).0 one
                (Grows-send_hints fates hs out.0 (c + 1) f.1))
          | inr bad ↦ rw bad one
        ]

    first :
        (key : Text) (value v : Value) (fate : Fate) (w : World)
        → key ≡ k
        → value ≡ v
        → IsOf p v
        → AllUnder p k w
        → (replicate_write fate target key value w).1 ≡ true
        → HasAbove p k v ((replicate_write fate target key value w).0 target).replica
    first key value v fate w e e' here u good =
        let good' : (replicate_write fate target k v w).1 ≡ true = rw (← e, ← e') good in
        rw (e, e') (above_written p k target v here fate target w u good')

    sent-HasAbove :
        (fates : Text → Fate) (hs : List Hint) (v : Value) (w : World) (c : ℕ)
        → HintsFit hs
        → AllUnder p k w
        → (send_hints target fates hs (w, c)).2 ≡ true
        → IsQueued k v hs
        → IsOf p v
        → HasAbove p k v ((send_hints target fates hs (w, c)).0 target).replica
    unfolding send_hints
    sent-HasAbove fates [] v w c f u e q here = absurd q
    sent-HasAbove fates (h ∷ hs) v w c f u e q here =
        let out = replicate_write (fates h.key) target h.key h.value w in
        elim (Bool-cases out.1) [
          | inr bad ↦ absurd (ground (arith, bad, e))
          | inl good ↦ rw good (elim q [
            | inl (key, value) ↦
                (Grows-send_hints fates hs out.0 (c + 1) f.1).1 v target here
                  (first h.key h.value v (fates h.key) w key value here u good)
            | inr later ↦
                sent-HasAbove fates hs v out.0 (c + 1) f.1
                  ((Grows-replicate_write p k (fates h.key) target h.key h.value w f.0).0 u)
                  (ground (arith, good, e)) later here
          ])
        ]

    Grows-store_hints :
        (self : Text) (ms : List (Text × Value)) (w : World)
        → Grows p k w (store_hints self target ms w)
    unfolding store_hints
    Grows-store_hints self [] w = Grows-refl p k w
    Grows-store_hints self ((key, v) ∷ ms) w =
        let n : Node = record (w self) { hints = Hints.store target key v (w self).hints } in
        Grows-trans p k w (update self n w) (store_hints self target ms (update self n w))
          (Grows-hinted p k w self n refl) (Grows-store_hints self ms (update self n w))

    -- Hinted handoff: when the replay has sent every hint of a target, the target holds a value
    -- that includes the value of each hint of a key, whatever was stored meanwhile, if the key has
    -- values of one policy alone.
    pub replay_target-HasAbove :
        (self : Text) (fates : Text → Fate) (meanwhile : List (Text × Value)) (v : Value)
        (w : World) (c : ℕ)
        → HintsFit (Hints.peek target (w self).hints)
        → AllUnder p k w
        → (send_hints target fates (Hints.peek target (w self).hints) (w, c)).2 ≡ true
        → IsQueued k v (Hints.peek target (w self).hints)
        → IsOf p v
        → HasAbove p k v ((replay_target self fates meanwhile target (w, c)).0 target).replica
    unfolding replay_target
    replay_target-HasAbove self fates meanwhile v w c f u e q here =
        let hints = Hints.peek target (w self).hints in
        let sent = (send_hints target fates hints (w, c)).0 in
        let stored = store_hints self target meanwhile sent in
        let taken : Node = record (stored self) {
          hints = (Hints.take target (stored self).hints).0;
        } in
        let held = sent-HasAbove fates hints v w c f u e q here in
        let kept = (Grows-store_hints self meanwhile sent).1 v target here held in
        let after = (Grows-hinted p k stored self taken refl).1 v target here kept in
        elim (Bool-cases (ltb 0 (length hints))) [
          | inl some_hint ↦ rw (e, some_hint) after
          | inr none_left ↦ rw (e, none_left) kept
        ]
