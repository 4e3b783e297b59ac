-- ===== src/Node/Coordinator/Handoff.antt =====
-- No update of a write is lost: each peer has the payload or a hint for it.
use agent_memory.Prelude.{
  ◌≡◌, refl, true, false, ◌||◌, List, [], ◌∷◌, ◌++◌, if◌then◌else◌, Text, arith, eq_text,
  eq_text→eq, eq_text_refl, elem, inl, inr, ◌⊎◌, Bool-cases,
}
use agent_memory.Prelude.Int.{ℤ}
use agent_memory.Types.Version.{Version}
use agent_memory.Types.Value.{Value, Policy, WriteReq}
use agent_memory.Conflict.Codec.{Codec}
use agent_memory.Conflict.Resolve.Laws.{IsOf}
use agent_memory.Store.Wal.{EntryCodec}
use agent_memory.Repair.Hints
use agent_memory.Repair.Hints.{Hint}
use agent_memory.Repair.Hints.Laws.{peek-store}
use agent_memory.Node.Replica.Above.{HasAbove}
use agent_memory.Node.Coordinator.{
  Node, World, Fate, delivered, reply_lost, lost, update, apply_replicate, replicate_write,
  validate_quorum, start_write,
}
use agent_memory.Node.Coordinator.Write.{
  Collect, Event, finishes, deadline, goroutine, step, run, write,
}
use agent_memory.Node.Coordinator.Acked.{AllUnder, Grows-goroutine, goroutine-HasAbove}
use agent_memory.Node.Coordinator.Prepare.{policy_of, start_write_lem}
use agent_memory.Node.Coordinator.Backed.{finishing}
use agent_memory.Node.Coordinator.Visible.{started-AllUnder, payload}

-- A hint of the value is in the queue.
abbrev pub IsQueued : Text → Value → List Hint → Type 0
IsQueued key v [] = ⊥
IsQueued key v (h ∷ hs) = ((h.key ≡ key) × (h.value ≡ v)) ⊎ IsQueued key v hs

IsQueued-last :
    (key : Text) (v : Value) (hs : List Hint) (target : Text)
    → IsQueued key v (hs ++ record { target = target; key = key; value = v } ∷ [])
IsQueued-last key v [] target = inl (refl, refl)
IsQueued-last key v (h ∷ hs) target = inr (IsQueued-last key v hs target)

IsQueued-append :
    (key : Text) (v : Value) (hs more : List Hint) → IsQueued key v hs → IsQueued key v (hs ++ more)
IsQueued-append key v (h ∷ hs) more (inl q) = inl q
IsQueued-append key v (h ∷ hs) more (inr q) = inr (IsQueued-append key v hs more q)
IsQueued-append key v [] more q = absurd q

module _ ⦃codec : Codec⦄ ⦃entries : EntryCodec⦄ where
  module _ (self : Text) where
    -- The node `self` has a hint for the peer.
    abbrev pub HasHint : Text → Text → Value → World → Type 0
    HasHint peer key v w = IsQueued key v (Hints.peek peer (w self).hints)

    hints-update :
        (id : Text) (n : Node) (w : World) (j : Text)
        → (id ≡ j → n.hints ≡ (w j).hints)
        → ((update id n w) j).hints ≡ (w j).hints
    unfolding update
    hints-update id n w j h = ground (arith, h, eq_text→eq id j)

    pub hints-replicate_write :
        (fate : Fate) (id key : Text) (v : Value) (w : World) (j : Text)
        → ((replicate_write fate id key v w).0 j).hints ≡ (w j).hints
    unfolding replicate_write apply_replicate
    hints-replicate_write (delivered io) id key v w j = hints-update id _ w j (λ e. rw e refl)
    hints-replicate_write (reply_lost io) id key v w j = hints-update id _ w j (λ e. rw e refl)
    hints-replicate_write lost id key v w j = refl

    module _ (key : Text) (v : Value) where
      -- What the goroutine of a peer leaves in the queues.
      goroutine-peek :
          (peer : Text) (fate : Fate) (w : World) (t : Text)
          → let out = goroutine self key v peer fate w in
            Hints.peek t (out.0 self).hints ≡ (
              if eq_text peer self || out.1
              then Hints.peek t (w self).hints
              else if eq_text peer t
              then Hints.peek t (w self).hints
                ++ record { target = peer; key = key; value = v } ∷ []
              else Hints.peek t (w self).hints)
      unfolding goroutine apply_replicate update
      goroutine-peek peer fate w t =
          let same = hints-replicate_write fate peer key v w self in
          ground (arith, eq_text_refl self, same, peek-store (w self).hints peer key t v)

    -- The peer has the payload, or the node has a hint of it.
    abbrev pub IsCovered : Policy → Text → Value → Text → World → Type 0
    IsCovered p key v t w = HasAbove p key v (w t).replica ⊎ HasHint t key v w

    module _ (p : Policy) (key : Text) (v : Value) (here : IsOf p v) where
      keeps-HasHint :
          (peer : Text) (fate : Fate) (w : World) (t : Text)
          → HasHint t key v w
          → HasHint t key v (goroutine self key v peer fate w).0
      keeps-HasHint peer fate w t h =
          let out = goroutine self key v peer fate w in
          elim (Bool-cases (eq_text peer self || out.1)) [
            | inl e ↦ rw (goroutine-peek key v peer fate w t, e) h
            | inr e ↦ elim (Bool-cases (eq_text peer t)) [
              | inl q ↦ rw (goroutine-peek key v peer fate w t, e, q) (IsQueued-append key v _ _ h)
              | inr q ↦ rw (goroutine-peek key v peer fate w t, e, q) h
            ]
          ]

      keeps-IsCovered :
          (peer : Text) (fate : Fate) (w : World) (t : Text)
          → IsCovered p key v t w
          → IsCovered p key v t (goroutine self key v peer fate w).0
      keeps-IsCovered peer fate w t (inl a) =
          inl ((Grows-goroutine p key self key v (λ _. here) peer fate w).1 v t here a)
      keeps-IsCovered peer fate w t (inr h) = inr (keeps-HasHint peer fate w t h)

      goroutine-IsCovered :
          (peer : Text) (fate : Fate) (w : World)
          → AllUnder p key w
          → eq_text peer self ≡ false
          → IsCovered p key v peer (goroutine self key v peer fate w).0
      goroutine-IsCovered peer fate w u e = elim (Bool-cases (goroutine self key v peer fate w).1) [
        | inl good ↦ inl (goroutine-HasAbove p key self v here peer fate w u good)
        | inr bad ↦ inr (
            rw (goroutine-peek key v peer fate w peer, e, bad, eq_text_refl peer)
              (IsQueued-last key v _ peer))
      ]

      pub run-IsCovered :
          (quorum : ℤ) (ver : Version) (es : List Event) (w : World) (s : Collect) (t : Text)
          → AllUnder p key w
          → eq_text t self ≡ false
          → (elem t (finishing es) ≡ true) ⊎ IsCovered p key v t w
          → IsCovered p key v t (run self key v quorum ver es (w, s)).0
      unfolding run step
      run-IsCovered quorum ver [] w s t u e (inl q) = absurd (ground arith)
      run-IsCovered quorum ver [] w s t u e (inr c) = c
      run-IsCovered quorum ver (deadline ∷ es) w s t u e c = run-IsCovered quorum ver es w _ t u e c
      run-IsCovered quorum ver (finishes peer fate ∷ es) w s t u e c =
          run-IsCovered quorum ver es (goroutine self key v peer fate w).0 _ t
            ((Grows-goroutine p key self key v (λ _. here) peer fate w).0 u) e (next c)
        where
          next :
              (elem t (peer ∷ finishing es) ≡ true) ⊎ IsCovered p key v t w
              → (elem t (finishing es) ≡ true)
                ⊎ IsCovered p key v t (goroutine self key v peer fate w).0
          next (inr c') = inr (keeps-IsCovered peer fate w t c')
          next (inl q) = elim (Bool-cases (eq_text peer t)) [
            | inl at ↦
                let same : peer ≡ t = eq_text→eq peer t at in
                inr (rw (← same) (goroutine-IsCovered peer fate w u (rw same e)))
            | inr differs ↦ inl (ground arith)
          ]

  -- No update is lost: in a write whose quorum is in range, a peer other than the coordinator whose
  -- goroutine has ended holds a value that includes the payload, or the coordinator has a hint of
  -- the payload for it, whatever became of the request, the reply and the deadline, if the key has
  -- values of the write's policy alone.
  pub write_covers :
      (self : Text) (req : WriteReq) (events : List Event) (w : World) (t : Text)
      → AllUnder (policy_of req) req.key w
      → validate_quorum req.w (w self) ≡ true
      → elem t (finishing events) ≡ true
      → eq_text t self ≡ false
      → IsCovered self
          (policy_of req)
          req.key
          (payload self req events w)
          t
          (write self req events w).0
  unfolding write
  write_covers self req events w t u fine q e =
      let (kv, hints, members, ver, here) = start_write_lem req (w self) (u self) in
      let started =
        started-AllUnder (policy_of req) req.key self (start_write req (w self)).0 w kv u in
      rw fine (
        run-IsCovered self (policy_of req) req.key (payload self req events w) here req.w _ events _
          _ t started e (inl q))
