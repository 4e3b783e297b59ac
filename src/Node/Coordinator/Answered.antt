-- ===== src/Node/Coordinator/Answered.antt =====
-- When a write answers, and when it succeeds.
use agent_memory.Prelude.{
  ℕ, suc, ◌+◌, ◌-◌, ◌≡◌, ◌≢◌, ◌≤◌, ◌<◌, refl, Bool, true, false, List, [], ◌∷◌, none, some,
  if◌then◌else◌, Text, arith, NoDup, length, ltb, Bool-cases, Option-cases, inl, inr,
}
use agent_memory.Prelude.Int.{ℤ, pos, negsuc}
use agent_memory.Types.Version.{Version}
use agent_memory.Types.Value.{Value, WriteReq}
use agent_memory.Conflict.Codec.{Codec}
use agent_memory.Store.Wal.{EntryCodec}
use agent_memory.Cluster
use agent_memory.Node.Coordinator.{Node, World, update, validate_quorum, start_write}
use agent_memory.Node.Coordinator.Write.{
  WriteResp, Collect, success, finish_loop, receive, expire, Event, finishes, deadline, goroutine,
  step, run, write,
}
use agent_memory.Node.Coordinator.Quorum.{Sub, length-Sub}
use agent_memory.Node.Coordinator.Backed.{finishing}
use agent_memory.Node.Coordinator.Visible.{length-ids, payload}

-- One more goroutine brings the last acknowledgement that is missing, or not.
last_or_more :
    (P : Type 0) (good : Bool) (acks a : ℕ)
    → acks < a
    → (acks + 1 ≡ a → good ≡ true → P)
    → ((if good then acks + 1 else acks) < a → P)
    → P
last_or_more P true acks a h f g = elim (Bool-cases (ltb (acks + 1) a)) [
  | inl more ↦ g (ground arith)
  | inr last ↦ f (ground arith) refl
]
last_or_more P false acks a h f g = g h

positive : (q : ℤ) (n : Node) (a : ℕ) → validate_quorum q n ≡ true → q ≡ pos a → 0 < a
unfolding validate_quorum
positive (pos q) n a h e = ground arith
positive (negsuc q) n a h e = absurd (ground arith)

module _ ⦃codec : Codec⦄ ⦃entries : EntryCodec⦄ where
  module _ (self key : Text) (v : Value) where
    -- The goroutines that end without an error before the deadline.
    unfoldable pub successes : List Event → World → ℕ
    successes [] w = 0
    successes (deadline ∷ es) w = 0
    successes (finishes peer fate ∷ es) w =
        let (w', good) = goroutine self key v peer fate w in
        let rest = successes es w' in if good then suc rest else rest

    module _ (quorum : ℤ) (ver : Version) where
      -- A reply that was sent stays.
      run-replied :
          (es : List Event) (w : World) (s : Collect) (r : WriteResp)
          → s.reply ≡ some r
          → (run self key v quorum ver es (w, s)).1.reply ≡ some r
      unfolding run step receive expire
      run-replied [] w s r e = e
      run-replied (finishes peer fate ∷ es) w s r e =
          run-replied es (goroutine self key v peer fate w).0
            (receive quorum ver (goroutine self key v peer fate w).1 s) r (ground (arith, e))
      run-replied (deadline ∷ es) w s r e = run-replied es w (expire ver s) r (ground (arith, e))

      -- A loop that still waits after a goroutine ended waits for one fewer.
      receive_waits :
          (good : Bool) (s : Collect)
          → s.reply ≡ none
          → (receive quorum ver good s).reply ≡ none
          → (0 < s.remaining - 1) × ((receive quorum ver good s).remaining ≡ s.remaining - 1)
      unfolding receive finish_loop
      receive_waits good s e f = ground (arith, e, f)

      expire_replies : (s : Collect) → (expire ver s).reply ≢ none
      unfolding expire
      expire_replies s e = ground (arith, e)

      run-answers :
          (es : List Event) (w : World) (s : Collect)
          → s.reply ≡ none
          → s.remaining ≤ length (finishing es)
          → 0 < s.remaining
          → (run self key v quorum ver es (w, s)).1.reply ≢ none
      unfolding run step
      run-answers [] w s n h k e = omega arith
      run-answers (deadline ∷ es) w s n h k e = elim (Option-cases (expire ver s).reply) [
        | inl waits ↦ expire_replies s waits
        | inr (r, replied) ↦
            let stays = run-replied es w (expire ver s) r replied in
            absurd (ground (arith, stays, e))
      ]
      run-answers (finishes peer fate ∷ es) w s n h k e =
          let sent = goroutine self key v peer fate w in
          elim (Option-cases (receive quorum ver sent.1 s).reply) [
            | inl waits ↦
                let (more, fewer) = receive_waits sent.1 s n waits in
                run-answers es sent.0 (receive quorum ver sent.1 s) waits (omega (arith, fewer))
                  (omega (arith, more, fewer)) e
            | inr (r, replied) ↦
                let stays = run-replied es sent.0 (receive quorum ver sent.1 s) r replied in
                absurd (ground (arith, stays, e))
          ]

      -- The turns of a loop that has not enough acknowledgements.
      receive_last :
          (s : Collect) (a : ℕ)
          → s.reply ≡ none
          → quorum ≡ pos a
          → s.acks + 1 ≡ a
          → (receive quorum ver true s).reply ≡ some (success ver a)
      unfolding receive
      receive_last s a n q e = ground (arith, n, q, e)

      receive_more :
          (good : Bool) (s : Collect) (a : ℕ)
          → s.reply ≡ none
          → quorum ≡ pos a
          → (if good then s.acks + 1 else s.acks) < a
          → 0 < s.remaining - 1
          → ((receive quorum ver good s).reply ≡ none)
            × ((receive quorum ver good s).acks ≡ (if good then s.acks + 1 else s.acks))
            × ((receive quorum ver good s).remaining ≡ s.remaining - 1)
      unfolding receive finish_loop
      receive_more good s a n q e h = ground (arith, n, q, e, h)

      successes-finishing : (es : List Event) (w : World) → successes es w ≤ length (finishing es)
      unfolding successes
      successes-finishing [] w = omega arith
      successes-finishing (deadline ∷ es) w = omega arith
      successes-finishing (finishes peer fate ∷ es) w =
          ground (arith, successes-finishing es (goroutine self key v peer fate w).0)

      run-succeeds :
          (es : List Event) (w : World) (s : Collect) (a : ℕ)
          → s.reply ≡ none
          → quorum ≡ pos a
          → s.acks < a
          → a ≤ s.acks + successes es w
          → length (finishing es) ≤ s.remaining
          → (run self key v quorum ver es (w, s)).1.reply ≡ some (success ver a)
      unfolding run step successes
      run-succeeds [] w s a n q low h l = absurd (omega arith)
      run-succeeds (deadline ∷ es) w s a n q low h l = absurd (omega arith)
      run-succeeds (finishes peer fate ∷ es) w s a n q low h l =
          let sent = goroutine self key v peer fate w in
          let few = successes-finishing es sent.0 in
          last_or_more _ sent.1 s.acks a low
            (λ done good.
              run-replied es sent.0 (receive quorum ver sent.1 s) _
                (rw good (receive_last s a n q done)))
            (λ more.
              let left : 0 < s.remaining - 1 = ground (arith, few, more, h, l) in
              let (n', acks, remaining) = receive_more sent.1 s a n q more left in
              run-succeeds es sent.0 (receive quorum ver sent.1 s) a n' q
                (omega (arith, acks, more)) (ground (arith, acks, h)) (omega (arith, remaining, l)))

  module _ (self : Text) (req : WriteReq) (events : List Event) (w : World)
      (fine : validate_quorum req.w (w self) ≡ true) where
    -- A write whose quorum is in range has answered once as many goroutines have ended as the
    -- cluster has peers, of which there is at least one.
    pub write_answers :
        Cluster.n (w self).members ≤ length (finishing events)
        → 0 < Cluster.n (w self).members
        → (write self req events w).1 ≢ none
    unfolding write
    write_answers all some_peer =
        rw fine (
          run-answers self req.key (payload self req events w) req.w _ events _ _ refl all
            some_peer)

    pub write_succeeds :
        (a : ℕ)
        → req.w ≡ pos a
        → NoDup (finishing events)
        → Sub (finishing events) (Cluster.ids (w self).members)
        → a
          ≤ successes self req.key
              (payload self req events w)
              events
              (update self (start_write req (w self)).0 w)
        → (write self req events w).1 ≡ some (success (start_write req (w self)).1 a)
    unfolding write
    write_succeeds a q d m h = rw fine (
        run-succeeds self req.key (payload self req events w) req.w _ events
          (update self (start_write req (w self)).0 w) _ a refl q (positive req.w (w self) a fine q)
          (omega (arith, h))
          (omega (
            arith,
            length-Sub (finishing events) (Cluster.ids (w self).members) d m,
            length-ids (w self).members,
          )))
