-- ===== src/Node/Coordinator/Backed.antt =====
-- An acknowledged write: the peers behind the acknowledgements.
use agent_memory.Prelude.{
  ◌+◌, ◌-◌, ◌≡◌, ◌≤◌, refl, Bool, true, false, List, [], ◌∷◌, none, some, if◌then◌else◌, Text,
  arith, eq_text, eq_text→eq, eq_text_refl, elem, NoDup, length, inl, inr, Bool-cases, subst,
}
use agent_memory.Prelude.Int.{ℤ, pos, ltb_int}
use agent_memory.Types.Version.{Version}
use agent_memory.Types.Value.{Value, Policy}
use agent_memory.Conflict.Codec.{Codec}
use agent_memory.Conflict.Resolve.Laws.{IsOf}
use agent_memory.Store.Wal.{EntryCodec}
use agent_memory.Node.Replica.Above.{HasAbove}
use agent_memory.Node.Coordinator.{World, Fate}
use agent_memory.Node.Coordinator.Write.{
  WriteResp, Collect, success, failure, finish_loop, receive, expire, Event, finishes, deadline,
  goroutine, step, run,
}
use agent_memory.Node.Coordinator.Quorum.{Sub}
use agent_memory.Node.Coordinator.Acked.{AllUnder, Grows-goroutine, goroutine-HasAbove}

-- The peers whose goroutines end in a schedule.
abbrev pub finishing : List Event → List Text
finishing [] = []
finishing (finishes peer fate ∷ es) = peer ∷ finishing es
finishing (deadline ∷ es) = finishing es

-- A reply of success was sent with enough acknowledgements.
abbrev pub IsHonest : ℤ → Collect → Type 0
IsHonest quorum s =
    (r : WriteResp) → s.reply ≡ some r → r.ok ≡ true → ltb_int (pos s.acks) quorum ≡ false

module _ (quorum : ℤ) (ver : Version) where
  finish_loop_lem :
      (s : Collect)
      → s.reply ≡ none
      → ((finish_loop quorum ver s).acks ≡ s.acks) × IsHonest quorum (finish_loop quorum ver s)
  unfolding finish_loop success failure
  finish_loop_lem s e = ground arith

  receive_lem :
      (good : Bool) (s : Collect)
      → IsHonest quorum s
      → ((receive quorum ver good s).acks ≤ (if good then s.acks + 1 else s.acks))
        × IsHonest quorum (receive quorum ver good s)
  unfolding receive success
  receive_lem good s h = ground (
    arith,
    finish_loop_lem (record s { remaining = s.remaining - 1; acks = s.acks + 1 }),
    finish_loop_lem (record s { remaining = s.remaining - 1 }),
  )

  expire_lem :
      (s : Collect)
      → IsHonest quorum s
      → ((expire ver s).acks ≡ s.acks) × IsHonest quorum (expire ver s)
  unfolding expire failure
  expire_lem s h = ground arith

module _ ⦃codec : Codec⦄ ⦃entries : EntryCodec⦄ (p : Policy) (k : Text) (v : Value)
    (members : List Text) where
  -- As many peers as there are acknowledgements, all different, hold a value that includes the payload;
  -- none of them is still to answer.
  pub record IsBacked (pending : List Text) (w : World) (s : Collect) : Type 0 where
    pub ids : List Text
    pub distinct : NoDup ids
    pub among : Sub ids members
    pub past : (t : Text) → elem t ids ≡ true → elem t pending ≡ false
    pub counted : s.acks ≤ length ids
    pub holds : (t : Text) → elem t ids ≡ true → HasAbove p k v (w t).replica

  module _ (self : Text) (quorum : ℤ) (ver : Version) (here : IsOf p v) where
    finishes-IsBacked :
        (peer : Text) (fate : Fate) (pending : List Text) (w w' : World) (good : Bool)
        (s s' : Collect)
        → goroutine self k v peer fate w ≡ (w', good)
        → s'.acks ≤ (if good then s.acks + 1 else s.acks)
        → elem peer members ≡ true
        → elem peer pending ≡ false
        → AllUnder p k w
        → IsBacked (peer ∷ pending) w s
        → IsBacked pending w' s'
    finishes-IsBacked peer fate pending w w' true s s' e acks there once u b = record {
      ids = peer ∷ b.ids;
      distinct = (ground (arith, b.past peer, eq_text_refl peer), b.distinct);
      among = λ t h. ground (arith, b.among t, eq_text→eq peer t);
      past = λ t h. ground (arith, b.past t, eq_text→eq peer t);
      counted = omega (arith, b.counted, acks);
      holds = λ t h. elim (Bool-cases (eq_text peer t)) [
        | inl same ↦
            let at : peer ≡ t = eq_text→eq peer t same in
            let held = goroutine-HasAbove p k self v here peer fate w u (ground (arith, e)) in
            rw (← at) (subst (λ (x : World × Bool). HasAbove p k v (x.0 peer).replica) e held)
        | inr differs ↦
            let grown = Grows-goroutine p k self k v (λ _. here) peer fate w in
            let held = grown.1 v t here (b.holds t (ground arith)) in
            subst (λ (x : World × Bool). HasAbove p k v (x.0 t).replica) e held
      ];
    }
    finishes-IsBacked peer fate pending w w' false s s' e acks there once u b = record {
      ids = b.ids;
      distinct = b.distinct;
      among = b.among;
      past = λ t h. ground (arith, b.past t);
      counted = omega (arith, b.counted, acks);
      holds = λ t h.
          let grown = Grows-goroutine p k self k v (λ _. here) peer fate w in
          let held = grown.1 v t here (b.holds t h) in
          subst (λ (x : World × Bool). HasAbove p k v (x.0 t).replica) e held;
    }

    -- Through a whole schedule in which no peer ends twice.
    pub run-IsBacked :
        (es : List Event) (w : World) (s : Collect)
        → NoDup (finishing es)
        → Sub (finishing es) members
        → AllUnder p k w
        → IsHonest quorum s
        → IsBacked (finishing es) w s
        → let (w', s') = run self k v quorum ver es (w, s) in
          AllUnder p k w' × IsHonest quorum s' × IsBacked [] w' s'
    unfolding run step
    run-IsBacked [] w s d m u h b = (u, h, b)
    run-IsBacked (finishes peer fate ∷ es) w s d m u h b =
        let sent = goroutine self k v peer fate w in
        let (acks, honest) = receive_lem quorum ver sent.1 s h in
        let s' = receive quorum ver sent.1 s in
        run-IsBacked es sent.0 s' d.1 (λ t i. m t (ground arith))
          ((Grows-goroutine p k self k v (λ _. here) peer fate w).0 u) honest
          (finishes-IsBacked peer fate (finishing es) w sent.0 sent.1 s s' refl acks
            (m peer (ground (arith, eq_text_refl peer))) d.0 u b)
    run-IsBacked (deadline ∷ es) w s d m u h b =
        let (acks, honest) = expire_lem quorum ver s h in
        run-IsBacked es w (expire ver s) d m u honest (record {
          ids = b.ids;
          distinct = b.distinct;
          among = b.among;
          past = b.past;
          counted = omega (arith, b.counted, acks);
          holds = b.holds;
        })
