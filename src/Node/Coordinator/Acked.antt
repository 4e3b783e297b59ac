-- ===== src/Node/Coordinator/Acked.antt =====
-- The peers that a write was acknowledged by hold its payload.
use agent_memory.Prelude.{
  ◌≡◌, refl, true, Text, arith, eq_text, eq_text→eq, eq_text_refl, inl, inr, Bool-cases,
}
use agent_memory.Types.Value.{Value, Policy}
use agent_memory.Conflict.Codec.{Codec}
use agent_memory.Conflict.Resolve.Laws.{IsOf}
use agent_memory.Store.Wal.{EntryCodec, Io}
use agent_memory.Repair.Hints
use agent_memory.Node.Replica.{Applied, ok, wal_error}
use agent_memory.Node.Replica.Above.{
  IsStored, IsUnder, HasAbove, FitsKey, apply-IsUnder, apply-HasAbove, apply-above,
}
use agent_memory.Node.Coordinator.{
  Node, World, Fate, delivered, reply_lost, lost, update, is_ok, apply_replicate, replicate_write,
}
use agent_memory.Node.Coordinator.Write.{io_of, goroutine}

module _ ⦃codec : Codec⦄ ⦃entries : EntryCodec⦄ (p : Policy) (k : Text) where
  -- On every node the key holds a value of its policy or none.
  abbrev pub AllUnder : World → Type 0
  AllUnder w = (id : Text) → IsUnder p k (w id).replica

  -- What a world holds of `k` stays included in what the other holds.
  abbrev pub Grows : World → World → Type 0
  Grows w w' =
      (AllUnder w → AllUnder w')
      × ((x : Value) (id : Text)
          → IsOf p x
          → HasAbove p k x (w id).replica
          → HasAbove p k x (w' id).replica)

  pub Grows-refl : (w : World) → Grows w w
  Grows-refl w = (λ h. h, λ x id hx h. h)

  pub Grows-trans : (w w' w'' : World) → Grows w w' → Grows w' w'' → Grows w w''
  Grows-trans w w' w'' g h = (λ u. h.0 (g.0 u), λ x id hx a. h.1 x id hx (g.1 x id hx a))

  -- A node that differs in what the replica does not hold.
  Grows-update :
      (w : World) (id : Text) (n : Node)
      → (IsUnder p k (w id).replica → IsUnder p k n.replica)
      → ((x : Value) → IsOf p x → HasAbove p k x (w id).replica → HasAbove p k x n.replica)
      → Grows w (update id n w)
  unfolding update
  Grows-update w id n u a = (
    λ h j. elim (Bool-cases (eq_text id j)) [ inl e ↦ rw e (u (h id)) | inr e ↦ rw e (h j) ],
    λ x j hx h. elim (Bool-cases (eq_text id j)) [
      | inl e ↦ let same : id ≡ j = eq_text→eq id j e in rw e (a x hx (rw same h))
      | inr e ↦ rw e h
    ],
  )

  module _ (io : Io) (key : Text) (v : Value) (fits : FitsKey p k key v) where
    Grows-apply_replicate :
        (w : World) (id : Text) → Grows w (update id (apply_replicate io key v (w id)).0 w)
    unfolding apply_replicate
    Grows-apply_replicate w id =
        Grows-update w id _ (apply-IsUnder p k io key v (w id).replica fits)
          (λ x. apply-HasAbove p k io key v (w id).replica fits x)

  pub Grows-replicate_write :
      (fate : Fate) (id key : Text) (v : Value) (w : World)
      → FitsKey p k key v
      → Grows w (replicate_write fate id key v w).0
  unfolding replicate_write
  Grows-replicate_write (delivered io) id key v w fits = Grows-apply_replicate io key v fits w id
  Grows-replicate_write (reply_lost io) id key v w fits = Grows-apply_replicate io key v fits w id
  Grows-replicate_write lost id key v w fits = Grows-refl w

  pub Grows-hinted :
      (w : World) (id : Text) (n : Node) → n.replica ≡ (w id).replica → Grows w (update id n w)
  Grows-hinted w id n e = Grows-update w id n (λ h. rw e h) (λ x hx h. rw e h)

  module _ (self key : Text) (v : Value) (fits : FitsKey p k key v) where
    pub Grows-goroutine :
        (peer : Text) (fate : Fate) (w : World) → Grows w (goroutine self key v peer fate w).0
    unfolding goroutine
    Grows-goroutine peer fate w = elim (Bool-cases (eq_text peer self)) [
      | inl e ↦ rw e (Grows-apply_replicate (io_of fate) key v fits w self)
      | inr e ↦
          let sent = Grows-replicate_write fate peer key v w fits in
          let w' : World = (replicate_write fate peer key v w).0 in
          let hinted : Node = record (w' self) { hints = Hints.store peer key v (w' self).hints } in
          elim (Bool-cases (replicate_write fate peer key v w).1) [
            | inl good ↦ rw (e, good) sent
            | inr bad ↦
                rw (e, bad)
                  (Grows-trans w w' (update self hinted w') sent (Grows-hinted w' self hinted refl))
          ]
    ]

  IsStored-of_ok : (a : Applied) → is_ok a ≡ true → IsStored a
  IsStored-of_ok (ok v) h = tt
  IsStored-of_ok (wal_error v) h = absurd (ground arith)

  module _ (self : Text) (v : Value) (here : IsOf p v) where
    above_replicated :
        (io : Io) (id : Text) (w : World)
        → AllUnder w
        → (apply_replicate io k v (w id)).1 ≡ true
        → HasAbove p k v ((update id (apply_replicate io k v (w id)).0 w) id).replica
    unfolding apply_replicate update
    above_replicated io id w u good =
        rw eq_text_refl (apply-above p io k v (w id).replica here (u id) (IsStored-of_ok _ good))

    pub above_written :
        (fate : Fate) (id : Text) (w : World)
        → AllUnder w
        → (replicate_write fate id k v w).1 ≡ true
        → HasAbove p k v ((replicate_write fate id k v w).0 id).replica
    unfolding replicate_write
    above_written (delivered io) id w u good = above_replicated io id w u good
    above_written (reply_lost io) id w u good = absurd (ground arith)
    above_written lost id w u good = absurd (ground arith)

    -- A goroutine that ends without an error leaves the payload with its peer.
    pub goroutine-HasAbove :
        (peer : Text) (fate : Fate) (w : World)
        → AllUnder w
        → (goroutine self k v peer fate w).1 ≡ true
        → HasAbove p k v ((goroutine self k v peer fate w).0 peer).replica
    unfolding goroutine
    goroutine-HasAbove peer fate w u good = elim (Bool-cases (eq_text peer self)) [
      | inl e ↦
          let same : peer ≡ self = eq_text→eq peer self e in
          rw e (rw same (above_replicated (io_of fate) self w u (ground (arith, e, good))))
      | inr e ↦ elim (Bool-cases (replicate_write fate peer k v w).1) [
        | inl sent ↦ rw (e, sent) (above_written fate peer w u sent)
        | inr bad ↦ absurd (ground (arith, e, bad, good))
      ]
    ]
