-- ===== src/Node/Coordinator/Sync/Crew.antt =====
-- A round of anti-entropy of one node, when no request and no write fails: the nodes in it, and what
-- they hold together.
use agent_memory.Prelude.{
  ℕ, ◌≡◌, refl, ap, ◌∙◌, false, List, [], ◌∷◌, Option, Text, arith, eq_text, elem, NoDup, All,
}
use agent_memory.Prelude.Semilattice.{Below, Below-op, Below-trans}
use agent_memory.Types.Value.{Value, Policy}
use agent_memory.Conflict.Codec.{Codec}
use agent_memory.Store.Wal.{EntryCodec}
use agent_memory.Cluster
use agent_memory.Cluster.{Peer, Membership}
use agent_memory.Node.Coordinator.{World}
use agent_memory.Node.Coordinator.Sync.{sync_peer, sync_peers}
use agent_memory.Node.Coordinator.Sync.Converge.{well, joined}
use agent_memory.Node.Coordinator.Sync.Pair.{
  IsOfOrNone, joined_closed, joined_semilattice, Grown, Grown-refl, Grown-trans, differ_back,
  synced, synced-Grown, synced-other, synced-All, held, IsReady, synced-IsReady,
}

module _ ⦃codec : Codec⦄ ⦃entries : EntryCodec⦄ where
  module _ (self : Text) where
    -- The world after the loop over the peers.
    abbrev pub rounded : List Peer → World × ℕ × ℕ → World
    rounded ps s = (sync_peers self (λ id. well) ps s).0

    pub not_self :
        (q : Peer) (ps : List Peer)
        → elem self (Cluster.ids_of (q ∷ ps)) ≡ false
        → eq_text self q.id ≡ false
    unfolding Cluster.ids_of
    not_self q ps h = differ_back q.id self (ground (arith, h))

    pub rest_others :
        (q : Peer) (ps : List Peer)
        → elem self (Cluster.ids_of (q ∷ ps)) ≡ false
        → elem self (Cluster.ids_of ps) ≡ false
    unfolding Cluster.ids_of
    rest_others q ps h = ground (arith, h)

    -- A node that is not asked stays as it is.
    pub rounded-other :
        (ps : List Peer) (w : World) (a b : ℕ) (t : Text)
        → eq_text self t ≡ false
        → elem t (Cluster.ids_of ps) ≡ false
        → rounded ps (w, a, b) t ≡ w t
    unfolding sync_peers Cluster.ids_of
    rounded-other [] w a b t h k = refl
    rounded-other (q ∷ ps) w a b t h k =
        let s = sync_peer self q.id well (w, a, b) in
        rounded-other ps s.0 s.1 s.2 t h (ground (arith, k))
        ∙ synced-other self q.id w a b t h (ground (arith, k))

    pub rounded-Grown :
        (ps : List Peer) (w : World) (a b : ℕ) (t : Text) → Grown (w t) (rounded ps (w, a, b) t)
    unfolding sync_peers
    rounded-Grown [] w a b t = Grown-refl (w t)
    rounded-Grown (q ∷ ps) w a b t =
        let s = sync_peer self q.id well (w, a, b) in
        Grown-trans (w t) (s.0 t) (rounded ps s t) (synced-Grown self q.id w a b t)
          (rounded-Grown ps s.0 s.1 s.2 t)

    pub unmoved :
        (w : World) (a b : ℕ) (q : Peer) (ps : List Peer)
        → elem self (Cluster.ids_of ps) ≡ false
        → elem q.id (Cluster.ids_of ps) ≡ false
        → All (λ r. synced self q.id w a b r.id ≡ w r.id) ps
    unfolding Cluster.ids_of
    unmoved w a b q [] h k = tt
    unmoved w a b q (r ∷ ps) h k = (
      synced-other self q.id w a b r.id (differ_back r.id self (ground (arith, h)))
          (differ_back r.id q.id (ground (arith, k))),
      unmoved w a b q ps (ground (arith, h)) (ground (arith, k)),
    )

  module _ (p : Policy) (j : Text) where
    -- The merge of what the node and the peers hold.
    abbrev pub gathered : Option Value → List Peer → World → Option Value
    gathered x [] w = x
    gathered x (q ∷ ps) w = gathered (joined x (held p j (w q.id))) ps w

    pub gathered_same :
        (x : Option Value) (ps : List Peer) (w w' : World)
        → All (λ q. w' q.id ≡ w q.id) ps
        → gathered x ps w' ≡ gathered x ps w
    gathered_same x [] w w' h = refl
    gathered_same x (q ∷ ps) w w' h =
        gathered_same (joined x (held p j (w' q.id))) ps w w' h.1
        ∙ ap (λ n. gathered (joined x (held p j n)) ps w) h.0

    pub gathered-Below :
        (x : Option Value) (ps : List Peer) (w : World)
        → IsOfOrNone p x
        → All (λ q. IsReady p j (w q.id)) ps
        → Below (joined_semilattice p) x (gathered x ps w) × IsOfOrNone p (gathered x ps w)
    gathered-Below x [] w h all = ((joined_semilattice p).idem x h, h)
    gathered-Below x (q ∷ ps) w h all =
        let y = joined x (held p j (w q.id)) in
        let z = gathered y ps w in
        let typed : IsOfOrNone p y = joined_closed p x (held p j (w q.id)) h all.0.typed in
        let (above, closed) = gathered-Below y ps w typed all.1 in
        (
          Below-trans (joined_semilattice p) x y z h typed closed
              (Below-op (joined_semilattice p) x (held p j (w q.id)) h all.0.typed) above,
          closed,
        )

    module _ (self : Text) where
      -- Peers that are all ready, each once, without the node itself.
      pub record IsCrew (w : World) (ps : List Peer) : Type 0 where
        pub distinct : NoDup (Cluster.ids_of ps)
        pub others : elem self (Cluster.ids_of ps) ≡ false
        pub own : IsReady p j (w self)
        pub ready : All (λ q. IsReady p j (w q.id)) ps

      pub later-IsCrew :
          (w : World) (a b : ℕ) (q : Peer) (ps : List Peer)
          → IsCrew w (q ∷ ps)
          → IsCrew (synced self q.id w a b) ps
      unfolding Cluster.ids_of
      later-IsCrew w a b q ps c = record {
        distinct = c.distinct.1;
        others = ground (arith, c.others);
        own = synced-IsReady p j self q.id w a b (not_self self q ps c.others) c.own c.ready.0;
        ready =
            synced-All self q.id w a b (IsReady p j) ps (ground (arith, c.others)) c.distinct.0
              c.ready.1;
      }
