-- ===== src/Node/Coordinator/Sync/Round.antt =====
-- Two rounds of anti-entropy of one node, when no request and no write fails.
use agent_memory.Prelude.{
  ℕ, ◌≡◌, refl, sym, ap, subst, ◌∙◌, false, List, [], ◌∷◌, Option, Text, elem, NoDup, All, left-All,
  right-All,
}
use agent_memory.Prelude.Semilattice.{Below}
use agent_memory.Types.Value.{Value, Policy}
use agent_memory.Conflict.Codec.{Codec}
use agent_memory.Store.Wal.{EntryCodec}
use agent_memory.Cluster
use agent_memory.Cluster.{Peer, Membership}
use agent_memory.Cluster.Others.{others_without, others-NoDup, others-All}
use agent_memory.Node.Coordinator.{World}
use agent_memory.Node.Coordinator.Sync.{sync_peer, sync_peers, anti_entropy_round}
use agent_memory.Node.Coordinator.Sync.Converge.{well, joined}
use agent_memory.Node.Coordinator.Sync.Pair.{
  IsOfOrNone, joined_closed, joined_comm, joined_semilattice, synced, synced-Grown, synced-All,
  held, IsReady, synced-held,
}
use agent_memory.Node.Coordinator.Sync.Crew.{
  rounded, not_self, rest_others, rounded-other, rounded-Grown, unmoved, gathered, gathered_same,
  gathered-Below, IsCrew, later-IsCrew,
}

module _ ⦃codec : Codec⦄ ⦃entries : EntryCodec⦄ (p : Policy) (j : Text) (self : Text) where
  -- After one round the node holds the merge of all, and no peer holds anything beyond it.
  record IsGathered (x : Option Value) (ps : List Peer) (w : World) : Type 0 where
    value : held p j (w self) ≡ x
    own : IsReady p j (w self)
    below : All (λ q. IsReady p j (w q.id) × Below (joined_semilattice p) (held p j (w q.id)) x) ps

  gather :
      (ps : List Peer) (w : World) (a b : ℕ)
      → IsCrew p j self w ps
      → IsGathered (gathered p j (held p j (w self)) ps w) ps (rounded self ps (w, a, b))
  unfolding sync_peers Cluster.ids_of
  gather [] w a b c = record { value = refl; own = c.own; below = tt }
  gather (q ∷ ps) w a b c =
      let s = sync_peer self q.id well (w, a, b) in
      let w1 = synced self q.id w a b in
      let apart = not_self self q ps c.others in
      let x = joined (held p j (w self)) (held p j (w q.id)) in
      let m = gathered p j x ps w in
      let (mine, theirs) = synced-held p j self q.id w a b apart c.own c.ready.0 in
      let typed : IsOfOrNone p x =
        joined_closed p (held p j (w self)) (held p j (w q.id)) c.own.typed c.ready.0.typed in
      let same : gathered p j (held p j (w1 self)) ps w1 ≡ m =
        ap (λ y. gathered p j y ps w1) mine
        ∙ gathered_same p j x ps w w1
            (unmoved self w a b q ps (rest_others self q ps c.others) c.distinct.0) in
      let rest =
        subst (λ y. IsGathered y ps (rounded self ps s)) same
          (gather ps w1 s.1 s.2 (later-IsCrew p j self w a b q ps c)) in
      let left = rounded-other self ps w1 s.1 s.2 q.id apart c.distinct.0 in
      let ready : IsReady p j (w1 q.id) = record {
        valid = (synced-Grown self q.id w a b q.id).valid c.ready.0.valid;
        typed = subst (IsOfOrNone p) (sym theirs) typed;
      } in
      let under : Below (joined_semilattice p) (held p j (w1 q.id)) m =
        subst (λ y. Below (joined_semilattice p) y m) (sym theirs)
          (gathered-Below p j x ps w typed c.ready.1).0 in
      record {
        value = rest.value;
        own = rest.own;
        below = (
          subst (λ n. IsReady p j n × Below (joined_semilattice p) (held p j n) m) (sym left)
              (ready, under),
          rest.below,
        );
      }

  -- A second round gives every peer what the node holds.
  settle :
      (ps : List Peer) (w : World) (a b : ℕ)
      → IsCrew p j self w ps
      → All (λ q. Below (joined_semilattice p) (held p j (w q.id)) (held p j (w self))) ps
      → (held p j (rounded self ps (w, a, b) self) ≡ held p j (w self))
        × All (λ q. held p j (rounded self ps (w, a, b) q.id) ≡ held p j (w self)) ps
  unfolding sync_peers Cluster.ids_of
  settle [] w a b c h = (refl, tt)
  settle (q ∷ ps) w a b c h =
      let s = sync_peer self q.id well (w, a, b) in
      let w1 = synced self q.id w a b in
      let apart = not_self self q ps c.others in
      let x = held p j (w self) in
      let (mine, theirs) = synced-held p j self q.id w a b apart c.own c.ready.0 in
      let absorbed : joined x (held p j (w q.id)) ≡ x =
        joined_comm p x (held p j (w q.id)) c.own.typed c.ready.0.typed ∙ h.0 in
      let still =
        synced-All self q.id w a b (λ n. Below (joined_semilattice p) (held p j n) x) ps
          (rest_others self q ps c.others) c.distinct.0 h.1 in
      let under =
        subst (λ y. All (λ r. Below (joined_semilattice p) (held p j (w1 r.id)) y) ps)
          (sym (mine ∙ absorbed)) still in
      let (value, all) = settle ps w1 s.1 s.2 (later-IsCrew p j self w a b q ps c) under in
      let left = rounded-other self ps w1 s.1 s.2 q.id apart c.distinct.0 in
      (
        value ∙ mine ∙ absorbed,
        (
          ap (held p j) left ∙ theirs ∙ absorbed,
          subst (λ y. All (λ r. held p j (rounded self ps s r.id) ≡ y) ps) (mine ∙ absorbed) all,
        ),
      )

  -- The nodes of a gathered p j world make a crew again.
  gathered-IsCrew :
      (x : Option Value) (ps : List Peer) (w : World)
      → NoDup (Cluster.ids_of ps)
      → elem self (Cluster.ids_of ps) ≡ false
      → IsGathered x ps w
      → IsCrew p j self w ps
  gathered-IsCrew x ps w d o g = record {
    distinct = d;
    others = o;
    own = g.own;
    ready = left-All _ _ ps g.below;
  }

  rounded_twice :
      (ps : List Peer) (w : World) (a b c d : ℕ)
      → IsCrew p j self w ps
      → let w' = rounded self ps (rounded self ps (w, a, b), c, d) in
        let merged = gathered p j (held p j (w self)) ps w in
        (held p j (w' self) ≡ merged) × All (λ q. held p j (w' q.id) ≡ merged) ps
  rounded_twice ps w a b c d crew =
      let w1 = rounded self ps (w, a, b) in
      let m = gathered p j (held p j (w self)) ps w in
      let g = gather ps w a b crew in
      let under =
        subst (λ y. All (λ q. Below (joined_semilattice p) (held p j (w1 q.id)) y) ps) (sym g.value)
          (right-All _ _ ps g.below) in
      subst
        (λ y.
          (held p j (rounded self ps (w1, c, d) self) ≡ y)
          × All (λ q. held p j (rounded self ps (w1, c, d) q.id) ≡ y) ps)
        g.value (settle ps w1 c d (gathered-IsCrew m ps w1 crew.distinct crew.others g) under)

  -- The other members of a cluster are a crew.
  members-IsCrew :
      (w : World)
      → (w self).members.self ≡ self
      → NoDup (Cluster.ids (w self).members)
      → IsReady p j (w self)
      → All (λ q. IsReady p j (w q.id)) (w self).members.peers
      → IsCrew p j self w (Cluster.others (w self).members)
  unfolding Cluster.others Cluster.ids
  members-IsCrew w own distinct ready all =
      let m = (w self).members in
      record {
        distinct = others-NoDup m.self m.peers distinct;
        others =
            subst (λ t. elem t (Cluster.ids_of (Cluster.others m)) ≡ false) own
              (others_without m.self m.peers);
        own = ready;
        ready = others-All m.self (λ q. IsReady p j (w q.id)) m.peers all;
      }

  -- Eventual agreement: after one node has run two rounds of anti-entropy in which no request and
  -- no write of a log failed, that node and every other member of its cluster hold for a key the
  -- merge of what all of them held at first. It holds when the node's membership is its own and
  -- names nobody twice, and when the map of each member is valid and holds a value of one policy or
  -- none under the key.
  pub two_rounds_agree :
      (w : World)
      → (w self).members.self ≡ self
      → NoDup (Cluster.ids (w self).members)
      → IsReady p j (w self)
      → All (λ q. IsReady p j (w q.id)) (w self).members.peers
      → let ps = Cluster.others (w self).members in
        let w' =
          (anti_entropy_round self (λ id. well) (anti_entropy_round self (λ id. well) w).0).0 in
        let merged = gathered p j (held p j (w self)) ps w in
        (held p j (w' self) ≡ merged) × All (λ q. held p j (w' q.id) ≡ merged) ps
  unfolding anti_entropy_round
  two_rounds_agree w own distinct ready all =
      let ps = Cluster.others (w self).members in
      let w1 = rounded self ps (w, 0, 0) in
      let merged = gathered p j (held p j (w self)) ps w in
      let same = ap Cluster.others (rounded-Grown self ps w 0 0 self).members in
      subst
        (λ qs.
          (held p j (rounded self qs (w1, 0, 0) self) ≡ merged)
          × All (λ q. held p j (rounded self qs (w1, 0, 0) q.id) ≡ merged) ps)
        (sym same) (rounded_twice ps w 0 0 0 0 (members-IsCrew w own distinct ready all))
