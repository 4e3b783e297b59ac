-- ===== src/Node/Coordinator/Sync/Pair.antt =====
-- One exchange of anti-entropy, when no request and no write fails, seen from every node; and the values
-- of a key as a semilattice.
use mathlib.Core.Option.{some-injective}
use agent_memory.Prelude.{
  ℕ, ◌+◌, ◌≡◌, refl, sym, ap, subst, ◌∙◌, false, List, [], ◌∷◌, Option, none, some, if◌then◌else◌,
  Text, arith, eq_text, eq_text_refl, elem, All, Text-cases, inl, inr,
}
use agent_memory.Prelude.Semilattice.{Semilattice}
use agent_memory.Map.{Map}
use agent_memory.Types.Value.{Value, Policy}
use agent_memory.Conflict.Codec.{Codec}
use agent_memory.Conflict.Resolve.Laws.{IsOf, resolve_semilattice}
use agent_memory.Store.Kv.Laws.{IsValid}
use agent_memory.Store.Wal.{EntryCodec, written}
use agent_memory.Cluster
use agent_memory.Cluster.{Peer, Membership}
use agent_memory.Repair.Scan.{scan}
use agent_memory.Node.Replica
use agent_memory.Node.Replica.{Replica, get}
use agent_memory.Node.Replica.Valid.{kept-IsValid}
use agent_memory.Node.Coordinator.{
  Node, World, delivered, update, apply_replicate, replicate_write, serve_digest,
}
use agent_memory.Node.Coordinator.Sync.{pull_all, push_all, sync_peer}
use agent_memory.Node.Coordinator.Sync.Converge.{
  well, joined, sync_peer_converges, pull_other, push_other,
}

module _ ⦃codec : Codec⦄ ⦃entries : EntryCodec⦄ where
  -- A missing value, or one of the policy.
  abbrev pub IsOfOrNone : Policy → Option Value → Type 0
  IsOfOrNone p none = Unit
  IsOfOrNone p (some v) = IsOf p v

  module _ (p : Policy) where
    pub joined_closed :
        (a b : Option Value) → IsOfOrNone p a → IsOfOrNone p b → IsOfOrNone p (joined a b)
    joined_closed none b h k = k
    joined_closed (some a) none h k = h
    joined_closed (some a) (some b) h k = (resolve_semilattice p).closed a b h k

    pub joined_comm :
        (a b : Option Value) → IsOfOrNone p a → IsOfOrNone p b → joined a b ≡ joined b a
    joined_comm none none h k = refl
    joined_comm none (some b) h k = refl
    joined_comm (some a) none h k = refl
    joined_comm (some a) (some b) h k = ap some ((resolve_semilattice p).comm a b h k)

    joined_assoc :
        (a b c : Option Value)
        → IsOfOrNone p a
        → IsOfOrNone p b
        → IsOfOrNone p c
        → joined (joined a b) c ≡ joined a (joined b c)
    joined_assoc none b c h k l = refl
    joined_assoc (some a) none c h k l = refl
    joined_assoc (some a) (some b) none h k l = refl
    joined_assoc (some a) (some b) (some c) h k l =
        ap some ((resolve_semilattice p).assoc a b c h k l)

    joined_idem : (a : Option Value) → IsOfOrNone p a → joined a a ≡ a
    joined_idem none h = refl
    joined_idem (some a) h = ap some ((resolve_semilattice p).idem a h)

    pub joined_semilattice : Semilattice (IsOfOrNone p) joined
    joined_semilattice = record {
      closed = joined_closed;
      comm = joined_comm;
      assoc = joined_assoc;
      idem = joined_idem;
    }

    of_some : (o : Option Value) → IsOfOrNone p o → (v : Value) → o ≡ some v → IsOf p v
    of_some none h v e = absurd (cc (e))
    of_some (some a) h v e = subst (IsOf p) (some-injective a v e) h

  -- A node after some deliveries: its membership stays, and its map stays valid.
  pub record Grown (n n' : Node) : Type 0 where
    pub members : n'.members ≡ n.members
    pub valid : IsValid n.replica.kv → IsValid n'.replica.kv

  pub Grown-refl : (n : Node) → Grown n n
  Grown-refl n = record { members = refl; valid = λ h. h }

  pub Grown-trans : (n n' n'' : Node) → Grown n n' → Grown n' n'' → Grown n n''
  Grown-trans n n' n'' h k = record {
    members = k.members ∙ h.members;
    valid = λ v. k.valid (h.valid v);
  }

  applied-Grown : (k : Text) (v : Value) (n : Node) → Grown n (apply_replicate written k v n).0
  unfolding apply_replicate
  applied-Grown k v n = record { members = refl; valid = λ h. kept-IsValid written k v n.replica h }

  update_same : (id : Text) (n : Node) (w : World) → update id n w id ≡ n
  unfolding update
  update_same id n w = rw (eq_text_refl id) refl

  update_other : (id t : Text) (n : Node) (w : World) → eq_text id t ≡ false → update id n w t ≡ w t
  unfolding update
  update_other id t n w h = rw h refl

  written-Grown :
      (id k : Text) (v : Value) (w : World) (t : Text)
      → Grown (w t) (update id (apply_replicate written k v (w id)).0 w t)
  written-Grown id k v w t =
      let n = (apply_replicate written k v (w id)).0 in
      elim (Text-cases id t) [
        | inl e ↦
            subst (λ x. Grown (w x) (update id n w x)) e
              (subst (Grown (w id)) (sym (update_same id n w)) (applied-Grown k v (w id)))
        | inr g ↦ subst (Grown (w t)) (sym (update_other id t n w g)) (Grown-refl (w t))
      ]

  pull-Grown :
      (id : Text) (m : Map Text Value) (w : World) (c : ℕ) (t : Text)
      → Grown (w t) ((pull_all id (λ k. written) m (w, c)).0 t)
  unfolding pull_all
  pull-Grown id [] w c t = Grown-refl (w t)
  pull-Grown id ((k, v) ∷ m) w c t =
      let w' = update id (apply_replicate written k v (w id)).0 w in
      Grown-trans (w t) (w' t) _ (written-Grown id k v w t) (pull-Grown id m w' (c + 1) t)

  push-Grown :
      (id : Text) (m : Map Text Value) (w : World) (c : ℕ) (t : Text)
      → Grown (w t) ((push_all id (λ k. delivered written) m (w, c)).0 t)
  unfolding push_all replicate_write
  push-Grown id [] w c t = Grown-refl (w t)
  push-Grown id ((k, v) ∷ m) w c t =
      let w' = update id (apply_replicate written k v (w id)).0 w in
      Grown-trans (w t) (w' t) _ (written-Grown id k v w t)
        (push-Grown id m w' (if (apply_replicate written k v (w id)).1 then c + 1 else c) t)

  pub differ_back : (s t : Text) → eq_text s t ≡ false → eq_text t s ≡ false
  differ_back s t h = elim (Text-cases t s) [
    | inl e ↦ absurd (ground (arith, h, e, eq_text_refl s))
    | inr g ↦ g
  ]

  module _ (self peer : Text) (w : World) (a b : ℕ) where
    -- The world after the node has compared its map with a peer.
    abbrev pub synced : World
    synced = (sync_peer self peer well (w, a, b)).0

    pub synced-Grown : (t : Text) → Grown (w t) (synced t)
    unfolding sync_peer
    synced-Grown t =
        let plan = scan (Replica.snapshot (w self).replica) (serve_digest (w peer)) in
        let w' = (pull_all self (λ k. written) plan.pull (w, b)).0 in
        Grown-trans (w t) (w' t) _ (pull-Grown self plan.pull w b t)
          (push-Grown peer plan.push w' a t)

    pub synced-other : (t : Text) → eq_text self t ≡ false → eq_text peer t ≡ false → synced t ≡ w t
    unfolding sync_peer
    synced-other t h k =
        let plan = scan (Replica.snapshot (w self).replica) (serve_digest (w peer)) in
        let w' = (pull_all self (λ k. written) plan.pull (w, b)).0 in
        push_other peer plan.push w' a t k ∙ pull_other self plan.pull w b t h

    -- What holds of the nodes that the pair leaves alone still holds.
    pub synced-All :
        (P : Node → Type 0) (ps : List Peer)
        → elem self (Cluster.ids_of ps) ≡ false
        → elem peer (Cluster.ids_of ps) ≡ false
        → All (λ q. P (w q.id)) ps
        → All (λ q. P (synced q.id)) ps
    unfolding Cluster.ids_of
    synced-All P [] h k all = tt
    synced-All P (q ∷ ps) h k all =
        let here : eq_text q.id self ≡ false = ground (arith, h) in
        let there : eq_text q.id peer ≡ false = ground (arith, k) in
        (
          subst P
              (sym (synced-other q.id (differ_back q.id self here) (differ_back q.id peer there)))
              all.0,
          synced-All P ps (ground (arith, h)) (ground (arith, k)) all.1,
        )

  module _ (p : Policy) (j : Text) where
    abbrev pub held : Node → Option Value
    held n = get j n.replica

    -- A node with a valid map, and with a value of the policy or none under the key.
    pub record IsReady (n : Node) : Type 0 where
      pub valid : IsValid n.replica.kv
      pub typed : IsOfOrNone p (get j n.replica)

    pub synced-held :
        (self peer : Text) (w : World) (a b : ℕ)
        → eq_text self peer ≡ false
        → IsReady (w self)
        → IsReady (w peer)
        → (held (synced self peer w a b self) ≡ joined (held (w self)) (held (w peer)))
          × (held (synced self peer w a b peer) ≡ joined (held (w self)) (held (w peer)))
    synced-held self peer w a b d h k =
        sync_peer_converges p self peer w a b j d h.valid k.valid
          (of_some p (held (w self)) h.typed) (of_some p (held (w peer)) k.typed)

    pub synced-IsReady :
        (self peer : Text) (w : World) (a b : ℕ)
        → eq_text self peer ≡ false
        → IsReady (w self)
        → IsReady (w peer)
        → IsReady (synced self peer w a b self)
    synced-IsReady self peer w a b d h k = record {
      valid = (synced-Grown self peer w a b self).valid h.valid;
      typed =
          subst (IsOfOrNone p) (sym (synced-held self peer w a b d h k).0)
            (joined_closed p (held (w self)) (held (w peer)) h.typed k.typed);
    }
