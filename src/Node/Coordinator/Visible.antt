-- ===== src/Node/Coordinator/Visible.antt =====
-- What an acknowledged write leaves in the cluster, through all later requests.
use agent_memory.Prelude.{
  ℕ, ◌≡◌, ◌≤◌, refl, true, false, List, [], ◌∷◌, none, some, Text, arith, elem, NoDup, length, All,
  inl, inr, Bool-cases, subst,
}
use agent_memory.Prelude.Int.{ℤ, pos, negsuc, ltb_int}
use agent_memory.Types.Value.{Value, Policy, WriteReq}
use agent_memory.Conflict.Codec.{Codec}
use agent_memory.Conflict.Resolve.Laws.{IsOf}
use agent_memory.Store.Wal.{EntryCodec}
use agent_memory.Cluster
use agent_memory.Cluster.{Peer, Membership}
use agent_memory.Node.Replica
use agent_memory.Node.Replica.{Replica}
use agent_memory.Node.Replica.Above.{HasAbove, FitsKey}
use agent_memory.Node.Coordinator.{
  Node, World, Fate, update, validate_quorum, start_write, replicate_write,
}
use agent_memory.Node.Coordinator.Write.{WriteResp, Collect, Event, write}
use agent_memory.Node.Coordinator.Prepare.{policy_of, start_write_lem}
use agent_memory.Node.Coordinator.Quorum.{Sub}
use agent_memory.Node.Coordinator.Acked.{
  AllUnder, Grows, Grows-refl, Grows-trans, Grows-replicate_write,
}
use agent_memory.Node.Coordinator.Backed.{finishing, IsHonest, IsBacked, run-IsBacked}

-- A request to some replica, with what becomes of it.
pub record Delivery : Type 0 where
  pub fate : Fate
  pub target : Text
  pub key : Text
  pub value : Value

length-ids_of : (peers : List Peer) → length (Cluster.ids_of peers) ≡ length peers
unfolding Cluster.ids_of
length-ids_of [] = refl
length-ids_of (p ∷ peers) = omega (arith, length-ids_of peers)

pub length-ids : (m : Membership) → length (Cluster.ids m) ≡ Cluster.n m
unfolding Cluster.ids Cluster.n
length-ids m = length-ids_of m.peers

at_least : (q : ℤ) (a b : ℕ) → a ≤ b → ltb_int (pos a) q ≡ false → ltb_int (pos b) q ≡ false
at_least (pos q) a b h e = ground arith
at_least (negsuc q) a b h e = refl

module _ ⦃codec : Codec⦄ ⦃entries : EntryCodec⦄ where
  -- Requests of other writes, of repairs and of hints, one after the other.
  unfoldable pub deliver_all : List Delivery → World → World
  deliver_all [] w = w
  deliver_all (d ∷ ds) w = deliver_all ds (replicate_write d.fate d.target d.key d.value w).0

  pub Grows-deliver_all :
      (p : Policy) (k : Text) (ds : List Delivery) (w : World)
      → All (λ d. FitsKey p k d.key d.value) ds
      → Grows p k w (deliver_all ds w)
  unfolding deliver_all
  Grows-deliver_all p k [] w h = Grows-refl p k w
  Grows-deliver_all p k (d ∷ ds) w h =
      let w' = (replicate_write d.fate d.target d.key d.value w).0 in
      Grows-trans p k w w' (deliver_all ds w')
        (Grows-replicate_write p k d.fate d.target d.key d.value w h.0)
        (Grows-deliver_all p k ds w' h.1)

  -- What an acknowledged write leaves: on `quorum` different members a value that includes the payload.
  pub record IsVisible (p : Policy) (k : Text) (v : Value) (members : List Text) (quorum : ℤ)
      (w : World) : Type 0 where
    pub under : AllUnder p k w
    pub ids : List Text
    pub distinct : NoDup ids
    pub among : Sub ids members
    pub enough : ltb_int (pos (length ids)) quorum ≡ false
    pub holds : (t : Text) → elem t ids ≡ true → HasAbove p k v (w t).replica

  pub started-AllUnder :
      (p : Policy) (k : Text) (self : Text) (n : Node) (w : World)
      → n.replica.kv ≡ (w self).replica.kv
      → AllUnder p k w
      → AllUnder p k (update self n w)
  unfolding update Replica.get
  started-AllUnder p k self n w e h j cur f = ground (arith, e, h j cur, h self cur, f)

  IsVisible-of :
      (p : Policy) (k : Text) (v : Value) (members : List Text) (quorum : ℤ) (w w' : World)
      (s : Collect) (r : WriteResp)
      → w ≡ w'
      → s.reply ≡ some r
      → r.ok ≡ true
      → AllUnder p k w × IsHonest quorum s × IsBacked p k v members [] w s
      → IsVisible p k v members quorum w'
  IsVisible-of p k v members quorum w w' s r e f good (under, honest, b) =
      subst (IsVisible p k v members quorum) e (record {
        under = under;
        ids = b.ids;
        distinct = b.distinct;
        among = b.among;
        enough = at_least quorum s.acks (length b.ids) b.counted (honest r f good);
        holds = b.holds;
      })

  module _ (self : Text) (req : WriteReq) (events : List Event) (w : World) where
    abbrev pub payload : Value
    payload = (start_write req (w self)).2

    pub acked-IsVisible :
        (r : WriteResp) (w' : World)
        → AllUnder (policy_of req) req.key w
        → NoDup (finishing events)
        → Sub (finishing events) (Cluster.ids (w self).members)
        → write self req events w ≡ (w', some r)
        → r.ok ≡ true
        → IsVisible (policy_of req) req.key payload (Cluster.ids (w self).members) req.w w'
    unfolding write
    acked-IsVisible r w' u d m e good = elim (Bool-cases (validate_quorum req.w (w self))) [
      | inr refused ↦ absurd (ground (arith, refused, e, good))
      | inl fine ↦
          let start : Collect = record {
            acks = 0;
            remaining = Cluster.n (w self).members;
            reply = none;
          } in
          let (kv, hints, members, ver, here) = start_write_lem req (w self) (u self) in
          let after = update self (start_write req (w self)).0 w in
          let ran =
            run-IsBacked (policy_of req) req.key payload (Cluster.ids (w self).members) self req.w
              (start_write req (w self)).1 here events after start d m
              (started-AllUnder (policy_of req) req.key self _ w kv u)
              (λ r h k. absurd (ground arith))
              (record {
                ids = [];
                distinct = tt;
                among = λ t h. absurd (ground arith);
                past = λ t h. absurd (ground arith);
                counted = omega arith;
                holds = λ t h. absurd (ground arith);
              }) in
          IsVisible-of _ _ _ _ _ _ w' _ r (ground (arith, fine, e)) (ground (arith, fine, e)) good
            ran
    ]

  pub Grows-IsVisible :
      (p : Policy) (k : Text) (v : Value) (members : List Text) (quorum : ℤ) (w w' : World)
      → IsOf p v
      → Grows p k w w'
      → IsVisible p k v members quorum w
      → IsVisible p k v members quorum w'
  Grows-IsVisible p k v members quorum w w' here g i = record {
    under = g.0 i.under;
    ids = i.ids;
    distinct = i.distinct;
    among = i.among;
    enough = i.enough;
    holds = λ t h. g.1 v t here (i.holds t h);
  }
