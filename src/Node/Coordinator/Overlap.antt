-- ===== src/Node/Coordinator/Overlap.antt =====
-- Read after write: a read quorum that overlaps a write quorum sees the write.
use agent_memory.Prelude.{
  ℕ, ◌+◌, ◌≡◌, ◌≤◌, ◌<◌, refl, true, false, List, [], ◌∷◌, Option, none, some, Text, arith, elem,
  NoDup, length, All, sym, ◌∙◌, subst,
}
use agent_memory.Prelude.Int.{ℤ, pos, negsuc, ltb_int}
use agent_memory.Prelude.Semilattice.{Below-trans}
use agent_memory.Types.Value.{Value, Policy, WriteReq, ReadReq, ReplicaView}
use agent_memory.Conflict.Codec.{Codec}
use agent_memory.Conflict.Resolve.{resolve, resolve_many}
use agent_memory.Conflict.Resolve.Laws.{IsOf, resolve_semilattice}
use agent_memory.Conflict.Resolve.Many.{
  In, All_of_In, found_values, fold_values, resolve_many-fold, resolve_many-IsLeast,
}
use agent_memory.Store.Wal.{EntryCodec}
use agent_memory.Cluster
use agent_memory.Cluster.{Peer, Membership}
use agent_memory.Node.Replica.Above.{HasAbove, FitsKey}
use agent_memory.Node.Coordinator.{World, Fate, value_or_zero}
use agent_memory.Node.Coordinator.Write.{WriteResp, Event, write}
use agent_memory.Node.Coordinator.Read.{ReadResp, no_error, Answer, collect, respond, read}
use agent_memory.Node.Coordinator.Prepare.{policy_of, start_write_lem}
use agent_memory.Node.Coordinator.Quorum.{Sub, common_member}
use agent_memory.Node.Coordinator.Acked.{AllUnder}
use agent_memory.Node.Coordinator.Backed.{finishing}
use agent_memory.Node.Coordinator.Views.{
  node_ids, asked, IsFaithful, collect-IsSound, found_In, found-IsOf,
}
use agent_memory.Node.Coordinator.Visible.{
  Delivery, length-ids, deliver_all, Grows-deliver_all, IsVisible, Grows-IsVisible, payload,
  acked-IsVisible,
}

length-node_ids : (views : List ReplicaView) → length (node_ids views) ≡ length views
length-node_ids [] = refl
length-node_ids (v ∷ views) = omega (arith, length-node_ids views)

reached : (q : ℤ) (n b : ℕ) → q ≡ pos b → ltb_int (pos n) q ≡ false → b ≤ n
reached (pos q) n b e h = ground arith
reached (negsuc q) n b e h = absurd (ground arith)

module _ ⦃codec : Codec⦄ ⦃entries : EntryCodec⦄ where
  -- A read that answers without an error has resolved the views that its loop ended with.
  respond_value :
      (self : Text) (req : ReadReq) (fates : Text → Fate) (views : List ReplicaView) (w : World)
      → (respond self req fates views w).1.error ≡ no_error
      → (ltb_int (pos (length views)) req.r ≡ false)
        × ((respond self req fates views w).1.value ≡ value_or_zero (resolve_many views))
  unfolding respond
  respond_value self req fates views w e = ground (arith, e)

  read_views :
      (self : Text) (req : ReadReq) (fates : Text → Fate) (answers : List Answer) (w w' : World)
      (resp : ReadResp) (o : Option (List ReplicaView))
      → collect self req.key req.r w [] (Cluster.n (w self).members) answers ≡ o
      → read self req fates answers w ≡ (w', some resp)
      → resp.error ≡ no_error
      → (views : List ReplicaView) × (collect self req.key req.r w []
            (Cluster.n (w self).members)
            answers
          ≡ some views)
        × (ltb_int (pos (length views)) req.r ≡ false)
        × (resp.value ≡ value_or_zero (resolve_many views))
  unfolding read
  read_views self req fates answers w w' resp none c e f = absurd (ground (arith, c, e, f))
  read_views self req fates answers w w' resp (some views) c e f =
      let same : (respond self req fates views w).1 ≡ resp = ground (arith, c, e, f) in
      let (enough, value) = respond_value self req fates views w (rw same f) in
      (views, c, enough, rw (← same) value)

  -- The resolution of the views includes what a common member holds.
  resolved_above :
      (p : Policy) (k : Text) (v : Value) (w : World) (views : List ReplicaView) (t : Text)
      (o : Option Value)
      → IsOf p v
      → AllUnder p k w
      → All (IsFaithful k w) views
      → elem t (node_ids views) ≡ true
      → HasAbove p k v (w t).replica
      → resolve_many views ≡ o
      → IsOf p (value_or_zero o) × (resolve v (value_or_zero o) ≡ value_or_zero o)
  resolved_above p k v w views t none here u f there (cur, e, h, b) r = absurd (
      nonempty (found_values views) (found_In k w views t cur f there e)
        (sym (resolve_many-fold views) ∙ r))
    where
      nonempty : (l : List Value) → In cur l → fold_values l ≡ none → ⊥
      nonempty [] i q = i
      nonempty (x ∷ l) i q = absurd (ground (arith, q))
  resolved_above p k v w views t (some x) here u f there (cur, e, h, b) r =
      let (of, upper, least) = resolve_many-IsLeast p views x (found-IsOf p k w views u f) r in
      let held =
        All_of_In (λ y. resolve y x ≡ x) (found_values views) cur upper
          (found_In k w views t cur f there e) in
      (of, Below-trans (resolve_semilattice p) v cur x here h of b held)

  -- A quorum that holds the payload, and the answers of a quorum that overlaps it.
  overlap :
      (p : Policy) (k : Text) (v : Value) (members : List Text) (a b : ℕ) (w : World)
      (views : List ReplicaView)
      → IsOf p v
      → IsVisible p k v members (pos a) w
      → All (IsFaithful k w) views
      → NoDup (node_ids views)
      → Sub (node_ids views) members
      → b ≤ length views
      → length members < a + b
      → IsOf p (value_or_zero (resolve_many views))
        × (resolve v (value_or_zero (resolve_many views)) ≡ value_or_zero (resolve_many views))
  overlap p k v members a b w views here i f d m enough large =
      let large' : length members < length i.ids + length (node_ids views) =
        ground (arith, i.enough, enough, large, length-node_ids views) in
      let (t, held, asked_too) =
        common_member i.ids (node_ids views) members i.distinct d i.among m large' in
      resolved_above p k v w views t (resolve_many views) here i.under f asked_too (i.holds t held)
        refl

  module _ (self reader : Text) (wreq : WriteReq) (rreq : ReadReq) (w0 : World) where
    -- Read after write: if a write was acknowledged, a later read of the key that ends without an
    -- error, on any node and after any other requests, gives a value of the key's policy that
    -- includes the payload. It holds when the two quorums together exceed the size of the cluster,
    -- the key has values of the write's policy alone, and the two schedules ask members only, each
    -- at most once.
    pub read_after_write :
        (events : List Event) (ds : List Delivery) (fates : Text → Fate) (answers : List Answer)
        (w1 w2 : World) (wrote : WriteResp) (got : ReadResp) (a b : ℕ)
        → AllUnder (policy_of wreq) wreq.key w0
        → NoDup (finishing events)
        → Sub (finishing events) (Cluster.ids (w0 self).members)
        → write self wreq events w0 ≡ (w1, some wrote)
        → wrote.ok ≡ true
        → All (λ d. FitsKey (policy_of wreq) wreq.key d.key d.value) ds
        → NoDup (asked answers)
        → Sub (asked answers) (Cluster.ids (w0 self).members)
        → rreq.key ≡ wreq.key
        → read reader rreq fates answers (deliver_all ds w1) ≡ (w2, some got)
        → got.error ≡ no_error
        → wreq.w ≡ pos a
        → rreq.r ≡ pos b
        → Cluster.n (w0 self).members < a + b
        → IsOf (policy_of wreq) got.value
          × (resolve (payload self wreq events w0) got.value ≡ got.value)
    read_after_write events ds fates answers w1 w2 wrote got a b u d m e good fits d' m' at f fine
          wa rb large =
        let (kv, hints, members, ver, here) = start_write_lem wreq (w0 self) (u self) in
        let visible = acked-IsVisible self wreq events w0 wrote w1 u d m e good in
        let later =
          Grows-IsVisible (policy_of wreq) wreq.key _ _ _ w1 (deliver_all ds w1) here
            (Grows-deliver_all (policy_of wreq) wreq.key ds w1 fits) visible in
        let (views, c, enough, value) =
          read_views reader rreq fates answers (deliver_all ds w1) w2 got _ refl f fine in
        let (faithful, distinct, among) =
          collect-IsSound rreq.key (deliver_all ds w1) reader rreq.r (Cluster.ids (w0 self).members)
            answers [] views _ d' m'
            (record {
              faithful = tt;
              distinct = tt;
              among = λ t h. absurd (ground arith);
              past = λ t h. absurd (ground arith);
            })
            c in
        let faithful' =
          subst (λ (key : Text). All (IsFaithful key (deliver_all ds w1)) views) at faithful in
        let visible' =
          subst
            (λ (q : ℤ).
              IsVisible (policy_of wreq) wreq.key (payload self wreq events w0)
                (Cluster.ids (w0 self).members) q (deliver_all ds w1))
            wa later in
        rw value (
          overlap (policy_of wreq) wreq.key _ (Cluster.ids (w0 self).members) a b
            (deliver_all ds w1) views here visible' faithful' distinct among
            (reached rreq.r (length views) b rb enough) (rw length-ids large))
