-- ===== src/Node/Coordinator/Sync/Converge.antt =====
-- After two nodes have compared their maps, both hold the merge of what they held.
use agent_memory.Prelude.{
  ℕ, ◌+◌, ◌≡◌, refl, true, false, [], ◌∷◌, Option, none, some, if◌then◌else◌, Text, arith, eq_text,
  eq_text→eq, eq_text_refl, ◌∙◌, ap,
}
use agent_memory.Prelude.Order.{list_ord, list_eq}
use agent_memory.Prelude.Semilattice.{Below-op, Below-op_right}
use agent_memory.Map.{Map, lookup, IsSorted}
use agent_memory.Map.Extensional.{lookup-Above}
use agent_memory.Types.Value.{Value, Policy, equal_value_iff}
use agent_memory.Conflict.Codec.{Codec}
use agent_memory.Conflict.Resolve.{resolve}
use agent_memory.Conflict.Resolve.Laws.{IsOf, resolve_semilattice}
use agent_memory.Store.Kv.Laws.{IsValid}
use agent_memory.Store.Wal.{EntryCodec, written}
use agent_memory.Repair.Scan.{scan}
use agent_memory.Repair.Scan.Laws.{pushed, pulled, scan_lem}
use agent_memory.Node.Replica
use agent_memory.Node.Replica.{Replica, get, merge_incoming}
use agent_memory.Node.Replica.Step.{get-apply_written}
use agent_memory.Node.Coordinator.{
  Node, World, delivered, update, apply_replicate, replicate_write, serve_digest,
}
use agent_memory.Node.Coordinator.Sync.Sorted.{scan-IsSorted, digest-IsSorted, lookup-digest}
use agent_memory.Node.Coordinator.Sync.{Contact, pull_all, push_all, sync_peer}

-- No request and no write fails.
abbrev pub well : Contact
well = record { reached = true; ios = λ k. written; fates = λ k. delivered written }

module _ ⦃codec : Codec⦄ where
  -- A key after the merge of one more value, if there is one.
  abbrev after : Option Value → Text → Replica → Option Value
  after none j r = get j r
  after (some v) j r = some (merge_incoming j v r.kv)

  merge_same :
      (j : Text) (v : Value) (r r' : Replica)
      → get j r ≡ get j r'
      → merge_incoming j v r.kv ≡ merge_incoming j v r'.kv
  unfolding merge_incoming get
  merge_same j v r r' e = cc (e)

  after_same :
      (o : Option Value) (j : Text) (r r' : Replica)
      → get j r ≡ get j r'
      → after o j r ≡ after o j r'
  after_same none j r r' e = e
  after_same (some v) j r r' e = ap some (merge_same j v r r' e)

  module _ ⦃entries : EntryCodec⦄ where
    replica-update :
        (id : Text) (n : Node) (w : World) (j : Text)
        → ((update id n w) j).replica ≡ (if eq_text id j then n.replica else (w j).replica)
    unfolding update
    replica-update id n w j = ground arith

    -- One write on one node.
    get-written :
        (id k : Text) (v : Value) (w : World) (t j : Text)
        → get j ((update id (apply_replicate written k v (w id)).0 w) t).replica ≡ (
            if eq_text id t
            then if eq_text k j
              then some (merge_incoming k v (w id).replica.kv)
              else get j (w id).replica
            else get j (w t).replica)
    unfolding apply_replicate
    get-written id k v w t j = ground (
      arith,
      replica-update id (apply_replicate written k v (w id)).0 w t,
      get-apply_written k v (w id).replica j,
    )

    pull_get :
        (id : Text) (m : Map Text Value) (w : World) (c : ℕ) (j : Text)
        → IsSorted m
        → get j ((pull_all id (λ k. written) m (w, c)).0 id).replica
          ≡ after (lookup j m) j (w id).replica
    unfolding pull_all lookup eq_text
    pull_get id [] w c j s = refl
    pull_get id ((k, v) ∷ m) w c j s =
        let w' = update id (apply_replicate written k v (w id)).0 w in
        ground (
          arith,
          pull_get id m w' (c + 1) j s.1,
          get-written id k v w id j,
          eq_text_refl id,
          list_eq k j,
          lookup-Above k m s.0,
          after_same (lookup j m) j (w' id).replica (w id).replica,
        )

    push_get :
        (id : Text) (m : Map Text Value) (w : World) (c : ℕ) (j : Text)
        → IsSorted m
        → get j ((push_all id (λ k. delivered written) m (w, c)).0 id).replica
          ≡ after (lookup j m) j (w id).replica
    unfolding push_all replicate_write lookup eq_text
    push_get id [] w c j s = refl
    push_get id ((k, v) ∷ m) w c j s =
        let w' = update id (apply_replicate written k v (w id)).0 w in
        ground (
          arith,
          push_get id m w' (if (apply_replicate written k v (w id)).1 then c + 1 else c) j s.1,
          get-written id k v w id j,
          eq_text_refl id,
          list_eq k j,
          lookup-Above k m s.0,
          after_same (lookup j m) j (w' id).replica (w id).replica,
        )

    -- Neither loop touches another node.
    pub pull_other :
        (id : Text) (m : Map Text Value) (w : World) (c : ℕ) (t : Text)
        → eq_text id t ≡ false
        → (pull_all id (λ k. written) m (w, c)).0 t ≡ w t
    unfolding pull_all update
    pull_other id [] w c t h = refl
    pull_other id ((k, v) ∷ m) w c t h =
        let w' = update id (apply_replicate written k v (w id)).0 w in
        pull_other id m w' (c + 1) t h ∙ rw h refl

    pub push_other :
        (id : Text) (m : Map Text Value) (w : World) (c : ℕ) (t : Text)
        → eq_text id t ≡ false
        → (push_all id (λ k. delivered written) m (w, c)).0 t ≡ w t
    unfolding push_all replicate_write update
    push_other id [] w c t h = refl
    push_other id ((k, v) ∷ m) w c t h =
        let w' = update id (apply_replicate written k v (w id)).0 w in
        push_other id m w' (if (apply_replicate written k v (w id)).1 then c + 1 else c) t h
        ∙ rw h refl

    -- The merge of what two nodes hold of a key.
    abbrev pub joined : Option Value → Option Value → Option Value
    joined none r = r
    joined (some l) none = some l
    joined (some l) (some r) = some (resolve l r)

    module _ (p : Policy) (j : Text) where
      after_pull :
          (o o' : Option Value) (r : Replica)
          → get j r ≡ o
          → ((v : Value) → o ≡ some v → IsOf p v)
          → ((v : Value) → o' ≡ some v → IsOf p v)
          → after (pulled o o') j r ≡ joined o o'
      unfolding merge_incoming get
      after_pull none none r e h k = e
      after_pull none (some b) r e h k = ground (arith, e)
      after_pull (some a) none r e h k = e
      after_pull (some a) (some b) r e h k = ground (
        arith,
        e,
        equal_value_iff (resolve a b) a,
        Below-op (resolve_semilattice p) a b (h a refl) (k b refl),
      )

      after_push :
          (o o' : Option Value) (r : Replica)
          → get j r ≡ o'
          → ((v : Value) → o ≡ some v → IsOf p v)
          → ((v : Value) → o' ≡ some v → IsOf p v)
          → after (pushed o o') j r ≡ joined o o'
      unfolding merge_incoming get
      after_push none none r e h k = e
      after_push none (some b) r e h k = e
      after_push (some a) none r e h k = ground (arith, e)
      after_push (some a) (some b) r e h k = ground (
        arith,
        e,
        equal_value_iff (resolve a b) b,
        Below-op (resolve_semilattice p) a b (h a refl) (k b refl),
        Below-op_right (resolve_semilattice p) a b (h a refl) (k b refl),
        (resolve_semilattice p).comm a b (h a refl) (k b refl),
        (resolve_semilattice p).comm b (resolve a b) (k b refl)
            ((resolve_semilattice p).closed a b (h a refl) (k b refl)),
      )

    -- Anti-entropy: when a node has compared its map with another's and no request and no write of
    -- the log failed, both hold for a key the merge of what the two held, if both held values of
    -- one policy or none and both maps were valid.
    pub sync_peer_converges :
        (p : Policy) (self peer : Text) (w : World) (pushed pulled : ℕ) (j : Text)
        → eq_text self peer ≡ false
        → IsValid (w self).replica.kv
        → IsValid (w peer).replica.kv
        → ((v : Value) → get j (w self).replica ≡ some v → IsOf p v)
        → ((v : Value) → get j (w peer).replica ≡ some v → IsOf p v)
        → let w' = (sync_peer self peer well (w, pushed, pulled)).0 in
          let merged = joined (get j (w self).replica) (get j (w peer).replica) in
          (get j (w' self).replica ≡ merged) × (get j (w' peer).replica ≡ merged)
    unfolding sync_peer serve_digest
    sync_peer_converges p self peer w pushed pulled j differ valid valid' here there =
        let local = Replica.snapshot (w self).replica in
        let remote = serve_digest (w peer) in
        let plan = scan local remote in
        let w' = (pull_all self (λ k. written) plan.pull (w, pulled)).0 in
        let w'' = (push_all peer (λ k. delivered written) plan.push (w', pushed)).0 in
        let (push, pull) =
          scan_lem local remote j (digest-IsSorted (w self)) (digest-IsSorted (w peer)) in
        let (push_sorted, pull_sorted) = scan-IsSorted local remote in
        let mine = lookup-digest (w self) j valid.sorted in
        let theirs = lookup-digest (w peer) j valid'.sorted in
        let other : eq_text peer self ≡ false =
          ground (arith, differ, eq_text→eq peer self, eq_text_refl self) in
        let kept = push_other peer plan.push w' pushed self other in
        let left = pull_get self plan.pull w pulled j pull_sorted in
        let right = push_get peer plan.push w' pushed j push_sorted in
        let untouched = pull_other self plan.pull w pulled peer differ in
        let joined_here =
          after_pull p j (get j (w self).replica) (get j (w peer).replica) (w self).replica refl
            here there in
        let joined_there =
          after_push p j (get j (w self).replica) (get j (w peer).replica) (w peer).replica refl
            here there in
        (
          cc (kept, left, pull, mine, theirs, joined_here),
          cc (right, push, mine, theirs, untouched, joined_there),
        )
