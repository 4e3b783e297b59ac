-- ===== src/Node/Coordinator/Sync/Sorted.antt =====
-- The maps of a plan are in the order of their keys, and the digest of a node is its map.
use agent_memory.Prelude.{◌≡◌, [], ◌∷◌, if◌then◌else◌, Text, arith, Option-cases, inl, inr}
use agent_memory.Prelude.Order.{list_ord}
use agent_memory.Map.{Map, lookup, insert, has, IsSorted}
use agent_memory.Map.Lookup.{insert-IsSorted}
use agent_memory.Types.Value.{Value}
use agent_memory.Conflict.Codec.{Codec}
use agent_memory.Conflict.Resolve.{resolve}
use agent_memory.Store.Kv.Laws.{lookup-snapshot, snapshot-IsSorted}
use agent_memory.Repair.Scan.{Plan, scan_local, scan_locals, scan_remotes, scan}
use agent_memory.Node.Replica
use agent_memory.Node.Replica.{Replica, get, merge_incoming}
use agent_memory.Node.Coordinator.{Node, serve_digest}

module _ ⦃codec : Codec⦄ where
  scan_local-IsSorted :
      (remote : Map Text Value) (q : Plan) (k : Text) (l : Value)
      → IsSorted q.push × IsSorted q.pull
      → IsSorted (scan_local remote q k l).push × IsSorted (scan_local remote q k l).pull
  unfolding scan_local
  scan_local-IsSorted remote q k l s = elim (Option-cases (lookup k remote)) [
    | inl e ↦ ground (arith, e, insert-IsSorted k l q.push s.0, s)
    | inr (r, e) ↦ ground (
      arith,
      e,
      insert-IsSorted k (resolve l r) q.push s.0,
      insert-IsSorted k (resolve l r) q.pull s.1,
      s,
    )
  ]

  scan_locals-IsSorted :
      (remote : Map Text Value) (q : Plan) (local : Map Text Value)
      → IsSorted q.push × IsSorted q.pull
      → IsSorted (scan_locals remote q local).push × IsSorted (scan_locals remote q local).pull
  unfolding scan_locals
  scan_locals-IsSorted remote q [] s = s
  scan_locals-IsSorted remote q ((k, l) ∷ local) s =
      scan_locals-IsSorted remote (scan_local remote q k l) local
        (scan_local-IsSorted remote q k l s)

  scan_remotes-IsSorted :
      (local : Map Text Value) (q : Plan) (remote : Map Text Value)
      → IsSorted q.push × IsSorted q.pull
      → IsSorted (scan_remotes local q remote).push × IsSorted (scan_remotes local q remote).pull
  unfolding scan_remotes
  scan_remotes-IsSorted local q [] s = s
  scan_remotes-IsSorted local q ((k, r) ∷ remote) s =
      scan_remotes-IsSorted local (if has k local then q else record q { pull = insert k r q.pull })
        remote (ground (arith, s, insert-IsSorted k r q.pull s.1))

  pub scan-IsSorted :
      (local remote : Map Text Value)
      → IsSorted (scan local remote).push × IsSorted (scan local remote).pull
  unfolding scan
  scan-IsSorted local remote =
      scan_remotes-IsSorted local _ remote
        (scan_locals-IsSorted remote (record { push = []; pull = [] }) local (tt, tt))

  pub digest-IsSorted : (n : Node) → IsSorted (serve_digest n)
  unfolding serve_digest Replica.snapshot
  digest-IsSorted n = snapshot-IsSorted n.replica.kv

  pub lookup-digest :
      (n : Node) (j : Text) → IsSorted n.replica.kv.m → lookup j (serve_digest n) ≡ get j n.replica
  unfolding serve_digest Replica.snapshot get
  lookup-digest n j s = lookup-snapshot n.replica.kv j s
