-- ===== src/Node/Coordinator/Sync.antt =====
-- `AntiEntropyRound` and `ReplayHints` of internal/node/coordinator.go. What becomes of each request,
-- of each write to the log, and of the hints that concurrent writes store meanwhile are arguments. A
-- loop over the map of a plan goes by its keys, each key once.
pub mod Sorted
pub mod Converge
pub mod Pair
pub mod Crew
pub mod Round
pub mod Replay
use mathlib.Core.List.{foldl}
use agent_memory.Prelude.{
  ℕ, ◌+◌, Bool, true, false, not, ◌&&◌, List, [], ◌∷◌, Option, none, some, if◌then◌else◌, Text,
  length, ltb,
}
use agent_memory.Map.{Map}
use agent_memory.Types.Value.{Value}
use agent_memory.Conflict.Codec.{Codec}
use agent_memory.Store.Wal.{EntryCodec, Io}
use agent_memory.Cluster
use agent_memory.Cluster.{Peer}
use agent_memory.Repair.Hints
use agent_memory.Repair.Hints.{Hint, Hints}
use agent_memory.Repair.Scan.{Plan, scan}
use agent_memory.Node.Replica
use agent_memory.Node.Coordinator.{
  Node, World, Fate, update, apply_replicate, replicate_write, serve_digest,
}

-- What becomes of the requests to one peer: whether it sends its digest, the outcome of the node's own
-- log for each key, and the fate of each push.
pub record Contact : Type 0 where
  pub reached : Bool
  pub ios : Text → Io
  pub fates : Text → Fate

module _ ⦃codec : Codec⦄ ⦃entries : EntryCodec⦄ where
  -- The loop over `plan.Pull`, with the number pulled; errors of `Apply` are ignored.
  unfoldable pub pull_all : Text → (Text → Io) → Map Text Value → World × ℕ → World × ℕ
  pull_all self ios [] (w, pulled) = (w, pulled)
  pull_all self ios ((k, v) ∷ m) (w, pulled) =
      let (n, ignored) = apply_replicate (ios k) k v (w self) in
      pull_all self ios m (update self n w, pulled + 1)

  -- The loop over `plan.Push`, with the number pushed.
  unfoldable pub push_all : Text → (Text → Fate) → Map Text Value → World × ℕ → World × ℕ
  push_all peer fates [] (w, pushed) = (w, pushed)
  push_all peer fates ((k, v) ∷ m) (w, pushed) =
      let (w', good) = replicate_write (fates k) peer k v w in
      push_all peer fates m (w', if good then pushed + 1 else pushed)

  -- The body of the loop over the peers: the world, the number pushed and the number pulled.
  unfoldable pub sync_peer : Text → Text → Contact → World × ℕ × ℕ → World × ℕ × ℕ
  sync_peer self peer contact (w, pushed, pulled) =
      let plan = scan (Replica.snapshot (w self).replica) (serve_digest (w peer)) in
      let (w', pulled') = pull_all self contact.ios plan.pull (w, pulled) in
      let (w'', pushed') = push_all peer contact.fates plan.push (w', pushed) in
      if not contact.reached then (w, pushed, pulled) else (w'', pushed', pulled')

  unfoldable pub sync_peers : Text → (Text → Contact) → List Peer → World × ℕ × ℕ → World × ℕ × ℕ
  sync_peers self contacts [] s = s
  sync_peers self contacts (peer ∷ peers) s =
      sync_peers self contacts peers (sync_peer self peer.id (contacts peer.id) s)

  -- `AntiEntropyRound`
  unfoldable pub anti_entropy_round : Text → (Text → Contact) → World → World × ℕ × ℕ
  anti_entropy_round self contacts w =
      sync_peers self contacts (Cluster.others (w self).members) (w, 0, 0)

  -- The loop over the hints of a target: the world, the number delivered, and `ok`. `fates` is what
  -- becomes of each request, in order; none is sent after the first that fails.
  unfoldable pub send_hints : Text → (Text → Fate) → List Hint → World × ℕ → World × ℕ × Bool
  send_hints target fates [] (w, delivered) = (w, delivered, true)
  send_hints target fates (h ∷ hs) (w, delivered) =
      let (w', good) = replicate_write (fates h.key) target h.key h.value w in
      let more = send_hints target fates hs (w', delivered + 1) in
      if not good then (w', delivered, false) else more

  unfoldable pub store_hints : Text → Text → List (Text × Value) → World → World
  store_hints self target [] w = w
  store_hints self target ((k, v) ∷ more) w =
      let n : Node = record (w self) { hints = Hints.store target k v (w self).hints } in
      store_hints self target more (update self n w)

  -- The body of the loop over the targets. `meanwhile` is what concurrent writes store for the target
  -- between `Peek` and `Take`.
  unfoldable pub replay_target :
      Text → (Text → Fate) → List (Text × Value) → Text → World × ℕ → World × ℕ
  replay_target self fates meanwhile target (w, delivered) =
      let hints = Hints.peek target (w self).hints in
      let (sent, delivered', all_sent) = send_hints target fates hints (w, delivered) in
      let stored = store_hints self target meanwhile sent in
      let taken : Node = record (stored self) {
        hints = (Hints.take target (stored self).hints).0;
      } in
      (if all_sent && ltb 0 (length hints) then update self taken stored else stored, delivered')

  unfoldable pub replay_targets :
      Text → (Text → Text → Fate) → (Text → List (Text × Value)) → List Text → World × ℕ → World × ℕ
  replay_targets self fates meanwhile [] s = s
  replay_targets self fates meanwhile (t ∷ ts) s =
      replay_targets self fates meanwhile ts (replay_target self (fates t) (meanwhile t) t s)

  -- `ReplayHints`
  unfoldable pub replay_hints :
      Text → (Text → Text → Fate) → (Text → List (Text × Value)) → World → World × ℕ
  replay_hints self fates meanwhile w =
      replay_targets self fates meanwhile (Hints.targets (w self).hints) (w, 0)
