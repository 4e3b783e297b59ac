-- ===== src/Tests/Sync.antt =====
-- The theorems on anti-entropy, the replay of hints and facts, in the same cluster.
use agent_memory.Prelude.{
  ◌≡◌, refl, true, [], ◌∷◌, none, some, if◌then◌else◌, Text, codes, arith, eq_text, NoDup, All, inl,
  inr, subst, Bool-cases,
}
use agent_memory.Map.{lookup, insert}
use agent_memory.Types.Clock.{observe}
use agent_memory.Types.Value.{equal_value, Value, Policy}
use agent_memory.Store.Kv
use agent_memory.Store.Wal.{written}
use agent_memory.Cluster
use agent_memory.Cluster.{Peer, Membership}
use agent_memory.Repair.Hints
use agent_memory.Node.Replica
use agent_memory.Node.Replica.{new_replica, merge_incoming, log_and_store, store_merged}
use agent_memory.Node.Coordinator.{Node, World, delivered, replicate_write, apply_replicate}
use agent_memory.Node.Coordinator.Acked.{AllUnder}
use agent_memory.Node.Coordinator.Handoff.{IsQueued}
use agent_memory.Node.Coordinator.Sync.{sync_peer, anti_entropy_round, send_hints, replay_target}
use agent_memory.Node.Coordinator.Sync.Pair.{held, IsReady}
use agent_memory.Node.Coordinator.Sync.Crew.{gathered}
use agent_memory.Node.Coordinator.Sync.Round.{two_rounds_agree}
use agent_memory.Node.Coordinator.Sync.Converge.{well, joined, sync_peer_converges}
use agent_memory.Node.Coordinator.Sync.Replay.{HintsFit, replay_target-HasAbove}
use agent_memory.Node.Replica.Above.{HasAbove}
use agent_memory.Conflict.Lww.Laws.{IsPlain}
use agent_memory.Store.Kv.{new_kv}
use agent_memory.Store.Kv.Laws.{IsValid, new_kv-IsValid, apply-IsValid}
use agent_memory.Prelude.Order.{list_ord}
use agent_memory.Store.FactKey.{fact_key}
use agent_memory.Tests.Codec.{framed_codec, framed_entries}
use agent_memory.Tests.Values.{color, name, red, blue, red-IsPlain, blue-IsPlain}
use agent_memory.Tests.Node.{n1, n2, cluster, differ}

-- Two nodes that have one key each, and a hint on the first for the second.
abbrev holding : Text → Text → Value → Node
holding id key v = record (cluster id) {
  replica = record (new_replica id none) { kv = (Kv.apply key v new_kv).0 };
  hints = (n2, record { target = n2; key = name; value = blue } ∷ []) ∷ [];
}

abbrev apart : World
apart = λ id. if eq_text id n1 then holding id color red else holding id color blue

apart-IsValid : (IsValid (apart n1).replica.kv) × (IsValid (apart n2).replica.kv)
unfolding eq_text
apart-IsValid =
    (apply-IsValid new_kv color red new_kv-IsValid, apply-IsValid new_kv color blue new_kv-IsValid)

held_red : (v : Value) → Replica.get color (apart n1).replica ≡ some v → IsPlain v
unfolding eq_text Replica.get Kv.get Kv.apply insert lookup
held_red v e = let same : red ≡ v = ground (arith, e) in subst IsPlain same red-IsPlain

held_blue : (v : Value) → Replica.get color (apart n2).replica ≡ some v → IsPlain v
unfolding eq_text Replica.get Kv.get Kv.apply insert lookup
held_blue v e = let same : blue ≡ v = ground (arith, e) in subst IsPlain same blue-IsPlain

sync_peer_converges_example :
    let w' = (sync_peer n1 n2 well (apart, 0, 0)).0 in
    let merged =
      joined (Replica.get color (apart n1).replica) (Replica.get color (apart n2).replica) in
    (Replica.get color (w' n1).replica ≡ merged) × (Replica.get color (w' n2).replica ≡ merged)
sync_peer_converges_example =
    sync_peer_converges Policy.lww n1 n2 apart 0 0 color differ apart-IsValid.0 apart-IsValid.1
      held_red held_blue

three-NoDup : NoDup (Cluster.ids (apart n1).members)
unfolding eq_text Cluster.ids Cluster.ids_of
three-NoDup = (refl, (refl, (refl, tt)))

red-IsReady : IsReady Policy.lww color (apart n1)
unfolding eq_text Replica.get Kv.get Kv.apply insert lookup
red-IsReady = record { valid = apart-IsValid.0; typed = red-IsPlain }

apart-IsReady : All (λ q. IsReady Policy.lww color (apart q.id)) (apart n1).members.peers
unfolding eq_text Replica.get Kv.get Kv.apply insert lookup
apart-IsReady =
    let blue-IsReady : IsReady Policy.lww color (apart n2) = record {
      valid = apart-IsValid.1;
      typed = blue-IsPlain;
    } in
    (red-IsReady, (blue-IsReady, (record { valid = apart-IsValid.1; typed = blue-IsPlain }, tt)))

two_rounds_agree_example :
    let ps = Cluster.others (apart n1).members in
    let w' = (anti_entropy_round n1 (λ id. well) (anti_entropy_round n1 (λ id. well) apart).0).0 in
    let merged = gathered Policy.lww color (held Policy.lww color (apart n1)) ps apart in
    (held Policy.lww color (w' n1) ≡ merged)
    × All (λ q. held Policy.lww color (w' q.id) ≡ merged) ps
unfolding eq_text
two_rounds_agree_example =
    two_rounds_agree Policy.lww color n1 apart refl three-NoDup red-IsReady apart-IsReady

no_name : (id : Text) → Replica.get name (apart id).replica ≡ none
unfolding Replica.get Kv.get Kv.apply insert lookup
no_name id = elim (Bool-cases (eq_text id n1)) [ inl e ↦ rw e refl | inr e ↦ rw e refl ]

none_named : AllUnder Policy.lww name apart
none_named id cur e = absurd (cc (e, no_name id))

-- The hint of `apart`, which is sent.
hints_fit : HintsFit Policy.lww name n2 (Hints.peek n2 (apart n1).hints)
unfolding eq_text Hints.peek lookup
hints_fit = (λ e. blue-IsPlain, tt)

hint-IsQueued : IsQueued name blue (Hints.peek n2 (apart n1).hints)
unfolding eq_text Hints.peek lookup
hint-IsQueued = inl (refl, refl)

hint_sent :
    (send_hints n2 (λ k. delivered written) (Hints.peek n2 (apart n1).hints) (apart, 0)).2 ≡ true
unfolding eq_text Hints.peek lookup send_hints replicate_write apply_replicate Replica.apply
    merge_incoming log_and_store store_merged Kv.apply Kv.get insert equal_value new_replica observe
hint_sent = refl

replay_target-HasAbove_example :
    HasAbove Policy.lww name blue
      ((replay_target n1 (λ k. delivered written) ((color, red) ∷ []) n2 (apart, 0)).0 n2).replica
replay_target-HasAbove_example =
    replay_target-HasAbove Policy.lww name n2 n1 (λ k. delivered written) ((color, red) ∷ []) blue
      apart 0 hints_fit none_named hint_sent hint-IsQueued blue-IsPlain

-- A fact of the entity `user:7` is one of the entity `user`.
same_key : fact_key (codes "user:7") (codes "color") ≡ fact_key (codes "user") (codes "7:color")
unfolding fact_key
same_key = refl
