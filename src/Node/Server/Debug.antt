-- ===== src/Node/Server/Debug.antt =====
-- The handlers of internal/node/server.go for tests: the map, the hints, the switch against peers, and
-- the two rounds of repair on demand.
use agent_memory.Prelude.{
  ◌||◌, [], Option, none, some, if◌then◌else◌, Text, codes, eq_text, to_lower,
}
use agent_memory.Conflict.Codec.{Codec}
use agent_memory.Store.Wal.{EntryCodec}
use agent_memory.Repair.Hints
use agent_memory.Net.Transport.{HttpTransport, block, unblock}
use agent_memory.Node.Replica
use agent_memory.Node.Coordinator.{World, is_found, value_or_zero}
use agent_memory.Node.Coordinator.Sync.{anti_entropy_round, replay_hints}
use agent_memory.Node.Server.{
  Request, Response, FaultBody, decoded, end_of_file, malformed, Json, Context, write_json,
  found_value, hints, fault, synced, replayed, failed, bad_json, only_http, bad_action, facts,
}

unfoldable pub handle_debug_kv : Text → Request → World → Response
handle_debug_kv self r w =
    let key = r.query (codes "key") in
    let v = Replica.get key (w self).replica in
    if eq_text key []
    then write_json 200 (facts (Replica.snapshot (w self).replica))
    else write_json 200 (found_value (value_or_zero v) (is_found v))

unfoldable pub handle_debug_hints : Text → World → Response
handle_debug_hints self w =
    write_json 200 (hints (Hints.count (w self).hints) (Hints.targets (w self).hints))

-- The switch of `handleFault`; `none` is an action that it does not know.
unfoldable pub toggle : FaultBody → HttpTransport → Option HttpTransport
toggle b t =
    let action = to_lower b.action in
    if eq_text action (codes "block") || eq_text action (codes "partition")
    then some (block b.peers t)
    else if eq_text action (codes "unblock") || eq_text action (codes "recover")
    then some (unblock b.peers t)
    else if eq_text action (codes "heal")
    then some (unblock [] t)
    else none

-- The answer for a body that was read, or that is empty.
unfoldable pub apply_fault : FaultBody → HttpTransport → HttpTransport × Response
apply_fault b t = elim (toggle b t) [
  | none ↦ (t, write_json 400 (failed bad_action))
  | some t' ↦ (t', write_json 200 (fault b.action b.peers))
]

-- Over the transport of the node.
unfoldable pub handle_fault :
    ⦃json : Json⦄ → Request → Option HttpTransport → Option HttpTransport × Response
handle_fault ⦃json⦄ r none = (none, write_json 400 (failed only_http))
handle_fault ⦃json⦄ r (some t) = elim (json.fault_body r.body) [
  | decoded b ↦ let (t', resp) = apply_fault b t in (some t', resp)
  | end_of_file ↦
      let (t', resp) = apply_fault (record { action = []; peers = [] }) t in (some t', resp)
  | malformed ↦ (some t, write_json 400 (failed bad_json))
]

module _ ⦃codec : Codec⦄ ⦃entries : EntryCodec⦄ where
  unfoldable pub handle_anti_entropy : Text → Context → World → World × Response
  handle_anti_entropy self ctx w =
      let (w', pushed, pulled) = anti_entropy_round self ctx.contacts w in
      (w', write_json 200 (synced pushed pulled))

  unfoldable pub handle_handoff : Text → Context → World → World × Response
  handle_handoff self ctx w =
      let (w', delivered) = replay_hints self ctx.hint_fates ctx.meanwhile w in
      (w', write_json 200 (replayed delivered))
