-- ===== src/Node/Server/Client.antt =====
-- The handlers of the client API of internal/node/server.go.
use agent_memory.Prelude.{
  false, not, [], ◌++◌, Option, none, some, if◌then◌else◌, Text, codes, eq_text,
}
use agent_memory.Prelude.Int.{ℤ, pos, ltb_int, eq_int}
use agent_memory.Types.Value.{Policy, WriteReq, parse_policy}
use agent_memory.Conflict.Codec.{Codec}
use agent_memory.Store.Kv
use agent_memory.Store.Wal.{EntryCodec}
use agent_memory.Cluster
use agent_memory.Node.Replica
use agent_memory.Node.Coordinator.{World}
use agent_memory.Node.Coordinator.Write.{WriteResp, write, delete}
use agent_memory.Node.Coordinator.Read.{ReadResp, no_error, quorum_range, too_few_responses, read}
use agent_memory.Node.Server.{
  Request, Response, WriteBody, FactBody, TagBody, decoded, end_of_file, malformed, Json, Context,
  write_json, reply, health, written, answered, entries, facts, failed, bad_json, unknown_policy,
}
use agent_memory.Node.Server.Numbers.{set_int}

unfoldable pub handle_health : Text → World → Response
handle_health self w = write_json 200 (health (w self).id (Cluster.n (w self).members))

-- The answer to a write: 200 or 503.
abbrev pub write_status : WriteResp → Response
write_status resp = write_json (if not resp.ok then 503 else 200) (written resp)

-- The answer to a read at /read: 200 or 503.
abbrev pub read_status : ReadResp → Response
read_status resp = elim resp.error [
  | no_error ↦ write_json 200 (answered resp)
  | quorum_range ↦ write_json 503 (answered resp)
  | too_few_responses ↦ write_json 503 (answered resp)
]

-- The answer to a read at /fact and /tag.
abbrev pub read_ok : ReadResp → Response
read_ok resp = write_json 200 (answered resp)

-- The error of `ParsePolicy` comes with the zero policy, LWW.
abbrev pub policy_or_zero : Option Policy → Policy
policy_or_zero none = Policy.lww
policy_or_zero (some p) = p

-- The request of `handleWrite`.
unfoldable pub write_req : WriteBody → Policy → WriteReq
write_req b policy = record {
  key = b.key;
  content = b.content;
  policy = policy;
  w = b.w;
  client_ts = b.client_ts;
  orset_op = b.orset_op;
  orset_elem = b.orset_elem;
  tombstone = b.tombstone;
}

-- The request of `handleFact`.
unfoldable pub fact_req : FactBody → WriteReq
fact_req b = record {
  key = b.entity ++ (codes ":" ++ b.attribute);
  content = b.value;
  policy = policy_or_zero (parse_policy b.policy);
  w = b.w;
  client_ts = pos 0;
  orset_op = [];
  orset_elem = [];
  tombstone = false;
}

-- The request of `handleTag`, with 2 in place of a `W` of 0.
unfoldable pub tag_req : TagBody → Text → WriteReq
tag_req b op = record {
  key = b.entity ++ codes ":tags";
  content = [];
  policy = Policy.crdt_orset;
  w = if eq_int b.w (pos 0) then pos 2 else b.w;
  client_ts = pos 0;
  orset_op = op;
  orset_elem = b.tag;
  tombstone = false;
}

unfoldable pub handle_history : Text → Request → World → Response
handle_history self r w =
    let e = r.query (codes "entity") in
    let key =
      if not (eq_text e [])
      then e ++ (codes ":" ++ r.query (codes "attribute"))
      else r.query (codes "key") in
    write_json 200 (entries (Replica.history key (w self).replica))

unfoldable pub handle_facts : Text → Request → World → Response
handle_facts self r w =
    write_json 200 (facts (Kv.prefix (r.query (codes "entity") ++ codes ":") (w self).replica.kv))

-- The key and the quorum that `handleRead` reads with.
unfoldable pub read_args : ⦃json : Json⦄ → Request → Text × ℤ
read_args ⦃json⦄ r =
    let key = r.query (codes "key") in
    let rr = set_int (r.query (codes "r")) (pos 1) in
    if eq_text r.method (codes "POST")
    then elim (json.read_body r.body) [
      | decoded body ↦ (
        if not (eq_text body.key []) then body.key else key,
        if ltb_int (pos 0) body.r then body.r else rr,
      )
      | end_of_file ↦ (key, rr)
      | malformed ↦ (key, rr)
    ]
    else (key, rr)

module _ ⦃json : Json⦄ ⦃codec : Codec⦄ ⦃entries : EntryCodec⦄ where
  unfoldable pub handle_write : Text → Context → Request → World → World × Option Response
  handle_write self ctx r w = elim (json.write_body r.body) [
    | decoded b ↦ elim (parse_policy b.policy) [
      | none ↦ (w, some (write_json 400 (failed unknown_policy)))
      | some policy ↦ reply write_status (write self (write_req b policy) ctx.events w)
    ]
    | end_of_file ↦ (w, some (write_json 400 (failed bad_json)))
    | malformed ↦ (w, some (write_json 400 (failed bad_json)))
  ]

  unfoldable pub handle_read : Text → Context → Request → World → World × Option Response
  handle_read self ctx r w =
      let (key, rr) = read_args r in
      reply read_status (read self (record { key = key; r = rr }) ctx.fates ctx.answers w)

  unfoldable pub handle_delete : Text → Context → Request → World → World × Option Response
  handle_delete self ctx r w = elim (json.write_body r.body) [
    | decoded b ↦ reply write_status (delete self b.key b.w ctx.events w)
    | end_of_file ↦ (w, some (write_json 400 (failed bad_json)))
    | malformed ↦ (w, some (write_json 400 (failed bad_json)))
  ]

  unfoldable pub handle_fact : Text → Context → Request → World → World × Option Response
  handle_fact self ctx r w =
      let key = r.query (codes "entity") ++ (codes ":" ++ r.query (codes "attribute")) in
      let rr = set_int (r.query (codes "r")) (pos 2) in
      if eq_text r.method (codes "POST")
      then elim (json.fact_body r.body) [
        | decoded b ↦ reply write_status (write self (fact_req b) ctx.events w)
        | end_of_file ↦ (w, some (write_json 400 (failed bad_json)))
        | malformed ↦ (w, some (write_json 400 (failed bad_json)))
      ]
      else reply read_ok (read self (record { key = key; r = rr }) ctx.fates ctx.answers w)

  -- The branch of `handleTag` for another method than GET.
  unfoldable pub change_tag : Text → Context → Request → World → World × Option Response
  change_tag self ctx r w =
      let op = if eq_text r.method (codes "DELETE") then codes "remove" else codes "add" in
      elim (json.tag_body r.body) [
        | decoded b ↦ reply write_status (write self (tag_req b op) ctx.events w)
        | end_of_file ↦ (w, some (write_json 400 (failed bad_json)))
        | malformed ↦ (w, some (write_json 400 (failed bad_json)))
      ]

  unfoldable pub handle_tag : Text → Context → Request → World → World × Option Response
  handle_tag self ctx r w =
      if not (eq_text r.method (codes "GET"))
      then change_tag self ctx r w
      else reply read_ok (
          read self (record { key = r.query (codes "entity") ++ codes ":tags"; r = pos 2 })
            ctx.fates ctx.answers w)
