-- ===== src/Node/Server/Peer.antt =====
-- The handlers of internal/node/server.go that the other nodes call.
use agent_memory.Prelude.{none, some, if◌then◌else◌, Text}
use agent_memory.Conflict.Codec.{Codec}
use agent_memory.Store.Wal.{EntryCodec}
use agent_memory.Node.Coordinator.{
  World, update, apply_replicate, serve_read, serve_digest, is_found, value_or_zero,
}
use agent_memory.Node.Server.{
  Request, Response, decoded, end_of_file, malformed, Json, Context, write_json, done, found_value,
  values, failed, bad_json, wal_failed, reads_disabled,
}

unfoldable pub handle_internal_read : ⦃json : Json⦄ → Text → Request → World → Response
handle_internal_read ⦃json⦄ self r w = elim (json.key_body r.body) [
  | decoded b ↦ elim (serve_read b.key (w self)) [
    | none ↦ write_json 503 (failed reads_disabled)
    | some v ↦ write_json 200 (found_value (value_or_zero v) (is_found v))
  ]
  | end_of_file ↦ write_json 400 (failed bad_json)
  | malformed ↦ write_json 400 (failed bad_json)
]

-- The error of `ServeDigest` is always nil.
unfoldable pub handle_digest : Text → World → Response
handle_digest self w = write_json 200 (values (serve_digest (w self)))

module _ ⦃json : Json⦄ ⦃codec : Codec⦄ ⦃entries : EntryCodec⦄ where
  -- It serves the hints too.
  unfoldable pub handle_replicate : Text → Context → Request → World → World × Response
  handle_replicate self ctx r w = elim (json.replicate_body r.body) [
    | decoded b ↦
        let (n, good) = apply_replicate ctx.io b.key b.value (w self) in
        (update self n w, if good then write_json 200 done else write_json 500 (failed wal_failed))
    | end_of_file ↦ (w, write_json 400 (failed bad_json))
    | malformed ↦ (w, write_json 400 (failed bad_json))
  ]
