-- ===== src/Node/Server/Link/Reads.antt =====
-- The calls of the HTTP transport that read, against the server of the peer.
use agent_memory.Prelude.{◌≡◌, refl, ap, ◌∙◌, Bool, false, [], Option, none, some, Text, codes}
use agent_memory.Map.{Map}
use agent_memory.Types.Value.{Value, zero_value}
use agent_memory.Conflict.Codec.{Codec}
use agent_memory.Store.Wal.{EntryCodec, Io}
use agent_memory.Net.Transport
use agent_memory.Net.Transport.{
  HttpTransport, ReplicateBody, KeyBody, HttpRequest, HttpResponse, Wire, url,
}
use agent_memory.Node.Coordinator.{delivered, serve_read, serve_digest, is_found, value_or_zero}
use agent_memory.Node.Server.{
  Request, Response, decoded, Json, Context, Site, write_json, found_value, values, failed,
  reads_disabled,
}
use agent_memory.Node.Server.Peer.{handle_internal_read, handle_digest}
use agent_memory.Node.Server.Routes.{Route, route, serve_route, serve}
use agent_memory.Node.Server.Link.{
  Speaks, Deployed, ask, encoded, client_do, route-read, route-digest, exchange_sent,
}

-- The value and `found` that the call returns.
abbrev pub told : Option (Option Value) → Value × Bool
told none = (zero_value, false)
told (some v) = (value_or_zero v, is_found v)

module _ ⦃wire : Wire⦄ ⦃json : Json⦄ ⦃codec : Codec⦄ ⦃entries : EntryCodec⦄
    (listens : Text → Option (Text × Text)) (ctx : Context) where
  -- What the call that reads makes of the answer.
  abbrev reading : Site × Option HttpResponse → Site × Option (Value × Bool)
  reading (s, resp) = (s, elim resp [ none ↦ none | some r ↦ wire.decode_read r.body ])

  -- The answer to a read of a peer.
  abbrev view : Option (Option Value) → Response
  view none = write_json 503 (failed reads_disabled)
  view (some v) = write_json 200 (found_value (value_or_zero v) (is_found v))

  read_view :
      (x : Option (Option Value))
      → Speaks wire json
      → wire.decode_read (json.encode (view x).body) ≡ some (told x)
  read_view none k = k.read_failed
  read_view (some v) k = k.read (value_or_zero v) (is_found v)

  serve-read :
      (id : Text) (c : Context) (r : Request) (s : Site) (key from : Text)
      → route r.path ≡ some Route.internal_read
      → json.key_body r.body ≡ decoded (record { key = key; from = from })
      → serve id c r s ≡ (s, some (view (serve_read key (s.nodes id))))
  unfolding serve serve_route handle_internal_read
  serve-read id c r s key from e d = rw (e, d, serve, handle_internal_read) refl

  ask-read :
      (to key : Text) (c : Context) (q : HttpRequest) (b : KeyBody) (s : Site)
      → Speaks wire json
      → q.body ≡ wire.marshal_key b
      → ask listens ctx to (codes "/internal/read") c q s
        ≡ (s, some (encoded (view (serve_read b.key (s.nodes to)))))
  unfolding ask
  ask-read to key c q b s k e =
      let req : Request = record {
        method = q.method;
        path = codes "/internal/read";
        query = λ k. [];
        body = q.body;
      } in
      let d : json.key_body q.body ≡ decoded b = rw e (k.key b) in
      rw (ask, serve-read to c req s b.key b.from route-read d) refl

  replicate_read_lem :
      (to key u : Text) (t : HttpTransport) (io : Io) (s : Site)
      → Speaks wire json
      → Deployed wire listens t
      → url to (codes "/internal/read") t ≡ some u
      → Transport.replicate_read (client_do listens ctx (delivered io)) to key t s
        ≡ (s, some (told (serve_read key (s.nodes to))))
  unfolding Transport.replicate_read ask
  replicate_read_lem to key u t io s k d e =
      let b : KeyBody = record { key = key; from = t.id } in
      let q : HttpRequest = record { method = codes "POST"; url = u; body = wire.marshal_key b } in
      ap reading (
        exchange_sent listens ctx to (codes "/internal/read") (codes "POST") q.body u t s
          (delivered io) d e
        ∙ ask-read to key (record ctx { io = io }) q b s k refl)
      ∙ ap (λ x. (s, x)) (read_view (serve_read key (s.nodes to)) k)

  serve-digest :
      (id : Text) (c : Context) (r : Request) (s : Site)
      → route r.path ≡ some Route.digest
      → serve id c r s ≡ (s, some (write_json 200 (values (serve_digest (s.nodes id)))))
  unfolding serve serve_route handle_digest
  serve-digest id c r s e = rw (e, serve, handle_digest) refl

  ask-digest :
      (to : Text) (c : Context) (q : HttpRequest) (s : Site)
      → ask listens ctx to (codes "/internal/digest") c q s
        ≡ (s, some (encoded (write_json 200 (values (serve_digest (s.nodes to))))))
  unfolding ask
  ask-digest to c q s =
      let req : Request = record {
        method = q.method;
        path = codes "/internal/digest";
        query = λ k. [];
        body = q.body;
      } in
      rw (ask, serve-digest to c req s route-digest) refl

  abbrev mapping : Site × Option HttpResponse → Site × Option (Map Text Value)
  mapping (s, resp) = (s, elim resp [ none ↦ none | some r ↦ wire.decode_digest r.body ])

  get_digest_lem :
      (to u : Text) (t : HttpTransport) (io : Io) (s : Site)
      → Speaks wire json
      → Deployed wire listens t
      → url to (codes "/internal/digest") t ≡ some u
      → Transport.get_digest (client_do listens ctx (delivered io)) to t s
        ≡ (s, some (serve_digest (s.nodes to)))
  unfolding Transport.get_digest
  get_digest_lem to u t io s k d e =
      let q : HttpRequest = record { method = codes "GET"; url = u; body = [] } in
      ap mapping (
        exchange_sent listens ctx to (codes "/internal/digest") (codes "GET") [] u t s
          (delivered io) d e
        ∙ ask-digest to (record ctx { io = io }) q s)
      ∙ ap (λ x. (s, x)) (k.digest (serve_digest (s.nodes to)))

  -- The calls of the HTTP transport that read, against the server of the peer, change nothing; they
  -- return the peer's digest, and the peer's value for the key, but a peer with its reads disabled
  -- answers as one that has no value. It holds for a request that gets through to a peer with an
  -- address, if the two ends agree on their JSON and each address is where the server of its peer
  -- listens.
  pub peer_reads :
      (to key u v : Text) (t : HttpTransport) (io : Io) (s : Site)
      → Speaks wire json
      → Deployed wire listens t
      → url to (codes "/internal/read") t ≡ some u
      → url to (codes "/internal/digest") t ≡ some v
      → (Transport.replicate_read (client_do listens ctx (delivered io)) to key t s
          ≡ (s, some (told (serve_read key (s.nodes to)))))
        × (Transport.get_digest (client_do listens ctx (delivered io)) to t s
            ≡ (s, some (serve_digest (s.nodes to))))
  peer_reads to key u v t io s k d e f =
      (replicate_read_lem to key u t io s k d e, get_digest_lem to v t io s k d f)
