-- ===== src/Node/Server/Link/Writes.antt =====
-- The calls of the HTTP transport that write, against the server of the peer.
use agent_memory.Prelude.{
  ◌≡◌, refl, ap, ◌∙◌, Bool, true, false, [], Option, none, some, if◌then◌else◌, Text, codes,
  Option-cases, inl, inr,
}
use agent_memory.Types.Value.{Value}
use agent_memory.Conflict.Codec.{Codec}
use agent_memory.Store.Wal.{EntryCodec, Io}
use agent_memory.Net.Transport
use agent_memory.Net.Transport.{
  HttpTransport, ReplicateBody, KeyBody, HttpRequest, HttpResponse, Wire, url,
}
use agent_memory.Node.Coordinator
use agent_memory.Node.Coordinator.{
  World, Fate, delivered, reply_lost, lost, update, apply_replicate, serve_read, serve_digest,
  is_found, value_or_zero,
}
use agent_memory.Node.Server.{
  Request, Response, decoded, Json, Context, Site, write_json, done, failed, wal_failed,
}
use agent_memory.Node.Server.Peer.{handle_replicate}
use agent_memory.Node.Server.Routes.{Route, route, serve_route, serve}
use agent_memory.Node.Server.Link.{
  Speaks, Deployed, ask, encoded, client_do, fate_through, route-replicate, route-hint,
  exchange_lost, exchange_sent,
}

-- The site after a write came to a node, and whether it took it.
abbrev pub after_write :
    ⦃codec : Codec⦄ ⦃entries : EntryCodec⦄ → Fate → Text → Text → Value → Site → Site × Bool
after_write fate to key val s =
    let (w, good) = Coordinator.replicate_write fate to key val s.nodes in
    (record s { nodes = w }, good)

module _ ⦃wire : Wire⦄ ⦃json : Json⦄ ⦃codec : Codec⦄ ⦃entries : EntryCodec⦄
    (listens : Text → Option (Text × Text)) (ctx : Context) where
  -- The answer to a write of a peer.
  abbrev taken : Bool → Response
  taken good = if good then write_json 200 done else write_json 500 (failed wal_failed)

  handle_replicate_lem :
      (id : Text) (c : Context) (r : Request) (b : ReplicateBody) (w : World)
      → json.replicate_body r.body ≡ decoded b
      → handle_replicate id c r w ≡ (
        update id (apply_replicate c.io b.key b.value (w id)).0 w,
        taken (apply_replicate c.io b.key b.value (w id)).1,
      )
  unfolding handle_replicate
  handle_replicate_lem id c r b w d = rw (d, handle_replicate) refl

  serve-replicate :
      (id : Text) (c : Context) (r : Request) (s : Site)
      → route r.path ≡ some Route.replicate
      → serve id c r s ≡ (
        record s { nodes = (handle_replicate id c r s.nodes).0 },
        some ((handle_replicate id c r s.nodes).1),
      )
  unfolding serve serve_route
  serve-replicate id c r s e = rw (e, serve) refl

  -- What the two calls that write make of the answer, and the call.
  abbrev verdict : Site × Option HttpResponse → Site × Bool
  verdict (s, resp) = (s, Transport.is_success resp)

  abbrev letter : HttpTransport → Text → Value → ReplicateBody
  letter t key val = record { key = key; value = val; from = t.id }

  abbrev send :
      Text → Fate → Text → Text → Value → HttpTransport → Site → Site × Option HttpResponse
  send path fate to key val t s =
      Transport.exchange (client_do listens ctx fate) to path (codes "POST")
        (wire.marshal_replicate (letter t key val)) t s

  taken_status : (good : Bool) → Transport.is_success (some (encoded (taken good))) ≡ good
  taken_status true = refl
  taken_status false = refl

  ask-replicate :
      (id path : Text) (io : Io) (q : HttpRequest) (b : ReplicateBody) (s : Site)
      → Speaks wire json
      → route path ≡ some Route.replicate
      → q.body ≡ wire.marshal_replicate b
      → ask listens ctx id path (record ctx { io = io }) q s ≡ (
        (after_write (delivered io) id b.key b.value s).0,
        some (encoded (taken (after_write (delivered io) id b.key b.value s).1)),
      )
  unfolding ask Coordinator.replicate_write
  ask-replicate id path io q b s k r e =
      let c : Context = record ctx { io = io } in
      let req : Request = record {
        method = q.method;
        path = path;
        query = λ k. [];
        body = q.body;
      } in
      let d : json.replicate_body q.body ≡ decoded b = rw e (k.replicate b) in
      rw (ask, serve-replicate id c req s r, handle_replicate_lem id c req b s.nodes d) refl

  verdict-send :
      (path to key u : Text) (val : Value) (t : HttpTransport) (fate : Fate) (s : Site)
      → Speaks wire json
      → Deployed wire listens t
      → route path ≡ some Route.replicate
      → url to path t ≡ some u
      → verdict (send path fate to key val t s) ≡ after_write fate to key val s
  unfolding Coordinator.replicate_write
  verdict-send path to key u val t (delivered io) s k d r e =
      let q : HttpRequest = record {
        method = codes "POST";
        url = u;
        body = wire.marshal_replicate (letter t key val);
      } in
      ap verdict (
        exchange_sent listens ctx to path (codes "POST") (wire.marshal_replicate (letter t key val))
          u t s (delivered io) d e
        ∙ ask-replicate to path io q (letter t key val) s k r refl)
      ∙ ap (λ b. ((after_write (delivered io) to key val s).0, b))
          (taken_status (after_write (delivered io) to key val s).1)
  verdict-send path to key u val t (reply_lost io) s k d r e =
      let q : HttpRequest = record {
        method = codes "POST";
        url = u;
        body = wire.marshal_replicate (letter t key val);
      } in
      ap verdict (
        exchange_sent listens ctx to path (codes "POST") (wire.marshal_replicate (letter t key val))
          u t s (reply_lost io) d e
        ∙ ap (λ p. (p.0, none)) (ask-replicate to path io q (letter t key val) s k r refl))
  verdict-send path to key u val t lost s k d r e = ap verdict (
      exchange_sent listens ctx to path (codes "POST") (wire.marshal_replicate (letter t key val)) u
        t s lost d e)

  verdict_lem :
      (path to key : Text) (val : Value) (t : HttpTransport) (fate : Fate) (s : Site)
      → Speaks wire json
      → Deployed wire listens t
      → route path ≡ some Route.replicate
      → verdict (send path fate to key val t s)
        ≡ after_write (fate_through t to path fate) to key val s
  unfolding fate_through Coordinator.replicate_write
  verdict_lem path to key val t fate s k d r = elim (Option-cases (url to path t)) [
    | inl e ↦
        ap verdict (
          exchange_lost listens ctx to path (codes "POST")
            (wire.marshal_replicate (letter t key val)) t s fate e)
        ∙ rw (fate_through, e, Coordinator.replicate_write) refl
    | inr (u, e) ↦ rw (fate_through, e) (verdict-send path to key u val t fate s k d r e)
  ]

  -- The calls of the HTTP transport that write, against the server of the peer, do to the nodes and
  -- report what the transport of the coordinator's model does, under the fate of the request, or a
  -- lost one where the peer is blocked or has no address; if the two ends agree on their JSON and
  -- each address is where the server of its peer listens.
  pub replicate_write_lem :
      (to key : Text) (val : Value) (t : HttpTransport) (fate : Fate) (s : Site)
      → Speaks wire json
      → Deployed wire listens t
      → (Transport.replicate_write (client_do listens ctx fate) to key val t s
          ≡ after_write (fate_through t to (codes "/internal/replicate") fate) to key val s)
        × (Transport.replay_hint (client_do listens ctx fate) to key val t s
            ≡ after_write (fate_through t to (codes "/internal/hint") fate) to key val s)
  unfolding Transport.replicate_write Transport.replay_hint
  replicate_write_lem to key val t fate s k d = (
    verdict_lem (codes "/internal/replicate") to key val t fate s k d route-replicate,
    verdict_lem (codes "/internal/hint") to key val t fate s k d route-hint,
  )
