-- ===== src/Node/Server/Link.antt =====
-- The HTTP transport of one node against the servers of the others: what a call comes to in a cluster
-- where the address of each peer is where its server listens.
pub mod Writes
pub mod Reads
use agent_memory.Prelude.{
  ◌≡◌, refl, ap, ◌∙◌, Bool, true, false, not, List, [], ◌∷◌, Option, none, some, if◌then◌else◌,
  Text, codes, arith, leb, eq_text, Bool-cases, Option-cases, inl, inr,
}
use agent_memory.Map.{Map}
use agent_memory.Types.Value.{Value, zero_value}
use agent_memory.Conflict.Codec.{Codec}
use agent_memory.Store.Wal.{EntryCodec, Io}
use agent_memory.Net.Transport
use agent_memory.Net.Transport.{
  HttpTransport, ReplicateBody, KeyBody, HttpRequest, HttpResponse, Wire, url,
}
use agent_memory.Node.Coordinator
use agent_memory.Node.Coordinator.{
  World, Fate, delivered, reply_lost, lost, update, apply_replicate, serve_read, serve_digest,
  is_found, value_or_zero,
}
use agent_memory.Node.Server.{
  Request, Response, decoded, Json, Context, Site, write_json, done, found_value, values, failed,
  reads_disabled, wal_failed,
}
use agent_memory.Node.Server.Peer.{handle_replicate, handle_internal_read, handle_digest}
use agent_memory.Node.Server.Routes.{Route, route, route_in, serve_route, serve}

-- What encoding/json promises between the two ends.
pub record Speaks (wire : Wire) (json : Json) : Type 0 where
  pub replicate : (b : ReplicateBody) → json.replicate_body (wire.marshal_replicate b) ≡ decoded b
  pub key : (b : KeyBody) → json.key_body (wire.marshal_key b) ≡ decoded b
  pub read :
      (v : Value) (found : Bool)
      → wire.decode_read (json.encode (found_value v found)) ≡ some (v, found)
  -- No field of the answer is in the object, so that they keep their zero values.
  pub read_failed :
      wire.decode_read (json.encode (failed reads_disabled)) ≡ some (zero_value, false)
  pub digest : (m : Map Text Value) → wire.decode_digest (json.encode (values m)) ≡ some m

-- `listens` gives the node whose server a URL reaches, and the path.
pub record Deployed (wire : Wire) (listens : Text → Option (Text × Text)) (t : HttpTransport)
    : Type 0 where
  pub reaches : (to path u : Text) → url to path t ≡ some u → listens u ≡ some (to, path)
  pub parses : (to path u : Text) → url to path t ≡ some u → wire.is_url u ≡ true

pub route-replicate : route (codes "/internal/replicate") ≡ some Route.replicate
unfolding route route_in eq_text
route-replicate = refl

pub route-hint : route (codes "/internal/hint") ≡ some Route.replicate
unfolding route route_in eq_text
route-hint = refl

pub route-read : route (codes "/internal/read") ≡ some Route.internal_read
unfolding route route_in eq_text
route-read = refl

pub route-digest : route (codes "/internal/digest") ≡ some Route.digest
unfolding route route_in eq_text
route-digest = refl

-- An answer on the wire.
abbrev pub encoded : ⦃json : Json⦄ → Response → HttpResponse
encoded ⦃json⦄ r = record { status = r.status; body = json.encode r.body }

-- The fate of a request through the switch and the addresses of the transport.
unfoldable pub fate_through : HttpTransport → Text → Text → Fate → Fate
fate_through t to path fate = elim (url to path t) [ none ↦ lost | some u ↦ fate ]

module _ ⦃wire : Wire⦄ ⦃json : Json⦄ ⦃codec : Codec⦄ ⦃entries : EntryCodec⦄
    (listens : Text → Option (Text × Text)) (ctx : Context) where
  -- The server of a node, at a request without a query.
  unfoldable pub ask : Text → Text → Context → HttpRequest → Site → Site × Option HttpResponse
  ask id path c q s =
      let (s', resp) =
        serve id c (record { method = q.method; path = path; query = λ k. []; body = q.body }) s in
      (s', elim resp [ none ↦ none | some r ↦ some (encoded r) ])

  -- `Client.Do` under a fate of the request.
  unfoldable pub client_do : Fate → HttpRequest → Site → Site × Option HttpResponse
  client_do fate q s = elim (listens q.url) [
    | none ↦ (s, none)
    | some (id, path) ↦ elim fate [
      | delivered io ↦ ask id path (record ctx { io = io }) q s
      | reply_lost io ↦ ((ask id path (record ctx { io = io }) q s).0, none)
      | lost ↦ (s, none)
    ]
  ]

  pub exchange_lost :
      (to path method body : Text) (t : HttpTransport) (s : Site) (fate : Fate)
      → url to path t ≡ none
      → Transport.exchange (client_do fate) to path method body t s ≡ (s, none)
  unfolding Transport.exchange
  exchange_lost to path method body t s fate e = rw (e, Transport.exchange) refl

  pub exchange_sent :
      (to path method body u : Text) (t : HttpTransport) (s : Site) (fate : Fate)
      → Deployed wire listens t
      → url to path t ≡ some u
      → Transport.exchange (client_do fate) to path method body t s ≡ elim fate [
        | delivered io ↦
            ask to path
              (record ctx { io = io })
              (record { method = method; url = u; body = body })
              s
        | reply_lost io ↦ (
          (ask to path
              (record ctx { io = io })
              (record { method = method; url = u; body = body })
              s).0,
          none,
        )
        | lost ↦ (s, none)
      ]
  unfolding Transport.exchange client_do
  exchange_sent to path method body u t s fate d e =
      rw (e, Transport.exchange, d.parses to path u e, client_do, d.reaches to path u e) refl
