-- ===== src/Net/Transport.antt =====
-- internal/net/transport.go: the HTTP client of a node, with its local switch against peers. The body
-- of a request and of an answer is bytes. `Client.Do` is a parameter of the calls, and what they use
-- of encoding/json and net/url is the interface `Wire`.
pub mod Switch
use agent_memory.Prelude.{
  ℕ, Bool, true, false, not, ◌&&◌, List, [], ◌∷◌, ◌++◌, Option, none, some, if◌then◌else◌, Text,
  codes, eq_text, elem, length, ltb, leb, take,
}
use agent_memory.Prelude.Order.{list_ord}
use agent_memory.Map.{Map, lookup, insert, delete, empty}
use agent_memory.Types.Value.{Value}

-- `replicateBody` and `readBody`
pub record ReplicateBody : Type 0 where
  pub key : Text
  pub value : Value
  pub from : Text

pub record KeyBody : Type 0 where
  pub key : Text
  pub from : Text

-- A request and an answer on the wire.
pub record HttpRequest : Type 0 where
  pub method : Text
  pub url : Text
  pub body : Text

pub record HttpResponse : Type 0 where
  pub status : ℕ
  pub body : Text

-- `Marshal` and `Decode` at the types that the transport uses them at, and whether a URL parses. For a
-- map that is missing or null `decode_digest` gives the empty map.
pub record Wire : Type 0 where
  pub marshal_replicate : ReplicateBody → Text
  pub marshal_key : KeyBody → Text
  pub decode_read : Text → Option (Value × Bool)
  pub decode_digest : Text → Option (Map Text Value)
  pub is_url : Text → Bool

-- Without the client.
pub record HttpTransport : Type 0 where
  pub id : Text
  pub addrs : Map Text Text
  pub deny : Map Text Bool

unfoldable pub new_http_transport : Text → Map Text Text → HttpTransport
new_http_transport id addrs = record { id = id; addrs = addrs; deny = empty }

unfoldable pub set_deny : List Text → Bool → HttpTransport → HttpTransport
set_deny [] deny t = t
set_deny (id ∷ ids) deny t =
    let switched : HttpTransport = record t {
      deny = if deny then insert id true t.deny else delete id t.deny;
    } in
    set_deny ids deny switched

unfoldable pub block : List Text → HttpTransport → HttpTransport
block ids t = set_deny ids true t

unfoldable pub unblock : List Text → HttpTransport → HttpTransport
unblock [] t = record t { deny = empty }
unblock (id ∷ ids) t = set_deny (id ∷ ids) false t

-- A missing key reads as the zero value.
unfoldable pub is_blocked : Text → HttpTransport → Bool
is_blocked id t = elim (lookup id t.deny) [ none ↦ false | some b ↦ b ]

unfoldable pub addr_of : Text → HttpTransport → Text
addr_of id t = elim (lookup id t.addrs) [ none ↦ [] | some a ↦ a ]

-- `none` is the error: the peer is blocked or has no address.
unfoldable pub url : Text → Text → HttpTransport → Option Text
url to path t =
    let addr = addr_of to t in
    if is_blocked to t
    then none
    else if eq_text addr []
    then none
    else if leb 4 (length addr) && eq_text (take 4 addr) (codes "http")
    then some (addr ++ path)
    else some (codes "http://" ++ (addr ++ path))

-- A status below 300.
abbrev pub is_success : Option HttpResponse → Bool
is_success none = false
is_success (some r) = not (leb 300 r.status)

module _ {S : Type 0} ⦃wire : Wire⦄ (client_do : HttpRequest → S → S × Option HttpResponse) where
  -- From the URL to the answer; `none` is an error on the way.
  unfoldable pub exchange : Text → Text → Text → Text → HttpTransport → S → S × Option HttpResponse
  exchange to path method body t s = elim (url to path t) [
    | none ↦ (s, none)
    | some u ↦
        if not (wire.is_url u)
        then (s, none)
        else client_do (record { method = method; url = u; body = body }) s
  ]

  -- The results of the calls: whether the error is nil, or `none` for an error.
  unfoldable pub replicate_write : Text → Text → Value → HttpTransport → S → S × Bool
  replicate_write to key val t s =
      let b : ReplicateBody = record { key = key; value = val; from = t.id } in
      let (s', resp) =
        exchange to (codes "/internal/replicate") (codes "POST") (wire.marshal_replicate b) t s in
      (s', is_success resp)

  unfoldable pub replicate_read : Text → Text → HttpTransport → S → S × Option (Value × Bool)
  replicate_read to key t s =
      let b : KeyBody = record { key = key; from = t.id } in
      let (s', resp) =
        exchange to (codes "/internal/read") (codes "POST") (wire.marshal_key b) t s in
      (s', elim resp [ none ↦ none | some r ↦ wire.decode_read r.body ])

  unfoldable pub get_digest : Text → HttpTransport → S → S × Option (Map Text Value)
  get_digest to t s =
      let (s', resp) = exchange to (codes "/internal/digest") (codes "GET") [] t s in
      (s', elim resp [ none ↦ none | some r ↦ wire.decode_digest r.body ])

  unfoldable pub replay_hint : Text → Text → Value → HttpTransport → S → S × Bool
  replay_hint to key val t s =
      let b : ReplicateBody = record { key = key; value = val; from = t.id } in
      let (s', resp) =
        exchange to (codes "/internal/hint") (codes "POST") (wire.marshal_replicate b) t s in
      (s', is_success resp)
