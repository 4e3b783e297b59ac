-- ===== src/Command/Start.antt =====
-- cmd/node/main.go, up to the server: from the flags and the environment to the node and its
-- transport. The id of a node is of ASCII and has no slash, so that its file stands in the folder
-- data. A file is its bytes, a missing one is empty.
pub mod Laws
use agent_memory.Prelude.{
  Bool, false, not, List, [], ◌∷◌, ◌++◌, Option, none, some, if◌then◌else◌, Text, codes, eq_text,
  to_lower,
}
use agent_memory.Prelude.Int.{ℤ, pos}
use agent_memory.Prelude.Order.{list_ord}
use agent_memory.Map.{Map, insert, empty}
use agent_memory.Conflict.Codec.{Codec}
use agent_memory.Store.Wal.{Wal, EntryCodec, open_wal}
use agent_memory.Cluster.{Peer, Membership}
use agent_memory.Cluster.Parse.{Parsed, ok, empty_peer_id, parse_peers}
use agent_memory.Net.Transport.{HttpTransport, new_http_transport}
use agent_memory.Node.Replica.{new_replica}
use agent_memory.Node.Lifecycle.{Running, Config, new, start_anti_entropy}

-- The flags that are given; `anti_entropy` is in nanoseconds.
pub record Flags : Type 0 where
  pub id : Option Text
  pub peers : Option Text
  pub wal : Option Text
  pub anti_entropy : Option ℤ

abbrev pub given : {A : Type 0} → Option A → A → A
given none d = d
given (some a) d = a

-- `vars` is the environment, where a missing variable is empty.
unfoldable pub env : (Text → Text) → Text → Text → Text
env vars key fallback = if not (eq_text (vars key) []) then vars key else fallback

-- Where the log of a node stands.
unfoldable pub wal_path : Text → Text → Text
wal_path self path =
    if eq_text path [] then codes "data/" ++ (to_lower self ++ codes ".wal") else path

-- The loop over the peers.
unfoldable pub addrs_of : List Peer → Map Text Text → Map Text Text
addrs_of [] m = m
addrs_of (p ∷ peers) m = addrs_of peers (insert p.id p.addr m)

pub record Started : Type 0 where
  pub running : Running
  pub net : HttpTransport

module _ ⦃codec : Codec⦄ ⦃entries : EntryCodec⦄ where
  -- From the open log on.
  unfoldable pub started_with : Text → Membership → Wal → ℤ → Started
  started_with self members wal every =
      let n = new (record {
        id = self;
        peers = members;
        replica = some (new_replica self (some wal));
        timeout = pos 0;
        anti_entropy_every = every;
        disable_read_repair = false;
      }) in
      record {
        running = record n { timers = start_anti_entropy n.timers };
        net = new_http_transport self (addrs_of members.peers empty);
      }

  -- The node on a membership, with the log that opened.
  unfoldable pub assemble : Text → Membership → (Text → Text) → Text → ℤ → Option Started
  assemble self members files path every = elim (open_wal (some (files (wal_path self path)))) [
    | none ↦ none
    | some wal ↦ some (started_with self members wal every)
  ]

  -- `none` is a fatal error, of the peers or of the log.
  unfoldable pub start : (Text → Text) → Flags → (Text → Text) → Option Started
  start vars flags files =
      let self = given flags.id (env vars (codes "NODE_ID") (codes "A")) in
      let peers = given flags.peers (env vars (codes "PEERS") []) in
      let path = given flags.wal (env vars (codes "WAL_PATH") []) in
      let every = given flags.anti_entropy (pos 500000000) in
      elim (parse_peers self peers) [
        | ok members ↦ assemble self members files path every
        | empty_peer_id members ↦ none
      ]
