-- ===== src/Tests/Cluster.antt =====
-- The theorems on the membership at concrete inputs.
use agent_memory.Prelude.{◌≡◌, refl, [], ◌∷◌, Text, codes, eq_text}
use agent_memory.Cluster.{Membership}
use agent_memory.Cluster.Parse.{
  ok, has_id, parse_peers, trim_space, scan_parts, split_comma, peer_of, cut_equals, sort_peers,
  insert_peer,
}

abbrev spec : Text
spec = codes "n2=:9002, n1,"

abbrev parsed : Membership
parsed = record {
  self = codes "n1";
  peers =
      record { id = codes "n1"; addr = [] } ∷ record { id = codes "n2"; addr = codes ":9002" } ∷ [];
}

parses : parse_peers (codes "n1") spec ≡ ok parsed
unfolding parse_peers eq_text trim_space scan_parts split_comma peer_of cut_equals has_id sort_peers
    insert_peer
parses = refl
