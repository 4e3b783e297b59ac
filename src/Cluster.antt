-- ===== src/Cluster.antt =====
-- internal/cluster/membership.go: the static membership and its configuration string.
pub mod Parse
pub mod Laws
pub mod Others
use agent_memory.Prelude.{
  ℕ, zero, suc, ◌+◌, Bool, true, false, not, ◌&&◌, ◌||◌, List, [], ◌∷◌, if◌then◌else◌, Text,
  eq_text, length, ltb, leb,
}
use agent_memory.Prelude.Int.{ℤ, pos, ltb_int, sub_int}

pub record Peer : Type 0 where
  pub id : Text
  pub addr : Text

pub record Membership : Type 0 where
  pub self : Text
  pub peers : List Peer

unfoldable pub n : Membership → ℕ
n m = length m.peers

unfoldable pub ids_of : List Peer → List Text
ids_of [] = []
ids_of (p ∷ peers) = p.id ∷ ids_of peers

unfoldable pub ids : Membership → List Text
ids m = ids_of m.peers

unfoldable pub addr_from : Text → List Peer → Text
addr_from id [] = []
addr_from id (p ∷ peers) = if eq_text p.id id then p.addr else addr_from id peers

unfoldable pub addr : Text → Membership → Text
unfolding addr_from
addr id m = addr_from id m.peers

unfoldable pub others_from : Text → List Peer → List Peer
others_from self [] = []
others_from self (p ∷ peers) =
    let rest = others_from self peers in if not (eq_text p.id self) then p ∷ rest else rest

unfoldable pub others : Membership → List Peer
others m = others_from m.self m.peers

unfoldable pub quorum_ok : ℤ → ℤ → Bool
quorum_ok got required = ltb_int (pos 0) required && not (ltb_int got required)

unfoldable pub write_fails : ℤ → ℤ → ℤ → Bool
write_fails n w unreachable = ltb_int (sub_int n unreachable) w
