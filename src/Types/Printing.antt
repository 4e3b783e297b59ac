-- ===== src/Types/Printing.antt =====
-- `Policy.String` and `Version.String` of internal/types/types.go.
use agent_memory.Prelude.{
  ◌+◌, ◌≡◌, refl, ◌∷◌, ◌++◌, Option, none, some, Text, codes, eq_text, digits,
}
use agent_memory.Prelude.Int.{ℤ, pos, negsuc}
use agent_memory.Types.Version.{Version}
use agent_memory.Types.Value.{Policy, parse_policy}

-- %d at an int of 64 bits
unfoldable pub show_int : ℤ → Text
show_int (pos n) = digits 20 n
show_int (negsuc n) = b'-' ∷ digits 20 (n + 1)

unfoldable pub policy_string : Policy → Text
policy_string Policy.lww = codes "LWW"
policy_string Policy.crdt_lwwreg = codes "CRDT_LWWREG"
policy_string Policy.crdt_orset = codes "CRDT_ORSET"
policy_string (Policy.other p) = codes "Policy(" ++ (show_int p ++ codes ")")

unfoldable pub version_string : Version → Text
version_string v = digits 20 v.lamport ++ (codes "@" ++ v.node_id)

-- The policy that stands behind a text again.
abbrev pub named : Policy → Option Policy
named (Policy.other p) = none
named p = some p

-- A named policy is read back from its text; no other parses.
pub parse_policy-policy_string : (p : Policy) → parse_policy (policy_string p) ≡ named p
unfolding parse_policy policy_string eq_text
parse_policy-policy_string Policy.lww = refl
parse_policy-policy_string Policy.crdt_lwwreg = refl
parse_policy-policy_string Policy.crdt_orset = refl
parse_policy-policy_string (Policy.other p) = refl
