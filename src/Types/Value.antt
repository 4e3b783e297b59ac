-- ===== src/Types/Value.antt =====
-- The values and the messages of internal/types/types.go. A Go slice is a list, so that nil and the
-- empty slice are one, as they are for `bytes.Equal` and `len`. Values are immutable here, and
-- `Clone` copies nothing: the code never writes to a byte slice that it has stored.
use agent_memory.Prelude.{
  ℕ, ◌≡◌, ◌↔◌, Bool, true, false, ◌&&◌, ◌||◌, Option, none, some, [], if◌then◌else◌, Text, codes,
  eq_text, eq_text_iff, arith,
}
use agent_memory.Prelude.Int.{ℤ, eq_int, eq_int_iff}
use agent_memory.Types.Version.{Version, zero_version, equal_version, equal_version_iff}

-- `Policy` is an int with three named values; a peer may send any other.
pub data Policy : Type 0 where
  lww crdt_lwwreg crdt_orset : Policy
  other : ℤ → Policy

-- p == q
abbrev pub eq_policy : Policy → Policy → Bool
eq_policy lww lww = true
eq_policy crdt_lwwreg crdt_lwwreg = true
eq_policy crdt_orset crdt_orset = true
eq_policy (other a) (other b) = eq_int a b
eq_policy _ _ = false

pub eq_policy_iff : (p q : Policy) → (eq_policy p q ≡ true) ↔ (p ≡ q)
eq_policy_iff (other a) (other b) = ground (arith, eq_int_iff a b)
eq_policy_iff lww q = ground arith
eq_policy_iff crdt_lwwreg q = ground arith
eq_policy_iff crdt_orset q = ground arith
eq_policy_iff (other a) q = ground arith

-- `none` is the error.
unfoldable pub parse_policy : Text → Option Policy
parse_policy s =
    if eq_text s [] || (eq_text s (codes "LWW") || eq_text s (codes "lww"))
    then some lww
    else if eq_text s (codes "CRDT_LWWREG")
        || (eq_text s (codes "crdt_lwwreg") || eq_text s (codes "lwwreg"))
    then some crdt_lwwreg
    else if eq_text s (codes "CRDT_ORSET")
        || (eq_text s (codes "crdt_orset") || eq_text s (codes "orset"))
    then some crdt_orset
    else none

-- `content` is the field `Data`.
pub record Value : Type 0 where
  pub content : Text
  pub version : Version
  pub policy : Policy
  pub tombstone : Bool
  pub crdt : Text

-- `types.Value{}`
abbrev pub zero_value : Value
zero_value = record {
  content = [];
  version = zero_version;
  policy = lww;
  tombstone = false;
  crdt = [];
}

-- a == b on bool
abbrev pub eq_bool : Bool → Bool → Bool
eq_bool true b = b
eq_bool false true = false
eq_bool false false = true

unfoldable pub equal_value : Value → Value → Bool
equal_value v o =
    equal_version v.version o.version
    && (eq_policy v.policy o.policy
        && (eq_bool v.tombstone o.tombstone
            && (eq_text v.content o.content && eq_text v.crdt o.crdt)))

pub equal_value_iff : (v o : Value) → (equal_value v o ≡ true) ↔ (v ≡ o)
unfolding equal_value
equal_value_iff v o = ground (
  arith,
  equal_version_iff v.version o.version,
  eq_policy_iff v.policy o.policy,
  eq_text_iff v.content o.content,
  eq_text_iff v.crdt o.crdt,
)

-- A replica's answer to a read.
pub record ReplicaView : Type 0 where
  pub node_id : Text
  pub value : Value
  pub found : Bool

pub record WriteReq : Type 0 where
  pub key : Text
  pub content : Text
  pub policy : Policy
  pub w : ℤ
  pub client_ts : ℤ
  pub orset_op : Text
  pub orset_elem : Text
  pub tombstone : Bool

pub record ReadReq : Type 0 where
  pub key : Text
  pub r : ℤ

pub record HistoryEntry : Type 0 where
  pub seq : ℕ
  pub key : Text
  pub value : Value
