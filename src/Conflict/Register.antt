-- ===== src/Conflict/Register.antt =====
-- internal/conflict/crdt_lwwreg.go: the last-write-wins register as a state-based CRDT.
pub mod Laws
use agent_memory.Prelude.{
  Bool, true, false, not, Option, none, some, Ordering, if◌then◌else◌, Text, length, ltb,
}
use agent_memory.Prelude.Order.{cmp_list, is_ge, is_eq}
use agent_memory.Types.Version.{Version, compare_version, is_zero}
use agent_memory.Types.Value.{Value, Policy, eq_bool}
use agent_memory.Conflict.Codec.{LwwReg, Codec}

unfoldable pub new_lwwreg : Text → Version → Bool → LwwReg
new_lwwreg content ts tombstone = record { content = content; ts = ts; tombstone = tombstone }

unfoldable pub cmp_lwwreg : LwwReg → LwwReg → Ordering
cmp_lwwreg a b =
    let c = compare_version a.ts b.ts in
    if not (is_eq c)
    then c
    else if not (eq_bool a.tombstone b.tombstone)
    then (if a.tombstone then Ordering.gt else Ordering.lt)
    else cmp_list a.content b.content

module _ ⦃codec : Codec⦄ where
  unfoldable pub decode_lwwreg : Value → LwwReg
  decode_lwwreg v =
      let plain : LwwReg = record {
        content = v.content;
        ts = v.version;
        tombstone = v.tombstone;
      } in
      if ltb 0 (length v.crdt)
      then elim (codec.unmarshal_lwwreg v.crdt) [
        | none ↦ plain
        | some r ↦ if not (is_zero r.ts) then r else plain
      ]
      else plain

  unfoldable pub encode_lwwreg : LwwReg → Value
  encode_lwwreg r = record {
    content = r.content;
    version = r.ts;
    policy = Policy.crdt_lwwreg;
    tombstone = r.tombstone;
    crdt = codec.marshal_lwwreg r;
  }

  unfoldable pub merge_lwwreg : Value → Value → Value
  merge_lwwreg a b =
      let ra = decode_lwwreg a in
      let rb = decode_lwwreg b in
      if is_ge (cmp_lwwreg ra rb) then encode_lwwreg ra else encode_lwwreg rb

  unfoldable pub apply_lwwreg_write : Value → Bool → Text → Version → Bool → Value
  unfolding new_lwwreg
  apply_lwwreg_write current found content ts tombstone =
      let incoming = encode_lwwreg (new_lwwreg content ts tombstone) in
      if not found then incoming else merge_lwwreg current incoming
