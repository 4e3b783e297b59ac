-- ===== src/Node/Coordinator/Prepare.antt =====
-- The payload of a write belongs to the policy of the request.
use agent_memory.Prelude.{
  ◌≡◌, refl, Bool, true, false, Option, none, some, if◌then◌else◌, Text, codes, eq_text, arith, sym,
  ap, Bool-cases, inl, inr,
}
use agent_memory.Types.Version.{Version}
use agent_memory.Types.Clock.{tick}
use agent_memory.Types.Value.{Value, Policy, WriteReq}
use agent_memory.Conflict.Codec.{Codec, OrSet}
use agent_memory.Conflict.Register.{encode_lwwreg, apply_lwwreg_write}
use agent_memory.Conflict.Register.Laws
use agent_memory.Conflict.Register.Laws.{IsRegister, merge-IsRegister}
use agent_memory.Conflict.OrSet.{
  empty_orset, add, remove, decode_orset, encode_orset, apply_orset_op,
}
use agent_memory.Conflict.OrSet.Canonical.{
  IsCanonical, IsCanonical-IsOrSet, add-IsCanonical, remove-IsCanonical,
}
use agent_memory.Conflict.OrSet.Merge
use agent_memory.Conflict.OrSet.Merge.{IsOrSetValue}
use agent_memory.Conflict.Resolve.Laws.{IsOf}
use agent_memory.Node.Replica
use agent_memory.Node.Replica.{Replica}
use agent_memory.Node.Replica.Above.{IsUnder}
use agent_memory.Node.Coordinator.{
  Node, local_prepare, start_write, next_orset_tag, is_found, value_or_zero,
}

-- The policy that a write has in the end: an unknown one counts as LWW.
abbrev pub policy_of : WriteReq → Policy
policy_of req = elim req.policy [
  | Policy.crdt_orset ↦ Policy.crdt_orset
  | Policy.crdt_lwwreg ↦ Policy.crdt_lwwreg
  | _ ↦ Policy.lww
]

module _ ⦃codec : Codec⦄ where
  encode-IsRegister : (r : _) → IsRegister (encode_lwwreg r)
  encode-IsRegister r = ap encode_lwwreg (sym (Laws.decode-encode r))

  write-IsRegister :
      (cur : Value) (found : Bool) (content : Text) (ver : Version) (tombstone : Bool)
      → IsRegister (apply_lwwreg_write cur found content ver tombstone)
  unfolding apply_lwwreg_write
  write-IsRegister cur true content ver tombstone = merge-IsRegister cur _
  write-IsRegister cur false content ver tombstone = encode-IsRegister _

  encode-IsOrSetValue :
      (s : OrSet) (ver : Version) → IsCanonical s → IsOrSetValue (encode_orset s ver)
  encode-IsOrSetValue s ver c =
      let back = Merge.decode-encode s ver (IsCanonical-IsOrSet c) in
      record {
        canonical = rw back c;
        encoded = unfold encode_orset in ap (λ (t : OrSet). encode_orset t ver) (sym back);
      }

  empty-IsCanonical : IsCanonical empty_orset
  empty-IsCanonical = record { adds = ((tt, tt), tt); rems = ((tt, tt), tt) }

  op-IsCanonical :
      (s : OrSet) (op elem tag : Text)
      → IsCanonical s
      → IsCanonical (if eq_text op (codes "remove") then remove s elem else add s elem tag)
  op-IsCanonical s op elem tag c = elim (Bool-cases (eq_text op (codes "remove"))) [
    | inl e ↦ rw e (remove-IsCanonical s elem c)
    | inr e ↦ rw e (add-IsCanonical s elem tag c)
  ]

  op-IsOrSetValue :
      (cur : Option Value) (op elem tag : Text) (ver : Version)
      → ((v : Value) → cur ≡ some v → IsOrSetValue v)
      → IsOrSetValue (apply_orset_op (value_or_zero cur) (is_found cur) op elem tag ver)
  unfolding apply_orset_op
  op-IsOrSetValue none op elem tag ver h =
      encode-IsOrSetValue _ ver (op-IsCanonical empty_orset op elem tag empty-IsCanonical)
  op-IsOrSetValue (some v) op elem tag ver h =
      encode-IsOrSetValue _ ver (op-IsCanonical (decode_orset v) op elem tag (h v refl).canonical)

  local_prepare-IsOf :
      (req : WriteReq) (ver : Version) (n : Node) (q : Policy)
      → req.policy ≡ q
      → IsUnder (policy_of req) req.key n.replica
      → IsOf (policy_of req) (local_prepare req ver n).1
  unfolding local_prepare
  local_prepare-IsOf req ver n Policy.crdt_orset e h =
      let u : IsUnder Policy.crdt_orset req.key n.replica = ground (arith, e, h) in
      rw e (op-IsOrSetValue (Replica.get req.key n.replica) req.orset_op req.orset_elem _ ver u)
  local_prepare-IsOf req ver n Policy.crdt_lwwreg e h = rw e (
      write-IsRegister (value_or_zero (Replica.get req.key n.replica)) _ req.content ver
        req.tombstone)
  local_prepare-IsOf req ver n Policy.lww e h = rw e (record { policy = refl; crdt = refl })
  local_prepare-IsOf req ver n (Policy.other i) e h = rw e (record { policy = refl; crdt = refl })

  prepare_keeps :
      (req : WriteReq) (ver : Version) (n : Node) (q : Policy)
      → req.policy ≡ q
      → ((local_prepare req ver n).0.replica ≡ n.replica)
        × ((local_prepare req ver n).0.hints ≡ n.hints)
        × ((local_prepare req ver n).0.members ≡ n.members)
  unfolding local_prepare next_orset_tag
  prepare_keeps req ver n Policy.crdt_orset e = rw e (refl, refl, refl)
  prepare_keeps req ver n Policy.crdt_lwwreg e = rw e (refl, refl, refl)
  prepare_keeps req ver n Policy.lww e = rw e (refl, refl, refl)
  prepare_keeps req ver n (Policy.other i) e = rw e (refl, refl, refl)

  -- The first part of a write stamps its payload with the next time of the clock and the id of the
  -- node, makes a payload of the request's policy, and leaves the map, the hints and the members as
  -- they were, if the key held a value of that policy or none.
  pub start_write_lem :
      (req : WriteReq) (n : Node)
      → IsUnder (policy_of req) req.key n.replica
      → ((start_write req n).0.replica.kv ≡ n.replica.kv)
        × ((start_write req n).0.hints ≡ n.hints)
        × ((start_write req n).0.members ≡ n.members)
        × ((start_write req n).1 ≡ record { lamport = (tick n.replica.clock).1; node_id = n.id })
        × IsOf (policy_of req) (start_write req n).2
  unfolding start_write Replica.get
  start_write_lem req n h =
      let (clock', lamport) = tick n.replica.clock in
      let ver : Version = record { lamport = lamport; node_id = n.id } in
      let n' : Node = record n { replica = record n.replica { clock = clock' } } in
      let (same, hints, members) = prepare_keeps req ver n' req.policy refl in
      (ap Replica.kv same, hints, members, refl, local_prepare-IsOf req ver n' req.policy refl h)
