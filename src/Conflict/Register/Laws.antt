-- ===== src/Conflict/Register/Laws.antt =====
-- The order of the registers, and the laws of their merge.
use agent_memory.Prelude.{◌≡◌, ap, Ordering, arith}
use agent_memory.Prelude.Order.{
  Ord, flip, max_by, max_by_idem, max_by_comm, max_by_assoc, list_refl, list_eq, list_flip,
  list_trans,
}
use agent_memory.Types.Version.{version_refl, version-eq, version-flip, version_trans}
use agent_memory.Types.Value.{Value}
use agent_memory.Conflict.Codec.{LwwReg, Codec}
use agent_memory.Conflict.Register.{cmp_lwwreg, decode_lwwreg, encode_lwwreg, merge_lwwreg}

pub lwwreg_refl : (a : LwwReg) → cmp_lwwreg a a ≡ Ordering.eq
unfolding cmp_lwwreg
lwwreg_refl a = ground (arith, version_refl a.ts, list_refl a.content)

module _ (a b : LwwReg) where
  pub lwwreg-eq : cmp_lwwreg a b ≡ Ordering.eq → a ≡ b
  unfolding cmp_lwwreg
  lwwreg-eq h = ground (arith, version-eq a.ts b.ts, list_eq a.content b.content)

  pub lwwreg-flip : cmp_lwwreg b a ≡ flip (cmp_lwwreg a b)
  unfolding cmp_lwwreg
  lwwreg-flip = ground (arith, version-flip a.ts b.ts, list_flip a.content b.content)

pub lwwreg_trans :
    (a b c : LwwReg)
    → cmp_lwwreg a b ≡ Ordering.lt
    → cmp_lwwreg b c ≡ Ordering.lt
    → cmp_lwwreg a c ≡ Ordering.lt
unfolding cmp_lwwreg
lwwreg_trans a b c h k = ground (
  arith,
  version_trans a.ts b.ts c.ts,
  version-eq a.ts b.ts,
  version-eq b.ts c.ts,
  list_trans a.content b.content c.content,
)

instance abbrev pub lwwreg_ord : Ord LwwReg
lwwreg_ord = record {
  cmp = cmp_lwwreg;
  cmp_refl = lwwreg_refl;
  eq_of_cmp = lwwreg-eq;
  cmp_flip = lwwreg-flip;
  cmp_trans = lwwreg_trans;
}

-- The greater of two registers.
abbrev pub later : LwwReg → LwwReg → LwwReg
later = max_by (λ (r : LwwReg). r)

module _ ⦃codec : Codec⦄ where
  pub decode-encode : (r : LwwReg) → decode_lwwreg (encode_lwwreg r) ≡ r
  unfolding decode_lwwreg encode_lwwreg
  decode-encode r = ground (arith, codec.lwwreg_roundtrip r)

  pub merge-encode :
      (a b : Value) → merge_lwwreg a b ≡ encode_lwwreg (later (decode_lwwreg a) (decode_lwwreg b))
  unfolding merge_lwwreg
  merge-encode a b = ground arith

  pub decode-merge :
      (a b : Value) → decode_lwwreg (merge_lwwreg a b) ≡ later (decode_lwwreg a) (decode_lwwreg b)
  decode-merge a b = rw merge-encode (decode-encode _)

  -- The merge of two registers does not depend on their order, whatever their payloads.
  pub merge_lwwreg_comm : (a b : Value) → merge_lwwreg a b ≡ merge_lwwreg b a
  merge_lwwreg_comm a b = simp merge-encode (
      ap encode_lwwreg
        (max_by_comm (λ (r : LwwReg). r) (decode_lwwreg a) (decode_lwwreg b) (λ e. e)))

  -- The merge of registers is associative, whatever their payloads.
  pub merge_lwwreg_assoc :
      (a b c : Value) → merge_lwwreg (merge_lwwreg a b) c ≡ merge_lwwreg a (merge_lwwreg b c)
  merge_lwwreg_assoc a b c = simp merge-encode (
      simp decode-encode (
        ap encode_lwwreg
          (max_by_assoc (λ (r : LwwReg). r) (decode_lwwreg a) (decode_lwwreg b) (decode_lwwreg c))))

  pub merge_lwwreg_idem : (a : Value) → merge_lwwreg a a ≡ encode_lwwreg (decode_lwwreg a)
  merge_lwwreg_idem a =
      rw merge-encode (ap encode_lwwreg (max_by_idem (λ (r : LwwReg). r) (decode_lwwreg a)))

  -- A payload as the code writes it.
  abbrev pub IsRegister : Value → Type 0
  IsRegister v = v ≡ encode_lwwreg (decode_lwwreg v)

  pub merge-IsRegister : (a b : Value) → IsRegister (merge_lwwreg a b)
  merge-IsRegister a b = cc (merge-encode a b, decode-merge a b)
