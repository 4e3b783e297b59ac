-- ===== src/Conflict/Lww/Laws.antt =====
-- The merge of internal/conflict/lww.go keeps the greater value of an order.
use agent_memory.Prelude.{◌≡◌, refl, arith, []}
use agent_memory.Prelude.Order.{max_by, max_by_idem, max_by_comm, max_by_assoc}
use agent_memory.Types.Version.{version_ord}
use agent_memory.Types.Value.{Value, Policy}
use agent_memory.Conflict.Codec.{LwwReg}
use agent_memory.Conflict.Register.{cmp_lwwreg}
use agent_memory.Conflict.Register.Laws.{lwwreg_ord}
use agent_memory.Conflict.Lww.{cmp_value, lww}

-- What `cmpValue` reads of a value.
abbrev pub stamp : Value → LwwReg
stamp v = record { content = v.content; ts = v.version; tombstone = v.tombstone }

pub cmp_value-stamp : (a b : Value) → cmp_value a b ≡ cmp_lwwreg (stamp a) (stamp b)
unfolding cmp_value cmp_lwwreg
cmp_value-stamp a b = refl

pub lww-max_by : (a b : Value) → lww a b ≡ max_by stamp a b
unfolding lww
lww-max_by a b = rw cmp_value-stamp refl

pub lww_idem : (a : Value) → lww a a ≡ a
lww_idem a = rw lww-max_by (max_by_idem stamp a)

pub lww_assoc : (a b c : Value) → lww (lww a b) c ≡ lww a (lww b c)
lww_assoc a b c = simp lww-max_by (max_by_assoc stamp a b c)

-- A value as the coordinator writes it under the policy LWW.
pub record IsPlain (v : Value) : Type 0 where
  pub policy : v.policy ≡ Policy.lww
  pub crdt : v.crdt ≡ []

pub stamp-injective : (a b : Value) → IsPlain a → IsPlain b → stamp a ≡ stamp b → a ≡ b
stamp-injective a b p q e = ground (arith, p, q, e)

pub lww_comm : (a b : Value) → IsPlain a → IsPlain b → lww a b ≡ lww b a
lww_comm a b p q = simp lww-max_by (max_by_comm stamp a b (stamp-injective a b p q))

pub lww-IsPlain : (a b : Value) → IsPlain a → IsPlain b → IsPlain (lww a b)
unfolding lww
lww-IsPlain a b p q = ground arith
