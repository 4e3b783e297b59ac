-- ===== src/Conflict/Resolve/Laws.antt =====
-- `Resolve` on the values that the coordinator writes under one policy.
use agent_memory.Prelude.{◌≡◌, arith, ap}
use agent_memory.Prelude.Order.{max_by_comm}
use agent_memory.Prelude.Semilattice.{Semilattice}
use agent_memory.Types.Version.{version-flip, version-eq, zero-le}
use agent_memory.Types.Value.{Value, Policy, eq_policy_iff}
use agent_memory.Conflict.Codec.{Codec, LwwReg}
use agent_memory.Conflict.Lww.{lww}
use agent_memory.Conflict.Lww.Laws.{
  IsPlain, lww_comm, lww_assoc, lww_idem, lww-IsPlain, lww-max_by, stamp,
}
use agent_memory.Conflict.Register.{encode_lwwreg, merge_lwwreg}
use agent_memory.Conflict.Register.Laws.{
  lwwreg_ord, merge_lwwreg_comm, merge_lwwreg_assoc, merge_lwwreg_idem, merge-IsRegister,
  IsRegister,
}
use agent_memory.Conflict.OrSet.{merge_orset, encode_orset}
use agent_memory.Conflict.OrSet.Merge.{
  IsOrSetValue, merge_orset_comm, merge_orset_assoc, merge_orset_idem, merge-IsOrSetValue,
}
use agent_memory.Conflict.Resolve.{choose_policy, resolve}

pub choose-eq : (a b : Value) (p : Policy) → a.policy ≡ p → b.policy ≡ p → choose_policy a b ≡ p
unfolding choose_policy
choose-eq a b p h k = ground (arith, eq_policy_iff b.policy a.policy)

-- The policy does not depend on the order of the two values, unless they have the same version and
-- different policies.
pub choose_comm :
    (a b : Value)
    → (a.version ≡ b.version → a.policy ≡ b.policy)
    → choose_policy a b ≡ choose_policy b a
unfolding choose_policy
choose_comm a b h = ground (
  arith,
  h,
  eq_policy_iff b.policy a.policy,
  eq_policy_iff a.policy b.policy,
  version-flip a.version b.version,
  version-eq a.version b.version,
  zero-le a.version b.version,
  zero-le b.version a.version,
)

module _ ⦃codec : Codec⦄ where
  -- The values that the coordinator writes under a policy, and the merges of such.
  abbrev pub IsOf : Policy → Value → Type 0
  IsOf Policy.lww v = IsPlain v
  IsOf Policy.crdt_lwwreg v = IsRegister v
  IsOf Policy.crdt_orset v = IsOrSetValue v
  IsOf (Policy.other i) v = ⊥

  policy_of : (p : Policy) (v : Value) → IsOf p v → v.policy ≡ p
  unfolding encode_lwwreg encode_orset
  policy_of Policy.lww v h = h.policy
  policy_of Policy.crdt_lwwreg v h = ap Value.policy h
  policy_of Policy.crdt_orset v h = ap Value.policy h.encoded
  policy_of (Policy.other i) v h = absurd h

  module _ (a b : Value) where
    resolve-lww : IsPlain a → IsPlain b → resolve a b ≡ lww a b
    unfolding resolve
    resolve-lww h k = rw (choose-eq a b Policy.lww h.policy k.policy, resolve)

    resolve-register : IsRegister a → IsRegister b → resolve a b ≡ merge_lwwreg a b
    unfolding resolve
    resolve-register h k = rw (
      choose-eq a b Policy.crdt_lwwreg (policy_of Policy.crdt_lwwreg a h)
          (policy_of Policy.crdt_lwwreg b k),
      resolve,
    )

    resolve-orset : IsOrSetValue a → IsOrSetValue b → resolve a b ≡ merge_orset a b
    unfolding resolve
    resolve-orset h k = rw (
      choose-eq a b Policy.crdt_orset (policy_of Policy.crdt_orset a h)
          (policy_of Policy.crdt_orset b k),
      resolve,
    )

  pub lww_semilattice : Semilattice IsPlain lww
  lww_semilattice = record {
    closed = lww-IsPlain;
    comm = lww_comm;
    assoc = λ a b c _ _ _. lww_assoc a b c;
    idem = λ a _. lww_idem a;
  }

  pub IsRegister-semilattice : Semilattice IsRegister merge_lwwreg
  IsRegister-semilattice = record {
    closed = λ a b _ _. merge-IsRegister a b;
    comm = λ a b _ _. merge_lwwreg_comm a b;
    assoc = λ a b c _ _ _. merge_lwwreg_assoc a b c;
    idem = λ a h. cc (merge_lwwreg_idem a, h);
  }

  pub orset_semilattice : Semilattice IsOrSetValue merge_orset
  orset_semilattice = record {
    closed = λ a b _ _. merge-IsOrSetValue a b;
    comm = λ a b _ _. merge_orset_comm a b;
    assoc = λ a b c _ _ _. merge_orset_assoc a b c;
    idem = merge_orset_idem;
  }

  -- An operation that agrees with a semilattice on its values is one.
  transfer :
      {P : Value → Type 0} {op : Value → Value → Value}
      → Semilattice P op
      → ((a b : Value) → P a → P b → resolve a b ≡ op a b)
      → Semilattice P resolve
  transfer s e = record {
    closed = λ a b h k. rw (e a b h k) (s.closed a b h k);
    comm = λ a b h k. cc (e a b h k, e b a k h, s.comm a b h k);
    assoc = λ a b c h k l. cc (
      e a b h k,
      e b c k l,
      e _ c (s.closed a b h k) l,
      e a _ h (s.closed b c k l),
      s.assoc a b c h k l,
    );
    idem = λ a h. cc (e a a h h, s.idem a h);
  }

  -- Under each policy the merge is associative, commutative and idempotent on the values that the
  -- coordinator writes under it and their merges, and gives such a value.
  pub resolve_semilattice : (p : Policy) → Semilattice (IsOf p) resolve
  resolve_semilattice Policy.lww = transfer lww_semilattice resolve-lww
  resolve_semilattice Policy.crdt_lwwreg = transfer IsRegister-semilattice resolve-register
  resolve_semilattice Policy.crdt_orset = transfer orset_semilattice resolve-orset
  resolve_semilattice (Policy.other i) = record {
    closed = λ a b h. absurd h;
    comm = λ a b h. absurd h;
    assoc = λ a b c h. absurd h;
    idem = λ a h. absurd h;
  }

  lww_comm_of_ne : (a b : Value) → (a.version ≡ b.version → a ≡ b) → lww a b ≡ lww b a
  lww_comm_of_ne a b h =
      simp lww-max_by (max_by_comm stamp a b (λ e. h (ap (λ (r : LwwReg). r.ts) e)))

  -- With any policies, mixed ones too, the merge of two values does not depend on their order, if
  -- equal versions mean equal values.
  pub resolve_comm : (a b : Value) → (a.version ≡ b.version → a ≡ b) → resolve a b ≡ resolve b a
  unfolding resolve
  resolve_comm a b h =
      rw (choose_comm a b (λ e. ap (λ (v : Value). v.policy) (h e)), resolve)
        (go (choose_policy b a))
    where
      go :
          (p : Policy)
          → elim p [
            | Policy.crdt_lwwreg ↦ merge_lwwreg a b
            | Policy.crdt_orset ↦ merge_orset a b
            | _ ↦ lww a b
          ]
            ≡ elim p [
              | Policy.crdt_lwwreg ↦ merge_lwwreg b a
              | Policy.crdt_orset ↦ merge_orset b a
              | _ ↦ lww b a
            ]
      go Policy.crdt_lwwreg = merge_lwwreg_comm a b
      go Policy.crdt_orset = merge_orset_comm a b
      go _ = lww_comm_of_ne a b h
