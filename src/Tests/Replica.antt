-- ===== src/Tests/Replica.antt =====
-- The theorems on replicas at concrete inputs, and runs of `Apply`.
use agent_memory.Prelude.{◌≤◌, ◌≡◌, refl, [], ◌∷◌, none, some, codes, eq_text, inl, inr, arith}
use agent_memory.Types.Value.{Value, Policy}
use agent_memory.Types.Version.{compare_version, is_zero}
use agent_memory.Conflict.Lww.{lww, cmp_value}
use agent_memory.Conflict.Lww.Laws.{IsPlain}
use agent_memory.Conflict.Resolve.{resolve, choose_policy}
use agent_memory.Conflict.Resolve.Many.{IsSubset}
use agent_memory.Map.{lookup}
use agent_memory.Store.Kv
use agent_memory.Store.Wal
use agent_memory.Store.Wal.{Wal, Io, written, short, unsynced, open_wal, empty_wal}
use agent_memory.Node.Replica.{Replica, ok, get, merge_incoming, apply, new_replica}
use agent_memory.Node.Replica.Step.{Outcome, apply-Outcome}
use agent_memory.Node.Replica.Converge.{deliver, deliver_converge, get-deliver}
use agent_memory.Node.Replica.Again.{apply-apply}
use agent_memory.Node.Replica.Recovery.{first_start, restart_rebuilds}
use agent_memory.Tests.Codec.{framed_codec, framed_entries}
use agent_memory.Tests.Values.{red, blue, red-IsPlain, blue-IsPlain, color, ops, reversed}

abbrev n1 : Replica
n1 = first_start (codes "n1")

abbrev n2 : Replica
n2 = new_replica (codes "n2") none

fresh : (get color n1 ≡ none) × (get color n2 ≡ none)
unfolding get new_replica Kv.get lookup Wal.replay
fresh = (refl, refl)

there : IsSubset (red ∷ blue ∷ []) (blue ∷ red ∷ blue ∷ [])
there v (inl e) = inr (inl e)
there v (inr (inl e)) = inl e
there v (inr (inr i)) = absurd i

back : IsSubset (blue ∷ red ∷ blue ∷ []) (red ∷ blue ∷ [])
back v (inl e) = inr (inl e)
back v (inr (inl e)) = inl e
back v (inr (inr (inl e))) = inr (inl e)
back v (inr (inr (inr i))) = absurd i

deliver_converge_example : get color (deliver ops n1) ≡ get color (deliver reversed n2)
unfolding eq_text
deliver_converge_example =
    deliver_converge Policy.lww color ops reversed n1 n2 fresh.0 fresh.1
      (red-IsPlain, (blue-IsPlain, tt)) (blue-IsPlain, (red-IsPlain, (blue-IsPlain, tt))) there back

-- What the key holds in the end: the later write.
color_held : get color (deliver ops n1) ≡ some blue
unfolding eq_text resolve choose_policy is_zero compare_version lww cmp_value
color_held = rw (get-deliver color ops n1, fresh.0) refl

restart_rebuilds_example :
    let r = deliver ops n1 in
    (w : Wal) × (r.wal ≡ some w)
    × (open_wal w.file ≡ some w)
    × ((new_replica r.id (some w)).kv ≡ r.kv)
    × ((new_replica r.id (some w)).clock.t ≤ r.clock.t)
restart_rebuilds_example =
    restart_rebuilds (codes "n1") ops (omega arith)
      (λ _ _. omega arith, (λ _ _. omega arith, (λ _ _. omega arith, tt)))

none_held : (cur : Value) → get color n1 ≡ some cur → IsPlain cur
none_held cur e = absurd (cc (e, fresh.0))

apply-apply_example :
    let r' = (apply written color red n1).0 in
    apply (short 3) color red r' ≡ (r', ok (merge_incoming color red n1.kv))
apply-apply_example = apply-apply Policy.lww (short 3) color red n1 red-IsPlain none_held

apply-Outcome_example : Outcome color red n1 (apply unsynced color red n1)
apply-Outcome_example = apply-Outcome unsynced color red n1
