-- ===== src/Node/Replica/Above.antt =====
-- What a call of `Apply` keeps of a key, and what it adds, in the order of the merge.
use agent_memory.Prelude.{
  ◌≡◌, refl, Option, none, some, Text, arith, eq_text→eq, eq_text_refl, ◌⊎◌, inl, inr, subst, sym,
  ◌∙◌,
}
use agent_memory.Prelude.Semilattice.{Below-op, Below-op_right, Below-trans}
use agent_memory.Types.Value.{Value, Policy}
use agent_memory.Conflict.Codec.{Codec}
use agent_memory.Conflict.Resolve.{resolve}
use agent_memory.Conflict.Resolve.Laws.{IsOf, resolve_semilattice}
use agent_memory.Store.Wal.{EntryCodec, Io}
use agent_memory.Node.Replica.{Replica, Applied, ok, wal_error, get, merge_incoming, apply}
use agent_memory.Node.Replica.Step.{Outcome, apply-Outcome}

abbrev pub IsStored : Applied → Type 0
IsStored (ok v) = Unit
IsStored (wal_error v) = ⊥

module _ ⦃codec : Codec⦄ where
  -- The key holds a value of its policy or none.
  abbrev pub IsUnder : Policy → Text → Replica → Type 0
  IsUnder p k r = (cur : Value) → get k r ≡ some cur → IsOf p cur

  -- The key holds a value that includes `x`.
  abbrev pub HasAbove : Policy → Text → Value → Replica → Type 0
  HasAbove p k x r = (cur : Value) × (get k r ≡ some cur) × IsOf p cur × (resolve x cur ≡ cur)

  module _ (p : Policy) (k : Text) (v : Value) (r : Replica) (here : IsOf p v) where
    merge-IsOf :
        (o : Option Value)
        → get k r ≡ o
        → IsUnder p k r
        → IsOf p (merge_incoming k v r.kv)
          × (resolve v (merge_incoming k v r.kv) ≡ merge_incoming k v r.kv)
    unfolding merge_incoming get
    merge-IsOf none e h = ground (arith, (resolve_semilattice p).idem v here)
    merge-IsOf (some cur) e h = ground (
      arith,
      (resolve_semilattice p).closed cur v (h cur e) here,
      Below-op_right (resolve_semilattice p) cur v (h cur e) here,
    )

    merge-keeps :
        (x cur : Value)
        → IsOf p x
        → get k r ≡ some cur
        → IsOf p cur
        → resolve x cur ≡ cur
        → resolve x (merge_incoming k v r.kv) ≡ merge_incoming k v r.kv
    unfolding merge_incoming get
    merge-keeps x cur hx e h b = ground (
      arith,
      Below-trans (resolve_semilattice p) x cur (resolve cur v) hx h
          ((resolve_semilattice p).closed cur v h here) b
          (Below-op (resolve_semilattice p) cur v h here),
    )

  module _ ⦃entries : EntryCodec⦄ where
    -- After an outcome a key is as it was, or it is the key of the call and holds the merge.
    get_cases :
        (key : Text) (v : Value) (r : Replica) (out : Replica × Applied) (j : Text)
        → Outcome key v r out
        → (get j out.0 ≡ get j r) ⊎ ((key ≡ j) × (get j out.0 ≡ some (merge_incoming key v r.kv)))
    unfolding get
    get_cases key v r (r', ok u) j h = ground (arith, h.0, h.1 j, eq_text→eq key j)
    get_cases key v r (r', wal_error u) j h = ground (arith, h.0)

    get_stored :
        (key : Text) (v : Value) (r : Replica) (out : Replica × Applied)
        → Outcome key v r out
        → IsStored out.1
        → get key out.0 ≡ some (merge_incoming key v r.kv)
    get_stored key v r (r', ok u) h s = ground (arith, h.0, h.1 key, eq_text_refl key)
    get_stored key v r (r', wal_error u) h s = absurd s

    -- A value that the call may put under `k`.
    abbrev pub FitsKey : Policy → Text → Text → Value → Type 0
    FitsKey p k key v = key ≡ k → IsOf p v

    module _ (p : Policy) (k : Text) (io : Io) (key : Text) (v : Value) (r : Replica)
        (fits : FitsKey p k key v) where
      cases :
          (get k (apply io key v r).0 ≡ get k r)
          ⊎ ((key ≡ k) × (get k (apply io key v r).0 ≡ some (merge_incoming key v r.kv)))
      cases = get_cases key v r (apply io key v r) k (apply-Outcome io key v r)

      pub apply-IsUnder : IsUnder p k r → IsUnder p k (apply io key v r).0
      apply-IsUnder h cur e = elim cases [
        | inl same ↦ h cur (sym same ∙ e)
        | inr (at, merged) ↦
            let m = merge-IsOf p k v r (fits at) (get k r) refl h in
            let m' : IsOf p (merge_incoming key v r.kv) = rw at m.0 in
            subst (IsOf p) (ground (arith, merged, e)) m'
      ]

      pub apply-HasAbove :
          (x : Value) → IsOf p x → HasAbove p k x r → HasAbove p k x (apply io key v r).0
      apply-HasAbove x hx (cur, e, h, b) = elim cases [
        | inl same ↦ (cur, same ∙ e, h, b)
        | inr (at, merged) ↦
            let under : IsUnder p k r = λ c f. subst (IsOf p) (ground (arith, e, f)) h in
            let m = merge-IsOf p k v r (fits at) (get k r) refl under in
            (
              merge_incoming key v r.kv,
              merged,
              rw at m.0,
              rw at (merge-keeps p k v r (fits at) x cur hx e h b),
            )
      ]

    -- A call that stores the value leaves a value that includes it.
    pub apply-above :
        (p : Policy) (io : Io) (k : Text) (v : Value) (r : Replica)
        → IsOf p v
        → IsUnder p k r
        → IsStored (apply io k v r).1
        → HasAbove p k v (apply io k v r).0
    apply-above p io k v r h u s =
        let m = merge-IsOf p k v r h (get k r) refl u in
        (
          merge_incoming k v r.kv,
          get_stored k v r (apply io k v r) (apply-Outcome io k v r) s,
          m.0,
          m.1,
        )
