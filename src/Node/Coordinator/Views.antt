-- ===== src/Node/Coordinator/Views.antt =====
-- The views that a read collects are what its peers hold, each peer once.
use mathlib.Core.List.{append-nil}
use agent_memory.Prelude.{
  ℕ, ◌-◌, ◌≡◌, refl, Bool, true, false, ◌||◌, List, [], ◌∷◌, ◌++◌, Option, none, some,
  if◌then◌else◌, Text, arith, eq_text, eq_text→eq, eq_text_refl, elem, NoDup, All, inl, inr,
  Bool-cases, ◌⊎◌, ap, sym, ◌∙◌,
}
use agent_memory.Prelude.Int.{ℤ}
use agent_memory.Types.Value.{Value, Policy, ReplicaView}
use agent_memory.Conflict.Codec.{Codec}
use agent_memory.Conflict.Resolve.Laws.{IsOf}
use agent_memory.Conflict.Resolve.Many.{found_values, In}
use agent_memory.Node.Replica
use agent_memory.Node.Replica.Above.{IsUnder}
use agent_memory.Node.Coordinator.{World, serve_read, is_found, value_or_zero}
use agent_memory.Node.Coordinator.Read.{
  Answer, answers, fails, deadline, view_of, has_ended, collect,
}
use agent_memory.Node.Coordinator.Quorum.{Sub, Disjoint, NoDup-append, elem-append}

abbrev pub node_ids : List ReplicaView → List Text
node_ids [] = []
node_ids (v ∷ views) = v.node_id ∷ node_ids views

-- The peers whose requests end in a schedule.
abbrev pub asked : List Answer → List Text
asked [] = []
asked (answers peer ∷ es) = peer ∷ asked es
asked (fails peer ∷ es) = peer ∷ asked es
asked (deadline ∷ es) = asked es

node_ids-append : (xs ys : List ReplicaView) → node_ids (xs ++ ys) ≡ node_ids xs ++ node_ids ys
node_ids-append [] ys = refl
node_ids-append (x ∷ xs) ys = ap (◌∷◌ x.node_id) (node_ids-append xs ys)

All-append :
    (P : ReplicaView → Type 0) (xs ys : List ReplicaView) → All P xs → All P ys → All P (xs ++ ys)
All-append P [] ys a b = b
All-append P (x ∷ xs) ys a b = (a.0, All-append P xs ys a.1 b)

module _ (key : Text) (w : World) where
  -- The view says what its peer holds.
  abbrev pub IsFaithful : ReplicaView → Type 0
  IsFaithful v = Replica.get key (w v.node_id).replica ≡ (if v.found then some v.value else none)

  -- A sound list of views: faithful, of different members, and of none that is still to answer.
  pub record IsSound (members pending : List Text) (views : List ReplicaView) : Type 0 where
    pub faithful : All IsFaithful views
    pub distinct : NoDup (node_ids views)
    pub among : Sub (node_ids views) members
    pub past : Disjoint (node_ids views) pending

  abbrev shown : Text → Option Value → ReplicaView
  shown peer o = record { node_id = peer; value = value_or_zero o; found = is_found o }

  view_shown :
      (self peer : Text) (reached : Bool)
      → (view_of self key peer reached w ≡ [])
        ⊎ (view_of self key peer reached w ≡ shown peer (Replica.get key (w peer).replica) ∷ [])
  unfolding view_of serve_read
  view_shown self peer reached = elim (Bool-cases (eq_text peer self || reached)) [
    | inr e ↦ inl (rw e refl)
    | inl e ↦ elim (Bool-cases (Replica.reads_enabled (w peer).replica)) [
      | inr off ↦ inl (rw (e, off) refl)
      | inl on ↦ inr (rw (e, on) refl)
    ]
  ]

  shown-IsFaithful :
      (peer : Text) (o : Option Value)
      → Replica.get key (w peer).replica ≡ o
      → IsFaithful (shown peer o)
  shown-IsFaithful peer none e = e
  shown-IsFaithful peer (some u) e = e

  view_cases :
      (self peer : Text) (reached : Bool)
      → (view_of self key peer reached w ≡ [])
        ⊎ ((v : ReplicaView) × (view_of self key peer reached w ≡ v ∷ [])
            × (v.node_id ≡ peer)
            × IsFaithful v)
  view_cases self peer reached = elim (view_shown self peer reached) [
    | inl e ↦ inl e
    | inr e ↦ inr (_, e, refl, shown-IsFaithful peer _ refl)
  ]

  module _ (self : Text) (quorum : ℤ) (members : List Text) where
    more-IsSound :
        (peer : Text) (reached : Bool) (pending : List Text) (views : List ReplicaView)
        → elem peer members ≡ true
        → elem peer pending ≡ false
        → IsSound members (peer ∷ pending) views
        → IsSound members pending (views ++ view_of self key peer reached w)
    more-IsSound peer reached pending views there once s = elim (view_cases self peer reached) [
      | inl e ↦
          rw (e, append-nil)
            (record {
              faithful = s.faithful;
              distinct = s.distinct;
              among = s.among;
              past = λ t h. ground (arith, s.past t);
            })
      | inr (v, e, at, f) ↦ rw e (record {
        faithful = All-append IsFaithful views (v ∷ []) s.faithful (f, tt);
        distinct = rw node_ids-append (
            NoDup-append (node_ids views) (v.node_id ∷ []) s.distinct (refl, tt)
              (λ t h. ground (arith, s.past t h, at)));
        among = λ t h. ground (
          arith,
          s.among t,
          elem-append t (node_ids views) (v.node_id ∷ []),
          node_ids-append views (v ∷ []),
          at,
          eq_text→eq v.node_id t,
        );
        past = λ t h. ground (
          arith,
          s.past t,
          elem-append t (node_ids views) (v.node_id ∷ []),
          node_ids-append views (v ∷ []),
          at,
          eq_text→eq v.node_id t,
        );
      })
    ]

    pub collect-IsSound :
        (es : List Answer) (views out : List ReplicaView) (remaining : ℕ)
        → NoDup (asked es)
        → Sub (asked es) members
        → IsSound members (asked es) views
        → collect self key quorum w views remaining es ≡ some out
        → All IsFaithful out × NoDup (node_ids out) × Sub (node_ids out) members
    unfolding collect
    collect-IsSound [] views out remaining d m s e =
        let same : views ≡ out = ground (arith, e) in rw (← same) (s.faithful, s.distinct, s.among)
    collect-IsSound (deadline ∷ es) views out remaining d m s e =
        let same : views ≡ out = ground (arith, e) in rw (← same) (s.faithful, s.distinct, s.among)
    collect-IsSound (answers peer ∷ es) views out remaining d m s e =
        elim (Bool-cases (has_ended quorum views remaining)) [
          | inl ended ↦
              let same : views ≡ out = ground (arith, e, ended) in
              rw (← same) (s.faithful, s.distinct, s.among)
          | inr more ↦
              collect-IsSound es (views ++ view_of self key peer true w) out (remaining - 1) d.1
                (λ t i. m t (ground arith))
                (more-IsSound peer true (asked es) views
                  (m peer (ground (arith, eq_text_refl peer))) d.0 s)
                (ground (arith, e, more))
        ]
    collect-IsSound (fails peer ∷ es) views out remaining d m s e =
        elim (Bool-cases (has_ended quorum views remaining)) [
          | inl ended ↦
              let same : views ≡ out = ground (arith, e, ended) in
              rw (← same) (s.faithful, s.distinct, s.among)
          | inr more ↦
              collect-IsSound es (views ++ view_of self key peer false w) out (remaining - 1) d.1
                (λ t i. m t (ground arith))
                (more-IsSound peer false (asked es) views
                  (m peer (ground (arith, eq_text_refl peer))) d.0 s)
                (ground (arith, e, more))
        ]

-- A peer that answered and holds a value has it among the values found, and all of these are values of
-- the policy.
pub found_In :
    (key : Text) (w : World) (views : List ReplicaView) (t : Text) (u : Value)
    → All (IsFaithful key w) views
    → elem t (node_ids views) ≡ true
    → Replica.get key (w t).replica ≡ some u
    → In u (found_values views)
found_In key w [] t u f h e = absurd (ground arith)
found_In key w (v ∷ views) t u f h e = elim (Bool-cases (eq_text v.node_id t)) [
  | inl at ↦
      let same : v.node_id ≡ t = eq_text→eq v.node_id t at in
      let here : (if v.found then some v.value else none) ≡ some u = sym f.0 ∙ rw same e in
      ground (arith, here)
  | inr differs ↦ let rest = found_In key w views t u f.1 (ground arith) e in ground (arith, rest)
]

module _ ⦃codec : Codec⦄ where
  pub found-IsOf :
      (p : Policy) (key : Text) (w : World) (views : List ReplicaView)
      → ((id : Text) → IsUnder p key (w id).replica)
      → All (IsFaithful key w) views
      → All (IsOf p) (found_values views)
  found-IsOf p key w [] h f = tt
  found-IsOf p key w (v ∷ views) h f =
      ground (arith, found-IsOf p key w views h f.1, h v.node_id v.value, f.0)
