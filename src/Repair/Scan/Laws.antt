-- ===== src/Repair/Scan/Laws.antt =====
-- What a plan holds for each key.
use agent_memory.Prelude.{
  ◌≡◌, refl, [], ◌∷◌, Option, none, some, if◌then◌else◌, Text, arith, Option-cases, inl, inr,
}
use agent_memory.Prelude.Order.{list_ord, list_eq, list_refl, is_eq, cmp_list}
use agent_memory.Map.{Map, lookup, insert, has, IsSorted}
use agent_memory.Map.Lookup.{lookup-insert}
use agent_memory.Map.Extensional.{lookup-Above}
use agent_memory.Types.Value.{Value, equal_value}
use agent_memory.Conflict.Codec.{Codec}
use agent_memory.Conflict.Resolve.{resolve}
use agent_memory.Repair.Scan.{Plan, scan_local, scan_locals, scan_remotes, scan}

module _ ⦃codec : Codec⦄ where
  -- What the plan sends for a key, from the two values of the key.
  abbrev pub pushed : Option Value → Option Value → Option Value
  pushed none r = none
  pushed (some l) none = some l
  pushed (some l) (some r) = if equal_value (resolve l r) r then none else some (resolve l r)

  abbrev pub pulled : Option Value → Option Value → Option Value
  pulled none r = r
  pulled (some l) none = none
  pulled (some l) (some r) = if equal_value (resolve l r) l then none else some (resolve l r)

  abbrev or_else : Option Value → Option Value → Option Value
  or_else none d = d
  or_else (some v) d = some v

  abbrev pulled_local : Option Value → Option Value → Option Value
  pulled_local none r = none
  pulled_local (some l) r = pulled (some l) r

  local_lem :
      (remote : Map Text Value) (p : Plan) (k : Text) (l : Value) (j : Text)
      → (lookup j (scan_local remote p k l).push ≡ (
          if is_eq (cmp_list k j)
          then or_else (pushed (some l) (lookup k remote)) (lookup j p.push)
          else lookup j p.push))
        × (lookup j (scan_local remote p k l).pull ≡ (
            if is_eq (cmp_list k j)
            then or_else (pulled (some l) (lookup k remote)) (lookup j p.pull)
            else lookup j p.pull))
  unfolding scan_local
  local_lem remote p k l j = elim (Option-cases (lookup k remote)) [
    | inl e ↦ rw (e, scan_local) (ground (arith, lookup-insert k j l p.push))
    | inr (r, e) ↦
        rw (e, scan_local)
          (ground
            (arith, lookup-insert k j (resolve l r) p.push, lookup-insert k j (resolve l r) p.pull))
  ]

  locals_lem :
      (remote : Map Text Value) (p : Plan) (local : Map Text Value) (j : Text)
      → IsSorted local
      → (lookup j (scan_locals remote p local).push
          ≡ or_else (pushed (lookup j local) (lookup j remote)) (lookup j p.push))
        × (lookup j (scan_locals remote p local).pull
            ≡ or_else (pulled_local (lookup j local) (lookup j remote)) (lookup j p.pull))
  unfolding scan_locals lookup
  locals_lem remote p [] j s = (refl, refl)
  locals_lem remote p ((k, l) ∷ local) j s =
      let (push, pull) = locals_lem remote (scan_local remote p k l) local j s.1 in
      let (push', pull') = local_lem remote p k l j in
      ground (arith, list_eq k j, lookup-Above k local)

  remotes_lem :
      (local : Map Text Value) (p : Plan) (remote : Map Text Value) (j : Text)
      → IsSorted remote
      → ((scan_remotes local p remote).push ≡ p.push)
        × (lookup j (scan_remotes local p remote).pull ≡ (
            if has j local then lookup j p.pull else or_else (lookup j remote) (lookup j p.pull)))
  unfolding scan_remotes lookup
  remotes_lem local p [] j s = (refl, ground arith)
  remotes_lem local p ((k, r) ∷ remote) j s =
      let (push, pull) =
        remotes_lem local (if has k local then p else record p { pull = insert k r p.pull }) remote
          j s.1 in
      ground (arith, list_eq k j, list_refl k, lookup-Above k remote, lookup-insert k j r p.pull)

  -- For every key the plan sends to a side the merge where that side has no value or another than
  -- the merge, and nothing to a side that has the merge already, for sorted maps.
  pub scan_lem :
      (local remote : Map Text Value) (j : Text)
      → IsSorted local
      → IsSorted remote
      → (lookup j (scan local remote).push ≡ pushed (lookup j local) (lookup j remote))
        × (lookup j (scan local remote).pull ≡ pulled (lookup j local) (lookup j remote))
  unfolding scan lookup
  scan_lem local remote j s t =
      let q = scan_locals remote (record { push = []; pull = [] }) local in
      let (push, pull) = locals_lem remote (record { push = []; pull = [] }) local j s in
      let (push', pull') = remotes_lem local q remote j t in ground arith
