-- ===== src/Node/Replica/Converge.antt =====
-- What a replica holds after any sequence of deliveries, and why two replicas agree.
use mathlib.Core.List.{foldl}
use agent_memory.Prelude.{
  ◌≡◌, List, [], ◌∷◌, Option, none, some, if◌then◌else◌, Text, arith, eq_text, eq_text→eq, All,
}
use agent_memory.Types.Value.{Value, Policy}
use agent_memory.Conflict.Codec.{Codec}
use agent_memory.Conflict.Resolve.{resolve}
use agent_memory.Conflict.Resolve.Laws.{IsOf}
use agent_memory.Conflict.Resolve.Many.{IsSubset, fold_values, fold_same}
use agent_memory.Store.Wal.{EntryCodec, written}
use agent_memory.Node.Replica.{Replica, get, merge_incoming, apply}
use agent_memory.Node.Replica.Step.{get-apply_written}

-- The values that a sequence delivers for a key.
abbrev pub values_for : Text → List (Text × Value) → List Value
values_for k [] = []
values_for k ((key, v) ∷ ops) = if eq_text key k then v ∷ values_for k ops else values_for k ops

module _ ⦃codec : Codec⦄ ⦃entries : EntryCodec⦄ where
  -- Deliveries one after the other, in any order and as often as they come.
  unfoldable pub deliver : List (Text × Value) → Replica → Replica
  deliver [] r = r
  deliver ((key, v) ∷ ops) r = deliver ops (apply written key v r).0

  abbrev fold_onto : Option Value → List Value → Option Value
  fold_onto none l = fold_values l
  fold_onto (some x) l = some (foldl resolve x l)

  fold_onto-merge :
      (key : Text) (v : Value) (r : Replica) (l : List Value)
      → fold_onto (some (merge_incoming key v r.kv)) l ≡ fold_onto (get key r) (v ∷ l)
  unfolding merge_incoming get
  fold_onto-merge key v r l = ground arith

  -- A key holds the fold of `Resolve` over what was delivered for it, from what it held.
  pub get-deliver :
      (k : Text) (ops : List (Text × Value)) (r : Replica)
      → get k (deliver ops r) ≡ fold_onto (get k r) (values_for k ops)
  unfolding deliver
  get-deliver k [] r = ground arith
  get-deliver k ((key, v) ∷ ops) r = ground (
    arith,
    get-deliver k ops (apply written key v r).0,
    get-apply_written key v r k,
    fold_onto-merge key v r (values_for k ops),
    eq_text→eq key k,
  )

  -- Strong eventual consistency: two replicas that start without a key and receive the same values
  -- of one policy for it hold the same value, whatever the order, the repetitions and the other
  -- keys.
  pub deliver_converge :
      (p : Policy) (k : Text) (ops ops' : List (Text × Value)) (r r' : Replica)
      → get k r ≡ none
      → get k r' ≡ none
      → All (IsOf p) (values_for k ops)
      → All (IsOf p) (values_for k ops')
      → IsSubset (values_for k ops) (values_for k ops')
      → IsSubset (values_for k ops') (values_for k ops)
      → get k (deliver ops r) ≡ get k (deliver ops' r')
  deliver_converge p k ops ops' r r' e e' a a' s s' = cc (
    get-deliver k ops r,
    get-deliver k ops' r',
    e,
    e',
    fold_same p (values_for k ops) (values_for k ops') a a' s s',
  )
