-- ===== src/Net/Faults.antt =====
-- internal/net/faultnet.go. The numbers of the package math/rand are an argument, the sequence that the
-- seed gives; so are the floating-point numbers, by their zero and their order. The hook of a send runs
-- between the decision and its use and may change the network: it is an argument of `dispatch`. Every
-- other method holds the lock for its whole body. Handlers are the ids that are registered.
pub mod Laws
use agent_memory.Prelude.{
  ℕ, ◌+◌, Bool, true, false, not, ◌&&◌, ◌||◌, List, [], ◌∷◌, Option, none, some, if◌then◌else◌,
  Text, eq_text, ltb, ◌==◌,
}
use agent_memory.Prelude.Order.{list_ord}
use agent_memory.Map.{Map, lookup, insert, delete, empty, has}

-- What `math/rand` and float64 give.
pub record Chance : Type 1 where
  pub Float : Type 0
  pub zero_float : Float
  pub less : Float → Float → Bool
  pub random : ℕ → Float

module _ (c : Chance) where
  -- `drop` and `delay` hold the targets of each source; a delay is a number of nanoseconds. `drawn` is how
  -- many random numbers were taken.
  pub record Network : Type 0 where
    pub drawn : ℕ
    pub group : Map Text ℕ
    pub isolated : Map Text Bool
    pub drop : Map Text (Map Text c.Float)
    pub delay : Map Text (Map Text ℕ)
    pub handlers : Map Text (Unit {0})
    pub seq : ℕ
    pub fail_after : Map Text ℕ
    pub fail_count : Map Text ℕ

  unfoldable pub new_fault_net : Network
  new_fault_net = record {
    drawn = 0;
    group = empty;
    isolated = empty;
    drop = empty;
    delay = empty;
    handlers = empty;
    seq = 0;
    fail_after = empty;
    fail_count = empty;
  }

  unfoldable pub register : Text → Network → Network
  register id n = record n { handlers = insert id tt n.handlers }

  unfoldable pub unregister : Text → Network → Network
  unregister id n = record n { handlers = delete id n.handlers }

  -- Whether a handler is there; which one is known by the id.
  unfoldable pub handler : Text → Network → Bool
  handler id n = has id n.handlers

  unfoldable pub fail_from_after : Text → ℕ → Network → Network
  fail_from_after id after n = record n {
    fail_after = insert id after n.fail_after;
    fail_count = insert id 0 n.fail_count;
  }

  unfoldable pub set_groups : ℕ → List Text → Map Text ℕ → Map Text ℕ
  set_groups g [] m = m
  set_groups g (id ∷ ids) m = set_groups g ids (insert id g m)

  unfoldable pub partition : List Text → List Text → Network → Network
  partition left right n = record n { group = set_groups 2 right (set_groups 1 left n.group) }

  unfoldable pub heal : Network → Network
  heal n = record n { group = empty }

  unfoldable pub isolate : Text → Network → Network
  isolate id n = record n { isolated = insert id true n.isolated }

  unfoldable pub recover : Text → Network → Network
  recover id n = record n { isolated = delete id n.isolated }

  -- m[link{from, to}] = x
  unfoldable pub set_link :
      {V : Type 0} → Text → Text → V → Map Text (Map Text V) → Map Text (Map Text V)
  set_link from to x m = elim (lookup from m) [
    | none ↦ insert from (insert to x empty) m
    | some tos ↦ insert from (insert to x tos) m
  ]

  unfoldable pub set_drop : Text → Text → c.Float → Network → Network
  set_drop from to p n = record n { drop = set_link to from p (set_link from to p n.drop) }

  unfoldable pub set_delay : Text → Text → ℕ → Network → Network
  set_delay from to d n = record n { delay = set_link to from d (set_link from to d n.delay) }

  unfoldable pub reset_faults : Network → Network
  reset_faults n = record n {
    group = empty;
    isolated = empty;
    drop = empty;
    delay = empty;
    fail_after = empty;
    fail_count = empty;
  }

  -- A missing key reads as the zero value.
  unfoldable pub group_of : Text → Network → ℕ
  group_of id n = elim (lookup id n.group) [ none ↦ 0 | some g ↦ g ]

  unfoldable pub is_isolated : Text → Network → Bool
  is_isolated id n = elim (lookup id n.isolated) [ none ↦ false | some b ↦ b ]

  unfoldable pub drop_of : Text → Text → Network → c.Float
  drop_of from to n = elim (lookup from n.drop) [
    | none ↦ c.zero_float
    | some m ↦ elim (lookup to m) [ none ↦ c.zero_float | some p ↦ p ]
  ]

  unfoldable pub count_of : Text → Network → ℕ
  count_of id n = elim (lookup id n.fail_count) [ none ↦ 0 | some k ↦ k ]

  -- From the limit of sends on.
  unfoldable pub limit : Text → Network → Network × Bool
  limit from n = elim (lookup from n.fail_after) [
    | none ↦ (n, true)
    | some after ↦
        let k = count_of from n + 1 in
        let n' : Network = record n { fail_count = insert from k n.fail_count } in
        (n', not (ltb after k))
  ]

  -- `allowLocked`, without the delay. A random number is drawn only where the link may drop.
  unfoldable pub allow : Text → Text → Network → Network × Bool
  allow from to n =
      let p = drop_of from to n in
      let n' : Network = record n { drawn = n.drawn + 1 } in
      if eq_text from to
      then (n, true)
      else if is_isolated from n || is_isolated to n
      then (n, false)
      else if not (group_of from n == group_of to n)
      then (n, false)
      else if c.less c.zero_float p
      then if c.less (c.random n.drawn) p then (n', false) else limit from n'
      else limit from n

  -- The network, and whether there is a handler to call: `ErrUnreachable` otherwise.
  unfoldable pub dispatch :
      (Text → Text → ℕ → Network → Network) → Text → Text → Network → Network × Bool
  dispatch hook from to n =
      let n' : Network = record n { seq = n.seq + 1 } in
      let (n'', good) = allow from to n' in (hook from to n'.seq n'', good && has to n''.handlers)
