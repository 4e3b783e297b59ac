-- ===== src/Node/Lifecycle.antt =====
-- `New`, `StartAntiEntropy`, `StopAntiEntropy` and `Close` of internal/node/coordinator.go: how a node starts, and
-- the loops of its timer. A channel is a number, the `stopAnti` of the node the last one made; a
-- loop reads that field each time it comes to its `select`.
pub mod Laws
use agent_memory.Prelude.{
  ℕ, ◌+◌, ◌≡◌, Bool, true, false, not, ◌||◌, List, [], ◌∷◌, ◌++◌, Option, none, some, if◌then◌else◌,
  Text, ◌==◌,
}
use agent_memory.Prelude.Int.{ℤ, pos, ltb_int, eq_int}
use agent_memory.Cluster.{Membership}
use agent_memory.Repair.Hints.{new_hints}
use agent_memory.Conflict.Codec.{Codec}
use agent_memory.Store.Wal
use agent_memory.Node.Replica.{Replica, new_replica}
use agent_memory.Node.Coordinator.{Node}

-- Without the transport. `replica` is the field `WAL`; durations are in nanoseconds.
pub record Config : Type 0 where
  pub id : Text
  pub peers : Membership
  pub replica : Option Replica
  pub timeout : ℤ
  pub anti_entropy_every : ℤ
  pub disable_read_repair : Bool

-- A loop comes to its `select`, or waits there on a channel and on its ticker.
pub data Loop : Type 0 where
  looping : Loop
  waiting : ℕ → Loop

-- `antiOn`, `antiEvery` and `stopAnti`, with the channels that are closed and the loops that run. The
-- channel 0 is nil.
pub record Timers : Type 0 where
  pub on : Bool
  pub every : ℤ
  pub channel : ℕ
  pub closed : List ℕ
  pub loops : List Loop

pub record Running : Type 0 where
  pub node : Node
  pub timeout : ℤ
  pub timers : Timers

abbrev pub no_timers : ℤ → Timers
no_timers every = record { on = false; every = every; channel = 0; closed = []; loops = [] }

unfoldable pub new : ⦃codec : Codec⦄ → Config → Running
new cfg = record {
  node = record {
    id = cfg.id;
    members = cfg.peers;
    replica = elim cfg.replica [ none ↦ new_replica cfg.id none | some r ↦ r ];
    hints = new_hints;
    tag_counter = 0;
    read_repair = not cfg.disable_read_repair;
  };
  timeout = if eq_int cfg.timeout (pos 0) then pos 2000000000 else cfg.timeout;
  timers = no_timers cfg.anti_entropy_every;
}

unfoldable pub start_anti_entropy : Timers → Timers
start_anti_entropy t =
    if t.on || not (ltb_int (pos 0) t.every)
    then t
    else record t { on = true; channel = t.channel + 1; loops = t.loops ++ looping ∷ [] }

unfoldable pub stop_anti_entropy : Timers → Timers
stop_anti_entropy t = if not t.on then t else record t { on = false; closed = t.channel ∷ t.closed }

-- `Close`: the node, and whether the error is nil. `closed` is what the operating system says of closing
-- the file of the log.
unfoldable pub close : Bool → Running → Running × Bool
close closed n = (
  record n { timers = stop_anti_entropy n.timers },
  elim n.node.replica.wal [ none ↦ true | some w ↦ Wal.close closed w ],
)

abbrev pub is_closed : ℕ → List ℕ → Bool
is_closed c [] = false
is_closed c (d ∷ l) = d == c || is_closed c l

-- A step of the timer: a call of one of the two methods, or of a loop, which comes to its `select`,
-- wakes by its ticker, or wakes by its channel and ends.
pub data Step : Timers → Timers → Type 0 where
  starts : (t : Timers) → Step t (start_anti_entropy t)
  stops : (t : Timers) → Step t (stop_anti_entropy t)
  selects :
      (t : Timers) (a b : List Loop)
      → t.loops ≡ a ++ looping ∷ b
      → Step t (record t { loops = a ++ waiting t.channel ∷ b })
  ticks :
      (t : Timers) (a b : List Loop) (c : ℕ)
      → t.loops ≡ a ++ waiting c ∷ b
      → Step t (record t { loops = a ++ looping ∷ b })
  ends :
      (t : Timers) (a b : List Loop) (c : ℕ)
      → t.loops ≡ a ++ waiting c ∷ b
      → is_closed c t.closed ≡ true
      → Step t (record t { loops = a ++ b })

-- What a node that starts with its timer off can come to.
pub data Reach (every : ℤ) : Timers → Type 0 where
  fresh : Reach every (no_timers every)
  next : (t t' : Timers) → Reach every t → Step t t' → Reach every t'
