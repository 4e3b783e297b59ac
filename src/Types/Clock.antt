-- ===== src/Types/Clock.antt =====
-- internal/types/clock.go: the Lamport clock. Each method holds the mutex for its whole body, so it is
-- one step of the state. The time is a uint64 and wraps.
pub mod Laws
use agent_memory.Prelude.{ℕ, ◌+◌, ◌^◌, ◌%◌, if◌then◌else◌, ltb}

abbrev pub u64_mod : ℕ
u64_mod = 2 ^ 64

pub record Lamport : Type 0 where
  pub t : ℕ

-- `Lamport{}`
abbrev pub zero_clock : Lamport
zero_clock = record { t = 0 }

unfoldable pub time : Lamport → ℕ
time c = c.t

-- The clock after the call, and its result.
unfoldable pub tick : Lamport → Lamport × ℕ
tick c = let t' = (c.t + 1) % u64_mod in (record { t = t' }, t')

unfoldable pub witness : ℕ → Lamport → Lamport × ℕ
witness remote c =
    let seen = if ltb c.t remote then remote else c.t in
    let t' = (seen + 1) % u64_mod in (record { t = t' }, t')

unfoldable pub observe : ℕ → Lamport → Lamport
observe remote c = if ltb c.t remote then record { t = remote } else c
