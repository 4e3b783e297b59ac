-- ===== src/Types/Clock/Laws.antt =====
-- The Lamport clock of internal/types/clock.go orders events, while it does not wrap.
use agent_memory.Prelude.{
  ℕ, ◌+◌, ◌≤◌, ◌<◌, ◌≡◌, List, [], ◌∷◌, if◌then◌else◌, ltb, arith, length, ◌⊎◌,
}
use agent_memory.Types.Clock.{Lamport, u64_mod, tick, witness, observe}

pub observe-le : (n : ℕ) (c : Lamport) → (n ≤ (observe n c).t) × (c.t ≤ (observe n c).t)
unfolding observe
observe-le n c = ground arith

pub observe_of_le : (n : ℕ) (c : Lamport) → n ≤ c.t → observe n c ≡ c
unfolding observe
observe_of_le n c h = ground arith

pub observe-max : (n : ℕ) (c : Lamport) → (observe n c).t ≡ (if ltb c.t n then n else c.t)
unfolding observe
observe-max n c = ground arith

-- What can happen at a clock.
pub data Event : Type 0 where
  ticks : Event
  witnesses observes : ℕ → Event

-- The times that the events issue, in order.
unfoldable pub issued : Lamport → List Event → List ℕ
issued c [] = []
issued c (ticks ∷ es) = let (c', t) = tick c in t ∷ issued c' es
issued c (witnesses n ∷ es) = let (c', t) = witness n c in t ∷ issued c' es
issued c (observes n ∷ es) = issued (observe n c) es

-- Every issued time is above each time that was issued or seen before it; `a` is the greatest so far.
abbrev pub IsLater : ℕ → List Event → List ℕ → Type 0
IsLater a [] [] = Unit
IsLater a (ticks ∷ es) (t ∷ ts) = (a < t) × IsLater t es ts
IsLater a (witnesses n ∷ es) (t ∷ ts) = (a < t) × (n < t) × IsLater t es ts
IsLater a (observes n ∷ es) ts = IsLater (if ltb a n then n else a) es ts
IsLater a _ _ = ⊥

abbrev pub RemoteBelow : ℕ → List Event → Type 0
RemoteBelow b [] = Unit
RemoteBelow b (ticks ∷ es) = RemoteBelow b es
RemoteBelow b (witnesses n ∷ es) = (n ≤ b) × RemoteBelow b es
RemoteBelow b (observes n ∷ es) = (n ≤ b) × RemoteBelow b es

RemoteBelow-mono : (a b : ℕ) (es : List Event) → a ≤ b → RemoteBelow a es → RemoteBelow b es
RemoteBelow-mono a b [] h r = tt
RemoteBelow-mono a b (ticks ∷ es) h r = RemoteBelow-mono a b es h r
RemoteBelow-mono a b (witnesses n ∷ es) h r = (omega arith, RemoteBelow-mono a b es h r.1)
RemoteBelow-mono a b (observes n ∷ es) h r = (omega arith, RemoteBelow-mono a b es h r.1)

tick-fits : (c : Lamport) → c.t + 1 < u64_mod → ((tick c).1 ≡ c.t + 1) × ((tick c).0.t ≡ c.t + 1)
unfolding tick
tick-fits c h = ground arith

witness-fits :
    (n : ℕ) (c : Lamport)
    → n + 1 < u64_mod
    → c.t + 1 < u64_mod
    → (c.t < (witness n c).1)
      × (n < (witness n c).1)
      × ((witness n c).0.t ≡ (witness n c).1)
      × (((witness n c).1 ≤ n + 1) ⊎ ((witness n c).1 ≤ c.t + 1))
unfolding witness
witness-fits n c h k = ground arith

-- Every time that a clock issues, for a local event or a received one, is later than all times that
-- it issued or saw before, as long as the times seen and the number of events leave room in 64
-- bits.
pub issued-IsLater :
    (es : List Event) (c : Lamport) (b : ℕ)
    → c.t ≤ b
    → RemoteBelow b es
    → b + length es < u64_mod
    → IsLater c.t es (issued c es)
unfolding issued
issued-IsLater [] c b h r k = tt
issued-IsLater (ticks ∷ es) c b h r k =
    let (e, e') = tick-fits c (omega arith) in
    (
      omega arith,
      rw (e, ← e')
          (issued-IsLater es (tick c).0 (b + 1) (omega arith)
            (RemoteBelow-mono b (b + 1) es (omega arith) r) (omega arith)),
    )
issued-IsLater (witnesses n ∷ es) c b h r k =
    let (p, q, e, u) = witness-fits n c (omega arith) (omega arith) in
    (
      p,
      q,
      rw (← e) (
          issued-IsLater es (witness n c).0 (b + 1) (omega arith)
            (RemoteBelow-mono b (b + 1) es (omega arith) r.1) (omega arith)),
    )
issued-IsLater (observes n ∷ es) c b h r k =
    rw (← observe-max n c)
      (issued-IsLater es (observe n c) b (ground (arith, observe-max n c)) r.1 (omega arith))
