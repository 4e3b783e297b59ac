-- ===== src/Node/Lifecycle/Laws.antt =====
-- The loops of the timer.
use agent_memory.Prelude.{
  ℕ, ◌+◌, ◌≡◌, ◌≤◌, ◌<◌, refl, subst, Bool, true, false, not, ◌||◌, ◌&&◌, List, [], ◌∷◌, ◌++◌,
  if◌then◌else◌, ◌==◌, All, arith, Bool-cases, inl, inr,
}
use agent_memory.Prelude.Int.{ℤ, pos, ltb_int}
use agent_memory.Node.Lifecycle.{
  Loop, looping, waiting, Timers, start_anti_entropy, stop_anti_entropy, is_closed, Step, starts,
  stops, selects, ticks, ends, Reach, fresh, next, Running, close,
}

-- A loop that runs has a channel behind it, and waits on one that was made.
abbrev IsKnown : ℕ → Loop → Type 0
IsKnown top looping = 0 < top
IsKnown top (waiting c) = (0 < c) × (c ≤ top)

-- Exactly the channels made are closed, but for the last while the timer is on.
record IsTidy (t : Timers) : Type 0 where
  closed_ones :
      (c : ℕ) → 0 < c → c ≤ t.channel → is_closed c t.closed ≡ not (t.on && (c == t.channel))
  open_ones : (c : ℕ) → t.channel < c → is_closed c t.closed ≡ false
  made : t.on ≡ true → 0 < t.channel
  known : All (IsKnown t.channel) t.loops

All-append : {A : Type 0} (P : A → Type 0) (a b : List A) → All P a → All P b → All P (a ++ b)
All-append P [] b h k = k
All-append P (x ∷ a) b h k = (h.0, All-append P a b h.1 k)

All-left : {A : Type 0} (P : A → Type 0) (a b : List A) → All P (a ++ b) → All P a
All-left P [] b h = tt
All-left P (x ∷ a) b h = (h.0, All-left P a b h.1)

All-right : {A : Type 0} (P : A → Type 0) (a b : List A) → All P (a ++ b) → All P b
All-right P [] b h = h
All-right P (x ∷ a) b h = All-right P a b h.1

IsKnown-later : (top : ℕ) (l : List Loop) → All (IsKnown top) l → All (IsKnown (top + 1)) l
IsKnown-later top [] h = tt
IsKnown-later top (looping ∷ l) h = (omega arith, IsKnown-later top l h.1)
IsKnown-later top (waiting c ∷ l) h =
    (let k = h.0.1 in (h.0.0, omega arith), IsKnown-later top l h.1)

started-IsTidy :
    (t : Timers)
    → IsTidy t
    → t.on ≡ false
    → IsTidy (record t { on = true; channel = t.channel + 1; loops = t.loops ++ looping ∷ [] })
started-IsTidy t h off = record {
  closed_ones = λ c low high. elim (Bool-cases (c == t.channel + 1)) [
    | inl e ↦ ground (arith, e, h.open_ones c)
    | inr e ↦ ground (arith, e, off, low, high, h.closed_ones c)
  ];
  open_ones = λ c high. h.open_ones c (omega arith);
  made = λ e. omega arith;
  known =
      All-append (IsKnown (t.channel + 1)) t.loops (looping ∷ [])
        (IsKnown-later t.channel t.loops h.known) (omega arith, tt);
}

stopped-IsTidy :
    (t : Timers)
    → IsTidy t
    → t.on ≡ true
    → IsTidy (record t { on = false; closed = t.channel ∷ t.closed })
stopped-IsTidy t h on = record {
  closed_ones = λ c low high. ground (arith, on, low, high, h.closed_ones c low high);
  open_ones = λ c high. ground (arith, high, h.open_ones c high);
  made = λ e. absurd (cc (e));
  known = h.known;
}

start_anti_entropy-IsTidy : (t : Timers) → IsTidy t → IsTidy (start_anti_entropy t)
unfolding start_anti_entropy
start_anti_entropy-IsTidy t h = elim (Bool-cases (t.on || not (ltb_int (pos 0) t.every))) [
  | inl e ↦ rw (e, start_anti_entropy) h
  | inr e ↦ rw (e, start_anti_entropy) (started-IsTidy t h (ground (arith, e)))
]

stopped_if :
    (t : Timers) (b : Bool)
    → t.on ≡ b
    → IsTidy t
    → IsTidy (if not b then t else record t { on = false; closed = t.channel ∷ t.closed })
stopped_if t true e h = stopped-IsTidy t h e
stopped_if t false e h = h

stop_anti_entropy-IsTidy : (t : Timers) → IsTidy t → IsTidy (stop_anti_entropy t)
unfolding stop_anti_entropy
stop_anti_entropy-IsTidy t h = stopped_if t t.on refl h

-- Another set of loops.
looped-IsTidy :
    (t : Timers) (l : List Loop)
    → IsTidy t
    → All (IsKnown t.channel) l
    → IsTidy (record t { loops = l })
looped-IsTidy t l h k = record {
  closed_ones = h.closed_ones;
  open_ones = h.open_ones;
  made = h.made;
  known = k;
}

replaced-All :
    (top : ℕ) (l a b : List Loop) (x : Loop) (new : List Loop)
    → l ≡ a ++ x ∷ b
    → All (IsKnown top) l
    → All (IsKnown top) new
    → All (IsKnown top) (a ++ (new ++ b))
replaced-All top l a b x new e h k =
    let h' = subst (All (IsKnown top)) e h in
    All-append (IsKnown top) a (new ++ b) (All-left (IsKnown top) a (x ∷ b) h')
      (All-append (IsKnown top) new b k (All-right (IsKnown top) a (x ∷ b) h').1)

at_place :
    (top : ℕ) (l a b : List Loop) (x : Loop) → l ≡ a ++ x ∷ b → All (IsKnown top) l → IsKnown top x
at_place top l a b x e h = (All-right (IsKnown top) a (x ∷ b) (subst (All (IsKnown top)) e h)).0

Step-IsTidy : (t t' : Timers) → Step t t' → IsTidy t → IsTidy t'
Step-IsTidy _ _ (starts t) h = start_anti_entropy-IsTidy t h
Step-IsTidy _ _ (stops t) h = stop_anti_entropy-IsTidy t h
Step-IsTidy _ _ (selects t a b e) h = looped-IsTidy t (a ++ waiting t.channel ∷ b) h (
    replaced-All t.channel t.loops a b looping (waiting t.channel ∷ []) e h.known
      ((at_place t.channel t.loops a b looping e h.known, omega arith), tt))
Step-IsTidy _ _ (ticks t a b c e) h =
    let k = at_place t.channel t.loops a b (waiting c) e h.known in
    let low = k.0 in
    let high = k.1 in
    looped-IsTidy t (a ++ looping ∷ b) h
      (replaced-All t.channel t.loops a b (waiting c) (looping ∷ []) e h.known (omega arith, tt))
Step-IsTidy _ _ (ends t a b c e f) h =
    looped-IsTidy t (a ++ b) h (replaced-All t.channel t.loops a b (waiting c) [] e h.known tt)

Reach-IsTidy : (every : ℤ) (t : Timers) → Reach every t → IsTidy t
Reach-IsTidy every _ fresh = record {
  closed_ones = λ c low high. absurd (omega arith);
  open_ones = λ c high. refl;
  made = λ e. absurd (cc (e));
  known = tt;
}
Reach-IsTidy every _ (next t t' r s) = Step-IsTidy t t' s (Reach-IsTidy every t r)

-- Whatever calls and wake-ups came before, the channel that a stop of the timer would close is not
-- closed yet.
pub stop_never_panics :
    (every : ℤ) (t : Timers) → Reach every t → (t.on && is_closed t.channel t.closed) ≡ false
stop_never_panics every t r =
    let h = Reach-IsTidy every t r in ground (arith, h.made, h.closed_ones t.channel)

-- Whatever calls and wake-ups came before, a loop of the timer that waits has a closed channel
-- behind it, so that it can end, exactly unless the timer is on and the channel is its current one;
-- so no loop is left waiting after a stop.
pub stopped_loops_end :
    (every : ℤ) (t : Timers) (a b : List Loop) (c : ℕ)
    → Reach every t
    → t.loops ≡ a ++ waiting c ∷ b
    → is_closed c t.closed ≡ not (t.on && (c == t.channel))
stopped_loops_end every t a b c r e =
    let h = Reach-IsTidy every t r in
    let k = at_place t.channel t.loops a b (waiting c) e h.known in h.closed_ones c k.0 k.1

off_after_stop : (t : Timers) → (stop_anti_entropy t).on ≡ false
unfolding stop_anti_entropy
off_after_stop t = ground arith

-- Closing a node leaves its timer off, and every loop that waits can end.
closed_loops_end :
    (every : ℤ) (n : Running) (closed : Bool) (a b : List Loop) (c : ℕ)
    → Reach every n.timers
    → (close closed n).0.timers.loops ≡ a ++ waiting c ∷ b
    → is_closed c (close closed n).0.timers.closed ≡ true
unfolding close
closed_loops_end every n closed a b c r e =
    let t = stop_anti_entropy n.timers in
    let reached : Reach every t = next n.timers t r (stops n.timers) in
    ground (arith, stopped_loops_end every t a b c reached e, off_after_stop n.timers)
