-- ===== src/Node/Coordinator/Write.antt =====
-- `Write` and `Delete` of internal/node/coordinator.go. The goroutines of a write and its loop run
-- interleaved: a schedule says in what order the goroutines end and when the deadline passes. What a
-- goroutine does and its send to the channel are one step, which changes nothing that another step
-- sees: each has its own peer. Goroutines go on after the reply.
use agent_memory.Prelude.{
  ℕ, ◌+◌, ◌-◌, Bool, true, false, not, List, [], ◌∷◌, Option, none, some, if◌then◌else◌, Text,
  eq_text, ◌==◌,
}
use agent_memory.Prelude.Int.{ℤ, pos, ltb_int}
use agent_memory.Types.Version.{Version, zero_version}
use agent_memory.Types.Value.{Value, Policy, WriteReq}
use agent_memory.Conflict.Codec.{Codec}
use agent_memory.Store.Wal.{EntryCodec, Io}
use agent_memory.Cluster
use agent_memory.Repair.Hints
use agent_memory.Node.Coordinator.{
  Node, World, Fate, delivered, reply_lost, lost, update, validate_quorum, start_write,
  apply_replicate, replicate_write,
}

-- The texts of the errors.
pub data WriteError : Type 0 where
  no_error quorum_range quorum_timeout too_few_acks : WriteError

pub record WriteResp : Type 0 where
  pub ok : Bool
  pub version : Version
  pub acks_received : ℕ
  pub error : WriteError

-- The loop of `Write`: its two counters, and what it returned.
pub record Collect : Type 0 where
  pub acks : ℕ
  pub remaining : ℕ
  pub reply : Option WriteResp

unfoldable pub success : Version → ℕ → WriteResp
success ver acks = record { ok = true; version = ver; acks_received = acks; error = no_error }

unfoldable pub failure : Version → ℕ → WriteError → WriteResp
failure ver acks e = record { ok = false; version = ver; acks_received = acks; error = e }

-- The end of the loop, and what stands behind it.
unfoldable pub finish_loop : ℤ → Version → Collect → Collect
finish_loop quorum ver s =
    if not (s.remaining == 0)
    then s
    else if not (ltb_int (pos s.acks) quorum)
    then record s { reply = some (success ver s.acks) }
    else record s { reply = some (failure ver s.acks too_few_acks) }

-- `case r := <-ch`
unfoldable pub receive : ℤ → Version → Bool → Collect → Collect
receive quorum ver good s = elim s.reply [
  | some r ↦ s
  | none ↦
      let s' : Collect = record s { remaining = s.remaining - 1 } in
      let s'' : Collect = record s' { acks = s.acks + 1 } in
      if good
      then if not (ltb_int (pos s''.acks) quorum)
        then record s'' { reply = some (success ver s''.acks) }
        else finish_loop quorum ver s''
      else finish_loop quorum ver s'
]

-- `case <-ctx.Done()`
unfoldable pub expire : Version → Collect → Collect
expire ver s = elim s.reply [
  | some r ↦ s
  | none ↦ record s { reply = some (failure ver s.acks quorum_timeout) }
]

-- The goroutine of a peer ends, or the deadline passes. The call of the node's own `Apply` has no
-- transport, so of its fate only the outcome of the log counts.
pub data Event : Type 0 where
  finishes : Text → Fate → Event
  deadline : Event

abbrev pub io_of : Fate → Io
io_of (delivered io) = io
io_of (reply_lost io) = io
io_of lost = Io.written

module _ ⦃codec : Codec⦄ ⦃entries : EntryCodec⦄ where
  -- The goroutine for `peer` of the write by `self`: the world after it, and whether its error is nil.
  unfoldable pub goroutine : Text → Text → Value → Text → Fate → World → World × Bool
  goroutine self key payload peer fate w =
      let (own, applied) = apply_replicate (io_of fate) key payload (w self) in
      let (w', good) = replicate_write fate peer key payload w in
      let hinted : Node = record (w' self) {
        hints = Hints.store peer key payload (w' self).hints;
      } in
      if eq_text peer self
      then (update self own w, applied)
      else if not good
      then (update self hinted w', false)
      else (w', true)

  unfoldable pub step :
      Text → Text → Value → ℤ → Version → Event → World × Collect → World × Collect
  step self key payload quorum ver (finishes peer fate) (w, s) =
      let (w', good) = goroutine self key payload peer fate w in (w', receive quorum ver good s)
  step self key payload quorum ver deadline (w, s) = (w, expire ver s)

  unfoldable pub run :
      Text → Text → Value → ℤ → Version → List Event → World × Collect → World × Collect
  run self key payload quorum ver [] ws = ws
  run self key payload quorum ver (e ∷ es) ws =
      run self key payload quorum ver es (step self key payload quorum ver e ws)

  -- `Write` on the node `self` under a schedule; a reply of `none` says that the loop still waits.
  unfoldable pub write : Text → WriteReq → List Event → World → World × Option WriteResp
  write self req events w =
      let (n, ver, payload) = start_write req (w self) in
      let start : Collect = record {
        acks = 0;
        remaining = Cluster.n (w self).members;
        reply = none;
      } in
      let (w', s) = run self req.key payload req.w ver events (update self n w, start) in
      if not (validate_quorum req.w (w self))
      then (
        w,
        some (record {
          ok = false;
          version = zero_version;
          acks_received = 0;
          error = quorum_range;
        }),
      )
      else (w', s.reply)

  -- `Delete`
  unfoldable pub delete : Text → Text → ℤ → List Event → World → World × Option WriteResp
  delete self key w = write self (record {
    key = key;
    content = [];
    policy = Policy.lww;
    w = w;
    client_ts = pos 0;
    orset_op = [];
    orset_elem = [];
    tombstone = true;
  })
