-- ===== src/Node/Endpoint/Laws.antt =====
-- What becomes of a call through the fault injector.
use agent_memory.Prelude.{ℕ, ◌≡◌, refl, Bool, if◌then◌else◌, Text, Bool-cases, inl, inr}
use agent_memory.Types.Value.{Value}
use agent_memory.Conflict.Codec.{Codec}
use agent_memory.Store.Wal.{EntryCodec, Io}
use agent_memory.Net.Faults.{Chance, Network}
use agent_memory.Node.Coordinator
use agent_memory.Node.Coordinator.{
  World, Fate, delivered, lost, update, apply_replicate, serve_read, serve_digest,
}
use agent_memory.Node.Endpoint.{send, replicate_write}

module _ (c : Chance) (hook : Text → Text → ℕ → Network c → Network c) (expires : Bool) where
  -- The fate of a call.
  abbrev fate_of : Io → Text → Text → Network c → Fate
  fate_of io from to n = if (send c hook expires from to n).1 then delivered io else lost

  module _ ⦃codec : Codec⦄ ⦃entries : EntryCodec⦄ (io : Io) where
    -- A write through the fault injector is one of the coordinator's transport under a fate.
    pub replicate_write_fate :
        (from to key : Text) (val : Value) (w : World) (n : Network c)
        → (
          (replicate_write c hook expires io from to key val w n).1,
          (replicate_write c hook expires io from to key val w n).2,
        )
          ≡ Coordinator.replicate_write (fate_of io from to n) to key val w
    unfolding replicate_write Coordinator.replicate_write
    replicate_write_fate from to key val w n = elim (Bool-cases (send c hook expires from to n).1) [
      | inl e ↦ rw (replicate_write, e, Coordinator.replicate_write) refl
      | inr e ↦ rw (replicate_write, e, Coordinator.replicate_write) refl
    ]
