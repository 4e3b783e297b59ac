-- ===== src/Node/Endpoint.antt =====
-- The endpoints of internal/net/faultnet.go: the calls of the transport through the fault injector. The
-- handler of an id is the node of the world. Whether the context of a call expires while it sleeps is
-- an argument, as is the hook.
pub mod Laws
use agent_memory.Prelude.{
  ℕ, Bool, true, false, not, ◌&&◌, ◌||◌, Option, none, some, if◌then◌else◌, Text, eq_text, ◌==◌,
}
use agent_memory.Prelude.Order.{list_ord}
use agent_memory.Map.{Map, lookup}
use agent_memory.Types.Value.{Value}
use agent_memory.Conflict.Codec.{Codec}
use agent_memory.Store.Wal.{EntryCodec, Io}
use agent_memory.Net.Faults.{Chance, Network, dispatch}
use agent_memory.Node.Coordinator.{World, update, apply_replicate, serve_read, serve_digest}

-- It ends without an error: nothing to wait for, or the time passes before the context expires.
abbrev pub sleep : Bool → ℕ → Bool
sleep expires d = d == 0 || not expires

module _ (c : Chance) where
  -- The delay that `allowLocked` returns for a send that passes.
  unfoldable pub delay_of : Text → Text → Network c → ℕ
  delay_of from to n =
      let d : ℕ = elim (lookup from n.delay) [
        | none ↦ 0
        | some m ↦ elim (lookup to m) [ none ↦ 0 | some d ↦ d ]
      ] in
      if eq_text from to then 0 else d

  module _ (hook : Text → Text → ℕ → Network c → Network c) (expires : Bool) where
    -- From `dispatch` to the end of the sleep: whether the handler is called.
    unfoldable pub send : Text → Text → Network c → Network c × Bool
    send from to n =
        let (n', good) = dispatch c hook from to n in
        (n', good && sleep expires (delay_of from to n))

    -- `ReplicateRead`; `none` is an error.
    unfoldable pub replicate_read :
        Text → Text → Text → World → Network c → Network c × Option (Option Value)
    replicate_read from to key w n =
        let (n', good) = send from to n in (n', if good then serve_read key (w to) else none)

    unfoldable pub get_digest :
        Text → Text → World → Network c → Network c × Option (Map Text Value)
    get_digest from to w n =
        let (n', good) = send from to n in (n', if good then some (serve_digest (w to)) else none)

    module _ ⦃codec : Codec⦄ ⦃entries : EntryCodec⦄ (io : Io) where
      unfoldable pub replicate_write :
          Text → Text → Text → Value → World → Network c → Network c × World × Bool
      replicate_write from to key val w n =
          let (n', sent) = send from to n in
          let (node, good) = apply_replicate io key val (w to) in
          if sent then (n', update to node w, good) else (n', w, false)

      unfoldable pub replay_hint :
          Text → Text → Text → Value → World → Network c → Network c × World × Bool
      replay_hint from to key val w n = replicate_write from to key val w n
