-- ===== src/Command/Start/Laws.antt =====
-- What a node has when it starts.
use agent_memory.Prelude.{◌≡◌, [], none, some, Text}
use agent_memory.Prelude.Order.{list_ord}
use agent_memory.Map.{Map}
use agent_memory.Conflict.Codec.{Codec}
use agent_memory.Store.Wal.{Wal, EntryCodec, open_wal}
use agent_memory.Cluster
use agent_memory.Cluster.Laws.{IsMembership}
use agent_memory.Net.Transport.{addr_of}
use agent_memory.Node.Replica.{new_replica}
use agent_memory.Command.Start.{Started}

-- A node `self` with the log `bytes` behind it, and its transport.
pub record IsStarted ⦃codec : Codec⦄ ⦃entries : EntryCodec⦄ (self bytes : Text) (st : Started)
    : Type 0 where
  pub members : IsMembership self st.running.node.members
  pub addrs : (j : Text) → addr_of j st.net ≡ Cluster.addr j st.running.node.members
  pub recovered :
      elim (open_wal (some bytes)) [ none ↦ none | some w ↦ some (new_replica self (some w)) ]
      ≡ some st.running.node.replica
  pub fresh : (st.running.node.tag_counter ≡ 0) × (st.running.node.hints ≡ [])
