-- ===== src/Node/Server/Acknowledged.antt =====
-- A write and a read of the HTTP API, end to end.
use agent_memory.Prelude.{◌≡◌, Option, some}
use agent_memory.Types.Value.{Value, Policy}
use agent_memory.Conflict.Codec.{Codec}
use agent_memory.Conflict.Resolve.{resolve}
use agent_memory.Conflict.Resolve.Laws.{IsOf}
use agent_memory.Cluster
use agent_memory.Node.Coordinator.{World}
use agent_memory.Node.Coordinator.Read.{ReadResp}
use agent_memory.Node.Server.{Response, answered}

-- An answer that shows a value of the policy that includes another.
pub record IsShown ⦃codec : Codec⦄ (p : Policy) (v : Value) (resp : Response) : Type 0 where
  pub resp_of : ReadResp
  pub body : resp.body ≡ answered resp_of
  pub is_of : IsOf p resp_of.value
  pub includes : resolve v resp_of.value ≡ resp_of.value

-- The coordinator's answer behind an answer of a handler.
record IsReply {A : Type 0} (f : A → Response) (p : World × Option A) (w : World) (resp : Response)
    : Type 0 where
  inner : A
  at : p ≡ (w, some inner)
  sent : f inner ≡ resp
