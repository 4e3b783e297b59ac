-- ===== src/Node/Server.antt =====
-- internal/node/server.go: the HTTP server of a node. A request is its method, its path, its query and
-- the bytes of its body; an answer is its status and its body. What happens while a handler runs (the
-- schedules and the fates of the coordinator) is the context of the call. encoding/json is the
-- interface `Json`.
pub mod Numbers
pub mod Client
pub mod Peer
pub mod Debug
pub mod Routes
pub mod Dispatch
pub mod Refusals
pub mod Agreement
pub mod Acknowledged
pub mod Link
use agent_memory.Prelude.{ℕ, Bool, List, Option, none, some, Text, codes}
use agent_memory.Prelude.Int.{ℤ, pos}
use agent_memory.Map.{Map}
use agent_memory.Types.Value.{Value, HistoryEntry}
use agent_memory.Store.Wal.{Io}
use agent_memory.Net.Transport.{HttpTransport, ReplicateBody, KeyBody}
use agent_memory.Node.Coordinator.{World, Fate}
use agent_memory.Node.Coordinator.Write.{WriteResp, Event}
use agent_memory.Node.Coordinator.Read.{ReadResp, Answer}
use agent_memory.Node.Coordinator.Sync.{Contact}

-- `query` is `r.URL.Query().Get`, which gives the empty text for a missing key.
pub record Request : Type 0 where
  pub method : Text
  pub path : Text
  pub query : Text → Text
  pub body : Text

-- The structs that the bodies of requests are read into; the nodes' own are those of the transport. `content` is the field `Data`.
pub record WriteBody : Type 0 where
  pub key : Text
  pub content : Text
  pub policy : Text
  pub w : ℤ
  pub client_ts : ℤ
  pub orset_op : Text
  pub orset_elem : Text
  pub tombstone : Bool

pub record ReadBody : Type 0 where
  pub key : Text
  pub r : ℤ

pub record FactBody : Type 0 where
  pub entity : Text
  pub attribute : Text
  pub value : Text
  pub policy : Text
  pub w : ℤ

pub record TagBody : Type 0 where
  pub entity : Text
  pub tag : Text
  pub w : ℤ

pub record FaultBody : Type 0 where
  pub action : Text
  pub peers : List Text

-- The texts of the errors.
pub data Failure : Type 0 where
  bad_json unknown_policy wal_failed reads_disabled only_http bad_action : Failure

-- The values that the handlers print.
pub data Body : Type 0 where
  health : Text → ℕ → Body
  written : WriteResp → Body
  answered : ReadResp → Body
  entries : List HistoryEntry → Body
  facts : Map Text Value → Body
  done : Body
  found_value : Value → Bool → Body
  values : Map Text Value → Body
  hints : ℕ → List Text → Body
  fault : Text → List Text → Body
  synced : ℕ → ℕ → Body
  replayed : ℕ → Body
  failed : Failure → Body
  page_not_found : Body

pub record Response : Type 0 where
  pub status : ℕ
  pub body : Body

-- What `Decode` gives: an empty body is io.EOF, any other error is of the text or of a type.
pub data Decoded (A : Type 0) : Type 0 where
  decoded : A → Decoded A
  end_of_file malformed : Decoded A

-- `Decode` at the types that the handlers and the transport use it at, and `Encode` at those that
-- they print. A field that the text lacks keeps its zero value, and one that the struct lacks is
-- skipped, so an object with an error alone decodes as an answer that finds nothing.
pub record Json : Type 0 where
  pub write_body : Text → Decoded WriteBody
  pub read_body : Text → Decoded ReadBody
  pub fact_body : Text → Decoded FactBody
  pub tag_body : Text → Decoded TagBody
  pub replicate_body : Text → Decoded ReplicateBody
  pub key_body : Text → Decoded KeyBody
  pub fault_body : Text → Decoded FaultBody
  pub encode : Body → Text

-- What happens while a handler runs.
pub record Context : Type 0 where
  pub events : List Event
  pub answers : List Answer
  pub fates : Text → Fate
  pub io : Io
  pub contacts : Text → Contact
  pub hint_fates : Text → Text → Fate
  pub meanwhile : Text → List (Text × Value)

-- The nodes, and the HTTP transport of each; `none` is a transport of another kind.
pub record Site : Type 0 where
  pub nodes : World
  pub nets : Text → Option HttpTransport

-- `writeJSON`
abbrev pub write_json : ℕ → Body → Response
write_json status body = record { status = status; body = body }

-- A handler that ends with an answer, or waits as the coordinator does.
abbrev pub reply : {A : Type 0} → (A → Response) → World × Option A → World × Option Response
reply f (w, none) = (w, none)
reply f (w, some a) = (w, some (f a))
