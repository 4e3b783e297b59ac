-- ===== src/AgentApi.antt =====
-- internal/agentapi/memory.go: facts and tags over the coordinator. The context of a call is its
-- schedule.
pub mod Laws
use agent_memory.Prelude.{
  false, List, [], ◌++◌, Option, none, some, if◌then◌else◌, not, Text, codes,
}
use agent_memory.Prelude.Int.{ℤ, pos}
use agent_memory.Map.{Map}
use agent_memory.Types.Value.{Value, Policy, WriteReq, ReadReq, HistoryEntry}
use agent_memory.Conflict.Codec.{Codec}
use agent_memory.Conflict.OrSet.{orset_elements}
use agent_memory.Store.Wal.{EntryCodec}
use agent_memory.Store.Kv
use agent_memory.Store.FactKey.{fact_key}
use agent_memory.Node.Replica
use agent_memory.Node.Coordinator.{World, Fate}
use agent_memory.Node.Coordinator.Write.{WriteResp, Event, write}
use agent_memory.Node.Coordinator.Read.{ReadResp, Answer, read}

-- A request with the zero values of Go.
abbrev pub blank : Text → Policy → ℤ → WriteReq
blank key policy w = record {
  key = key;
  content = [];
  policy = policy;
  w = w;
  client_ts = pos 0;
  orset_op = [];
  orset_elem = [];
  tombstone = false;
}

-- The facts of an entity on this node.
unfoldable pub get_facts : Text → Text → World → Map Text Value
get_facts self entity w = Kv.prefix (entity ++ codes ":") (w self).replica.kv

unfoldable pub get_history : Text → Text → Text → World → List HistoryEntry
get_history self entity attribute w = Replica.history (fact_key entity attribute) (w self).replica

module _ ⦃codec : Codec⦄ where
  unfoldable pub decode_string : Value → Text
  decode_string v = elim v.policy [
    | Policy.crdt_orset ↦ codec.marshal_strings (orset_elements v)
    | _ ↦ v.content
  ]

  module _ ⦃entries : EntryCodec⦄ (self : Text) where
    unfoldable pub put_fact :
        Text → Text → Text → Policy → ℤ → List Event → World → World × Option WriteResp
    put_fact entity attribute value policy w events world =
        write self (record (blank (fact_key entity attribute) policy w) { content = value }) events
          world

    unfoldable pub get_fact :
        Text → Text → ℤ → (Text → Fate) → List Answer → World → World × Option ReadResp
    get_fact entity attribute r = read self (record { key = fact_key entity attribute; r = r })

    unfoldable pub add_tag : Text → Text → ℤ → List Event → World → World × Option WriteResp
    add_tag entity tag w events world =
        write self
          (record (blank (fact_key entity (codes "tags")) Policy.crdt_orset w) {
            orset_op = codes "add";
            orset_elem = tag;
          })
          events world

    unfoldable pub remove_tag : Text → Text → ℤ → List Event → World → World × Option WriteResp
    remove_tag entity tag w events world =
        write self
          (record (blank (fact_key entity (codes "tags")) Policy.crdt_orset w) {
            orset_op = codes "remove";
            orset_elem = tag;
          })
          events world

    -- The tags are `none` while the read still waits.
    unfoldable pub get_tags :
        Text → ℤ → (Text → Fate) → List Answer → World → World × Option (List Text × ReadResp)
    get_tags entity r fates answers world =
        let (world', resp) = get_fact entity (codes "tags") r fates answers world in
        (
          world',
          elim resp [
            | none ↦ none
            | some a ↦ if not a.found then some ([], a) else some (orset_elements a.value, a)
          ],
        )
