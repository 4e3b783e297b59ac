-- ===== src/Node/Server/Routes.antt =====
-- The routes of `NewHTTPServer`. A path is clean, so that the multiplexer compares it with a pattern
-- as it is; an answer of `none` is a handler that still waits.
use agent_memory.Prelude.{List, [], ◌∷◌, Option, none, some, if◌then◌else◌, Text, codes, eq_text}
use agent_memory.Conflict.Codec.{Codec}
use agent_memory.Store.Wal.{EntryCodec}
use agent_memory.Net.Transport.{HttpTransport}
use agent_memory.Node.Coordinator.{World}
use agent_memory.Node.Server.{Request, Response, Json, Context, Site, write_json, page_not_found}
use agent_memory.Node.Server.Client.{
  handle_health, handle_write, handle_read, handle_delete, handle_history, handle_fact,
  handle_facts, handle_tag,
}
use agent_memory.Node.Server.Peer.{handle_replicate, handle_internal_read, handle_digest}
use agent_memory.Node.Server.Debug.{
  handle_debug_kv, handle_debug_hints, handle_fault, handle_anti_entropy, handle_handoff,
}

-- The handlers by name.
pub data Route : Type 0 where
  health write read delete history fact facts tag : Route
  replicate internal_read digest : Route
  debug_kv debug_hints debug_fault anti_entropy handoff : Route

abbrev pub patterns : List (Text × Route)
patterns =
    (codes "/health", health)
    ∷ (codes "/write", write)
    ∷ (codes "/read", read)
    ∷ (codes "/delete", delete)
    ∷ (codes "/history", history)
    ∷ (codes "/fact", fact)
    ∷ (codes "/facts", facts)
    ∷ (codes "/tag", tag)
    ∷ (codes "/internal/replicate", replicate)
    ∷ (codes "/internal/read", internal_read)
    ∷ (codes "/internal/digest", digest)
    ∷ (codes "/internal/hint", replicate)
    ∷ (codes "/debug/kv", debug_kv)
    ∷ (codes "/debug/hints", debug_hints)
    ∷ (codes "/debug/fault", debug_fault)
    ∷ (codes "/debug/anti-entropy", anti_entropy)
    ∷ (codes "/debug/handoff", handoff)
    ∷ []

unfoldable pub route_in : Text → List (Text × Route) → Option Route
route_in path [] = none
route_in path ((p, h) ∷ ps) = let rest = route_in path ps in if eq_text path p then some h else rest

unfoldable pub route : Text → Option Route
route path = route_in path patterns

-- A handler that only reads, one that changes the nodes, and one that may wait.
abbrev pub reads : Response → Site → Site × Option Response
reads resp s = (s, some resp)

abbrev pub changes : World × Response → Site → Site × Option Response
changes (w, resp) s = (record s { nodes = w }, some resp)

abbrev pub waits : World × Option Response → Site → Site × Option Response
waits (w, resp) s = (record s { nodes = w }, resp)

-- id's transport replaced
unfoldable pub set_net : Text → Option HttpTransport → Site → Site
set_net id t s = record s { nets = λ j. if eq_text id j then t else s.nets j }

module _ ⦃json : Json⦄ ⦃codec : Codec⦄ ⦃entries : EntryCodec⦄ where
  unfoldable pub serve_route : Route → Text → Context → Request → Site → Site × Option Response
  serve_route health self ctx r s = reads (handle_health self s.nodes) s
  serve_route write self ctx r s = waits (handle_write self ctx r s.nodes) s
  serve_route read self ctx r s = waits (handle_read self ctx r s.nodes) s
  serve_route delete self ctx r s = waits (handle_delete self ctx r s.nodes) s
  serve_route history self ctx r s = reads (handle_history self r s.nodes) s
  serve_route fact self ctx r s = waits (handle_fact self ctx r s.nodes) s
  serve_route facts self ctx r s = reads (handle_facts self r s.nodes) s
  serve_route tag self ctx r s = waits (handle_tag self ctx r s.nodes) s
  serve_route replicate self ctx r s = changes (handle_replicate self ctx r s.nodes) s
  serve_route internal_read self ctx r s = reads (handle_internal_read self r s.nodes) s
  serve_route digest self ctx r s = reads (handle_digest self s.nodes) s
  serve_route debug_kv self ctx r s = reads (handle_debug_kv self r s.nodes) s
  serve_route debug_hints self ctx r s = reads (handle_debug_hints self s.nodes) s
  serve_route debug_fault self ctx r s =
      let (t, resp) = handle_fault r (s.nets self) in (set_net self t s, some resp)
  serve_route anti_entropy self ctx r s = changes (handle_anti_entropy self ctx s.nodes) s
  serve_route handoff self ctx r s = changes (handle_handoff self ctx s.nodes) s

  -- The handler of the server of the node `self`.
  unfoldable pub serve : Text → Context → Request → Site → Site × Option Response
  serve self ctx r s = elim (route r.path) [
    | none ↦ (s, some (write_json 404 page_not_found))
    | some h ↦ serve_route h self ctx r s
  ]
