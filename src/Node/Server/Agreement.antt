-- ===== src/Node/Server/Agreement.antt =====
-- The handlers of facts and tags against the agent API of internal/agentapi/memory.go.
use agent_memory.Prelude.{
  ◌≡◌, refl, false, some, if◌then◌else◌, Text, codes, eq_text, Bool-cases, inl, inr,
}
use agent_memory.Prelude.Int.{pos, eq_int}
use agent_memory.Types.Value.{Policy, parse_policy}
use agent_memory.Conflict.Codec.{Codec}
use agent_memory.Store.FactKey.{fact_key}
use agent_memory.Store.Wal.{EntryCodec}
use agent_memory.Node.Coordinator.{World}
use agent_memory.Node.Server.{Request, FactBody, TagBody, decoded, Json, Context, reply}
use agent_memory.Node.Server.Client.{
  handle_fact, handle_tag, change_tag, write_status, read_ok, fact_req, tag_req,
}
use agent_memory.Node.Server.Numbers.{set_int}
use agent_memory.AgentApi.{put_fact, get_fact, add_tag, remove_tag}

module _ ⦃json : Json⦄ ⦃codec : Codec⦄ ⦃kept : EntryCodec⦄ (self : Text) (ctx : Context)
    (r : Request) (w : World) where
  -- A fact over HTTP is put and got as the agent API does, if its body and its policy parse.
  pub handle_fact_agrees :
      (b : FactBody) (policy : Policy)
      → json.fact_body r.body ≡ decoded b
      → parse_policy b.policy ≡ some policy
      → handle_fact self ctx r w ≡ (
          if eq_text r.method (codes "POST")
          then reply write_status
              (put_fact self b.entity b.attribute b.value policy b.w ctx.events w)
          else reply read_ok (
              get_fact self
                (r.query (codes "entity"))
                (r.query (codes "attribute"))
                (set_int (r.query (codes "r")) (pos 2))
                ctx.fates
                ctx.answers
                w))
  unfolding handle_fact put_fact get_fact fact_key fact_req
  handle_fact_agrees b policy d p = rw (d, fact_req, p) refl

  -- A tag over HTTP is added and removed as the agent API does, if its body parses and asks for some
  -- acknowledgements.
  pub handle_tag_agrees :
      (b : TagBody)
      → json.tag_body r.body ≡ decoded b
      → eq_int b.w (pos 0) ≡ false
      → eq_text r.method (codes "GET") ≡ false
      → handle_tag self ctx r w
        ≡ reply write_status (
            if eq_text r.method (codes "DELETE")
            then remove_tag self b.entity b.tag b.w ctx.events w
            else add_tag self b.entity b.tag b.w ctx.events w)
  unfolding handle_tag change_tag remove_tag add_tag fact_key tag_req
  handle_tag_agrees b d z g = elim (Bool-cases (eq_text r.method (codes "DELETE"))) [
    | inl k ↦ rw (g, handle_tag, d, change_tag, z, tag_req, k) refl
    | inr k ↦ rw (g, handle_tag, d, change_tag, z, tag_req, k) refl
  ]
