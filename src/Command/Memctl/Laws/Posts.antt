-- ===== src/Command/Memctl/Laws/Posts.antt =====
-- The commands that write.
use agent_memory.Prelude.{◌≡◌, refl, ap, ◌∙◌, false, [], some, Text, codes, eq_text}
use agent_memory.Prelude.Int.{pos, eq_int}
use agent_memory.Types.Value.{Policy, parse_policy}
use agent_memory.Conflict.Codec.{Codec}
use agent_memory.Store.Wal.{EntryCodec}
use agent_memory.Node.Coordinator.{World}
use agent_memory.Node.Coordinator.Write.{write}
use agent_memory.Node.Server.{Request, Json, Context, Site, WriteBody, decoded, reply}
use agent_memory.Node.Server.Client.{handle_write, write_status, write_req}
use agent_memory.Node.Server.Routes.{Route, route, route_in, waits, serve_route, serve}
use agent_memory.Node.Server.Dispatch.{serve_at}
use agent_memory.Node.Server.Agreement.{handle_fact_agrees, handle_tag_agrees}
use agent_memory.AgentApi.{blank, put_fact, add_tag, remove_tag}
use agent_memory.Command.Query.{target_path, cut}
use agent_memory.Command.Memctl.{Options, cmd_write, cmd_fact, cmd_tag}
use agent_memory.Command.Memctl.Laws.{Marshal, request_of}

to_write : route (codes "/write") ≡ some Route.write
unfolding route route_in eq_text
to_write = refl

to_fact : route (codes "/fact") ≡ some Route.fact
unfolding route route_in eq_text
to_fact = refl

to_tag : route (codes "/tag") ≡ some Route.tag
unfolding route route_in eq_text
to_tag = refl

handle_write_decoded :
    ⦃json : Json⦄ ⦃codec : Codec⦄ ⦃kept : EntryCodec⦄ (self : Text) (ctx : Context) (r : Request)
    (w : World) (b : WriteBody) (policy : Policy)
    → json.write_body r.body ≡ decoded b
    → parse_policy b.policy ≡ some policy
    → handle_write self ctx r w ≡ reply write_status (write self (write_req b policy) ctx.events w)
unfolding handle_write
handle_write_decoded ⦃json⦄ self ctx r w b policy d p = rw (d, handle_write, p) refl

module _ ⦃json : Json⦄ (m : Marshal json) ⦃codec : Codec⦄ ⦃kept : EntryCodec⦄ (self : Text)
    (ctx : Context) (s : Site) where
  -- The command write is the coordinator's write, if its policy parses.
  pub serve-cmd_write :
      (o : Options) (policy : Policy)
      → parse_policy o.policy ≡ some policy
      → serve self ctx (request_of m (cmd_write o)) s
        ≡ waits
            (reply write_status (
              write self
                (record (blank o.key policy o.w) { content = o.content })
                ctx.events
                s.nodes))
            s
  unfolding serve_route request_of cmd_write write_req target_path cut
  serve-cmd_write o policy p =
      let r = request_of m (cmd_write o) in
      let b : WriteBody = record {
        key = o.key;
        content = o.content;
        policy = o.policy;
        w = o.w;
        client_ts = pos 0;
        orset_op = [];
        orset_elem = [];
        tombstone = false;
      } in
      serve_at self ctx s r (codes "/write") Route.write refl to_write
      ∙ ap (λ p. waits p s)
          (handle_write_decoded self ctx r s.nodes b policy
            (m.write_read o.key o.content o.w o.policy) p)

  -- The command put-fact is the call PutFact, if its policy parses.
  pub serve-put_fact :
      (o : Options) (policy : Policy)
      → parse_policy o.policy ≡ some policy
      → serve self ctx (request_of m (cmd_fact false o)) s
        ≡ waits
            (reply write_status
              (put_fact self o.entity o.attr o.value policy o.w ctx.events s.nodes))
            s
  unfolding serve_route request_of cmd_fact target_path cut eq_text
  serve-put_fact o policy p =
      let r = request_of m (cmd_fact false o) in
      serve_at self ctx s r (codes "/fact") Route.fact refl to_fact
      ∙ ap (λ p. waits p s)
          (handle_fact_agrees self ctx r s.nodes _ policy
            (m.fact_read o.entity o.attr o.value o.w o.policy) p)

  -- The commands add-tag and remove-tag of memctl at a node are the calls AddTag and RemoveTag of
  -- the agent API, answered with 200 or 503, if the number of acknowledgements asked for is not
  -- zero.
  pub serve-cmd_tag :
      (o : Options)
      → eq_int o.w (pos 0) ≡ false
      → (serve self ctx (request_of m (cmd_tag (codes "POST") o)) s
          ≡ waits (reply write_status (add_tag self o.entity o.tag o.w ctx.events s.nodes)) s)
        × (serve self ctx (request_of m (cmd_tag (codes "DELETE") o)) s
            ≡ waits (reply write_status (remove_tag self o.entity o.tag o.w ctx.events s.nodes)) s)
  unfolding serve_route request_of cmd_tag target_path cut eq_text
  serve-cmd_tag o z = (
    serve_at self ctx s (request_of m (cmd_tag (codes "POST") o)) (codes "/tag") Route.tag refl
          to_tag
        ∙ ap (λ p. waits p s)
            (handle_tag_agrees self ctx (request_of m (cmd_tag (codes "POST") o)) s.nodes
              (record { entity = o.entity; tag = o.tag; w = o.w }) (m.tag_read o.entity o.tag o.w) z
              refl),
    serve_at self ctx s (request_of m (cmd_tag (codes "DELETE") o)) (codes "/tag") Route.tag refl
          to_tag
        ∙ ap (λ p. waits p s)
            (handle_tag_agrees self ctx (request_of m (cmd_tag (codes "DELETE") o)) s.nodes
              (record { entity = o.entity; tag = o.tag; w = o.w }) (m.tag_read o.entity o.tag o.w) z
              refl),
  )
