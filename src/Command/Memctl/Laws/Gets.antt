-- ===== src/Command/Memctl/Laws/Gets.antt =====
-- The commands that read.
use agent_memory.Prelude.{
  ℕ, ◌<◌, ◌≡◌, refl, ap, ◌∙◌, true, false, List, [], ◌∷◌, ◌++◌, some, Text, codes, eq_text, digits,
}
use agent_memory.Prelude.Int.{ℤ, pos}
use agent_memory.Types.Printing.{show_int}
use agent_memory.Conflict.Codec.{Codec}
use agent_memory.Store.Wal.{EntryCodec}
use agent_memory.Node.Coordinator.Read.{read}
use agent_memory.Node.Server.{Request, Json, Context, Site, reply}
use agent_memory.Node.Server.Numbers.{set_int}
use agent_memory.Node.Server.Numbers.Laws.{parse_int-digits}
use agent_memory.Node.Server.Client.{read_ok, handle_fact}
use agent_memory.Node.Server.Routes.{Route, route, route_in, waits, serve_route, serve}
use agent_memory.Node.Server.Dispatch.{serve_at}
use agent_memory.Node.Coordinator.{World}
use agent_memory.AgentApi.{get_fact}
use agent_memory.Store.FactKey.{fact_key}
use agent_memory.Command.Query.{target_path, target_get}
use agent_memory.Command.Query.Laws.{
  IsPlainText, AllPlain, join, find, target_path-join, target_get-join,
}
use agent_memory.Command.Memctl.{Options, cmd_fact}
use agent_memory.Command.Memctl.Laws.{Marshal, request_of, digits-IsPlainText}

read_pairs : Options → ℕ → List (Text × Text)
read_pairs o n = (codes "key", o.key) ∷ (codes "r", digits 20 n) ∷ []

fact_pairs : Options → ℕ → List (Text × Text)
fact_pairs o n =
    (codes "entity", o.entity) ∷ (codes "attribute", o.attr) ∷ (codes "r", digits 20 n) ∷ []

fact_target :
    (o : Options) (n : ℕ)
    → o.r ≡ pos n
    → (cmd_fact true o).target ≡ codes "/fact" ++ b'?' ∷ join (fact_pairs o n)
unfolding cmd_fact show_int fact_pairs
fact_target o n e = rw e refl

fact_plain :
    (o : Options) (n : ℕ) → IsPlainText o.entity → IsPlainText o.attr → AllPlain (fact_pairs o n)
unfolding fact_pairs
fact_plain o n h k = (
  ((refl, (refl, (refl, (refl, (refl, (refl, tt)))))), h),
  (
    ((refl, (refl, (refl, (refl, (refl, (refl, (refl, (refl, (refl, tt))))))))), k),
    (((refl, tt), digits-IsPlainText 20 n), tt),
  ),
)

to_fact : route (codes "/fact") ≡ some Route.fact
unfolding route route_in eq_text
to_fact = refl

module _ ⦃json : Json⦄ (m : Marshal json) where
  set_int-digits : (n : ℕ) (d : ℤ) → n < 9223372036854775808 → set_int (digits 20 n) d ≡ pos n
  unfolding set_int
  set_int-digits n d h = rw (parse_int-digits n h, set_int) refl

  fact_request :
      (o : Options) (n : ℕ)
      → IsPlainText o.entity
      → IsPlainText o.attr
      → o.r ≡ pos n
      → ((request_of m (cmd_fact true o)).path ≡ codes "/fact")
        × ((request_of m (cmd_fact true o)).query (codes "entity") ≡ o.entity)
        × ((request_of m (cmd_fact true o)).query (codes "attribute") ≡ o.attr)
        × ((request_of m (cmd_fact true o)).query (codes "r") ≡ digits 20 n)
  unfolding request_of fact_pairs eq_text
  fact_request o n h k e =
      let p = fact_plain o n h k in
      let more : List (Text × Text) = (codes "attribute", o.attr) ∷ (codes "r", digits 20 n) ∷ [] in
      let get : (key : Text)
          → target_get (cmd_fact true o).target key ≡ find key ((codes "entity", o.entity) ∷ more) =
        λ key.
          ap (λ t. target_get t key) (fact_target o n e)
          ∙ target_get-join (codes "/fact") key (codes "entity") o.entity more refl p in
      (
        ap target_path (fact_target o n e)
            ∙ target_path-join (codes "/fact") (fact_pairs o n) refl p,
        get (codes "entity"),
        get (codes "attribute"),
        get (codes "r"),
      )

  handle_fact-get :
      ⦃codec : Codec⦄ ⦃kept : EntryCodec⦄ (self : Text) (ctx : Context) (r : Request) (w : World)
      → eq_text r.method (codes "POST") ≡ false
      → handle_fact self ctx r w
        ≡ reply read_ok (
            read self
              (record {
                key = r.query (codes "entity") ++ (codes ":" ++ r.query (codes "attribute"));
                r = set_int (r.query (codes "r")) (pos 2);
              })
              ctx.fates
              ctx.answers
              w)
  unfolding handle_fact
  handle_fact-get self ctx r w g = rw (g, handle_fact) refl

  fact_is_get :
      (o : Options) → eq_text (request_of m (cmd_fact true o)).method (codes "POST") ≡ false
  unfolding request_of cmd_fact eq_text
  fact_is_get o = refl

  module _ ⦃codec : Codec⦄ ⦃kept : EntryCodec⦄ (self : Text) (ctx : Context) (s : Site) where
    -- The command get-fact is the call GetFact, for an entity and an attribute with no byte of its own
    -- meaning in a query.
    pub serve-get_fact :
        (o : Options) (n : ℕ)
        → IsPlainText o.entity
        → IsPlainText o.attr
        → o.r ≡ pos n
        → n < 9223372036854775808
        → serve self ctx (request_of m (cmd_fact true o)) s
          ≡ waits
              (reply read_ok (get_fact self o.entity o.attr o.r ctx.fates ctx.answers s.nodes))
              s
    unfolding serve_route get_fact fact_key
    serve-get_fact o n h k e small =
        let r = request_of m (cmd_fact true o) in
        let (path, entity, attr, q) = fact_request o n h k e in
        serve_at self ctx s r (codes "/fact") Route.fact path to_fact
        ∙ ap (λ p. waits p s) (handle_fact-get self ctx r s.nodes (fact_is_get o))
        ∙ rw (entity, attr, q, set_int-digits n (pos 2) small, e) refl
