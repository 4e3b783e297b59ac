-- ===== src/Node/Server/Refusals.antt =====
-- Requests that the server refuses.
use agent_memory.Prelude.{
  ℕ, ◌⊎◌, ◌≡◌, refl, ap, subst, fun_ext, ◌∙◌, Bool, true, false, ◌&&◌, [], Option, none, some,
  if◌then◌else◌, Text, codes, arith, ltb, leb, eq_text, Text-cases, Bool-cases, Option-cases, inl,
  inr,
}
use agent_memory.Types.Value.{parse_policy}
use agent_memory.Conflict.Codec.{Codec}
use agent_memory.Store.Wal.{EntryCodec}
use agent_memory.Net.Transport.{HttpTransport}
use agent_memory.Node.Coordinator.{World, apply_replicate}
use agent_memory.Node.Coordinator.Write.{WriteResp, write, delete}
use agent_memory.Node.Coordinator.Read.{
  ReadResp, ReadError, no_error, quorum_range, too_few_responses, read,
}
use agent_memory.Node.Server.{
  Request, Response, Decoded, decoded, end_of_file, malformed, Json, Context, Site, write_json,
  reply, FaultBody, failed, done, wal_failed,
}
use agent_memory.Node.Server.Peer.{handle_replicate}
use agent_memory.Node.Server.Debug.{
  handle_fault, apply_fault, toggle, handle_anti_entropy, handle_handoff,
}
use agent_memory.Node.Server.Routes.{Route, route, waits, changes, set_net, serve_route, serve}
use agent_memory.Node.Server.Client.{
  handle_write, handle_read, handle_delete, handle_fact, handle_tag, change_tag, write_status,
  read_status, read_ok, read_args, write_req, fact_req,
}

-- A status from 400 to 499.
abbrev pub is_refusal : ℕ → Bool
is_refusal status = leb 400 status && ltb status 500

-- A refusal changes nothing.
abbrev Spares : {S : Type 0} → S → S × Option Response → Type 0
Spares s (s', none) = Unit
Spares s (s', some r) = is_refusal r.status ≡ true → s' ≡ s

Decoded-cases :
    {A : Type 0} (d : Decoded A)
    → ((a : A) × (d ≡ decoded a)) ⊎ ((d ≡ end_of_file) ⊎ (d ≡ malformed))
Decoded-cases (decoded a) = inl (a, refl)
Decoded-cases end_of_file = inr (inl refl)
Decoded-cases malformed = inr (inr refl)

reply-Spares :
    {A : Type 0} (f : A → Response) (w : World) (p : World × Option A)
    → ((a : A) → is_refusal (f a).status ≡ false)
    → Spares w (reply f p)
reply-Spares f w (w', none) h = tt
reply-Spares f w (w', some a) h = λ e. absurd (ground (arith, h a, e))

write_status_lem : (resp : WriteResp) → is_refusal (write_status resp).status ≡ false
write_status_lem resp = ground arith

read_status_lem :
    (e : ReadError) (resp : ReadResp)
    → resp.error ≡ e
    → is_refusal (read_status resp).status ≡ false
read_status_lem no_error resp h = ground (arith, h)
read_status_lem quorum_range resp h = ground (arith, h)
read_status_lem too_few_responses resp h = ground (arith, h)

not_refused :
    (good : Bool)
    → is_refusal (if good then write_json 200 done else write_json 500 (failed wal_failed)).status
      ≡ true
    → ⊥
not_refused good h = absurd (ground (arith, h))

same_net :
    (id j : Text) (nets : Text → Option HttpTransport)
    → (if eq_text id j then nets id else nets j) ≡ nets j
same_net id j nets = elim (Text-cases id j) [ inl e ↦ rw e (ground arith) | inr g ↦ rw g refl ]

module _ ⦃json : Json⦄ ⦃codec : Codec⦄ ⦃kept : EntryCodec⦄ where
  handle_write-Spares :
      (self : Text) (ctx : Context) (r : Request) (w : World) → Spares w (handle_write self ctx r w)
  unfolding handle_write
  handle_write-Spares self ctx r w = elim (Decoded-cases (json.write_body r.body)) [
    | inl (b, e) ↦ elim (Option-cases (parse_policy b.policy)) [
      | inl p ↦ rw (e, handle_write, p) (λ h. refl)
      | inr (policy, p) ↦
          rw (e, handle_write, p)
            (reply-Spares write_status w (write self (write_req b policy) ctx.events w)
              write_status_lem)
    ]
    | inr (inl e) ↦ rw (e, handle_write) (λ h. refl)
    | inr (inr e) ↦ rw (e, handle_write) (λ h. refl)
  ]

  handle_delete-Spares :
      (self : Text) (ctx : Context) (r : Request) (w : World)
      → Spares w (handle_delete self ctx r w)
  unfolding handle_delete
  handle_delete-Spares self ctx r w = elim (Decoded-cases (json.write_body r.body)) [
    | inl (b, e) ↦
        rw (e, handle_delete)
          (reply-Spares write_status w (delete self b.key b.w ctx.events w) write_status_lem)
    | inr (inl e) ↦ rw (e, handle_delete) (λ h. refl)
    | inr (inr e) ↦ rw (e, handle_delete) (λ h. refl)
  ]

  handle_read-Spares :
      (self : Text) (ctx : Context) (r : Request) (w : World) → Spares w (handle_read self ctx r w)
  unfolding handle_read
  handle_read-Spares self ctx r w =
      let (key, rr) = read_args r in
      reply-Spares read_status w (read self (record { key = key; r = rr }) ctx.fates ctx.answers w)
        (λ a. read_status_lem a.error a refl)

  handle_fact-Spares :
      (self : Text) (ctx : Context) (r : Request) (w : World) → Spares w (handle_fact self ctx r w)
  unfolding handle_fact
  handle_fact-Spares self ctx r w = elim (Bool-cases (eq_text r.method (codes "POST"))) [
    | inr g ↦ rw (g, handle_fact) (reply-Spares read_ok w _ (λ a. refl))
    | inl g ↦ elim (Decoded-cases (json.fact_body r.body)) [
      | inl (b, e) ↦
          rw (g, handle_fact, e)
            (reply-Spares write_status w (write self (fact_req b) ctx.events w) write_status_lem)
      | inr (inl e) ↦ rw (g, handle_fact, e) (λ h. refl)
      | inr (inr e) ↦ rw (g, handle_fact, e) (λ h. refl)
    ]
  ]

  change_tag-Spares :
      (self : Text) (ctx : Context) (r : Request) (w : World) → Spares w (change_tag self ctx r w)
  unfolding change_tag
  change_tag-Spares self ctx r w = elim (Decoded-cases (json.tag_body r.body)) [
    | inl (b, e) ↦ rw (e, change_tag) (reply-Spares write_status w _ write_status_lem)
    | inr (inl e) ↦ rw (e, change_tag) (λ h. refl)
    | inr (inr e) ↦ rw (e, change_tag) (λ h. refl)
  ]

  handle_tag-Spares :
      (self : Text) (ctx : Context) (r : Request) (w : World) → Spares w (handle_tag self ctx r w)
  unfolding handle_tag
  handle_tag-Spares self ctx r w = elim (Bool-cases (eq_text r.method (codes "GET"))) [
    | inl g ↦ rw (g, handle_tag) (reply-Spares read_ok w _ (λ a. refl))
    | inr g ↦ rw (g, handle_tag) (change_tag-Spares self ctx r w)
  ]

  handle_replicate-Spares :
      (self : Text) (ctx : Context) (r : Request) (w : World)
      → Spares w ((handle_replicate self ctx r w).0, some (handle_replicate self ctx r w).1)
  unfolding handle_replicate
  handle_replicate-Spares self ctx r w = elim (Decoded-cases (json.replicate_body r.body)) [
    | inl (b, e) ↦
        rw (e, handle_replicate)
          (λ h. absurd (not_refused (apply_replicate ctx.io b.key b.value (w self)).1 h))
    | inr (inl e) ↦ rw (e, handle_replicate) (λ h. refl)
    | inr (inr e) ↦ rw (e, handle_replicate) (λ h. refl)
  ]

  apply_fault-Spares :
      (b : FaultBody) (t : HttpTransport)
      → is_refusal (apply_fault b t).1.status ≡ true
      → (apply_fault b t).0 ≡ t
  unfolding apply_fault
  apply_fault-Spares b t h = elim (Option-cases (toggle b t)) [
    | inl e ↦ rw (e, apply_fault) refl
    | inr (t', e) ↦ absurd (ground (arith, h, e))
  ]

  handle_fault-Spares :
      (r : Request) (o : Option HttpTransport)
      → is_refusal (handle_fault r o).1.status ≡ true
      → (handle_fault r o).0 ≡ o
  unfolding handle_fault
  handle_fault-Spares r none h = refl
  handle_fault-Spares r (some t) h = elim (Decoded-cases (json.fault_body r.body)) [
    | inl (b, e) ↦
        rw (e, handle_fault) (ap some (apply_fault-Spares b t (rw (e, handle_fault) at h)))
    | inr (inl e) ↦
        rw (e, handle_fault)
          (ap some
            (apply_fault-Spares (record { action = []; peers = [] }) t (rw (e, handle_fault) at h)))
    | inr (inr e) ↦ rw (e, handle_fault) refl
  ]

  waits-Spares : (s : Site) (p : World × Option Response) → Spares s.nodes p → Spares s (waits p s)
  waits-Spares s (w, none) h = tt
  waits-Spares s (w, some r) h = λ e. ap (λ x. record s { nodes = x }) (h e)

  changes-Spares :
      (s : Site) (p : World × Response) → Spares s.nodes (p.0, some p.1) → Spares s (changes p s)
  changes-Spares s (w, r) h = λ e. ap (λ x. record s { nodes = x }) (h e)

  set_net_same : (id : Text) (s : Site) → set_net id (s.nets id) s ≡ s
  unfolding set_net
  set_net_same id s = ap (λ x. record s { nets = x }) (fun_ext (λ j. same_net id j s.nets))

  serve_route-Spares :
      (h : Route) (self : Text) (ctx : Context) (r : Request) (s : Site)
      → Spares s (serve_route h self ctx r s)
  unfolding serve_route handle_anti_entropy handle_handoff
  serve_route-Spares Route.health self ctx r s = λ e. refl
  serve_route-Spares Route.write self ctx r s =
      waits-Spares s (handle_write self ctx r s.nodes) (handle_write-Spares self ctx r s.nodes)
  serve_route-Spares Route.read self ctx r s =
      waits-Spares s (handle_read self ctx r s.nodes) (handle_read-Spares self ctx r s.nodes)
  serve_route-Spares Route.delete self ctx r s =
      waits-Spares s (handle_delete self ctx r s.nodes) (handle_delete-Spares self ctx r s.nodes)
  serve_route-Spares Route.history self ctx r s = λ e. refl
  serve_route-Spares Route.fact self ctx r s =
      waits-Spares s (handle_fact self ctx r s.nodes) (handle_fact-Spares self ctx r s.nodes)
  serve_route-Spares Route.facts self ctx r s = λ e. refl
  serve_route-Spares Route.tag self ctx r s =
      waits-Spares s (handle_tag self ctx r s.nodes) (handle_tag-Spares self ctx r s.nodes)
  serve_route-Spares Route.replicate self ctx r s =
      changes-Spares s (handle_replicate self ctx r s.nodes)
        (handle_replicate-Spares self ctx r s.nodes)
  serve_route-Spares Route.internal_read self ctx r s = λ e. refl
  serve_route-Spares Route.digest self ctx r s = λ e. refl
  serve_route-Spares Route.debug_kv self ctx r s = λ e. refl
  serve_route-Spares Route.debug_hints self ctx r s = λ e. refl
  serve_route-Spares Route.debug_fault self ctx r s =
      λ e. ap (λ t. set_net self t s) (handle_fault-Spares r (s.nets self) e) ∙ set_net_same self s
  serve_route-Spares Route.anti_entropy self ctx r s = λ e. absurd (cc (e))
  serve_route-Spares Route.handoff self ctx r s = λ e. absurd (cc (e))

  serve-Spares :
      (self : Text) (ctx : Context) (r : Request) (s : Site) → Spares s (serve self ctx r s)
  unfolding serve
  serve-Spares self ctx r s = elim (Option-cases (route r.path)) [
    | inl e ↦ rw (e, serve) (λ h. refl)
    | inr (h, e) ↦ rw (e, serve) (serve_route-Spares h self ctx r s)
  ]

  -- A request that the server of a node answers with a status from 400 to 499 changes neither a
  -- node nor a transport, whatever its path, its body and the schedule.
  pub serve_refusal :
      (self : Text) (ctx : Context) (r : Request) (s s' : Site) (resp : Response)
      → serve self ctx r s ≡ (s', some resp)
      → is_refusal resp.status ≡ true
      → s' ≡ s
  serve_refusal self ctx r s s' resp e h = (subst (λ p. Spares s p) e (serve-Spares self ctx r s)) h
