-- ===== src/Node/Server/Dispatch.antt =====
-- A request goes to the handler of its path.
use agent_memory.Prelude.{◌≡◌, refl, ap, ◌∙◌, some, Text}
use agent_memory.Conflict.Codec.{Codec}
use agent_memory.Store.Wal.{EntryCodec}
use agent_memory.Node.Server.{Request, Json, Context, Site}
use agent_memory.Node.Server.Routes.{Route, route, serve_route, serve}

module _ ⦃json : Json⦄ ⦃codec : Codec⦄ ⦃kept : EntryCodec⦄ (self : Text) (ctx : Context)
    (s : Site) where
  serve_by :
      (r : Request) (h : Route)
      → route r.path ≡ some h
      → serve self ctx r s ≡ serve_route h self ctx r s
  unfolding serve
  serve_by r h e = rw (e, serve) refl

  pub serve_at :
      (r : Request) (path : Text) (h : Route)
      → r.path ≡ path
      → route path ≡ some h
      → serve self ctx r s ≡ serve_route h self ctx r s
  serve_at r path h e k = serve_by r h (ap route e ∙ k)
