-- ===== src/Tests/Link.antt =====
-- The theorems on the HTTP transport, for the transport of `n1` with the address of one peer.
use mathlib.Core.Option.{some-injective}
use agent_memory.Prelude.{
  ◌≡◌, refl, sym, subst, ◌∙◌, true, false, [], ◌∷◌, ◌++◌, Option, none, some, if◌then◌else◌, Text,
  codes, eq_text, Text-cases, inl, inr, take, drop, arith, elem,
}
use agent_memory.Prelude.Order.{list_ord}
use agent_memory.Map.{lookup}
use agent_memory.Store.Wal.{written}
use agent_memory.Net.Transport
use agent_memory.Net.Transport.{
  HttpTransport, HttpRequest, HttpResponse, Wire, url, is_blocked, addr_of, block,
}
use agent_memory.Net.Transport.Switch.{blocked_calls}
use agent_memory.Node.Coordinator.{delivered, serve_read, serve_digest}
use agent_memory.Node.Server.{Site}
use agent_memory.Node.Server.Link.{Deployed, client_do, fate_through}
use agent_memory.Node.Server.Link.Writes.{after_write, replicate_write_lem}
use agent_memory.Node.Server.Link.Reads.{told, peer_reads}
use agent_memory.Tests.Codec.{framed_codec, framed_entries}
use agent_memory.Tests.Values.{color, red}
use agent_memory.Tests.Http.{framed_json, framed_wire, framed-Speaks}
use agent_memory.Tests.Node.{n1, n2, cluster}
use agent_memory.Tests.Server.{during}

abbrev to_n2 : HttpTransport
to_n2 = record { id = n1; addrs = (n2, codes "b") ∷ []; deny = [] }

-- What stands behind the address is the path at `n2`.
abbrev listens : Text → Option (Text × Text)
listens u = if eq_text (take 8 u) (codes "http://b") then some (n2, drop 8 u) else none

url_n2 : (path : Text) → url n2 path to_n2 ≡ some (codes "http://b" ++ path)
unfolding url is_blocked addr_of lookup eq_text
url_n2 path = refl

listens-n2 : (path : Text) → listens (codes "http://b" ++ path) ≡ some (n2, path)
unfolding eq_text
listens-n2 path = refl

other_url : (to path : Text) → eq_text n2 to ≡ false → url to path to_n2 ≡ none
unfolding url is_blocked addr_of lookup eq_text
other_url to path h = ground (arith, h)

same_url : (path u : Text) → url n2 path to_n2 ≡ some u → listens u ≡ some (n2, path)
same_url path u e =
    subst (λ x. listens x ≡ some (n2, path))
      (some-injective (codes "http://b" ++ path) u (sym (url_n2 path) ∙ e)) (listens-n2 path)

reaches_n2 : (to path u : Text) → url to path to_n2 ≡ some u → listens u ≡ some (to, path)
reaches_n2 to path u e = elim (Text-cases n2 to) [
  | inl g ↦
      subst (λ x. url x path to_n2 ≡ some u → listens u ≡ some (x, path)) g (same_url path u) e
  | inr g ↦ absurd (cc (e, other_url to path g))
]

pub to_n2-Deployed : Deployed framed_wire listens to_n2
to_n2-Deployed = record { reaches = reaches_n2; parses = λ to path u e. refl }

abbrev site : Site
site = record { nodes = cluster; nets = λ id. some to_n2 }

replicate_write_lem_example :
    (Transport.replicate_write
        (client_do listens during (delivered written))
        n2
        color
        red
        to_n2
        site
      ≡ after_write
          (fate_through to_n2 n2 (codes "/internal/replicate") (delivered written))
          n2
          color
          red
          site)
    × (Transport.replay_hint (client_do listens during (delivered written)) n2 color red to_n2 site
        ≡ after_write
            (fate_through to_n2 n2 (codes "/internal/hint") (delivered written))
            n2
            color
            red
            site)
replicate_write_lem_example =
    replicate_write_lem listens during n2 color red to_n2 (delivered written) site framed-Speaks
      to_n2-Deployed

peer_reads_example :
    (Transport.replicate_read (client_do listens during (delivered written)) n2 color to_n2 site
      ≡ (site, some (told (serve_read color (cluster n2)))))
    × (Transport.get_digest (client_do listens during (delivered written)) n2 to_n2 site
        ≡ (site, some (serve_digest (cluster n2))))
peer_reads_example =
    peer_reads listens during n2 color (codes "http://b/internal/read")
      (codes "http://b/internal/digest") to_n2 written site framed-Speaks to_n2-Deployed
      (url_n2 (codes "/internal/read")) (url_n2 (codes "/internal/digest"))

in_list : elem n2 (n2 ∷ []) ≡ true
unfolding eq_text
in_list = refl

blocked_calls_example :
    (Transport.replicate_write
        (client_do listens during (delivered written))
        n2
        color
        red
        (block (n2 ∷ []) to_n2)
        site
      ≡ (site, false))
    × (Transport.replay_hint
          (client_do listens during (delivered written))
          n2
          color
          red
          (block (n2 ∷ []) to_n2)
          site
        ≡ (site, false))
    × (Transport.replicate_read
          (client_do listens during (delivered written))
          n2
          color
          (block (n2 ∷ []) to_n2)
          site
        ≡ (site, none))
    × (Transport.get_digest
          (client_do listens during (delivered written))
          n2
          (block (n2 ∷ []) to_n2)
          site
        ≡ (site, none))
blocked_calls_example =
    blocked_calls (client_do listens during (delivered written)) (n2 ∷ []) to_n2 n2 color red site
      in_list
