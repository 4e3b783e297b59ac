-- ===== src/Tests/Server.antt =====
-- The theorems on the HTTP server at concrete requests.
use agent_memory.Prelude.{
  ◌≡◌, refl, true, false, [], none, some, if◌then◌else◌, Text, codes, eq_text, eq_text_refl, subst,
  elem, arith, ◌%◌, ◌≢◌, ◌&&◌, not, length, ◌==◌, NoDup,
}
use agent_memory.Prelude.Int.{pos}
use agent_memory.Store.Wal.{written}
use agent_memory.Node.Coordinator.{lost}
use agent_memory.Node.Coordinator.Sync.{Contact}
use agent_memory.Types.Clock.{u64_mod}
use agent_memory.Node.Coordinator.Tags.{issue, issued_tags_differ}
use agent_memory.Node.Server.{Request, WriteBody, Context, Site, write_json, failed, bad_json}
use agent_memory.Node.Server.Routes.{serve, serve_route, route, route_in}
use agent_memory.Node.Server.Refusals.{serve_refusal}
use agent_memory.Node.Server.Numbers.Laws.{all_digits, decimal, parse_int_lem}
use agent_memory.Node.Server.Client.{handle_write}
use agent_memory.Node.Server.Numbers.{parse_int, signed}
use agent_memory.Command.Memctl.{write_fields}
use agent_memory.Tests.Codec.{framed_codec, framed_entries}
use agent_memory.Tests.Values.{color}
use agent_memory.Tests.Http.{framed_json, framed_wire, framed_marshal}
use agent_memory.Tests.Node.{n1, n2, cluster, schedule, replies, no_repairs}

abbrev unreached : Text → Contact
unreached id = record { reached = false; ios = λ k. written; fates = λ k. lost }

-- The schedules of the tests of the coordinator.
abbrev pub during : Context
during = record {
  events = schedule;
  answers = replies;
  fates = no_repairs;
  io = written;
  contacts = unreached;
  hint_fates = λ t k. lost;
  meanwhile = λ t. [];
}

abbrev paint_body : WriteBody
paint_body = record {
  key = color;
  content = codes "red";
  policy = codes "LWW";
  w = pos 2;
  client_ts = pos 0;
  orset_op = [];
  orset_elem = [];
  tombstone = false;
}

abbrev put_request : Request
put_request = record {
  method = codes "POST";
  path = codes "/write";
  query = λ k. [];
  body = framed_marshal.marshal (write_fields color (codes "red") (pos 2) (codes "LWW"));
}

abbrev get_request : Request
get_request = record {
  method = codes "GET";
  path = codes "/read";
  query = λ k. if eq_text k (codes "key") then color else codes "2";
  body = [];
}

-- A request with no body is refused.
abbrev empty_request : Request
empty_request = record put_request { body = [] }

abbrev site : Site
site = record { nodes = cluster; nets = λ id. none }

refused : serve n1 during empty_request site ≡ (site, some (write_json 400 (failed bad_json)))
unfolding serve serve_route route route_in eq_text handle_write
refused = refl

serve_refusal_example : site ≡ site
serve_refusal_example =
    serve_refusal n1 during empty_request site site (write_json 400 (failed bad_json)) refused refl

parse_int_lem_example : parse_int (codes "42") ≡ (
    if not (length (codes "42") == 0) && all_digits (codes "42")
    then some (signed (decimal (codes "42") % u64_mod))
    else none)
parse_int_lem_example = parse_int_lem (codes "42")

-- 2^63, one above the greatest int.
abbrev too_large : Text
too_large = codes "9223372036854775808"

n1_n2 : (cluster n1).id ≢ (cluster n2).id
unfolding eq_text
n1_n2 e =
    let same : eq_text n2 n1 ≡ true = subst (λ t. eq_text t n1 ≡ true) e (eq_text_refl n1) in
    absurd (ground arith)

issued_tags_differ_example :
    NoDup (issue 2 (cluster n1))
    × ((elem (codes "n1:1") (issue 2 (cluster n1)) && elem (codes "n1:1") (issue 3 (cluster n2)))
        ≡ false)
issued_tags_differ_example =
    issued_tags_differ 2 3 (cluster n1) (cluster n2) (codes "n1:1") (omega arith) (omega arith)
      n1_n2
