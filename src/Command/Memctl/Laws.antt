-- ===== src/Command/Memctl/Laws.antt =====
-- The commands against the server.
pub mod Gets
pub mod Posts
use agent_memory.Prelude.{
  ℕ, zero, suc, ◌+◌, ◌/◌, ◌%◌, ◌<◌, ◌≡◌, refl, Bool, true, false, List, [], ◌∷◌, ◌++◌, Option, none,
  some, if◌then◌else◌, Text, codes, digits, arith, ltb, eq_text,
}
use agent_memory.Prelude.Int.{ℤ, pos}
use agent_memory.Command.Query.{target_path, target_get}
use agent_memory.Command.Query.Laws.{is_plain, IsPlainText}
use agent_memory.Command.Memctl.{Fields, Sent, write_fields, fact_fields, tag_fields}
use agent_memory.Node.Server.{Request, decoded, Json, WriteBody, FactBody, TagBody}
use agent_memory.Node.Server.Routes.{Route, route, route_in}

-- What `json.Marshal` at a map promises to the server that decodes it: a field that the map lacks
-- keeps its zero value.
pub record Marshal (json : Json) : Type 0 where
  pub marshal : Fields → Text
  pub write_read :
      (key content : Text) (w : ℤ) (policy : Text)
      → json.write_body (marshal (write_fields key content w policy))
        ≡ decoded (record {
          key = key;
          content = content;
          policy = policy;
          w = w;
          client_ts = pos 0;
          orset_op = [];
          orset_elem = [];
          tombstone = false;
        })
  pub fact_read :
      (entity attribute value : Text) (w : ℤ) (policy : Text)
      → json.fact_body (marshal (fact_fields entity attribute value w policy))
        ≡ decoded (record {
          entity = entity;
          attribute = attribute;
          value = value;
          policy = policy;
          w = w;
        })
  pub tag_read :
      (entity tag : Text) (w : ℤ)
      → json.tag_body (marshal (tag_fields entity tag w))
        ≡ decoded (record { entity = entity; tag = tag; w = w })

-- The request that the server has of a command.
unfoldable pub request_of : ⦃json : Json⦄ → Marshal json → Sent → Request
request_of m sent = record {
  method = sent.method;
  path = target_path sent.target;
  query = target_get sent.target;
  body = elim sent.body [ none ↦ [] | some f ↦ m.marshal f ];
}

append-IsPlainText :
    (s : Text) (c : ℕ) → IsPlainText s → is_plain c ≡ true → IsPlainText (s ++ c ∷ [])
append-IsPlainText [] c h k = (k, tt)
append-IsPlainText (d ∷ s) c h k = (h.0, append-IsPlainText s c h.1 k)

pub digits-IsPlainText : (fuel c : ℕ) → IsPlainText (digits fuel c)
unfolding digits
digits-IsPlainText zero c = tt
digits-IsPlainText (suc fuel) c = ground (
  arith,
  append-IsPlainText (digits fuel (c / 10)) (b'0' + c % 10) (digits-IsPlainText fuel (c / 10)),
)
