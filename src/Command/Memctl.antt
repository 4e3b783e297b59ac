-- ===== src/Command/Memctl.antt =====
-- cmd/memctl/main.go: the requests of its commands, and its exit code. The flags of a command are its
-- options, read by the package flag; the base address is followed by the target of the URL.
pub mod Laws
use agent_memory.Prelude.{
  ℕ, ◌+◌, Bool, true, false, List, [], ◌∷◌, ◌++◌, Option, none, some, if◌then◌else◌, Text, codes,
  eq_text, leb, digits,
}
use agent_memory.Types.Printing.{show_int}
use agent_memory.Prelude.Int.{ℤ, pos, negsuc}

-- The options of all commands, each with its default where it is not given.
pub record Options : Type 0 where
  pub key : Text
  pub content : Text
  pub w : ℤ
  pub r : ℤ
  pub policy : Text
  pub entity : Text
  pub attr : Text
  pub value : Text
  pub tag : Text

abbrev pub default_options : Options
default_options = record {
  key = [];
  content = [];
  w = pos 2;
  r = pos 2;
  policy = codes "LWW";
  entity = [];
  attr = [];
  value = [];
  tag = [];
}

-- The objects that are sent.
pub data Fields : Type 0 where
  write_fields : Text → Text → ℤ → Text → Fields
  fact_fields : Text → Text → Text → ℤ → Text → Fields
  tag_fields : Text → Text → ℤ → Fields

pub record Sent : Type 0 where
  pub method : Text
  pub target : Text
  pub body : Option Fields

unfoldable pub cmd_write : Options → Sent
cmd_write o = record {
  method = codes "POST";
  target = codes "/write";
  body = some (write_fields o.key o.content o.w o.policy);
}

unfoldable pub cmd_read : Options → Sent
cmd_read o = record {
  method = codes "GET";
  target = codes "/read?key=" ++ (o.key ++ (codes "&r=" ++ show_int o.r));
  body = none;
}

unfoldable pub cmd_fact : Bool → Options → Sent
cmd_fact true o = record {
  method = codes "GET";
  target =
      codes "/fact?entity="
      ++ (o.entity ++ (codes "&attribute=" ++ (o.attr ++ (codes "&r=" ++ show_int o.r))));
  body = none;
}
cmd_fact false o = record {
  method = codes "POST";
  target = codes "/fact";
  body = some (fact_fields o.entity o.attr o.value o.w o.policy);
}

unfoldable pub cmd_tag : Text → Options → Sent
cmd_tag method o = record {
  method = method;
  target = codes "/tag";
  body = some (tag_fields o.entity o.tag o.w);
}

unfoldable pub cmd_history : Options → Sent
cmd_history o = record {
  method = codes "GET";
  target = codes "/history?key=" ++ o.key;
  body = none;
}

abbrev pub health : Sent
health = record { method = codes "GET"; target = codes "/health"; body = none }

-- The switch of `main`; `none` prints the usage.
unfoldable pub command : Text → Options → Option Sent
command name o =
    if eq_text name (codes "write")
    then some (cmd_write o)
    else if eq_text name (codes "read")
    then some (cmd_read o)
    else if eq_text name (codes "put-fact")
    then some (cmd_fact false o)
    else if eq_text name (codes "get-fact")
    then some (cmd_fact true o)
    else if eq_text name (codes "add-tag")
    then some (cmd_tag (codes "POST") o)
    else if eq_text name (codes "remove-tag")
    then some (cmd_tag (codes "DELETE") o)
    else if eq_text name (codes "history")
    then some (cmd_history o)
    else if eq_text name (codes "health")
    then some health
    else none

-- `dump`: whether it returns an error, at the status of the answer, or `none` where there is none.
unfoldable pub dump_fails : Option ℕ → Bool
dump_fails none = true
dump_fails (some status) = leb 300 status

-- The exit code of `main`, from its arguments, the options that they give, and what a request comes to.
unfoldable pub exit_code : List Text → Options → (Sent → Option ℕ) → ℕ
exit_code [] o status_of = 2
exit_code (name ∷ args) o status_of = elim (command name o) [
  | none ↦ 2
  | some sent ↦ if dump_fails (status_of sent) then 1 else 0
]
