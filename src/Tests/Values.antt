-- ===== src/Tests/Values.antt =====
-- The data of the tests.
use agent_memory.Prelude.{refl, true, false, List, [], ◌∷◌, Text, codes}
use agent_memory.Types.Value.{Value, Policy, ReplicaView}
use agent_memory.Conflict.Codec.{OrSet}
use agent_memory.Conflict.Lww.Laws.{IsPlain}
use agent_memory.Conflict.OrSet.Canonical.{IsCanonical}

abbrev pub red : Value
red = record {
  content = codes "red";
  version = record { lamport = 1; node_id = codes "n1" };
  policy = Policy.lww;
  tombstone = false;
  crdt = [];
}

-- A later write of another node.
abbrev pub blue : Value
blue = record red { content = codes "blue"; version = record { lamport = 2; node_id = codes "n2" } }

pub red-IsPlain : IsPlain red
red-IsPlain = record { policy = refl; crdt = refl }

pub blue-IsPlain : IsPlain blue
blue-IsPlain = record { policy = refl; crdt = refl }

abbrev pub color : Text
color = codes "user:color"

abbrev pub name : Text
name = codes "user:name"

abbrev pub ops : List (Text × Value)
ops = (color, red) ∷ (name, red) ∷ (color, blue) ∷ []

abbrev pub reversed : List (Text × Value)
reversed = (color, blue) ∷ (color, red) ∷ (color, blue) ∷ []

abbrev pub view_red : ReplicaView
view_red = record { node_id = codes "n1"; value = red; found = true }

abbrev pub view_blue : ReplicaView
view_blue = record { node_id = codes "n2"; value = blue; found = true }

abbrev pub view_none : ReplicaView
view_none = record view_red { node_id = codes "n3"; found = false }

-- The set {x}, under one tag.
abbrev pub one : OrSet
one = record { adds = (codes "x", (codes "n1:1", true) ∷ []) ∷ []; rems = [] }

pub one-IsCanonical : IsCanonical one
one-IsCanonical = record {
  adds = (((tt, tt), ((tt, tt), tt)), ((refl, tt), tt));
  rems = ((tt, tt), tt);
}

abbrev pub none_yet : OrSet
none_yet = record { adds = []; rems = [] }

pub none_yet-IsCanonical : IsCanonical none_yet
none_yet-IsCanonical = record { adds = ((tt, tt), tt); rems = ((tt, tt), tt) }
