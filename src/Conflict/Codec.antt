-- ===== src/Conflict/Codec.antt =====
-- The payloads of the two CRDT policies (`lwwReg` of crdt_lwwreg.go, `orSet` of crdt_orset.go), and
-- what the package uses of encoding/json for them. A string here is text that JSON carries
-- unchanged, that is valid UTF-8.
use agent_memory.Prelude.{◌≡◌, ◌≢◌, Bool, List, [], ◌∷◌, Option, some, Text}
use agent_memory.Prelude.Order.{list_ord}
use agent_memory.Map.{Map, IsSorted}
use agent_memory.Types.Version.{Version}

-- `content` is the field `Data`.
pub record LwwReg : Type 0 where
  pub content : Text
  pub ts : Version
  pub tombstone : Bool

-- map[string]map[string]bool
abbrev pub TagMap : Type 0
TagMap = Map Text (Map Text Bool)

pub record OrSet : Type 0 where
  pub adds : TagMap
  pub rems : TagMap

abbrev pub AllSorted : TagMap → Type 0
AllSorted [] = Unit
AllSorted ((e, tags) ∷ m) = IsSorted tags × AllSorted m

-- The lists stand for Go maps: each key once, in order.
abbrev pub IsTagMap : TagMap → Type 0
IsTagMap m = IsSorted m × AllSorted m

pub record IsOrSet (s : OrSet) : Type 0 where
  pub adds : IsTagMap s.adds
  pub rems : IsTagMap s.rems

-- `json.Marshal` and `json.Unmarshal` at the types that the package uses them at. `unmarshal_orset b`
-- is what stands in `s` after the call, which starts from two empty maps: on an error that is what
-- was read before it, and the code goes on with it.
pub record Codec : Type 0 where
  pub marshal_lwwreg : LwwReg → Text
  pub unmarshal_lwwreg : Text → Option LwwReg
  pub marshal_orset : OrSet → Text
  pub unmarshal_orset : Text → OrSet
  pub marshal_strings : List Text → Text
  pub lwwreg_roundtrip : (r : LwwReg) → unmarshal_lwwreg (marshal_lwwreg r) ≡ some r
  pub orset_roundtrip : (s : OrSet) → IsOrSet s → unmarshal_orset (marshal_orset s) ≡ s
  pub orset_nonempty : (s : OrSet) → marshal_orset s ≢ []
  pub unmarshal_maps : (b : Text) → IsOrSet (unmarshal_orset b)
