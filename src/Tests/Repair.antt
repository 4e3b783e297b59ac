-- ===== src/Tests/Repair.antt =====
-- The theorems on hints and on the plan of anti-entropy at concrete inputs.
use agent_memory.Prelude.{◌≡◌, refl, [], ◌∷◌, if◌then◌else◌, Text, codes, eq_text}
use agent_memory.Prelude.Order.{list_ord}
use agent_memory.Map.{Map, lookup}
use agent_memory.Types.Value.{Value}
use agent_memory.Repair.Hints.{Hints, peek, take}
use agent_memory.Repair.Hints.Laws.{peek-take}
use agent_memory.Repair.Scan.{scan}
use agent_memory.Repair.Scan.Laws.{pushed, pulled, scan_lem}
use agent_memory.Tests.Codec.{framed_codec}
use agent_memory.Tests.Values.{red, blue, color, name}

abbrev n2 : Text
n2 = codes "n2"

abbrev hinted : Hints
hinted = (n2, record { target = n2; key = color; value = red } ∷ []) ∷ []

peek-take_example :
    ((take n2 hinted).1 ≡ peek n2 hinted)
    × (peek n2 (take n2 hinted).0 ≡ (if eq_text n2 n2 then [] else peek n2 hinted))
peek-take_example = peek-take hinted n2 n2

abbrev local : Map Text Value
local = (color, red) ∷ []

abbrev remote : Map Text Value
remote = (color, blue) ∷ (name, red) ∷ []

scan_lem_example :
    (lookup color (scan local remote).push ≡ pushed (lookup color local) (lookup color remote))
    × (lookup color (scan local remote).pull ≡ pulled (lookup color local) (lookup color remote))
scan_lem_example = scan_lem local remote color (tt, tt) ((refl, tt), (tt, tt))
