-- ===== src/Tests/Net.antt =====
-- The theorems on the fault injector at concrete inputs.
use agent_memory.Tests.Codec.{framed_codec, framed_entries}
use agent_memory.Prelude.{ℕ, refl, [], ◌∷◌, Text, codes, ltb, eq_text}
use agent_memory.Map.{lookup}
use agent_memory.Net.Faults.{
  Chance, Network, new_fault_net, partition, is_isolated, group_of, drop_of,
}
use agent_memory.Net.Faults.Laws.{IsSure, IsOpen}

abbrev calm : Chance
calm = record { Float = ℕ; zero_float = 0; less = ltb; random = λ n. 0 }

abbrev a : Text
a = codes "a"

abbrev b : Text
b = codes "b"

abbrev net : Network calm
net = new_fault_net calm

sure : (IsSure calm a b net) × (IsSure calm b a net)
unfolding drop_of new_fault_net lookup
sure = ((refl, refl), (refl, refl))

unhindered : IsOpen calm a b net
unfolding eq_text is_isolated group_of drop_of new_fault_net lookup
unhindered = (refl, refl, refl, refl, refl)

-- The two nodes on two sides.
abbrev split : Network calm
split = partition calm (a ∷ []) (b ∷ []) net

abbrev no_hook : Text → Text → ℕ → Network calm → Network calm
no_hook from to k n = n
