-- ===== src/Node/Server/Numbers.antt =====
-- `parseInt` of internal/node/server.go. An `int` has 64 bits: it is carried as its residue, and read
-- as a signed number.
pub mod Laws
use agent_memory.Prelude.{
  ℕ, zero, suc, ◌+◌, ◌-◌, ◌*◌, ◌%◌, Bool, true, false, ◌&&◌, ◌||◌, List, [], ◌∷◌, Option, none,
  some, if◌then◌else◌, Text, ltb,
}
use agent_memory.Prelude.Int.{ℤ, pos, negsuc}
use agent_memory.Types.Clock.{u64_mod}

-- The number that 64 bits stand for in two's complement.
unfoldable pub signed : ℕ → ℤ
signed r = if ltb r 9223372036854775808 then pos r else negsuc (18446744073709551615 - r)

-- The loop, with `n`; `none` is a character that is no digit.
unfoldable pub parse_digits : ℕ → Text → Option ℕ
parse_digits n [] = some n
parse_digits n (c ∷ s) =
    let more = parse_digits ((n * 10 + (c - b'0')) % u64_mod) s in
    if ltb c b'0' || ltb b'9' c then none else more

-- `none` stands for `0, false`, which leaves `dst` as it is.
unfoldable pub parse_int : Text → Option ℤ
parse_int [] = none
parse_int (c ∷ s) = elim (parse_digits 0 (c ∷ s)) [ none ↦ none | some n ↦ some (signed n) ]

-- `dst` after the call
unfoldable pub set_int : Text → ℤ → ℤ
set_int s dst = elim (parse_int s) [ none ↦ dst | some n ↦ n ]
