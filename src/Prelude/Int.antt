-- ===== src/Prelude/Int.antt =====
-- Go's `int`, without its bounds.
use Prim.Native.Nat.{ℕ, suc, ◌+◌, ◌-◌}
use mathlib.Core.Path.{◌≡◌}
use mathlib.Core.Logic.{◌↔◌}
use mathlib.Core.Bool.{Bool, true, false}
use native.Mathlib.Omega.{arith}
use agent_memory.Prelude.Tests.{ltb, leb, ◌==◌, if◌then◌else◌}

-- `negsuc n` is -(n + 1).
pub data ℤ : Type 0 where
  pos : ℕ → ℤ
  negsuc : ℕ → ℤ

-- a < b
abbrev pub ltb_int : ℤ → ℤ → Bool
ltb_int (pos a) (pos b) = ltb a b
ltb_int (pos a) (negsuc b) = false
ltb_int (negsuc a) (pos b) = true
ltb_int (negsuc a) (negsuc b) = ltb b a

-- a == b
abbrev pub eq_int : ℤ → ℤ → Bool
eq_int (pos a) (pos b) = a == b
eq_int (negsuc a) (negsuc b) = a == b
eq_int _ _ = false

pub eq_int_iff : (a b : ℤ) → (eq_int a b ≡ true) ↔ (a ≡ b)
eq_int_iff (pos a) (pos b) = ground arith
eq_int_iff (pos a) (negsuc b) = ground arith
eq_int_iff (negsuc a) (pos b) = ground arith
eq_int_iff (negsuc a) (negsuc b) = ground arith

-- The difference of two numbers, as an integer.
abbrev pub sub_nat : ℕ → ℕ → ℤ
sub_nat a b = if leb b a then pos (a - b) else negsuc (b - a - 1)

-- a - b
abbrev pub sub_int : ℤ → ℤ → ℤ
sub_int (pos a) (pos b) = sub_nat a b
sub_int (pos a) (negsuc b) = pos (a + suc b)
sub_int (negsuc a) (pos b) = negsuc (a + b)
sub_int (negsuc a) (negsuc b) = sub_nat b a
