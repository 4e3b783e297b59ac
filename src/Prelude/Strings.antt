-- ===== src/Prelude/Strings.antt =====
-- Go strings and byte slices as lists of numbers: the code points of a string, the bytes of a slice.
use Prim.Native.Char.{code}
use Prim.Native.String.{String}
use Prim.Native.Nat.{ℕ, zero, suc, ◌+◌, ◌/◌, ◌%◌}
use agent_memory.Prelude.Tests.{ltb, leb, ◌==◌, if◌then◌else◌}
use mathlib.Core.Path.{◌≡◌}
use mathlib.Core.Logic.{◌↔◌, ◌⊎◌}
use mathlib.Core.Bool.{Bool, true, false, ◌||◌, ◌&&◌}
use mathlib.Core.List.{List, [], ◌∷◌, ◌++◌}
use native.Mathlib.Omega.{arith}
use agent_memory.Prelude.Order.{cmp_list, is_eq, list_refl, list_eq}

abbrev pub Text : Type 0
Text = List ℕ

-- A literal of the source.
abbrev pub codes : String → Text
codes String.[] = []
codes (String.◌∷◌ c s) = code c ∷ codes s

-- s == t, bytes.Equal(s, t)
unfoldable pub eq_text : Text → Text → Bool
eq_text s t = is_eq (cmp_list s t)

pub eq_text_refl : (s : Text) → eq_text s s ≡ true
unfolding eq_text
eq_text_refl s = ground (arith, list_refl s)

pub eq_text→eq : (s t : Text) → eq_text s t ≡ true → s ≡ t
unfolding eq_text
eq_text→eq s t h = ground (arith, list_eq s t)

pub eq_text_iff : (s t : Text) → (eq_text s t ≡ true) ↔ (s ≡ t)
eq_text_iff s t = (eq_text→eq s t, λ e. rw e (eq_text_refl t))

pub Text-cases : (s t : Text) → (s ≡ t) ⊎ (eq_text s t ≡ false)
Text-cases s t = ground (arith, eq_text→eq s t)

-- Membership in a list of strings, and lists with no string twice.
abbrev pub elem : Text → List Text → Bool
elem s [] = false
elem s (t ∷ l) = eq_text t s || elem s l

abbrev pub NoDup : List Text → Type 0
NoDup [] = Unit
NoDup (s ∷ l) = (elem s l ≡ false) × NoDup l

-- The decimal digits of a number below 10 ^ fuel.
unfoldable pub digits : ℕ → ℕ → Text
digits zero c = []
digits (suc fuel) c =
    let front = digits fuel (c / 10) in
    if ltb c 10 then (b'0' + c) ∷ [] else front ++ (b'0' + c % 10) ∷ []

-- strings.ToLower, as far as it gives ASCII letters: two letters beyond ASCII have one of them as their
-- small letter.
abbrev pub lower_code : ℕ → ℕ
lower_code c =
    if leb b'A' c && leb c b'Z'
    then c + 32
    else if c == 8490
    then b'k'
    else if c == 304
    then b'i'
    else c

unfoldable pub to_lower : Text → Text
to_lower [] = []
to_lower (c ∷ s) = lower_code c ∷ to_lower s
