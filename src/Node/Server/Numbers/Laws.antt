-- ===== src/Node/Server/Numbers/Laws.antt =====
-- What `parseInt` reads.
use agent_memory.Prelude.{
  digits, ℕ, zero, suc, ◌+◌, ◌-◌, ◌*◌, ◌/◌, ◌%◌, ◌^◌, ◌<◌, ◌≡◌, refl, Bool, true, false, not, ◌&&◌,
  [], ◌∷◌, ◌++◌, none, some, if◌then◌else◌, Text, leb, length, ◌==◌, arith, ap, ◌∙◌,
}
use agent_memory.Prelude.Int.{pos}
use agent_memory.Types.Clock.{u64_mod}
use agent_memory.Node.Server.Numbers.{signed, parse_digits, parse_int}

parse_digits-append :
    (n : ℕ) (s t : Text)
    → parse_digits n (s ++ t) ≡ elim (parse_digits n s) [ none ↦ none | some m ↦ parse_digits m t ]
unfolding parse_digits
parse_digits-append n [] t = refl
parse_digits-append n (c ∷ s) t =
    ground (arith, parse_digits-append ((n * 10 + (c - b'0')) % u64_mod) s t)

parse_one :
    (n d : ℕ) → d < 10 → n * 10 + d < u64_mod → parse_digits n ((b'0' + d) ∷ []) ≡ some (n * 10 + d)
unfolding parse_digits
parse_one n d h k = ground arith

pub parse_digits-digits :
    (fuel c : ℕ) → c < 10 ^ fuel → c < u64_mod → parse_digits 0 (digits fuel c) ≡ some c
unfolding digits parse_digits
parse_digits-digits zero c h k = ground (arith)
parse_digits-digits (suc fuel) c h k =
    let q : c / 10 < 10 ^ fuel = omega arith in
    let front = parse_digits-digits fuel (c / 10) q (omega arith) in
    ground (
      arith,
      parse_one 0 c,
      parse_digits-append 0 (digits fuel (c / 10)) ((b'0' + c % 10) ∷ []),
      front,
      parse_one (c / 10) (c % 10),
    )

-- The digits of a text, and the number that they stand for, each digit with the power of ten of its
-- place.
abbrev pub all_digits : Text → Bool
all_digits [] = true
all_digits (c ∷ s) = leb b'0' c && leb c b'9' && all_digits s

unfoldable pub decimal : Text → ℕ
decimal [] = 0
decimal (c ∷ s) = (c - b'0') * 10 ^ length s + decimal s

signed_small : (c : ℕ) → c < 9223372036854775808 → signed c ≡ pos c
unfolding signed
signed_small c h = ground arith

-- The same by Horner's rule.
horner : ℕ → Text → ℕ
horner n [] = n
horner n (c ∷ s) = horner (n * 10 + (c - b'0')) s

distribute : (n d p q r : ℕ) → q ≡ p * 10 → (n * 10 + d) * p + r ≡ n * q + (d * p + r)
distribute n d p q r e = rw e (grind arith)

pow_step : (k : ℕ) → 10 ^ suc k ≡ 10 ^ k * 10
pow_step k = omega arith

horner_lem : (n : ℕ) (s : Text) → horner n s ≡ n * 10 ^ length s + decimal s
unfolding horner decimal
horner_lem n [] = ground arith
horner_lem n (c ∷ s) =
    horner_lem (n * 10 + (c - b'0')) s
    ∙ distribute n (c - b'0') (10 ^ length s) (10 ^ suc (length s)) (decimal s)
        (pow_step (length s))

parse_digits_lem :
    (n : ℕ) (s : Text)
    → parse_digits (n % u64_mod) s ≡ (if all_digits s then some (horner n s % u64_mod) else none)
unfolding parse_digits horner
parse_digits_lem n [] = refl
parse_digits_lem n (c ∷ s) =
    let step : ((n % u64_mod) * 10 + (c - b'0')) % u64_mod ≡ (n * 10 + (c - b'0')) % u64_mod =
      omega arith in
    ground (arith, step, parse_digits_lem (n * 10 + (c - b'0')) s)

-- The parser of numbers accepts exactly the texts of one or more digits, and reads one as the
-- decimal number that it stands for, wrapped to a signed number of 64 bits.
pub parse_int_lem :
    (s : Text)
    → parse_int s
      ≡ (if not (length s == 0) && all_digits s then some (signed (decimal s % u64_mod)) else none)
unfolding parse_int
parse_int_lem [] = refl
parse_int_lem (c ∷ s) = ground (arith, parse_digits_lem 0 (c ∷ s), horner_lem 0 (c ∷ s))

nonempty_snoc : (s : Text) (c : ℕ) → (length (s ++ c ∷ []) == 0) ≡ false
nonempty_snoc [] c = ground arith
nonempty_snoc (d ∷ s) c = ground arith

nonempty_digits : (fuel c : ℕ) → (length (digits (suc fuel) c) == 0) ≡ false
unfolding digits
nonempty_digits fuel c = ground (arith, nonempty_snoc (digits fuel (c / 10)) (b'0' + c % 10))

parse_int-some :
    (s : Text) (n : ℕ)
    → (length s == 0) ≡ false
    → parse_digits 0 s ≡ some n
    → parse_int s ≡ some (signed n)
unfolding parse_int
parse_int-some [] n h e = ground (arith, h)
parse_int-some (c ∷ s) n h e = ground (arith, e)

-- A number that is printed is read back, up to the greatest int.
pub parse_int-digits : (c : ℕ) → c < 9223372036854775808 → parse_int (digits 20 c) ≡ some (pos c)
parse_int-digits c h =
    let small : c < 10 ^ 20 = omega arith in
    parse_int-some (digits 20 c) c (nonempty_digits 19 c)
      (parse_digits-digits 20 c small (omega arith))
    ∙ ap some (signed_small c h)
