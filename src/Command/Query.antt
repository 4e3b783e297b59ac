-- ===== src/Command/Query.antt =====
-- What net/url and net/http make of the query of a URL, as far as the server reads it
-- (`r.URL.Query().Get` in internal/node/server.go). The texts are bytes.
pub mod Laws
use agent_memory.Prelude.{
  ℕ, ◌+◌, ◌-◌, ◌*◌, Bool, true, false, not, ◌&&◌, ◌||◌, List, [], ◌∷◌, ◌++◌, Option, none, some,
  if◌then◌else◌, Text, eq_text, ltb, leb, ◌==◌,
}

-- strings.Cut at a byte, without the byte; the second part is empty where there is none.
unfoldable pub cut : ℕ → Text → Text × Text
cut d [] = ([], [])
cut d (c ∷ s) = let (a, b) = cut d s in if c == d then ([], s) else (c ∷ a, b)

abbrev pub has_byte : ℕ → Text → Bool
has_byte d [] = false
has_byte d (c ∷ s) = c == d || has_byte d s

abbrev pub unhex : ℕ → Option ℕ
unhex c =
    if leb b'0' c && leb c b'9'
    then some (c - b'0')
    else if leb b'a' c && leb c b'f'
    then some (c - b'a' + 10)
    else if leb b'A' c && leb c b'F'
    then some (c - b'A' + 10)
    else none

abbrev pub cons_to : ℕ → Option Text → Option Text
cons_to c none = none
cons_to c (some s) = some (c ∷ s)

abbrev pub plus_to_space : ℕ → ℕ
plus_to_space c = if c == b'+' then b' ' else c

-- url.QueryUnescape; `none` is an error.
unfoldable pub unescape : Text → Option Text
unescape [] = some []
unescape (c ∷ []) = if c == b'%' then none else some (plus_to_space c ∷ [])
unescape (c ∷ a ∷ []) =
    let rest = unescape (a ∷ []) in if c == b'%' then none else cons_to (plus_to_space c) rest
unescape (c ∷ a ∷ b ∷ s) =
    let rest = unescape (a ∷ b ∷ s) in
    let after = unescape s in
    if c == b'%'
    then elim (unhex a) [
      | none ↦ none
      | some h ↦ elim (unhex b) [ none ↦ none | some l ↦ cons_to (h * 16 + l) after ]
    ]
    else cons_to (plus_to_space c) rest

-- The parts between the ampersands.
unfoldable pub split_pairs : Text → List Text
split_pairs [] = [] ∷ []
split_pairs (c ∷ s) = elim (split_pairs s) [
  | [] ↦ (c ∷ []) ∷ []
  | p ∷ ps ↦ if c == b'&' then [] ∷ p ∷ ps else (c ∷ p) ∷ ps
]

-- A key with its value; `none` is a part that is skipped.
unfoldable pub pair_of : Text → Option (Text × Text)
pair_of p =
    let (k, v) = cut b'=' p in
    if eq_text p [] || has_byte b';' p then none else elim (unescape k) [
      | none ↦ none
      | some key ↦ elim (unescape v) [ none ↦ none | some val ↦ some (key, val) ]
    ]

unfoldable pub get_in : Text → List Text → Text
get_in key [] = []
get_in key (p ∷ ps) =
    let rest = get_in key ps in
    elim (pair_of p) [ none ↦ rest | some (k, v) ↦ if eq_text k key then v else rest ]

-- The path and the query of the part of a URL behind the host, without its fragment.
unfoldable pub target_path : Text → Text
target_path target = (cut b'?' (cut b'#' target).0).0

unfoldable pub target_get : Text → Text → Text
target_get target key = get_in key (split_pairs (cut b'?' (cut b'#' target).0).1)
