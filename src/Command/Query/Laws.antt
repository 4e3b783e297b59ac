-- ===== src/Command/Query/Laws.antt =====
-- A query of plain texts gives them back.
use agent_memory.Prelude.{
  ℕ, ◌≡◌, ◌≢◌, refl, ap, ◌∙◌, Bool, true, false, not, ◌||◌, List, [], ◌∷◌, ◌++◌, some,
  if◌then◌else◌, Text, arith, eq_text, ◌==◌, All,
}
use agent_memory.Command.Query.{
  cut, has_byte, unescape, split_pairs, pair_of, get_in, target_path, target_get,
}

-- A byte that stands for itself in a query, in a key or a value.
abbrev pub is_plain : ℕ → Bool
is_plain c =
    not (c == b'&' || (c == b';' || (c == b'%' || (c == b'+' || (c == b'#' || c == b'=')))))

abbrev pub IsPlainText : Text → Type 0
IsPlainText s = All (λ c. is_plain c ≡ true) s

unescape-plain : (s : Text) → IsPlainText s → unescape s ≡ some s
unfolding unescape
unescape-plain [] h = refl
unescape-plain (c ∷ []) h = ground (arith, h.0)
unescape-plain (c ∷ a ∷ []) h = ground (arith, h.0, unescape-plain (a ∷ []) h.1)
unescape-plain (c ∷ a ∷ b ∷ s) h = ground (arith, h.0, unescape-plain (a ∷ b ∷ s) h.1)

cut-plain : (s t : Text) → IsPlainText s → cut b'=' (s ++ b'=' ∷ t) ≡ (s, t)
unfolding cut
cut-plain [] t h = refl
cut-plain (c ∷ s) t h = ground (arith, h.0, cut-plain s t h.1)

plain-has_byte : (d : ℕ) (s : Text) → is_plain d ≡ false → IsPlainText s → has_byte d s ≡ false
plain-has_byte d [] e h = refl
plain-has_byte d (c ∷ s) e h = ground (arith, e, h.0, plain-has_byte d s e h.1)

has_byte-append : (d : ℕ) (s t : Text) → has_byte d (s ++ t) ≡ (has_byte d s || has_byte d t)
has_byte-append d [] t = refl
has_byte-append d (c ∷ s) t = ground (arith, has_byte-append d s t)

has_byte-pair :
    (d : ℕ) (s t : Text)
    → is_plain d ≡ false
    → (d == b'=') ≡ false
    → IsPlainText s
    → IsPlainText t
    → has_byte d (s ++ b'=' ∷ t) ≡ false
has_byte-pair d s t e f h k =
    ground
      (arith, has_byte-append d s (b'=' ∷ t), plain-has_byte d s e h, plain-has_byte d t e k, f)

nonempty_pair : (s t : Text) → eq_text (s ++ b'=' ∷ t) [] ≡ false
unfolding eq_text
nonempty_pair [] t = refl
nonempty_pair (c ∷ s) t = refl

-- A key with a value.
abbrev pub pair : Text → Text → Text
pair k v = k ++ b'=' ∷ v

pair_of-pair : (k v : Text) → IsPlainText k → IsPlainText v → pair_of (pair k v) ≡ some (k, v)
unfolding pair_of
pair_of-pair k v h l =
    rw
      (
        nonempty_pair k v,
        pair_of,
        has_byte-pair b';' k v refl refl h l,
        cut-plain k v h,
        unescape-plain k h,
        cut-plain k v h,
        unescape-plain v l,
      )
      refl

split_pairs-one : (p : Text) → has_byte b'&' p ≡ false → split_pairs p ≡ p ∷ []
unfolding split_pairs
split_pairs-one [] h = refl
split_pairs-one (c ∷ p) h = ground (arith, split_pairs-one p, h)

some_pair_front : (c : ℕ) (s : Text) (l : List Text) → split_pairs s ≡ l → split_pairs (c ∷ s) ≢ []
unfolding split_pairs
some_pair_front c s [] e h = absurd (ground (arith, e, h))
some_pair_front c s (p ∷ ps) e h = absurd (ground (arith, e, h))

some_pair : (s : Text) → split_pairs s ≢ []
unfolding split_pairs
some_pair [] e = absurd (cc (e))
some_pair (c ∷ s) e = some_pair_front c s (split_pairs s) refl e

amp_front : (s : Text) (l : List Text) → split_pairs s ≡ l → split_pairs (b'&' ∷ s) ≡ [] ∷ l
unfolding split_pairs
amp_front s [] e = absurd (some_pair s e)
amp_front s (p ∷ ps) e = rw (e, split_pairs) refl

split_pairs-more :
    (p s : Text) → has_byte b'&' p ≡ false → split_pairs (p ++ b'&' ∷ s) ≡ p ∷ split_pairs s
unfolding split_pairs
split_pairs-more [] s h = amp_front s (split_pairs s) refl
split_pairs-more (c ∷ p) s h = ground (arith, split_pairs-more p s, h)

cut-none : (d : ℕ) (s : Text) → has_byte d s ≡ false → (cut d s).0 ≡ s
unfolding cut
cut-none d [] h = refl
cut-none d (c ∷ s) h = ground (arith, cut-none d s, h)

cut-at : (d : ℕ) (s t : Text) → has_byte d s ≡ false → cut d (s ++ d ∷ t) ≡ (s, t)
unfolding cut
cut-at d [] t h = ground arith
cut-at d (c ∷ s) t h = ground (arith, cut-at d s t, h)

-- A target with a query of pairs.
abbrev pub join : List (Text × Text) → Text
join [] = []
join ((k, v) ∷ []) = pair k v
join ((k, v) ∷ kv ∷ kvs) = pair k v ++ b'&' ∷ join (kv ∷ kvs)

abbrev pub AllPlain : List (Text × Text) → Type 0
AllPlain kvs = All (λ kv. IsPlainText kv.0 × IsPlainText kv.1) kvs

-- The first value of a key.
abbrev pub find : Text → List (Text × Text) → Text
find key [] = []
find key ((k, v) ∷ kvs) = let rest = find key kvs in if eq_text k key then v else rest

get_in-join :
    (key : Text) (k v : Text) (kvs : List (Text × Text))
    → AllPlain ((k, v) ∷ kvs)
    → get_in key (split_pairs (join ((k, v) ∷ kvs))) ≡ find key ((k, v) ∷ kvs)
unfolding get_in
get_in-join key k v [] h =
    rw
      (
        split_pairs-one (pair k v) (has_byte-pair b'&' k v refl refl h.0.0 h.0.1),
        get_in,
        pair_of-pair k v h.0.0 h.0.1,
      )
      refl
get_in-join key k v ((k', v') ∷ kvs) h =
    rw
      (
        split_pairs-more (pair k v) (join ((k', v') ∷ kvs))
            (has_byte-pair b'&' k v refl refl h.0.0 h.0.1),
        get_in,
        pair_of-pair k v h.0.0 h.0.1,
        get_in-join key k' v' kvs h.1,
      )
      refl

has_byte-join : (kvs : List (Text × Text)) → AllPlain kvs → has_byte b'#' (join kvs) ≡ false
has_byte-join [] h = refl
has_byte-join ((k, v) ∷ []) h = has_byte-pair b'#' k v refl refl h.0.0 h.0.1
has_byte-join ((k, v) ∷ (k', v') ∷ kvs) h = ground (
  arith,
  has_byte-append b'#' (pair k v) (b'&' ∷ join ((k', v') ∷ kvs)),
  has_byte-pair b'#' k v refl refl h.0.0 h.0.1,
  has_byte-join ((k', v') ∷ kvs) h.1,
)

-- A path without a query or a fragment.
abbrev pub is_path : Text → Bool
is_path path = not (has_byte b'?' path || has_byte b'#' path)

no_fragment :
    (path : Text) (kvs : List (Text × Text))
    → is_path path ≡ true
    → AllPlain kvs
    → (cut b'#' (path ++ b'?' ∷ join kvs)).0 ≡ path ++ b'?' ∷ join kvs
no_fragment path kvs h k =
    cut-none b'#' (path ++ b'?' ∷ join kvs)
      (ground (arith, has_byte-append b'#' path (b'?' ∷ join kvs), has_byte-join kvs k, h))

pub target_path-join :
    (path : Text) (kvs : List (Text × Text))
    → is_path path ≡ true
    → AllPlain kvs
    → target_path (path ++ b'?' ∷ join kvs) ≡ path
unfolding target_path
target_path-join path kvs h k =
    ap (λ t. (cut b'?' t).0) (no_fragment path kvs h k)
    ∙ ap (λ p. p.0) (cut-at b'?' path (join kvs) (ground (arith, h)))

pub target_get-join :
    (path key k v : Text) (kvs : List (Text × Text))
    → is_path path ≡ true
    → AllPlain ((k, v) ∷ kvs)
    → target_get (path ++ b'?' ∷ join ((k, v) ∷ kvs)) key ≡ find key ((k, v) ∷ kvs)
unfolding target_get
target_get-join path key k v kvs h l =
    ap (λ t. get_in key (split_pairs (cut b'?' t).1)) (no_fragment path ((k, v) ∷ kvs) h l)
    ∙ ap (λ p. get_in key (split_pairs p.1))
        (cut-at b'?' path (join ((k, v) ∷ kvs)) (ground (arith, h)))
    ∙ get_in-join key k v kvs l
