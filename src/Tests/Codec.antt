-- ===== src/Tests/Codec.antt =====
-- Codecs that meet the interfaces `Codec` and `EntryCodec`: texts framed by their lengths.
use mathlib.Core.List.{append_assoc, append-nil}
use agent_memory.Prelude.{
  ℕ, zero, suc, ◌+◌, ◌-◌, ◌<◌, ◌≤◌, ◌≡◌, ◌≢◌, refl, ap, Bool, true, false, List, [], ◌∷◌, ◌++◌,
  Option, none, some, Text, arith, length, length-append, take, drop, take-length, drop-length,
  ◌==◌, All,
}
use agent_memory.Prelude.Int.{pos, negsuc}
use agent_memory.Prelude.Order.{list_ord}
use agent_memory.Map.{Map, insert, IsSorted}
use agent_memory.Map.Lookup.{insert-Above, insert-IsSorted}
use agent_memory.Types.Value.{Value, Policy, HistoryEntry}
use agent_memory.Conflict.Codec.{Codec, LwwReg, OrSet, TagMap, IsOrSet, IsTagMap, AllSorted}
use agent_memory.Store.Wal.{EntryCodec}

abbrev pub bit : Bool → ℕ
bit true = 1
bit false = 0

abbrev pub frame : Text → Text → Text
frame t rest = length t ∷ (t ++ rest)

abbrev encode_lwwreg : LwwReg → Text
encode_lwwreg r = bit r.tombstone ∷ r.ts.lamport ∷ frame r.ts.node_id r.content

abbrev decode_lwwreg : Text → Option LwwReg
decode_lwwreg (b ∷ l ∷ n ∷ s) = some (record {
  content = drop n s;
  ts = record { lamport = l; node_id = take n s };
  tombstone = b == 1;
})
decode_lwwreg _ = none

pub lwwreg_framed : (r : LwwReg) → decode_lwwreg (encode_lwwreg r) ≡ some r
lwwreg_framed r =
    ground (arith, take-length r.ts.node_id r.content, drop-length r.ts.node_id r.content)

abbrev encode_tags : Map Text Bool → Text
encode_tags [] = 0 ∷ []
encode_tags ((t, b) ∷ m) = suc (bit b) ∷ frame t (encode_tags m)

abbrev decode_tags : ℕ → Text → Map Text Bool × Text
decode_tags zero s = ([], s)
decode_tags (suc f) [] = ([], [])
decode_tags (suc f) (zero ∷ s) = ([], s)
decode_tags (suc f) (suc b ∷ []) = ([], [])
decode_tags (suc f) (suc b ∷ n ∷ s) =
    let (m, rest) = decode_tags f (drop n s) in (insert (take n s) (b == 1) m, rest)

tags_framed :
    (f : ℕ) (m : Map Text Bool) (rest : Text)
    → IsSorted m
    → length m < f
    → decode_tags f (encode_tags m ++ rest) ≡ (m, rest)
tags_framed zero m rest s h = absurd (omega arith)
tags_framed (suc f) [] rest s h = refl
tags_framed (suc f) ((t, b) ∷ m) rest s h =
    rw
      (
        append_assoc t (encode_tags m) rest,
        take-length,
        drop-length,
        tags_framed f m rest s.1 (omega arith),
      )
      (cc (insert-Above t b m s.0, bit_test b))
  where
    bit_test : (b : Bool) → (bit b == 1) ≡ b
    bit_test true = refl
    bit_test false = refl

decode_tags-IsSorted : (f : ℕ) (s : Text) → IsSorted (decode_tags f s).0
decode_tags-IsSorted zero s = tt
decode_tags-IsSorted (suc f) [] = tt
decode_tags-IsSorted (suc f) (zero ∷ s) = tt
decode_tags-IsSorted (suc f) (suc b ∷ []) = tt
decode_tags-IsSorted (suc f) (suc b ∷ n ∷ s) =
    insert-IsSorted (take n s) (b == 1) _ (decode_tags-IsSorted f (drop n s))

abbrev encode_map : TagMap → Text
encode_map [] = 0 ∷ []
encode_map ((e, tags) ∷ m) = 1 ∷ frame e (encode_tags tags ++ encode_map m)

abbrev decode_map : ℕ → ℕ → Text → TagMap × Text
decode_map g zero s = ([], s)
decode_map g (suc f) [] = ([], [])
decode_map g (suc f) (zero ∷ s) = ([], s)
decode_map g (suc f) (suc b ∷ []) = ([], [])
decode_map g (suc f) (suc b ∷ n ∷ s) =
    let (tags, s') = decode_tags g (drop n s) in
    let (m, rest) = decode_map g f s' in (insert (take n s) tags m, rest)

-- No inner map has `g` entries.
abbrev Small : ℕ → TagMap → Type 0
Small g [] = Unit
Small g ((e, tags) ∷ m) = (length tags < g) × Small g m

map_framed :
    (g f : ℕ) (m : TagMap) (rest : Text)
    → IsTagMap m
    → Small g m
    → length m < f
    → decode_map g f (encode_map m ++ rest) ≡ (m, rest)
map_framed g zero m rest s k h = absurd (omega arith)
map_framed g (suc f) [] rest s k h = refl
map_framed g (suc f) ((e, tags) ∷ m) rest s k h =
    rw
      (
        append_assoc e (encode_tags tags ++ encode_map m) rest,
        append_assoc (encode_tags tags) (encode_map m) rest,
        take-length,
        drop-length,
        tags_framed g tags (encode_map m ++ rest) s.1.0 k.0,
        map_framed g f m rest (s.0.1, s.1.1) k.1 (omega arith),
      )
      (cc (insert-Above e tags m s.0.0))

insert-AllSorted :
    (e : Text) (tags : Map Text Bool) (m : TagMap)
    → IsSorted tags
    → AllSorted m
    → AllSorted (insert e tags m)
unfolding insert
insert-AllSorted e tags [] h s = (h, tt)
insert-AllSorted e tags ((k, ts) ∷ m) h s = ground (arith, insert-AllSorted e tags m h s.1)

decode_map-IsTagMap : (g f : ℕ) (s : Text) → IsTagMap (decode_map g f s).0
decode_map-IsTagMap g zero s = (tt, tt)
decode_map-IsTagMap g (suc f) [] = (tt, tt)
decode_map-IsTagMap g (suc f) (zero ∷ s) = (tt, tt)
decode_map-IsTagMap g (suc f) (suc b ∷ []) = (tt, tt)
decode_map-IsTagMap g (suc f) (suc b ∷ n ∷ s) =
    let (sorted, inner) = decode_map-IsTagMap g f (decode_tags g (drop n s)).1 in
    (
      insert-IsSorted (take n s) _ _ sorted,
      insert-AllSorted (take n s) _ _ (decode_tags-IsSorted g (drop n s)) inner,
    )

tags_size : (m : Map Text Bool) → length m < length (encode_tags m)
tags_size [] = omega arith
tags_size ((t, b) ∷ m) = omega (arith, tags_size m, length-append t (encode_tags m))

map_size : (m : TagMap) → length m < length (encode_map m)
map_size [] = omega arith
map_size ((e, tags) ∷ m) = omega (
  arith,
  map_size m,
  length-append e (encode_tags tags ++ encode_map m),
  length-append (encode_tags tags) (encode_map m),
)

Small-mono : (g h : ℕ) (m : TagMap) → g ≤ h → Small g m → Small h m
Small-mono g h [] le k = tt
Small-mono g h ((e, tags) ∷ m) le k = (omega arith, Small-mono g h m le k.1)

map-Small : (m : TagMap) → Small (length (encode_map m)) m
map-Small [] = tt
map-Small ((e, tags) ∷ m) =
    let outer = length-append e (encode_tags tags ++ encode_map m) in
    let inner = length-append (encode_tags tags) (encode_map m) in
    (
      omega (arith, tags_size tags, outer, inner),
      Small-mono (length (encode_map m)) _ m (omega (arith, outer, inner)) (map-Small m),
    )

abbrev encode_orset : OrSet → Text
encode_orset s = encode_map s.adds ++ encode_map s.rems

abbrev decode_orset_at : ℕ → Text → OrSet
decode_orset_at l b =
    let (adds, rest) = decode_map l l b in record { adds = adds; rems = (decode_map l l rest).0 }

abbrev decode_orset : Text → OrSet
decode_orset b = decode_orset_at (length b) b

decode_two :
    (l : ℕ) (s : OrSet)
    → decode_map l l (encode_orset s) ≡ (s.adds, encode_map s.rems)
    → decode_map l l (encode_map s.rems ++ []) ≡ (s.rems, [])
    → decode_orset_at l (encode_orset s) ≡ s
decode_two l s p q = rw p (let r = rw append-nil at q in rw r)

pub orset_framed : (s : OrSet) → IsOrSet s → decode_orset (encode_orset s) ≡ s
orset_framed s h =
    let l = length (encode_orset s) in
    let long = length-append (encode_map s.adds) (encode_map s.rems) in
    let adds =
      map_framed l l s.adds (encode_map s.rems) h.adds
        (Small-mono _ l s.adds (omega (arith, long)) (map-Small s.adds))
        (omega (arith, long, map_size s.adds)) in
    let rems =
      map_framed l l s.rems [] h.rems
        (Small-mono _ l s.rems (omega (arith, long)) (map-Small s.rems))
        (omega (arith, long, map_size s.rems)) in
    decode_two l s adds rems

pub orset_maps : (b : Text) → IsOrSet (decode_orset b)
orset_maps b = record {
  adds = decode_map-IsTagMap (length b) (length b) b;
  rems = decode_map-IsTagMap (length b) (length b) (decode_map (length b) (length b) b).1;
}

pub orset_nonempty : (s : OrSet) → encode_orset s ≢ []
orset_nonempty s e =
    omega
      (arith, ap length e, length-append (encode_map s.adds) (encode_map s.rems), map_size s.adds)

-- The elements of a list, framed.
abbrev encode_strings : List Text → Text
encode_strings [] = []
encode_strings (t ∷ l) = frame t (encode_strings l)

instance abbrev pub framed_codec : Codec
framed_codec = record {
  marshal_lwwreg = encode_lwwreg;
  unmarshal_lwwreg = decode_lwwreg;
  marshal_orset = encode_orset;
  unmarshal_orset = decode_orset;
  marshal_strings = encode_strings;
  lwwreg_roundtrip = lwwreg_framed;
  orset_roundtrip = orset_framed;
  orset_nonempty = orset_nonempty;
  unmarshal_maps = orset_maps;
}

abbrev encode_policy : Policy → ℕ × ℕ
encode_policy Policy.lww = (0, 0)
encode_policy Policy.crdt_lwwreg = (1, 0)
encode_policy Policy.crdt_orset = (2, 0)
encode_policy (Policy.other (pos n)) = (3, n)
encode_policy (Policy.other (negsuc n)) = (4, n)

abbrev decode_policy : ℕ → ℕ → Policy
decode_policy zero n = Policy.lww
decode_policy (suc zero) n = Policy.crdt_lwwreg
decode_policy (suc (suc zero)) n = Policy.crdt_orset
decode_policy (suc (suc (suc zero))) n = Policy.other (pos n)
decode_policy (suc (suc (suc (suc k)))) n = Policy.other (negsuc n)

policy_coded : (p : Policy) → decode_policy (encode_policy p).0 (encode_policy p).1 ≡ p
policy_coded Policy.lww = refl
policy_coded Policy.crdt_lwwreg = refl
policy_coded Policy.crdt_orset = refl
policy_coded (Policy.other (pos n)) = refl
policy_coded (Policy.other (negsuc n)) = refl

abbrev pub encode_value : Value → Text
encode_value v =
    v.version.lamport
    ∷ (encode_policy v.policy).0
    ∷ (encode_policy v.policy).1
    ∷ bit v.tombstone
    ∷ frame v.version.node_id (frame v.content v.crdt)

abbrev pub decode_value : Text → Option Value
decode_value (l ∷ p ∷ q ∷ b ∷ n ∷ s) = elim (drop n s) [
  | [] ↦ none
  | k ∷ t ↦ some (record {
    content = take k t;
    version = record { lamport = l; node_id = take n s };
    policy = decode_policy p q;
    tombstone = b == 1;
    crdt = drop k t;
  })
]
decode_value _ = none

pub value_framed : (v : Value) → decode_value (encode_value v) ≡ some v
value_framed v = ground (
  arith,
  take-length v.version.node_id (frame v.content v.crdt),
  drop-length v.version.node_id (frame v.content v.crdt),
  take-length v.content v.crdt,
  drop-length v.content v.crdt,
  policy_coded v.policy,
)

abbrev encode_entry : HistoryEntry → Text
encode_entry e = e.seq ∷ frame e.key (encode_value e.value)

abbrev decode_entry : Text → Option HistoryEntry
decode_entry (q ∷ n ∷ s) = elim (decode_value (drop n s)) [
  | none ↦ none
  | some v ↦ some (record { seq = q; key = take n s; value = v })
]
decode_entry _ = none

entry_framed : (e : HistoryEntry) → decode_entry (encode_entry e) ≡ some e
entry_framed e = ground (
  arith,
  take-length e.key (encode_value e.value),
  drop-length e.key (encode_value e.value),
  value_framed e.value,
)

-- All numbers of the body are past the line feed.
abbrev raise : Text → Text
raise [] = []
raise (c ∷ s) = (c + 11) ∷ raise s

-- The body between the braces.
abbrev lower : Text → Text
lower [] = []
lower (c ∷ []) = []
lower (c ∷ d ∷ s) = (c - 11) ∷ lower (d ∷ s)

lower-raise : (s : Text) (c : ℕ) → lower (raise s ++ c ∷ []) ≡ s
lower-raise [] c = refl
lower-raise (d ∷ []) c = ground arith
lower-raise (d ∷ d' ∷ s) c = ground (arith, lower-raise (d' ∷ s) c)

raise_no_feed : (s : Text) → All (λ c. (c == 10) ≡ false) (raise s)
raise_no_feed [] = tt
raise_no_feed (c ∷ s) = (ground arith, raise_no_feed s)

abbrev marshal_entry : HistoryEntry → Text
marshal_entry e = b'{' ∷ (raise (encode_entry e) ++ b'}' ∷ [])

abbrev unmarshal_entry : Text → Option HistoryEntry
unmarshal_entry [] = none
unmarshal_entry (c ∷ s) = decode_entry (lower s)

pub entry_roundtrip : (e : HistoryEntry) → unmarshal_entry (marshal_entry e) ≡ some e
entry_roundtrip e = rw (lower-raise (encode_entry e) b'}') (entry_framed e)

pub entry_one_line : (e : HistoryEntry) → All (λ c. (c == 10) ≡ false) (raise (encode_entry e))
entry_one_line e = raise_no_feed (encode_entry e)

pub entry_braces :
    (e : HistoryEntry) → marshal_entry e ≡ b'{' ∷ (raise (encode_entry e) ++ b'}' ∷ [])
entry_braces e = refl

instance abbrev pub framed_entries : EntryCodec
framed_entries = record {
  marshal = marshal_entry;
  unmarshal = unmarshal_entry;
  roundtrip = entry_roundtrip;
  body = λ e. raise (encode_entry e);
  braces = entry_braces;
  one_line = entry_one_line;
}
