-- ===== src/Tests/Http.antt =====
-- Codecs that meet the interfaces `Json` and `Wire` and what they promise to each other.
use agent_memory.Prelude.{
  ℕ, zero, suc, ◌≤◌, ◌≡◌, refl, Bool, true, false, [], ◌∷◌, Option, none, some, Text, arith, length,
  length-append, take, drop, take-length, drop-length, ◌==◌,
}
use agent_memory.Prelude.Int.{ℤ, pos, negsuc}
use agent_memory.Map.{Map}
use agent_memory.Types.Value.{Value, zero_value}
use agent_memory.Net.Transport.{ReplicateBody, KeyBody, Wire}
use agent_memory.Node.Server.{
  WriteBody, FactBody, TagBody, FaultBody, Decoded, decoded, end_of_file, malformed, Body,
  found_value, values, Json,
}
use agent_memory.Node.Server.Link.{Speaks}
use agent_memory.Command.Memctl.{Fields, write_fields, fact_fields, tag_fields}
use agent_memory.Command.Memctl.Laws.{Marshal}
use agent_memory.Tests.Codec.{bit, frame, encode_value, decode_value, value_framed}

abbrev decode_replicate : Text → Decoded ReplicateBody
decode_replicate [] = end_of_file
decode_replicate (n ∷ s) = elim (drop n s) [
  | [] ↦ malformed
  | m ∷ t ↦ elim (decode_value (drop m t)) [
    | none ↦ malformed
    | some v ↦ decoded (record { key = take n s; value = v; from = take m t })
  ]
]

abbrev encode_replicate : ReplicateBody → Text
encode_replicate b = frame b.key (frame b.from (encode_value b.value))

replicate_framed : (b : ReplicateBody) → decode_replicate (encode_replicate b) ≡ decoded b
replicate_framed b = ground (
  arith,
  take-length b.key (frame b.from (encode_value b.value)),
  drop-length b.key (frame b.from (encode_value b.value)),
  take-length b.from (encode_value b.value),
  drop-length b.from (encode_value b.value),
  value_framed b.value,
)

abbrev decode_key : Text → Decoded KeyBody
decode_key [] = end_of_file
decode_key (n ∷ s) = decoded (record { key = take n s; from = drop n s })

key_framed : (b : KeyBody) → decode_key (frame b.key b.from) ≡ decoded b
key_framed b = ground (arith, take-length b.key b.from, drop-length b.key b.from)

abbrev encode_pairs : Map Text Value → Text
encode_pairs [] = []
encode_pairs ((k, v) ∷ m) = frame k (frame (encode_value v) (encode_pairs m))

abbrev cons_pair : Text → Option Value → Option (Map Text Value) → Option (Map Text Value)
cons_pair k (some v) (some m) = some ((k, v) ∷ m)
cons_pair _ _ _ = none

abbrev decode_pairs : ℕ → Text → Option (Map Text Value)
decode_pairs f [] = some []
decode_pairs zero (n ∷ s) = none
decode_pairs (suc f) (n ∷ s) = elim (drop n s) [
  | [] ↦ none
  | m ∷ t ↦ cons_pair (take n s) (decode_value (take m t)) (decode_pairs f (drop m t))
]

pairs_framed :
    (f : ℕ) (m : Map Text Value) → length m ≤ f → decode_pairs f (encode_pairs m) ≡ some m
pairs_framed zero [] h = refl
pairs_framed (suc f) [] h = refl
pairs_framed zero (kv ∷ m) h = absurd (omega arith)
pairs_framed (suc f) ((k, v) ∷ m) h =
    rw
      (
        decode_pairs,
        drop-length k (frame (encode_value v) (encode_pairs m)),
        take-length k (frame (encode_value v) (encode_pairs m)),
        take-length (encode_value v) (encode_pairs m),
        drop-length (encode_value v) (encode_pairs m),
        value_framed v,
        pairs_framed f m (omega arith),
      )
      refl

pairs_size : (m : Map Text Value) → length m ≤ length (encode_pairs m)
pairs_size [] = omega arith
pairs_size ((k, v) ∷ m) = omega (
  arith,
  pairs_size m,
  length-append k (frame (encode_value v) (encode_pairs m)),
  length-append (encode_value v) (encode_pairs m),
)

-- The sign, and the number.
abbrev sign : ℤ → ℕ
sign (pos n) = 0
sign (negsuc n) = 1

abbrev size : ℤ → ℕ
size (pos n) = n
size (negsuc n) = n

abbrev int_of : ℕ → ℕ → ℤ
int_of zero n = pos n
int_of (suc k) n = negsuc n

int_coded : (z : ℤ) → int_of (sign z) (size z) ≡ z
int_coded (pos n) = refl
int_coded (negsuc n) = refl

abbrev marshal_fields : Fields → Text
marshal_fields (write_fields key content w policy) =
    sign w ∷ size w ∷ frame key (frame content policy)
marshal_fields (fact_fields entity attribute value w policy) =
    sign w ∷ size w ∷ frame entity (frame attribute (frame value policy))
marshal_fields (tag_fields entity tag w) = sign w ∷ size w ∷ frame entity tag

abbrev decode_write : Text → Decoded WriteBody
decode_write (i ∷ z ∷ n ∷ s) = elim (drop n s) [
  | [] ↦ malformed
  | m ∷ t ↦ decoded (record {
    key = take n s;
    content = take m t;
    policy = drop m t;
    w = int_of i z;
    client_ts = pos 0;
    orset_op = [];
    orset_elem = [];
    tombstone = false;
  })
]
decode_write [] = end_of_file
decode_write _ = malformed

abbrev decode_fact_rest : ℕ → ℕ → Text → Text → Text → Decoded FactBody
decode_fact_rest i z entity attribute [] = malformed
decode_fact_rest i z entity attribute (k ∷ u) = decoded (record {
  entity = entity;
  attribute = attribute;
  value = take k u;
  policy = drop k u;
  w = int_of i z;
})

abbrev decode_fact : Text → Decoded FactBody
decode_fact (i ∷ z ∷ n ∷ s) = elim (drop n s) [
  | [] ↦ malformed
  | m ∷ t ↦ decode_fact_rest i z (take n s) (take m t) (drop m t)
]
decode_fact [] = end_of_file
decode_fact _ = malformed

abbrev decode_tag : Text → Decoded TagBody
decode_tag (i ∷ z ∷ n ∷ s) = decoded (record { entity = take n s; tag = drop n s; w = int_of i z })
decode_tag [] = end_of_file
decode_tag _ = malformed

abbrev decode_empty : {A : Type 0} → Text → Decoded A
decode_empty [] = end_of_file
decode_empty _ = malformed

abbrev decode_fault : Text → Decoded FaultBody
decode_fault [] = end_of_file
decode_fault s = decoded (record { action = s; peers = [] })

abbrev encode_body : Body → Text
encode_body (found_value v found) = 1 ∷ bit found ∷ encode_value v
encode_body (values m) = 2 ∷ encode_pairs m
encode_body _ = 0 ∷ []

abbrev decode_read_reply : Text → Option (Value × Bool)
decode_read_reply [] = none
decode_read_reply (zero ∷ s) = some (zero_value, false)
decode_read_reply (suc k ∷ []) = none
decode_read_reply (suc k ∷ b ∷ s) = elim (decode_value s) [
  | none ↦ none
  | some v ↦ some (v, b == 1)
]

abbrev decode_digest_reply : Text → Option (Map Text Value)
decode_digest_reply [] = none
decode_digest_reply (k ∷ s) = decode_pairs (length s) s

instance abbrev pub framed_json : Json
framed_json = record {
  write_body = decode_write;
  read_body = decode_empty;
  fact_body = decode_fact;
  tag_body = decode_tag;
  replicate_body = decode_replicate;
  key_body = decode_key;
  fault_body = decode_fault;
  encode = encode_body;
}

instance abbrev pub framed_wire : Wire
framed_wire = record {
  marshal_replicate = encode_replicate;
  marshal_key = λ b. frame b.key b.from;
  decode_read = decode_read_reply;
  decode_digest = decode_digest_reply;
  is_url = λ u. true;
}

read_framed :
    (v : Value) (found : Bool)
    → decode_read_reply (encode_body (found_value v found)) ≡ some (v, found)
read_framed v true = rw (decode_read_reply, value_framed v) refl
read_framed v false = rw (decode_read_reply, value_framed v) refl

pub framed-Speaks : Speaks framed_wire framed_json
framed-Speaks = record {
  replicate = replicate_framed;
  key = key_framed;
  read = read_framed;
  read_failed = refl;
  digest = λ m. pairs_framed (length (encode_pairs m)) m (pairs_size m);
}

pub write_framed :
    (key content : Text) (w : ℤ) (policy : Text)
    → decode_write (marshal_fields (write_fields key content w policy))
      ≡ decoded (record {
        key = key;
        content = content;
        policy = policy;
        w = w;
        client_ts = pos 0;
        orset_op = [];
        orset_elem = [];
        tombstone = false;
      })
write_framed key content w policy = ground (
  arith,
  take-length key (frame content policy),
  drop-length key (frame content policy),
  take-length content policy,
  drop-length content policy,
  int_coded w,
)

pub fact_framed :
    (entity attribute value : Text) (w : ℤ) (policy : Text)
    → decode_fact (marshal_fields (fact_fields entity attribute value w policy))
      ≡ decoded
          (record { entity = entity; attribute = attribute; value = value; policy = policy; w = w })
fact_framed entity attribute value w policy = ground (
  arith,
  take-length entity (frame attribute (frame value policy)),
  drop-length entity (frame attribute (frame value policy)),
  take-length attribute (frame value policy),
  drop-length attribute (frame value policy),
  take-length value policy,
  drop-length value policy,
  int_coded w,
)

pub tag_framed :
    (entity tag : Text) (w : ℤ)
    → decode_tag (marshal_fields (tag_fields entity tag w))
      ≡ decoded (record { entity = entity; tag = tag; w = w })
tag_framed entity tag w =
    ground (arith, take-length entity tag, drop-length entity tag, int_coded w)

abbrev pub framed_marshal : Marshal framed_json
framed_marshal = record {
  marshal = marshal_fields;
  write_read = write_framed;
  fact_read = fact_framed;
  tag_read = tag_framed;
}
