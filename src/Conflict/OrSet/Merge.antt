-- ===== src/Conflict/OrSet/Merge.antt =====
-- The merge of two sets is the least upper bound of their states, and a semilattice on payloads.
use agent_memory.Prelude.{◌≡◌, refl, ◌||◌, [], Text, arith, ◌==◌, length, Bool-cases, inl, inr}
use agent_memory.Prelude.Order.{list_ord, max_by, max_by_idem, max_by_comm, max_by_assoc}
use agent_memory.Map.{lookup, has}
use agent_memory.Types.Version.{Version, version_ord}
use agent_memory.Types.Value.{Value}
use agent_memory.Conflict.Codec.{Codec, TagMap, IsTagMap, OrSet, IsOrSet}
use agent_memory.Conflict.OrSet.{
  tag_on, tags_of, union, merge_orset_states, max_ver, decode_orset, encode_orset, merge_orset,
}
use agent_memory.Conflict.OrSet.View.{tag_on-union, has-union}
use agent_memory.Conflict.OrSet.Canonical.{
  IsFull, IsCanonical, IsCanonical-IsOrSet, merge-IsCanonical, union-IsFull, TagMap-ext,
}

-- One of the two maps of a merge.
abbrev join : TagMap → TagMap → TagMap
join m n = union (union [] m) n

has-join : (m n : TagMap) (e : Text) → has e (join m n) ≡ (has e m || has e n)
unfolding lookup
has-join m n e = rw (has-union, has-union) refl

on_join :
    (m n : TagMap) (e t : Text)
    → IsTagMap m
    → IsTagMap n
    → tag_on e t (join m n) ≡ (tag_on e t m || tag_on e t n)
unfolding tag_on tags_of lookup
on_join m n e t s s' = cc (tag_on-union (union [] m) n e t s', tag_on-union [] m e t s)

join-IsFull : (m n : TagMap) → IsFull (join m n)
join-IsFull m n = union-IsFull _ n (union-IsFull [] m ((tt, tt), tt))

join_comm : (m n : TagMap) → IsTagMap m → IsTagMap n → join m n ≡ join n m
join_comm m n s s' =
    TagMap-ext (join m n) (join n m) (join-IsFull m n) (join-IsFull n m)
      (λ e. ground (arith, has-join m n e, has-join n m e))
      (λ e t. ground (arith, on_join m n e t s s', on_join n m e t s' s))

join_assoc :
    (m n k : TagMap) → IsTagMap m → IsTagMap n → IsTagMap k → join (join m n) k ≡ join m (join n k)
join_assoc m n k s s' s'' =
    TagMap-ext (join (join m n) k) (join m (join n k)) (join-IsFull (join m n) k)
      (join-IsFull m (join n k))
      (λ e.
        ground
          (arith, has-join (join m n) k e, has-join m n e, has-join m (join n k) e, has-join n k e))
      (λ e t. ground (
        arith,
        on_join (join m n) k e t (join-IsFull m n).0 s'',
        on_join m n e t s s',
        on_join m (join n k) e t s (join-IsFull n k).0,
        on_join n k e t s' s'',
      ))

join_idem : (m : TagMap) → IsFull m → join m m ≡ m
join_idem m f =
    TagMap-ext (join m m) m (join-IsFull m m) f (λ e. ground (arith, has-join m m e))
      (λ e t. ground (arith, on_join m m e t f.0 f.0))

-- A tag is on after a merge exactly when it was on in one of the two states, for adds and for
-- removes, where the maps are sorted.
pub tag_on-merge :
    (a b : OrSet) (e t : Text)
    → IsOrSet a
    → IsOrSet b
    → (tag_on e t (merge_orset_states a b).adds ≡ (tag_on e t a.adds || tag_on e t b.adds))
      × (tag_on e t (merge_orset_states a b).rems ≡ (tag_on e t a.rems || tag_on e t b.rems))
unfolding merge_orset_states
tag_on-merge a b e t s s' =
    (on_join a.adds b.adds e t s.adds s'.adds, on_join a.rems b.rems e t s.rems s'.rems)

pub merge_states_comm :
    (a b : OrSet) → IsOrSet a → IsOrSet b → merge_orset_states a b ≡ merge_orset_states b a
unfolding merge_orset_states
merge_states_comm a b s s' =
    cc (join_comm a.adds b.adds s.adds s'.adds, join_comm a.rems b.rems s.rems s'.rems)

pub merge_states_assoc :
    (a b c : OrSet)
    → IsOrSet a
    → IsOrSet b
    → IsOrSet c
    → merge_orset_states (merge_orset_states a b) c ≡ merge_orset_states a (merge_orset_states b c)
unfolding merge_orset_states
merge_states_assoc a b c s s' s'' = cc (
  join_assoc a.adds b.adds c.adds s.adds s'.adds s''.adds,
  join_assoc a.rems b.rems c.rems s.rems s'.rems s''.rems,
)

pub merge_states_idem : (a : OrSet) → IsCanonical a → merge_orset_states a a ≡ a
unfolding merge_orset_states
merge_states_idem a c = cc (join_idem a.adds c.adds, join_idem a.rems c.rems)

max_ver-max_by : (a b : Version) → max_ver a b ≡ max_by (λ (v : Version). v) a b
unfolding max_ver
max_ver-max_by a b = refl

pub max_ver_comm : (a b : Version) → max_ver a b ≡ max_ver b a
max_ver_comm a b = simp max_ver-max_by (max_by_comm (λ (v : Version). v) a b (λ e. e))

pub max_ver_assoc : (a b c : Version) → max_ver (max_ver a b) c ≡ max_ver a (max_ver b c)
max_ver_assoc a b c = simp max_ver-max_by (max_by_assoc (λ (v : Version). v) a b c)

pub max_ver_idem : (a : Version) → max_ver a a ≡ a
max_ver_idem a = rw max_ver-max_by (max_by_idem (λ (v : Version). v) a)

module _ ⦃codec : Codec⦄ where
  pub decode-IsOrSet : (v : Value) → IsOrSet (decode_orset v)
  unfolding decode_orset
  decode-IsOrSet v = elim (Bool-cases (length v.crdt == 0)) [
    | inl e ↦ rw e (record { adds = (tt, tt); rems = (tt, tt) })
    | inr e ↦ rw e (codec.unmarshal_maps v.crdt)
  ]

  pub decode-encode :
      (s : OrSet) (ver : Version) → IsOrSet s → decode_orset (encode_orset s ver) ≡ s
  unfolding decode_orset encode_orset
  decode-encode s ver h = ground (arith, codec.orset_nonempty s, codec.orset_roundtrip s h)

  pub decode-merge :
      (a b : Value)
      → decode_orset (merge_orset a b) ≡ merge_orset_states (decode_orset a) (decode_orset b)
  unfolding merge_orset
  decode-merge a b = decode-encode _ _ (IsCanonical-IsOrSet (merge-IsCanonical _ _))

  version-merge : (a b : Value) → (merge_orset a b).version ≡ max_ver a.version b.version
  unfolding merge_orset encode_orset
  version-merge a b = refl

  merge-encode :
      (a b : Value)
      → merge_orset a b
        ≡ encode_orset
            (merge_orset_states (decode_orset a) (decode_orset b))
            (max_ver a.version b.version)
  unfolding merge_orset
  merge-encode a b = refl

  -- A payload as the code writes it.
  pub record IsOrSetValue (v : Value) : Type 0 where
    pub canonical : IsCanonical (decode_orset v)
    pub encoded : v ≡ encode_orset (decode_orset v) v.version

  pub merge_orset_comm : (a b : Value) → merge_orset a b ≡ merge_orset b a
  unfolding merge_orset
  merge_orset_comm a b = cc (
    merge_states_comm (decode_orset a) (decode_orset b) (decode-IsOrSet a) (decode-IsOrSet b),
    max_ver_comm a.version b.version,
  )

  -- The merge of set payloads is associative, whatever the payloads.
  pub merge_orset_assoc :
      (a b c : Value) → merge_orset (merge_orset a b) c ≡ merge_orset a (merge_orset b c)
  merge_orset_assoc a b c =
      let s =
        merge_states_assoc (decode_orset a) (decode_orset b) (decode_orset c) (decode-IsOrSet a)
          (decode-IsOrSet b) (decode-IsOrSet c) in
      cc (
        s,
        max_ver_assoc a.version b.version c.version,
        decode-merge a b,
        decode-merge b c,
        version-merge a b,
        version-merge b c,
        merge-encode (merge_orset a b) c,
        merge-encode a (merge_orset b c),
      )

  pub merge_orset_idem : (a : Value) → IsOrSetValue a → merge_orset a a ≡ a
  unfolding merge_orset
  merge_orset_idem a h =
      cc (merge_states_idem (decode_orset a) h.canonical, max_ver_idem a.version, h.encoded)

  pub merge-IsOrSetValue : (a b : Value) → IsOrSetValue (merge_orset a b)
  merge-IsOrSetValue a b = record {
    canonical = rw decode-merge (merge-IsCanonical (decode_orset a) (decode_orset b));
    encoded = cc (decode-merge a b, version-merge a b, merge-encode a b);
  }
