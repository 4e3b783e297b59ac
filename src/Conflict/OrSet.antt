-- ===== src/Conflict/OrSet.antt =====
-- internal/conflict/crdt_orset.go: the observed-remove set. A method of the code changes the maps of
-- its receiver in place; the maps are fresh from `decodeORSet` at each use, and here a method returns
-- the new state. A loop over a map goes through its list; `Merge` and `Elements` show that what the
-- loops compute depends on the lookups alone, and so on no order.
pub mod View
pub mod Canonical
pub mod Merge
pub mod Membership
pub mod Elements
use mathlib.Core.List.{foldl}
use agent_memory.Prelude.{
  Bool, true, false, not, ◌&&◌, List, [], ◌∷◌, ◌++◌, Ordering, if◌then◌else◌, Option, none, some,
  Text, codes, eq_text, length, ◌==◌,
}
use agent_memory.Prelude.Order.{cmp_list, is_ge, list_ord}
use agent_memory.Map.{Map, lookup, insert, empty}
use agent_memory.Types.Version.{Version, compare_version}
use agent_memory.Types.Value.{Value, Policy}
use agent_memory.Conflict.Codec.{OrSet, TagMap, Codec}

abbrev pub empty_orset : OrSet
empty_orset = record { adds = empty; rems = empty }

-- m[elem], where a missing key reads as the nil map
unfoldable pub tags_of : Text → TagMap → Map Text Bool
tags_of elem m = elim (lookup elem m) [ none ↦ [] | some tags ↦ tags ]

-- m[elem][tag]
unfoldable pub tag_on : Text → Text → TagMap → Bool
tag_on elem tag m = elim (lookup tag (tags_of elem m)) [ none ↦ false | some b ↦ b ]

unfoldable pub ensure : TagMap → Text → TagMap
ensure m k = elim (lookup k m) [ none ↦ insert k [] m | some tags ↦ m ]

-- m[elem][tag] = true
unfoldable pub set_tag : Text → TagMap → Text → TagMap
set_tag elem m tag = insert elem (insert tag true (tags_of elem m)) m

unfoldable pub add : OrSet → Text → Text → OrSet
add s elem tag = record s { adds = set_tag elem (ensure s.adds elem) tag }

unfoldable pub set_tags : Text → TagMap → Map Text Bool → TagMap
set_tags elem m [] = m
set_tags elem m ((tag, on) ∷ tags) = set_tags elem (set_tag elem m tag) tags

unfoldable pub remove : OrSet → Text → OrSet
remove s elem = record s { rems = set_tags elem (ensure s.rems elem) (tags_of elem s.adds) }

-- The loop of `Contains`.
unfoldable pub any_live : Text → TagMap → Map Text Bool → Bool
any_live elem rems [] = false
any_live elem rems ((tag, on) ∷ tags) =
    if not (tag_on elem tag rems) then true else any_live elem rems tags

unfoldable pub contains : OrSet → Text → Bool
contains s elem = any_live elem s.rems (tags_of elem s.adds)

-- The loop of `Elements`, over the keys that are left.
unfoldable pub live_elems : OrSet → Map Text Bool → TagMap → List Text
live_elems s seen [] = []
live_elems s seen ((elem, tags) ∷ adds) =
    let fresh = contains s elem && not (elim (lookup elem seen) [ none ↦ false | some b ↦ b ]) in
    let taken = elem ∷ live_elems s (insert elem true seen) adds in
    let skipped = live_elems s seen adds in if fresh then taken else skipped

insert_text : Text → List Text → List Text
insert_text s [] = s ∷ []
insert_text s (t ∷ l) = if is_ge (cmp_list t s) then s ∷ t ∷ l else t ∷ insert_text s l

-- sort.Strings
unfoldable pub sort_strings : List Text → List Text
unfolding insert_text
sort_strings [] = []
sort_strings (s ∷ l) = insert_text s (sort_strings l)

unfoldable pub elements : OrSet → List Text
elements s = sort_strings (live_elems s empty s.adds)

-- The inner loop of `union`.
unfoldable pub union_tags : Text → TagMap → Map Text Bool → TagMap
union_tags elem dst [] = dst
union_tags elem dst ((tag, on) ∷ tags) =
    union_tags elem (if on then set_tag elem dst tag else dst) tags

unfoldable pub union : TagMap → TagMap → TagMap
union dst [] = dst
union dst ((elem, tags) ∷ src) = union (union_tags elem (ensure dst elem) tags) src

unfoldable pub merge_orset_states : OrSet → OrSet → OrSet
merge_orset_states a b = record {
  adds = union (union empty a.adds) b.adds;
  rems = union (union empty a.rems) b.rems;
}

unfoldable pub max_ver : Version → Version → Version
max_ver a b = if is_ge (compare_version a b) then a else b

module _ ⦃codec : Codec⦄ where
  unfoldable pub decode_orset : Value → OrSet
  decode_orset v = if length v.crdt == 0 then empty_orset else codec.unmarshal_orset v.crdt

  unfoldable pub encode_orset : OrSet → Version → Value
  encode_orset s ver = record {
    content = codec.marshal_strings (elements s);
    version = ver;
    policy = Policy.crdt_orset;
    tombstone = false;
    crdt = codec.marshal_orset s;
  }

  unfoldable pub merge_orset : Value → Value → Value
  merge_orset a b =
      encode_orset (merge_orset_states (decode_orset a) (decode_orset b))
        (max_ver a.version b.version)

  unfoldable pub apply_orset_op : Value → Bool → Text → Text → Text → Version → Value
  apply_orset_op current found op elem tag ver =
      let s = if found then decode_orset current else empty_orset in
      encode_orset (if eq_text op (codes "remove") then remove s elem else add s elem tag) ver

  unfoldable pub orset_elements : Value → List Text
  orset_elements v = elements (decode_orset v)

  unfoldable pub orset_contains : Value → Text → Bool
  orset_contains v elem = contains (decode_orset v) elem
