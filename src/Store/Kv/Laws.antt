-- ===== src/Store/Kv/Laws.antt =====
-- What can be read from the map after each operation, and its invariant.
use agent_memory.Prelude.{
  ◌≡◌, refl, true, not, ◌&&◌, ◌||◌, [], ◌∷◌, none, some, if◌then◌else◌, Text, arith, eq_text,
}
use agent_memory.Prelude.Order.{list_ord, is_eq, list_eq}
use agent_memory.Map.{Map, lookup, insert, IsSorted}
use agent_memory.Map.Lookup.{lookup-insert, insert-IsSorted}
use agent_memory.Map.Extensional.{lookup-Above, Map-ext}
use agent_memory.Types.Version.{Version, version_ord, compare_version, version_refl}
use agent_memory.Types.Value.{Value}
use agent_memory.Store.Kv.{
  Kv, new_kv, get, versions_of, mark, apply, seen, copy_all, snapshot, has_prefix, copy_prefix,
  prefix,
}

pub get-apply :
    (kv : Kv) (k j : Text) (v : Value)
    → get j (apply k v kv).0 ≡ (if eq_text k j then some v else get j kv)
unfolding get apply eq_text
get-apply kv k j v = lookup-insert k j v kv.m

pub stored-apply : (kv : Kv) (k : Text) (v : Value) → (apply k v kv).1 ≡ v
unfolding apply
stored-apply kv k v = refl

pub seen-apply :
    (kv : Kv) (k j : Text) (v : Value) (ver : Version)
    → seen j ver (apply k v kv).0
      ≡ ((eq_text k j && is_eq (compare_version v.version ver)) || seen j ver kv)
unfolding seen apply mark versions_of eq_text lookup
seen-apply kv k j v ver = ground (
  arith,
  lookup-insert k j (insert v.version tt (versions_of k kv)) kv.applied,
  lookup-insert v.version ver tt (versions_of k kv),
  list_eq k j,
)

-- The version of every current value is recorded as applied, and the map has each key once.
pub record IsValid (kv : Kv) : Type 0 where
  pub sorted : IsSorted kv.m
  pub recorded : (k : Text) (v : Value) → get k kv ≡ some v → seen k v.version kv ≡ true

pub new_kv-IsValid : IsValid new_kv
unfolding get lookup
new_kv-IsValid = record { sorted = tt; recorded = λ k v e. ground arith }

-- A store keeps the map valid: each key once, and the version of every current value recorded.
pub apply-IsValid : (kv : Kv) (k : Text) (v : Value) → IsValid kv → IsValid (apply k v kv).0
apply-IsValid kv k v h = record {
  sorted = unfold apply in insert-IsSorted k v kv.m h.sorted;
  recorded = λ j w e. ground (
    arith,
    get-apply kv k j v,
    seen-apply kv k j v w.version,
    h.recorded j w,
    version_refl v.version,
  );
}

lookup-copy_all :
    (out m : Map Text Value) (j : Text)
    → IsSorted m
    → lookup j (copy_all out m) ≡ elim (lookup j m) [ none ↦ lookup j out | some v ↦ some v ]
unfolding copy_all lookup
lookup-copy_all out [] j s = refl
lookup-copy_all out ((k, v) ∷ m) j s = ground (
  arith,
  lookup-copy_all (insert k v out) m j,
  lookup-insert k j v out,
  lookup-Above k m,
  list_eq k j,
)

pub lookup-snapshot : (kv : Kv) (j : Text) → IsSorted kv.m → lookup j (snapshot kv) ≡ get j kv
unfolding snapshot get lookup
lookup-snapshot kv j s = ground (arith, lookup-copy_all [] kv.m j s)

copy_all-IsSorted : (out m : Map Text Value) → IsSorted out → IsSorted (copy_all out m)
unfolding copy_all
copy_all-IsSorted out [] s = s
copy_all-IsSorted out ((k, v) ∷ m) s =
    copy_all-IsSorted (insert k v out) m (insert-IsSorted k v out s)

pub snapshot-IsSorted : (kv : Kv) → IsSorted (snapshot kv)
unfolding snapshot
snapshot-IsSorted kv = copy_all-IsSorted [] kv.m tt

-- A snapshot is the map itself.
pub snapshot_lem : (kv : Kv) → IsSorted kv.m → snapshot kv ≡ kv.m
snapshot_lem kv s =
    Map-ext (snapshot kv) kv.m (unfold snapshot in copy_all-IsSorted [] kv.m tt) s
      (λ j. unfold get in lookup-snapshot kv j s)

lookup-copy_prefix :
    (p : Text) (out m : Map Text Value) (j : Text)
    → IsSorted m
    → lookup j (copy_prefix p out m) ≡ elim (lookup j m) [
      | none ↦ lookup j out
      | some v ↦ if has_prefix j p && not v.tombstone then some v else lookup j out
    ]
unfolding copy_prefix lookup
lookup-copy_prefix p out [] j s = refl
lookup-copy_prefix p out ((k, v) ∷ m) j s = ground (
  arith,
  lookup-copy_prefix p (insert k v out) m j,
  lookup-copy_prefix p out m j,
  lookup-insert k j v out,
  lookup-Above k m,
  list_eq k j,
)

-- A prefix scan of a valid map finds exactly the keys with the prefix whose value is not deleted.
pub lookup-prefix :
    (kv : Kv) (p j : Text)
    → IsValid kv
    → lookup j (prefix p kv) ≡ elim (get j kv) [
      | none ↦ none
      | some v ↦ if has_prefix j p && not v.tombstone then some v else none
    ]
unfolding prefix get lookup
lookup-prefix kv p j h = ground (arith, lookup-copy_prefix p [] kv.m j h.sorted)
