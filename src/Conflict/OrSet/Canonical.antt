-- ===== src/Conflict/OrSet/Canonical.antt =====
-- The states that the code builds: sorted maps in which every tag is on. Two of them with the same
-- tests are equal.
use agent_memory.Prelude.{
  ◌≡◌, refl, Bool, true, false, [], ◌∷◌, none, some, Text, arith, if◌then◌else◌,
}
use agent_memory.Prelude.Order.{list_ord}
use agent_memory.Map.{Map, lookup, insert, has, IsSorted}
use agent_memory.Map.Lookup.{insert-IsSorted}
use agent_memory.Map.Extensional.{Map-ext}
use agent_memory.Conflict.Codec.{TagMap, IsTagMap, AllSorted, OrSet, IsOrSet}
use agent_memory.Conflict.OrSet.{
  tags_of, tag_on, ensure, set_tag, set_tags, union_tags, union, add, remove, merge_orset_states,
}

abbrev pub AllTrue : Map Text Bool → Type 0
AllTrue [] = Unit
AllTrue ((t, on) ∷ tags) = (on ≡ true) × AllTrue tags

abbrev pub AllOn : TagMap → Type 0
AllOn [] = Unit
AllOn ((e, tags) ∷ m) = AllTrue tags × AllOn m

abbrev pub IsFull : TagMap → Type 0
IsFull m = IsTagMap m × AllOn m

pub record IsCanonical (s : OrSet) : Type 0 where
  pub adds : IsFull s.adds
  pub rems : IsFull s.rems

pub IsCanonical-IsOrSet : {s : OrSet} → IsCanonical s → IsOrSet s
IsCanonical-IsOrSet c = record { adds = c.adds.0; rems = c.rems.0 }

-- The tags of one element.
abbrev pub IsTags : Map Text Bool → Type 0
IsTags tags = IsSorted tags × AllTrue tags

pub tags_of-IsTags : (e : Text) (m : TagMap) → AllSorted m → AllOn m → IsTags (tags_of e m)
unfolding tags_of lookup
tags_of-IsTags e [] s a = (tt, tt)
tags_of-IsTags e ((k, tags) ∷ m) s a = ground (arith, tags_of-IsTags e m s.1 a.1)

insert-AllTrue : (t : Text) (tags : Map Text Bool) → AllTrue tags → AllTrue (insert t true tags)
unfolding insert
insert-AllTrue t [] a = (refl, tt)
insert-AllTrue t ((k, on) ∷ tags) a = ground (arith, insert-AllTrue t tags)

insert-AllSorted :
    (e : Text) (tags : Map Text Bool) (m : TagMap)
    → IsTags tags
    → AllSorted m
    → AllOn m
    → AllSorted (insert e tags m) × AllOn (insert e tags m)
unfolding insert
insert-AllSorted e tags [] h s a = ((h.0, tt), (h.1, tt))
insert-AllSorted e tags ((k, ts) ∷ m) h s a = ground (arith, insert-AllSorted e tags m h s.1 a.1)

insert-IsFull :
    (e : Text) (tags : Map Text Bool) (m : TagMap)
    → IsTags tags
    → IsFull m
    → IsFull (insert e tags m)
insert-IsFull e tags m h f =
    let (s, a) = insert-AllSorted e tags m h f.0.1 f.1 in ((insert-IsSorted e tags m f.0.0, s), a)

ensure-IsFull : (m : TagMap) (e : Text) → IsFull m → IsFull (ensure m e)
unfolding ensure
ensure-IsFull m e f = ground (arith, insert-IsFull e [] m (tt, tt) f)

set_tag-IsFull : (e : Text) (m : TagMap) (t : Text) → IsFull m → IsFull (set_tag e m t)
unfolding set_tag
set_tag-IsFull e m t f =
    let (s, a) = tags_of-IsTags e m f.0.1 f.1 in
    insert-IsFull e (insert t true (tags_of e m)) m
      (insert-IsSorted t true (tags_of e m) s, insert-AllTrue t (tags_of e m) a) f

set_tags-IsFull :
    (e : Text) (m : TagMap) (tags : Map Text Bool) → IsFull m → IsFull (set_tags e m tags)
unfolding set_tags
set_tags-IsFull e m [] f = f
set_tags-IsFull e m ((t, on) ∷ tags) f =
    set_tags-IsFull e (set_tag e m t) tags (set_tag-IsFull e m t f)

union_tags-IsFull :
    (e : Text) (m : TagMap) (tags : Map Text Bool) → IsFull m → IsFull (union_tags e m tags)
unfolding union_tags
union_tags-IsFull e m [] f = f
union_tags-IsFull e m ((t, true) ∷ tags) f =
    union_tags-IsFull e (set_tag e m t) tags (set_tag-IsFull e m t f)
union_tags-IsFull e m ((t, false) ∷ tags) f = union_tags-IsFull e m tags f

pub union-IsFull : (dst src : TagMap) → IsFull dst → IsFull (union dst src)
unfolding union
union-IsFull dst [] f = f
union-IsFull dst ((e, tags) ∷ src) f =
    union-IsFull (union_tags e (ensure dst e) tags) src
      (union_tags-IsFull e (ensure dst e) tags (ensure-IsFull dst e f))

-- Every operation yields such a state, a merge of any two states too.
pub merge-IsCanonical : (a b : OrSet) → IsCanonical (merge_orset_states a b)
unfolding merge_orset_states
merge-IsCanonical a b = record {
  adds = union-IsFull _ b.adds (union-IsFull [] a.adds ((tt, tt), tt));
  rems = union-IsFull _ b.rems (union-IsFull [] a.rems ((tt, tt), tt));
}

pub add-IsCanonical : (s : OrSet) (e t : Text) → IsCanonical s → IsCanonical (add s e t)
unfolding add
add-IsCanonical s e t c = record {
  adds = set_tag-IsFull e _ t (ensure-IsFull s.adds e c.adds);
  rems = c.rems;
}

pub remove-IsCanonical : (s : OrSet) (e : Text) → IsCanonical s → IsCanonical (remove s e)
unfolding remove
remove-IsCanonical s e c = record {
  adds = c.adds;
  rems = set_tags-IsFull e _ (tags_of e s.adds) (ensure-IsFull s.rems e c.rems);
}

-- With every tag on, a tag is there exactly when it is on.
pub lookup-AllTrue :
    (t : Text) (tags : Map Text Bool)
    → AllTrue tags
    → lookup t tags
      ≡ (if elim (lookup t tags) [ none ↦ false | some b ↦ b ] then some true else none)
unfolding lookup
lookup-AllTrue t [] a = refl
lookup-AllTrue t ((k, on) ∷ tags) a = ground (arith, lookup-AllTrue t tags a.1)

tags_of-eq :
    (e : Text) (m n : TagMap)
    → IsFull m
    → IsFull n
    → ((t : Text) → tag_on e t m ≡ tag_on e t n)
    → tags_of e m ≡ tags_of e n
unfolding tag_on
tags_of-eq e m n f g h =
    let (s, a) = tags_of-IsTags e m f.0.1 f.1 in
    let (s', a') = tags_of-IsTags e n g.0.1 g.1 in
    Map-ext (tags_of e m) (tags_of e n) s s'
      λ t. cc (lookup-AllTrue t (tags_of e m) a, lookup-AllTrue t (tags_of e n) a', h t)

lookup-eq :
    (e : Text) (m n : TagMap)
    → has e m ≡ has e n
    → tags_of e m ≡ tags_of e n
    → lookup e m ≡ lookup e n
unfolding tags_of
lookup-eq e m n p q = ground arith

pub TagMap-ext :
    (m n : TagMap)
    → IsFull m
    → IsFull n
    → ((e : Text) → has e m ≡ has e n)
    → ((e t : Text) → tag_on e t m ≡ tag_on e t n)
    → m ≡ n
TagMap-ext m n f g h k =
    Map-ext m n f.0.0 g.0.0 λ e. lookup-eq e m n (h e) (tags_of-eq e m n f g (k e))
