-- ===== src/Conflict/OrSet/View.antt =====
-- A map of tags as two tests: whether an element has an entry, and whether a tag of it is on.
use agent_memory.Prelude.{
  ◌≡◌, ◌≢◌, refl, Ordering, Bool, true, false, ◌&&◌, ◌||◌, [], ◌∷◌, none, some, Text, eq_text,
  arith, eq_text→eq,
}
use agent_memory.Prelude.Order.{list_ord, list_refl, list_eq, cmp_list}
use agent_memory.Map.{Map, lookup, insert, has, Above, IsSorted}
use agent_memory.Map.Lookup.{lookup-insert}
use agent_memory.Conflict.Codec.{TagMap, IsTagMap}
use agent_memory.Conflict.OrSet.{tags_of, tag_on, ensure, set_tag, set_tags, union_tags, union}

module _ (e : Text) (m : TagMap) (j : Text) where
  pub has-ensure : has j (ensure m e) ≡ (eq_text e j || has j m)
  unfolding ensure eq_text
  has-ensure = ground (arith, lookup-insert e j [] m, list_eq e j)

  pub tag_on-ensure : (t : Text) → tag_on j t (ensure m e) ≡ tag_on j t m
  unfolding ensure tag_on tags_of lookup
  tag_on-ensure t = ground (arith, lookup-insert e j [] m, list_eq e j)

  pub has-set_tag : (tag : Text) → has j (set_tag e m tag) ≡ (eq_text e j || has j m)
  unfolding set_tag eq_text
  has-set_tag tag = ground (arith, lookup-insert e j (insert tag true (tags_of e m)) m)

  pub tag_on-set_tag :
      (tag t : Text)
      → tag_on j t (set_tag e m tag) ≡ ((eq_text e j && eq_text tag t) || tag_on j t m)
  unfolding set_tag tag_on tags_of eq_text
  tag_on-set_tag tag t = ground (
    arith,
    lookup-insert e j (insert tag true (tags_of e m)) m,
    lookup-insert tag t true (tags_of e m),
    list_eq e j,
  )

-- Whether some entry of the list turns the tag on.
abbrev any_on : Text → Map Text Bool → Bool
any_on t [] = false
any_on t ((tag, on) ∷ tags) = (eq_text tag t && on) || any_on t tags

abbrev any_entry : Text → Text → TagMap → Bool
any_entry j t [] = false
any_entry j t ((e, tags) ∷ m) = (eq_text e j && any_on t tags) || any_entry j t m

tag_on-union_tags :
    (e : Text) (dst : TagMap) (tags : Map Text Bool) (j t : Text)
    → tag_on j t (union_tags e dst tags) ≡ (tag_on j t dst || (eq_text e j && any_on t tags))
unfolding union_tags
tag_on-union_tags e dst [] j t = ground arith
tag_on-union_tags e dst ((tag, true) ∷ tags) j t =
    ground (arith, tag_on-union_tags e (set_tag e dst tag) tags j t, tag_on-set_tag e dst j tag t)
tag_on-union_tags e dst ((tag, false) ∷ tags) j t = ground (arith, tag_on-union_tags e dst tags j t)

has-union_tags :
    (e : Text) (dst : TagMap) (tags : Map Text Bool) (j : Text)
    → has e dst ≡ true
    → has j (union_tags e dst tags) ≡ has j dst
unfolding union_tags
has-union_tags e dst [] j h = refl
has-union_tags e dst ((tag, true) ∷ tags) j h = ground (
  arith,
  has-union_tags e (set_tag e dst tag) tags j,
  has-set_tag e dst j tag,
  has-set_tag e dst e tag,
  eq_text→eq e j,
)
has-union_tags e dst ((tag, false) ∷ tags) j h = has-union_tags e dst tags j h

tag_on-union_entry :
    (dst src : TagMap) (j t : Text)
    → tag_on j t (union dst src) ≡ (tag_on j t dst || any_entry j t src)
unfolding union
tag_on-union_entry dst [] j t = ground arith
tag_on-union_entry dst ((e, tags) ∷ src) j t = ground (
  arith,
  tag_on-union_entry (union_tags e (ensure dst e) tags) src j t,
  tag_on-union_tags e (ensure dst e) tags j t,
  tag_on-ensure e dst j t,
)

pub has-union : (dst src : TagMap) (j : Text) → has j (union dst src) ≡ (has j dst || has j src)
unfolding union lookup eq_text
has-union dst [] j = ground arith
has-union dst ((e, tags) ∷ src) j = ground (
  arith,
  has-union (union_tags e (ensure dst e) tags) src j,
  has-union_tags e (ensure dst e) tags j,
  has-ensure e dst j,
  has-ensure e dst e,
  list_refl e,
)

any_on-Above :
    (k t : Text) (tags : Map Text Bool)
    → cmp_list k t ≢ Ordering.lt
    → Above k tags
    → any_on t tags ≡ false
unfolding eq_text
any_on-Above k t [] h a = refl
any_on-Above k t ((tag, on) ∷ tags) h a = ground (arith, any_on-Above k t tags, list_eq tag t)

any_on-lookup :
    (t : Text) (tags : Map Text Bool)
    → IsSorted tags
    → any_on t tags ≡ elim (lookup t tags) [ none ↦ false | some b ↦ b ]
unfolding lookup eq_text
any_on-lookup t [] s = refl
any_on-lookup t ((tag, on) ∷ tags) s =
    ground (arith, any_on-lookup t tags, any_on-Above tag t tags, list_eq tag t, list_refl tag)

any_entry-Above :
    (k j t : Text) (m : TagMap) → cmp_list k j ≢ Ordering.lt → Above k m → any_entry j t m ≡ false
unfolding eq_text
any_entry-Above k j t [] h a = refl
any_entry-Above k j t ((e, tags) ∷ m) h a = ground (arith, any_entry-Above k j t m, list_eq e j)

any_entry-tag_on : (j t : Text) (m : TagMap) → IsTagMap m → any_entry j t m ≡ tag_on j t m
unfolding lookup eq_text tag_on tags_of
any_entry-tag_on j t [] s = refl
any_entry-tag_on j t ((e, tags) ∷ m) s = ground (
  arith,
  any_entry-tag_on j t m (s.0.1, s.1.1),
  any_entry-Above e j t m,
  any_on-lookup t tags s.1.0,
  list_eq e j,
  list_refl e,
)

-- A union turns on what either map turns on.
pub tag_on-union :
    (dst src : TagMap) (j t : Text)
    → IsTagMap src
    → tag_on j t (union dst src) ≡ (tag_on j t dst || tag_on j t src)
tag_on-union dst src j t s = rw (← any_entry-tag_on j t src s) (tag_on-union_entry dst src j t)

pub tag_on-set_tags :
    (e : Text) (m : TagMap) (tags : Map Text Bool) (j t : Text)
    → tag_on j t (set_tags e m tags) ≡ (tag_on j t m || (eq_text e j && has t tags))
unfolding set_tags lookup eq_text
tag_on-set_tags e m [] j t = ground arith
tag_on-set_tags e m ((tag, on) ∷ tags) j t =
    ground (arith, tag_on-set_tags e (set_tag e m tag) tags j t, tag_on-set_tag e m j tag t)
