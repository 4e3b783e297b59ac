-- ===== src/Conflict/OrSet/Membership.antt =====
-- What `Contains` says after each operation, read off the tags.
use agent_memory.Prelude.{
  ◌≡◌, refl, Bool, true, false, not, ◌&&◌, ◌||◌, [], ◌∷◌, Text, arith, eq_text, Bool-ext,
  Bool-cases, inl, inr, eq_text→eq, eq_text_refl,
}
use agent_memory.Prelude.Order.{list_ord, list_eq, list_refl}
use agent_memory.Map.{Map, lookup, insert, has}
use agent_memory.Map.Lookup.{lookup-insert}
use agent_memory.Conflict.Codec.{OrSet, TagMap, IsOrSet}
use agent_memory.Conflict.OrSet.{
  tags_of, tag_on, ensure, set_tag, add, remove, any_live, contains, merge_orset_states,
}
use agent_memory.Conflict.OrSet.View.{tag_on-ensure, tag_on-set_tags}
use agent_memory.Conflict.OrSet.Canonical.{
  IsCanonical, IsCanonical-IsOrSet, merge-IsCanonical, add-IsCanonical, remove-IsCanonical,
  lookup-AllTrue, tags_of-IsTags,
}
use agent_memory.Conflict.OrSet.Merge.{tag_on-merge, merge_states_comm}

-- A tag that was observed for an element, on or not.
abbrev pub has_tag : Text → Text → TagMap → Bool
has_tag e t m = has t (tags_of e m)

-- A tag of the element that no remove has seen.
abbrev pub LiveTag : OrSet → Text → Type 0
LiveTag s e = (t : Text) × (has_tag e t s.adds ≡ true) × (tag_on e t s.rems ≡ false)

any_live_sound :
    (e : Text) (rems : TagMap) (tags : Map Text Bool)
    → any_live e rems tags ≡ true
    → (t : Text) × (has t tags ≡ true) × (tag_on e t rems ≡ false)
unfolding any_live lookup
any_live_sound e rems [] h = absurd (ground arith)
any_live_sound e rems ((t, on) ∷ tags) h = elim (Bool-cases (tag_on e t rems)) [
  | inr live ↦ (t, ground (arith, list_refl t), live)
  | inl dead ↦
      let (t', there, live) = any_live_sound e rems tags (ground arith) in (t', ground arith, live)
]

any_live_complete :
    (e : Text) (rems : TagMap) (tags : Map Text Bool) (t : Text)
    → has t tags ≡ true
    → tag_on e t rems ≡ false
    → any_live e rems tags ≡ true
unfolding any_live lookup
any_live_complete e rems [] t h k = ground arith
any_live_complete e rems ((t', on) ∷ tags) t h k =
    ground (arith, any_live_complete e rems tags t, list_eq t' t)

-- An element is in the set exactly when one of its tags is in no remove.
pub contains-LiveTag :
    (s : OrSet) (e : Text)
    → (contains s e ≡ true → LiveTag s e) × (LiveTag s e → contains s e ≡ true)
unfolding contains
contains-LiveTag s e = (
  any_live_sound e s.rems (tags_of e s.adds),
  λ l. any_live_complete e s.rems (tags_of e s.adds) l.0 l.1 l.2,
)

contains_of_tag :
    (s : OrSet) (e t : Text)
    → has_tag e t s.adds ≡ true
    → tag_on e t s.rems ≡ false
    → contains s e ≡ true
contains_of_tag s e t h k = (contains-LiveTag s e).1 (t, h, k)

has_tag-add :
    (s : OrSet) (e tag j t : Text)
    → has_tag j t (add s e tag).adds ≡ ((eq_text e j && eq_text tag t) || has_tag j t s.adds)
unfolding add set_tag ensure tags_of eq_text lookup
has_tag-add s e tag j t = ground (
  arith,
  lookup-insert e j (insert tag true (tags_of e (ensure s.adds e))) (ensure s.adds e),
  lookup-insert e j [] s.adds,
  lookup-insert e e [] s.adds,
  lookup-insert tag t true (tags_of e (ensure s.adds e)),
  list_eq e j,
  list_refl e,
)

tag_on-remove :
    (s : OrSet) (e j t : Text)
    → tag_on j t (remove s e).rems ≡ (tag_on j t s.rems || (eq_text e j && has_tag e t s.adds))
unfolding remove
tag_on-remove s e j t =
    ground (
      arith,
      tag_on-set_tags e (ensure s.rems e) (tags_of e s.adds) j t,
      tag_on-ensure e s.rems j t,
    )

module _ (s : OrSet) (e tag j : Text) where
  contains_of_add :
      contains (add s e tag) j ≡ true
      → (contains s j || (eq_text e j && not (tag_on e tag s.rems))) ≡ true
  unfolding add
  contains_of_add h =
      let (t, there, live) = (contains-LiveTag (add s e tag) j).0 h in
      ground
        (arith, has_tag-add s e tag j t, contains_of_tag s j t, eq_text→eq e j, eq_text→eq tag t)

  add_keeps : contains s j ≡ true → contains (add s e tag) j ≡ true
  unfolding add
  add_keeps h =
      let (t, there, live) = (contains-LiveTag s j).0 h in
      ground (arith, has_tag-add s e tag j t, contains_of_tag (add s e tag) j t)

  add_adds : eq_text e j ≡ true → tag_on e tag s.rems ≡ false → contains (add s e tag) j ≡ true
  unfolding add
  add_adds h k = ground (
    arith,
    has_tag-add s e tag j tag,
    contains_of_tag (add s e tag) j tag,
    eq_text_refl tag,
    eq_text→eq e j,
  )

  -- An add makes its element a member unless its tag was removed before, and changes no other
  -- membership.
  pub contains-add :
      contains (add s e tag) j ≡ (contains s j || (eq_text e j && not (tag_on e tag s.rems)))
  contains-add = Bool-ext _ _ contains_of_add (λ h. ground (arith, add_keeps, add_adds))

module _ (s : OrSet) (e j : Text) where
  contains_of_remove : contains (remove s e) j ≡ true → (not (eq_text e j) && contains s j) ≡ true
  unfolding remove
  contains_of_remove h =
      let (t, there, live) = (contains-LiveTag (remove s e) j).0 h in
      ground (arith, tag_on-remove s e j t, contains_of_tag s j t, eq_text→eq e j)

  remove_keeps : (not (eq_text e j) && contains s j) ≡ true → contains (remove s e) j ≡ true
  unfolding remove
  remove_keeps h =
      let (t, there, live) = (contains-LiveTag s j).0 (ground arith) in
      ground (arith, tag_on-remove s e j t, contains_of_tag (remove s e) j t)

  -- A remove takes its element out, whatever its tags, and changes no other membership.
  pub contains-remove : contains (remove s e) j ≡ (not (eq_text e j) && contains s j)
  contains-remove = Bool-ext _ _ contains_of_remove remove_keeps

-- For the states that the code builds, a tag has an entry exactly when it is on.
has_tag-tag_on : (e t : Text) (s : OrSet) → IsCanonical s → has_tag e t s.adds ≡ tag_on e t s.adds
unfolding tag_on
has_tag-tag_on e t s c =
    ground
      (arith, lookup-AllTrue t (tags_of e s.adds) (tags_of-IsTags e s.adds c.adds.0.1 c.adds.1).1)

-- After a merge an element is there by a tag that one side added and neither side removed.
contains_of_merge :
    (a b : OrSet) (e t : Text)
    → IsOrSet a
    → IsOrSet b
    → (tag_on e t a.adds || tag_on e t b.adds) ≡ true
    → (tag_on e t a.rems || tag_on e t b.rems) ≡ false
    → contains (merge_orset_states a b) e ≡ true
contains_of_merge a b e t ca cb h k = ground (
  arith,
  contains_of_tag (merge_orset_states a b) e t,
  has_tag-tag_on e t (merge_orset_states a b) (merge-IsCanonical a b),
  tag_on-merge a b e t ca cb,
)

adds_remove : (b : OrSet) (e : Text) → (remove b e).adds ≡ b.adds
unfolding remove
adds_remove b e = refl

rems_add : (a : OrSet) (e tag : Text) → (add a e tag).rems ≡ a.rems
unfolding add
rems_add a e tag = refl

module _ (a b : OrSet) (e tag : Text) (ca : IsCanonical a) (cb : IsCanonical b) where
  -- Add wins: an add under a tag that neither side has removed and the other has not seen, merged
  -- in either order with a concurrent remove of the same element, leaves the element in, for states
  -- as the code builds them.
  pub add_wins :
      tag_on e tag a.rems ≡ false
      → tag_on e tag b.rems ≡ false
      → tag_on e tag b.adds ≡ false
      → (contains (merge_orset_states (add a e tag) (remove b e)) e ≡ true)
        × (contains (merge_orset_states (remove b e) (add a e tag)) e ≡ true)
  add_wins h k l = (first, rw (merge_states_comm (remove b e) (add a e tag) removed added) first)
    where
      added : IsOrSet (add a e tag)
      added = IsCanonical-IsOrSet (add-IsCanonical a e tag ca)

      removed : IsOrSet (remove b e)
      removed = IsCanonical-IsOrSet (remove-IsCanonical b e cb)

      first : contains (merge_orset_states (add a e tag) (remove b e)) e ≡ true
      first =
          contains_of_merge (add a e tag) (remove b e) e tag added removed
            (ground (
              arith,
              has_tag-tag_on e tag (add a e tag) (add-IsCanonical a e tag ca),
              has_tag-add a e tag e tag,
              eq_text_refl e,
              eq_text_refl tag,
            ))
            (ground (arith, rems_add a e tag, tag_on-remove b e e tag, has_tag-tag_on e tag b cb))

-- An element stays out when every tag that either side added has been removed on one of them.
contains_merge_tag :
    (a b : OrSet) (e : Text)
    → IsOrSet a
    → IsOrSet b
    → contains (merge_orset_states a b) e ≡ true
    → (t : Text) × ((tag_on e t a.adds || tag_on e t b.adds) ≡ true)
      × ((tag_on e t a.rems || tag_on e t b.rems) ≡ false)
contains_merge_tag a b e ca cb h =
    let (t, there, live) = (contains-LiveTag (merge_orset_states a b) e).0 h in
    let (adds, rems) = tag_on-merge a b e t ca cb in
    (
      t,
      ground (arith, has_tag-tag_on e t (merge_orset_states a b) (merge-IsCanonical a b)),
      ground arith,
    )

-- A remove that has seen every tag that the other side has on for its element leaves the element
-- out of the merge, for states as the code builds them.
pub observed_remove :
    (a b : OrSet) (e : Text)
    → IsCanonical a
    → IsCanonical b
    → ((t : Text) → tag_on e t a.adds ≡ true → tag_on e t b.adds ≡ true)
    → contains (merge_orset_states a (remove b e)) e ≡ false
observed_remove a b e ca cb sub =
    elim (Bool-cases (contains (merge_orset_states a (remove b e)) e)) [
      | inr out ↦ out
      | inl there ↦
          let (t, on, off) =
            contains_merge_tag a (remove b e) e (IsCanonical-IsOrSet ca)
              (IsCanonical-IsOrSet (remove-IsCanonical b e cb)) there in
          ground (
            arith,
            sub t,
            adds_remove b e,
            tag_on-remove b e e t,
            has_tag-tag_on e t b cb,
            eq_text_refl e,
          )
    ]
