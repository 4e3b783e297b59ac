-- ===== src/Conflict/OrSet/Elements.antt =====
-- `Elements` lists exactly the members, each once, in the order of the strings.
use agent_memory.Prelude.{
  ◌≡◌, refl, Bool, true, false, not, ◌&&◌, ◌||◌, List, [], ◌∷◌, none, some, Ordering, Text, arith,
  eq_text, elem, NoDup,
}
use agent_memory.Prelude.Order.{list_ord, cmp_list, list_eq, list_refl, list_flip, list_trans}
use agent_memory.Map.{Map, lookup, insert, has}
use agent_memory.Map.Lookup.{lookup-insert}
use agent_memory.Conflict.Codec.{OrSet, TagMap}
use agent_memory.Conflict.OrSet.{
  tags_of, any_live, contains, live_elems, insert_text, sort_strings, elements,
}

abbrev pub AllAbove : Text → List Text → Type 0
AllAbove s [] = Unit
AllAbove s (t ∷ l) = (cmp_list s t ≡ Ordering.lt) × AllAbove s l

-- Strictly rising: in order, and no string twice.
abbrev pub IsRising : List Text → Type 0
IsRising [] = Unit
IsRising (s ∷ l) = AllAbove s l × IsRising l

abbrev seen_on : Text → Map Text Bool → Bool
seen_on e seen = elim (lookup e seen) [ none ↦ false | some b ↦ b ]

elem-live_elems :
    (s : OrSet) (seen : Map Text Bool) (adds : TagMap) (x : Text)
    → elem x (live_elems s seen adds) ≡ (contains s x && (has x adds && not (seen_on x seen)))
unfolding live_elems eq_text lookup
elem-live_elems s seen [] x = ground arith
elem-live_elems s seen ((e, tags) ∷ adds) x = ground (
  arith,
  elem-live_elems s seen adds x,
  elem-live_elems s (insert e true seen) adds x,
  lookup-insert e x true seen,
  list_eq e x,
)

NoDup-live_elems :
    (s : OrSet) (seen : Map Text Bool) (adds : TagMap) → NoDup (live_elems s seen adds)
unfolding live_elems
NoDup-live_elems s seen [] = tt
NoDup-live_elems s seen ((e, tags) ∷ adds) = ground (
  arith,
  NoDup-live_elems s seen adds,
  NoDup-live_elems s (insert e true seen) adds,
  elem-live_elems s (insert e true seen) adds e,
  lookup-insert e e true seen,
  list_refl e,
)

elem-insert_text :
    (s : Text) (l : List Text) (x : Text) → elem x (insert_text s l) ≡ (eq_text s x || elem x l)
unfolding insert_text
elem-insert_text s [] x = ground arith
elem-insert_text s (t ∷ l) x = ground (arith, elem-insert_text s l x)

elem-sort_strings : (l : List Text) (x : Text) → elem x (sort_strings l) ≡ elem x l
unfolding sort_strings
elem-sort_strings [] x = refl
elem-sort_strings (s ∷ l) x =
    ground (arith, elem-insert_text s (sort_strings l) x, elem-sort_strings l x)

AllAbove-trans :
    (s t : Text) (l : List Text) → cmp_list s t ≡ Ordering.lt → AllAbove t l → AllAbove s l
AllAbove-trans s t [] h a = tt
AllAbove-trans s t (u ∷ l) h a = (list_trans s t u h a.0, AllAbove-trans s t l h a.1)

AllAbove-insert_text :
    (t s : Text) (l : List Text)
    → cmp_list t s ≡ Ordering.lt
    → AllAbove t l
    → AllAbove t (insert_text s l)
unfolding insert_text
AllAbove-insert_text t s [] h a = (h, tt)
AllAbove-insert_text t s (u ∷ l) h a = ground (arith, AllAbove-insert_text t s l)

insert_text-IsRising :
    (s : Text) (l : List Text) → elem s l ≡ false → IsRising l → IsRising (insert_text s l)
unfolding insert_text eq_text
insert_text-IsRising s [] h r = (tt, tt)
insert_text-IsRising s (t ∷ l) h r = ground (
  arith,
  list_flip s t,
  AllAbove-trans s t l,
  AllAbove-insert_text t s l,
  insert_text-IsRising s l,
)

sort_strings-IsRising : (l : List Text) → NoDup l → IsRising (sort_strings l)
unfolding sort_strings
sort_strings-IsRising [] n = tt
sort_strings-IsRising (s ∷ l) n =
    insert_text-IsRising s (sort_strings l) (rw elem-sort_strings n.0) (sort_strings-IsRising l n.1)

has_of_contains : (s : OrSet) (e : Text) → contains s e ≡ true → has e s.adds ≡ true
unfolding contains any_live tags_of
has_of_contains s e h = ground arith

-- A string is among the listed elements exactly when it is in the set, and the list rises strictly.
pub elements_lem :
    (s : OrSet) → ((e : Text) → elem e (elements s) ≡ contains s e) × IsRising (elements s)
unfolding elements lookup
elements_lem s = (
  λ e. ground (
    arith,
    elem-sort_strings (live_elems s [] s.adds) e,
    elem-live_elems s [] s.adds e,
    has_of_contains s e,
  ),
  sort_strings-IsRising _ (NoDup-live_elems s [] s.adds),
)
