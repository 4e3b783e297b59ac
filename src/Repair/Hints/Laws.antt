-- ===== src/Repair/Hints/Laws.antt =====
-- The queue of hints of each target, and their number.
use agent_memory.Prelude.{
  ◌+◌, ◌≡◌, refl, List, [], ◌∷◌, ◌++◌, if◌then◌else◌, Text, arith, eq_text, length, length-append,
}
use agent_memory.Prelude.Order.{list_ord, list_eq, list_refl, list_flip}
use agent_memory.Map.{lookup, insert, delete, IsSorted}
use agent_memory.Map.Lookup.{lookup-insert, lookup-delete, Above-trans}
use agent_memory.Map.Extensional.{lookup-Above}
use agent_memory.Types.Value.{Value}
use agent_memory.Repair.Hints.{Hint, Hints, peek, store, take, count}

-- A stored hint is the last of its target's queue, and the other queues stay as they were.
pub peek-store :
    (h : Hints) (target key other : Text) (val : Value)
    → peek other (store target key val h) ≡ (
        if eq_text target other
        then peek other h ++ record { target = target; key = key; value = val } ∷ []
        else peek other h)
unfolding peek store eq_text
peek-store h target key other val = ground (
  arith,
  lookup-insert target other
      (peek target h ++ record { target = target; key = key; value = val } ∷ []) h,
  list_eq target other,
)

-- A take hands out the whole queue of its target and leaves the others.
pub peek-take :
    (h : Hints) (target other : Text)
    → ((take target h).1 ≡ peek target h)
      × (peek other (take target h).0 ≡ (if eq_text target other then [] else peek other h))
unfolding peek take eq_text
peek-take h target other = (refl, ground (arith, lookup-delete target other h))

count-insert :
    (k : Text) (l : List Hint) (h : Hints)
    → IsSorted h
    → count (insert k l h) + length (peek k h) ≡ count h + length l
unfolding count insert peek lookup
count-insert k l [] s = omega arith
count-insert k l ((j, hs) ∷ h) s = ground (
  arith,
  count-insert k l h s.1,
  list_eq k j,
  list_refl k,
  list_flip k j,
  lookup-Above k h,
  Above-trans k j h,
)

count-delete :
    (k : Text) (h : Hints) → IsSorted h → count (delete k h) + length (peek k h) ≡ count h
unfolding count delete peek lookup
count-delete k [] s = omega arith
count-delete k ((j, hs) ∷ h) s = ground (arith, count-delete k h s.1, list_eq j k, lookup-Above k h)

-- The number of hints goes up by one at each store, and down by what a take hands out, for a sorted
-- map of queues.
pub count_lem :
    (h : Hints) (target key : Text) (val : Value)
    → IsSorted h
    → (count (store target key val h) ≡ count h + 1)
      × (count (take target h).0 + length (take target h).1 ≡ count h)
unfolding store take
count_lem h target key val s = (
  omega (
    arith,
    count-insert target (peek target h ++ record { target = target; key = key; value = val } ∷ []) h
        s,
    length-append (peek target h) (record { target = target; key = key; value = val } ∷ []),
  ),
  count-delete target h s,
)
