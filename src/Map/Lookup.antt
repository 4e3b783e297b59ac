-- ===== src/Map/Lookup.antt =====
-- What a lookup finds after each change of a map.
use agent_memory.Prelude.{◌≡◌, refl, none, some, [], ◌∷◌, Ordering, if◌then◌else◌, arith}
use agent_memory.Prelude.Order.{Ord, is_eq}
use agent_memory.Map.{Map, lookup, insert, delete, Above, IsSorted}

module _ {ℓ κ} {K : Type ℓ} {V : Type κ} ⦃o : Ord K⦄ where
  pub lookup-insert :
      (k j : K) (v : V) (m : Map K V)
      → lookup j (insert k v m) ≡ (if is_eq (o.cmp k j) then some v else lookup j m)
  unfolding lookup insert
  lookup-insert k j v [] = refl
  lookup-insert k j v ((i, w) ∷ m) = ground (
    arith,
    lookup-insert k j v m,
    o.eq_of_cmp k i,
    o.eq_of_cmp i j,
    o.eq_of_cmp k j,
    o.cmp_flip k i,
    o.cmp_refl k,
    o.cmp_refl i,
  )

  pub lookup-delete :
      (k j : K) (m : Map K V)
      → lookup j (delete k m) ≡ (if is_eq (o.cmp k j) then none else lookup j m)
  unfolding lookup delete
  lookup-delete k j [] = ground arith
  lookup-delete k j ((i, w) ∷ m) = ground (
    arith,
    lookup-delete k j m,
    o.eq_of_cmp k i,
    o.eq_of_cmp i k,
    o.eq_of_cmp i j,
    o.eq_of_cmp k j,
    o.cmp_refl k,
    o.cmp_refl i,
  )

  Above-insert :
      (i k : K) (v : V) (m : Map K V) → o.cmp i k ≡ Ordering.lt → Above i m → Above i (insert k v m)
  unfolding insert
  Above-insert i k v [] h a = (h, tt)
  Above-insert i k v ((j, w) ∷ m) h a = ground (arith, Above-insert i k v m)

  pub Above-trans : (i k : K) (m : Map K V) → o.cmp i k ≡ Ordering.lt → Above k m → Above i m
  Above-trans i k [] h a = tt
  Above-trans i k ((j, w) ∷ m) h a = (o.cmp_trans i k j h a.0, Above-trans i k m h a.1)

  pub insert-IsSorted : (k : K) (v : V) (m : Map K V) → IsSorted m → IsSorted (insert k v m)
  unfolding insert
  insert-IsSorted k v [] s = (tt, tt)
  insert-IsSorted k v ((j, w) ∷ m) s = ground (
    arith,
    o.cmp_flip k j,
    o.eq_of_cmp k j,
    Above-trans k j m,
    Above-insert j k v m,
    insert-IsSorted k v m,
  )

  Above-delete : (i k : K) (m : Map K V) → Above i m → Above i (delete k m)
  unfolding delete
  Above-delete i k [] a = tt
  Above-delete i k ((j, w) ∷ m) a = ground (arith, Above-delete i k m)

  pub delete-IsSorted : (k : K) (m : Map K V) → IsSorted m → IsSorted (delete k m)
  unfolding delete
  delete-IsSorted k [] s = tt
  delete-IsSorted k ((j, w) ∷ m) s = ground (arith, delete-IsSorted k m, Above-delete j k m)

  -- A key below all others goes to the front.
  pub insert-Above : (k : K) (v : V) (m : Map K V) → Above k m → insert k v m ≡ (k, v) ∷ m
  unfolding insert
  insert-Above k v [] a = refl
  insert-Above k v ((j, w) ∷ m) a = ground arith
