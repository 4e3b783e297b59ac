-- ===== src/Map/Extensional.antt =====
-- Maps with the same lookups are equal.
use agent_memory.Prelude.{◌≡◌, ◌≢◌, refl, sym, none, [], ◌∷◌, arith}
use agent_memory.Prelude.Order.{Ord}
use agent_memory.Map.Lookup.{Above-trans}
use agent_memory.Map.{Map, lookup, Above, IsSorted}

module _ {ℓ κ} {K : Type ℓ} {V : Type κ} ⦃o : Ord K⦄ where
  -- A key below all of the list is not in it.
  pub lookup-Above : (k : K) (m : Map K V) → Above k m → lookup k m ≡ none
  unfolding lookup
  lookup-Above k [] a = refl
  lookup-Above k ((j, v) ∷ m) a = ground (arith, o.cmp_flip k j, lookup-Above k m)

  -- Below one head the two lists find the same.
  tail_lookup :
      (k l : K) (v w : V) (m n : Map K V)
      → Above k m
      → Above l n
      → k ≡ l
      → ((j : K) → lookup j ((k, v) ∷ m) ≡ lookup j ((l, w) ∷ n))
      → (j : K) → lookup j m ≡ lookup j n
  unfolding lookup
  tail_lookup k l v w m n a b e h j =
      ground (arith, h j, o.eq_of_cmp k j, o.eq_of_cmp l j, lookup-Above k m, lookup-Above l n)

  same_head :
      (k l : K) (v w : V) (m n : Map K V)
      → Above k m
      → Above l n
      → ((j : K) → lookup j ((k, v) ∷ m) ≡ lookup j ((l, w) ∷ n))
      → (k ≡ l) × (v ≡ w)
  unfolding lookup
  same_head k l v w m n a b h = ground (
    arith,
    h k,
    h l,
    o.cmp_refl k,
    o.cmp_refl l,
    o.eq_of_cmp k l,
    o.cmp_flip k l,
    lookup-Above l m,
    lookup-Above k n,
    Above-trans l k m,
    Above-trans k l n,
  )

  empty_head : (k : K) (v : V) (m : Map K V) → lookup k ((k, v) ∷ m) ≢ none
  unfolding lookup
  empty_head k v m e = ground (arith, o.cmp_refl k)

  pub Map-ext :
      (m n : Map K V) → IsSorted m → IsSorted n → ((j : K) → lookup j m ≡ lookup j n) → m ≡ n
  unfolding lookup
  Map-ext [] [] s t h = refl
  Map-ext [] ((l, w) ∷ n) s t h = absurd (empty_head l w n (sym (h l)))
  Map-ext ((k, v) ∷ m) [] s t h = absurd (empty_head k v m (h k))
  Map-ext ((k, v) ∷ m) ((l, w) ∷ n) s t h =
      let (p, q) = same_head k l v w m n s.0 t.0 h in
      cc (p, q, Map-ext m n s.1 t.1 (tail_lookup k l v w m n s.0 t.0 p h))
