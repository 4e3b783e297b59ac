-- ===== src/Net/Faults/Laws.antt =====
-- Which sends the fault injector lets through.
use agent_memory.Prelude.{
  ℕ, zero, suc, ◌+◌, ◌-◌, ◌≡◌, refl, true, false, not, List, [], ◌∷◌, none, some, if◌then◌else◌,
  Text, arith, eq_text, eq_text→eq, eq_text_refl, elem, ltb, ◌==◌,
}
use agent_memory.Prelude.Order.{list_ord, list_refl}
use agent_memory.Map.{Map, lookup, insert}
use agent_memory.Map.Lookup.{lookup-insert}
use agent_memory.Net.Faults.{
  Chance, Network, set_groups, partition, fail_from_after, group_of, is_isolated, drop_of, count_of,
  limit, allow,
}

module _ (c : Chance) where
  lookup-set_groups :
      (g : ℕ) (ids : List Text) (m : Map Text ℕ) (j : Text)
      → lookup j (set_groups c g ids m) ≡ (if elem j ids then some g else lookup j m)
  unfolding set_groups eq_text
  lookup-set_groups g [] m j = refl
  lookup-set_groups g (id ∷ ids) m j =
      ground (arith, lookup-set_groups g ids (insert id g m) j, lookup-insert id j g m)

  group-partition :
      (left right : List Text) (n : Network c) (j : Text)
      → group_of c j (partition c left right n)
        ≡ (if elem j right then 2 else if elem j left then 1 else group_of c j n)
  unfolding group_of partition
  group-partition left right n j = ground (
    arith,
    lookup-set_groups 2 right (set_groups c 1 left n.group) j,
    lookup-set_groups 1 left n.group j,
  )

  across :
      (from to : Text) (n : Network c)
      → eq_text from to ≡ false
      → (group_of c from n == group_of c to n) ≡ false
      → (allow c from to n).1 ≡ false
  unfolding allow
  across from to n d g = ground (arith, d, g)

  -- A partition blocks every send between a member of its left side that is not on the right and a
  -- member of its right side, in both directions, whatever other faults are set.
  pub partition_blocks :
      (left right : List Text) (n : Network c) (a b : Text)
      → elem a left ≡ true
      → elem a right ≡ false
      → elem b right ≡ true
      → ((allow c a b (partition c left right n)).1 ≡ false)
        × ((allow c b a (partition c left right n)).1 ≡ false)
  partition_blocks left right n a b h k l =
      let n' = partition c left right n in
      let ga = group-partition left right n a in
      let gb = group-partition left right n b in
      (
        across a b n' (ground (arith, k, l, eq_text→eq a b)) (ground (arith, ga, gb, h, k, l)),
        across b a n' (ground (arith, k, l, eq_text→eq b a)) (ground (arith, ga, gb, h, k, l)),
      )

  -- No chance and no limit decides about the link.
  abbrev pub IsSure : Text → Text → Network c → Type 0
  IsSure from to n =
      (c.less c.zero_float (drop_of c from to n) ≡ false) × (lookup from n.fail_after ≡ none)

  -- Where neither chance nor a limit decides, a send is let through exactly when the send back is.
  pub allow_sym :
      (a b : Text) (n : Network c)
      → IsSure a b n
      → IsSure b a n
      → (allow c a b n).1 ≡ (allow c b a n).1
  unfolding allow limit
  allow_sym a b n h k = ground (arith, h, k, eq_text→eq a b, eq_text→eq b a, eq_text_refl a)

  -- Nothing but a limit can stop a send.
  abbrev pub IsOpen : Text → Text → Network c → Type 0
  IsOpen from to n =
      (eq_text from to ≡ false)
      × (is_isolated c from n ≡ false)
      × (is_isolated c to n ≡ false)
      × ((group_of c from n == group_of c to n) ≡ true)
      × (c.less c.zero_float (drop_of c from to n) ≡ false)

  -- How many of a number of sends are let through, one after the other.
  unfoldable pub sends : Text → Text → ℕ → Network c → ℕ
  sends from to zero n = 0
  sends from to (suc m) n =
      let (n', good) = allow c from to n in
      let rest = sends from to m n' in if good then suc rest else rest

  -- The network after a send that the limit counts.
  abbrev counted : Text → ℕ → Network c → Network c
  counted from k n = record n { fail_count = insert from (k + 1) n.fail_count }

  allow_counted :
      (from to : Text) (after : ℕ) (n : Network c) (k : ℕ)
      → IsOpen from to n
      → lookup from n.fail_after ≡ some after
      → count_of c from n ≡ k
      → allow c from to n ≡ (counted from k n, not (ltb after (k + 1)))
  unfolding allow limit
  allow_counted from to after n k o l e = ground (arith, o, l, e)

  count-counted : (from : Text) (k : ℕ) (n : Network c) → count_of c from (counted from k n) ≡ k + 1
  unfolding count_of
  count-counted from k n =
      ground (arith, lookup-insert from from (k + 1) n.fail_count, list_refl from)

  counted-IsOpen :
      (from to : Text) (k : ℕ) (n : Network c)
      → IsOpen from to n
      → IsOpen from to (counted from k n)
  unfolding is_isolated group_of drop_of
  counted-IsOpen from to k n o = o

  sends_left :
      (from to : Text) (after : ℕ) (m : ℕ) (n : Network c) (k : ℕ)
      → IsOpen from to n
      → lookup from n.fail_after ≡ some after
      → count_of c from n ≡ k
      → sends from to m n ≡ (if ltb (after - k) m then after - k else m)
  unfolding sends
  sends_left from to after zero n k o l e = ground arith
  sends_left from to after (suc m) n k o l e =
      let rest =
        sends_left from to after m (counted from k n) (k + 1) (counted-IsOpen from to k n o) l
          (count-counted from k n) in
      rw (allow_counted from to after n k o l e) (ground (arith, rest))

  -- Of a number of sends from a node to another after FailFromAfter, as many as its argument are
  -- let through, or all if these are fewer, where nothing else can stop them.
  pub sends-fail_from_after :
      (from to : Text) (after m : ℕ) (n : Network c)
      → IsOpen from to n
      → sends from to m (fail_from_after c from after n) ≡ (if ltb after m then after else m)
  unfolding fail_from_after is_isolated group_of drop_of count_of
  sends-fail_from_after from to after m n o = ground (
    arith,
    sends_left from to after m (fail_from_after c from after n) 0 o
        (ground (arith, lookup-insert from from after n.fail_after, list_refl from))
        (ground (arith, lookup-insert from from 0 n.fail_count, list_refl from)),
  )
