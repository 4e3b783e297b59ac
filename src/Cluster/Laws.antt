-- ===== src/Cluster/Laws.antt =====
-- A membership that was parsed is in order, names no peer twice, and has the node itself.
use agent_memory.Prelude.{
  ◌+◌, ◌≡◌, refl, true, false, not, ◌&&◌, ◌||◌, List, [], ◌∷◌, ◌++◌, if◌then◌else◌, Text, eq_text,
  eq_text→eq, eq_text_refl, arith, length, Ordering, Bool-cases, inl, inr, subst, sym, ◌∙◌,
}
use agent_memory.Prelude.Order.{cmp_list, list_flip, list_trans}
use agent_memory.Cluster.{Peer, Membership, n, others, others_from}
use agent_memory.Cluster.Parse.{
  Parsed, ok, empty_peer_id, Scanned, scanned, no_id, has_id, scan_parts, insert_peer, sort_peers,
  parse_peers, trim_space, split_comma, peer_of,
}

abbrev pub AllAfter : Text → List Peer → Type 0
AllAfter id [] = Unit
AllAfter id (p ∷ peers) = (cmp_list id p.id ≡ Ordering.lt) × AllAfter id peers

-- The ids rise strictly, so no id stands twice.
abbrev pub IsOrdered : List Peer → Type 0
IsOrdered [] = Unit
IsOrdered (p ∷ peers) = AllAfter p.id peers × IsOrdered peers

abbrev NoDup : List Peer → Type 0
NoDup [] = Unit
NoDup (p ∷ peers) = (has_id p.id peers ≡ false) × NoDup peers

has_id-append :
    (id : Text) (peers : List Peer) (p : Peer)
    → has_id id (peers ++ p ∷ []) ≡ (has_id id peers || eq_text p.id id)
unfolding has_id
has_id-append id [] p = ground arith
has_id-append id (q ∷ peers) p = ground (arith, has_id-append id peers p)

NoDup-append :
    (peers : List Peer) (p : Peer)
    → has_id p.id peers ≡ false
    → NoDup peers
    → NoDup (peers ++ p ∷ [])
unfolding has_id
NoDup-append [] p h d = (refl, tt)
NoDup-append (q ∷ peers) p h d = ground (
  arith,
  has_id-append q.id peers p,
  NoDup-append peers p,
  eq_text→eq p.id q.id,
  eq_text_refl q.id,
)

scan_parts-NoDup :
    (peers : List Peer) (parts : List Text) (out : List Peer)
    → scan_parts peers parts ≡ scanned out
    → NoDup peers
    → NoDup out
unfolding scan_parts
scan_parts-NoDup peers [] out e d = ground arith
scan_parts-NoDup peers (raw ∷ parts) out e d = ground (
  arith,
  scan_parts-NoDup peers parts out,
  scan_parts-NoDup (peers ++ peer_of (trim_space raw) ∷ []) parts out,
  NoDup-append peers (peer_of (trim_space raw)),
)

has_id-insert :
    (p : Peer) (peers : List Peer) (id : Text)
    → has_id id (insert_peer p peers) ≡ (eq_text p.id id || has_id id peers)
unfolding has_id insert_peer
has_id-insert p [] id = refl
has_id-insert p (q ∷ peers) id = ground (arith, has_id-insert p peers id)

has_id-sort : (peers : List Peer) (id : Text) → has_id id (sort_peers peers) ≡ has_id id peers
unfolding has_id sort_peers
has_id-sort [] id = refl
has_id-sort (p ∷ peers) id =
    ground (arith, has_id-insert p (sort_peers peers) id, has_id-sort peers id)

AllAfter-trans :
    (a b : Text) (peers : List Peer)
    → cmp_list a b ≡ Ordering.lt
    → AllAfter b peers
    → AllAfter a peers
AllAfter-trans a b [] h k = tt
AllAfter-trans a b (p ∷ peers) h k = (list_trans a b p.id h k.0, AllAfter-trans a b peers h k.1)

AllAfter-insert :
    (a : Text) (p : Peer) (peers : List Peer)
    → cmp_list a p.id ≡ Ordering.lt
    → AllAfter a peers
    → AllAfter a (insert_peer p peers)
unfolding insert_peer
AllAfter-insert a p [] h k = (h, tt)
AllAfter-insert a p (q ∷ peers) h k = ground (arith, AllAfter-insert a p peers)

insert-IsOrdered :
    (p : Peer) (peers : List Peer)
    → has_id p.id peers ≡ false
    → IsOrdered peers
    → IsOrdered (insert_peer p peers)
unfolding insert_peer has_id eq_text
insert-IsOrdered p [] h o = (tt, tt)
insert-IsOrdered p (q ∷ peers) h o = ground (
  arith,
  list_flip p.id q.id,
  list_flip q.id p.id,
  AllAfter-trans p.id q.id peers,
  AllAfter-insert q.id p peers,
  insert-IsOrdered p peers,
)

sort-IsOrdered : (peers : List Peer) → NoDup peers → IsOrdered (sort_peers peers)
unfolding sort_peers
sort-IsOrdered [] d = tt
sort-IsOrdered (p ∷ peers) d =
    insert-IsOrdered p (sort_peers peers) (rw has_id-sort d.0) (sort-IsOrdered peers d.1)

with_self : Text → List Peer → List Peer
with_self self peers =
    if not (has_id self peers) then peers ++ record { id = self; addr = [] } ∷ [] else peers

-- A membership as `ParsePeers` returns it.
pub record IsMembership (self : Text) (m : Membership) : Type 0 where
  pub own : m.self ≡ self
  pub ordered : IsOrdered m.peers
  pub present : has_id self m.peers ≡ true

sorted-IsMembership :
    (self : Text) (peers : List Peer)
    → NoDup peers
    → IsMembership self (record { self = self; peers = sort_peers (with_self self peers) })
unfolding with_self
sorted-IsMembership self peers d = record {
  own = refl;
  ordered =
      sort-IsOrdered (with_self self peers)
        (ground (arith, NoDup-append peers (record { id = self; addr = [] })));
  present = ground (
    arith,
    has_id-sort (with_self self peers) self,
    has_id-append self peers (record { id = self; addr = [] }),
    eq_text_refl self,
  );
}

-- The end of `ParsePeers`, behind the loop.
abbrev finish : Text → Scanned → Parsed
finish self (no_id peers) = empty_peer_id (record { self = self; peers = peers })
finish self (scanned peers) = ok (record { self = self; peers = sort_peers (with_self self peers) })

finish-IsMembership :
    (self : Text) (sc : Scanned) (parts : List Text) (m : Membership)
    → scan_parts [] parts ≡ sc
    → finish self sc ≡ ok m
    → IsMembership self m
finish-IsMembership self (no_id peers) parts m e h = absurd (ground arith)
finish-IsMembership self (scanned peers) parts m e h =
    let same : record { self = self; peers = sort_peers (with_self self peers) } ≡ m =
      ground arith in
    subst (IsMembership self) same
      (sorted-IsMembership self peers (scan_parts-NoDup [] parts peers e tt))

alone-IsMembership :
    (self : Text)
    → IsMembership self (record { self = self; peers = record { id = self; addr = [] } ∷ [] })
unfolding has_id
alone-IsMembership self = record {
  own = refl;
  ordered = (tt, tt);
  present = ground (arith, eq_text_refl self);
}

parse_peers-finish :
    (self spec : Text)
    → eq_text (trim_space spec) [] ≡ false
    → parse_peers self spec ≡ finish self (scan_parts [] (split_comma spec))
unfolding parse_peers with_self
parse_peers-finish self spec h = ground arith

-- A configuration string that parses gives peers in the strict order of their ids, with the node
-- itself among them.
pub parse_peers-IsMembership :
    (self spec : Text) (m : Membership) → parse_peers self spec ≡ ok m → IsMembership self m
unfolding parse_peers
parse_peers-IsMembership self spec m e = elim (Bool-cases (eq_text (trim_space spec) [])) [
  | inr some_text ↦
      finish-IsMembership self _ (split_comma spec) m refl
        (sym (parse_peers-finish self spec some_text) ∙ e)
  | inl blank ↦
      let alone : Membership = record {
        self = self;
        peers = record { id = self; addr = [] } ∷ [];
      } in
      let same : alone ≡ m = ground arith in
      subst (IsMembership self) same (alone-IsMembership self)
]

-- Without the node itself a membership of `N` peers has `N - 1`.
others_from-absent :
    (self : Text) (peers : List Peer) → has_id self peers ≡ false → others_from self peers ≡ peers
unfolding others_from has_id
others_from-absent self [] h = refl
others_from-absent self (p ∷ peers) h = ground (arith, others_from-absent self peers)

pub after_absent : (id : Text) (peers : List Peer) → AllAfter id peers → has_id id peers ≡ false
unfolding has_id eq_text
after_absent id [] h = refl
after_absent id (p ∷ peers) h = ground (arith, after_absent id peers, list_flip id p.id)

others-length :
    (self : Text) (peers : List Peer)
    → IsOrdered peers
    → has_id self peers ≡ true
    → length (others_from self peers) + 1 ≡ length peers
unfolding others_from has_id
others-length self [] o h = absurd (ground arith)
others-length self (p ∷ peers) o h = ground (
  arith,
  others-length self peers o.1,
  others_from-absent self peers,
  after_absent p.id peers o.0,
  eq_text→eq p.id self,
)

absent_others : (self : Text) (peers : List Peer) → has_id self (others_from self peers) ≡ false
unfolding others_from has_id
absent_others self [] = refl
absent_others self (p ∷ peers) = ground (arith, absent_others self peers)

has_id-others :
    (self : Text) (peers : List Peer) (id : Text)
    → eq_text self id ≡ false
    → has_id id (others_from self peers) ≡ has_id id peers
unfolding others_from has_id
has_id-others self [] id h = refl
has_id-others self (p ∷ peers) id h = ground (
  arith,
  has_id-others self peers id,
  eq_text→eq p.id self,
  eq_text→eq p.id id,
  eq_text_refl self,
)

-- The others of a parsed membership are all of its peers but the node itself, one fewer than its
-- size.
pub others_lem :
    (self : Text) (m : Membership)
    → IsMembership self m
    → (length (others m) + 1 ≡ n m)
      × ((id : Text) → has_id id (others m) ≡ (has_id id m.peers && not (eq_text self id)))
unfolding others n
others_lem self m h = (
  ground (arith, h.own, others-length m.self m.peers h.ordered, h.present),
  λ id. ground (
    arith,
    h.own,
    absent_others m.self m.peers,
    has_id-others m.self m.peers id,
    eq_text→eq m.self id,
  ),
)
