-- ===== src/Cluster/Parse.antt =====
-- `ParsePeers` of internal/cluster/membership.go, with what it uses of `strings` and `sort`.
use agent_memory.Prelude.{
  ℕ, Bool, true, false, not, ◌&&◌, ◌||◌, List, [], ◌∷◌, ◌++◌, if◌then◌else◌, Text, eq_text, ◌==◌,
  leb,
}
use agent_memory.Prelude.Order.{cmp_list, is_ge}
use agent_memory.Cluster.{Peer, Membership}

-- unicode.IsSpace
abbrev pub is_unicode_space : ℕ → Bool
is_unicode_space c =
    (leb 9 c && leb c 13)
    || (c == 32
        || (c == 0x85
            || (c == 0xa0
                || (c == 0x1680
                    || ((leb 0x2000 c && leb c 0x200a)
                        || (c == 0x2028
                            || (c == 0x2029 || (c == 0x202f || (c == 0x205f || c == 0x3000)))))))))

trim_left : Text → Text
trim_left [] = []
trim_left (c ∷ s) = let rest = trim_left s in if is_unicode_space c then rest else c ∷ s

trim_right : Text → Text
trim_right [] = []
trim_right (c ∷ s) = elim (trim_right s) [
  | [] ↦ if is_unicode_space c then [] else c ∷ []
  | d ∷ t ↦ c ∷ d ∷ t
]

-- strings.TrimSpace
unfoldable pub trim_space : Text → Text
unfolding trim_left trim_right
trim_space s = trim_right (trim_left s)

-- strings.Split(s, ","), never an empty list
unfoldable pub split_comma : Text → List Text
split_comma [] = [] ∷ []
split_comma (c ∷ s) = elim (split_comma s) [
  | [] ↦ (c ∷ []) ∷ []
  | part ∷ parts ↦ if c == b',' then [] ∷ part ∷ parts else (c ∷ part) ∷ parts
]

-- strings.Cut(s, "="): before, after, found
unfoldable pub cut_equals : Text → Text × Text × Bool
cut_equals [] = ([], [], false)
cut_equals (c ∷ s) =
    let (before, after, found) = cut_equals s in
    if c == b'=' then ([], s, true) else (c ∷ before, after, found)

-- `m, nil` or `m, err`
pub data Parsed : Type 0 where
  ok : Membership → Parsed
  empty_peer_id : Membership → Parsed

-- seen[id]
unfoldable pub has_id : Text → List Peer → Bool
has_id id [] = false
has_id id (p ∷ peers) = eq_text p.id id || has_id id peers

-- A peer before the loop's checks, of a part that is trimmed and not empty.
unfoldable pub peer_of : Text → Peer
peer_of part =
    let (id, addr, found) = cut_equals part in
    if found
    then record { id = trim_space id; addr = trim_space addr }
    else record { id = part; addr = [] }

-- What the loop leaves: the peers in order, or the peers so far on the error. `seen` holds the ids of
-- the peers appended so far, so it is read off them.
pub data Scanned : Type 0 where
  scanned : List Peer → Scanned
  no_id : List Peer → Scanned

unfoldable pub scan_parts : List Peer → List Text → Scanned
scan_parts peers [] = scanned peers
scan_parts peers (raw ∷ parts) =
    let part = trim_space raw in
    let p = peer_of part in
    let skipped = scan_parts peers parts in
    let added = scan_parts (peers ++ p ∷ []) parts in
    if eq_text part []
    then skipped
    else if eq_text p.id []
    then no_id peers
    else if has_id p.id peers
    then skipped
    else added

unfoldable pub insert_peer : Peer → List Peer → List Peer
insert_peer p [] = p ∷ []
insert_peer p (q ∷ peers) =
    if is_ge (cmp_list q.id p.id) then p ∷ q ∷ peers else q ∷ insert_peer p peers

-- sort.Slice by the ids, which are distinct
unfoldable pub sort_peers : List Peer → List Peer
sort_peers [] = []
sort_peers (p ∷ peers) = insert_peer p (sort_peers peers)

unfoldable pub parse_peers : Text → Text → Parsed
parse_peers self spec =
    if eq_text (trim_space spec) []
    then ok (record { self = self; peers = record { id = self; addr = [] } ∷ [] })
    else elim (scan_parts [] (split_comma spec)) [
      | no_id peers ↦ empty_peer_id (record { self = self; peers = peers })
      | scanned peers ↦
          let all =
            if not (has_id self peers)
            then peers ++ record { id = self; addr = [] } ∷ []
            else peers in
          ok (record { self = self; peers = sort_peers all })
    ]
