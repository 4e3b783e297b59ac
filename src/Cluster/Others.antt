-- ===== src/Cluster/Others.antt =====
-- `Others` of internal/cluster/membership.go: the peers but the node itself.
use agent_memory.Prelude.{◌≡◌, refl, false, List, [], ◌∷◌, Text, arith, elem, NoDup, All}
use agent_memory.Cluster.{Peer, ids_of, others_from}

module _ (self : Text) where
  elem-others :
      (t : Text) (ps : List Peer)
      → elem t (ids_of ps) ≡ false
      → elem t (ids_of (others_from self ps)) ≡ false
  unfolding ids_of others_from
  elem-others t [] h = refl
  elem-others t (p ∷ ps) h = ground (arith, h, elem-others t ps)

  pub others_without : (ps : List Peer) → elem self (ids_of (others_from self ps)) ≡ false
  unfolding ids_of others_from
  others_without [] = refl
  others_without (p ∷ ps) = ground (arith, others_without ps)

  pub others-NoDup : (ps : List Peer) → NoDup (ids_of ps) → NoDup (ids_of (others_from self ps))
  unfolding ids_of others_from
  others-NoDup [] h = tt
  others-NoDup (p ∷ ps) h = ground (arith, h, elem-others p.id ps h.0, others-NoDup ps h.1)

  pub others-All : (P : Peer → Type 0) (ps : List Peer) → All P ps → All P (others_from self ps)
  unfolding others_from
  others-All P [] h = tt
  others-All P (p ∷ ps) h = ground (arith, h, others-All P ps h.1)
