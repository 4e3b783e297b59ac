-- ===== src/Prelude/Semilattice.antt =====
-- A merge that is associative, commutative and idempotent on the values that satisfy `P`, and what
-- that gives for folds: the least upper bound, whatever the order and the repetitions.
use mathlib.Core.List.{foldl}
use mathlib.Core.Path.{◌≡◌}
use mathlib.Core.List.{List, [], ◌∷◌}
use agent_memory.Prelude.Lists.{All}

pub record Semilattice {ℓ κ} {A : Type ℓ} (P : A → Type κ) (op : A → A → A) : Type (ℓ ⊔ κ) where
  pub closed : (a b : A) → P a → P b → P (op a b)
  pub comm : (a b : A) → P a → P b → op a b ≡ op b a
  pub assoc : (a b c : A) → P a → P b → P c → op (op a b) c ≡ op a (op b c)
  pub idem : (a : A) → P a → op a a ≡ a

module _ {ℓ κ} {A : Type ℓ} {P : A → Type κ} {op : A → A → A} (s : Semilattice P op) where
  -- The order of the semilattice: merging `a` into `b` changes nothing.
  abbrev pub Below : A → A → Type ℓ
  Below a b = op a b ≡ b

  pub Below-op : (a b : A) → P a → P b → Below a (op a b)
  Below-op a b p q = cc (s.assoc a a b p p q, s.idem a p)

  pub Below-op_right : (a b : A) → P a → P b → Below b (op a b)
  Below-op_right a b p q = cc (s.comm a b p q, s.assoc b b a q q p, s.idem b q)

  pub op-absorb : (a b : A) → P a → P b → op (op a b) b ≡ op a b
  op-absorb a b p q = cc (s.assoc a b b p q q, s.idem b q)

  pub Below-trans : (a b c : A) → P a → P b → P c → Below a b → Below b c → Below a c
  Below-trans a b c p q r h k = cc (s.assoc a b c p q r, h, k)

  pub Below-antisymm : (a b : A) → P a → P b → Below a b → Below b a → a ≡ b
  Below-antisymm a b p q h k = cc (s.comm a b p q, h, k)

  pub op-least : (a b u : A) → P a → P b → P u → Below a u → Below b u → Below (op a b) u
  op-least a b u p q r h k = cc (s.assoc a b u p q r, h, k)

  pub foldl-closed : (x : A) (l : List A) → P x → All P l → P (foldl op x l)
  foldl-closed x [] p ps = p
  foldl-closed x (y ∷ l) p ps = foldl-closed (op x y) l (s.closed x y p ps.0) ps.1

  pub foldl-upper : (x : A) (l : List A) → P x → All P l → Below x (foldl op x l)
  foldl-upper x [] p ps = s.idem x p
  foldl-upper x (y ∷ l) p ps =
      let q = s.closed x y p ps.0 in
      Below-trans x (op x y) _ p q (foldl-closed (op x y) l q ps.1) (Below-op x y p ps.0)
        (foldl-upper (op x y) l q ps.1)

  pub foldl-upper-All : (x : A) (l : List A) → P x → All P l → All (λ y. Below y (foldl op x l)) l
  foldl-upper-All x [] p ps = tt
  foldl-upper-All x (y ∷ l) p ps =
      let q = s.closed x y p ps.0 in
      (
        Below-trans y (op x y) _ ps.0 q (foldl-closed (op x y) l q ps.1) (Below-op_right x y p ps.0)
            (foldl-upper (op x y) l q ps.1),
        foldl-upper-All (op x y) l q ps.1,
      )

  pub foldl-least :
      (x : A) (l : List A) (u : A)
      → P x
      → All P l
      → P u
      → Below x u
      → All (λ y. Below y u) l
      → Below (foldl op x l) u
  foldl-least x [] u p ps r h hs = h
  foldl-least x (y ∷ l) u p ps r h hs =
      foldl-least (op x y) l u (s.closed x y p ps.0) ps.1 r (op-least x y u p ps.0 r h hs.0) hs.1
