-- ===== src/Conflict/Resolve/Many.antt =====
-- `ResolveMany` and `Agreed` over the views of a read.
use mathlib.Core.List.{foldl}
use agent_memory.Prelude.{
  ◌≡◌, ◌⊎◌, inl, inr, refl, sym, true, List, [], ◌∷◌, Option, none, some, arith, if◌then◌else◌, All,
  ℕ, ◌+◌, ◌<◌, ap, subst, ◌∙◌, ◌↔◌, length,
}
use agent_memory.Prelude.Semilattice.{
  Below, Below-antisymm, foldl-closed, foldl-upper, foldl-upper-All, foldl-least,
}
use agent_memory.Types.Value.{Value, Policy, ReplicaView, equal_value_iff}
use agent_memory.Conflict.Codec.{Codec}
use agent_memory.Conflict.Resolve.{resolve, resolve_view, resolve_many, agreed, agreed_from}
use agent_memory.Conflict.Resolve.Laws.{IsOf, resolve_semilattice}

-- The values of the views that have one.
abbrev pub found_values : List ReplicaView → List Value
found_values [] = []
found_values (v ∷ views) = if v.found then v.value ∷ found_values views else found_values views

abbrev pub In : Value → List Value → Type 0
In v [] = ⊥
In v (x ∷ l) = (x ≡ v) ⊎ In v l

abbrev pub IsSubset : List Value → List Value → Type 0
IsSubset xs ys = (v : Value) → In v xs → In v ys

pub All_of_In : (P : Value → Type 0) (l : List Value) (v : Value) → All P l → In v l → P v
All_of_In P (x ∷ l) v a (inl e) = subst P e a.0
All_of_In P (x ∷ l) v a (inr i) = All_of_In P l v a.1 i
All_of_In P [] v a i = absurd i

All-of_subset : (P : Value → Type 0) (xs ys : List Value) → All P ys → IsSubset xs ys → All P xs
All-of_subset P [] ys a s = tt
All-of_subset P (x ∷ xs) ys a s =
    (All_of_In P ys x a (s x (inl refl)), All-of_subset P xs ys a (λ v i. s v (inr i)))

module _ ⦃codec : Codec⦄ where
  -- The fold of `ResolveMany` over the values alone.
  abbrev pub fold_values : List Value → Option Value
  fold_values [] = none
  fold_values (x ∷ l) = some (foldl resolve x l)

  some_views :
      (x : Value) (views : List ReplicaView)
      → foldl resolve_view (some x) views ≡ some (foldl resolve x (found_values views))
  unfolding resolve_view
  some_views x [] = refl
  some_views x (v ∷ views) =
      ground (arith, some_views x views, some_views (resolve x v.value) views)

  -- The loop folds the values of the views that have one.
  pub resolve_many-fold :
      (views : List ReplicaView) → resolve_many views ≡ fold_values (found_values views)
  unfolding resolve_many resolve_view
  resolve_many-fold [] = refl
  resolve_many-fold (v ∷ views) = ground (arith, resolve_many-fold views, some_views v.value views)

  module _ (p : Policy) where
    fold-Below :
        (xs ys : List Value) (y : Value)
        → All (IsOf p) xs
        → All (IsOf p) (y ∷ ys)
        → IsSubset xs (y ∷ ys)
        → All (λ x. Below (resolve_semilattice p) x (foldl resolve y ys)) xs
    fold-Below xs ys y a b s =
        All-of_subset _ xs (y ∷ ys)
          (
            foldl-upper (resolve_semilattice p) y ys b.0 b.1,
            foldl-upper-All (resolve_semilattice p) y ys b.0 b.1,
          )
          s

    pub fold_same :
        (xs ys : List Value)
        → All (IsOf p) xs
        → All (IsOf p) ys
        → IsSubset xs ys
        → IsSubset ys xs
        → fold_values xs ≡ fold_values ys
    fold_same [] [] a b s t = refl
    fold_same [] (y ∷ ys) a b s t = absurd (t y (inl refl))
    fold_same (x ∷ xs) [] a b s t = absurd (s x (inl refl))
    fold_same (x ∷ xs) (y ∷ ys) a b s t =
        let l = resolve_semilattice p in
        let f = foldl-closed l x xs a.0 a.1 in
        let g = foldl-closed l y ys b.0 b.1 in
        let up = fold-Below (x ∷ xs) ys y a b s in
        let down = fold-Below (y ∷ ys) xs x b a t in
        ap some (
          Below-antisymm l _ _ f g (foldl-least l x xs _ a.0 a.1 g up.0 up.1)
            (foldl-least l y ys _ b.0 b.1 f down.0 down.1))

    -- What a read resolves to depends only on which values of the policy the views hold: not on the
    -- order of the answers, nor on how many replicas gave each.
    pub resolve_many_same :
        (xs ys : List ReplicaView)
        → All (IsOf p) (found_values xs)
        → All (IsOf p) (found_values ys)
        → IsSubset (found_values xs) (found_values ys)
        → IsSubset (found_values ys) (found_values xs)
        → resolve_many xs ≡ resolve_many ys
    resolve_many_same xs ys a b s t =
        rw (resolve_many-fold xs, resolve_many-fold ys) (fold_same _ _ a b s t)

    -- The least value of the policy that includes every value of the list.
    abbrev pub IsLeast : List Value → Value → Type 0
    IsLeast l w =
        IsOf p w
        × All (λ v. resolve v w ≡ w) l
        × ((u : Value) → IsOf p u → All (λ v. resolve v u ≡ u) l → resolve w u ≡ u)

    fold-IsLeast :
        (l : List Value) (w : Value) → All (IsOf p) l → fold_values l ≡ some w → IsLeast l w
    fold-IsLeast [] w a e = absurd (cc)
    fold-IsLeast (x ∷ l) w a e =
        let s = resolve_semilattice p in
        let found : foldl resolve x l ≡ w = ground arith in
        subst (IsLeast (x ∷ l)) found (
          foldl-closed s x l a.0 a.1,
          (foldl-upper s x l a.0 a.1, foldl-upper-All s x l a.0 a.1),
          λ u q h. foldl-least s x l u a.0 a.1 q h.0 h.1,
        )

    -- What a read resolves to is the least value of the policy that includes every value found, if
    -- all of these are of the policy.
    pub resolve_many-IsLeast :
        (views : List ReplicaView) (w : Value)
        → All (IsOf p) (found_values views)
        → resolve_many views ≡ some w
        → IsLeast (found_values views) w
    resolve_many-IsLeast views w a e =
        fold-IsLeast (found_values views) w a (sym (resolve_many-fold views) ∙ e)

agreed_from_lem :
    (n : ℕ) (views : List ReplicaView) (w : Value)
    → (agreed_from n views w ≡ true
        → (0 < n + length (found_values views)) × All (λ v. v ≡ w) (found_values views))
      × (All (λ v. v ≡ w) (found_values views)
          → 0 < n + length (found_values views)
          → agreed_from n views w ≡ true)
unfolding agreed_from
agreed_from_lem n [] w = (λ h. (ground arith, tt), λ _ h. ground arith)
agreed_from_lem n (v ∷ views) w =
    let (f, g) = agreed_from_lem (n + 1) views w in
    let (f', g') = agreed_from_lem n views w in
    ground (arith, f, g, f', g', equal_value_iff v.value w)

-- The views agree on a winner exactly when some view has a value and every view that has one has
-- the winner.
pub agreed_iff :
    (views : List ReplicaView) (w : Value)
    → (agreed views w ≡ true)
      ↔ ((0 < length (found_values views)) × All (λ v. v ≡ w) (found_values views))
unfolding agreed
agreed_iff views w =
    let (f, g) = agreed_from_lem 0 views w in
    (λ h. let (p, q) = f h in (omega arith, q), λ h. g h.1 (omega arith))
