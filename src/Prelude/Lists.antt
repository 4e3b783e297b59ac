-- ===== src/Prelude/Lists.antt =====
-- Lists measured by native numbers, and predicates on all their elements.
use Prim.Native.Nat.{ℕ, zero, suc, ◌+◌, ◌<◌}
use mathlib.Core.Path.{◌≡◌, refl, ap}
use mathlib.Core.List.{List, [], ◌∷◌, ◌++◌}
use native.Mathlib.Omega.{arith}

module _ {ℓ} {A : Type ℓ} where
  abbrev pub length : List A → ℕ
  length [] = 0
  length (x ∷ xs) = suc (length xs)

  pub length-append : (xs ys : List A) → length (xs ++ ys) ≡ length xs + length ys
  length-append [] ys = omega arith
  length-append (x ∷ xs) ys = omega (arith, length-append xs ys)

abbrev pub All {ℓ κ} : {A : Type ℓ} → (A → Type κ) → List A → Type κ
All P [] = Unit
All P (x ∷ xs) = P x × All P xs

module _ {ℓ} {A : Type ℓ} where
  abbrev pub take : ℕ → List A → List A
  take zero xs = []
  take (suc n) [] = []
  take (suc n) (x ∷ xs) = x ∷ take n xs

  abbrev pub drop : ℕ → List A → List A
  drop zero xs = xs
  drop (suc n) [] = []
  drop (suc n) (x ∷ xs) = drop n xs

  pub take-length : (s t : List A) → take (length s) (s ++ t) ≡ s
  take-length [] t = refl
  take-length (c ∷ s) t = ap (◌∷◌ c) (take-length s t)

  pub drop-length : (s t : List A) → drop (length s) (s ++ t) ≡ t
  drop-length [] t = refl
  drop-length (d ∷ s) t = drop-length s t

pub take-All : {A : Type 0} (P : A → Type 0) (k : ℕ) (l : List A) → All P l → All P (take k l)
take-All P zero l h = tt
take-All P (suc k) [] h = tt
take-All P (suc k) (x ∷ l) h = (h.0, take-All P k l h.1)

-- What is taken before the end of the first list.
pub take_before : {A : Type 0} (k : ℕ) (l m : List A) → k < length l → take k (l ++ m) ≡ take k l
take_before zero l m h = refl
take_before (suc k) [] m h = absurd (omega arith)
take_before (suc k) (x ∷ l) m h = ap (◌∷◌ x) (take_before k l m (omega arith))

pub left-All : {A : Type 0} (P Q : A → Type 0) (l : List A) → All (λ x. P x × Q x) l → All P l
left-All P Q [] h = tt
left-All P Q (x ∷ l) h = (h.0.0, left-All P Q l h.1)

pub right-All : {A : Type 0} (P Q : A → Type 0) (l : List A) → All (λ x. P x × Q x) l → All Q l
right-All P Q [] h = tt
right-All P Q (x ∷ l) h = (h.0.1, right-All P Q l h.1)
