-- ===== src/Types/Version.antt =====
-- `Version` of internal/types/types.go: a Lamport timestamp and the id of the writing node.
use agent_memory.Prelude.{
  ℕ, ◌≡◌, ◌↔◌, refl, ◌∷◌, Bool, true, false, not, ◌&&◌, [], Ordering, if◌then◌else◌, ltb, ◌==◌,
  Text, arith, eq_text, eq_text_iff,
}
use agent_memory.Prelude.Order.{
  Ord, cmp_list, flip, is_gt, list_refl, list_eq, list_flip, list_trans,
}

pub record Version : Type 0 where
  pub lamport : ℕ
  pub node_id : Text

-- `Version{}`
abbrev pub zero_version : Version
zero_version = record { lamport = 0; node_id = [] }

unfoldable pub equal_version : Version → Version → Bool
equal_version v o = v.lamport == o.lamport && eq_text v.node_id o.node_id

unfoldable pub is_zero : Version → Bool
is_zero v = v.lamport == 0 && eq_text v.node_id []

-- -1, 0 and 1 are `lt`, `eq` and `gt`; `a < b` on strings is `lt` of their comparison.
unfoldable pub compare_version : Version → Version → Ordering
compare_version a b =
    if not (a.lamport == b.lamport)
    then (if ltb a.lamport b.lamport then Ordering.lt else Ordering.gt)
    else elim (cmp_list a.node_id b.node_id) [
      | Ordering.lt ↦ Ordering.lt
      | Ordering.gt ↦ Ordering.gt
      | Ordering.eq ↦ Ordering.eq
    ]

module _ (a b : Version) where
  pub version-eq : compare_version a b ≡ Ordering.eq → a ≡ b
  unfolding compare_version
  version-eq h = ground (arith, list_eq a.node_id b.node_id)

  pub version-flip : compare_version b a ≡ flip (compare_version a b)
  unfolding compare_version
  version-flip = ground (arith, list_flip a.node_id b.node_id)

  pub equal_version_iff : (equal_version a b ≡ true) ↔ (a ≡ b)
  unfolding equal_version
  equal_version_iff = ground (arith, eq_text_iff a.node_id b.node_id)

pub version_refl : (a : Version) → compare_version a a ≡ Ordering.eq
unfolding compare_version
version_refl a = ground (arith, list_refl a.node_id)

pub version_trans :
    (a b c : Version)
    → compare_version a b ≡ Ordering.lt
    → compare_version b c ≡ Ordering.lt
    → compare_version a c ≡ Ordering.lt
unfolding compare_version
version_trans a b c h k = ground (
  arith,
  list_trans a.node_id b.node_id c.node_id,
  list_eq a.node_id b.node_id,
  list_eq b.node_id c.node_id,
)

instance abbrev pub version_ord : Ord Version
version_ord = record {
  cmp = compare_version;
  cmp_refl = version_refl;
  eq_of_cmp = version-eq;
  cmp_flip = version-flip;
  cmp_trans = version_trans;
}

-- No version is below the zero version.
pub zero-le : (a b : Version) → is_zero a ≡ true → is_gt (compare_version a b) ≡ false
unfolding is_zero compare_version
zero-le a b h = ground (arith, zero_text a.node_id, list_above_nil b.node_id)
  where
    list_above_nil : (t : Text) → is_gt (cmp_list [] t) ≡ false
    list_above_nil [] = refl
    list_above_nil (x ∷ t) = refl

    zero_text : (t : Text) → eq_text t [] ≡ true → t ≡ []
    zero_text t h = (eq_text_iff t []).0 h
