-- ===== src/Tests/OrSet.antt =====
-- The theorems on the observed-remove set at concrete inputs, and runs of its operations.
use agent_memory.Prelude.{◌≡◌, refl, true, false, not, ◌&&◌, ◌||◌, Text, codes, eq_text, elem}
use agent_memory.Map.{lookup, insert}
use agent_memory.Conflict.OrSet.{
  tags_of, tag_on, ensure, set_tag, set_tags, add, remove, any_live, contains, elements,
  merge_orset_states,
}
use agent_memory.Conflict.OrSet.Membership.{contains-add, add_wins, observed_remove}
use agent_memory.Conflict.OrSet.Elements.{IsRising, elements_lem}
use agent_memory.Tests.Values.{one, one-IsCanonical}

abbrev x : Text
x = codes "x"

abbrev first_tag : Text
first_tag = codes "n1:1"

abbrev new_tag : Text
new_tag = codes "n2:1"

-- A set whose only element is removed, and added again under the removed tag: it stays out.
lost_add : contains (add (remove one x) x first_tag) x ≡ false
unfolding contains any_live tag_on add remove set_tag set_tags ensure tags_of lookup insert
lost_add = refl

add_wins_example :
    (contains (merge_orset_states (add one x new_tag) (remove one x)) x ≡ true)
    × (contains (merge_orset_states (remove one x) (add one x new_tag)) x ≡ true)
unfolding tag_on tags_of lookup
add_wins_example = add_wins one one x new_tag one-IsCanonical one-IsCanonical refl refl refl

observed_remove_example : contains (merge_orset_states one (remove one x)) x ≡ false
observed_remove_example = observed_remove one one x one-IsCanonical one-IsCanonical (λ t h. h)

contains-add_example :
    contains (add one x new_tag) x
    ≡ (contains one x || (eq_text x x && not (tag_on x new_tag one.rems)))
contains-add_example = contains-add one x new_tag x

elements_lem_example :
    ((e : Text) → elem e (elements one) ≡ contains one e) × IsRising (elements one)
elements_lem_example = elements_lem one
