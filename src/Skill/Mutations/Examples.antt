-- ===== src/Skill/Mutations/Examples.antt =====
-- Tests of the changes between two lists of states, and their theorem at concrete states: pairs of a
-- number and a text's length.
use roost_skill.Common.{ℕ, Bool, false, if◌then◌else◌, List, [], ◌∷◌, ◌≡◌, refl, ◌==◌, ==_iff}
use roost_skill.Skill.Mutations.{
  Change, upserted, removed, indexed, upsert, remove, apply_change, apply_changes, removals,
  upserts, diff_states,
}
use roost_skill.Skill.Mutations.RoundTrip.{find, Agrees}
use roost_skill.Common.Reordering.{Reordered, in_turn, keep, exchange}
use roost_skill.Skill.Mutations.Reordered.{apply_changes-Agrees}

abbrev id_of : ℕ × ℕ → ℕ
id_of v = v.0

abbrev same_pair : ℕ × ℕ → ℕ × ℕ → Bool
same_pair v w = if v.0 == w.0 then v.1 == w.1 else false

abbrev states_before : List (ℕ × ℕ)
states_before = (1, 10) ∷ (2, 20) ∷ (3, 30) ∷ []

abbrev states_after : List (ℕ × ℕ)
states_after = (2, 21) ∷ (3, 30) ∷ (4, 40) ∷ []

changes :
    diff_states id_of ◌==◌ same_pair states_before states_after
    ≡ upserted (2, 21) ∷ upserted (4, 40) ∷ removed 1 ∷ []
unfolding diff_states upserts removals indexed
changes = refl

applied_changes :
    apply_changes id_of ◌==◌ (upserted (2, 21) ∷ upserted (4, 40) ∷ removed 1 ∷ []) states_before
    ≡ states_after
unfolding apply_changes apply_change upsert remove
applied_changes = refl

-- The removal comes first in the order of the keys of mutations.
abbrev sorted_changes : List (Change ℕ (ℕ × ℕ))
sorted_changes = removed 1 ∷ upserted (2, 21) ∷ upserted (4, 40) ∷ []

sorted_from_diff :
    Reordered (diff_states id_of ◌==◌ same_pair states_before states_after) sorted_changes
unfolding diff_states upserts removals indexed
sorted_from_diff =
    in_turn (keep (upserted (2, 21)) (exchange (upserted (4, 40)) (removed 1) []))
      (exchange (upserted (2, 21)) (removed 1) (upserted (4, 40) ∷ []))

apply_changes-Agrees_example :
    Agrees same_pair
      (find id_of ◌==◌ 2 (apply_changes id_of ◌==◌ sorted_changes states_before))
      (find id_of ◌==◌ 2 states_after)
unfolding find
apply_changes-Agrees_example =
    apply_changes-Agrees id_of ◌==◌ ==_iff same_pair states_before states_after 2
      (refl, (refl, (refl, tt))) (refl, (refl, (refl, tt))) sorted_changes sorted_from_diff
