-- ===== src/Skill/Mutations.antt =====
-- skill/runtime_mutation.go: the changes between two lists of keyed states, and their application.
-- The states are persistent ones, by handle and binding, processes or casts; `same` is the test of the
-- diff that leaves a state out, reflect.DeepEqual or the comparison that ignores the clock.
pub mod RoundTrip
pub mod Reordered
mod Examples
use roost_skill.Common.{
  Bool, true, false, if◌then◌else◌, not, List, [], ◌∷◌, ◌++◌, Option, none, some, filter,
}

-- An upsert of a state, or the removal of the state of a key.
pub data Change (K : Type 0) (V : Type 0) : Type 0 where
  upserted : V → Change K V
  removed : K → Change K V

abbrev pub is_some : {A : Type 0} → Option A → Bool
is_some none = false
is_some (some a) = true

abbrev pub or_earlier : {A : Type 0} → Option A → Option A → Option A
or_earlier none earlier = earlier
or_earlier (some a) earlier = some a

module _ {K V : Type 0} (key : V → K) (equal : K → K → Bool) where
  -- The entry of a key in the Go map of the states: the last one counts.
  unfoldable pub indexed : K → List V → Option V
  indexed k [] = none
  indexed k (v ∷ vs) = or_earlier (indexed k vs) (if equal (key v) k then some v else none)

  unfoldable pub upsert : V → List V → List V
  upsert v [] = v ∷ []
  upsert v (x ∷ xs) = if equal (key x) (key v) then v ∷ xs else x ∷ upsert v xs

  unfoldable pub remove : K → List V → List V
  remove k xs = filter (λ x. not (equal (key x) k)) xs

  unfoldable pub apply_change : Change K V → List V → List V
  unfolding upsert remove
  apply_change (upserted v) xs = upsert v xs
  apply_change (removed k) xs = remove k xs

  unfoldable pub apply_changes : List (Change K V) → List V → List V
  apply_changes [] xs = xs
  apply_changes (c ∷ cs) xs = apply_changes cs (apply_change c xs)

  -- The second loop of the diff, over the states before.
  unfoldable pub removals : (after : List V) → List V → List (Change K V)
  removals after [] = []
  removals after (v ∷ vs) =
      if is_some (indexed (key v) after)
      then removals after vs
      else removed (key v) ∷ removals after vs

abbrev pub differs : {V : Type 0} → (V → V → Bool) → V → Option V → Bool
differs same v none = true
differs same v (some previous) = not (same previous v)

module _ {K V : Type 0} (key : V → K) (equal : K → K → Bool) (same : V → V → Bool) where
  -- The first loop of the diff, over the states after.
  unfoldable pub upserts : (before : List V) → List V → List (Change K V)
  upserts before [] = []
  upserts before (v ∷ vs) =
      if differs same v (indexed key equal (key v) before)
      then upserted v ∷ upserts before vs
      else upserts before vs

  unfoldable pub diff_states : List V → List V → List (Change K V)
  diff_states before after = upserts before after ++ removals key equal after before
