-- ===== src/Combat/Attributes/State.antt =====
-- combat/attributes.go: Current against the bounds, and Snapshot, BaseState and RestoreBase.
use roost_skill.Common.{
  ℕ, ◌<◌, Bool, true, false, ◌||◌, if◌then◌else◌, List, [], ◌∷◌, ◌++◌, map, Option, none, some,
  ◌==◌, ◌≡◌, refl, sym, ap, ◌∙◌, arith, any,
}
use roost_skill.Common.Int.{ℤ, pos, ◌≤ℤ◌, ltb_ℤ}
use roost_skill.Combat.FixedMath.{saturating_add, scale_basis_points, basis_point_scale}
use roost_skill.Common.Maps.{Map, lookup, get_or, insert, keys, get_or-insert, lookup-insert}
use roost_skill.Combat.Attributes.{
  AttributeSet, AttributeBounds, AttributeBaseState, AttributeValue, value_of, current,
  resolve_value, insert_key, sort_keys, snapshot, base_state, restore_states, restore_base,
  notify_all, notify, clamp_to, restore_bounds,
}

clamp_bounds :
    (b : AttributeBounds) (v : ℤ)
    → b.minimum ≤ℤ b.maximum
    → (b.minimum ≤ℤ clamp_to b v) × (clamp_to b v ≤ℤ b.maximum)
clamp_bounds b v h = ground arith

resolved_bounds :
    (base flats rates : ℤ) (o : Option AttributeBounds) {b : AttributeBounds}
    → o ≡ some b
    → b.minimum ≤ℤ b.maximum
    → (b.minimum ≤ℤ resolve_value base flats rates o)
      × (resolve_value base flats rates o ≤ℤ b.maximum)
unfolding resolve_value
resolved_bounds base flats rates o {b} e h =
    let rate = saturating_add basis_point_scale rates in
    rw e (
      clamp_bounds b
        (scale_basis_points (saturating_add base flats)
          (if ltb_ℤ rate (pos 0) then pos 0 else rate))
        h)

-- An attribute whose bounds are in order stays within them, whatever its base and modifiers.
pub current_bounds :
    (id : ℕ) (set : AttributeSet) {b : AttributeBounds}
    → lookup id set.bounds ≡ some b
    → b.minimum ≤ℤ b.maximum
    → (b.minimum ≤ℤ current id set) × (current id set ≤ℤ b.maximum)
unfolding current
current_bounds id set e h =
    resolved_bounds (value_of id set.base) (value_of id set.flat_sum) (value_of id set.rate_sum)
      (lookup id set.bounds) e h

-- Each key is below all that follow.
abbrev pub IsAscending : List ℕ → Type 0
IsAscending [] = Unit
IsAscending (k ∷ []) = Unit
IsAscending (k ∷ j ∷ js) = (k < j) × IsAscending (j ∷ js)

abbrev pub has : ℕ → List ℕ → Bool
has id = any (λ k. k == id)

insert_key-IsAscending : (k : ℕ) (js : List ℕ) → IsAscending js → IsAscending (insert_key k js)
unfolding insert_key
insert_key-IsAscending k [] h = tt
insert_key-IsAscending k (j ∷ []) h = ground arith
insert_key-IsAscending k (j ∷ i ∷ is) h = ground (arith, insert_key-IsAscending k (i ∷ is) h.1)

sort_keys-IsAscending : (ks : List ℕ) → IsAscending (sort_keys ks)
unfolding sort_keys
sort_keys-IsAscending [] = tt
sort_keys-IsAscending (k ∷ ks) = insert_key-IsAscending k (sort_keys ks) (sort_keys-IsAscending ks)

has-insert_key : (id k : ℕ) (js : List ℕ) → has id (insert_key k js) ≡ (k == id) || has id js
unfolding insert_key
has-insert_key id k [] = refl
has-insert_key id k (j ∷ js) = ground (arith, has-insert_key id k js)

has-sort_keys : (id : ℕ) (ks : List ℕ) → has id (sort_keys ks) ≡ has id ks
unfolding sort_keys
has-sort_keys id [] = refl
has-sort_keys id (k ∷ ks) =
    has-insert_key id k (sort_keys ks) ∙ ap (λ b. (k == id) || b) (has-sort_keys id ks)

has-append : (id : ℕ) (ks js : List ℕ) → has id (ks ++ js) ≡ has id ks || has id js
has-append id [] js = refl
has-append id (k ∷ ks) js = ground (arith, has-append id ks js)

value_absent : (id : ℕ) (m : Map ℤ) → has id (keys m) ≡ false → value_of id m ≡ pos 0
unfolding get_or
value_absent id [] e = refl
value_absent id ((k, v) ∷ m) e = ground (arith, value_absent id m)

lookup_absent {ℓ} : {V : Type ℓ} (id : ℕ) (m : Map V) → has id (keys m) ≡ false → lookup id m ≡ none
unfolding lookup
lookup_absent id [] e = refl
lookup_absent id ((k, v) ∷ m) e = ground (arith, lookup_absent id m)

ids_of :
    (f : ℕ → ℤ) (g : ℕ → ℤ) (ks : List ℕ)
    → map
        (λ (v : AttributeValue). v.attribute)
        (map (λ id. record { attribute = id; base = f id; current = g id }) ks)
      ≡ ks
ids_of f g [] = refl
ids_of f g (k ∷ ks) = ap (λ js. k ∷ js) (ids_of f g ks)

-- The snapshot lists each attribute with a base entry or a sum entry once, in ascending order.
pub snapshot-ids :
    (set : AttributeSet)
    → let ids = map (λ v. v.attribute) (snapshot set) in
      IsAscending ids
      × ((id : ℕ)
          → has id ids ≡ (
              has id (keys set.base) || (has id (keys set.flat_sum) || has id (keys set.rate_sum))))
unfolding snapshot
snapshot-ids set =
    let ks = keys set.base ++ (keys set.flat_sum ++ keys set.rate_sum) in
    let e = ids_of (λ id. value_of id set.base) (λ id. current id set) (sort_keys ks) in
    rw e (
      sort_keys-IsAscending ks,
      λ id.
          has-sort_keys id ks
          ∙ has-append id (keys set.base) (keys set.flat_sum ++ keys set.rate_sum)
          ∙ ap (λ b. has id (keys set.base) || b)
              (has-append id (keys set.flat_sum) (keys set.rate_sum)),
    )

state_of : AttributeSet → ℕ → AttributeBaseState
state_of set id = record {
  attribute = id;
  base = value_of id set.base;
  bounds = lookup id set.bounds;
}

-- What a restored map entry holds: the saved one, if the key is among those restored.
abbrev pick {ℓ} : {V : Type ℓ} → Option V → Bool → Option V → Option V
pick none among old = old
pick (some b) true old = some b
pick (some b) false old = old

base_step :
    (id k : ℕ) (saved old : Map ℤ) (among : Bool)
    → (if among then value_of id saved else value_of id (insert k (value_of k saved) old))
      ≡ (if (k == id) || among then value_of id saved else value_of id old)
base_step id k saved old true = ground arith
base_step id k saved old false = ground (arith, get_or-insert (pos 0) id k (value_of k saved) old)

bounds_step :
    (id k : ℕ) (saved old : Map AttributeBounds) (among : Bool) (o : Option AttributeBounds)
    → lookup k saved ≡ o
    → pick (lookup id saved) among (lookup id (restore_bounds o k old))
      ≡ pick (lookup id saved) ((k == id) || among) (lookup id old)
bounds_step id k saved old among none e = ground arith
bounds_step id k saved old among (some b) e = ground (arith, lookup-insert id k b old)

restore_states_lem :
    (set t : AttributeSet) (id : ℕ) (ks : List ℕ)
    → let r = restore_states (map (state_of set) ks) t in
      (value_of id r.base ≡ (if has id ks then value_of id set.base else value_of id t.base))
      × (lookup id r.bounds ≡ pick (lookup id set.bounds) (has id ks) (lookup id t.bounds))
unfolding restore_states state_of
restore_states_lem set t id [] = (refl, ground arith)
restore_states_lem set t id (k ∷ ks) =
    let r =
      restore_states_lem set
        (record t {
          base = insert k (value_of k set.base) t.base;
          bounds = restore_bounds (lookup k set.bounds) k t.bounds;
        })
        id ks in
    (
      r.0 ∙ base_step id k set.base t.base (has id ks),
      r.1 ∙ bounds_step id k set.bounds t.bounds (has id ks) (lookup k set.bounds) refl,
    )

notify_all_keeps :
    (ids : List ℕ) (set : AttributeSet)
    → ((notify_all ids set).base ≡ set.base) × ((notify_all ids set).bounds ≡ set.bounds)
unfolding notify_all notify
notify_all_keeps [] set = (refl, refl)
notify_all_keeps (id ∷ ids) set = ground (arith, notify_all_keeps ids (notify id set))

saved_value :
    (b c among : Bool) (v : ℤ)
    → among ≡ b || c
    → (b ≡ false → v ≡ pos 0)
    → (if among then v else pos 0) ≡ v
saved_value true c true v e h = refl
saved_value true c false v e h = cc
saved_value false c true v e h = refl
saved_value false c false v e h = sym (h refl)

saved_bounds :
    (b c among : Bool) (o : Option AttributeBounds)
    → among ≡ b || c
    → (c ≡ false → o ≡ none)
    → pick o among none ≡ o
saved_bounds b c among none e h = refl
saved_bounds b c true (some v) e h = refl
saved_bounds true c false (some v) e h = cc
saved_bounds false true false (some v) e h = cc
saved_bounds false false false (some v) e h = sym (h refl)

-- Restoring a saved state into any attribute set gives every attribute its saved base and bounds,
-- and forgets what the set held before.
pub restore_base-base_state :
    (set t : AttributeSet) (id : ℕ)
    → let r = restore_base (base_state set) t in
      (value_of id r.base ≡ value_of id set.base) × (lookup id r.bounds ≡ lookup id set.bounds)
unfolding restore_base base_state state_of
restore_base-base_state set t id =
    let ks = keys set.base ++ keys set.bounds in
    let n =
      notify_all_keeps
        (sort_keys (keys t.base ++ (keys t.bounds ++ map (λ s. s.attribute) (base_state set))))
        (restore_states (base_state set) (record t { base = []; bounds = [] })) in
    let r = restore_states_lem set (record t { base = []; bounds = [] }) id (sort_keys ks) in
    let h = has-sort_keys id ks ∙ has-append id (keys set.base) (keys set.bounds) in
    (
      ap (value_of id) n.0
          ∙ r.0
          ∙ saved_value (has id (keys set.base)) (has id (keys set.bounds)) _ _ h
              (value_absent id set.base),
      ap (lookup id) n.1
          ∙ r.1
          ∙ saved_bounds (has id (keys set.base)) (has id (keys set.bounds)) _ _ h
              (lookup_absent id set.bounds),
    )
