-- ===== src/Combat/Attributes.antt =====
-- combat/attributes.go: the attribute set. A map is an association list; the observer is a flag and
-- the list of the calls that it got, oldest first. An attribute id and a grant handle are numbers.
pub mod Sums
pub mod Grants
pub mod State
use roost_skill.Common.{
  ℕ, Bool, true, false, if◌then◌else◌, ◌&&◌, ◌++◌, List, [], ◌∷◌, Option, none, some, map, ltb,
  ◌==◌,
}
use roost_skill.Common.Int.{ℤ, pos, ltb_ℤ, eqb_ℤ, add64, sub64}
use roost_skill.Common.Maps.{Map, lookup, get_or, insert, erase, keys}
use roost_skill.Combat.FixedMath.{basis_point_scale, saturating_add, scale_basis_points}

pub record Modifier : Type 0 where
  pub attribute : ℕ
  pub flat : ℤ
  pub rate_bp : ℤ

pub record AttributeBounds : Type 0 where
  pub minimum : ℤ
  pub maximum : ℤ

pub record AttributeSet : Type 0 where
  pub base : Map ℤ
  pub flat_sum : Map ℤ
  pub rate_sum : Map ℤ
  pub bounds : Map AttributeBounds
  pub grants : Map (List Modifier)
  pub observed : Bool
  pub notified : List ℕ

abbrev pub new_attribute_set : AttributeSet
new_attribute_set = record {
  base = [];
  flat_sum = [];
  rate_sum = [];
  bounds = [];
  grants = [];
  observed = false;
  notified = [];
}

-- A map read `m[id]` of int64 values.
abbrev pub value_of : ℕ → Map ℤ → ℤ
value_of = get_or (pos 0)

-- Observe registers the observer.
unfoldable pub observe : Bool → AttributeSet → AttributeSet
observe present set = record set { observed = present }

unfoldable pub notify : ℕ → AttributeSet → AttributeSet
notify id set = if set.observed then record set { notified = set.notified ++ id ∷ [] } else set

unfoldable pub set_base : ℕ → ℤ → AttributeSet → AttributeSet
unfolding notify get_or
set_base id value set =
    if eqb_ℤ (value_of id set.base) value
    then set
    else notify id (record set { base = insert id value set.base })

abbrev bounds_of : ℕ → Map AttributeBounds → AttributeBounds
bounds_of = get_or (record { minimum = pos 0; maximum = pos 0 })

unfoldable pub set_bounds : ℕ → AttributeBounds → AttributeSet → AttributeSet
unfolding notify get_or
set_bounds id b set =
    if eqb_ℤ old.minimum b.minimum && eqb_ℤ old.maximum b.maximum
    then set
    else notify id (record set { bounds = insert id b set.bounds })
  where
    old : AttributeBounds
    old = bounds_of id set.bounds

-- One round of the loop in Grant.
unfoldable pub add_modifier : Modifier → AttributeSet → AttributeSet
unfolding notify insert get_or add64
add_modifier m set = notify m.attribute (record set {
  flat_sum = insert m.attribute (add64 (value_of m.attribute set.flat_sum) m.flat) set.flat_sum;
  rate_sum = insert m.attribute (add64 (value_of m.attribute set.rate_sum) m.rate_bp) set.rate_sum;
})

unfoldable pub add_modifiers : List Modifier → AttributeSet → AttributeSet
unfolding add_modifier
add_modifiers [] set = set
add_modifiers (m ∷ ms) set = add_modifiers ms (add_modifier m set)

-- One round of the loop in Revoke.
unfoldable pub remove_modifier : Modifier → AttributeSet → AttributeSet
unfolding notify insert get_or sub64
remove_modifier m set = notify m.attribute (record set {
  flat_sum = insert m.attribute (sub64 (value_of m.attribute set.flat_sum) m.flat) set.flat_sum;
  rate_sum = insert m.attribute (sub64 (value_of m.attribute set.rate_sum) m.rate_bp) set.rate_sum;
})

unfoldable pub remove_modifiers : List Modifier → AttributeSet → AttributeSet
unfolding remove_modifier
remove_modifiers [] set = set
remove_modifiers (m ∷ ms) set = remove_modifiers ms (remove_modifier m set)

unfoldable pub revoke : ℕ → AttributeSet → AttributeSet
unfolding remove_modifiers erase lookup
revoke handle set = elim (lookup handle set.grants) [
  | none ↦ set
  | some ms ↦ remove_modifiers ms (record set { grants = erase handle set.grants })
]

unfoldable pub install : ℕ → List Modifier → AttributeSet → AttributeSet
unfolding add_modifiers insert
install handle [] set = set
install handle (m ∷ ms) set =
    add_modifiers (m ∷ ms) (record set { grants = insert handle (m ∷ ms) set.grants })

unfoldable pub grant : ℕ → List Modifier → AttributeSet → AttributeSet
unfolding revoke install
grant handle modifiers set = install handle modifiers (revoke handle set)

abbrev pub clamp_to : AttributeBounds → ℤ → ℤ
clamp_to b value =
    let raised = if ltb_ℤ value b.minimum then b.minimum else value in
    if ltb_ℤ b.maximum raised then b.maximum else raised

abbrev pub bounded : Option AttributeBounds → ℤ → ℤ
bounded none value = value
bounded (some b) value = clamp_to b value

-- The value of an attribute from its base, its sums and its bounds.
unfoldable pub resolve_value : ℤ → ℤ → ℤ → Option AttributeBounds → ℤ
resolve_value base flats rates b =
    let rate = saturating_add basis_point_scale rates in
    bounded b
      (scale_basis_points (saturating_add base flats) (if ltb_ℤ rate (pos 0) then pos 0 else rate))

unfoldable pub current : ℕ → AttributeSet → ℤ
unfolding resolve_value get_or lookup
current id set =
    resolve_value (value_of id set.base) (value_of id set.flat_sum) (value_of id set.rate_sum)
      (lookup id set.bounds)

-- The keys that a map loop collects, in ascending order and without repetition.
unfoldable pub insert_key : ℕ → List ℕ → List ℕ
insert_key k [] = k ∷ []
insert_key k (j ∷ js) =
    if ltb k j then k ∷ j ∷ js else if k == j then j ∷ js else j ∷ insert_key k js

unfoldable pub sort_keys : List ℕ → List ℕ
unfolding insert_key
sort_keys [] = []
sort_keys (k ∷ ks) = insert_key k (sort_keys ks)

pub record AttributeValue : Type 0 where
  pub attribute : ℕ
  pub base : ℤ
  pub current : ℤ

unfoldable pub snapshot : AttributeSet → List AttributeValue
unfolding sort_keys current
snapshot set =
    map (λ id. record { attribute = id; base = value_of id set.base; current = current id set })
      (sort_keys (keys set.base ++ (keys set.flat_sum ++ keys set.rate_sum)))

pub record AttributeBaseState : Type 0 where
  pub attribute : ℕ
  pub base : ℤ
  pub bounds : Option AttributeBounds

-- `bounds` is HasBounds and Bounds of the source.
unfoldable pub base_state : AttributeSet → List AttributeBaseState
unfolding sort_keys lookup get_or
base_state set =
    map
      (λ id. record { attribute = id; base = value_of id set.base; bounds = lookup id set.bounds })
      (sort_keys (keys set.base ++ keys set.bounds))

abbrev restore_bounds : Option AttributeBounds → ℕ → Map AttributeBounds → Map AttributeBounds
restore_bounds none id m = m
restore_bounds (some b) id m = insert id b m

-- The loop over the states in RestoreBase.
unfoldable pub restore_states : List AttributeBaseState → AttributeSet → AttributeSet
unfolding insert
restore_states [] set = set
restore_states (s ∷ ss) set = restore_states ss (record set {
  base = insert s.attribute s.base set.base;
  bounds = restore_bounds s.bounds s.attribute set.bounds;
})

unfoldable pub notify_all : List ℕ → AttributeSet → AttributeSet
unfolding notify
notify_all [] set = set
notify_all (id ∷ ids) set = notify_all ids (notify id set)

unfoldable pub restore_base : List AttributeBaseState → AttributeSet → AttributeSet
unfolding notify_all restore_states sort_keys
restore_base states set =
    notify_all (sort_keys (keys set.base ++ (keys set.bounds ++ map (λ s. s.attribute) states)))
      (restore_states states (record set { base = []; bounds = [] }))
