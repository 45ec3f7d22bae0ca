-- ===== src/Combat/Buffs.antt =====
-- combat/buffs.go: the buff container, linked to an attribute set or to none. An instance id, the
-- sequence counter (uint64) and a buff id are numbers; ticks, stacks and rates are int64.
pub mod Specs
pub mod Removal
pub mod Sweeps
pub mod Grants
pub mod Valid
pub mod Restore
use roost_skill.Common.{
  ℕ, ◌+◌, ◌%◌, ◌^◌, Bool, true, false, if◌then◌else◌, ◌&&◌, ◌||◌, not, ◌++◌, List, [], ◌∷◌, Option,
  none, some, map, ◌==◌, leb, ltb, any, length, String,
}
use roost_skill.Common.Int.{ℤ, pos, ltb_ℤ, leb_ℤ, eqb_ℤ, add64, sub64, ◌≤ℤ◌}
use roost_skill.Combat.FixedMath.{
  basis_point_scale, saturating_add, saturating_mul, scale_basis_points, max_int64,
}
use roost_skill.Combat.Attributes.{Modifier, AttributeSet, grant, revoke}
use Specs.{
  BuffSpec, BuffInstance, BuffStackPolicy, refresh, extend, ignore, independent, unknown,
  BuffApplyOutcome, applied, stacked, refreshed, ignored, blocked_immune, contains_tag,
  scaled_modifiers,
}

pub record BuffContainer : Type 0 where
  pub sequence : ℕ
  pub active : List BuffInstance
  pub tenacity_bp : ℤ
  pub attributes : Option AttributeSet

abbrev pub new_buff_container : BuffContainer
new_buff_container = record { sequence = 0; active = []; tenacity_bp = pos 0; attributes = none }

abbrev pub grant_to : BuffInstance → List Modifier → Option AttributeSet → Option AttributeSet
grant_to i ms none = none
grant_to i [] (some set) = some set
grant_to i (m ∷ ms) (some set) = some (grant i.instance_id (scaled_modifiers i.stacks (m ∷ ms)) set)

unfoldable pub grant_modifiers : BuffInstance → Option AttributeSet → Option AttributeSet
grant_modifiers i attributes = grant_to i i.spec.modifiers attributes

abbrev pub revoke_from : ℕ → Option AttributeSet → Option AttributeSet
revoke_from id none = none
revoke_from id (some set) = some (revoke id set)

unfoldable pub grant_all : List BuffInstance → Option AttributeSet → Option AttributeSet
unfolding grant_modifiers
grant_all [] attributes = attributes
grant_all (i ∷ is) attributes = grant_all is (grant_modifiers i attributes)

unfoldable pub link_attributes : AttributeSet → BuffContainer → BuffContainer
unfolding grant_all
link_attributes set c = record c { attributes = grant_all c.active (some set) }

unfoldable pub set_tenacity_bp : ℤ → BuffContainer → BuffContainer
set_tenacity_bp bp c =
    let raised = if ltb_ℤ bp (pos 0) then pos 0 else bp in
    record c { tenacity_bp = if ltb_ℤ basis_point_scale raised then basis_point_scale else raised }

unfoldable pub effective_duration : BuffContainer → BuffSpec → ℤ
effective_duration c spec =
    if leb_ℤ spec.duration_ticks (pos 0)
    then pos 0
    else (let scaled =
          scale_basis_points spec.duration_ticks (sub64 basis_point_scale c.tenacity_bp) in
        let duration =
          if spec.tenacity_affected && ltb_ℤ (pos 0) c.tenacity_bp
          then if ltb_ℤ scaled (pos 1) then pos 1 else scaled
          else spec.duration_ticks in
        if ltb_ℤ (pos 0) spec.max_duration_ticks && ltb_ℤ spec.max_duration_ticks duration
        then spec.max_duration_ticks
        else duration)

unfoldable pub immune_to : List String → BuffContainer → Bool
unfolding contains_tag
immune_to tags c = any (λ i. any (contains_tag tags) i.spec.grants_immunity_to) c.active

-- The first active instance of a buff.
unfoldable pub find_buff : ℕ → List BuffInstance → Option BuffInstance
find_buff id [] = none
find_buff id (i ∷ is) = if i.spec.id == id then some i else find_buff id is

-- A write through the pointer to the first active instance of a buff.
unfoldable pub replace_buff : ℕ → BuffInstance → List BuffInstance → List BuffInstance
replace_buff id new [] = []
replace_buff id new (i ∷ is) = if i.spec.id == id then new ∷ is else i ∷ replace_buff id new is

-- The expiry after a re-application that is not ignored.
unfoldable pub renewed_due : BuffStackPolicy → ℤ → ℤ → ℤ → ℤ
renewed_due extend tick duration due =
    if ltb_ℤ (pos 0) duration
    then saturating_add (if eqb_ℤ due (pos 0) then tick else due) duration
    else due
renewed_due policy tick duration due =
    if ltb_ℤ (pos 0) duration then saturating_add tick duration else due

abbrev gains_stack : BuffSpec → BuffInstance → Bool
gains_stack spec i = ltb_ℤ i.stacks (max_int64 spec.max_stacks (pos 1))

-- The instance after a re-application that is not ignored.
unfoldable pub renewed : BuffSpec → ℤ → ℤ → ℤ → BuffInstance → BuffInstance
unfolding renewed_due
renewed spec tick source duration i = record i {
  due_tick = renewed_due spec.stack_policy tick duration i.due_tick;
  stacks = if gains_stack spec i then add64 i.stacks (pos 1) else i.stacks;
  spec = spec;
  source = source;
}

-- What Apply returns, and the container it leaves.
pub record Applied : Type 0 where
  pub container : BuffContainer
  pub instance_id : ℕ
  pub outcome : BuffApplyOutcome

unfoldable pub renew : BuffSpec → ℤ → ℤ → ℤ → BuffInstance → BuffContainer → Applied
unfolding renewed replace_buff grant_modifiers
renew spec tick source duration i c = record {
  container = record c {
    active = replace_buff spec.id new c.active;
    attributes = grant_modifiers new c.attributes;
  };
  instance_id = i.instance_id;
  outcome = if gains_stack spec i then stacked else refreshed;
}
  where
    new : BuffInstance
    new = renewed spec tick source duration i

unfoldable pub reapply :
    BuffStackPolicy → BuffSpec → ℤ → ℤ → ℤ → BuffInstance → BuffContainer → Applied
unfolding renew
reapply ignore spec tick source duration i c = record {
  container = c;
  instance_id = i.instance_id;
  outcome = ignored;
}
reapply policy spec tick source duration i c = renew spec tick source duration i c

unfoldable pub next_sequence : ℕ → ℕ
next_sequence n = (n + 1) % 2 ^ 64

-- Appends an instance under the next id of the sequence.
unfoldable pub append_instance : BuffInstance → BuffContainer → Applied
unfolding grant_modifiers next_sequence
append_instance i c = record {
  container = record c {
    sequence = next_sequence c.sequence;
    active = c.active ++ new ∷ [];
    attributes = grant_modifiers new c.attributes;
  };
  instance_id = next_sequence c.sequence;
  outcome = applied;
}
  where
    new : BuffInstance
    new = record i { instance_id = next_sequence c.sequence }

unfoldable pub new_instance : BuffSpec → ℤ → ℤ → ℤ → BuffInstance
new_instance spec tick source duration = record {
  instance_id = 0;
  spec = spec;
  stacks = pos 1;
  source = source;
  applied_tick = tick;
  due_tick = if ltb_ℤ (pos 0) duration then saturating_add tick duration else pos 0;
}

unfoldable pub create : BuffSpec → ℤ → ℤ → ℤ → BuffContainer → Applied
unfolding append_instance
create spec tick source duration c = append_instance (new_instance spec tick source duration) c

-- The instance that Apply merges with: none under BuffIndependent.
unfoldable pub merge_target : BuffStackPolicy → ℕ → List BuffInstance → Option BuffInstance
unfolding find_buff
merge_target independent id is = none
merge_target policy id is = find_buff id is

-- The loop of Apply over the active instances, by the instance that it meets.
unfoldable pub merge_or_create :
    BuffSpec → ℤ → ℤ → ℤ → BuffContainer → Option BuffInstance → Applied
unfolding reapply create
merge_or_create spec tick source duration c none = create spec tick source duration c
merge_or_create spec tick source duration c (some i) =
    reapply spec.stack_policy spec tick source duration i c

unfoldable pub apply : BuffSpec → ℤ → ℤ → BuffContainer → Applied
unfolding immune_to merge_target merge_or_create effective_duration
apply spec tick source c =
    if immune_to spec.tags c
    then record { container = c; instance_id = 0; outcome = blocked_immune }
    else merge_or_create spec tick source (effective_duration c spec) c
        (merge_target spec.stack_policy spec.id c.active)

-- Adopt injects a foreign instance under a fresh id.
unfoldable pub adopt : BuffInstance → BuffContainer → BuffContainer × ℕ
unfolding append_instance
adopt i c = let r = append_instance i c in (r.container, r.instance_id)
