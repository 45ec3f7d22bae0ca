-- ===== src/Combat/Buffs/Removal.antt =====
-- combat/buffs.go: Dispel, Remove, SetStacks, SetDueTick, Tick, State and RestoreBuffContainer.
use mathlib.Core.List.{reverse}
use roost_skill.Common.{
  ℕ, Bool, true, false, if◌then◌else◌, ◌&&◌, not, ◌++◌, List, [], ◌∷◌, Option, none, some, ◌==◌,
  ltb, any, length, String,
}
use roost_skill.Common.Int.{ℤ, pos, ltb_ℤ, leb_ℤ, eqb_ℤ}
use roost_skill.Combat.FixedMath.{max_int64}
use roost_skill.Combat.Attributes.{AttributeSet}
use roost_skill.Combat.Buffs.Specs.{BuffInstance, contains_tag}
use roost_skill.Combat.Buffs.{
  BuffContainer, new_buff_container, revoke_from, grant_modifiers, set_tenacity_bp,
}

unfoldable pub has_tag_of : String → BuffInstance → Bool
unfolding contains_tag
has_tag_of tag i = contains_tag i.spec.tags tag

unfoldable pub has_tag : String → BuffContainer → Bool
unfolding has_tag_of
has_tag tag c = any (has_tag_of tag) c.active

-- A walk that removes instances: what it keeps, what it has removed so far, and the attributes.
pub record Sweep : Type 0 where
  pub kept : List BuffInstance
  pub removed : List BuffInstance
  pub attributes : Option AttributeSet

-- One visit: removeAt, or on to the next instance.
unfoldable pub visit : Bool → BuffInstance → Sweep → Sweep
visit true i s = record s {
  removed = s.removed ++ i ∷ [];
  attributes = revoke_from i.instance_id s.attributes;
}
visit false i s = record s { kept = i ∷ s.kept }

unfoldable pub is_full : ℤ → List BuffInstance → Bool
is_full limit removed = ltb_ℤ (pos 0) limit && leb_ℤ limit (pos (length removed))

-- The loop of Dispel from the last instance to the first. The list is that of the instances before
-- the ones visited, the nearest first; `kept` is in application order.
unfoldable pub dispel_loop : String → ℤ → List BuffInstance → Sweep → Sweep
unfolding visit is_full has_tag_of
dispel_loop tag limit [] s = s
dispel_loop tag limit (i ∷ before) s =
    let rest = dispel_loop tag limit before (visit (has_tag_of tag i) i s) in
    if is_full limit s.removed then record s { kept = reverse (i ∷ before) ++ s.kept } else rest

unfoldable pub dispel : String → ℤ → BuffContainer → BuffContainer × List BuffInstance
unfolding dispel_loop
dispel tag limit c =
    let s =
      dispel_loop tag limit (reverse c.active)
        (record { kept = []; removed = []; attributes = c.attributes }) in
    (record c { active = s.kept; attributes = s.attributes }, s.removed)

unfoldable pub is_due : ℤ → BuffInstance → Bool
is_due now i = not (eqb_ℤ i.due_tick (pos 0)) && leb_ℤ i.due_tick now

-- The loop of Tick from the first instance to the last; `kept` is the last visited first.
unfoldable pub tick_loop : ℤ → List BuffInstance → Sweep → Sweep
unfolding visit is_due
tick_loop now [] s = s
tick_loop now (i ∷ rest) s = tick_loop now rest (visit (is_due now i) i s)

unfoldable pub tick : ℤ → BuffContainer → BuffContainer × List BuffInstance
unfolding tick_loop
tick now c =
    let s =
      tick_loop now c.active (record { kept = []; removed = []; attributes = c.attributes }) in
    (record c { active = reverse s.kept; attributes = s.attributes }, s.removed)

-- The instance with an id, and the list without it.
unfoldable pub find_instance : ℕ → List BuffInstance → Option BuffInstance
find_instance id [] = none
find_instance id (i ∷ is) = if i.instance_id == id then some i else find_instance id is

unfoldable pub drop_instance : ℕ → List BuffInstance → List BuffInstance
drop_instance id [] = []
drop_instance id (i ∷ is) = if i.instance_id == id then is else i ∷ drop_instance id is

unfoldable pub replace_instance : ℕ → BuffInstance → List BuffInstance → List BuffInstance
replace_instance id new [] = []
replace_instance id new (i ∷ is) =
    if i.instance_id == id then new ∷ is else i ∷ replace_instance id new is

-- removeAt at the index of an instance.
unfoldable pub remove_found : BuffInstance → BuffContainer → BuffContainer
unfolding drop_instance
remove_found i c = record c {
  active = drop_instance i.instance_id c.active;
  attributes = revoke_from i.instance_id c.attributes;
}

-- The instance that a loop over the ids meets, and what is done to it; none leaves all as it is.
abbrev pub at_found :
    Option BuffInstance
    → (BuffInstance → BuffContainer → BuffContainer × Option BuffInstance)
    → BuffContainer
    → BuffContainer × Option BuffInstance
at_found none f c = (c, none)
at_found (some i) f c = f i c

unfoldable pub remove : ℕ → BuffContainer → BuffContainer × Option BuffInstance
unfolding find_instance remove_found
remove id c = at_found (find_instance id c.active) (λ i d. (remove_found i d, some i)) c

unfoldable pub write_stacks : ℤ → BuffInstance → BuffContainer → BuffContainer × Option BuffInstance
unfolding replace_instance grant_modifiers
write_stacks stacks i c = (
  record c {
    active = replace_instance i.instance_id new c.active;
    attributes = grant_modifiers new c.attributes;
  },
  some new,
)
  where
    new : BuffInstance
    new = record i { stacks = stacks }

unfoldable pub pin_stacks : ℤ → BuffInstance → BuffContainer → BuffContainer × Option BuffInstance
unfolding write_stacks remove_found
pin_stacks stacks i c =
    let maximum = max_int64 i.spec.max_stacks (pos 1) in
    let pinned = if ltb_ℤ maximum stacks then maximum else stacks in
    if leb_ℤ pinned (pos 0) then (remove_found i c, some i) else write_stacks pinned i c

unfoldable pub set_stacks : ℕ → ℤ → BuffContainer → BuffContainer × Option BuffInstance
unfolding find_instance pin_stacks
set_stacks id stacks c = at_found (find_instance id c.active) (pin_stacks stacks) c

unfoldable pub pin_due : ℤ → BuffInstance → BuffContainer → BuffContainer × Option BuffInstance
unfolding replace_instance
pin_due due i c = (record c { active = replace_instance i.instance_id new c.active }, some new)
  where
    new : BuffInstance
    new = record i { due_tick = due }

unfoldable pub set_due_tick : ℕ → ℤ → BuffContainer → BuffContainer × Option BuffInstance
unfolding find_instance pin_due
set_due_tick id due c = at_found (find_instance id c.active) (pin_due due) c

pub record BuffContainerState : Type 0 where
  pub sequence : ℕ
  pub tenacity_bp : ℤ
  pub active : List BuffInstance

unfoldable pub state : BuffContainer → BuffContainerState
state c = record { sequence = c.sequence; tenacity_bp = c.tenacity_bp; active = c.active }

-- The validation loop of RestoreBuffContainer, with the ids seen so far.
unfoldable pub ids_accepted : ℕ → List ℕ → List BuffInstance → Bool
ids_accepted sequence seen [] = true
ids_accepted sequence seen (i ∷ is) =
    not (i.instance_id == 0)
    && not (ltb sequence i.instance_id)
    && not (any (λ id. id == i.instance_id) seen)
    && ids_accepted sequence (i.instance_id ∷ seen) is

-- `none` is ErrBuffStateCorrupt.
unfoldable pub restore_buff_container : BuffContainerState → Option BuffContainer
unfolding ids_accepted set_tenacity_bp
restore_buff_container s =
    if ids_accepted s.sequence [] s.active
    then some
        (record (set_tenacity_bp s.tenacity_bp
          (record new_buff_container { sequence = s.sequence })) { active = s.active })
    else none
