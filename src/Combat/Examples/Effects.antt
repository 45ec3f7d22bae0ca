-- ===== src/Combat/Examples/Effects.antt =====
-- Attribute sets, buffs and rolls at concrete inputs.
use roost_skill.Common.{
  ℕ, false, List, [], ◌∷◌, none, some, ◌≡◌, refl, arith, inl, All, ◌++◌, map, ◌||◌,
}
use roost_skill.Common.Int.{pos, negsuc, wrap64}
use roost_skill.Common.Maps.{lookup, get_or, insert, keys}
use roost_skill.Combat.Attributes.{
  Modifier, AttributeSet, new_attribute_set, grant, revoke, current, notify, install, add_modifiers,
  add_modifier, value_of, snapshot, base_state, restore_base,
}
use roost_skill.Combat.Attributes.Sums.{IsBalanced}
use roost_skill.Combat.Attributes.Grants.{grant-IsBalanced, grant_comm, revoke-grant}
use roost_skill.Combat.Attributes.State.{IsAscending, has, snapshot-ids, restore_base-base_state}
use roost_skill.Combat.Buffs.Specs.{BuffSpec, BuffInstance, refresh}
use roost_skill.Combat.Buffs.{BuffContainer, apply}
use roost_skill.Combat.Buffs.Removal.{state, restore_buff_container, dispel, tick, has_tag_of}
use roost_skill.Combat.Buffs.Valid.{IsValid, apply-IsValid, tick-IsValid}
use roost_skill.Combat.Buffs.Sweeps.{Merge, dispel_complete, tick-Merge, IsOver, IsRunning}
use roost_skill.Combat.Buffs.Restore.{restore_buff_container-state}
use roost_skill.Combat.Buffs.Grants.{held_by}

abbrev boost : Modifier
boost = record { attribute = 3; flat = pos 20; rate_bp = pos 500 }

abbrev slow : Modifier
slow = record { attribute = 3; flat = negsuc 4; rate_bp = negsuc 999 }

bare-IsBalanced : IsBalanced new_attribute_set
unfolding get_or wrap64
bare-IsBalanced = record { unique = tt; flats = λ id. refl; rates = λ id. refl }

abbrev geared : AttributeSet
geared = grant 7 (boost ∷ []) new_attribute_set

grant-IsBalanced_example : IsBalanced (grant 7 (boost ∷ []) new_attribute_set)
grant-IsBalanced_example = grant-IsBalanced 7 (boost ∷ []) new_attribute_set bare-IsBalanced

geared-IsBalanced : IsBalanced geared
geared-IsBalanced = grant-IsBalanced 7 (boost ∷ []) new_attribute_set bare-IsBalanced

grant_comm_example :
    current 3 (grant 7 (slow ∷ []) (grant 8 (boost ∷ []) geared))
    ≡ current 3 (grant 8 (boost ∷ []) (grant 7 (slow ∷ []) geared))
grant_comm_example =
    grant_comm 3 7 8 (slow ∷ []) (boost ∷ []) geared geared-IsBalanced (omega arith)

revoke-grant_example : current 3 (revoke 8 (grant 8 (slow ∷ []) geared)) ≡ current 3 geared
unfolding grant install revoke add_modifiers add_modifier notify lookup insert
revoke-grant_example = revoke-grant 3 8 (slow ∷ []) geared geared-IsBalanced free
  where
    free : lookup 8 geared.grants ≡ none
    free = refl

abbrev capped : AttributeSet
capped = record geared { bounds = (3, record { minimum = pos 0; maximum = pos 15 }) ∷ [] }

snapshot-ids_example :
    IsAscending (map (λ v. v.attribute) (snapshot capped))
    × ((id : ℕ)
        → has id (map (λ v. v.attribute) (snapshot capped)) ≡ (
            has id (keys capped.base)
            || (has id (keys capped.flat_sum) || has id (keys capped.rate_sum))))
snapshot-ids_example = snapshot-ids capped

restore_base-base_state_example :
    (value_of 3 (restore_base (base_state capped) geared).base ≡ value_of 3 capped.base)
    × (lookup 3 (restore_base (base_state capped) geared).bounds ≡ lookup 3 capped.bounds)
restore_base-base_state_example = restore_base-base_state capped geared 3

abbrev haste : BuffSpec
haste = record {
  id = 5;
  tags = "haste" ∷ [];
  grants_immunity_to = [];
  max_stacks = pos 3;
  stack_policy = refresh;
  duration_ticks = pos 60;
  tenacity_affected = false;
  max_duration_ticks = pos 0;
  modifiers = boost ∷ [];
}

abbrev hasted : BuffInstance
hasted = record {
  instance_id = 2;
  spec = haste;
  stacks = pos 1;
  source = pos 9;
  applied_tick = pos 10;
  due_tick = pos 70;
}

abbrev older : BuffInstance
older = record hasted { instance_id = 1; spec = record haste { id = 4 } }

abbrev carrier : BuffContainer
carrier = record {
  sequence = 2;
  active = older ∷ hasted ∷ [];
  tenacity_bp = pos 1500;
  attributes = some geared;
}

carrier-IsValid : IsValid carrier
carrier-IsValid = record {
  issued = ((omega arith, omega arith), ((omega arith, omega arith), tt));
  unique = ((omega arith, tt), (tt, tt));
}

apply-IsValid_example : IsValid (apply haste (pos 30) (pos 9) carrier).container
apply-IsValid_example = apply-IsValid haste (pos 30) (pos 9) carrier (omega arith) carrier-IsValid

restore_buff_container-state_example :
    restore_buff_container (state carrier) ≡ some (record carrier { attributes = none })
restore_buff_container-state_example =
    restore_buff_container-state carrier carrier-IsValid (omega arith) (omega arith)

tick-Merge_example :
    Merge (tick (pos 70) carrier).1 (tick (pos 70) carrier).0.active carrier.active
    × All (IsOver (pos 70)) (tick (pos 70) carrier).1
    × All (IsRunning (pos 70)) (tick (pos 70) carrier).0.active
tick-Merge_example = tick-Merge (pos 70) carrier

tick-IsValid_example : IsValid (tick (pos 70) carrier).0
tick-IsValid_example = tick-IsValid (pos 70) carrier carrier-IsValid

dispel_complete_example :
    All (λ i. has_tag_of "haste" i ≡ false) (dispel "haste" (pos 0) carrier).0.active
dispel_complete_example = dispel_complete "haste" (pos 0) carrier (inl (omega arith))

-- Haste is granted under the id of its instance, and then comes without its modifiers.
abbrev granted_set : AttributeSet
granted_set = grant 2 (boost ∷ []) geared

abbrev granted_carrier : BuffContainer
granted_carrier = record carrier { attributes = some granted_set }

abbrev bare_haste : BuffSpec
bare_haste = record haste { modifiers = [] }

haste_held : held_by 2 (some granted_set) ≡ some (boost ∷ [])
unfolding grant install revoke add_modifiers add_modifier notify lookup insert
haste_held = refl

abbrev toy_hmac : List ℕ → List ℕ → List ℕ
toy_hmac key message = key ++ message

abbrev coordinates : List ℕ
coordinates = 77 ∷ 3 ∷ []
