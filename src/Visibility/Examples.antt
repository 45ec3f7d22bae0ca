-- ===== src/Visibility/Examples.antt =====
-- Tests of the visibility policy, and its theorems at concrete records.
use roost_skill.Common.{ℕ, Bool, true, false, ◌||◌, ◌==◌, [], ◌∷◌, none, some, ◌≡◌, refl}
use roost_skill.Common.Int.{pos}
use roost_skill.Common.Results.{ok, Returns}
use roost_skill.Skill.Values.{
  entity, entity_list, effect_result, cons, nil, redact_value, missing, entity_kind,
  redact_entities, Checked,
}
use roost_skill.Skill.Values.Redaction.{ShowsOnly, redact_value-ShowsOnly}
use roost_skill.Visibility.{
  Policy, StateHandle, StateSnapshot, CastState, ProcessState, PersistentState,
  filter_state_snapshot, sees, shows_field, redaction, show_each, show_cast, show_process,
  show_persistent, no_spatial, VisibilityField, Reference,
}
use roost_skill.Visibility.Mutations.{
  StateMutation, removal, filter_state_mutation, PresentationEvent, filter_presentation,
}
use roost_skill.Visibility.Safety.{ShownAs}
use roost_skill.Visibility.Exposure.{
  EventShown, filter_state_mutation-removal, filter_presentation-EventShown,
}

-- Only the entities 1 and 2 may be seen.
abbrev sees_two : ℕ → ℕ → Checked Bool
sees_two observer e = ok (e == 1 || e == 2)

abbrev policy : Policy
policy = record {
  visible = some sees_two;
  field_visible = none;
  default_deny_fields = false;
  redact_spatial = true;
  redact_opaque = false;
}

abbrev seen_cast : CastState
seen_cast = record { caster = 1; primary_target = 7; rest = "" }

abbrev hidden_cast : CastState
hidden_cast = record { caster = 7; primary_target = 1; rest = "" }

abbrev moving : ProcessState
moving = record {
  owner = 2;
  lifecycle_entity = 1;
  carry_target = 7;
  spatial = record no_spatial { position = some "4,5" };
  rest = "";
}

abbrev handle : StateHandle
handle = record { gameplay_digest = "g"; slot = 1; shared = 0 }

abbrev kept_state : PersistentState
kept_state = record {
  handle = handle;
  binding = record { owner = 1; subject = 2; team = 0 };
  value = effect_result (cons (entity 7) (cons (entity_list (1 ∷ 7 ∷ [])) nil));
  rest = "";
}

abbrev snapshot : StateSnapshot
snapshot = record {
  tick = pos 9;
  world_revision = 3;
  casts = seen_cast ∷ hidden_cast ∷ [];
  cooldowns = [];
  skill_resources = [];
  abilities = [];
  processes = moving ∷ [];
  active_policies = [];
  persistent_states = kept_state ∷ [];
  latest_state_event_sequence = 1;
  latest_state_mutation_sequence = 1;
  latest_presentation_sequence = 1;
}

filtered :
    filter_state_snapshot policy 5 snapshot
    ≡ ok (record snapshot {
      casts = record seen_cast { primary_target = 0 } ∷ [];
      processes = record moving { carry_target = 0; spatial = no_spatial } ∷ [];
      persistent_states =
          record kept_state {
            value = effect_result (cons (missing entity_kind) (cons (entity_list (1 ∷ [])) nil));
          }
          ∷ [];
    })
unfolding filter_state_snapshot shows_field show_each show_cast sees show_process show_persistent
    redact_value redact_entities
filtered = refl

redact_value-ShowsOnly_example :
    Returns
      (λ w. ShowsOnly (redaction policy 5) w × (redact_value (redaction policy 5) w ≡ ok w))
      (redact_value (redaction policy 5) (entity_list (1 ∷ 7 ∷ 2 ∷ [])))
redact_value-ShowsOnly_example =
    redact_value-ShowsOnly (redaction policy 5) (entity_list (1 ∷ 7 ∷ 2 ∷ []))

abbrev gone : StateMutation
gone = removal handle (record { owner = 7; subject = 8; team = 0 }) ""

state_shown :
    shows_field policy 5 VisibilityField.persistent_state (Reference.to_state handle) ≡ ok true
unfolding shows_field
state_shown = refl

owner_hidden : sees policy 5 7 ≡ ok false
unfolding sees
owner_hidden = refl

filter_state_mutation-removal_example : filter_state_mutation policy 5 gone ≡ ok (some gone)
filter_state_mutation-removal_example =
    filter_state_mutation-removal policy 5 handle (record { owner = 7; subject = 8; team = 0 }) ""
      state_shown

abbrev event : PresentationEvent
event = record {
  source = 1;
  primary_target = 7;
  anchor = record { source = 2; target = 7; position = some "1,1"; direction = none; path = [] };
  rest = "";
}

filter_presentation-EventShown_example :
    Returns (ShownAs (EventShown policy 5)) (filter_presentation policy 5 event)
filter_presentation-EventShown_example = filter_presentation-EventShown policy 5 event
