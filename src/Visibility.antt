-- ===== src/Visibility.antt =====
-- skillsync/visibility.go: what of a snapshot, a mutation or an event an observer may see. An
-- observer is known by a number; of the snapshots' records, the fields that the policy reads or
-- writes, with the others as `rest`. On an error the partial projection that the code returns beside
-- it is not modelled. The text of a handle's reference is known by what it prints.
pub mod Mutations
pub mod Safety
pub mod Exposure
mod Examples
use roost_skill.Common.{
  ℕ, Bool, true, false, if◌then◌else◌, not, ◌&&◌, ◌||◌, ◌==◌, List, [], ◌∷◌, ◌++◌, Option, none,
  some, String,
}
use roost_skill.Common.Int.{ℤ, pos}
use roost_skill.Common.Results.{Result, ok, fail, ◌>>=◌}
use roost_skill.Skill.Values.{
  RuntimeValue, RedactionOptions, VisibilityError, visibility_evaluator_required, Checked,
  redact_value,
}

pub data VisibilityField : Type 0 where
  clock casts cooldowns resources abilities processes process_spatial policies : VisibilityField
  persistent_state persistent_value presentation presentation_spatial unknown : VisibilityField

pub record StateHandle : Type 0 where
  pub gameplay_digest : String
  pub slot : ℕ
  pub shared : ℕ

-- The third argument of a field evaluator.
pub data Reference : Type 0 where
  whole_field : Reference
  to_state : StateHandle → Reference
  to_ability : ℕ → Reference

pub record Policy : Type 0 where
  pub visible : Option (ℕ → ℕ → Checked Bool)
  pub field_visible : Option (ℕ → VisibilityField → Reference → Checked Bool)
  pub default_deny_fields : Bool
  pub redact_spatial : Bool
  pub redact_opaque : Bool

abbrev evaluated : Option (ℕ → ℕ → Checked Bool) → ℕ → ℕ → Checked Bool
evaluated none observer entity = fail visibility_evaluator_required
evaluated (some f) observer entity = f observer entity

unfoldable pub sees : Policy → ℕ → ℕ → Checked Bool
sees p observer entity = if entity == 0 then ok true else evaluated p.visible observer entity

abbrev field_evaluated :
    Option (ℕ → VisibilityField → Reference → Checked Bool)
    → Bool
    → ℕ
    → VisibilityField
    → Reference
    → Checked Bool
field_evaluated none deny observer field ref = ok (not deny)
field_evaluated (some f) deny observer field ref = f observer field ref

unfoldable pub shows_field : Policy → ℕ → VisibilityField → Reference → Checked Bool
shows_field p observer field ref =
    field_evaluated p.field_visible p.default_deny_fields observer field ref

pub record CastState : Type 0 where
  pub caster : ℕ
  pub primary_target : ℕ
  pub rest : String

-- A cooldown, a resource or a policy with its caster, or an ability with its owner.
pub record OwnedState : Type 0 where
  pub owner : ℕ
  pub rest : String

-- The positions and directions of a motion, each none if it is the zero value.
pub record Spatial : Type 0 where
  pub position : Option String
  pub trajectory_position : Option String
  pub origin : Option String
  pub direction : Option String
  pub frame_anchor : Option String

abbrev pub no_spatial : Spatial
no_spatial = record {
  position = none;
  trajectory_position = none;
  origin = none;
  direction = none;
  frame_anchor = none;
}

pub record ProcessState : Type 0 where
  pub owner : ℕ
  pub lifecycle_entity : ℕ
  pub carry_target : ℕ
  pub spatial : Spatial
  pub rest : String

pub record Binding : Type 0 where
  pub owner : ℕ
  pub subject : ℕ
  pub team : ℕ

pub record PersistentState : Type 0 where
  pub handle : StateHandle
  pub binding : Binding
  pub value : RuntimeValue
  pub rest : String

pub record StateSnapshot : Type 0 where
  pub tick : ℤ
  pub world_revision : ℕ
  pub casts : List CastState
  pub cooldowns : List OwnedState
  pub skill_resources : List OwnedState
  pub abilities : List OwnedState
  pub processes : List ProcessState
  pub active_policies : List OwnedState
  pub persistent_states : List PersistentState
  pub latest_state_event_sequence : ℕ
  pub latest_state_mutation_sequence : ℕ
  pub latest_presentation_sequence : ℕ

abbrev pub redaction : Policy → ℕ → RedactionOptions
redaction p observer = record {
  entity_visible = some (λ entity. sees p observer entity);
  redact_spatial = p.redact_spatial;
  redact_opaque = p.redact_opaque;
}

abbrev pub hidden_unless : Bool → ℕ → ℕ
hidden_unless seen entity = if seen then entity else 0

abbrev add_shown : {A : Type 0} → Option A → List A → List A
add_shown none rest = rest
add_shown (some a) rest = a ∷ rest

-- A loop that appends what it keeps of each entry, until an error.
unfoldable pub show_each : {A : Type 0} → (A → Checked (Option A)) → List A → Checked (List A)
show_each step [] = ok []
show_each step (a ∷ rest) =
    step a >>= λ shown. show_each step rest >>= λ more. ok (add_shown shown more)

-- An entry is shown where a test allows it.
abbrev pub show_if : {A : Type 0} → Checked Bool → Checked A → Checked (Option A)
show_if test entry = test >>= λ allowed. if allowed then (entry >>= λ a. ok (some a)) else ok none

-- The loops of FilterStateSnapshot, each under its field.
abbrev pub show_field :
    {A : Type 0}
    → Policy
    → ℕ
    → VisibilityField
    → (A → Checked (Option A))
    → List A
    → Checked (List A)
show_field p observer field step entries = shows_field p observer field whole_field >>= λ shown.
    if shown then show_each step entries else ok []

abbrev pub spatial_unless : Bool → Spatial → Spatial
spatial_unless hidden s = if hidden then no_spatial else s

module _ (p : Policy) (observer : ℕ) where
  unfoldable pub show_cast : CastState → Checked (Option CastState)
  show_cast c = show_if (sees p observer c.caster) (
      sees p observer c.primary_target >>= λ target.
      ok (record c { primary_target = hidden_unless target c.primary_target }))

  unfoldable pub show_owned : OwnedState → Checked (Option OwnedState)
  show_owned v = show_if (sees p observer v.owner) (ok v)

  unfoldable pub show_process : Bool → ProcessState → Checked (Option ProcessState)
  show_process shown v = show_if (sees p observer v.owner) (
      sees p observer v.lifecycle_entity >>= λ target. sees p observer v.carry_target >>= λ carry.
      ok (record v {
        lifecycle_entity = hidden_unless target v.lifecycle_entity;
        carry_target = hidden_unless carry v.carry_target;
        spatial = spatial_unless (p.redact_spatial || not shown) v.spatial;
      }))

  abbrev redacted_state : PersistentState → Checked PersistentState
  redacted_state v =
      redact_value (redaction p observer) v.value >>= λ value. ok (record v { value = value })

  unfoldable pub show_persistent : PersistentState → Checked (Option PersistentState)
  show_persistent v =
      let binding = v.binding in
      shows_field p observer persistent_state (to_state v.handle) >>= λ state.
      if not state
      then ok none
      else sees p observer binding.owner >>= λ owner. sees p observer binding.subject >>= λ subject.
          if owner && subject
          then show_if (shows_field p observer persistent_value (to_state v.handle))
              (redacted_state v)
          else ok none

  unfoldable pub filter_state_snapshot : StateSnapshot → Checked StateSnapshot
  filter_state_snapshot s = do
    now ← shows_field p observer clock whole_field
    shown_casts ← show_field p observer casts show_cast s.casts
    shown_cooldowns ← show_field p observer cooldowns show_owned s.cooldowns
    shown_resources ← show_field p observer resources show_owned s.skill_resources
    shown_abilities ← show_field p observer abilities show_owned s.abilities
    processes_shown ← shows_field p observer processes whole_field
    spatial_shown ← shows_field p observer process_spatial whole_field
    shown_processes ←
        if processes_shown then show_each (show_process spatial_shown) s.processes else ok []
    shown_policies ← show_field p observer policies show_owned s.active_policies
    shown_states ← show_each show_persistent s.persistent_states
    ok (record s {
      tick = if now then s.tick else pos 0;
      world_revision = if now then s.world_revision else 0;
      casts = shown_casts;
      cooldowns = shown_cooldowns;
      skill_resources = shown_resources;
      abilities = shown_abilities;
      processes = shown_processes;
      active_policies = shown_policies;
      persistent_states = shown_states;
    })
