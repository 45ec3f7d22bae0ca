-- ===== src/Visibility/Mutations.antt =====
-- skillsync/visibility.go: FilterStateMutation and FilterPresentation.
use roost_skill.Common.{
  ℕ, Bool, if◌then◌else◌, not, ◌&&◌, ◌||◌, ◌==◌, List, [], Option, none, some, String,
}
use text.Mathlib.Text.{◌==◌ as str_eq}
use roost_skill.Common.Results.{ok, ◌>>=◌}
use roost_skill.Skill.Values.{Checked, redact_value}
use roost_skill.Visibility.{
  Policy, VisibilityField, clock, casts, cooldowns, resources, abilities, processes,
  process_spatial, policies, persistent_state, persistent_value, presentation, presentation_spatial,
  unknown, StateHandle, Reference, whole_field, to_state, to_ability, CastState, ProcessState,
  PersistentState, Binding, sees, shows_field, hidden_unless, spatial_unless, redaction,
}

pub data MutationKind : Type 0 where
  clock_changed cast_upsert cast_remove cooldown_upsert cooldown_remove : MutationKind
  resource_upsert resource_remove ability_upsert ability_remove : MutationKind
  process_upsert process_remove policy_upsert policy_remove : MutationKind
  persistent_upsert persistent_remove : MutationKind
  unknown_kind : String → MutationKind

pub record StateMutation : Type 0 where
  pub kind : MutationKind
  pub caster : ℕ
  pub owner : ℕ
  pub ability_handle : ℕ
  pub state_handle : StateHandle
  pub binding : Binding
  pub cast : Option CastState
  pub process : Option ProcessState
  pub persistent : Option PersistentState
  pub rest : String

abbrev is_zero_handle : StateHandle → Bool
is_zero_handle h = str_eq h.gameplay_digest "" && h.slot == 0 && h.shared == 0

abbrev pub handle_of : StateHandle → Option PersistentState → StateHandle
handle_of h none = h
handle_of h (some s) = if is_zero_handle h then s.handle else h

unfoldable pub mutation_visibility_field : StateMutation → VisibilityField × Reference
mutation_visibility_field m = elim m.kind [
  | clock_changed ↦ (clock, whole_field)
  | cast_upsert ↦ (casts, whole_field)
  | cast_remove ↦ (casts, whole_field)
  | cooldown_upsert ↦ (cooldowns, whole_field)
  | cooldown_remove ↦ (cooldowns, whole_field)
  | resource_upsert ↦ (resources, whole_field)
  | resource_remove ↦ (resources, whole_field)
  | ability_upsert ↦ (abilities, to_ability m.ability_handle)
  | ability_remove ↦ (abilities, to_ability m.ability_handle)
  | process_upsert ↦ (processes, whole_field)
  | process_remove ↦ (processes, whole_field)
  | policy_upsert ↦ (policies, whole_field)
  | policy_remove ↦ (policies, whole_field)
  | persistent_upsert ↦ (persistent_state, to_state (handle_of m.state_handle m.persistent))
  | persistent_remove ↦ (persistent_state, to_state (handle_of m.state_handle m.persistent))
  | unknown_kind name ↦ (unknown, whole_field)
]

-- The first entity that is set.
abbrev pub or_else : ℕ → ℕ → ℕ
or_else entity next = if entity == 0 then next else entity

abbrev pub cast_caster : Option CastState → ℕ
cast_caster none = 0
cast_caster (some c) = c.caster

abbrev pub process_owner : Option ProcessState → ℕ
process_owner none = 0
process_owner (some v) = v.owner

abbrev pub persistent_owner : Option PersistentState → ℕ
persistent_owner none = 0
persistent_owner (some s) = let binding = s.binding in binding.owner

unfoldable pub mutation_entity : StateMutation → ℕ
mutation_entity m = or_else m.caster (
    or_else m.owner (
      or_else (cast_caster m.cast)
        (or_else (process_owner m.process) (persistent_owner m.persistent))))

abbrev pub with_persistent : StateMutation → Option (Option PersistentState) → Option StateMutation
with_persistent m none = none
with_persistent m (some s) = some (record m { persistent = s })

-- The mutation that the runtime makes of a persistent state that is gone (skill/runtime_mutation.go).
abbrev pub removal : StateHandle → Binding → String → StateMutation
removal handle binding rest = record {
  kind = persistent_remove;
  caster = 0;
  owner = 0;
  ability_handle = 0;
  state_handle = handle;
  binding = binding;
  cast = none;
  process = none;
  persistent = none;
  rest = rest;
}

module _ (p : Policy) (observer : ℕ) where
  unfoldable pub mutation_cast : Option CastState → Checked (Option CastState)
  mutation_cast none = ok none
  mutation_cast (some c) = sees p observer c.primary_target >>= λ target.
      ok (some (record c { primary_target = hidden_unless target c.primary_target }))

  unfoldable pub mutation_process : Option ProcessState → Checked (Option ProcessState)
  mutation_process none = ok none
  mutation_process (some v) = do
    target ← sees p observer v.lifecycle_entity
    carry ← sees p observer v.carry_target
    shown ← shows_field p observer process_spatial whole_field
    ok (
        some (record v {
          lifecycle_entity = hidden_unless target v.lifecycle_entity;
          carry_target = hidden_unless carry v.carry_target;
          spatial = spatial_unless (p.redact_spatial || not shown) v.spatial;
        }))

  -- The outer option is none where the mutation is not shown.
  unfoldable pub mutation_persistent :
      Option PersistentState → Checked (Option (Option PersistentState))
  mutation_persistent none = ok (some none)
  mutation_persistent (some s) =
      let binding = s.binding in
      sees p observer binding.subject >>= λ subject.
      if not subject
      then ok none
      else shows_field p observer persistent_value (to_state s.handle) >>= λ shown.
          if not shown
          then ok none
          else redact_value (redaction p observer) s.value >>= λ value.
              ok (some (some (record s { value = value })))

  unfoldable pub shown_mutation : StateMutation → Checked (Option StateMutation)
  shown_mutation m = do
    cast ← mutation_cast m.cast
    process ← mutation_process m.process
    persistent ← mutation_persistent m.persistent
    ok (with_persistent (record m { cast = cast; process = process }) persistent)

  unfoldable pub filter_state_mutation : StateMutation → Checked (Option StateMutation)
  filter_state_mutation m =
      let field = mutation_visibility_field m in
      shows_field p observer field.0 field.1 >>= λ shown.
      if not shown
      then ok none
      else sees p observer (mutation_entity m) >>= λ allowed.
          if allowed then shown_mutation m else ok none

pub record Anchor : Type 0 where
  pub source : ℕ
  pub target : ℕ
  pub position : Option String
  pub direction : Option String
  pub path : List String

pub record PresentationEvent : Type 0 where
  pub source : ℕ
  pub primary_target : ℕ
  pub anchor : Anchor
  pub rest : String

abbrev pub no_place : Anchor → Anchor
no_place a = record a { position = none; direction = none; path = [] }

module _ (p : Policy) (observer : ℕ) where
  unfoldable pub shown_event : PresentationEvent → Checked PresentationEvent
  shown_event e = do
    let anchor = e.anchor
    anchor_target ← sees p observer anchor.target
    target ← sees p observer e.primary_target
    shown ← shows_field p observer presentation_spatial whole_field
    let seen = record anchor { target = hidden_unless anchor_target anchor.target }
    ok (record e {
      primary_target = hidden_unless target e.primary_target;
      anchor = if p.redact_spatial || not shown then no_place seen else seen;
    })

  unfoldable pub filter_presentation : PresentationEvent → Checked (Option PresentationEvent)
  filter_presentation e =
      let anchor = e.anchor in
      shows_field p observer presentation whole_field >>= λ field.
      if not field
      then ok none
      else sees p observer e.source >>= λ source.
          if not source
          then ok none
          else sees p observer anchor.source >>= λ anchor_source.
              if anchor_source then (shown_event e >>= λ x. ok (some x)) else ok none
