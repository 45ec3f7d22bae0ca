-- ===== src/Visibility/Safety.antt =====
-- skillsync/visibility.go: what a filtered snapshot shows.
use roost_skill.Common.{
  ℕ, Bool, true, false, not, ◌||◌, List, [], Option, none, some, ◌≡◌, refl, All,
}
use roost_skill.Common.Int.{pos}
use roost_skill.Common.Results.{ok, returned}
use roost_skill.Skill.Values.{RuntimeValue, redact_value}
use roost_skill.Skill.Values.Redaction.{ShowsOnly, redact_value-ShowsOnly}
use roost_skill.Visibility.{
  Policy, VisibilityField, clock, casts, cooldowns, resources, abilities, processes,
  process_spatial, policies, persistent_value, whole_field, to_state, CastState, OwnedState,
  ProcessState, PersistentState, sees, shows_field, hidden_unless, spatial_unless, redaction,
  Spatial, no_spatial, StateSnapshot,
}

abbrev pub ShownAs : {A : Type 0} → (A → Type 0) → Option A → Type 0
ShownAs P none = Unit
ShownAs P (some a) = P a

pub or_true : (b : Bool) → (b || true) ≡ true
or_true true = refl
or_true false = refl

module _ (p : Policy) (observer : ℕ) where
  abbrev pub Sees : ℕ → Type 0
  Sees entity = sees p observer entity ≡ ok true

  pub Sees-hidden_unless :
      (entity : ℕ) (seen : Bool)
      → sees p observer entity ≡ ok seen
      → Sees (hidden_unless seen entity)
  unfolding sees
  Sees-hidden_unless entity true e = e
  Sees-hidden_unless entity false e = refl

  -- A list of a field holds what may be seen, and nothing if the field is not shown.
  abbrev pub FieldShown : {A : Type 0} → VisibilityField → (A → Type 0) → List A → Type 0
  FieldShown field P xs = All P xs × (shows_field p observer field whole_field ≡ ok false → xs ≡ [])

  abbrev pub CastShown : CastState → Type 0
  CastShown c = Sees c.caster × Sees c.primary_target

  abbrev pub OwnedShown : OwnedState → Type 0
  OwnedShown v = Sees v.owner

  -- What is spatial is gone where it is to be redacted or its field is not shown.
  abbrev pub SpatialShown : VisibilityField → Spatial → Type 0
  SpatialShown field s =
      (p.redact_spatial ≡ true → s ≡ no_spatial)
      × (shows_field p observer field whole_field ≡ ok false → s ≡ no_spatial)

  abbrev pub ProcessShown : ProcessState → Type 0
  ProcessShown v =
      Sees v.owner
      × Sees v.lifecycle_entity
      × Sees v.carry_target
      × SpatialShown process_spatial v.spatial

  abbrev pub PersistentShown : PersistentState → Type 0
  PersistentShown s =
      let binding = s.binding in
      Sees binding.owner
      × Sees binding.subject
      × (shows_field p observer persistent_value (to_state s.handle) ≡ ok true)
      × ShowsOnly (redaction p observer) s.value

  pub spatial_unless-shows :
      (field : VisibilityField) (shown : Bool) (s : Spatial)
      → shows_field p observer field whole_field ≡ ok shown
      → SpatialShown field (spatial_unless (p.redact_spatial || not shown) s)
  spatial_unless-shows field true s e = (λ r. rw r refl, λ d. cc)
  spatial_unless-shows field false s e = (λ r. rw r refl, λ d. rw (or_true p.redact_spatial) refl)

  pub redacted-ShowsOnly :
      (v : RuntimeValue) {w : RuntimeValue}
      → redact_value (redaction p observer) v ≡ ok w
      → ShowsOnly (redaction p observer) w
  redacted-ShowsOnly v e =
      (returned
        (λ w. ShowsOnly (redaction p observer) w × (redact_value (redaction p observer) w ≡ ok w))
        (redact_value-ShowsOnly (redaction p observer) v) e).0

  -- What a filtered snapshot shows of each field.
  abbrev pub SnapshotShown : StateSnapshot → Type 0
  SnapshotShown s =
      (shows_field p observer clock whole_field ≡ ok false
        → (s.tick ≡ pos 0) × (s.world_revision ≡ 0))
      × FieldShown casts CastShown s.casts
      × FieldShown cooldowns OwnedShown s.cooldowns
      × FieldShown resources OwnedShown s.skill_resources
      × FieldShown abilities OwnedShown s.abilities
      × FieldShown processes ProcessShown s.processes
      × FieldShown policies OwnedShown s.active_policies
      × All PersistentShown s.persistent_states
