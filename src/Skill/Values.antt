-- ===== src/Skill/Values.antt =====
-- skill/runtime_value.go and skill/runtime_value_redaction.go: runtime values, and what redaction
-- removes from them. A present value is known by the fields that its type uses; what redaction does
-- not read of it is a text.
pub mod Redaction
use roost_skill.Common.{
  ℕ, Bool, true, false, if◌then◌else◌, not, ◌||◌, ◌==◌, List, [], ◌∷◌, Option, none, some, String,
}
use roost_skill.Common.Results.{Result, ok, fail, ◌>>=◌}

-- The base of a value's type; the other bases by their name.
pub data ValueKind : Type 0 where
  entity_kind entity_list_kind ability_kind status_instance_kind hit_kind : ValueKind
  position_kind direction_kind path_kind snapshot_token_kind process_kind : ValueKind
  effect_result_kind : ValueKind
  other_kind : String → ValueKind

pub data SpatialKind : Type 0 where
  position direction path : SpatialKind

pub data OpaqueKind : Type 0 where
  snapshot_token process : OpaqueKind

mutual
  pub data RuntimeValue : Type 0 where
    missing : ValueKind → RuntimeValue
    entity : ℕ → RuntimeValue
    entity_list : List ℕ → RuntimeValue
    ability : (owner : ℕ) → String → RuntimeValue
    status_instance : (target : ℕ) → String → RuntimeValue
    hit : (entity : ℕ) → String → RuntimeValue
    spatial : SpatialKind → String → RuntimeValue
    opaque : OpaqueKind → String → RuntimeValue
    effect_result : RuntimeValues → RuntimeValue
    plain : String → String → RuntimeValue

  pub data RuntimeValues : Type 0 where
    nil : RuntimeValues
    cons : RuntimeValue → RuntimeValues → RuntimeValues

pub data VisibilityError : Type 0 where
  runtime_value_visibility_required visibility_evaluator_required : VisibilityError
  evaluator_failed : ℕ → VisibilityError

abbrev pub Checked : Type 0 → Type 0
Checked A = Result VisibilityError A

pub record RedactionOptions : Type 0 where
  pub entity_visible : Option (ℕ → Checked Bool)
  pub redact_spatial : Bool
  pub redact_opaque : Bool

abbrev visible_by : Option (ℕ → Checked Bool) → ℕ → Checked Bool
visible_by none e = fail runtime_value_visibility_required
visible_by (some f) e = f e

abbrev pub value_visible : RedactionOptions → ℕ → Checked Bool
value_visible o e = if e == 0 then ok true else visible_by o.entity_visible e

abbrev spatial_kind : SpatialKind → ValueKind
spatial_kind position = position_kind
spatial_kind direction = direction_kind
spatial_kind path = path_kind

abbrev opaque_kind : OpaqueKind → ValueKind
opaque_kind snapshot_token = snapshot_token_kind
opaque_kind process = process_kind

unfoldable pub redact_entities : RedactionOptions → List ℕ → Checked (List ℕ)
redact_entities o [] = ok []
redact_entities o (e ∷ es) = value_visible o e >>= λ allowed.
    redact_entities o es >>= λ rest. ok (if allowed then e ∷ rest else rest)

unfoldable mutual
  pub redact_value : RedactionOptions → RuntimeValue → Checked RuntimeValue
  redact_value o (missing k) = ok (missing k)
  redact_value o (entity e) =
      value_visible o e >>= λ allowed. ok (if allowed then entity e else missing entity_kind)
  redact_value o (entity_list es) = redact_entities o es >>= λ kept. ok (entity_list kept)
  redact_value o (ability owner x) = value_visible o owner >>= λ allowed.
      ok (if allowed then ability owner x else missing ability_kind)
  redact_value o (status_instance target x) = value_visible o target >>= λ allowed.
      ok (if allowed then status_instance target x else missing status_instance_kind)
  redact_value o (hit e x) = value_visible o e >>= λ allowed.
      ok (if not allowed || o.redact_spatial then missing hit_kind else hit e x)
  redact_value o (spatial k x) =
      ok (if o.redact_spatial then missing (spatial_kind k) else spatial k x)
  redact_value o (opaque k x) = ok (if o.redact_opaque then missing (opaque_kind k) else opaque k x)
  redact_value o (effect_result fields) =
      redact_values o fields >>= λ redacted. ok (effect_result redacted)
  redact_value o (plain k x) = ok (plain k x)

  pub redact_values : RedactionOptions → RuntimeValues → Checked RuntimeValues
  redact_values o nil = ok nil
  redact_values o (cons v vs) =
      redact_value o v >>= λ redacted. redact_values o vs >>= λ rest. ok (cons redacted rest)
