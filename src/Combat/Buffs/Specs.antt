-- ===== src/Combat/Buffs/Specs.antt =====
-- combat/buffs.go: buff specs and instances.
use text.Mathlib.Text.{◌==◌ as str_eq}
use roost_skill.Common.{ℕ, Bool, List, map, String, any}
use roost_skill.Common.Int.{ℤ}
use roost_skill.Combat.FixedMath.{saturating_mul}
use roost_skill.Combat.Attributes.{Modifier}

-- BuffRefresh, BuffExtend, BuffIgnore, BuffIndependent, and every other uint8 value.
pub data BuffStackPolicy : Type 0 where
  refresh extend ignore independent : BuffStackPolicy
  unknown : ℕ → BuffStackPolicy

pub record BuffSpec : Type 0 where
  pub id : ℕ
  pub tags : List String
  pub grants_immunity_to : List String
  pub max_stacks : ℤ
  pub stack_policy : BuffStackPolicy
  pub duration_ticks : ℤ
  pub tenacity_affected : Bool
  pub max_duration_ticks : ℤ
  pub modifiers : List Modifier

pub data BuffApplyOutcome : Type 0 where
  applied stacked refreshed ignored blocked_immune : BuffApplyOutcome

pub record BuffInstance : Type 0 where
  pub instance_id : ℕ
  pub spec : BuffSpec
  pub stacks : ℤ
  pub source : ℤ
  pub applied_tick : ℤ
  pub due_tick : ℤ

unfoldable pub contains_tag : List String → String → Bool
contains_tag tags want = any (λ tag. str_eq tag want) tags

-- The modifiers of a spec at a number of stacks.
unfoldable pub scaled_modifiers : ℤ → List Modifier → List Modifier
scaled_modifiers stacks = map λ m. record {
  attribute = m.attribute;
  flat = saturating_mul m.flat stacks;
  rate_bp = saturating_mul m.rate_bp stacks;
}
