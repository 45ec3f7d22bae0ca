-- ===== src/Compose/Contract.antt =====
-- skillcompose/contract.go, policy.go, profile.go: the data of contracts and of skill profiles. Texts
-- with a name of their own, such as FeatureKey, are texts.
use text.Mathlib.Text.{◌==◌ as str_eq}
use roost_skill.Common.{Bool, List, String}
use roost_skill.Common.Int.{ℤ}

abbrev pub is_empty : String → Bool
is_empty s = str_eq s ""

pub record SourceIdentity : Type 0 where
  pub skill_id : String
  pub gameplay_digest : String

pub record SourceGrant : Type 0 where
  pub source_id : String
  pub feature : String
  pub allowed_transforms : List String

pub record SourceObligation : Type 0 where
  pub source_id : String
  pub key : String

pub record CompositionBudgets : Type 0 where
  pub targets : ℤ
  pub processes : ℤ
  pub mutations : ℤ
  pub events_per_root : ℤ
  pub random_sites : ℤ
  pub lifetime_ticks : ℤ

-- A package and a constraint are their keys; the policy is its id.
pub record SkillCompositionContract : Type 0 where
  pub version : String
  pub sources : List SourceIdentity
  pub authority_revision : String
  pub authority_digest : String
  pub policy : String
  pub grants : List SourceGrant
  pub obligations : List SourceObligation
  pub packages : List String
  pub constraints : List String
  pub budgets : CompositionBudgets
  pub digest : String
