-- ===== src/Compose/Accepted.antt =====
-- skillcompose/contract_validate.go: the conditions on a contract that ValidateContract checks.
use roost_skill.Common.{List, [], ◌∷◌, Option, some, All, String, ◌≡◌, ◌≢◌, map, ◌⊎◌}
use roost_skill.Common.Int.{pos, ◌≤ℤ◌}
use roost_skill.Compose.Contract.{
  SourceIdentity, SourceGrant, SourceObligation, SkillCompositionContract, CompositionBudgets,
}
use roost_skill.Compose.{pair_key, canonical}

-- No text of the list is the text `t`.
abbrev pub IsAbsent : String → List String → Type 0
IsAbsent t = All (λ u. t ≢ u)

-- Texts of which none is repeated.
abbrev pub AreDistinct : List String → Type 0
AreDistinct [] = Unit
AreDistinct (t ∷ ts) = IsAbsent t ts × AreDistinct ts

-- Texts of which none is empty or repeated.
abbrev pub AreKeys : List String → Type 0
AreKeys ts = All (λ t. t ≢ "") ts × AreDistinct ts

-- Some source has the id.
abbrev pub IsKnown : List SourceIdentity → String → Type 0
IsKnown [] id = ⊥
IsKnown (s ∷ ss) id = (s.skill_id ≡ id) ⊎ IsKnown ss id

abbrev pub grant_keys : List SourceGrant → List String
grant_keys = map (λ (g : SourceGrant). pair_key g.source_id g.feature)

abbrev pub obligation_keys : List SourceObligation → List String
obligation_keys = map (λ (o : SourceObligation). pair_key o.source_id o.key)

-- A grant of a known source for a feature, with some transforms, none of them repeated.
pub record IsGrant (sources : List SourceIdentity) (g : SourceGrant) : Type 0 where
  pub known : IsKnown sources g.source_id
  pub feature : g.feature ≢ ""
  pub some_transform : g.allowed_transforms ≢ []
  pub transforms : AreKeys g.allowed_transforms

pub record IsSource (s : SourceIdentity) : Type 0 where
  pub named : s.skill_id ≢ ""
  pub digested : s.gameplay_digest ≢ ""

pub record IsObligation (sources : List SourceIdentity) (o : SourceObligation) : Type 0 where
  pub known : IsKnown sources o.source_id
  pub named : o.key ≢ ""

-- Budgets of which none is negative.
abbrev pub AreBudgets : CompositionBudgets → Type 0
AreBudgets b =
    (pos 0 ≤ℤ b.targets)
    × (pos 0 ≤ℤ b.processes)
    × (pos 0 ≤ℤ b.mutations)
    × (pos 0 ≤ℤ b.events_per_root)
    × (pos 0 ≤ℤ b.random_sites)
    × (pos 0 ≤ℤ b.lifetime_ticks)

abbrev pub skill_ids : List SourceIdentity → List String
skill_ids = map (λ (s : SourceIdentity). s.skill_id)

-- What an accepted contract has.
pub record IsAccepted (seal : SkillCompositionContract → Option String)
    (c : SkillCompositionContract) : Type 0 where
  pub version : c.version ≡ "skillcompose/v2"
  pub authority_revision : c.authority_revision ≢ ""
  pub authority_digest : c.authority_digest ≢ ""
  pub policy : c.policy ≢ ""
  pub some_source : c.sources ≢ []
  pub some_digest : c.digest ≢ ""
  pub budgets : AreBudgets c.budgets
  pub sources : All IsSource c.sources
  pub source_ids : AreDistinct (skill_ids c.sources)
  pub grants : All (IsGrant c.sources) c.grants
  pub grants_distinct : AreDistinct (grant_keys c.grants)
  pub obligations : All (IsObligation c.sources) c.obligations
  pub obligations_distinct : AreDistinct (obligation_keys c.obligations)
  pub packages : AreKeys c.packages
  pub constraints : AreKeys c.constraints
  pub sealed : seal (canonical c) ≡ some c.digest
