-- ===== src/Compose.antt =====
-- skillcompose: contract_validate.go, canonical.go and matcher.go, and the data of contract.go,
-- policy.go and profile.go that they read.
pub mod Contract
pub mod Accepted
pub mod Sound
pub mod Complete
pub mod Matches
pub mod Graph
pub mod Reach
mod Examples
use Prim.Native.String.{compare as compare_text, ◌++◌ as concat}
use Prim.Native.Nat.{Ordering}
use text.Mathlib.Text.{◌==◌ as str_eq}
use roost_skill.Common.{
  sort_by, text_less, Bool, true, false, if◌then◌else◌, not, ◌&&◌, ◌||◌, List, [], ◌∷◌, Option,
  none, some, any, map, String, filter,
}
use roost_skill.Common.Int.{ℤ, pos, ltb_ℤ}
use Contract.{
  SourceIdentity, SourceGrant, SourceObligation, CompositionBudgets, SkillCompositionContract,
  is_empty,
}

-- `sources[id]`: the zero value is the empty text.
unfoldable pub digest_of : String → List SourceIdentity → String
digest_of id [] = ""
digest_of id (s ∷ ss) = if str_eq s.skill_id id then s.gameplay_digest else digest_of id ss

abbrev pub is_source : List SourceIdentity → String → Bool
is_source sources id = not (is_empty (digest_of id sources))

-- The loops of ValidateContract; `seen` holds what a loop has put into its map.
unfoldable pub sources_valid : List SourceIdentity → List SourceIdentity → Bool
unfolding digest_of
sources_valid seen [] = true
sources_valid seen (s ∷ ss) =
    not (is_empty s.skill_id)
    && not (is_empty s.gameplay_digest)
    && not (is_source seen s.skill_id)
    && sources_valid (s ∷ seen) ss

-- Texts that are not empty and not listed twice: transforms, package keys and constraint keys.
unfoldable pub texts_valid : List String → List String → Bool
texts_valid seen [] = true
texts_valid seen (t ∷ ts) =
    not (is_empty t) && not (any (str_eq t) seen) && texts_valid (t ∷ seen) ts

-- The key of a grant or an obligation in its map.
abbrev pub pair_key : String → String → String
pair_key source key = concat source (concat "\0" key)

abbrev pub has_transforms : List String → Bool
has_transforms [] = false
has_transforms (t ∷ ts) = true

unfoldable pub grants_valid : List SourceIdentity → List String → List SourceGrant → Bool
unfolding digest_of texts_valid
grants_valid sources seen [] = true
grants_valid sources seen (g ∷ gs) =
    is_source sources g.source_id
    && not (is_empty g.feature)
    && not (any (str_eq (pair_key g.source_id g.feature)) seen)
    && has_transforms g.allowed_transforms
    && texts_valid [] g.allowed_transforms
    && grants_valid sources (pair_key g.source_id g.feature ∷ seen) gs

unfoldable pub obligations_valid : List SourceIdentity → List String → List SourceObligation → Bool
unfolding digest_of
obligations_valid sources seen [] = true
obligations_valid sources seen (o ∷ os) =
    is_source sources o.source_id
    && not (is_empty o.key)
    && not (any (str_eq (pair_key o.source_id o.key)) seen)
    && obligations_valid sources (pair_key o.source_id o.key ∷ seen) os

abbrev is_nonneg : ℤ → Bool
is_nonneg z = not (ltb_ℤ z (pos 0))

unfoldable pub budgets_valid : CompositionBudgets → Bool
budgets_valid b =
    is_nonneg b.targets
    && is_nonneg b.processes
    && is_nonneg b.mutations
    && is_nonneg b.events_per_root
    && is_nonneg b.random_sites
    && is_nonneg b.lifetime_ticks

abbrev pub has_sources : List SourceIdentity → Bool
has_sources [] = false
has_sources (s ∷ ss) = true

unfoldable pub header_valid : SkillCompositionContract → Bool
header_valid c =
    str_eq c.version "skillcompose/v2"
    && not (is_empty c.authority_revision)
    && not (is_empty c.authority_digest)
    && not (is_empty c.policy)
    && has_sources c.sources
    && not (is_empty c.digest)

abbrev pair_less : String → String → String → String → Bool
pair_less s a t b = if not (str_eq s t) then text_less s t else text_less a b

abbrev pub grant_less : SourceGrant → SourceGrant → Bool
grant_less g h = pair_less g.source_id g.feature h.source_id h.feature

-- The contract that CanonicalContract encodes.
unfoldable pub canonical : SkillCompositionContract → SkillCompositionContract
unfolding sort_by
canonical c = record c {
  digest = "";
  sources = sort_by (λ s t. text_less s.skill_id t.skill_id) c.sources;
  grants =
      map
        (λ (g : SourceGrant). record g {
          allowed_transforms = sort_by text_less g.allowed_transforms;
        })
        (sort_by grant_less c.grants);
  obligations = sort_by (λ o p. pair_less o.source_id o.key p.source_id p.key) c.obligations;
  packages = sort_by text_less c.packages;
  constraints = sort_by text_less c.constraints;
}

abbrev pub digest_matches : Option String → String → Bool
digest_matches none digest = false
digest_matches (some d) digest = str_eq d digest

-- `seal` is the SHA-256 of the JSON of a contract, in hexadecimal, or an error. The answer is whether
-- the error is nil; every error is ErrContractInvalid or wraps it.
unfoldable pub validate_contract :
    (SkillCompositionContract → Option String) → SkillCompositionContract → Bool
unfolding header_valid budgets_valid sources_valid grants_valid obligations_valid texts_valid
    canonical
validate_contract seal c =
    header_valid c
    && budgets_valid c.budgets
    && sources_valid [] c.sources
    && grants_valid c.sources [] c.grants
    && obligations_valid c.sources [] c.obligations
    && texts_valid [] c.packages
    && texts_valid [] c.constraints
    && digest_matches (seal (canonical c)) c.digest

-- The field Operation stays empty.
pub record Match : Type 0 where
  pub source_id : String
  pub feature : String

abbrev pub match_of : SourceGrant → Match
match_of g = record { source_id = g.source_id; feature = g.feature }

-- `features` are those of the profile.
unfoldable pub match_features : List SourceGrant → List String → List Match
unfolding sort_by
match_features grants features =
    map match_of (filter (λ g. any (str_eq g.feature) features) (sort_by grant_less grants))
