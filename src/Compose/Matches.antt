-- ===== src/Compose/Matches.antt =====
-- skillcompose/matcher.go: which matches MatchFeatures lists.
use text.Mathlib.Text.{◌==◌ as str_eq}
use roost_skill.Common.{
  any-sort_by, sort_by, Bool, ◌&&◌, List, [], ◌∷◌, any, map, String, filter, ◌≡◌, refl, ◌∙◌, arith,
}
use roost_skill.Compose.Contract.{SourceGrant}
use roost_skill.Compose.{grant_less, Match, match_of, match_features}

any-matches :
    (p : Match → Bool) (q : SourceGrant → Bool) (gs : List SourceGrant)
    → any p (map match_of (filter q gs)) ≡ any (λ g. q g && p (match_of g)) gs
any-matches p q [] = refl
any-matches p q (g ∷ gs) = ground (arith, any-matches p q gs)

-- MatchFeatures lists a match with a property just where a grant of the contract, in whatever order
-- they are, has a feature of the profile and a match with that property: none is missing, and none is
-- invented.
pub match_features_lem :
    (p : Match → Bool) (grants : List SourceGrant) (features : List String)
    → any p (match_features grants features)
      ≡ any (λ g. any (str_eq g.feature) features && p (match_of g)) grants
unfolding match_features
match_features_lem p grants features =
    any-matches p (λ g. any (str_eq g.feature) features) (sort_by grant_less grants)
    ∙ any-sort_by grant_less (λ g. any (str_eq g.feature) features && p (match_of g)) grants
