-- ===== src/Compose/Sound.antt =====
-- skillcompose/contract_validate.go: what ValidateContract has checked of a contract that it accepts.
use text.Mathlib.Text.{◌==◌ as str_eq}
use text.Mathlib.TextEquality.{eq_iff}
use roost_skill.Common.{
  Bool, true, false, not, ◌&&◌, ◌||◌, List, [], ◌∷◌, Option, some, none, any, All, All-implies,
  String, ◌≡◌, ◌≢◌, arith, inl, inr, sym, ap, Bool-cases,
}
use roost_skill.Compose.Contract.{
  SourceIdentity, SourceGrant, SourceObligation, SkillCompositionContract, CompositionBudgets,
  is_empty,
}
use roost_skill.Compose.{
  is_source, sources_valid, grants_valid, texts_valid, pair_key, obligations_valid, budgets_valid,
  header_valid, validate_contract, canonical, digest_matches, has_transforms, has_sources,
  digest_of,
}
use roost_skill.Compose.Accepted.{
  IsAbsent, AreDistinct, IsKnown, grant_keys, obligation_keys, IsGrant, IsSource, IsObligation,
  AreBudgets, skill_ids, IsAccepted,
}

both : (a b : Bool) → (a && b) ≡ true → (a ≡ true) × (b ≡ true)
both a b e = ground arith

not_text : (t u : String) → not (str_eq t u) ≡ true → t ≢ u
not_text t u h e = absurd (clash (str_eq t u) h ((eq_iff t u).1 e))
  where
    clash : (b : Bool) → not b ≡ true → b ≡ true → ⊥
    clash b h k = ground arith

any-IsAbsent :
    (t : String) (seen : List String) → not (any (str_eq t) seen) ≡ true → IsAbsent t seen
any-IsAbsent t [] h = tt
any-IsAbsent t (u ∷ seen) h =
    let r = neither (str_eq t u) (any (str_eq t) seen) h in
    (not_text t u r.0, any-IsAbsent t seen r.1)
  where
    neither : (a b : Bool) → not (a || b) ≡ true → (not a ≡ true) × (not b ≡ true)
    neither a b e = ground arith

-- Texts that are distinct, and not among those seen.
abbrev AreFresh : List String → List String → Type 0
AreFresh seen ts = All (λ t. IsAbsent t seen) ts × AreDistinct ts

AreFresh-cons :
    (t : String) (seen ts : List String)
    → IsAbsent t seen
    → AreFresh (t ∷ seen) ts
    → AreFresh seen (t ∷ ts)
AreFresh-cons t seen ts new h = (
  (new, All-implies (λ u. IsAbsent u (t ∷ seen)) (λ u. IsAbsent u seen) ts (λ u k. k.1) h.0),
  (All-implies (λ u. IsAbsent u (t ∷ seen)) (λ u. t ≢ u) ts (λ u k e. k.0 (sym e)) h.0, h.1),
)

texts_valid-AreKeys :
    (seen ts : List String) → texts_valid seen ts ≡ true → All (λ t. t ≢ "") ts × AreFresh seen ts
unfolding texts_valid
texts_valid-AreKeys seen [] e = (tt, (tt, tt))
texts_valid-AreKeys seen (t ∷ ts) e =
    let r = both (not (is_empty t) && not (any (str_eq t) seen)) (texts_valid (t ∷ seen) ts) e in
    let h = both (not (is_empty t)) (not (any (str_eq t) seen)) r.0 in
    let rest = texts_valid-AreKeys (t ∷ seen) ts r.1 in
    ((not_text t "" h.0, rest.0), AreFresh-cons t seen ts (any-IsAbsent t seen h.1) rest.1)

pub is_source-IsKnown :
    (id : String) (sources : List SourceIdentity) → is_source sources id ≡ true → IsKnown sources id
unfolding digest_of
is_source-IsKnown id [] h = cc
is_source-IsKnown id (s ∷ ss) h = elim (Bool-cases (str_eq s.skill_id id)) [
  | inl e ↦ inl ((eq_iff s.skill_id id).0 e)
  | inr e ↦ inr (is_source-IsKnown id ss (rw e at h))
]

-- An id that the map does not have, where every source has a digest.
unmapped_id :
    (id : String) (sources : List SourceIdentity)
    → All IsSource sources
    → not (is_source sources id) ≡ true
    → IsAbsent id (skill_ids sources)
unfolding digest_of
unmapped_id id [] d h = tt
unmapped_id id (s ∷ ss) d h = elim (Bool-cases (str_eq s.skill_id id)) [
  | inl e ↦
      let digested = (d.0).digested in
      absurd (
        digested
          ((eq_iff s.gameplay_digest "").0 (twice_not (is_empty s.gameplay_digest) (rw e at h))))
  | inr e ↦ (
    (λ same. absurd (false_true (str_eq s.skill_id id) e ((eq_iff s.skill_id id).1 (sym same)))),
    unmapped_id id ss d.1 (rw e at h),
  )
]
  where
    twice_not : (b : Bool) → not (not b) ≡ true → b ≡ true
    twice_not b h = ground arith

    false_true : (b : Bool) → b ≡ false → b ≡ true → ⊥
    false_true b h k = ground arith

sources_valid-IsSource :
    (seen ss : List SourceIdentity)
    → All IsSource seen
    → sources_valid seen ss ≡ true
    → All IsSource ss × AreFresh (skill_ids seen) (skill_ids ss)
unfolding sources_valid
sources_valid-IsSource seen [] d e = (tt, (tt, tt))
sources_valid-IsSource seen (s ∷ ss) d e =
    let named = not (is_empty s.skill_id) in
    let digested = not (is_empty s.gameplay_digest) in
    let fresh = not (is_source seen s.skill_id) in
    let r = both (named && digested && fresh) (sources_valid (s ∷ seen) ss) e in
    let g = both (named && digested) fresh r.0 in
    let h = both named digested g.0 in
    let source : IsSource s = record {
      named = not_text s.skill_id "" h.0;
      digested = not_text s.gameplay_digest "" h.1;
    } in
    let rest = sources_valid-IsSource (s ∷ seen) ss (source, d) r.1 in
    (
      (source, rest.0),
      AreFresh-cons s.skill_id (skill_ids seen) (skill_ids ss) (unmapped_id s.skill_id seen d g.1)
          rest.1,
    )

some_transform : (ts : List String) → has_transforms ts ≡ true → ts ≢ []
some_transform [] e f = cc
some_transform (t ∷ ts) e f = cc

grants_valid-IsGrant :
    (sources : List SourceIdentity) (seen : List String) (gs : List SourceGrant)
    → grants_valid sources seen gs ≡ true
    → All (IsGrant sources) gs × AreFresh seen (grant_keys gs)
unfolding grants_valid
grants_valid-IsGrant sources seen [] e = (tt, (tt, tt))
grants_valid-IsGrant sources seen (g ∷ gs) e =
    let key = pair_key g.source_id g.feature in
    let known = is_source sources g.source_id in
    let named = not (is_empty g.feature) in
    let fresh = not (any (str_eq key) seen) in
    let filled = has_transforms g.allowed_transforms in
    let listed = texts_valid [] g.allowed_transforms in
    let r =
      both (known && named && fresh && filled && listed) (grants_valid sources (key ∷ seen) gs) e in
    let a = both (known && named && fresh && filled) listed r.0 in
    let b = both (known && named && fresh) filled a.0 in
    let c = both (known && named) fresh b.0 in
    let d = both known named c.0 in
    let keys = texts_valid-AreKeys [] g.allowed_transforms a.1 in
    let grant : IsGrant sources g = record {
      known = is_source-IsKnown g.source_id sources d.0;
      feature = not_text g.feature "" d.1;
      some_transform = some_transform g.allowed_transforms b.1;
      transforms = (keys.0, keys.1.1);
    } in
    let rest = grants_valid-IsGrant sources (key ∷ seen) gs r.1 in
    ((grant, rest.0), AreFresh-cons key seen (grant_keys gs) (any-IsAbsent key seen c.1) rest.1)

obligations_valid-IsObligation :
    (sources : List SourceIdentity) (seen : List String) (os : List SourceObligation)
    → obligations_valid sources seen os ≡ true
    → All (IsObligation sources) os × AreFresh seen (obligation_keys os)
unfolding obligations_valid
obligations_valid-IsObligation sources seen [] e = (tt, (tt, tt))
obligations_valid-IsObligation sources seen (o ∷ os) e =
    let key = pair_key o.source_id o.key in
    let known = is_source sources o.source_id in
    let named = not (is_empty o.key) in
    let fresh = not (any (str_eq key) seen) in
    let r = both (known && named && fresh) (obligations_valid sources (key ∷ seen) os) e in
    let a = both (known && named) fresh r.0 in
    let b = both known named a.0 in
    let obligation : IsObligation sources o = record {
      known = is_source-IsKnown o.source_id sources b.0;
      named = not_text o.key "" b.1;
    } in
    let rest = obligations_valid-IsObligation sources (key ∷ seen) os r.1 in
    (
      (obligation, rest.0),
      AreFresh-cons key seen (obligation_keys os) (any-IsAbsent key seen a.1) rest.1,
    )

digest_matches_sealed :
    (d : Option String) (digest : String) → digest_matches d digest ≡ true → d ≡ some digest
digest_matches_sealed none digest h = cc
digest_matches_sealed (some d) digest h = ap some ((eq_iff d digest).0 h)

has_sources_some : (ss : List SourceIdentity) → has_sources ss ≡ true → ss ≢ []
has_sources_some [] e f = cc
has_sources_some (s ∷ ss) e f = cc

budgets_valid-AreBudgets : (b : CompositionBudgets) → budgets_valid b ≡ true → AreBudgets b
unfolding budgets_valid
budgets_valid-AreBudgets b e = ground arith

pub checks_hold :
    (seal : SkillCompositionContract → Option String) (c : SkillCompositionContract)
    → validate_contract seal c ≡ true
    → IsAccepted seal c
unfolding validate_contract header_valid
checks_hold seal c e =
    let money = budgets_valid c.budgets in
    let from = sources_valid [] c.sources in
    let given = grants_valid c.sources [] c.grants in
    let owed = obligations_valid c.sources [] c.obligations in
    let packed = texts_valid [] c.packages in
    let bound = texts_valid [] c.constraints in
    let h1 = str_eq c.version "skillcompose/v2" in
    let h2 = not (is_empty c.authority_revision) in
    let h3 = not (is_empty c.authority_digest) in
    let h4 = not (is_empty c.policy) in
    let h5 = has_sources c.sources in
    let h6 = not (is_empty c.digest) in
    let start = h1 && h2 && h3 && h4 && h5 && h6 in
    let r =
      both (start && money && from && given && owed && packed && bound)
        (digest_matches (seal (canonical c)) c.digest) e in
    let q = both (start && money && from && given && owed && packed) bound r.0 in
    let p = both (start && money && from && given && owed) packed q.0 in
    let o = both (start && money && from && given) owed p.0 in
    let g = both (start && money && from) given o.0 in
    let f = both (start && money) from g.0 in
    let s = both start money f.0 in
    let s6 = both (h1 && h2 && h3 && h4 && h5) h6 s.0 in
    let s5 = both (h1 && h2 && h3 && h4) h5 s6.0 in
    let s4 = both (h1 && h2 && h3) h4 s5.0 in
    let s3 = both (h1 && h2) h3 s4.0 in
    let s2 = both h1 h2 s3.0 in
    let sources = sources_valid-IsSource [] c.sources tt f.1 in
    let grants = grants_valid-IsGrant c.sources [] c.grants g.1 in
    let obligations = obligations_valid-IsObligation c.sources [] c.obligations o.1 in
    let packages = texts_valid-AreKeys [] c.packages p.1 in
    let constraints = texts_valid-AreKeys [] c.constraints q.1 in
    record {
      version = (eq_iff c.version "skillcompose/v2").0 s2.0;
      authority_revision = not_text c.authority_revision "" s2.1;
      authority_digest = not_text c.authority_digest "" s3.1;
      policy = not_text c.policy "" s4.1;
      some_source = has_sources_some c.sources s5.1;
      some_digest = not_text c.digest "" s6.1;
      budgets = budgets_valid-AreBudgets c.budgets s.1;
      sources = sources.0;
      source_ids = sources.1.1;
      grants = grants.0;
      grants_distinct = grants.1.1;
      obligations = obligations.0;
      obligations_distinct = obligations.1.1;
      packages = (packages.0, packages.1.1);
      constraints = (constraints.0, constraints.1.1);
      sealed = digest_matches_sealed (seal (canonical c)) c.digest r.1;
    }
