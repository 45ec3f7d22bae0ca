-- ===== src/Compose/Complete.antt =====
-- skillcompose/contract_validate.go: what a contract needs to be accepted.
use text.Mathlib.Text.{◌==◌ as str_eq}
use text.Mathlib.TextEquality.{eq_iff}
use roost_skill.Common.{
  Bool, true, false, not, ◌&&◌, ◌||◌, List, [], ◌∷◌, Option, any, All, String, ◌≡◌, ◌≢◌, refl,
  arith, ◌⊎◌, inl, inr, sym, Bool-cases, ◌↔◌,
}
use roost_skill.Compose.Contract.{
  SourceIdentity, SourceGrant, SourceObligation, SkillCompositionContract, CompositionBudgets,
  is_empty,
}
use roost_skill.Compose.{
  is_source, sources_valid, grants_valid, texts_valid, pair_key, obligations_valid, budgets_valid,
  header_valid, validate_contract, canonical, digest_matches, has_transforms, has_sources,
  digest_of,
}
use roost_skill.Compose.Accepted.{
  IsAbsent, AreDistinct, AreKeys, IsKnown, grant_keys, obligation_keys, IsGrant, IsSource,
  IsObligation, AreBudgets, skill_ids, IsAccepted,
}
use roost_skill.Compose.Sound.{checks_hold, is_source-IsKnown}

pair_true : (a b : Bool) → a ≡ true → b ≡ true → (a && b) ≡ true
pair_true a b h k = ground arith

differ_test : (t u : String) → t ≢ u → not (str_eq t u) ≡ true
differ_test t u h = elim (Bool-cases (str_eq t u)) [
  | inl e ↦ absurd (h ((eq_iff t u).0 e))
  | inr e ↦ rw e refl
]

absent_test : (t : String) (seen : List String) → IsAbsent t seen → not (any (str_eq t) seen) ≡ true
absent_test t [] h = refl
absent_test t (u ∷ seen) h =
    neither (str_eq t u) (any (str_eq t) seen) (differ_test t u h.0) (absent_test t seen h.1)
  where
    neither : (a b : Bool) → not a ≡ true → not b ≡ true → not (a || b) ≡ true
    neither a b h k = ground arith

-- Texts that are distinct, and not among those seen.
abbrev AreFresh : List String → List String → Type 0
AreFresh seen ts = All (λ t. IsAbsent t seen) ts × AreDistinct ts

joined :
    (t : String) (seen ts : List String)
    → IsAbsent t ts
    → All (λ u. IsAbsent u seen) ts
    → All (λ u. IsAbsent u (t ∷ seen)) ts
joined t seen [] h k = tt
joined t seen (u ∷ us) h k = (((λ e. h.0 (sym e)), k.0), joined t seen us h.1 k.1)

AreFresh-tail :
    (t : String) (seen ts : List String) → AreFresh seen (t ∷ ts) → AreFresh (t ∷ seen) ts
AreFresh-tail t seen ts h = (joined t seen ts h.1.0 h.0.1, h.1.1)

none_seen : (ts : List String) → All (λ t. IsAbsent t []) ts
none_seen [] = tt
none_seen (t ∷ ts) = (tt, none_seen ts)

texts_pass :
    (seen ts : List String) → All (λ t. t ≢ "") ts → AreFresh seen ts → texts_valid seen ts ≡ true
unfolding texts_valid
texts_pass seen [] h k = refl
texts_pass seen (t ∷ ts) h k =
    pair_true (not (is_empty t) && not (any (str_eq t) seen)) (texts_valid (t ∷ seen) ts)
      (pair_true (not (is_empty t)) (not (any (str_eq t) seen)) (differ_test t "" h.0)
        (absent_test t seen k.0.0))
      (texts_pass (t ∷ seen) ts h.1 (AreFresh-tail t seen ts k))

keys_pass : (ts : List String) → AreKeys ts → texts_valid [] ts ≡ true
keys_pass ts h = texts_pass [] ts h.0 (none_seen ts, h.1)

-- Where every source has a digest, the map has the known ids, and no others.
known_test :
    (id : String) (sources : List SourceIdentity)
    → All IsSource sources
    → IsKnown sources id
    → is_source sources id ≡ true
unfolding digest_of
known_test id [] d h = absurd h
known_test id (s ∷ ss) d h = elim (Bool-cases (str_eq s.skill_id id)) [
  | inl e ↦ rw e (let here = d.0 in differ_test s.gameplay_digest "" here.digested)
  | inr e ↦ rw e (known_test id ss d.1 (later h e))
]
  where
    later : (s.skill_id ≡ id) ⊎ IsKnown ss id → str_eq s.skill_id id ≡ false → IsKnown ss id
    later (inl h) e = absurd (clash (str_eq s.skill_id id) e ((eq_iff s.skill_id id).1 h))
      where
        clash : (b : Bool) → b ≡ false → b ≡ true → ⊥
        clash b h k = ground arith
    later (inr h) e = h

fresh_test :
    (id : String) (sources : List SourceIdentity)
    → IsAbsent id (skill_ids sources)
    → not (is_source sources id) ≡ true
fresh_test id sources h = elim (Bool-cases (is_source sources id)) [
  | inl e ↦ absurd (unknown sources h (is_source-IsKnown id sources e))
  | inr e ↦ rw e refl
]
  where
    unknown : (ss : List SourceIdentity) → IsAbsent id (skill_ids ss) → IsKnown ss id → ⊥
    unknown [] h k = k
    unknown (s ∷ ss) h (inl k) = h.0 (sym k)
    unknown (s ∷ ss) h (inr k) = unknown ss h.1 k

sources_pass :
    (seen ss : List SourceIdentity)
    → All IsSource ss
    → AreFresh (skill_ids seen) (skill_ids ss)
    → sources_valid seen ss ≡ true
unfolding sources_valid
sources_pass seen [] h k = refl
sources_pass seen (s ∷ ss) h k =
    let named = not (is_empty s.skill_id) in
    let digested = not (is_empty s.gameplay_digest) in
    let here = h.0 in
    pair_true (named && digested && not (is_source seen s.skill_id)) (sources_valid (s ∷ seen) ss)
      (pair_true (named && digested) (not (is_source seen s.skill_id))
        (pair_true named digested (differ_test s.skill_id "" here.named)
          (differ_test s.gameplay_digest "" here.digested))
        (fresh_test s.skill_id seen k.0.0))
      (sources_pass (s ∷ seen) ss h.1 (AreFresh-tail s.skill_id (skill_ids seen) (skill_ids ss) k))

filled_test : (ts : List String) → ts ≢ [] → has_transforms ts ≡ true
filled_test [] h = absurd (h refl)
filled_test (t ∷ ts) h = refl

module _ (sources : List SourceIdentity) (digests : All IsSource sources) where
  grants_pass :
      (seen : List String) (gs : List SourceGrant)
      → All (IsGrant sources) gs
      → AreFresh seen (grant_keys gs)
      → grants_valid sources seen gs ≡ true
  unfolding grants_valid
  grants_pass seen [] h k = refl
  grants_pass seen (g ∷ gs) h k =
      let grant = h.0 in
      let key = pair_key g.source_id g.feature in
      let known = is_source sources g.source_id in
      let named = not (is_empty g.feature) in
      let fresh = not (any (str_eq key) seen) in
      let filled = has_transforms g.allowed_transforms in
      let listed = texts_valid [] g.allowed_transforms in
      pair_true (known && named && fresh && filled && listed) (grants_valid sources (key ∷ seen) gs)
        (pair_true (known && named && fresh && filled) listed
          (pair_true (known && named && fresh) filled
            (pair_true (known && named) fresh
              (pair_true known named (known_test g.source_id sources digests grant.known)
                (differ_test g.feature "" grant.feature))
              (absent_test key seen k.0.0))
            (filled_test g.allowed_transforms grant.some_transform))
          (keys_pass g.allowed_transforms grant.transforms))
        (grants_pass (key ∷ seen) gs h.1 (AreFresh-tail key seen (grant_keys gs) k))

  obligations_pass :
      (seen : List String) (os : List SourceObligation)
      → All (IsObligation sources) os
      → AreFresh seen (obligation_keys os)
      → obligations_valid sources seen os ≡ true
  unfolding obligations_valid
  obligations_pass seen [] h k = refl
  obligations_pass seen (o ∷ os) h k =
      let obligation = h.0 in
      let key = pair_key o.source_id o.key in
      let known = is_source sources o.source_id in
      let named = not (is_empty o.key) in
      let fresh = not (any (str_eq key) seen) in
      pair_true (known && named && fresh) (obligations_valid sources (key ∷ seen) os)
        (pair_true (known && named) fresh
          (pair_true known named (known_test o.source_id sources digests obligation.known)
            (differ_test o.key "" obligation.named))
          (absent_test key seen k.0.0))
        (obligations_pass (key ∷ seen) os h.1 (AreFresh-tail key seen (obligation_keys os) k))

budgets_pass : (b : CompositionBudgets) → AreBudgets b → budgets_valid b ≡ true
unfolding budgets_valid
budgets_pass b (h1, h2, h3, h4, h5, h6) = ground arith

some_source_test : (ss : List SourceIdentity) → ss ≢ [] → has_sources ss ≡ true
some_source_test [] h = absurd (h refl)
some_source_test (s ∷ ss) h = refl

header_pass :
    (seal : SkillCompositionContract → Option String) (c : SkillCompositionContract)
    → IsAccepted seal c
    → header_valid c ≡ true
unfolding header_valid
header_pass seal c a =
    let h1 = str_eq c.version "skillcompose/v2" in
    let h2 = not (is_empty c.authority_revision) in
    let h3 = not (is_empty c.authority_digest) in
    let h4 = not (is_empty c.policy) in
    let h5 = has_sources c.sources in
    let h6 = not (is_empty c.digest) in
    pair_true (h1 && h2 && h3 && h4 && h5) h6
      (pair_true (h1 && h2 && h3 && h4) h5
        (pair_true (h1 && h2 && h3) h4
          (pair_true (h1 && h2) h3
            (pair_true h1 h2 ((eq_iff c.version "skillcompose/v2").1 a.version)
              (differ_test c.authority_revision "" a.authority_revision))
            (differ_test c.authority_digest "" a.authority_digest))
          (differ_test c.policy "" a.policy))
        (some_source_test c.sources a.some_source))
      (differ_test c.digest "" a.some_digest)

checks_pass :
    (seal : SkillCompositionContract → Option String) (c : SkillCompositionContract)
    → IsAccepted seal c
    → validate_contract seal c ≡ true
unfolding validate_contract
checks_pass seal c a =
    let start = header_valid c in
    let money = budgets_valid c.budgets in
    let from = sources_valid [] c.sources in
    let given = grants_valid c.sources [] c.grants in
    let owed = obligations_valid c.sources [] c.obligations in
    let packed = texts_valid [] c.packages in
    let bound = texts_valid [] c.constraints in
    pair_true (start && money && from && given && owed && packed && bound)
      (digest_matches (seal (canonical c)) c.digest)
      (pair_true (start && money && from && given && owed && packed) bound
        (pair_true (start && money && from && given && owed) packed
          (pair_true (start && money && from && given) owed
            (pair_true (start && money && from) given
              (pair_true (start && money) from
                (pair_true start money (header_pass seal c a) (budgets_pass c.budgets a.budgets))
                (sources_pass [] c.sources a.sources
                  (none_seen (skill_ids c.sources), a.source_ids)))
              (grants_pass c.sources a.sources [] c.grants a.grants
                (none_seen (grant_keys c.grants), a.grants_distinct)))
            (obligations_pass c.sources a.sources [] c.obligations a.obligations
              (none_seen (obligation_keys c.obligations), a.obligations_distinct)))
          (keys_pass c.packages a.packages))
        (keys_pass c.constraints a.constraints))
      (rw (a.sealed) ((eq_iff c.digest c.digest).1 refl))

-- ValidateContract accepts a contract just where it has the version skillcompose/v2, an authority with
-- revision and digest, a policy, at least one source, and a digest; no negative budget; sources with an
-- id and a digest, no id twice; grants each of a known source and for a feature, with at least one
-- transform, none empty or twice, no key of source and feature twice; obligations each of a known
-- source and with a key, no key of source and obligation twice; package keys and constraint keys not
-- empty, none twice; and its digest is that of its canonical form.
pub validate_contract-IsAccepted :
    (seal : SkillCompositionContract → Option String) (c : SkillCompositionContract)
    → (validate_contract seal c ≡ true) ↔ IsAccepted seal c
validate_contract-IsAccepted seal c = (checks_hold seal c, checks_pass seal c)
