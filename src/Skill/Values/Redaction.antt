-- ===== src/Skill/Values/Redaction.antt =====
-- skill/runtime_value_redaction.go: what a redacted value shows.
use roost_skill.Common.{
  ℕ, Bool, true, false, if◌then◌else◌, not, ◌||◌, List, [], ◌∷◌, ◌≡◌, refl, subst, String, All,
  if_cases,
}
use roost_skill.Common.Results.{Result, ok, fail, ◌>>=◌, Returns, bind-Returns}
use roost_skill.Skill.Values.{
  RuntimeValue, missing, entity, entity_list, ability, status_instance, hit, spatial, opaque,
  effect_result, plain, RuntimeValues, nil, cons, RedactionOptions, value_visible, redact_entities,
  redact_value, redact_values, VisibilityError, entity_kind, ability_kind, status_instance_kind,
  hit_kind,
}

-- The evaluator lets the entity be seen.
abbrev pub IsVisible : RedactionOptions → ℕ → Type 0
IsVisible o e = value_visible o e ≡ ok true

-- A value names visible entities only, and nothing spatial or opaque that is to be removed.
unfoldable mutual
  pub ShowsOnly : RedactionOptions → RuntimeValue → Type 0
  ShowsOnly o (missing k) = Unit
  ShowsOnly o (entity e) = IsVisible o e
  ShowsOnly o (entity_list es) = All (IsVisible o) es
  ShowsOnly o (ability owner x) = IsVisible o owner
  ShowsOnly o (status_instance target x) = IsVisible o target
  ShowsOnly o (hit e x) = IsVisible o e × (o.redact_spatial ≡ false)
  ShowsOnly o (spatial k x) = o.redact_spatial ≡ false
  ShowsOnly o (opaque k x) = o.redact_opaque ≡ false
  ShowsOnly o (effect_result fields) = AllShowOnly o fields
  ShowsOnly o (plain k x) = Unit

  pub AllShowOnly : RedactionOptions → RuntimeValues → Type 0
  AllShowOnly o nil = Unit
  AllShowOnly o (cons v vs) = ShowsOnly o v × AllShowOnly o vs

redact_entities-IsVisible :
    (o : RedactionOptions) (es : List ℕ) → Returns (All (IsVisible o)) (redact_entities o es)
unfolding redact_entities
redact_entities-IsVisible o [] = tt
redact_entities-IsVisible o (e ∷ es) =
    bind-Returns (All (IsVisible o)) (value_visible o e) _ λ allowed seen.
      bind-Returns (All (IsVisible o)) (redact_entities o es) _ λ rest kept.
        keep allowed seen rest
          (subst (Returns (All (IsVisible o))) kept (redact_entities-IsVisible o es))
  where
    keep :
        (allowed : Bool)
        → value_visible o e ≡ ok allowed
        → (rest : List ℕ) → All (IsVisible o) rest
        → All (IsVisible o) (if allowed then e ∷ rest else rest)
    keep true seen rest h = (seen, h)
    keep false seen rest h = h

-- Keeps a value of a visible entity.
shown_if :
    (P : RuntimeValue → Type 0) (o : RedactionOptions) (e : ℕ) (v w : RuntimeValue)
    → (IsVisible o e → P v)
    → P w
    → Returns P (value_visible o e >>= λ allowed. ok (if allowed then v else w))
shown_if P o e v w h k = bind-Returns P (value_visible o e) _ λ allowed seen. pick allowed seen
  where
    pick : (allowed : Bool) → value_visible o e ≡ ok allowed → P (if allowed then v else w)
    pick true seen = h seen
    pick false seen = k

hit_shown :
    (o : RedactionOptions) (e : ℕ) (x : String) (allowed : Bool)
    → value_visible o e ≡ ok allowed
    → ShowsOnly o (if not allowed || o.redact_spatial then missing hit_kind else hit e x)
unfolding ShowsOnly
hit_shown o e x false seen = tt
hit_shown o e x true seen = if_cases (ShowsOnly o) o.redact_spatial (λ _. tt) (λ f. (seen, f))

mutual
  unfolding redact_value redact_values ShowsOnly AllShowOnly

  redact_value-shows :
      (o : RedactionOptions) (v : RuntimeValue) → Returns (ShowsOnly o) (redact_value o v)
  redact_value-shows o (missing k) = tt
  redact_value-shows o (entity e) =
      shown_if (ShowsOnly o) o e (entity e) (missing entity_kind) (λ h. h) tt
  redact_value-shows o (entity_list es) =
      bind-Returns (ShowsOnly o) (redact_entities o es) _
        λ kept e. subst (Returns (All (IsVisible o))) e (redact_entities-IsVisible o es)
  redact_value-shows o (ability owner x) =
      shown_if (ShowsOnly o) o owner (ability owner x) (missing ability_kind) (λ h. h) tt
  redact_value-shows o (status_instance target x) =
      shown_if (ShowsOnly o) o target (status_instance target x) (missing status_instance_kind)
        (λ h. h) tt
  redact_value-shows o (hit e x) =
      bind-Returns (ShowsOnly o) (value_visible o e) _ λ allowed seen. hit_shown o e x allowed seen
  redact_value-shows o (spatial k x) = if_cases (ShowsOnly o) o.redact_spatial (λ _. tt) (λ e. e)
  redact_value-shows o (opaque k x) = if_cases (ShowsOnly o) o.redact_opaque (λ _. tt) (λ e. e)
  redact_value-shows o (effect_result fields) =
      bind-Returns (ShowsOnly o) (redact_values o fields) _
        λ kept e. subst (Returns (AllShowOnly o)) e (redact_values-show o fields)
  redact_value-shows o (plain k x) = tt

  redact_values-show :
      (o : RedactionOptions) (vs : RuntimeValues) → Returns (AllShowOnly o) (redact_values o vs)
  redact_values-show o nil = tt
  redact_values-show o (cons v vs) = bind-Returns (AllShowOnly o) (redact_value o v) _ λ w e.
      bind-Returns (AllShowOnly o) (redact_values o vs) _ λ ws f. (
        subst (Returns (ShowsOnly o)) e (redact_value-shows o v),
        subst (Returns (AllShowOnly o)) f (redact_values-show o vs),
      )

redact_entities-kept :
    (o : RedactionOptions) (es : List ℕ) → All (IsVisible o) es → redact_entities o es ≡ ok es
unfolding redact_entities
redact_entities-kept o [] h = refl
redact_entities-kept o (e ∷ es) h = rw (h.0, redact_entities-kept o es h.1) refl

mutual
  unfolding redact_value redact_values ShowsOnly AllShowOnly

  redact_value-kept :
      (o : RedactionOptions) (v : RuntimeValue) → ShowsOnly o v → redact_value o v ≡ ok v
  redact_value-kept o (missing k) h = refl
  redact_value-kept o (entity e) h = rw h refl
  redact_value-kept o (entity_list es) h = rw (redact_entities-kept o es h) refl
  redact_value-kept o (ability owner x) h = rw h refl
  redact_value-kept o (status_instance target x) h = rw h refl
  redact_value-kept o (hit e x) h = rw (h.0, h.1) refl
  redact_value-kept o (spatial k x) h = rw h refl
  redact_value-kept o (opaque k x) h = rw h refl
  redact_value-kept o (effect_result fields) h = rw (redact_values-kept o fields h) refl
  redact_value-kept o (plain k x) h = refl

  redact_values-kept :
      (o : RedactionOptions) (vs : RuntimeValues) → AllShowOnly o vs → redact_values o vs ≡ ok vs
  redact_values-kept o nil h = refl
  redact_values-kept o (cons v vs) h =
      rw (redact_value-kept o v h.0, redact_values-kept o vs h.1) refl

-- A redacted value names visible entities only, at any depth, and nothing spatial or opaque that is
-- to be removed; and a second redaction changes it no more.
pub redact_value-ShowsOnly :
    (o : RedactionOptions) (v : RuntimeValue)
    → Returns (λ w. ShowsOnly o w × (redact_value o w ≡ ok w)) (redact_value o v)
redact_value-ShowsOnly o v = both (redact_value o v) (redact_value-shows o v)
  where
    both :
        (r : Result VisibilityError RuntimeValue)
        → Returns (ShowsOnly o) r
        → Returns (λ w. ShowsOnly o w × (redact_value o w ≡ ok w)) r
    both (ok w) h = (h, redact_value-kept o w h)
    both (fail e) h = tt
