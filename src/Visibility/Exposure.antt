-- ===== src/Visibility/Exposure.antt =====
-- skillsync/visibility.go: what a filtered mutation or event shows, and what a removal gives away.
use roost_skill.Common.{
  ℕ, Bool, true, false, if◌then◌else◌, not, ◌||◌, Option, some, ◌≡◌, refl, ap, ◌∙◌, arith, if_cases,
  if_both, String,
}
use roost_skill.Common.Results.{ok, Returns, bind-Returns, returned}
use roost_skill.Skill.Values.Redaction.{ShowsOnly}
use roost_skill.Visibility.{
  Policy, process_spatial, persistent_state, persistent_value, presentation, presentation_spatial,
  StateHandle, whole_field, to_state, CastState, ProcessState, PersistentState, Binding, sees,
  shows_field, hidden_unless, redaction,
}
use roost_skill.Visibility.Mutations.{
  StateMutation, mutation_entity, mutation_cast, mutation_process, mutation_persistent,
  shown_mutation, filter_state_mutation, mutation_visibility_field, removal, Anchor,
  PresentationEvent, shown_event, filter_presentation, no_place,
}
use roost_skill.Visibility.Safety.{Sees, Sees-hidden_unless, ShownAs, SpatialShown, or_true}

module _ (p : Policy) (observer : ℕ) where
  abbrev CastExposed : CastState → Type 0
  CastExposed c = Sees p observer c.primary_target

  abbrev ProcessExposed : ProcessState → Type 0
  ProcessExposed v =
      Sees p observer v.lifecycle_entity
      × Sees p observer v.carry_target
      × SpatialShown p observer process_spatial v.spatial

  abbrev PersistentExposed : PersistentState → Type 0
  PersistentExposed s =
      let binding = s.binding in
      Sees p observer binding.subject
      × (shows_field p observer persistent_value (to_state s.handle) ≡ ok true)
      × ShowsOnly (redaction p observer) s.value

  -- The owner of a mutation is seen: its caster; its owner, if it has no caster; or, as long as what
  -- comes before it names no one, the caster of its cast, the owner of its process and the owner in
  -- the binding of its persistent state. Everyone sees entity 0, which is no one.
  pub record OwnerShown (m : StateMutation) : Type 0 where
    pub by_caster : Sees p observer m.caster
    pub by_owner : m.caster ≡ 0 → Sees p observer m.owner
    pub by_cast :
        m.caster ≡ 0 → m.owner ≡ 0 → ShownAs (λ (c : CastState). Sees p observer c.caster) m.cast
    pub by_process :
        m.caster ≡ 0
        → m.owner ≡ 0
        → ShownAs (λ (c : CastState). c.caster ≡ 0) m.cast
        → ShownAs (λ (v : ProcessState). Sees p observer v.owner) m.process
    pub by_persistent :
        m.caster ≡ 0
        → m.owner ≡ 0
        → ShownAs (λ (c : CastState). c.caster ≡ 0) m.cast
        → ShownAs (λ (v : ProcessState). v.owner ≡ 0) m.process
        → ShownAs
            (λ (s : PersistentState). (let binding = s.binding in Sees p observer binding.owner))
            m.persistent

  -- What a mutation that passes shows.
  abbrev pub MutationShown : StateMutation → Type 0
  MutationShown m =
      OwnerShown m
      × ShownAs CastExposed m.cast
      × ShownAs ProcessExposed m.process
      × ShownAs PersistentExposed m.persistent

  -- The removal of a persistent state is shown whole to every observer of its field, whatever the
  -- evaluator says of the owner and the subject that its binding names: the entities of the binding
  -- are not asked for.
  pub filter_state_mutation-removal :
      (handle : StateHandle) (binding : Binding) (rest : String)
      → shows_field p observer persistent_state (to_state handle) ≡ ok true
      → filter_state_mutation p observer (removal handle binding rest)
        ≡ ok (some (removal handle binding rest))
  unfolding filter_state_mutation mutation_visibility_field mutation_entity shown_mutation
      mutation_cast mutation_process mutation_persistent sees
  filter_state_mutation-removal handle binding rest shown = rw shown refl

  abbrev pub EventShown : PresentationEvent → Type 0
  EventShown e =
      let anchor = e.anchor in
      Sees p observer e.source
      × Sees p observer e.primary_target
      × Sees p observer anchor.source
      × Sees p observer anchor.target
      × (p.redact_spatial ≡ true → no_place anchor ≡ anchor)
      × (shows_field p observer presentation_spatial whole_field ≡ ok false
          → no_place anchor ≡ anchor)

  placed-shows :
      (shown : Bool) (a : Anchor)
      → shows_field p observer presentation_spatial whole_field ≡ ok shown
      → (let b = if p.redact_spatial || not shown then no_place a else a in
          (p.redact_spatial ≡ true → no_place b ≡ b)
          × (shows_field p observer presentation_spatial whole_field ≡ ok false → no_place b ≡ b))
  placed-shows true a e = (λ r. rw r refl, λ d. absurd (cc))
  placed-shows false a e = (λ r. rw r refl, λ d. rw (or_true p.redact_spatial) refl)

  shown_event-shows :
      (e : PresentationEvent)
      → Sees p observer e.source
      → (let anchor = e.anchor in Sees p observer anchor.source)
      → Returns EventShown (shown_event p observer e)
  unfolding shown_event
  shown_event-shows e source anchor_source =
      let anchor = e.anchor in
      bind-Returns EventShown (sees p observer anchor.target) _ λ at u.
        bind-Returns EventShown (sees p observer e.primary_target) _ λ pt v.
          bind-Returns EventShown (shows_field p observer presentation_spatial whole_field) _
            λ shown w.
              let a : Anchor = record anchor { target = hidden_unless at anchor.target } in
              let hidden = p.redact_spatial || not shown in
              let seen = Sees-hidden_unless p observer anchor.target at u in
              let placed = placed-shows shown a w in
              (
                source,
                Sees-hidden_unless p observer e.primary_target pt v,
                if_both (λ (b : Anchor). Sees p observer b.source) hidden anchor_source
                    anchor_source,
                if_both (λ (b : Anchor). Sees p observer b.target) hidden seen seen,
                placed.0,
                placed.1,
              )

  -- A presentation event that passes names as its sources and targets only entities that the observer
  -- may see; its position, direction and path are gone where the policy or their field says so.
  pub filter_presentation-EventShown :
      (e : PresentationEvent) → Returns (ShownAs EventShown) (filter_presentation p observer e)
  unfolding filter_presentation
  filter_presentation-EventShown e =
      let anchor = e.anchor in
      bind-Returns P (shows_field p observer presentation whole_field) _ λ field _.
        if_both (Returns P) (not field) tt (
          bind-Returns P (sees p observer e.source) _ λ source u.
            if_cases (Returns P) (not source) (λ _. tt)
              λ s. bind-Returns P (sees p observer anchor.source) _ λ anchor_source v.
                if_cases (Returns P) anchor_source
                  (λ t. bind-Returns P (shown_event p observer e) _ λ x w.
                    returned EventShown
                      (shown_event-shows e (u ∙ ap ok (ground arith)) (v ∙ ap ok t)) w)
                  (λ _. tt))
    where
      P : Option PresentationEvent → Type 0
      P = ShownAs EventShown
