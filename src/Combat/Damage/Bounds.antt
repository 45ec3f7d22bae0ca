-- ===== src/Combat/Damage/Bounds.antt =====
-- combat/damage.go: avoidance, the cap of one instance, and death prevention, in the whole pipeline.
use mathlib.Core.Path.{subst₂}
use roost_skill.Common.{
  true, false, ◌≡◌, ◌≢◌, ◌⊎◌, inl, inr, refl, sym, ap, subst, ◌∙◌, Option, some, String, arith,
  if_both, Bool-cases,
}
use roost_skill.Common.Int.{
  ℤ, pos, negsuc, ◌≤ℤ◌, ◌<ℤ◌, ◌+ℤ◌, +ℤ_parts, max64, le_trans_ℤ, wrap64, div64, quot,
}
use roost_skill.Combat.FixedMath.{max_int64, saturating_mul, scale_basis_points, basis_point_scale}
use roost_skill.Combat.Combatant.{Combatant, DamageInput, Hooks, itself, attacker, IsSound}
use roost_skill.Combat.Damage.{
  Run, deal, drain, avoid, weigh, strike_critical, apply_caps, mitigate, scale_nonneg, scale_rates,
  prevent_death, absorb, resistance_of, field_of,
}
use roost_skill.Combat.Damage.Stages.{IsAmount, ready, ready-Keeps, ready-IsAmount, used-keeps}
use roost_skill.Combat.Damage.Pools.{
  wound, wound_lem, absorb_lem, before_hurt, hurt_survives, pin_lem,
}
use roost_skill.Combat.Damage.Outcome.{HasCaps, drain_keeps}

mul_zero : (r : ℤ) → saturating_mul (pos 0) r ≡ pos 0
unfolding saturating_mul
mul_zero r = ground arith

scale_nonneg_zero : (r : ℤ) → scale_nonneg (pos 0) r ≡ pos 0
unfolding scale_nonneg max_int64 scale_basis_points wrap64 quot
scale_nonneg_zero r = rw (mul_zero r)

div_zero : (d : ℤ) → div64 (pos 0) d ≡ pos 0
unfolding div64 wrap64 quot
div_zero (pos d) = ground arith
div_zero (negsuc d) = ground arith

div_of_zero : (a d : ℤ) → a ≡ pos 0 → div64 a d ≡ pos 0
div_of_zero a d e = ap (λ x. div64 x d) e ∙ div_zero d

scale_of_zero : (a r : ℤ) → a ≡ pos 0 → scale_nonneg a r ≡ pos 0
scale_of_zero a r e = ap (λ x. scale_nonneg x r) e ∙ scale_nonneg_zero r

mitigate_zero : (raw pen : ℤ) → mitigate raw pen (pos 0) ≡ pos 0
unfolding mitigate
mitigate_zero raw pen =
    if_both (λ x. x ≡ pos 0) _ (div_of_zero _ _ (mul_zero basis_point_scale)) refl

scale_rates_zero :
    (s : Option Combatant) (t : Combatant) (input : DamageInput)
    → scale_rates s t input (pos 0) ≡ pos 0
unfolding scale_rates
scale_rates_zero s t input = simp scale_nonneg_zero

caps_zero : (t : Combatant) → apply_caps t (pos 0) ≡ pos 0
unfolding apply_caps
caps_zero t = ground arith

caps_le :
    (t : Combatant) (a : ℤ)
    → pos 0 <ℤ t.damage_cap
    → t.minimum_damage ≤ℤ t.damage_cap
    → apply_caps t a ≤ℤ t.damage_cap
unfolding apply_caps
caps_le t a h k = ground arith

nothing_left :
    (a b : ℤ) {n : ℤ}
    → pos 0 ≤ℤ a
    → pos 0 ≤ℤ b
    → a +ℤ b ≤ℤ n
    → n ≡ pos 0
    → (a ≡ pos 0) × (b ≡ pos 0)
nothing_left a b ha hb h e = ground (arith, +ℤ_parts a b)

true_ne_false : true ≢ false
true_ne_false e = cc

module _ {W : Type 0} where
  avoid_zero :
      (run : Run W)
      → (run.target.dodge ≡ true) ⊎ (run.target.parry ≡ true)
      → (avoid run).amount ≡ pos 0
  unfolding avoid
  avoid_zero run h = ground arith

  weigh_zero :
      (input : DamageInput) (run : Run W) → run.amount ≡ pos 0 → (weigh input run).amount ≡ pos 0
  unfolding weigh
  weigh_zero input run e =
      let s = attacker run.source run.target in
      let r = resistance_of input.damage_type run.target in
      let p = field_of (λ c. c.penetration) s in
      ap (λ a. scale_rates s run.target input (mitigate r p a)) e
      ∙ ap (scale_rates s run.target input) (mitigate_zero r p)
      ∙ scale_rates_zero s run.target input

  strike_zero :
      (input : DamageInput) (hooks : Option (Hooks W)) (run : Run W)
      → run.amount ≡ pos 0
      → (strike_critical input hooks run).amount ≡ pos 0
  unfolding strike_critical
  strike_zero input hooks run e =
      if_both {A = Run W} (λ r. r.amount ≡ pos 0) _ {y = run}
        ((used-keeps hooks _ _).3 ∙ scale_of_zero _ _ e) e

  ready_zero :
      (input : DamageInput) (hooks : Option (Hooks W)) (run : Run W)
      → (run.target.dodge ≡ true) ⊎ (run.target.parry ≡ true)
      → (ready input hooks run).amount ≡ pos 0
  ready_zero input hooks run h =
      ap (apply_caps _) (strike_zero input hooks _ (weigh_zero input _ (avoid_zero run h)))
      ∙ caps_zero _

  -- What shield and health lose together is at most what reaches the shield.
  spent_le :
      (input : DamageInput) (hooks : Option (Hooks W)) (run : Run W)
      → run.source ≢ itself
      → IsSound run.target
      → HasCaps run.target
      → run.target.alive ≡ true
      → run.outcome.killed ≡ false
      → let r = deal input hooks run in
        (r.outcome.absorbed +ℤ r.outcome.health_damage ≤ℤ (ready input hooks run).amount)
        × (pos 0 ≤ℤ r.outcome.absorbed)
        × (pos 0 ≤ℤ r.outcome.health_damage)
  unfolding deal
  spent_le input hooks run foreign v caps living fresh =
      let k = ready-Keeps input hooks run in
      let q =
        wound_lem hooks (ready input hooks run) (subst IsSound (sym k.0) v)
          (ap (λ (t : Combatant). t.alive) k.0 ∙ living) (k.2 ∙ fresh)
          (ready-IsAmount input hooks run caps.damage_cap_range caps.minimum_damage_range) in
      let d =
        drain_keeps (wound hooks (ready input hooks run)) (λ e. foreign (sym (q.8 ∙ k.1) ∙ e)) in
      (
        subst₂ (λ a h. a +ℤ h ≤ℤ (ready input hooks run).amount) (sym d.1) (sym d.2) q.5,
        subst (λ a. pos 0 ≤ℤ a) (sym d.1) q.3,
        subst (λ a. pos 0 ≤ℤ a) (sym d.2) q.4,
      )

  -- An instance that a living, sound target with int64 caps dodges or parries takes nothing from its
  -- shield and its health. The target is not its own source, and nothing has killed it before.
  pub avoided_deals_nothing :
      (input : DamageInput) (hooks : Option (Hooks W)) (run : Run W)
      → run.source ≢ itself
      → IsSound run.target
      → HasCaps run.target
      → run.target.alive ≡ true
      → run.outcome.killed ≡ false
      → (run.target.dodge ≡ true) ⊎ (run.target.parry ≡ true)
      → let r = deal input hooks run in
        (r.outcome.absorbed ≡ pos 0) × (r.outcome.health_damage ≡ pos 0)
  avoided_deals_nothing input hooks run foreign v caps living fresh h =
      let s = spent_le input hooks run foreign v caps living fresh in
      nothing_left _ _ s.1 s.2 s.0 (ready_zero input hooks run h)

  -- A positive damage cap, not below the minimum damage, bounds what an instance takes from the shield
  -- and the health of a living, sound target together. The target has int64 caps and is not its own
  -- source, and nothing has killed it before.
  pub damage_cap_bounds :
      (input : DamageInput) (hooks : Option (Hooks W)) (run : Run W)
      → run.source ≢ itself
      → IsSound run.target
      → HasCaps run.target
      → run.target.alive ≡ true
      → run.outcome.killed ≡ false
      → pos 0 <ℤ run.target.damage_cap
      → run.target.minimum_damage ≤ℤ run.target.damage_cap
      → let r = deal input hooks run in
        r.outcome.absorbed +ℤ r.outcome.health_damage ≤ℤ run.target.damage_cap
  damage_cap_bounds input hooks run foreign v caps living fresh h k =
      let t = sym (ready-Keeps input hooks run).0 in
      le_trans_ℤ _ (ready input hooks run).amount _
        (spent_le input hooks run foreign v caps living fresh).0
        (subst (λ c. (ready input hooks run).amount ≤ℤ c.damage_cap) (ready-Keeps input hooks run).0
          (caps_le (ready input hooks run).target _ (subst (λ c. pos 0 <ℤ c.damage_cap) t h)
            (subst (λ c. c.minimum_damage ≤ℤ c.damage_cap) t k)))

  struck_of :
      (h : Hooks W) (run : Run W) {hook : String}
      → pos 0 <ℤ run.target.health
      → run.target.health ≤ℤ max64
      → IsAmount run.amount
      → h.peek_death_prevention run.state ≡ some hook
      → let r = prevent_death (some h) run in r.amount <ℤ r.target.health
  unfolding prevent_death
  struck_of h run v m a e = ground (arith, pin_lem run.target.health)

  -- Death prevention that is on offer keeps a living, sound target alive that is not its own source.
  -- The target has int64 caps, and nothing has killed it before.
  pub death_prevention_saves :
      (input : DamageInput) (h : Hooks W) (run : Run W)
      → run.source ≢ itself
      → IsSound run.target
      → HasCaps run.target
      → run.target.alive ≡ true
      → run.outcome.killed ≡ false
      → ((w : W) → (hook : String) × (h.peek_death_prevention w ≡ some hook))
      → let r = deal input (some h) run in (r.outcome.killed ≡ false) × (r.target.alive ≡ true)
  unfolding deal
  death_prevention_saves input h run foreign v caps living fresh offer =
      let reached = ready input (some h) run in
      let k = ready-Keeps input (some h) run in
      let a = ready-IsAmount input (some h) run caps.damage_cap_range caps.minimum_damage_range in
      let v' : IsSound reached.target = subst IsSound (sym k.0) v in
      let living' : reached.target.alive ≡ true = ap (λ (t : Combatant). t.alive) k.0 ∙ living in
      let b = before_hurt (some h) reached v' living' (k.2 ∙ fresh) a in
      let q = wound_lem (some h) reached v' living' (k.2 ∙ fresh) a in
      let d = drain_keeps (wound (some h) reached) (λ e. foreign (sym (q.8 ∙ k.1) ∙ e)) in
      let small =
        struck_of h (absorb (some h) reached) (v'.alive_pos living')
          (le_trans_ℤ reached.target.health reached.target.max_health max64 v'.health_le
            v'.max_health_le)
          (absorb_lem (some h) reached v'.shield_range a).4
          (offer (absorb (some h) reached).state).1 in
      let saved =
        hurt_survives (prevent_death (some h) (absorb (some h) reached)) b.0 b.1 b.2 b.3 small in
      (
        d.3 ∙ saved,
        elim (Bool-cases (drain (wound (some h) reached)).target.alive) [
          | inl alive ↦ alive
          | inr dead ↦ absurd (
              true_ne_false
                (sym (q.6.1 (sym (ap (λ (t : Combatant). t.alive) d.0) ∙ dead)) ∙ saved))
        ],
      )
