-- ===== src/Combat/Damage/Stages.antt =====
-- combat/damage.go: what each stage of ResolveDamage leaves alone, and the range of the amount.
use roost_skill.Common.{String, if_both, subst, sym, ◌≡◌, refl, Option, none, some, arith}
use roost_skill.Common.Int.{ℤ, pos, ◌≤ℤ◌, InRange, max64, wrap64-InRange, div64, quot, quot}
use roost_skill.Combat.FixedMath.{max_int64, scale_basis_points, saturating_mul, basis_point_scale}
use roost_skill.Combat.Combatant.{Combatant, DamageInput, Hooks}
use roost_skill.Combat.Damage.{
  Run, avoid, weigh, strike_critical, apply_caps, scale_nonneg, cap, used,
}

-- An amount of damage: an int64 that is not negative.
abbrev pub IsAmount : ℤ → Type 0
IsAmount a = (pos 0 ≤ℤ a) × (a ≤ℤ max64)

pub div64-InRange : (a b : ℤ) → InRange (div64 a b)
unfolding div64
div64-InRange a b = wrap64-InRange (quot a b)

pub scale_nonneg-IsAmount : (a r : ℤ) → IsAmount (scale_nonneg a r)
unfolding scale_nonneg max_int64 scale_basis_points
scale_nonneg-IsAmount a r = ground (arith, div64-InRange (saturating_mul a r) basis_point_scale)

pub apply_caps-IsAmount :
    (t : Combatant) (a : ℤ)
    → InRange t.damage_cap
    → InRange t.minimum_damage
    → IsAmount a
    → IsAmount (apply_caps t a)
unfolding apply_caps
apply_caps-IsAmount t a hc hm h = ground arith

module _ {W : Type 0} where
  pub weigh-IsAmount : (input : DamageInput) (run : Run W) → IsAmount (weigh input run).amount
  unfolding weigh
  weigh-IsAmount input run = scale_nonneg-IsAmount _ _

  -- A stage that leaves both combatants alone and kills nobody.
  abbrev pub Keeps : Run W → Run W → Type 0
  Keeps run r =
      (r.target ≡ run.target) × (r.source ≡ run.source) × (r.outcome.killed ≡ run.outcome.killed)

  pub used-keeps :
      (hooks : Option (Hooks W)) (o : Option String) (run : Run W)
      → ((used hooks o run).target ≡ run.target)
        × ((used hooks o run).source ≡ run.source)
        × ((used hooks o run).outcome.killed ≡ run.outcome.killed)
        × ((used hooks o run).amount ≡ run.amount)
  used-keeps none o run = (refl, refl, refl, refl)
  used-keeps (some h) none run = (refl, refl, refl, refl)
  used-keeps (some h) (some hook) run = (refl, refl, refl, refl)

  pub strike_critical-IsAmount :
      (input : DamageInput) (hooks : Option (Hooks W)) (run : Run W)
      → IsAmount run.amount
      → IsAmount (strike_critical input hooks run).amount
  unfolding strike_critical
  strike_critical-IsAmount input hooks run h =
      if_both {A = Run W} (λ r. IsAmount r.amount) _
        (subst IsAmount (sym (used-keeps hooks _ _).3) (scale_nonneg-IsAmount _ _)) h

  -- No stage before "shield" changes a combatant.
  pub strike_critical-Keeps :
      (input : DamageInput) (hooks : Option (Hooks W)) (run : Run W)
      → Keeps run (strike_critical input hooks run)
  unfolding strike_critical
  strike_critical-Keeps input hooks run =
      if_both {A = Run W} (Keeps run) _
        ((used-keeps hooks _ _).0, (used-keeps hooks _ _).1, (used-keeps hooks _ _).2)
        (refl, refl, refl)

  pub avoid-Keeps : (run : Run W) → Keeps run (avoid run)
  unfolding avoid
  avoid-Keeps run = ground arith

  pub weigh-Keeps : (input : DamageInput) (run : Run W) → Keeps run (weigh input run)
  unfolding weigh
  weigh-Keeps input run = (refl, refl, refl)

  -- The run as it reaches stage "shield".
  abbrev pub ready : DamageInput → Option (Hooks W) → Run W → Run W
  ready input hooks run = cap (strike_critical input hooks (weigh input (avoid run)))

  pub ready-Keeps :
      (input : DamageInput) (hooks : Option (Hooks W)) (run : Run W)
      → Keeps run (ready input hooks run)
  ready-Keeps input hooks run = ground (
    arith,
    strike_critical-Keeps input hooks (weigh input (avoid run)),
    weigh-Keeps input (avoid run),
    avoid-Keeps run,
  )

  pub ready-IsAmount :
      (input : DamageInput) (hooks : Option (Hooks W)) (run : Run W)
      → InRange run.target.damage_cap
      → InRange run.target.minimum_damage
      → IsAmount (ready input hooks run).amount
  ready-IsAmount input hooks run hc hm =
      apply_caps-IsAmount _ _ (subst (λ t. InRange t.damage_cap) same hc)
        (subst (λ t. InRange t.minimum_damage) same hm)
        (strike_critical-IsAmount input hooks _ (weigh-IsAmount input (avoid run)))
    where
      same : run.target ≡ (strike_critical input hooks (weigh input (avoid run))).target
      same = sym (ready-Keeps input hooks run).0
