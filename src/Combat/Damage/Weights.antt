-- ===== src/Combat/Damage/Weights.antt =====
-- combat/damage.go: the stages "damage_type" to "modifiers" as a whole.
use roost_skill.Common.{ℕ, zero, suc, ◌*◌, arith, Option, none, some, List, [], ◌∷◌, All, if_both}
use roost_skill.Common.Int.{ℤ, pos, negsuc, ◌≤ℤ◌, InRange, le_trans_ℤ, max64, neg_ℕ, quot, clamp64}
use roost_skill.Combat.FixedMath.{scale_basis_points, basis_point_scale, max_int64}
use roost_skill.Combat.FixedMath.Rates.{scale_mono, scale_basis_points-clamp64}
use roost_skill.Combat.FixedMath.Saturation.{mul_pos_neg}
use roost_skill.Combat.Combatant.{
  Combatant, DamageInput, DamageType, physical, magical, true_damage, unknown, element_multiplier,
  attacker,
}
use roost_skill.Combat.Damage.{
  Run, weigh, mitigate, scale_nonneg, scale_rates, resistance_of, or_default, field_of,
}
use roost_skill.Combat.Damage.Stages.{scale_nonneg-IsAmount}
use roost_skill.Combat.Damage.Mitigation.{mitigate-mono, mitigate_bounds}

scale_neg :
    (a r : ℕ) → pos a ≤ℤ max64 → InRange (negsuc r) → scale_basis_points (pos a) (negsuc r) ≤ℤ pos 0
unfolding quot
scale_neg a r ha hr =
    rw (scale_basis_points-clamp64 (pos a) (negsuc r) (omega arith, ha) hr, mul_pos_neg a r)
      (go (a * suc r))
  where
    go : (m : ℕ) → quot (clamp64 (neg_ℕ m)) basis_point_scale ≤ℤ pos 0
    go zero = ground arith
    go (suc m) = ground arith

scale_nonneg-mono :
    (a b r : ℤ)
    → pos 0 ≤ℤ a
    → a ≤ℤ b
    → b ≤ℤ max64
    → InRange r
    → scale_nonneg a r ≤ℤ scale_nonneg b r
unfolding scale_nonneg max_int64
scale_nonneg-mono (pos a) (pos b) (pos r) pa le hb hr =
    ground (arith, scale_mono (pos a) (pos b) (pos r))
scale_nonneg-mono (pos a) (pos b) (negsuc r) pa le hb hr =
    ground (arith, scale_neg a r, scale_neg b r)
scale_nonneg-mono (negsuc a) b r pa le hb hr = absurd (omega arith)
scale_nonneg-mono (pos a) (negsuc b) r pa le hb hr = absurd (omega arith)

-- Every field of a combatant that the weighing reads is an int64.
pub record HasRates (t : Combatant) : Type 0 where
  pub armor_range : InRange t.armor
  pub magic_resistance_range : InRange t.magic_resistance
  pub penetration_range : InRange t.penetration
  pub dealt_range : InRange t.damage_dealt_bp
  pub taken_range : InRange t.damage_taken_bp
  pub elements_range : All (λ e. InRange (e.1)) t.element_multipliers_bp

abbrev pub HaveRates : Option Combatant → Type 0
HaveRates none = Unit
HaveRates (some c) = HasRates c

element_range :
    (e : ℕ) (m : List (ℕ × ℤ)) → All (λ p. InRange (p.1)) m → InRange (element_multiplier e m)
unfolding element_multiplier
element_range e [] h = ground arith
element_range e ((k, v) ∷ m) h = if_both InRange _ h.0 (element_range e m h.1)

default_range : (d r : ℤ) → InRange d → InRange r → InRange (or_default d r)
default_range d r hd hr = if_both InRange _ hd hr

resistance_range : (k : DamageType) (t : Combatant) → HasRates t → InRange (resistance_of k t)
unfolding resistance_of
resistance_range physical t h = h.armor_range
resistance_range magical t h = h.magic_resistance_range
resistance_range true_damage t h = ground arith
resistance_range (unknown n) t h = ground arith

penetration_range : (o : Option Combatant) → HaveRates o → InRange (field_of (λ c. c.penetration) o)
penetration_range none h = ground arith
penetration_range (some c) h = h.penetration_range

dealt_range : (o : Option Combatant) → HaveRates o → InRange (field_of (λ c. c.damage_dealt_bp) o)
dealt_range none h = ground arith
dealt_range (some c) h = h.dealt_range

scale_rates-mono :
    (s : Option Combatant) (t : Combatant) (input : DamageInput) (a b : ℤ)
    → HaveRates s
    → HasRates t
    → pos 0 ≤ℤ a
    → a ≤ℤ b
    → b ≤ℤ max64
    → scale_rates s t input a ≤ℤ scale_rates s t input b
unfolding scale_rates
scale_rates-mono s t input a b hs ht pa le hb =
    let er =
      default_range basis_point_scale (element_multiplier input.element t.element_multipliers_bp)
        (ground arith) (element_range _ _ ht.elements_range) in
    let dr =
      default_range basis_point_scale (field_of (λ c. c.damage_dealt_bp) s) (ground arith)
        (dealt_range s hs) in
    let tr = default_range basis_point_scale t.damage_taken_bp (ground arith) ht.taken_range in
    let e = scale_nonneg-mono a b _ pa le hb er in
    let d =
      scale_nonneg-mono _ _ _ (scale_nonneg-IsAmount a _).0 e (scale_nonneg-IsAmount b _).1 dr in
    scale_nonneg-mono _ _ _ (scale_nonneg-IsAmount _ _).0 d (scale_nonneg-IsAmount _ _).1 tr

module _ {W : Type 0} where
  -- With int64 rates, a greater nonnegative amount that enters the weighing leaves it no smaller.
  pub weigh-mono :
      (input : DamageInput) (run : Run W) (b : ℤ)
      → HaveRates (attacker run.source run.target)
      → HasRates run.target
      → pos 0 ≤ℤ run.amount
      → run.amount ≤ℤ b
      → b ≤ℤ max64
      → (weigh input run).amount ≤ℤ (weigh input (record run { amount = b })).amount
  unfolding weigh
  weigh-mono input run b hs ht pa le hb =
      let r = resistance_range input.damage_type run.target ht in
      let p = penetration_range (attacker run.source run.target) hs in
      let m =
        mitigate (resistance_of input.damage_type run.target)
          (field_of (λ c. c.penetration) (attacker run.source run.target)) b in
      scale_rates-mono (attacker run.source run.target) run.target input _ m hs ht
        (mitigate_bounds _ _ _ r p (pa, le_trans_ℤ run.amount b max64 le hb)).0
        (mitigate-mono _ _ _ _ r p pa le hb)
        (le_trans_ℤ m b max64
          (mitigate_bounds _ _ b r p (le_trans_ℤ (pos 0) run.amount b pa le, hb)).1 hb)
