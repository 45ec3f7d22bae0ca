-- ===== src/Combat/Damage.antt =====
-- combat/damage.go: ResolveDamage, stage by stage in the order of the source. A stage takes and
-- returns the whole state of a run: both combatants, the world behind the hooks, the outcome so far
-- and the amount that is still to be dealt.
pub mod Stages
pub mod Pools
pub mod Outcome
pub mod Mitigation
pub mod Weights
pub mod Bounds
use roost_skill.Common.{
  Bool, true, false, ◌&&◌, ◌||◌, not, if◌then◌else◌, String, List, [], ◌∷◌, ◌++◌, Option, none,
  some,
}
use roost_skill.Common.Int.{ℤ, pos, ltb_ℤ, leb_ℤ, eqb_ℤ, sub64, div64}
use roost_skill.Combat.FixedMath.{
  basis_point_scale, saturating_add, saturating_sub, saturating_mul, scale_basis_points, min_int64,
  max_int64,
}
use roost_skill.Combat.Combatant.{
  Combatant, DamageInput, DamageOutcome, DamageType, physical, magical, true_damage, unknown, Hooks,
  Source, world, other, itself, attacker, element_multiplier,
}

pub record Run (W : Type 0) : Type 0 where
  pub target : Combatant
  pub source : Source
  pub state : W
  pub outcome : DamageOutcome
  pub amount : ℤ

abbrev pub result_hit : String
result_hit = "hit"

abbrev pub result_immune : String
result_immune = "immune"

abbrev pub result_dodged : String
result_dodged = "dodged"

abbrev pub result_blocked : String
result_blocked = "blocked"

abbrev pub result_parried : String
result_parried = "parried"

abbrev pub result_killed : String
result_killed = "killed"

-- DamageOutcome{Attempted: attempted, Result: ResultHit}
abbrev pub new_outcome : ℤ → DamageOutcome
new_outcome attempted = record {
  attempted = attempted;
  mitigated = pos 0;
  absorbed = pos 0;
  health_damage = pos 0;
  vamp_heal = pos 0;
  dodged = false;
  parried = false;
  blocked = false;
  critical = false;
  immune = false;
  killed = false;
  combat_hooks = [];
  result = result_hit;
}

-- A rate of 0 stands for its default.
abbrev pub or_default : ℤ → ℤ → ℤ
or_default d rate = if eqb_ℤ rate (pos 0) then d else rate

abbrev pub field_of : (Combatant → ℤ) → Option Combatant → ℤ
field_of f none = pos 0
field_of f (some c) = f c

unfoldable pub resistance_of : DamageType → Combatant → ℤ
resistance_of physical t = t.armor
resistance_of magical t = t.magic_resistance
resistance_of true_damage t = pos 0
resistance_of (unknown n) t = pos 0

-- Stages "damage_type" and "penetration": resistance R leaves 10000 / (10000 + 100 R).
unfoldable pub mitigate : ℤ → ℤ → ℤ → ℤ
mitigate raw_resistance penetration amount =
    let resistance = max_int64 (pos 0) (saturating_sub raw_resistance penetration) in
    if ltb_ℤ (pos 0) resistance
    then div64 (saturating_mul amount basis_point_scale)
        (saturating_add basis_point_scale (saturating_mul resistance (pos 100)))
    else amount

unfoldable pub scale_nonneg : ℤ → ℤ → ℤ
scale_nonneg amount rate = max_int64 (scale_basis_points amount rate) (pos 0)

-- Stages "element" and "modifiers".
unfoldable pub scale_rates : Option Combatant → Combatant → DamageInput → ℤ → ℤ
scale_rates source target input amount =
    scale_nonneg
      (scale_nonneg
        (scale_nonneg amount (
          or_default basis_point_scale
            (element_multiplier input.element target.element_multipliers_bp)))
        (or_default basis_point_scale (field_of (λ c. c.damage_dealt_bp) source)))
      (or_default basis_point_scale target.damage_taken_bp)

-- Stage "caps".
unfoldable pub apply_caps : Combatant → ℤ → ℤ
apply_caps target amount =
    let capped =
      if ltb_ℤ (pos 0) target.damage_cap && ltb_ℤ target.damage_cap amount
      then target.damage_cap
      else amount in
    if ltb_ℤ (pos 0) target.minimum_damage
      && ltb_ℤ (pos 0) capped
      && ltb_ℤ capped target.minimum_damage
    then target.minimum_damage
    else capped

abbrev is_forced : Option Combatant → Bool
is_forced none = false
is_forced (some c) = c.force_critical

abbrev is_some : Option String → Bool
is_some none = false
is_some (some s) = true

-- source.Health after `heal` health is drained.
abbrev pub drained : Combatant → ℤ → Combatant
drained s heal = record s { health = min_int64 s.max_health (saturating_add s.health heal) }

module _ {W : Type 0} where
  -- Stage "avoidance".
  unfoldable pub avoid : Run W → Run W
  avoid run =
      if run.target.dodge
      then record run {
        amount = pos 0;
        outcome = record o { dodged = true; result = result_dodged };
      }
      else if run.target.parry
      then record run {
        amount = pos 0;
        outcome = record o { parried = true; result = result_parried };
      }
      else if run.target.block
      then record run {
        amount = div64 run.amount (pos 2);
        outcome = record o { blocked = true; result = result_blocked };
      }
      else run
    where
      o : DamageOutcome
      o = run.outcome

  -- The stages from "damage_type" to "modifiers": only the amount and its record change.
  unfoldable pub weigh : DamageInput → Run W → Run W
  unfolding mitigate scale_rates
  weigh input run =
      let mitigated =
        mitigate (resistance_of input.damage_type run.target)
          (field_of (λ c. c.penetration) (attacker run.source run.target)) run.amount in
      record run {
        amount = scale_rates (attacker run.source run.target) run.target input mitigated;
        outcome = record o { mitigated = mitigated };
      }
    where
      o : DamageOutcome
      o = run.outcome

  abbrev peek_override : Option (Hooks W) → W → Option String
  peek_override none w = none
  peek_override (some h) w = h.peek_critical_override w

  -- Consumes a hook and notes it in the outcome.
  abbrev pub used : Option (Hooks W) → Option String → Run W → Run W
  used (some h) (some hook) run = record run {
    state = h.consume_hook hook run.state;
    outcome = record run.outcome { combat_hooks = run.outcome.combat_hooks ++ hook ∷ [] };
  }
  used (some h) none run = run
  used none hook run = run

  -- Stage "critical".
  unfoldable pub strike_critical : DamageInput → Option (Hooks W) → Run W → Run W
  strike_critical input hooks run =
      if input.can_critical && (is_forced source || is_some override)
      then used hooks override (record run {
        amount =
            scale_nonneg run.amount
              (or_default (pos 15000) (field_of (λ c. c.critical_multiplier_bp) source));
        outcome = record o { critical = true };
      })
      else run
    where
      o : DamageOutcome
      o = run.outcome

      source : Option Combatant
      source = attacker run.source run.target

      override : Option String
      override = peek_override hooks run.state

  abbrev notify_absorbed : Option (Hooks W) → ℤ → W → W
  notify_absorbed none absorbed w = w
  notify_absorbed (some h) absorbed w =
      if ltb_ℤ (pos 0) absorbed then h.on_shield_absorbed absorbed w else w

  -- Stage "shield".
  unfoldable pub absorb : Option (Hooks W) → Run W → Run W
  absorb hooks run =
      let absorbed = min_int64 (max_int64 run.target.shield (pos 0)) run.amount in
      record run {
        target = record t { shield = sub64 run.target.shield absorbed };
        state = notify_absorbed hooks absorbed run.state;
        outcome = record o { absorbed = absorbed };
        amount = sub64 run.amount absorbed;
      }
    where
      t : Combatant
      t = run.target

      o : DamageOutcome
      o = run.outcome

  abbrev peek_prevention : Option (Hooks W) → W → Option String
  peek_prevention none w = none
  peek_prevention (some h) w = h.peek_death_prevention w

  abbrev pinned : Option (Hooks W) → Option String → Run W → Run W
  pinned hooks none run = run
  pinned hooks (some hook) run =
      let run' = used hooks (some hook) run in
      record run {
        amount = max_int64 (pos 0) (sub64 run.target.health (pos 1));
        state = run'.state;
        outcome = record run.outcome { combat_hooks = run'.outcome.combat_hooks; result = hook };
      }

  -- The death prevention of stage "health".
  unfoldable pub prevent_death : Option (Hooks W) → Run W → Run W
  prevent_death hooks run =
      if leb_ℤ run.target.health run.amount && ltb_ℤ (pos 0) run.target.health
      then pinned hooks (peek_prevention hooks run.state) run
      else run

  -- The writes of stage "health", for a computed damage and the health that it leaves.
  unfoldable pub hurt_by : ℤ → ℤ → Run W → Run W
  hurt_by damage health run =
      if eqb_ℤ health (pos 0) && ltb_ℤ (pos 0) damage
      then record run {
        target = record t { health = health; alive = false };
        outcome = record o { health_damage = damage; killed = true; result = result_killed };
      }
      else record run {
        target = record t { health = health };
        outcome = record o { health_damage = damage };
      }
    where
      t : Combatant
      t = run.target

      o : DamageOutcome
      o = run.outcome

  -- Stage "health": the damage, and death at exactly zero health.
  unfoldable pub hurt : Run W → Run W
  hurt run =
      let damage = min_int64 run.target.health run.amount in
      hurt_by damage (sub64 run.target.health damage) run

  abbrev drain_to : Source → ℤ → Run W → Run W
  drain_to world heal run = run
  drain_to (other s) heal run = record run { source = other (drained s heal) }
  drain_to itself heal run = record run { target = drained run.target heal }

  -- Stage "aftermath": vamp, through the pointer to the source.
  unfoldable pub drain : Run W → Run W
  drain run =
      let vamp = field_of (λ c. c.vamp_bp) (attacker run.source run.target) in
      let heal = scale_basis_points run.outcome.health_damage vamp in
      if ltb_ℤ (pos 0) vamp && ltb_ℤ (pos 0) run.outcome.health_damage
      then drain_to run.source heal (record run { outcome = record o { vamp_heal = heal } })
      else run
    where
      o : DamageOutcome
      o = run.outcome

  abbrev cap : Run W → Run W
  cap run = record run { amount = apply_caps run.target run.amount }

  -- The stages behind the interceptions.
  unfoldable pub deal : DamageInput → Option (Hooks W) → Run W → Run W
  unfolding avoid weigh strike_critical apply_caps absorb prevent_death hurt hurt_by drain
  deal input hooks run = drain (
      hurt (
        prevent_death hooks
          (absorb hooks (cap (strike_critical input hooks (weigh input (avoid run)))))))

  -- The interception of a spell-tagged instance by a hook of the target.
  abbrev shielding_hook : DamageInput → Option (Hooks W) → W → Option String
  shielding_hook input none w = none
  shielding_hook input (some h) w = if input.spell_tagged then h.peek_spell_shield w else none

  abbrev pub start : Source → Combatant → DamageInput → W → Run W
  start source target input w = record {
    target = target;
    source = source;
    state = w;
    outcome = new_outcome (max_int64 input.amount (pos 0));
    amount = max_int64 input.amount (pos 0);
  }

  abbrev immune_run : String → Run W → Run W
  immune_run result run = record run {
    outcome = record run.outcome { immune = true; result = result };
  }

  abbrev intercepted : Option (Hooks W) → String → Run W → Run W
  intercepted hooks hook run = used hooks (some hook) (immune_run hook run)

  -- Stage "immunity" of the target's own flags.
  unfoldable pub face : DamageInput → Option (Hooks W) → Run W → Run W
  face input hooks run =
      if run.target.damage_immune || run.target.spell_shield
      then immune_run result_immune (record run { target = record t { spell_shield = false } })
      else deal input hooks run
    where
      t : Combatant
      t = run.target

  unfoldable pub resolve : DamageInput → Option (Hooks W) → Run W → Run W
  unfolding face
  resolve input hooks run = elim (shielding_hook input hooks run.state) [
    | none ↦ face input hooks run
    | some hook ↦ intercepted hooks hook run
  ]

  -- `none` is the return with ok=false, which changes nothing.
  unfoldable pub resolve_damage :
      Source → Option Combatant → DamageInput → Option (Hooks W) → W → Option (Run W)
  unfolding resolve
  resolve_damage source none input hooks w = none
  resolve_damage source (some target) input hooks w =
      if not target.alive then none else some (resolve input hooks (start source target input w))
