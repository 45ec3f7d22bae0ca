-- ===== src/Combat/Examples/Fighters.antt =====
-- Fixed-point math, damage and healing at concrete inputs.
use roost_skill.Common.{Bool, true, false, [], none, some, ◌≡◌, ◌≢◌, refl, arith}
use roost_skill.Common.Int.{pos, negsuc, ◌≤ℤ◌, ◌+ℤ◌, ◌*ℤ◌, clamp64}
use roost_skill.Combat.FixedMath.{saturating_mul}
use roost_skill.Combat.FixedMath.Saturation.{saturating_mul-clamp64}
use roost_skill.Combat.Combatant.{Combatant, DamageInput, Hooks, other, itself, physical, IsSound}
use roost_skill.Combat.Damage.{Run, deal, resolve_damage, new_outcome}
use roost_skill.Combat.Damage.Outcome.{HasCaps, AccountsFor, resolve_damage-Accounts}
use roost_skill.Combat.Damage.Bounds.{damage_cap_bounds, death_prevention_saves}
use roost_skill.Combat.Damage.Weights.{HasRates}

abbrev guard : Combatant
guard = record {
  alive = true;
  health = pos 300;
  max_health = pos 1000;
  shield = pos 50;
  armor = pos 100;
  magic_resistance = pos 0;
  penetration = pos 0;
  damage_dealt_bp = pos 0;
  damage_taken_bp = pos 0;
  critical_multiplier_bp = pos 0;
  element_multipliers_bp = [];
  vamp_bp = pos 0;
  damage_cap = pos 120;
  minimum_damage = pos 1;
  dodge = false;
  parry = false;
  block = false;
  damage_immune = false;
  spell_shield = false;
  force_critical = false;
}

abbrev raider : Combatant
raider = record guard { shield = pos 0; vamp_bp = pos 2000 }

abbrev strike : DamageInput
strike = record {
  amount = pos 400;
  damage_type = physical;
  element = 0;
  can_critical = false;
  spell_tagged = false;
}

abbrev run_of : Combatant → Run Unit
run_of t = record {
  target = t;
  source = other raider;
  state = tt;
  outcome = new_outcome (pos 400);
  amount = pos 400;
}

abbrev watcher : Hooks Unit
watcher = record {
  peek_spell_shield = λ w. none;
  peek_critical_override = λ w. none;
  peek_death_prevention = λ w. some "watcher";
  consume_hook = λ name w. w;
  on_shield_absorbed = λ amount w. w;
}

other_source : (c : Combatant) → other c ≢ itself
other_source c e = cc

guard-IsSound : (dodge : Bool) → IsSound (record guard { dodge = dodge })
guard-IsSound dodge = record {
  health_nonneg = omega arith;
  health_le = omega arith;
  max_health_le = omega arith;
  alive_pos = λ e. omega arith;
  shield_range = (omega arith, omega arith);
}

guard-HasCaps : (dodge : Bool) → HasCaps (record guard { dodge = dodge })
guard-HasCaps dodge = record {
  damage_cap_range = (omega arith, omega arith);
  minimum_damage_range = (omega arith, omega arith);
}

guard-HasRates : HasRates guard
guard-HasRates = record {
  armor_range = (omega arith, omega arith);
  magic_resistance_range = (omega arith, omega arith);
  penetration_range = (omega arith, omega arith);
  dealt_range = (omega arith, omega arith);
  taken_range = (omega arith, omega arith);
  elements_range = tt;
}

raider-HasRates : HasRates raider
raider-HasRates = record {
  armor_range = (omega arith, omega arith);
  magic_resistance_range = (omega arith, omega arith);
  penetration_range = (omega arith, omega arith);
  dealt_range = (omega arith, omega arith);
  taken_range = (omega arith, omega arith);
  elements_range = tt;
}

saturating_mul-clamp64_example :
    saturating_mul (pos 10000000000) (negsuc 9999999999)
    ≡ clamp64 (pos 10000000000 *ℤ negsuc 9999999999)
saturating_mul-clamp64_example =
    saturating_mul-clamp64 (pos 10000000000) (negsuc 9999999999) (omega arith, omega arith)
      (omega arith, omega arith)

resolve_damage-Accounts_example :
    (r : Run Unit) × (resolve_damage (other raider) (some guard) strike none tt ≡ some r)
    × AccountsFor guard r
resolve_damage-Accounts_example =
    resolve_damage-Accounts strike none (other raider) guard tt (other_source raider)
      (guard-IsSound false) (guard-HasCaps false) refl

death_prevention_saves_example :
    ((deal strike (some watcher) (run_of guard)).outcome.killed ≡ false)
    × ((deal strike (some watcher) (run_of guard)).target.alive ≡ true)
death_prevention_saves_example =
    death_prevention_saves strike watcher (run_of guard) (other_source raider) (guard-IsSound false)
      (guard-HasCaps false) refl refl (λ w. ("watcher", refl))

damage_cap_bounds_example :
    (deal strike none (run_of guard)).outcome.absorbed
      +ℤ (deal strike none (run_of guard)).outcome.health_damage
    ≤ℤ pos 120
damage_cap_bounds_example =
    damage_cap_bounds strike none (run_of guard) (other_source raider) (guard-IsSound false)
      (guard-HasCaps false) refl refl (omega arith) (omega arith)
