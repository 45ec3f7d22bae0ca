-- ===== src/Combat/Combatant.antt =====
-- combat/damage.go: the data of the damage pipeline, and the interface of its hooks.
use roost_skill.Common.{
  ℕ, Bool, true, if◌then◌else◌, String, List, [], ◌∷◌, Option, none, some, ◌==◌, ◌≡◌,
}
use roost_skill.Common.Int.{ℤ, pos, ◌≤ℤ◌, ◌<ℤ◌, max64, InRange}

-- DamageTypeTrue, DamageTypePhysical, DamageTypeMagical, and every other uint16 value.
pub data DamageType : Type 0 where
  true_damage physical magical : DamageType
  unknown : ℕ → DamageType

pub record Combatant : Type 0 where
  pub alive : Bool
  pub health : ℤ
  pub max_health : ℤ
  pub shield : ℤ
  pub armor : ℤ
  pub magic_resistance : ℤ
  pub penetration : ℤ
  pub damage_dealt_bp : ℤ
  pub damage_taken_bp : ℤ
  pub critical_multiplier_bp : ℤ
  pub element_multipliers_bp : List (ℕ × ℤ)
  pub vamp_bp : ℤ
  pub damage_cap : ℤ
  pub minimum_damage : ℤ
  pub dodge : Bool
  pub parry : Bool
  pub block : Bool
  pub damage_immune : Bool
  pub spell_shield : Bool
  pub force_critical : Bool

pub record DamageInput : Type 0 where
  pub amount : ℤ
  pub damage_type : DamageType
  pub element : ℕ
  pub can_critical : Bool
  pub spell_tagged : Bool

pub record DamageOutcome : Type 0 where
  pub attempted : ℤ
  pub mitigated : ℤ
  pub absorbed : ℤ
  pub health_damage : ℤ
  pub vamp_heal : ℤ
  pub dodged : Bool
  pub parried : Bool
  pub blocked : Bool
  pub critical : Bool
  pub immune : Bool
  pub killed : Bool
  pub combat_hooks : List String
  pub result : String

-- The interface Hooks over the state `W` of the embedding world. The peeks only read it.
pub record Hooks (W : Type 0) : Type 0 where
  pub peek_spell_shield : W → Option String
  pub peek_critical_override : W → Option String
  pub peek_death_prevention : W → Option String
  pub consume_hook : String → W → W
  pub on_shield_absorbed : ℤ → W → W

-- The pointer `source`: nil, another combatant than the target, or the target itself.
pub data Source : Type 0 where
  world : Source
  other : Combatant → Source
  itself : Source

-- What `source` points to, while the target is `t`.
abbrev pub attacker : Source → Combatant → Option Combatant
attacker world t = none
attacker (other s) t = some s
attacker itself t = some t

-- A Go map read: a missing key gives 0.
unfoldable pub element_multiplier : ℕ → List (ℕ × ℤ) → ℤ
element_multiplier e [] = pos 0
element_multiplier e ((k, v) ∷ rest) = if k == e then v else element_multiplier e rest

-- A living combatant has some health, and no health exceeds its maximum.
pub record IsSound (c : Combatant) : Type 0 where
  pub health_nonneg : pos 0 ≤ℤ c.health
  pub health_le : c.health ≤ℤ c.max_health
  pub max_health_le : c.max_health ≤ℤ max64
  pub alive_pos : c.alive ≡ true → pos 0 <ℤ c.health
  pub shield_range : InRange c.shield
