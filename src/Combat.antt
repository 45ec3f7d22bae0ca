-- ===== src/Combat.antt =====
-- The package combat.
pub mod FixedMath
pub mod Combatant
pub mod Damage
pub mod Healing
pub mod Attributes
pub mod Buffs
pub mod Roll
mod Examples
