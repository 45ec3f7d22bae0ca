-- ===== src/Skill.antt =====
-- skill/: parts of the skill runtime that stand by themselves.
pub mod IntegerMath
pub mod Tasks
pub mod Scheduler
pub mod Values
pub mod Mutations
mod Examples
