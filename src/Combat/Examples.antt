-- ===== src/Combat/Examples.antt =====
-- The package combat at concrete inputs: tests of the definitions, and an instance of each theorem
-- that has hypotheses.
mod Fighters
mod Effects
