-- ===== src/Combat/FixedMath/Saturation.antt =====
-- combat/combat.go: the saturating operations against the exact ones.
use roost_skill.Common.{ℕ, zero, suc, ◌+◌, ◌-◌, ◌*◌, ◌/◌, ◌%◌, ◌^◌, ◌≤◌, ◌<◌, ◌≡◌, arith}
use roost_skill.Common.Int.{ℤ, pos, negsuc, ◌+ℤ◌, ◌-ℤ◌, ◌*ℤ◌, clamp64, InRange, wrap64, quot, neg_ℕ}
use roost_skill.Combat.FixedMath.{saturating_add, saturating_sub, saturating_mul}

-- Saturating addition of two int64 is the exact sum, kept in range at its ends.
pub saturating_add-clamp64 :
    (a b : ℤ) → InRange a → InRange b → saturating_add a b ≡ clamp64 (a +ℤ b)
unfolding saturating_add wrap64 ◌+ℤ◌ ◌-ℤ◌
saturating_add-clamp64 (pos a) (pos b) ha hb = ground arith
saturating_add-clamp64 (pos a) (negsuc b) ha hb = ground arith
saturating_add-clamp64 (negsuc a) (pos b) ha hb = ground arith
saturating_add-clamp64 (negsuc a) (negsuc b) ha hb = ground arith

-- Saturating subtraction of two int64 is the exact difference, kept in range at its ends.
pub saturating_sub-clamp64 :
    (a b : ℤ) → InRange a → InRange b → saturating_sub a b ≡ clamp64 (a -ℤ b)
unfolding saturating_sub wrap64 ◌+ℤ◌ ◌-ℤ◌
saturating_sub-clamp64 (pos a) (pos b) ha hb = ground arith
saturating_sub-clamp64 (pos a) (negsuc b) ha hb = ground arith
saturating_sub-clamp64 (negsuc a) (pos b) ha hb = ground arith
saturating_sub-clamp64 (negsuc a) (negsuc b) ha hb = ground arith

-- A quotient that gives the factor back has lost nothing of the product.
div_recovers : (w a b : ℕ) → 0 < b → w ≤ a * b → w / b ≡ a → w ≡ a * b
div_recovers w a b hb hw e = grind arith

div-mul : (a b : ℕ) → 0 < b → (a * b) / b ≡ a
div-mul a b hb = grind arith

mul_pos : (a b : ℕ) → 0 < a → 0 < b → 0 < a * b
mul_pos a b ha hb = grind arith

-- The product in each combination of signs.
pub mul_pos_pos : (a b : ℕ) → pos a *ℤ pos b ≡ pos (a * b)
unfolding ◌*ℤ◌
mul_pos_pos a b = ground arith

pub mul_pos_neg : (a b : ℕ) → pos a *ℤ negsuc b ≡ neg_ℕ (a * suc b)
unfolding ◌*ℤ◌
mul_pos_neg a b = ground arith

mul_neg_pos : (a b : ℕ) → negsuc a *ℤ pos b ≡ neg_ℕ (suc a * b)
unfolding ◌*ℤ◌
mul_neg_pos a b = ground arith

mul_neg_neg : (a b : ℕ) → negsuc a *ℤ negsuc b ≡ pos (suc a * suc b)
unfolding ◌*ℤ◌
mul_neg_neg a b = ground arith

saturating_mul_pos_pos :
    (a b : ℕ) → a < 2 ^ 63 → b < 2 ^ 63 → saturating_mul (pos a) (pos b) ≡ clamp64 (pos a *ℤ pos b)
unfolding saturating_mul wrap64 quot
saturating_mul_pos_pos a b ha hb =
    rw mul_pos_pos (ground (arith, div_recovers ((a * b) % 2 ^ 64) a b, div-mul a b, mul_pos a b))

saturating_mul_pos_neg :
    (a b : ℕ)
    → a < 2 ^ 63
    → b < 2 ^ 63
    → saturating_mul (pos a) (negsuc b) ≡ clamp64 (pos a *ℤ negsuc b)
unfolding saturating_mul wrap64 quot
saturating_mul_pos_neg zero b ha hb = rw mul_pos_neg (ground arith)
saturating_mul_pos_neg (suc a) b ha hb = rw mul_pos_neg (
    ground (
      arith,
      div_recovers ((suc a * suc b - 1) % 2 ^ 64 + 1) (suc a) (suc b),
      div-mul (suc a) (suc b),
      mul_pos (suc a) (suc b),
    ))

saturating_mul_neg_pos :
    (a b : ℕ)
    → a < 2 ^ 63
    → b < 2 ^ 63
    → saturating_mul (negsuc a) (pos b) ≡ clamp64 (negsuc a *ℤ pos b)
unfolding saturating_mul wrap64 quot
saturating_mul_neg_pos a zero ha hb = rw mul_neg_pos (ground arith)
saturating_mul_neg_pos a (suc b) ha hb = rw mul_neg_pos (
    ground (
      arith,
      div_recovers ((suc a * suc b - 1) % 2 ^ 64 + 1) (suc a) (suc b),
      div-mul (suc a) (suc b),
      mul_pos (suc a) (suc b),
    ))

saturating_mul_neg_neg :
    (a b : ℕ)
    → a < 2 ^ 63
    → b < 2 ^ 63
    → saturating_mul (negsuc a) (negsuc b) ≡ clamp64 (negsuc a *ℤ negsuc b)
unfolding saturating_mul wrap64 quot
saturating_mul_neg_neg a b ha hb = rw mul_neg_neg (
    ground (
      arith,
      div_recovers ((suc a * suc b) % 2 ^ 64) (suc a) (suc b),
      div-mul (suc a) (suc b),
      mul_pos (suc a) (suc b),
    ))

-- Saturating multiplication of two int64 is the exact product, kept in range at its ends: the
-- overflow test by division misses no overflow and rejects no exact product.
pub saturating_mul-clamp64 :
    (a b : ℤ) → InRange a → InRange b → saturating_mul a b ≡ clamp64 (a *ℤ b)
saturating_mul-clamp64 (pos a) (pos b) ha hb =
    saturating_mul_pos_pos a b (omega arith) (omega arith)
saturating_mul-clamp64 (pos a) (negsuc b) ha hb =
    saturating_mul_pos_neg a b (omega arith) (omega arith)
saturating_mul-clamp64 (negsuc a) (pos b) ha hb =
    saturating_mul_neg_pos a b (omega arith) (omega arith)
saturating_mul-clamp64 (negsuc a) (negsuc b) ha hb =
    saturating_mul_neg_neg a b (omega arith) (omega arith)

pub clamp64-InRange : (a : ℤ) → InRange (clamp64 a)
clamp64-InRange a = ground arith
