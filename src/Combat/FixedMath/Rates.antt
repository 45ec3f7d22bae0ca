-- ===== src/Combat/FixedMath/Rates.antt =====
-- combat/combat.go: ScaleBasisPoints, and the selection of the lesser and the greater int64.
use roost_skill.Common.{ℕ, ◌-◌, ◌*◌, ◌/◌, ◌^◌, ◌≤◌, ◌<◌, ◌≡◌, arith, leb, if◌then◌else◌}
use roost_skill.Common.Int.{ℤ, pos, negsuc, ◌*ℤ◌, ◌≤ℤ◌, clamp64, InRange, wrap64, quot}
use roost_skill.Combat.FixedMath.{scale_basis_points, basis_point_scale}
use roost_skill.Combat.FixedMath.Saturation.{saturating_mul-clamp64, clamp64-InRange, mul_pos_pos}

quot_scale_wrap : (a : ℤ) → InRange a → wrap64 (quot a basis_point_scale) ≡ quot a basis_point_scale
unfolding wrap64 quot
quot_scale_wrap (pos a) h = ground arith
quot_scale_wrap (negsuc a) h = ground arith

-- Scaling of an int64 by an int64 rate is the exact product, kept in range, divided by 10000 towards zero.
pub scale_basis_points-clamp64 :
    (v r : ℤ)
    → InRange v
    → InRange r
    → scale_basis_points v r ≡ quot (clamp64 (v *ℤ r)) basis_point_scale
unfolding scale_basis_points
scale_basis_points-clamp64 v r hv hr =
    rw (saturating_mul-clamp64 v r hv hr)
      (quot_scale_wrap (clamp64 (v *ℤ r)) (clamp64-InRange (v *ℤ r)))

mul_mono : (a b r : ℕ) → a ≤ b → a * r ≤ b * r
mul_mono a b r h = grind arith

pub scale_nat :
    (a r : ℕ)
    → a < 2 ^ 63
    → r < 2 ^ 63
    → scale_basis_points (pos a) (pos r)
      ≡ pos ((if leb (a * r) (2 ^ 63 - 1) then a * r else 2 ^ 63 - 1) / 10000)
unfolding quot
scale_nat a r ha hr =
    rw (scale_basis_points-clamp64 (pos a) (pos r) (omega arith) (omega arith), mul_pos_pos a r)
      (ground arith)

-- A nonnegative value scaled by a rate of 0 to 100% stays between 0 and itself.
pub scale_le :
    (v r : ℤ)
    → InRange v
    → InRange r
    → pos 0 ≤ℤ v
    → pos 0 ≤ℤ r
    → r ≤ℤ basis_point_scale
    → (pos 0 ≤ℤ scale_basis_points v r) × (scale_basis_points v r ≤ℤ v)
scale_le (pos a) (pos r) hv hr pv pr h =
    rw (scale_nat a r (omega arith) (omega arith)) (ground (arith, mul_mono r 10000 a))
scale_le (negsuc a) r hv hr pv pr h = absurd (omega arith)
scale_le (pos a) (negsuc r) hv hr pv pr h = absurd (omega arith)

-- A greater nonnegative value scales to no less, at every nonnegative rate.
pub scale_mono :
    (v w r : ℤ)
    → InRange w
    → InRange r
    → pos 0 ≤ℤ v
    → v ≤ℤ w
    → pos 0 ≤ℤ r
    → scale_basis_points v r ≤ℤ scale_basis_points w r
scale_mono (pos a) (pos b) (pos r) hw hr pv h pr =
    rw (scale_nat a r (omega arith) (omega arith))
      (rw (scale_nat b r (omega arith) (omega arith)) (ground (arith, mul_mono a b r)))
scale_mono (negsuc a) b r hw hr pv h pr = absurd (omega arith)
scale_mono (pos a) (negsuc b) r hw hr pv h pr = absurd (omega arith)
scale_mono (pos a) (pos b) (negsuc r) hw hr pv h pr = absurd (omega arith)
