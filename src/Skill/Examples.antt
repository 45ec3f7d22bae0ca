-- ===== src/Skill/Examples.antt =====
-- Tests of the integer arithmetic, and its theorems at concrete inputs.
use roost_skill.Common.{ℕ, true, if◌then◌else◌, ◌≡◌, refl, arith}
use roost_skill.Common.Int.{
  pos, negsuc, ◌*ℤ◌, clamp64, eqb_ℤ, max64, add64, sub64, wrap64, ◌+ℤ◌, ◌-ℤ◌,
}
use roost_skill.Skill.IntegerMath.{
  isqrt64, Position, bounded, integer_distance_saturated, integer_distance, exact_squared,
  fast_distance, abs_delta_uint64, big_integer_distance_saturated, round_root, big_sqrt,
}
use roost_skill.Skill.IntegerMath.SquareRoot.{isqrt64-FloorRoot, FloorRoot}
use roost_skill.Skill.IntegerMath.Distances.{integer_distance_saturated-Nearest, Nearest}
use roost_skill.Skill.IntegerMath.Ratio.{mul_div_rounded, exact_ratio}
use roost_skill.Skill.IntegerMath.Ratio.Exact.{mul_div_rounded-exact_ratio}

abbrev near : Position
near = record { x = pos 1; y = pos 1 }

abbrev far : Position
far = record { x = negsuc 1; y = pos 5 }

isqrt64_99 : isqrt64 99 ≡ 9
unfolding isqrt64
isqrt64_99 = refl

distance_5 : integer_distance near far ≡ pos 5
unfolding integer_distance integer_distance_saturated abs_delta_uint64 fast_distance isqrt64
distance_5 = refl

distance_huge :
    integer_distance_saturated
      (record { x = max64; y = max64 })
      (record { x = negsuc 0; y = negsuc 0 })
    ≡ record { distance = max64; saturated = true }
unfolding integer_distance_saturated big_integer_distance_saturated abs_delta_uint64 round_root
    big_sqrt ◌+ℤ◌ ◌*ℤ◌ ◌-ℤ◌
distance_huge = refl

-- 1 / -2 rounds to 1, by the sign of the product.
one_by_minus_two : mul_div_rounded (pos 1) (pos 1) (negsuc 1) ≡ pos 1
unfolding mul_div_rounded sub64 wrap64 ◌-ℤ◌ add64 ◌+ℤ◌
one_by_minus_two = refl

isqrt64-FloorRoot_example : FloorRoot 99 (isqrt64 99)
isqrt64-FloorRoot_example = isqrt64-FloorRoot 99 (omega arith)

integer_distance_saturated-Nearest_example :
    (d : ℕ) × Nearest (exact_squared near far) d × (integer_distance_saturated near far ≡ bounded d)
integer_distance_saturated-Nearest_example =
    integer_distance_saturated-Nearest near far (omega arith) (omega arith)

mul_div_rounded-exact_ratio_example : mul_div_rounded (negsuc 6) (pos 5) (negsuc 1) ≡ (
    if eqb_ℤ (negsuc 1) (pos 0) then pos 0 else clamp64 (exact_ratio (negsuc 6) (pos 5) (negsuc 1)))
mul_div_rounded-exact_ratio_example =
    mul_div_rounded-exact_ratio (negsuc 6) (pos 5) (negsuc 1) (omega arith) (omega arith)
      (omega arith)
