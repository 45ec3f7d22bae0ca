-- ===== src/Combat/FixedMath.antt =====
-- combat/combat.go: saturating int64 arithmetic and basis points.
pub mod Saturation
pub mod Rates
use roost_skill.Common.{ℕ, Bool, true, false, not, ◌&&◌, ◌||◌, if◌then◌else◌}
use roost_skill.Common.Int.{
  ℤ, pos, negsuc, ltb_ℤ, eqb_ℤ, max64, min64, add64, sub64, mul64, div64, wrap64, ◌+ℤ◌, ◌-ℤ◌, ◌*ℤ◌,
  quot,
}

abbrev pub basis_point_scale : ℤ
basis_point_scale = pos 10000

unfoldable pub saturating_add : ℤ → ℤ → ℤ
unfolding add64 sub64
saturating_add left right =
    if ltb_ℤ (pos 0) right && ltb_ℤ (sub64 max64 right) left
    then max64
    else if ltb_ℤ right (pos 0) && ltb_ℤ left (sub64 min64 right)
    then min64
    else add64 left right

unfoldable pub saturating_sub : ℤ → ℤ → ℤ
unfolding add64 sub64
saturating_sub left right =
    if ltb_ℤ (pos 0) right && ltb_ℤ left (add64 min64 right)
    then min64
    else if ltb_ℤ right (pos 0) && ltb_ℤ (add64 max64 right) left
    then max64
    else sub64 left right

-- The product and whether it is exact.
unfoldable pub checked_mul : ℤ → ℤ → ℤ × Bool
unfolding mul64 div64
checked_mul left right =
    if eqb_ℤ left (pos 0) || eqb_ℤ right (pos 0)
    then (pos 0, true)
    else if eqb_ℤ left min64 && eqb_ℤ right (negsuc 0) || eqb_ℤ right min64 && eqb_ℤ left (negsuc 0)
    then (pos 0, false)
    else (mul64 left right, eqb_ℤ (div64 (mul64 left right) right) left)

unfoldable pub saturating_mul : ℤ → ℤ → ℤ
unfolding checked_mul
saturating_mul left right =
    let (product, exact) = checked_mul left right in
    if exact
    then product
    else if ltb_ℤ left (pos 0)
    then if ltb_ℤ right (pos 0) then max64 else min64
    else if ltb_ℤ right (pos 0)
    then min64
    else max64

unfoldable pub scale_basis_points : ℤ → ℤ → ℤ
unfolding saturating_mul div64
scale_basis_points value basis_points = div64 (saturating_mul value basis_points) basis_point_scale

unfoldable pub min_int64 : ℤ → ℤ → ℤ
min_int64 left right = if ltb_ℤ left right then left else right

unfoldable pub max_int64 : ℤ → ℤ → ℤ
max_int64 left right = if ltb_ℤ right left then left else right
