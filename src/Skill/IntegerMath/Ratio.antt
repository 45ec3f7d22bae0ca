-- ===== src/Skill/IntegerMath/Ratio.antt =====
-- skill/fixed_math.go: mulDivRounded, and the exact rounded ratio.
pub mod Magnitudes
pub mod Exact
use native.Mathlib.Nat.{pow-succ'}
use roost_skill.Common.{
  ℕ, zero, suc, ◌+◌, ◌-◌, ◌*◌, ◌/◌, ◌%◌, ◌^◌, ◌<◌, ◌≤◌, Bool, true, false, if◌then◌else◌, ◌==◌, ltb,
  leb, arith, ◌≡◌, ◌≢◌, refl, sym, ap, if_cases, if_both, Bool-cases, ◌∙◌, subst, ◌⊎◌, inl, inr,
  ◌&&◌, not, ◌||◌,
}
use roost_skill.Common.Int.{
  ℤ, pos, negsuc, pos_part, neg_part, ◌-ℤ◌, ◌+ℤ◌, ◌*ℤ◌, InRange, max64, min64, ltb_ℤ, residue64,
  leb_ℤ, eqb_ℤ, sub_ℕ, signed64, wrap64, clamp64, quot, neg_ℕ, add64, sub64,
}
use roost_skill.Skill.IntegerMath.{abs_uint64, to_int64}
use roost_skill.Skill.IntegerMath.SquareRoot.{mul-le-mul, div_bounds}

abbrev pub differ : Bool → Bool → Bool
differ a b = if a then not b else b

abbrev pub bump_for : Bool → (remainder denominator : ℕ) → ℤ
bump_for product_neg remainder denominator =
    if leb denominator (remainder * 2 % 2 ^ 64)
    then (if product_neg then negsuc 0 else pos 1)
    else pos 0

-- The end of mulDivRounded: a signed quotient and its bump, saturated.
unfoldable pub bumped : Bool → ℕ → ℤ → ℤ
bumped true quotient bump =
    if ltb (2 ^ 63 - 1 + 1) quotient
    then min64
    else let base =
        sub64 (sub64 (pos 0) (to_int64 (quotient / 2))) (to_int64 (quotient - quotient / 2)) in
      if eqb_ℤ base min64 && ltb_ℤ bump (pos 0) then min64 else add64 base bump
bumped false quotient bump =
    if ltb (2 ^ 63 - 1) quotient
    then max64
    else if eqb_ℤ (to_int64 quotient) max64 && ltb_ℤ (pos 0) bump
    then max64
    else add64 (to_int64 quotient) bump

-- After the signs: bits.Mul64 and bits.Div64 on the magnitudes.
unfoldable pub ratio_of_magnitudes : Bool → Bool → (value numerator denominator : ℕ) → ℤ
unfolding bumped
ratio_of_magnitudes product_neg quotient_neg u n d =
    let hi = u * n / 2 ^ 64 in
    let lo = u * n % 2 ^ 64 in
    if leb d hi
    then (if quotient_neg then min64 else max64)
    else bumped quotient_neg ((hi * 2 ^ 64 + lo) / d)
        (bump_for product_neg ((hi * 2 ^ 64 + lo) % d) d)

unfoldable pub mul_div_rounded : ℤ → ℤ → ℤ → ℤ
unfolding abs_uint64 ratio_of_magnitudes
mul_div_rounded value numerator denominator =
    if eqb_ℤ denominator (pos 0)
    then pos 0
    else let product_neg =
        not (eqb_ℤ value (pos 0))
        && not (eqb_ℤ numerator (pos 0))
        && differ (ltb_ℤ value (pos 0)) (ltb_ℤ numerator (pos 0)) in
      let quotient_neg = differ product_neg (ltb_ℤ denominator (pos 0)) in
      ratio_of_magnitudes product_neg quotient_neg (abs_uint64 value) (abs_uint64 numerator)
        (abs_uint64 denominator)

-- The exact reference: the truncated quotient, moved by one in the direction of the product where
-- the remainder is at least half of the denominator.
abbrev pub signed : Bool → ℕ → ℤ
signed true n = neg_ℕ n
signed false n = pos n

abbrev pub exact_bump : Bool → (remainder denominator : ℕ) → ℤ
exact_bump product_neg r d =
    if leb d (r * 2) then (if product_neg then negsuc 0 else pos 1) else pos 0

abbrev pub exact_of_magnitudes : Bool → Bool → (product denominator : ℕ) → ℤ
exact_of_magnitudes product_neg quotient_neg p d =
    signed quotient_neg (p / d) +ℤ exact_bump product_neg (p % d) d

abbrev pub magnitude : ℤ → ℕ
magnitude a = pos_part a + neg_part a

-- value * numerator / denominator over all integers: the quotient truncated toward zero, moved by
-- one in the direction of the product where the remainder is at least half of the denominator.
unfoldable pub exact_ratio : ℤ → ℤ → ℤ → ℤ
exact_ratio value numerator denominator =
    let product = value *ℤ numerator in
    quot product denominator
    +ℤ exact_bump (ltb_ℤ product (pos 0)) (magnitude product % magnitude denominator)
        (magnitude denominator)
