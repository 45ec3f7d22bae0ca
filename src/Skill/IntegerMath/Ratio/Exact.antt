-- ===== src/Skill/IntegerMath/Ratio/Exact.antt =====
-- skill/fixed_math.go: mulDivRounded and the exact rounded ratio.
use roost_skill.Common.{
  ℕ, zero, suc, ◌+◌, ◌*◌, ◌/◌, ◌%◌, ◌^◌, ◌<◌, ◌≤◌, Bool, true, false, if◌then◌else◌, ◌==◌, ltb, leb,
  arith, ◌≡◌, refl, sym, ap, if_cases, Bool-cases, ◌∙◌, inl, inr, ◌&&◌, not,
}
use roost_skill.Common.Int.{
  ℤ, pos, negsuc, ◌-ℤ◌, ◌+ℤ◌, ◌*ℤ◌, InRange, ltb_ℤ, eqb_ℤ, sub_ℕ, wrap64, clamp64, quot, neg_ℕ,
  add64, sub64,
}
use roost_skill.Skill.IntegerMath.{abs_uint64}
use roost_skill.Skill.IntegerMath.SquareRoot.{mul-le-mul, div_bounds}
use roost_skill.Skill.IntegerMath.Ratio.{
  differ, mul_div_rounded, signed, exact_of_magnitudes, magnitude, exact_ratio,
}
use roost_skill.Skill.IntegerMath.Ratio.Magnitudes.{magnitudes-exact, remainder_below}

abs_uint64-magnitude : (a : ℤ) → InRange a → abs_uint64 a ≡ magnitude a
unfolding abs_uint64 add64 sub64 wrap64 ◌+ℤ◌ ◌-ℤ◌
abs_uint64-magnitude (pos n) h = ground arith
abs_uint64-magnitude (negsuc n) h = ground arith

sub_left : (a b c : ℕ) → a ≡ c → b ≡ 0 → sub_ℕ a b ≡ pos c
sub_left a b c e f = ground arith

sub_right : (a b c : ℕ) → a ≡ 0 → b ≡ c → sub_ℕ a b ≡ neg_ℕ c
sub_right a b zero e f = ground arith
sub_right a b (suc c) e f = ground arith

is_neg-pos : (n : ℕ) → ltb_ℤ (pos n) (pos 0) ≡ false
is_neg-pos n = ground arith

is_neg-negsuc : (n : ℕ) → ltb_ℤ (negsuc n) (pos 0) ≡ true
is_neg-negsuc n = ground arith

magnitude-pos : (n : ℕ) → magnitude (pos n) ≡ n
magnitude-pos n = omega arith

magnitude-negsuc : (n : ℕ) → magnitude (negsuc n) ≡ suc n
magnitude-negsuc n = omega arith

is_neg-neg_ℕ : (n : ℕ) → ltb_ℤ (neg_ℕ n) (pos 0) ≡ not (n == 0)
is_neg-neg_ℕ zero = refl
is_neg-neg_ℕ (suc n) = ground arith

magnitude-neg_ℕ : (n : ℕ) → magnitude (neg_ℕ n) ≡ n
magnitude-neg_ℕ zero = refl
magnitude-neg_ℕ (suc n) = omega arith

product_nonzero : (a b : ℕ) → (suc a * suc b == 0) ≡ false
product_nonzero a b = let h : 0 < suc a * suc b = grind arith in ground arith

quot-signed :
    (p d : ℤ)
    → quot p d ≡ signed (differ (ltb_ℤ p (pos 0)) (ltb_ℤ d (pos 0))) (magnitude p / magnitude d)
unfolding quot
quot-signed (pos a) (pos b) = rw (is_neg-pos a, is_neg-pos b, magnitude-pos a, magnitude-pos b) refl
quot-signed (pos a) (negsuc b) =
    rw (is_neg-pos a, is_neg-negsuc b, magnitude-pos a, magnitude-negsuc b) refl
quot-signed (negsuc a) (pos b) =
    rw (is_neg-negsuc a, is_neg-pos b, magnitude-negsuc a, magnitude-pos b) refl
quot-signed (negsuc a) (negsuc b) =
    rw (is_neg-negsuc a, is_neg-negsuc b, magnitude-negsuc a, magnitude-negsuc b) refl

product-pos : (a b : ℕ) → pos a *ℤ pos b ≡ pos (a * b)
unfolding ◌*ℤ◌
product-pos a b = sub_left (a * b + 0 * 0) (a * 0 + 0 * b) (a * b) (omega arith) (omega arith)

product-pos_negsuc : (a b : ℕ) → pos a *ℤ negsuc b ≡ neg_ℕ (a * suc b)
unfolding ◌*ℤ◌
product-pos_negsuc a b =
    sub_right (a * 0 + 0 * suc b) (a * suc b + 0 * 0) (a * suc b) (omega arith) (omega arith)

product-negsuc_pos : (a b : ℕ) → negsuc a *ℤ pos b ≡ neg_ℕ (suc a * b)
unfolding ◌*ℤ◌
product-negsuc_pos a b =
    sub_right (0 * b + suc a * 0) (0 * 0 + suc a * b) (suc a * b) (omega arith) (omega arith)

product-negsuc : (a b : ℕ) → negsuc a *ℤ negsuc b ≡ pos (suc a * suc b)
unfolding ◌*ℤ◌
product-negsuc a b =
    sub_left (0 * 0 + suc a * suc b) (0 * suc b + suc a * 0) (suc a * suc b) (omega arith)
      (omega arith)

-- The sign that mulDivRounded finds.
abbrev product_neg : ℤ → ℤ → Bool
product_neg v n =
    not (eqb_ℤ v (pos 0)) && not (eqb_ℤ n (pos 0)) && differ (ltb_ℤ v (pos 0)) (ltb_ℤ n (pos 0))

product_lem :
    (v n : ℤ)
    → (product_neg v n ≡ ltb_ℤ (v *ℤ n) (pos 0)) × (magnitude (v *ℤ n) ≡ magnitude v * magnitude n)
product_lem (pos a) (pos b) = rw (product-pos a b) (ground arith, omega arith)
product_lem (negsuc a) (negsuc b) = rw (product-negsuc a b) (ground arith, omega arith)
product_lem (pos zero) (negsuc b) =
    rw (product-pos_negsuc 0 b, is_neg-neg_ℕ (0 * suc b), magnitude-neg_ℕ (0 * suc b))
      (ground arith, omega arith)
product_lem (pos (suc a)) (negsuc b) =
    rw
      (
        product-pos_negsuc (suc a) b,
        is_neg-neg_ℕ (suc a * suc b),
        magnitude-neg_ℕ (suc a * suc b),
        product_nonzero a b,
      )
      (ground arith, omega arith)
product_lem (negsuc a) (pos zero) =
    rw (product-negsuc_pos a 0, is_neg-neg_ℕ (suc a * 0), magnitude-neg_ℕ (suc a * 0))
      (ground arith, omega arith)
product_lem (negsuc a) (pos (suc b)) =
    rw
      (
        product-negsuc_pos a (suc b),
        is_neg-neg_ℕ (suc a * suc b),
        magnitude-neg_ℕ (suc a * suc b),
        product_nonzero a b,
      )
      (ground arith, omega arith)

exact_of_magnitudes-ratio :
    (v n d : ℤ)
    → exact_of_magnitudes
        (product_neg v n)
        (differ (product_neg v n) (ltb_ℤ d (pos 0)))
        (magnitude v * magnitude n)
        (magnitude d)
      ≡ exact_ratio v n d
unfolding exact_ratio
exact_of_magnitudes-ratio v n d =
    let p = product_lem v n in rw (p.0, ← p.1, quot-signed (v *ℤ n) d) refl

nonzero_magnitude : (d : ℤ) → eqb_ℤ d (pos 0) ≡ false → 0 < magnitude d
nonzero_magnitude (pos zero) e = absurd (ground arith)
nonzero_magnitude (pos (suc n)) e = omega arith
nonzero_magnitude (negsuc n) e = omega arith

small_magnitude : (d : ℤ) → InRange d → magnitude d ≤ 2 ^ 63
small_magnitude (pos n) h = omega arith
small_magnitude (negsuc n) h = omega arith

-- Over all of int64, mulDivRounded is the exact ratio, rounded by the product's sign and clamped to
-- int64; with a denominator of 0 it is 0.
pub mul_div_rounded-exact_ratio :
    (v n d : ℤ)
    → InRange v
    → InRange n
    → InRange d
    → mul_div_rounded v n d ≡ (if eqb_ℤ d (pos 0) then pos 0 else clamp64 (exact_ratio v n d))
unfolding mul_div_rounded
mul_div_rounded-exact_ratio v n d hv hn hd = elim (Bool-cases (eqb_ℤ d (pos 0))) [
  | inl e ↦ rw e refl
  | inr e ↦
      rw (e, abs_uint64-magnitude v hv, abs_uint64-magnitude n hn, abs_uint64-magnitude d hd)
        (magnitudes-exact (product_neg v n) (differ (product_neg v n) (ltb_ℤ d (pos 0)))
            (magnitude v) (magnitude n) (magnitude d) (nonzero_magnitude d e) (small_magnitude d hd)
          ∙ ap clamp64 (exact_of_magnitudes-ratio v n d))
]

cancel_lt : (a b c : ℕ) → a * c < b * c → a < b
cancel_lt a b c h = elim (Bool-cases (ltb a b)) [
  | inl lt ↦ ground arith
  | inr ge ↦ absurd (omega (arith, mul-le-mul b a c c (ground arith) (omega arith)))
]

div_unique : (n d q : ℕ) → 0 < d → q * d ≤ n → n < (q + 1) * d → n / d ≡ q
div_unique n d q nonzero low high =
    let b = div_bounds n d nonzero in
    let up : n / d < q + 1 = cancel_lt (n / d) (q + 1) d (omega arith) in
    let down : q < n / d + 1 = cancel_lt q (n / d + 1) d (omega arith) in omega arith

half_away :
    (p d : ℕ) → 0 < d → (p / d + (if leb d (p % d * 2) then 1 else 0)) ≡ (2 * p + d) / (2 * d)
half_away p d nonzero =
    if_cases (λ b. p / d + b ≡ (2 * p + d) / (2 * d)) (leb d (p % d * 2))
      (λ e. up p d (p / d) (p % d) (parts p d) nonzero (remainder_below p d nonzero) (ground arith))
      (λ e. down p d (p / d) (p % d) (parts p d) nonzero (ground arith))
  where
    parts : (p d : ℕ) → p ≡ p / d * d + p % d
    parts p d = grind arith

    up : (p d q r : ℕ) → p ≡ q * d + r → 0 < d → r < d → d ≤ r * 2 → q + 1 ≡ (2 * p + d) / (2 * d)
    up p d q r e nonzero lt h =
        sym (div_unique (2 * p + d) (2 * d) (q + 1) (omega arith) (omega arith) (omega arith))

    down : (p d q r : ℕ) → p ≡ q * d + r → 0 < d → r * 2 < d → q + 0 ≡ (2 * p + d) / (2 * d)
    down p d q r e nonzero h =
        sym (div_unique (2 * p + d) (2 * d) (q + 0) (omega arith) (omega arith) (omega arith))

joined :
    (sign : Bool) (q : ℕ) (b : Bool)
    → signed (differ sign false) q +ℤ (if b then (if sign then negsuc 0 else pos 1) else pos 0)
      ≡ signed sign (q + (if b then 1 else 0))
unfolding ◌+ℤ◌
joined true zero true = refl
joined true zero false = refl
joined true (suc q) true = let e : suc q + 1 ≡ suc (suc q) = omega arith in rw e (ground arith)
joined true (suc q) false = let e : suc q + 0 ≡ suc q = omega arith in rw e (ground arith)
joined false q true = ground arith
joined false q false = ground arith

exact_ratio-half_away :
    (v n : ℤ) (d : ℕ)
    → 0 < d
    → exact_ratio v n (pos d)
      ≡ signed (ltb_ℤ (v *ℤ n) (pos 0)) ((2 * magnitude (v *ℤ n) + d) / (2 * d))
unfolding exact_ratio
exact_ratio-half_away v n d h =
    rw
      (
        quot-signed (v *ℤ n) (pos d),
        is_neg-pos d,
        magnitude-pos d,
        ← half_away (magnitude (v *ℤ n)) d h,
      )
      (joined (ltb_ℤ (v *ℤ n) (pos 0)) (magnitude (v *ℤ n) / d)
        (leb d (magnitude (v *ℤ n) % d * 2)))

-- With a positive denominator, as at every call, mulDivRounded rounds half away from zero: of the
-- exact product P it is sign(P) * ((2 * |P| + d) / (2 * d)), clamped to int64.
pub mul_div_rounded-half_away :
    (v n : ℤ) (d : ℕ)
    → InRange v
    → InRange n
    → InRange (pos d)
    → 0 < d
    → mul_div_rounded v n (pos d)
      ≡ clamp64 (signed (ltb_ℤ (v *ℤ n) (pos 0)) ((2 * magnitude (v *ℤ n) + d) / (2 * d)))
mul_div_rounded-half_away v n d hv hn hd h =
    mul_div_rounded-exact_ratio v n (pos d) hv hn hd
    ∙ rw (exact_ratio-half_away v n d h) (nonzero_denominator d h _)
  where
    nonzero_denominator :
        (d : ℕ) → 0 < d → (x : ℤ) → (if eqb_ℤ (pos d) (pos 0) then pos 0 else x) ≡ x
    nonzero_denominator d h x = ground arith
