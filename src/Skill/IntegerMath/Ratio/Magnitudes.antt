-- ===== src/Skill/IntegerMath/Ratio/Magnitudes.antt =====
-- skill/fixed_math.go: mulDivRounded on signs and magnitudes.
use roost_skill.Common.{
  ℕ, zero, suc, ◌+◌, ◌-◌, ◌*◌, ◌/◌, ◌%◌, ◌^◌, ◌<◌, ◌≤◌, Bool, true, false, if◌then◌else◌, ltb, leb,
  arith, ◌≡◌, refl, if_cases, if_both, Bool-cases, ◌⊎◌, inl, inr, ◌&&◌,
}
use roost_skill.Common.Int.{
  ℤ, pos, negsuc, ◌-ℤ◌, ◌+ℤ◌, max64, min64, ltb_ℤ, eqb_ℤ, wrap64, clamp64, neg_ℕ, add64, sub64,
}
use roost_skill.Skill.IntegerMath.{to_int64}
use roost_skill.Skill.IntegerMath.SquareRoot.{mul-le-mul, div_bounds}
use roost_skill.Skill.IntegerMath.Ratio.{
  bumped, ratio_of_magnitudes, signed, exact_bump, exact_of_magnitudes,
}

-- -quotient, from its halves.
negated :
    (q : ℕ) → q ≤ 2 ^ 63 → sub64 (sub64 (pos 0) (to_int64 (q / 2))) (to_int64 (q - q / 2)) ≡ neg_ℕ q
unfolding sub64 wrap64 ◌-ℤ◌
negated q h = ground arith

abbrev IsBump : ℤ → Type 0
IsBump bump = (bump ≡ negsuc 0) ⊎ ((bump ≡ pos 0) ⊎ (bump ≡ pos 1))

neg_big : (q : ℕ) (bump : ℤ) → IsBump bump → 2 ^ 63 < q → min64 ≡ clamp64 (neg_ℕ q +ℤ bump)
unfolding ◌+ℤ◌
neg_big zero bump h big = absurd (omega arith)
neg_big (suc q) bump (inl e) big = rw e (ground arith)
neg_big (suc q) bump (inr (inl e)) big = rw e (ground arith)
neg_big (suc q) bump (inr (inr e)) big = rw e (ground arith)

neg_small :
    (q : ℕ) (bump : ℤ)
    → IsBump bump
    → q ≤ 2 ^ 63
    → (if eqb_ℤ (neg_ℕ q) min64 && ltb_ℤ bump (pos 0) then min64 else add64 (neg_ℕ q) bump)
      ≡ clamp64 (neg_ℕ q +ℤ bump)
unfolding add64 wrap64 ◌+ℤ◌
neg_small zero bump (inl e) small = rw e refl
neg_small zero bump (inr (inl e)) small = rw e refl
neg_small zero bump (inr (inr e)) small = rw e refl
neg_small (suc q) bump (inl e) small = rw e (ground arith)
neg_small (suc q) bump (inr (inl e)) small = rw e (ground arith)
neg_small (suc q) bump (inr (inr e)) small = rw e (ground arith)

bumped_neg : (q : ℕ) (bump : ℤ) → IsBump bump → bumped true q bump ≡ clamp64 (neg_ℕ q +ℤ bump)
unfolding bumped
bumped_neg q bump h =
    if_cases (λ x. x ≡ clamp64 (neg_ℕ q +ℤ bump)) (ltb (2 ^ 63 - 1 + 1) q)
      (λ e. neg_big q bump h (ground arith))
      (λ e. rw (negated q (ground arith)) (neg_small q bump h (ground arith)))

bumped_pos : (q : ℕ) (bump : ℤ) → IsBump bump → bumped false q bump ≡ clamp64 (pos q +ℤ bump)
unfolding bumped add64 wrap64 ◌+ℤ◌
bumped_pos q bump (inl e) = rw e (ground arith)
bumped_pos q bump (inr (inl e)) = rw e (ground arith)
bumped_pos q bump (inr (inr e)) = rw e (ground arith)

exact_bump-IsBump : (pn : Bool) (r d : ℕ) → IsBump (exact_bump pn r d)
exact_bump-IsBump true r d = if_both IsBump (leb d (r * 2)) (inl refl) (inr (inl refl))
exact_bump-IsBump false r d = if_both IsBump (leb d (r * 2)) (inr (inr refl)) (inr (inl refl))

pub remainder_below : (p d : ℕ) → 0 < d → p % d < d
remainder_below p d h = grind arith

-- A quotient beyond 64 bits is beyond int64 whatever the bump.
huge :
    (qn : Bool) (q : ℕ) (bump : ℤ)
    → IsBump bump
    → 2 ^ 64 ≤ q
    → (if qn then min64 else max64) ≡ clamp64 (signed qn q +ℤ bump)
unfolding ◌+ℤ◌
huge true q bump h big = neg_big q bump h (omega arith)
huge false q bump (inl e) big = rw e (ground arith)
huge false q bump (inr (inl e)) big = rw e (ground arith)
huge false q bump (inr (inr e)) big = rw e (ground arith)

bumped-clamp64 :
    (qn : Bool) (q : ℕ) (bump : ℤ) → IsBump bump → bumped qn q bump ≡ clamp64 (signed qn q +ℤ bump)
bumped-clamp64 true q bump h = bumped_neg q bump h
bumped-clamp64 false q bump h = bumped_pos q bump h

-- The high word reaches the denominator just where the quotient is beyond 64 bits.
high_word : (p d : ℕ) → 0 < d → d ≤ p / 2 ^ 64 → 2 ^ 64 ≤ p / d
high_word p d nonzero h = elim (Bool-cases (leb (2 ^ 64) (p / d))) [
  | inl big ↦ ground arith
  | inr small ↦ absurd (
      omega (
        arith,
        (div_bounds p d nonzero).1,
        mul-le-mul d d (p / d + 1) (2 ^ 64) (omega arith) (ground arith),
      ))
]

pub magnitudes-exact :
    (pn qn : Bool) (u n d : ℕ)
    → 0 < d
    → d ≤ 2 ^ 63
    → ratio_of_magnitudes pn qn u n d ≡ clamp64 (exact_of_magnitudes pn qn (u * n) d)
unfolding ratio_of_magnitudes
magnitudes-exact pn qn u n d nonzero small =
    rw (words (u * n), doubled (u * n % d) d (remainder_below (u * n) d nonzero) small)
      (if_cases (λ x. x ≡ clamp64 (exact_of_magnitudes pn qn (u * n) d)) (leb d (u * n / 2 ^ 64))
        (λ e.
          huge qn (u * n / d) (exact_bump pn (u * n % d) d) (exact_bump-IsBump pn (u * n % d) d)
            (high_word (u * n) d nonzero (ground arith)))
        (λ e.
          bumped-clamp64 qn (u * n / d) (exact_bump pn (u * n % d) d)
            (exact_bump-IsBump pn (u * n % d) d)))
  where
    words : (p : ℕ) → p / 2 ^ 64 * 2 ^ 64 + p % 2 ^ 64 ≡ p
    words p = omega arith

    doubled : (r d : ℕ) → r < d → d ≤ 2 ^ 63 → r * 2 % 2 ^ 64 ≡ r * 2
    doubled r d h k = omega arith
