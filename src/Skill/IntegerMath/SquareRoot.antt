-- ===== src/Skill/IntegerMath/SquareRoot.antt =====
-- skill/fixed_math.go: isqrt64 and the square root.
use mathlib.Core.Logic.{dite}
use mathlib.Core.WellFounded.{Acc}
use native.Mathlib.Decide.{dec_lt}
use native.Mathlib.Nat.{pow-succ', pow-le-pow_right}
use roost_skill.Common.{
  ℕ, zero, suc, ◌+◌, ◌-◌, ◌*◌, ◌/◌, ◌%◌, ◌^◌, ◌<◌, ◌≤◌, ◌==◌, leb, arith, ◌≡◌, if_cases, Bool-cases,
  inl, inr, subst,
}
use roost_skill.Skill.IntegerMath.{newton, newton_step, isqrt64, seed, len64, bit_length, lt_wf}

-- The floor of the square root of x.
abbrev pub FloorRoot : ℕ → ℕ → Type 0
FloorRoot x r = (r * r ≤ x) × (x < (r + 1) * (r + 1))

four_mul-le_add : (a d : ℕ) → 4 * (a * (a + d)) ≤ (a + (a + d)) * (a + (a + d))
four_mul-le_add a d = grind arith

four_mul-le : (a b : ℕ) → 4 * (a * b) ≤ (a + b) * (a + b)
four_mul-le a b = elim (Bool-cases (leb a b)) [
  | inl le ↦
      let e : a + (b - a) ≡ b = ground arith in
      subst (λ c. 4 * (a * c) ≤ (a + c) * (a + c)) e (four_mul-le_add a (b - a))
  | inr gt ↦
      let e : b + (a - b) ≡ a = ground arith in
      omega (arith, subst (λ c. 4 * (b * c) ≤ (b + c) * (b + c)) e (four_mul-le_add b (a - b)))
]

pub mul-le-mul : (a b c d : ℕ) → a ≤ b → c ≤ d → a * c ≤ b * d
mul-le-mul a b c d h k = grind arith

mean_above : (x root q m : ℕ) → root + q + 1 ≤ 2 * m → x < root * (q + 1) → x < m * m
mean_above x root q m le h = omega (
  arith,
  four_mul-le root (q + 1),
  mul-le-mul (root + (q + 1)) (2 * m) (root + (q + 1)) (2 * m) (omega arith) (omega arith),
)

-- One round keeps the root at or above the floor.
step_above :
    (x root q : ℕ) → 0 < root → x < root * (q + 1) → x < ((root + q) / 2 + 1) * ((root + q) / 2 + 1)
step_above x root q pos h = mean_above x root q ((root + q) / 2 + 1) (omega arith) h

pub div_bounds : (x root : ℕ) → 0 < root → (x / root * root ≤ x) × (x < root * (x / root + 1))
div_bounds x root h = grind arith

cancel_le : (a b c : ℕ) → 0 < c → a * c ≤ b * c → a ≤ b
cancel_le a b c pos h = elim (Bool-cases (leb a b)) [
  | inl le ↦ ground arith
  | inr gt ↦ absurd (omega (arith, mul-le-mul (b + 1) a c c (ground arith) (omega arith)))
]

quotient_small :
    (x root q : ℕ) → 0 < root → q * root ≤ x → x < (root + 1) * (root + 1) → q ≤ root + 2
quotient_small x root q pos h above = cancel_le q (root + 2) root pos (omega arith)

step_positive : (x root q : ℕ) → 0 < x → 0 < root → x < root * (q + 1) → 0 < (root + q) / 2
step_positive x root zero some_x pos h = omega arith
step_positive x root (suc q) some_x pos h = omega arith

small_step : (root q : ℕ) → root ≤ 2 ^ 32 → q ≤ root + 2 → (root + q) % 2 ^ 64 / 2 ≡ (root + q) / 2
small_step root q small h = omega arith

-- Below 2 ^ 64 a round does not wrap, and its mean is above the floor and not 0.
newton_step-above :
    (x root : ℕ)
    → 0 < x
    → 0 < root
    → root ≤ 2 ^ 32
    → x < (root + 1) * (root + 1)
    → (newton_step x root ≡ (root + x / root) / 2)
      × (x < (newton_step x root + 1) * (newton_step x root + 1))
newton_step-above x root some_x pos small above =
    let d = div_bounds x root pos in
    let e : newton_step x root ≡ (root + x / root) / 2 =
      small_step root (x / root) small (quotient_small x root (x / root) pos d.0 above) in
    (e, rw e (step_above x root (x / root) pos d.1))

below_mean : (root q m : ℕ) → ¬ (m < root) → m ≡ (root + q) / 2 → root ≤ q
below_mean root q m h e = omega arith

quotient_low : (x root q : ℕ) → q * root ≤ x → root ≤ q → root * root ≤ x
quotient_low x root q h le = omega (arith, mul-le-mul root q root root le (omega arith))

dite_cases :
    {A : Type 0} (P : ℕ → Type 0) (d : Dec A) {f : A → ℕ} {g : ¬ A → ℕ}
    → ((h : A) → P (f h))
    → ((h : ¬ A) → P (g h))
    → P (dite d f g)
dite_cases P (yes h) p q = p h
dite_cases P (no h) p q = q h

newton-FloorRoot :
    (x root : ℕ) (w : Acc ◌<◌ root)
    → 0 < x
    → 0 < root
    → root ≤ 2 ^ 32
    → x < (root + 1) * (root + 1)
    → FloorRoot x (newton x root w)
unfolding newton
newton-FloorRoot x root (Acc.intro _ smaller) some_x pos small above =
    let step = newton_step-above x root some_x pos small above in
    let d = div_bounds x root pos in
    dite_cases (FloorRoot x) (dec_lt (newton_step x root) root)
      (λ h.
        newton-FloorRoot x (newton_step x root) (smaller (newton_step x root) h) some_x
          (rw step.0 (step_positive x root (x / root) some_x pos d.1)) (omega arith) step.1)
      (λ h. (
        quotient_low x root (x / root) d.0
            (below_mean root (x / root) (newton_step x root) h step.0),
        above,
      ))

bit_length-above : (fuel x : ℕ) → x < 2 ^ fuel → x < 2 ^ bit_length fuel x
unfolding bit_length
bit_length-above zero x h = h
bit_length-above (suc fuel) x h =
    if_cases (λ n. x < 2 ^ n) (x == 0) (λ e. ground arith)
      λ e. rw (pow-succ' 2 (bit_length fuel (x / 2))) (
        halved x (2 ^ bit_length fuel (x / 2))
          (bit_length-above fuel (x / 2) (halved_below x (2 ^ fuel) (rw (pow-succ' 2 fuel) at h))))
  where
    halved : (x p : ℕ) → x / 2 < p → x < 2 * p
    halved x p h = omega arith

    halved_below : (x p : ℕ) → x < 2 * p → x / 2 < p
    halved_below x p h = omega arith

bit_length-le : (fuel x : ℕ) → bit_length fuel x ≤ fuel
unfolding bit_length
bit_length-le zero x = omega arith
bit_length-le (suc fuel) x = ground (arith, bit_length-le fuel (x / 2))

half_pow : (n : ℕ) → 2 ^ n ≤ 2 ^ ((n + 1) / 2) * 2 ^ ((n + 1) / 2)
half_pow zero = omega arith
half_pow (suc zero) = omega arith
half_pow (suc (suc n)) =
    let e : (suc (suc n) + 1) / 2 ≡ suc ((n + 1) / 2) = omega arith in
    rw (e, pow-succ' 2 ((n + 1) / 2), pow-succ' 2 (suc n), pow-succ' 2 n)
      (omega (arith, half_pow n))

seed_above : (x : ℕ) → x < 2 ^ 64 → x < (seed x + 1) * (seed x + 1)
seed_above x h = above x (2 ^ len64 x) (seed x) (bit_length-above 64 x h) (half_pow (len64 x))
  where
    above : (x p s : ℕ) → x < p → p ≤ s * s → x < (s + 1) * (s + 1)
    above x p s h k = omega arith

seed_bounds : (x : ℕ) → (0 < seed x) × (seed x ≤ 2 ^ 32)
seed_bounds x =
    let k : (len64 x + 1) / 2 ≤ 32 = omega (arith, bit_length-le 64 x) in
    (
      pow-le-pow_right {n = 2} (omega arith) {i = 0} {j = (len64 x + 1) / 2} (omega arith),
      pow-le-pow_right {n = 2} (omega arith) {i = (len64 x + 1) / 2} {j = 32} k,
    )

-- isqrt64 is the floor of the square root of every uint64.
pub isqrt64-FloorRoot : (x : ℕ) → x < 2 ^ 64 → FloorRoot x (isqrt64 x)
unfolding isqrt64
isqrt64-FloorRoot x h =
    if_cases (FloorRoot x) (x == 0) (λ e. ground arith)
      λ e.
        newton-FloorRoot x (seed x) (lt_wf.apply (seed x)) (ground arith) (seed_bounds x).0
          (seed_bounds x).1 (seed_above x h)
