-- ===== src/Combat/Damage/Mitigation.antt =====
-- combat/damage.go: the resistance formula 10000 / (10000 + 100 R) and the rate stages.
use mathlib.Core.Path.{subst₂}
use native.Mathlib.Nat.{le_trans}
use roost_skill.Common.{
  ℕ, zero, suc, ◌+◌, ◌-◌, ◌*◌, ◌/◌, ◌^◌, ◌≤◌, ◌<◌, ◌≡◌, arith, leb, if◌then◌else◌,
}
use roost_skill.Common.Int.{
  ℤ, pos, negsuc, ◌≤ℤ◌, ◌-ℤ◌, -ℤ_parts, ◌+ℤ◌, InRange, max64, quot, wrap64, div64, clamp64,
}
use roost_skill.Combat.FixedMath.{
  saturating_mul, saturating_add, saturating_sub, max_int64, basis_point_scale,
}
use roost_skill.Combat.FixedMath.Saturation.{
  saturating_mul-clamp64, saturating_add-clamp64, saturating_sub-clamp64, mul_pos_pos,
  clamp64-InRange,
}
use roost_skill.Combat.Damage.{mitigate}
use roost_skill.Combat.Damage.Stages.{IsAmount}

-- The greatest int64, as a number, and a number kept below it.
abbrev top : ℕ
top = 2 ^ 63 - 1

abbrev below_top : ℕ → ℕ
below_top n = if leb n top then n else top

-- What resistance `r` leaves of the amount `a`.
abbrev share_left : ℕ → ℕ → ℕ
share_left zero a = a
share_left (suc r) a = below_top (a * 10000) / below_top (10000 + below_top (suc r * 100))

mul_100 : (a : ℕ) → a ≤ top → saturating_mul (pos a) (pos 100) ≡ pos (below_top (a * 100))
mul_100 a h =
    rw (saturating_mul-clamp64 (pos a) (pos 100) (omega arith) (omega arith), mul_pos_pos a 100)
      (ground arith)

mul_scale : (a : ℕ) → a ≤ top → saturating_mul (pos a) (pos 10000) ≡ pos (below_top (a * 10000))
mul_scale a h =
    rw (saturating_mul-clamp64 (pos a) (pos 10000) (omega arith) (omega arith), mul_pos_pos a 10000)
      (ground arith)

add_scale : (a : ℕ) → a ≤ top → saturating_add (pos 10000) (pos a) ≡ pos (below_top (10000 + a))
unfolding ◌+ℤ◌
add_scale a h =
    rw (saturating_add-clamp64 (pos 10000) (pos a) (omega arith) (omega arith)) (ground arith)

div_pos : (a b : ℕ) → a ≤ top → div64 (pos a) (pos b) ≡ pos (a / b)
unfolding div64 wrap64 quot
div_pos a b h = ground arith

resist_nat :
    (r a : ℕ)
    → r ≤ top
    → a ≤ top
    → 0 < r
    → div64
        (saturating_mul (pos a) basis_point_scale)
        (saturating_add basis_point_scale (saturating_mul (pos r) (pos 100)))
      ≡ pos (share_left r a)
resist_nat (suc r) a hr ha h =
    rw (mul_scale a ha, mul_100 (suc r) hr, add_scale (below_top (suc r * 100)) (ground arith))
      (div_pos _ _ (ground arith))
resist_nat zero a hr ha h = absurd (omega arith)

-- The net resistance of `mitigate`.
abbrev pub net : ℤ → ℤ → ℤ
net raw penetration = max_int64 (pos 0) (saturating_sub raw penetration)

mitigate_nat :
    (raw pen : ℤ) (r a : ℕ)
    → net raw pen ≡ pos r
    → r ≤ top
    → a ≤ top
    → mitigate raw pen (pos a) ≡ pos (share_left r a)
unfolding mitigate
mitigate_nat raw pen zero a e hr ha = rw e
mitigate_nat raw pen (suc r) a e hr ha = rw e (ground (arith, resist_nat (suc r) a hr ha))

div_mono : (a b d : ℕ) → a ≤ b → 0 < d → a / d ≤ b / d
div_mono a b d h k = grind arith

div_anti : (a d e : ℕ) → d ≤ e → 0 < d → a / e ≤ a / d
div_anti a d e h k = grind arith

div_le : (a d : ℕ) → 10000 ≤ d → a * 10000 / d ≤ a
div_le a d h = grind arith

below_mono : (a b : ℕ) → a ≤ b → below_top a ≤ below_top b
below_mono a b h = ground arith

abbrev denominator : ℕ → ℕ
denominator r = below_top (10000 + below_top (r * 100))

denominator_ge : (r : ℕ) → 10000 ≤ denominator r
denominator_ge r = ground arith

denominator_mono : (r q : ℕ) → r ≤ q → denominator r ≤ denominator q
denominator_mono r q h = ground arith

share_left-le : (r a : ℕ) → share_left r a ≤ a
share_left-le zero a = omega arith
share_left-le (suc r) a =
    let d = denominator (suc r) in
    le_trans (div_mono (below_top (a * 10000)) (a * 10000) d (ground arith) (ground arith))
      (div_le a d (denominator_ge (suc r)))

share_left_mono : (r a b : ℕ) → a ≤ b → share_left r a ≤ share_left r b
share_left_mono zero a b h = h
share_left_mono (suc r) a b h =
    div_mono (below_top (a * 10000)) (below_top (b * 10000)) (denominator (suc r))
      (below_mono (a * 10000) (b * 10000) (omega arith)) (ground arith)

share_left-anti : (r q a : ℕ) → r ≤ q → share_left q a ≤ share_left r a
share_left-anti zero zero a h = omega arith
share_left-anti (suc r) zero a h = absurd (omega arith)
share_left-anti zero (suc q) a h = share_left-le (suc q) a
share_left-anti (suc r) (suc q) a h =
    div_anti (below_top (a * 10000)) (denominator (suc r)) (denominator (suc q))
      (denominator_mono (suc r) (suc q) h) (ground arith)

-- The net resistance is a number, and grows with the resistance.
net_nat : (raw pen : ℤ) → InRange raw → InRange pen → (r : ℕ) × (net raw pen ≡ pos r) × (r ≤ top)
unfolding max_int64
net_nat raw pen hr hp =
    rw (saturating_sub-clamp64 raw pen hr hp)
      (go (clamp64 (raw -ℤ pen)) (clamp64-InRange (raw -ℤ pen)))
  where
    go : (d : ℤ) → InRange d → (r : ℕ) × (max_int64 (pos 0) d ≡ pos r) × (r ≤ top)
    go (pos d) h = (d, ground arith, omega arith)
    go (negsuc d) h = (0, ground arith, omega arith)

net_mono :
    (raw raw' pen : ℤ)
    → InRange raw
    → InRange raw'
    → InRange pen
    → raw ≤ℤ raw'
    → net raw pen ≤ℤ net raw' pen
unfolding max_int64
net_mono raw raw' pen h h' hp le =
    rw (saturating_sub-clamp64 raw pen h hp, saturating_sub-clamp64 raw' pen h' hp)
      (ground (arith, -ℤ_parts raw pen, -ℤ_parts raw' pen))

-- Mitigation of a nonnegative int64 amount by int64 rates never adds damage and never heals.
pub mitigate_bounds :
    (raw pen a : ℤ)
    → InRange raw
    → InRange pen
    → IsAmount a
    → (pos 0 ≤ℤ mitigate raw pen a) × (mitigate raw pen a ≤ℤ a)
mitigate_bounds raw pen (pos a) hr hp h =
    let n = net_nat raw pen hr hp in
    rw (mitigate_nat raw pen n.0 a n.1 n.2 (omega arith))
      (omega arith, omega (arith, share_left-le n.0 a))
mitigate_bounds raw pen (negsuc a) hr hp h = absurd (omega arith)

-- More resistance never lets more of a nonnegative int64 amount through.
pub mitigate-anti_resistance :
    (raw raw' pen a : ℤ)
    → InRange raw
    → InRange raw'
    → InRange pen
    → IsAmount a
    → raw ≤ℤ raw'
    → mitigate raw' pen a ≤ℤ mitigate raw pen a
mitigate-anti_resistance raw raw' pen (pos a) hr hr' hp h le =
    let n = net_nat raw pen hr hp in
    let m = net_nat raw' pen hr' hp in
    let k : pos n.0 ≤ℤ pos m.0 =
      subst₂ (λ x y. x ≤ℤ y) n.1 m.1 (net_mono raw raw' pen hr hr' hp le) in
    rw (mitigate_nat raw pen n.0 a n.1 n.2 (omega arith)) (
      rw (mitigate_nat raw' pen m.0 a m.1 m.2 (omega arith))
        (omega (arith, share_left-anti n.0 m.0 a (omega arith))))
mitigate-anti_resistance raw raw' pen (negsuc a) hr hr' hp h le = absurd (omega arith)

-- More raw damage never leaves less.
pub mitigate-mono :
    (raw pen a b : ℤ)
    → InRange raw
    → InRange pen
    → pos 0 ≤ℤ a
    → a ≤ℤ b
    → b ≤ℤ max64
    → mitigate raw pen a ≤ℤ mitigate raw pen b
mitigate-mono raw pen (pos a) (pos b) hr hp pa le hb =
    let n = net_nat raw pen hr hp in
    rw (mitigate_nat raw pen n.0 a n.1 n.2 (omega arith)) (
      rw (mitigate_nat raw pen n.0 b n.1 n.2 (omega arith))
        (omega (arith, share_left_mono n.0 a b (omega arith))))
mitigate-mono raw pen (negsuc a) b hr hp pa le hb = absurd (omega arith)
mitigate-mono raw pen (pos a) (negsuc b) hr hp pa le hb = absurd (omega arith)
