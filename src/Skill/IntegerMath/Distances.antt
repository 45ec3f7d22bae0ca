-- ===== src/Skill/IntegerMath/Distances.antt =====
-- skill/fixed_math.go: the integer distance and the exact one.
use native.Mathlib.Nat.{pow-succ'}
use roost_skill.Common.{
  ℕ, zero, suc, ◌+◌, ◌-◌, ◌*◌, ◌/◌, ◌%◌, ◌^◌, ◌<◌, ◌≤◌, Bool, true, false, if◌then◌else◌, leb,
  arith, ◌≡◌, refl, sym, if_cases, Bool-cases, subst, ◌⊎◌, inl, inr, ◌&&◌,
}
use roost_skill.Common.Int.{
  ℤ, pos, negsuc, pos_part, neg_part, ◌-ℤ◌, ◌+ℤ◌, ◌*ℤ◌, sub_ℕ, InRange, ltb_ℤ,
}
use roost_skill.Skill.IntegerMath.{
  isqrt64, big_sqrt, abs_delta_uint64, Position, Distance, round_root, round64, squared64, bounded,
  exact_squared, fast_limit, fast_distance, integer_distance_saturated, distance_exceeds,
  big_integer_distance_saturated, to_int64,
}
use roost_skill.Skill.IntegerMath.SquareRoot.{FloorRoot, isqrt64-FloorRoot, mul-le-mul}

-- The integer nearest to the square root: d - 1/2 < sqrt s < d + 1/2.
abbrev pub Nearest : ℕ → ℕ → Type 0
Nearest s d = ((d ≡ 0) ⊎ (d * d < s + d)) × (s ≤ d * d + d)

round_root-Nearest : (s r : ℕ) → FloorRoot s r → Nearest s (round_root s r)
unfolding round_root
round_root-Nearest s r h =
    if_cases (Nearest s) (leb (r + 1) (s - r * r)) (λ e. up s r h (ground arith))
      (λ e. down s r h (ground arith))
  where
    up : (s r : ℕ) → FloorRoot s r → r + 1 ≤ s - r * r → Nearest s (r + 1)
    up s r h e = (inr (omega arith), omega arith)

    down : (s r : ℕ) → FloorRoot s r → s - r * r ≤ r → Nearest s r
    down s zero h e = (inl refl, omega arith)
    down s (suc r) h e = (inr (omega arith), omega arith)

big_sqrt-FloorRoot : (fuel n : ℕ) → n < 4 ^ fuel → FloorRoot n (big_sqrt fuel n)
unfolding big_sqrt
big_sqrt-FloorRoot zero n h = omega arith
big_sqrt-FloorRoot (suc fuel) n h =
    let ih = big_sqrt-FloorRoot fuel (n / 4) (quarter n (4 ^ fuel) (rw (pow-succ' 4 fuel) at h)) in
    if_cases (FloorRoot n)
      (leb ((2 * big_sqrt fuel (n / 4) + 1) * (2 * big_sqrt fuel (n / 4) + 1)) n)
      (λ e. up n (big_sqrt fuel (n / 4)) ih (ground arith))
      (λ e. down n (big_sqrt fuel (n / 4)) ih (ground arith))
  where
    quarter : (n p : ℕ) → n < 4 * p → n / 4 < p
    quarter n p h = omega arith

    up : (n r : ℕ) → FloorRoot (n / 4) r → (2 * r + 1) * (2 * r + 1) ≤ n → FloorRoot n (2 * r + 1)
    up n r h e = omega arith

    down : (n r : ℕ) → FloorRoot (n / 4) r → n < (2 * r + 1) * (2 * r + 1) → FloorRoot n (2 * r)
    down n r h e = omega arith

-- The magnitude of an integer.
abbrev magnitude : ℤ → ℕ
magnitude d = pos_part d + neg_part d

sub_zero : (a b c : ℕ) → a ≡ c → b ≡ 0 → sub_ℕ a b ≡ pos c
sub_zero a b c e f = ground arith

square-magnitude : (d : ℤ) → d *ℤ d ≡ pos (magnitude d * magnitude d)
unfolding ◌*ℤ◌
square-magnitude (pos n) =
    sub_zero (n * n + 0 * 0) (n * 0 + 0 * n) ((n + 0) * (n + 0)) (omega arith) (omega arith)
square-magnitude (negsuc n) =
    sub_zero (0 * 0 + suc n * suc n) (0 * suc n + suc n * 0) ((0 + suc n) * (0 + suc n))
      (omega arith) (omega arith)

abs_delta-magnitude : (a b : ℤ) → InRange a → InRange b → abs_delta_uint64 a b ≡ magnitude (a -ℤ b)
unfolding abs_delta_uint64 ◌-ℤ◌
abs_delta-magnitude (pos a) (pos b) h k = ground arith
abs_delta-magnitude (pos a) (negsuc b) h k = ground arith
abs_delta-magnitude (negsuc a) (pos b) h k = ground arith
abs_delta-magnitude (negsuc a) (negsuc b) h k = ground arith

magnitude_below : (a b : ℤ) → InRange a → InRange b → magnitude (a -ℤ b) < 2 ^ 64
unfolding ◌-ℤ◌
magnitude_below (pos a) (pos b) h k = ground arith
magnitude_below (pos a) (negsuc b) h k = ground arith
magnitude_below (negsuc a) (pos b) h k = ground arith
magnitude_below (negsuc a) (negsuc b) h k = ground arith

-- The magnitudes of the differences of the coordinates.
abbrev delta_x : Position → Position → ℕ
delta_x l r = magnitude (r.x -ℤ l.x)

abbrev delta_y : Position → Position → ℕ
delta_y l r = magnitude (r.y -ℤ l.y)

pos_sum : (a b : ℕ) → pos_part (pos a +ℤ pos b) ≡ a + b
unfolding ◌+ℤ◌
pos_sum a b = ground arith

exact_squared_lem :
    (l r : Position) → exact_squared l r ≡ delta_x l r * delta_x l r + delta_y l r * delta_y l r
exact_squared_lem l r =
    rw (square-magnitude (r.x -ℤ l.x), square-magnitude (r.y -ℤ l.y))
      (pos_sum (delta_x l r * delta_x l r) (delta_y l r * delta_y l r))

isqrt_below : (s r : ℕ) → s < 2 ^ 64 → FloorRoot s r → r < 2 ^ 32
isqrt_below s r h f = elim (Bool-cases (leb (2 ^ 32) r)) [
  | inl big ↦
      absurd (omega (arith, mul-le-mul (2 ^ 32) r (2 ^ 32) r (ground arith) (ground arith), f.0))
  | inr small ↦ ground arith
]

squared64_lem :
    (dx dy : ℕ)
    → dx ≤ fast_limit
    → dy ≤ fast_limit
    → (squared64 dx dy ≡ dx * dx + dy * dy) × (dx * dx + dy * dy < 2 ^ 64)
squared64_lem dx dy h k =
    no_wrap (dx * dx) (dy * dy) (mul-le-mul dx fast_limit dx fast_limit h h)
      (mul-le-mul dy fast_limit dy fast_limit k k)
  where
    no_wrap :
        (a b : ℕ)
        → a ≤ fast_limit * fast_limit
        → b ≤ fast_limit * fast_limit
        → ((a % 2 ^ 64 + b % 2 ^ 64) % 2 ^ 64 ≡ a + b) × (a + b < 2 ^ 64)
    no_wrap a b h k = omega arith

round64_lem : (s r : ℕ) → s < 2 ^ 64 → r < 2 ^ 32 → r * r ≤ s → round64 s r ≡ round_root s r
unfolding round_root
round64_lem s r h k le = rw (next r k, remainder s (r * r) h le) refl
  where
    next : (r : ℕ) → r < 2 ^ 32 → (r + 1) % 2 ^ 64 ≡ r + 1
    next r k = omega arith

    remainder : (s q : ℕ) → s < 2 ^ 64 → q ≤ s → (s + 2 ^ 64 - q % 2 ^ 64) % 2 ^ 64 ≡ s - q
    remainder s q h le = omega arith

round_root-le : (s r : ℕ) → round_root s r ≤ r + 1
unfolding round_root
round_root-le s r = ground arith

to_int64-bounded :
    (d : ℕ)
    → d ≤ 2 ^ 32
    → ◌≡◌ {A = Distance} (record { distance = to_int64 d; saturated = false }) (bounded d)
to_int64-bounded d h = ground arith

-- In the range of the fast path nothing wraps.
fast_distance_lem :
    (dx dy : ℕ)
    → dx ≤ fast_limit
    → dy ≤ fast_limit
    → (d : ℕ) × Nearest (dx * dx + dy * dy) d × (fast_distance dx dy ≡ bounded d)
unfolding fast_distance
fast_distance_lem dx dy h k =
    let q = squared64_lem dx dy h k in
    let s : ℕ = dx * dx + dy * dy in
    let f = isqrt64-FloorRoot s q.1 in
    let small = isqrt_below s (isqrt64 s) q.1 f in
    let d : ℕ = round_root s (isqrt64 s) in
    (
      d,
      round_root-Nearest s (isqrt64 s) f,
      rw (q.0, round64_lem s (isqrt64 s) q.1 small f.0)
          (to_int64-bounded d (omega (arith, round_root-le s (isqrt64 s)))),
    )

big_distance_lem :
    (l r : Position)
    → exact_squared l r < 4 ^ 66
    → (d : ℕ) × Nearest (exact_squared l r) d × (big_integer_distance_saturated l r ≡ bounded d)
unfolding big_integer_distance_saturated
big_distance_lem l r h = (
  round_root (exact_squared l r) (big_sqrt 66 (exact_squared l r)),
  round_root-Nearest (exact_squared l r) (big_sqrt 66 (exact_squared l r))
      (big_sqrt-FloorRoot 66 (exact_squared l r) h),
  refl,
)

abbrev pub PositionInRange : Position → Type 0
PositionInRange p = InRange p.x × InRange p.y

squared_below :
    (l r : Position) → PositionInRange l → PositionInRange r → exact_squared l r < 4 ^ 66
squared_below l r h k = rw (exact_squared_lem l r) (
    below (delta_x l r) (delta_y l r) (magnitude_below r.x l.x k.0 h.0)
      (magnitude_below r.y l.y k.1 h.1))
  where
    below : (a b : ℕ) → a < 2 ^ 64 → b < 2 ^ 64 → a * a + b * b < 4 ^ 66
    below a b h k = omega (
      arith,
      mul-le-mul a (2 ^ 64) a (2 ^ 64) (omega arith) (omega arith),
      mul-le-mul b (2 ^ 64) b (2 ^ 64) (omega arith) (omega arith),
    )

-- For positions of int64 coordinates the distance is the exact one, of the differences over all
-- integers, rounded to the nearest integer; where that is above the largest int64 it is that, and
-- marked as saturated. The fast path in uint64 and the path by big integers agree in this.
pub integer_distance_saturated-Nearest :
    (l r : Position)
    → PositionInRange l
    → PositionInRange r
    → (d : ℕ) × Nearest (exact_squared l r) d × (integer_distance_saturated l r ≡ bounded d)
unfolding integer_distance_saturated
integer_distance_saturated-Nearest l r h k =
    if_cases (λ (x : Distance). (d : ℕ) × Nearest (exact_squared l r) d × (x ≡ bounded d))
      (leb (abs_delta_uint64 r.x l.x) fast_limit && leb (abs_delta_uint64 r.y l.y) fast_limit)
      (λ e. fast (both (leb dx fast_limit) (leb dy fast_limit) e))
      (λ _. big_distance_lem l r (squared_below l r h k))
  where
    dx : ℕ
    dx = abs_delta_uint64 r.x l.x

    dy : ℕ
    dy = abs_delta_uint64 r.y l.y

    both : (x y : Bool) → (x && y) ≡ true → (x ≡ true) × (y ≡ true)
    both x y e = ground arith

    squares : dx * dx + dy * dy ≡ exact_squared l r
    squares =
        rw (abs_delta-magnitude r.x l.x k.0 h.0, abs_delta-magnitude r.y l.y k.1 h.1)
          (sym (exact_squared_lem l r))

    fast :
        (leb dx fast_limit ≡ true) × (leb dy fast_limit ≡ true)
        → (d : ℕ) × Nearest (exact_squared l r) d × (fast_distance dx dy ≡ bounded d)
    fast e =
        subst (λ s. (d : ℕ) × Nearest s d × (fast_distance dx dy ≡ bounded d)) squares
          (fast_distance_lem dx dy (ground arith) (ground arith))

-- A distance exceeds a bound just where the exact distance, rounded to the nearest, does: also where
-- it is above every int64.
pub distance_exceeds-Nearest :
    (l r : Position) (maximum : ℤ)
    → PositionInRange l
    → PositionInRange r
    → InRange maximum
    → (d : ℕ) × Nearest (exact_squared l r) d
      × (distance_exceeds l r maximum ≡ ltb_ℤ maximum (pos d))
unfolding distance_exceeds
distance_exceeds-Nearest l r maximum h k m =
    let n = integer_distance_saturated-Nearest l r h k in
    (n.0, n.1, rw (n.2) (exceeds n.0 maximum m))
  where
    exceeds :
        (d : ℕ) (maximum : ℤ)
        → InRange maximum
        → (let b = bounded d in if b.saturated then true else ltb_ℤ maximum b.distance)
          ≡ ltb_ℤ maximum (pos d)
    exceeds d (pos n) m = ground arith
    exceeds d (negsuc n) m = ground arith
