-- ===== src/Skill/IntegerMath.antt =====
-- skill/fixed_math.go: integer arithmetic of the per-tick paths. A uint64 is a number below 2 ^ 64
-- whose operations wrap, an int64 an integer in its range; math/big is exact arithmetic.
pub mod SquareRoot
pub mod Distances
pub mod Ratio
use mathlib.Core.Logic.{dite, ite}
use mathlib.Core.WellFounded.{Acc, WellFounded}
use native.Mathlib.Decide.{dec_lt}
use roost_skill.Common.{
  ℕ, zero, suc, ◌+◌, ◌-◌, ◌*◌, ◌/◌, ◌%◌, ◌^◌, ◌<◌, ◌≤◌, Bool, true, false, if◌then◌else◌, not, ◌&&◌,
  ◌||◌, ◌==◌, ltb, leb, arith,
}
use roost_skill.Common.Int.{
  ℤ, pos, negsuc, pos_part, neg_part, max64, min64, ltb_ℤ, leb_ℤ, eqb_ℤ, add64, sub64, residue64,
  signed64, ◌-ℤ◌, ◌*ℤ◌, ◌+ℤ◌,
}

-- int64(x) of a uint64, and uint64(a) of an int64.
abbrev pub to_int64 : ℕ → ℤ
to_int64 x = signed64 x

unfoldable pub abs_uint64 : ℤ → ℕ
abs_uint64 a =
    if ltb_ℤ a (pos 0)
    then (residue64 (sub64 (pos 0) (add64 a (pos 1))) + 1) % 2 ^ 64
    else residue64 a

unfoldable pub abs_delta_uint64 : ℤ → ℤ → ℕ
abs_delta_uint64 a b =
    if leb_ℤ b a
    then (residue64 a + 2 ^ 64 - residue64 b) % 2 ^ 64
    else (residue64 b + 2 ^ 64 - residue64 a) % 2 ^ 64

-- bits.Len64, for numbers below 2 ^ fuel.
unfoldable pub bit_length : ℕ → ℕ → ℕ
bit_length zero x = 0
bit_length (suc fuel) x = if x == 0 then 0 else suc (bit_length fuel (x / 2))

abbrev pub len64 : ℕ → ℕ
len64 x = bit_length 64 x

abbrev pub newton_step : ℕ → ℕ → ℕ
newton_step x root = (root + x / root) % 2 ^ 64 / 2

-- The loop of isqrt64, whose root falls in each round.
unfoldable pub newton : (x root : ℕ) → Acc ◌<◌ root → ℕ
newton x root (Acc.intro _ smaller) =
    dite (dec_lt (newton_step x root) root)
      (λ h. newton x (newton_step x root) (smaller (newton_step x root) h)) (λ _. root)

Acc-below : (k n : ℕ) → n < k → Acc ◌<◌ n
Acc-below zero n h = elim h [ ]
Acc-below (suc k) n h = Acc.intro n (λ m hm. Acc-below k m (omega arith))

unfoldable pub lt_wf : WellFounded ◌<◌
unfolding Acc-below
lt_wf = record { apply = λ n. Acc-below (suc n) n (omega arith) }

abbrev pub seed : ℕ → ℕ
seed x = 2 ^ ((len64 x + 1) / 2)

unfoldable pub isqrt64 : ℕ → ℕ
unfolding newton lt_wf dec_lt bit_length
isqrt64 x = if x == 0 then 0 else newton x (seed x) (lt_wf.apply (seed x))

pub record Position : Type 0 where
  pub x : ℤ
  pub y : ℤ

abbrev pub fast_limit : ℕ
fast_limit = 3037000499

pub record Distance : Type 0 where
  pub distance : ℤ
  pub saturated : Bool

-- Sqrt of math/big, which is exact, for numbers below 4 ^ fuel.
unfoldable pub big_sqrt : ℕ → ℕ → ℕ
big_sqrt zero n = 0
big_sqrt (suc fuel) n =
    let r = 2 * big_sqrt fuel (n / 4) in if leb ((r + 1) * (r + 1)) n then r + 1 else r

-- root++ where the remainder is nearer to the next root.
unfoldable pub round_root : ℕ → ℕ → ℕ
round_root squared root = if leb (root + 1) (squared - root * root) then root + 1 else root

-- The fast path: squares and their sum in uint64.
abbrev pub squared64 : ℕ → ℕ → ℕ
squared64 dx dy = (dx * dx % 2 ^ 64 + dy * dy % 2 ^ 64) % 2 ^ 64

abbrev pub round64 : ℕ → ℕ → ℕ
round64 squared root =
    if leb ((root + 1) % 2 ^ 64) ((squared + 2 ^ 64 - root * root % 2 ^ 64) % 2 ^ 64)
    then (root + 1) % 2 ^ 64
    else root

unfoldable pub fast_distance : ℕ → ℕ → Distance
fast_distance dx dy =
    let squared = squared64 dx dy in
    record { distance = to_int64 (round64 squared (isqrt64 squared)); saturated = false }

-- The result of big.Int arithmetic, clamped.
abbrev pub bounded : ℕ → Distance
bounded root =
    if leb root (2 ^ 63 - 1)
    then record { distance = pos root; saturated = false }
    else record { distance = max64; saturated = true }

abbrev pub exact_squared : Position → Position → ℕ
exact_squared l r = let dx = r.x -ℤ l.x in let dy = r.y -ℤ l.y in pos_part (dx *ℤ dx +ℤ dy *ℤ dy)

unfoldable pub big_integer_distance_saturated : Position → Position → Distance
big_integer_distance_saturated l r =
    let squared = exact_squared l r in bounded (round_root squared (big_sqrt 66 squared))

unfoldable pub integer_distance_saturated : Position → Position → Distance
integer_distance_saturated l r =
    let dx = abs_delta_uint64 r.x l.x in
    let dy = abs_delta_uint64 r.y l.y in
    if leb dx fast_limit && leb dy fast_limit
    then fast_distance dx dy
    else big_integer_distance_saturated l r

unfoldable pub integer_distance : Position → Position → ℤ
integer_distance l r = let d = integer_distance_saturated l r in d.distance

unfoldable pub distance_exceeds : Position → Position → ℤ → Bool
distance_exceeds l r maximum =
    let d = integer_distance_saturated l r in if d.saturated then true else ltb_ℤ maximum d.distance
