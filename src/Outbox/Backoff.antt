-- ===== src/Outbox/Backoff.antt =====
-- skillsync/outbox.go: the delay after a failed attempt.
use roost_skill.Common.{
  ℕ, zero, suc, ◌+◌, ◌-◌, ◌*◌, ◌^◌, ◌≤◌, ◌<◌, if◌then◌else◌, ltb, ◌≡◌, sym, ap, ◌∙◌, arith,
  Bool-cases, inl, inr,
}
use roost_skill.Common.Int.{ℤ, pos, mul64, wrap64, ltb_ℤ}
use roost_skill.Combat.FixedMath.Saturation.{mul_pos_pos}
use roost_skill.Outbox.{Limits}
use roost_skill.Outbox.Publish.{backoff, retry_delay}

abbrev pub least : ℕ → ℕ → ℕ
least a b = if ltb b a then b else a

-- The cap on the delay that the loop leaves.
abbrev capped : ℕ → ℤ → ℤ
capped m delay = if ltb_ℤ (pos m) delay then pos m else delay

-- Doubling below 2 ^ 63 does not wrap.
double_lem : (d : ℕ) → d < 2 ^ 62 → mul64 (pos d) (pos 2) ≡ pos (d * 2)
unfolding mul64 wrap64
double_lem d h = rw (mul_pos_pos d 2) (ground arith)

capped_self : (d m : ℕ) → capped m (pos d) ≡ pos (least d m)
capped_self d m = ground arith

power_pos : (n : ℕ) → 1 ≤ 2 ^ n
power_pos zero = omega arith
power_pos (suc n) = omega (arith, power_pos n)

grown : (d k m : ℕ) → 1 ≤ k → m ≤ d → least (d * k) m ≡ m
grown d k m one le = grind arith

-- One round of the loop: the delay is doubled while it is below the cap.
round_lem :
    (d k m : ℕ) (rest : ℤ)
    → 1 ≤ k
    → (d < m → capped m rest ≡ pos (least (d * k) m))
    → capped m (if ltb_ℤ (pos d) (pos m) then rest else pos d) ≡ pos (least (d * k) m)
round_lem d k m rest one h = elim (Bool-cases (ltb_ℤ (pos d) (pos m))) [
  | inl below ↦ rw below (h (ground arith))
  | inr above ↦ rw above (
      capped_self d m ∙ ap pos (least_of d m (ground arith) ∙ sym (grown d k m one (ground arith))))
]
  where
    least_of : (d m : ℕ) → m ≤ d → least d m ≡ m
    least_of d m le = ground arith

regroup : (d k l : ℕ) → l ≡ 2 * k → d * 2 * k ≡ d * l
regroup d k l e = rw e (grind arith)

backoff-least :
    (n d m : ℕ) → m ≤ 2 ^ 62 → capped m (backoff n (pos d) (pos m)) ≡ pos (least (d * 2 ^ n) m)
unfolding backoff
backoff-least zero d m h = capped_self d m ∙ ap (λ x. pos (least x m)) (omega arith)
backoff-least (suc n) d m h =
    round_lem d (2 ^ suc n) m (backoff n (mul64 (pos d) (pos 2)) (pos m)) (power_pos (suc n))
      (λ below.
        ap (λ x. capped m (backoff n x (pos m))) (double_lem d (omega (arith, below, h)))
        ∙ backoff-least n (d * 2) m h
        ∙ ap (λ x. pos (least x m)) (regroup d (2 ^ n) (2 ^ suc n) (omega arith)))

-- With a delay f after the first failure and a cap m of at most 2 ^ 62 nanoseconds, the delay after
-- attempt n + 1 is f doubled n times, or m if that is less.
pub retry_delay_lem :
    (limits : Limits) (n f m : ℕ)
    → limits.failure_retry ≡ pos f
    → limits.max_retry ≡ pos m
    → m ≤ 2 ^ 62
    → retry_delay limits (n + 1) ≡ pos (least (f * 2 ^ n) m)
unfolding retry_delay
retry_delay_lem limits n f m e g h = rw (e, g, n_lem n) (backoff-least n f m h)
  where
    n_lem : (n : ℕ) → n + 1 - 1 ≡ n
    n_lem n = omega arith
