-- ===== src/Combat/Healing.antt =====
-- combat/damage.go: ResolveHeal and AddShield.
use roost_skill.Common.{true, not, if◌then◌else◌, Option, none, some, ◌≡◌, arith}
use roost_skill.Common.Int.{
  ℤ, pos, negsuc, ◌≤ℤ◌, ◌<ℤ◌, ◌+ℤ◌, ◌-ℤ◌, sub64, add64, wrap64, InRange, max64, clamp64, le_trans_ℤ,
}
use roost_skill.Combat.FixedMath.{saturating_add, min_int64, max_int64}
use roost_skill.Combat.FixedMath.Saturation.{saturating_add-clamp64}
use roost_skill.Combat.Combatant.{Combatant, IsSound}

pub record HealOutcome : Type 0 where
  pub attempted : ℤ
  pub effective : ℤ

-- The health that a heal of `amount` restores.
unfoldable pub effective_heal : Combatant → ℤ → ℤ
effective_heal target amount =
    min_int64 (max_int64 amount (pos 0)) (max_int64 (pos 0) (sub64 target.max_health target.health))

-- `none` is the return with ok=false, which changes nothing.
unfoldable pub resolve_heal : Option Combatant → ℤ → Option (Combatant × HealOutcome)
unfolding effective_heal
resolve_heal none amount = none
resolve_heal (some target) amount =
    let effective = effective_heal target amount in
    if not target.alive
    then none
    else some (
      record target { health = add64 target.health effective },
      record { attempted = max_int64 amount (pos 0); effective = effective },
    )

-- The target and the points added.
unfoldable pub add_shield : Option Combatant → ℤ → Option (Combatant × ℤ)
add_shield none amount = none
add_shield (some target) amount =
    let shield = saturating_add target.shield (max_int64 amount (pos 0)) in
    if not target.alive
    then none
    else some (record target { shield = shield }, sub64 shield target.shield)

heal_numbers :
    (m v a : ℤ)
    → pos 0 ≤ℤ v
    → v ≤ℤ m
    → m ≤ℤ max64
    → InRange a
    → let e = min_int64 (max_int64 a (pos 0)) (max_int64 (pos 0) (sub64 m v)) in
      (add64 v e ≡ v +ℤ e)
      × (pos 0 ≤ℤ e)
      × (add64 v e ≤ℤ m)
      × (e ≤ℤ max_int64 a (pos 0))
      × (v ≤ℤ add64 v e)
unfolding min_int64 max_int64 sub64 add64 wrap64 ◌-ℤ◌ ◌+ℤ◌
heal_numbers (pos m) (pos v) a p q r s = ground arith
heal_numbers (negsuc m) v a p q r s = absurd (omega arith)
heal_numbers (pos m) (negsuc v) a p q r s = absurd (omega arith)

lt_of_lt_le : (a b : ℤ) → pos 0 <ℤ a → a ≤ℤ b → pos 0 <ℤ b
lt_of_lt_le a b h k = omega arith

-- A heal of a sound living target by an int64 amount adds what it reports, never more than is missing or asked for,
-- and the target stays sound.
pub resolve_heal-IsSound :
    (t : Combatant) (amount : ℤ)
    → IsSound t
    → t.alive ≡ true
    → InRange amount
    → (t' : Combatant) × (o : HealOutcome) × (resolve_heal (some t) amount ≡ some (t', o))
      × IsSound t'
      × (t'.health ≡ t.health +ℤ o.effective)
      × (pos 0 ≤ℤ o.effective)
      × (o.effective ≤ℤ o.attempted)
unfolding resolve_heal
resolve_heal-IsSound t amount v living ha =
    let n =
      heal_numbers t.max_health t.health amount v.health_nonneg v.health_le v.max_health_le ha in
    (
      record t { health = add64 t.health (effective_heal t amount) },
      record { attempted = max_int64 amount (pos 0); effective = effective_heal t amount },
      rw living,
      record {
        health_nonneg = le_trans_ℤ (pos 0) t.health _ v.health_nonneg n.4;
        health_le = n.2;
        max_health_le = v.max_health_le;
        alive_pos = λ e. lt_of_lt_le _ _ (v.alive_pos e) n.4;
        shield_range = v.shield_range;
      },
      n.0,
      n.1,
      n.3,
    )

clamped_numbers :
    (v a : ℤ)
    → InRange v
    → pos 0 ≤ℤ v
    → InRange a
    → pos 0 ≤ℤ a
    → let s = clamp64 (v +ℤ a) in
      (s ≡ v +ℤ sub64 s v) × (pos 0 ≤ℤ sub64 s v) × (sub64 s v ≤ℤ a) × (s ≤ℤ max64)
unfolding sub64 wrap64 ◌-ℤ◌ ◌+ℤ◌
clamped_numbers (pos v) (pos a) hv pv ha pa = ground arith
clamped_numbers (pos v) (negsuc a) hv pv ha pa = absurd (omega arith)
clamped_numbers (negsuc v) a hv pv ha pa = absurd (omega arith)

max_zero_range :
    (a : ℤ) → InRange a → InRange (max_int64 a (pos 0)) × (pos 0 ≤ℤ max_int64 a (pos 0))
unfolding max_int64
max_zero_range a h = ground arith

shield_numbers :
    (v a : ℤ)
    → InRange v
    → pos 0 ≤ℤ v
    → InRange a
    → pos 0 ≤ℤ a
    → let s = saturating_add v a in
      (s ≡ v +ℤ sub64 s v) × (pos 0 ≤ℤ sub64 s v) × (sub64 s v ≤ℤ a) × (s ≤ℤ max64)
shield_numbers v a hv pv ha pa =
    rw (saturating_add-clamp64 v a hv ha) (clamped_numbers v a hv pv ha pa)

-- On a living target with a nonnegative int64 shield, the reported points are what the shield gained, also where the shield saturates; nothing else of
-- the target changes.
pub add_shield_reports :
    (t : Combatant) (amount : ℤ)
    → InRange t.shield
    → pos 0 ≤ℤ t.shield
    → InRange amount
    → t.alive ≡ true
    → (s added : ℤ) × (add_shield (some t) amount ≡ some (record t { shield = s }, added))
      × (s ≡ t.shield +ℤ added)
      × (pos 0 ≤ℤ added)
      × (added ≤ℤ max_int64 amount (pos 0))
      × (s ≤ℤ max64)
unfolding add_shield
add_shield_reports t amount hs ps ha living =
    let s = saturating_add t.shield (max_int64 amount (pos 0)) in
    let m = max_zero_range amount ha in
    let n = shield_numbers t.shield (max_int64 amount (pos 0)) hs ps m.0 m.1 in
    (s, sub64 s t.shield, rw living, n.0, n.1, n.2, n.3)
