-- ===== src/Combat/Damage/Pools.antt =====
-- combat/damage.go: the shield and health stages, from "shield" to the death of the target.
use roost_skill.Common.{
  Bool-cases, zero, suc, subst, sym, ap, ◌∙◌, true, false, ◌≡◌, Option, none, some, arith, inl, inr,
  ◌↔◌,
}
use roost_skill.Common.Int.{
  ℤ, pos, negsuc, ◌≤ℤ◌, ◌<ℤ◌, InRange, max64, sub64, ◌+ℤ◌, +ℤ_parts, ◌-ℤ◌, wrap64,
}
use roost_skill.Combat.FixedMath.{min_int64, max_int64}
use roost_skill.Combat.Combatant.{Combatant, Hooks, IsSound}
use roost_skill.Combat.Damage.{Run, absorb, prevent_death, hurt, hurt_by}
use roost_skill.Combat.Damage.Stages.{IsAmount}

-- The share of a shield `s` in an amount `a`, and what is left of both.
abbrev share : ℤ → ℤ → ℤ
share s a = min_int64 (max_int64 s (pos 0)) a

share_lem :
    (s a : ℤ)
    → InRange s
    → IsAmount a
    → (sub64 s (share s a) +ℤ share s a ≡ s)
      × (sub64 a (share s a) +ℤ share s a ≡ a)
      × (pos 0 ≤ℤ share s a)
      × (sub64 a (share s a) ≤ℤ a)
      × IsAmount (sub64 a (share s a))
      × InRange (sub64 s (share s a))
unfolding min_int64 max_int64 sub64 wrap64 ◌-ℤ◌ ◌+ℤ◌
share_lem (pos s) (pos a) hs h = ground arith
share_lem (negsuc s) (pos a) hs h = ground arith
share_lem s (negsuc a) hs h = absurd (omega arith)

-- The part of an amount `a` that a health `v` can lose.
loss_lem :
    (v a : ℤ)
    → IsAmount v
    → IsAmount a
    → (sub64 v (min_int64 v a) +ℤ min_int64 v a ≡ v)
      × (pos 0 ≤ℤ min_int64 v a)
      × (min_int64 v a ≤ℤ a)
      × (pos 0 ≤ℤ sub64 v (min_int64 v a))
      × (sub64 v (min_int64 v a) ≤ℤ v)
unfolding min_int64 sub64 wrap64 ◌-ℤ◌ ◌+ℤ◌
loss_lem (pos v) (pos a) hv h = ground arith
loss_lem (negsuc v) a hv h = absurd (omega arith)
loss_lem (pos v) (negsuc a) hv h = absurd (omega arith)

pub pin_lem :
    (v : ℤ)
    → pos 0 <ℤ v
    → v ≤ℤ max64
    → IsAmount (max_int64 (pos 0) (sub64 v (pos 1))) × (max_int64 (pos 0) (sub64 v (pos 1)) <ℤ v)
unfolding max_int64 sub64 wrap64 ◌-ℤ◌
pin_lem (pos v) h k = ground arith
pin_lem (negsuc v) h k = absurd (omega arith)

no_health_left : (v' d a : ℤ) {v : ℤ} → v' +ℤ d ≡ v → d ≤ℤ a → a <ℤ v → v' ≡ pos 0 → ⊥
no_health_left v' d a e h k z = ground (arith, +ℤ_parts v' d)

total_le : (ab hd m n : ℤ) {a : ℤ} → n +ℤ ab ≡ a → m ≤ℤ n → hd ≤ℤ m → ab +ℤ hd ≤ℤ a
total_le ab hd m n e h k = rw (← e) (omega (arith, +ℤ_parts ab hd, +ℤ_parts n ab))

module _ {W : Type 0} where
  -- The shield loses what is absorbed, and the amount that goes on is what is left.
  pub absorb_lem :
      (hooks : Option (Hooks W)) (run : Run W)
      → InRange run.target.shield
      → IsAmount run.amount
      → let r = absorb hooks run in
        (r.target.shield +ℤ r.outcome.absorbed ≡ run.target.shield)
        × (r.amount +ℤ r.outcome.absorbed ≡ run.amount)
        × (pos 0 ≤ℤ r.outcome.absorbed)
        × (r.amount ≤ℤ run.amount)
        × IsAmount r.amount
        × InRange r.target.shield
  unfolding absorb
  absorb_lem hooks run hs h = share_lem run.target.shield run.amount hs h

  -- Death prevention changes neither combatant; if it steps in, less than the health goes on.
  pub prevent_death_lem :
      (hooks : Option (Hooks W)) (run : Run W)
      → InRange run.target.health
      → IsAmount run.amount
      → let r = prevent_death hooks run in
        (r.target ≡ run.target)
        × (r.source ≡ run.source)
        × (r.outcome.absorbed ≡ run.outcome.absorbed)
        × (r.outcome.killed ≡ run.outcome.killed)
        × (r.amount ≤ℤ run.amount)
        × IsAmount r.amount
  unfolding prevent_death
  prevent_death_lem none run hv h = ground arith
  prevent_death_lem (some k) run hv h = ground (arith, pin_lem run.target.health)

  hurt_by_lem :
      (d v : ℤ) (run : Run W)
      → IsSound run.target
      → run.target.alive ≡ true
      → run.outcome.killed ≡ false
      → v +ℤ d ≡ run.target.health
      → pos 0 ≤ℤ d
      → pos 0 ≤ℤ v
      → let r = hurt_by d v run in
        IsSound r.target
        × ((r.outcome.killed ≡ true) ↔ (r.target.alive ≡ false))
        × ((r.outcome.killed ≡ true) ↔ (r.target.health ≡ pos 0))
        × (r.target.health ≡ v)
        × (r.outcome.health_damage ≡ d)
        × (r.target.shield ≡ run.target.shield)
        × (r.outcome.absorbed ≡ run.outcome.absorbed)
        × (r.source ≡ run.source)
  unfolding hurt_by
  hurt_by_lem d (pos zero) run s living fresh e hd hv = ground (arith, +ℤ_parts (pos 0) d)
  hurt_by_lem d (pos (suc v)) run s living fresh e hd hv = ground (arith, +ℤ_parts (pos (suc v)) d)
  hurt_by_lem d (negsuc v) run s living fresh e hd hv = absurd (omega arith)

  -- The health loses the health damage, and the target dies exactly when no health is left.
  pub hurt_lem :
      (run : Run W)
      → IsSound run.target
      → run.target.alive ≡ true
      → run.outcome.killed ≡ false
      → IsAmount run.amount
      → let r = hurt run in
        IsSound r.target
        × (r.target.health +ℤ r.outcome.health_damage ≡ run.target.health)
        × (pos 0 ≤ℤ r.outcome.health_damage)
        × (r.outcome.health_damage ≤ℤ run.amount)
        × (r.target.shield ≡ run.target.shield)
        × (r.outcome.absorbed ≡ run.outcome.absorbed)
        × (r.source ≡ run.source)
        × ((r.outcome.killed ≡ true) ↔ (r.target.alive ≡ false))
        × ((r.outcome.killed ≡ true) ↔ (r.target.health ≡ pos 0))
  unfolding hurt
  hurt_lem run v living fresh h =
      let l = loss_lem run.target.health run.amount (v.health_nonneg, omega arith) h in
      let b =
        hurt_by_lem (min_int64 run.target.health run.amount)
          (sub64 run.target.health (min_int64 run.target.health run.amount)) run v living fresh l.0
          l.1 l.3 in
      (b.0, rw b.3 (rw b.4 l.0), rw b.4 l.1, rw b.4 l.2, b.5, b.6, b.7, b.1, b.2)

  -- The stages "shield" and "health".
  abbrev pub wound : Option (Hooks W) → Run W → Run W
  wound hooks run = hurt (prevent_death hooks (absorb hooks run))

  -- The run that reaches the health is as sound as the one that reached the shield.
  pub before_hurt :
      (hooks : Option (Hooks W)) (run : Run W)
      → IsSound run.target
      → run.target.alive ≡ true
      → run.outcome.killed ≡ false
      → IsAmount run.amount
      → let r = prevent_death hooks (absorb hooks run) in
        IsSound r.target × (r.target.alive ≡ true) × (r.outcome.killed ≡ false) × IsAmount r.amount
  unfolding absorb
  before_hurt hooks run v living fresh h =
      let a = absorb_lem hooks run v.shield_range h in
      let mid = absorb hooks run in
      let v' : IsSound mid.target = record {
        health_nonneg = v.health_nonneg;
        health_le = v.health_le;
        max_health_le = v.max_health_le;
        alive_pos = v.alive_pos;
        shield_range = a.5;
      } in
      let p = prevent_death_lem hooks mid (omega arith, omega arith) a.4 in
      (subst IsSound (sym p.0) v', ap (λ (t : Combatant). t.alive) p.0 ∙ living, p.3 ∙ fresh, p.5)

  pub wound_lem :
      (hooks : Option (Hooks W)) (run : Run W)
      → IsSound run.target
      → run.target.alive ≡ true
      → run.outcome.killed ≡ false
      → IsAmount run.amount
      → let r = wound hooks run in
        IsSound r.target
        × (r.target.shield +ℤ r.outcome.absorbed ≡ run.target.shield)
        × (r.target.health +ℤ r.outcome.health_damage ≡ run.target.health)
        × (pos 0 ≤ℤ r.outcome.absorbed)
        × (pos 0 ≤ℤ r.outcome.health_damage)
        × (r.outcome.absorbed +ℤ r.outcome.health_damage ≤ℤ run.amount)
        × ((r.outcome.killed ≡ true) ↔ (r.target.alive ≡ false))
        × ((r.outcome.killed ≡ true) ↔ (r.target.health ≡ pos 0))
        × (r.source ≡ run.source)
  unfolding absorb
  wound_lem hooks run v living fresh h =
      let a = absorb_lem hooks run v.shield_range h in
      let mid = absorb hooks run in
      let p = prevent_death_lem hooks mid (omega arith, omega arith) a.4 in
      let q =
        let b = before_hurt hooks run v living fresh h in
        hurt_lem (prevent_death hooks mid) b.0 b.1 b.2 b.3 in
      (
        q.0,
        rw (q.4, q.5, p.2) (rw p.0 a.0),
        q.1 ∙ ap (λ (t : Combatant). t.health) p.0,
        rw (q.5, p.2) a.2,
        q.2,
        subst (λ x. x +ℤ (hurt (prevent_death hooks mid)).outcome.health_damage ≤ℤ run.amount)
            (sym (q.5 ∙ p.2)) (total_le mid.outcome.absorbed _ _ mid.amount a.1 p.4 q.3),
        q.7,
        q.8,
        q.6 ∙ p.1,
      )

  -- Less damage than health kills nobody.
  pub hurt_survives :
      (run : Run W)
      → IsSound run.target
      → run.target.alive ≡ true
      → run.outcome.killed ≡ false
      → IsAmount run.amount
      → run.amount <ℤ run.target.health
      → (hurt run).outcome.killed ≡ false
  hurt_survives run v living fresh h small =
      let q = hurt_lem run v living fresh h in
      elim (Bool-cases (hurt run).outcome.killed) [
        | inl dead ↦ absurd (no_health_left _ _ run.amount q.1 q.3 small (q.8.0 dead))
        | inr saved ↦ saved
      ]
