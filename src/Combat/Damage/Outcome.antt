-- ===== src/Combat/Damage/Outcome.antt =====
-- combat/damage.go: what ResolveDamage reports against what it did to the target.
use roost_skill.Common.{
  Option-cases, if_both, inl, inr, Bool, true, false, ◌≡◌, ◌≢◌, ◌↔◌, refl, sym, ap, subst, ◌∙◌,
  Option, none, some, String, arith,
}
use roost_skill.Common.Int.{ℤ, pos, ◌≤ℤ◌, ◌<ℤ◌, ◌+ℤ◌, InRange}
use roost_skill.Combat.Combatant.{Combatant, DamageInput, Hooks, Source, itself, IsSound}
use roost_skill.Combat.Damage.{
  Run, deal, drain, face, resolve, resolve_damage, start, shielding_hook, intercepted,
}
use roost_skill.Combat.Damage.Stages.{ready, ready-Keeps, ready-IsAmount}
use roost_skill.Combat.Damage.Pools.{wound, wound_lem}

-- The combatant `t'` is what an instance leaves of `t` that reports these amounts.
pub record Accounts (t t' : Combatant) (absorbed health_damage : ℤ) (killed : Bool) : Type 0 where
  pub sound : IsSound t'
  pub shield_spent : t'.shield +ℤ absorbed ≡ t.shield
  pub health_spent : t'.health +ℤ health_damage ≡ t.health
  pub absorbed_nonneg : pos 0 ≤ℤ absorbed
  pub damage_nonneg : pos 0 ≤ℤ health_damage
  pub killed_iff_dead : (killed ≡ true) ↔ (t'.alive ≡ false)
  pub killed_iff_drained : (killed ≡ true) ↔ (t'.health ≡ pos 0)

Accounts-cong :
    {t u t' u' : Combatant} {a b d e : ℤ} {k l : Bool}
    → t ≡ u
    → t' ≡ u'
    → a ≡ b
    → d ≡ e
    → k ≡ l
    → Accounts t t' a d k
    → Accounts u u' b e l
Accounts-cong p q r s x h = rw (← p, ← q, ← r, ← s, ← x) h

abbrev pub AccountsFor : {W : Type 0} → Combatant → Run W → Type 0
AccountsFor t r = Accounts t r.target r.outcome.absorbed r.outcome.health_damage r.outcome.killed

positive_ne_zero : (a : ℤ) → pos 0 <ℤ a → a ≢ pos 0
positive_ne_zero a h e = ground arith

add_zero : (a : ℤ) → a +ℤ pos 0 ≡ a
unfolding ◌+ℤ◌
add_zero a = ground arith

-- An intercepted instance spends nothing, whatever it does to the target's flags.
still-Accounts :
    (t t' : Combatant)
    → IsSound t
    → t.alive ≡ true
    → IsSound t'
    → t'.shield ≡ t.shield
    → t'.health ≡ t.health
    → t'.alive ≡ t.alive
    → Accounts t t' (pos 0) (pos 0) false
still-Accounts t t' v living v' es eh el = record {
  sound = v';
  shield_spent = rw es (add_zero t.shield);
  health_spent = rw eh (add_zero t.health);
  absorbed_nonneg = omega arith;
  damage_nonneg = omega arith;
  killed_iff_dead = ((λ e. cc), (λ e. cc));
  killed_iff_drained =
      ((λ e. cc), (λ e. absurd (positive_ne_zero t.health (v.alive_pos living) (sym eh ∙ e))));
}

-- The int64 fields that bound one instance.
pub record HasCaps (t : Combatant) : Type 0 where
  pub damage_cap_range : InRange t.damage_cap
  pub minimum_damage_range : InRange t.minimum_damage

module _ {W : Type 0} where
  -- Vamp changes the target only if the target is its own source.
  pub drain_keeps :
      (run : Run W)
      → run.source ≢ itself
      → ((drain run).target ≡ run.target)
        × ((drain run).outcome.absorbed ≡ run.outcome.absorbed)
        × ((drain run).outcome.health_damage ≡ run.outcome.health_damage)
        × ((drain run).outcome.killed ≡ run.outcome.killed)
  unfolding drain
  drain_keeps run h = ground arith

  pub deal-Accounts :
      (input : DamageInput) (hooks : Option (Hooks W)) (run : Run W)
      → run.source ≢ itself
      → IsSound run.target
      → HasCaps run.target
      → run.target.alive ≡ true
      → run.outcome.killed ≡ false
      → AccountsFor run.target (deal input hooks run)
  unfolding deal
  deal-Accounts input hooks run foreign v caps living fresh =
      let k = ready-Keeps input hooks run in
      let q =
        wound_lem hooks (ready input hooks run) (subst IsSound (sym k.0) v)
          (ap (λ (t : Combatant). t.alive) k.0 ∙ living) (k.2 ∙ fresh)
          (ready-IsAmount input hooks run caps.damage_cap_range caps.minimum_damage_range) in
      let d =
        drain_keeps (wound hooks (ready input hooks run)) (λ e. foreign (sym (q.8 ∙ k.1) ∙ e)) in
      Accounts-cong k.0 (sym d.0) (sym d.1) (sym d.2) (sym d.3) (record {
        sound = q.0;
        shield_spent = q.1;
        health_spent = q.2;
        absorbed_nonneg = q.3;
        damage_nonneg = q.4;
        killed_iff_dead = q.6;
        killed_iff_drained = q.7;
      })

  face-Accounts :
      (input : DamageInput) (hooks : Option (Hooks W)) (run : Run W)
      → run.source ≢ itself
      → IsSound run.target
      → HasCaps run.target
      → run.target.alive ≡ true
      → run.outcome.absorbed ≡ pos 0
      → run.outcome.health_damage ≡ pos 0
      → run.outcome.killed ≡ false
      → AccountsFor run.target (face input hooks run)
  unfolding face
  face-Accounts input hooks run foreign v caps living ea ed fresh =
      if_both {A = Run W} (AccountsFor run.target) _
        (Accounts-cong refl refl (sym ea) (sym ed) (sym fresh) (
          still-Accounts run.target (record t { spell_shield = false }) v living
            (record {
              health_nonneg = v.health_nonneg;
              health_le = v.health_le;
              max_health_le = v.max_health_le;
              alive_pos = v.alive_pos;
              shield_range = v.shield_range;
            })
            refl refl refl))
        (deal-Accounts input hooks run foreign v caps living fresh)
    where
      t : Combatant
      t = run.target

  intercepted-Accounts :
      (hooks : Option (Hooks W)) (hook : String) (run : Run W)
      → IsSound run.target
      → run.target.alive ≡ true
      → run.outcome.absorbed ≡ pos 0
      → run.outcome.health_damage ≡ pos 0
      → run.outcome.killed ≡ false
      → AccountsFor run.target (intercepted hooks hook run)
  intercepted-Accounts none hook run v living ea ed fresh =
      Accounts-cong refl refl (sym ea) (sym ed) (sym fresh)
        (still-Accounts run.target run.target v living v refl refl refl)
  intercepted-Accounts (some h) hook run v living ea ed fresh =
      Accounts-cong refl refl (sym ea) (sym ed) (sym fresh)
        (still-Accounts run.target run.target v living v refl refl refl)

  resolve-Accounts :
      (input : DamageInput) (hooks : Option (Hooks W)) (run : Run W)
      → run.source ≢ itself
      → IsSound run.target
      → HasCaps run.target
      → run.target.alive ≡ true
      → run.outcome.absorbed ≡ pos 0
      → run.outcome.health_damage ≡ pos 0
      → run.outcome.killed ≡ false
      → AccountsFor run.target (resolve input hooks run)
  unfolding resolve
  resolve-Accounts input hooks run foreign v caps living ea ed fresh =
      elim (Option-cases (shielding_hook input hooks run.state)) [
        | inl e ↦ rw (e, resolve) (face-Accounts input hooks run foreign v caps living ea ed fresh)
        | inr (hook, e) ↦ rw (e, resolve) (intercepted-Accounts hooks hook run v living ea ed fresh)
      ]

  -- An instance against a living, sound target with int64 caps that is not its own source is always
  -- resolved, and accounted for: shield and health fall by exactly the amounts reported as absorbed
  -- and as health damage, neither of them negative, the target stays sound, and it is reported killed
  -- just when it is dead, which is just when it has no health.
  pub resolve_damage-Accounts :
      (input : DamageInput) (hooks : Option (Hooks W)) (source : Source) (t : Combatant) (w : W)
      → source ≢ itself
      → IsSound t
      → HasCaps t
      → t.alive ≡ true
      → (r : Run W) × (resolve_damage source (some t) input hooks w ≡ some r) × AccountsFor t r
  unfolding resolve_damage
  resolve_damage-Accounts input hooks source t w foreign v caps living = (
    resolve input hooks (start source t input w),
    rw living,
    resolve-Accounts input hooks (start source t input w) foreign v caps living refl refl refl,
  )
