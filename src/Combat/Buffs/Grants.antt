-- ===== src/Combat/Buffs/Grants.antt =====
-- combat/buffs.go: what Apply does to the modifiers that an instance has granted.
use roost_skill.Common.{ℕ, false, List, [], ◌∷◌, Option, none, some, ◌≡◌, ◌≢◌, refl, ap, ◌∙◌, arith}
use roost_skill.Common.Int.{ℤ}
use roost_skill.Common.Maps.{lookup, insert, lookup-insert_self}
use roost_skill.Combat.Attributes.{
  Modifier, AttributeSet, grant, install, add_modifiers, add_modifier, notify, revoke,
}
use roost_skill.Combat.Buffs.Specs.{
  BuffInstance, BuffSpec, BuffStackPolicy, refresh, extend, ignore, independent, unknown,
  scaled_modifiers,
}
use roost_skill.Combat.Buffs.{
  BuffContainer, apply, reapply, renew, renewed, merge_target, find_buff, merge_or_create,
  grant_modifiers, immune_to, effective_duration,
}

-- A policy under which an instance is renewed.
abbrev pub Renews : BuffStackPolicy → Type 0
Renews policy = (policy ≢ ignore) × (policy ≢ independent)

reapply-Renews :
    (policy : BuffStackPolicy) (spec : BuffSpec) (now source duration : ℤ) (i : BuffInstance)
    (c : BuffContainer)
    → Renews policy
    → reapply policy spec now source duration i c ≡ renew spec now source duration i c
unfolding reapply
reapply-Renews refresh spec now source duration i c r = refl
reapply-Renews extend spec now source duration i c r = refl
reapply-Renews ignore spec now source duration i c r = elim (r.0 refl) [ ]
reapply-Renews independent spec now source duration i c r = elim (r.1 refl) [ ]
reapply-Renews (unknown n) spec now source duration i c r = refl

merge_target-Renews :
    (policy : BuffStackPolicy) (id : ℕ) (l : List BuffInstance)
    → Renews policy
    → merge_target policy id l ≡ find_buff id l
unfolding merge_target
merge_target-Renews refresh id l r = refl
merge_target-Renews extend id l r = refl
merge_target-Renews ignore id l r = refl
merge_target-Renews independent id l r = elim (r.1 refl) [ ]
merge_target-Renews (unknown n) id l r = refl

-- Apply over an active instance of the buff renews that instance.
apply-renew :
    (spec : BuffSpec) (now source : ℤ) (c : BuffContainer) (i : BuffInstance)
    → immune_to spec.tags c ≡ false
    → Renews spec.stack_policy
    → find_buff spec.id c.active ≡ some i
    → apply spec now source c ≡ renew spec now source (effective_duration c spec) i c
unfolding apply merge_or_create
apply-renew spec now source c i safe r e =
    rw (safe, merge_target-Renews spec.stack_policy spec.id c.active r, e)
      (reapply-Renews spec.stack_policy spec now source (effective_duration c spec) i c r)

add_modifiers-grants :
    (ms : List Modifier) (set : AttributeSet) → (add_modifiers ms set).grants ≡ set.grants
unfolding add_modifiers add_modifier notify
add_modifiers-grants [] set = refl
add_modifiers-grants (m ∷ ms) set = ground (arith, add_modifiers-grants ms (add_modifier m set))

install-lookup :
    (h : ℕ) (m : Modifier) (ms : List Modifier) (set : AttributeSet)
    → lookup h (install h (m ∷ ms) set).grants ≡ some (m ∷ ms)
unfolding install
install-lookup h m ms set =
    ap (lookup h)
      (add_modifiers-grants (m ∷ ms) (record set { grants = insert h (m ∷ ms) set.grants }))
    ∙ lookup-insert_self h (m ∷ ms) set.grants

-- The grant that a container's attribute set holds for an instance.
abbrev pub held_by : ℕ → Option AttributeSet → Option (List Modifier)
held_by h none = none
held_by h (some set) = lookup h set.grants

grant_modifiers-held_by :
    (i : BuffInstance) (set : AttributeSet) (m : Modifier) (ms : List Modifier)
    → i.spec.modifiers ≡ m ∷ ms
    → held_by i.instance_id (grant_modifiers i (some set))
      ≡ some (scaled_modifiers i.stacks (m ∷ ms))
unfolding grant_modifiers grant scaled_modifiers
grant_modifiers-held_by i set m ms e =
    rw e (install-lookup i.instance_id _ _ (revoke i.instance_id set))

-- Where Apply renews an active instance (the target is not immune, and the policy neither ignores
-- nor makes instances independent) by a spec that has modifiers, the grant of the instance in the
-- linked attribute set is then those modifiers times the new number of stacks.
pub apply-held_by :
    (spec : BuffSpec) (now source : ℤ) (c : BuffContainer) (i : BuffInstance) (set : AttributeSet)
    (m : Modifier) (ms : List Modifier)
    → immune_to spec.tags c ≡ false
    → Renews spec.stack_policy
    → find_buff spec.id c.active ≡ some i
    → c.attributes ≡ some set
    → spec.modifiers ≡ m ∷ ms
    → held_by i.instance_id (apply spec now source c).container.attributes
      ≡ some
          (scaled_modifiers (renewed spec now source (effective_duration c spec) i).stacks (m ∷ ms))
unfolding renew renewed effective_duration
apply-held_by spec now source c i set m ms safe r e a f =
    rw (apply-renew spec now source c i safe r e, a)
      (grant_modifiers-held_by (renewed spec now source (effective_duration c spec) i) set m ms f)

-- The grant of an instance whose spec has these modifiers: the former one, if there are none.
abbrev pub granted_by : List Modifier → ℤ → Option (List Modifier) → Option (List Modifier)
granted_by [] stacks before = before
granted_by (m ∷ ms) stacks before = some (scaled_modifiers stacks (m ∷ ms))
