-- ===== src/Combat/Buffs/Valid.antt =====
-- combat/buffs.go: the instance ids of a container are unique, not zero and at most the sequence
-- counter, under every operation.
use mathlib.Core.List.{map-append}
use roost_skill.Common.{
  ℕ, ◌+◌, ◌-◌, ◌^◌, ◌≤◌, ◌<◌, ◌++◌, List, [], ◌∷◌, map, Option, none, some, ◌≡◌, ◌≢◌, inl, inr,
  refl, arith, All, ◌==◌, Bool-cases, String, if_both,
}
use roost_skill.Common.Int.{ℤ}
use roost_skill.Combat.Buffs.Specs.{
  BuffInstance, BuffSpec, BuffStackPolicy, refresh, extend, ignore, independent, unknown,
}
use roost_skill.Combat.Buffs.{
  BuffContainer, Applied, apply, adopt, append_instance, create, new_instance, reapply, renew,
  renewed, merge_target, find_buff, merge_or_create, replace_buff, next_sequence,
}
use roost_skill.Combat.Buffs.Removal.{
  tick, dispel, remove, set_stacks, set_due_tick, find_instance, drop_instance, replace_instance,
  remove_found, at_found, pin_stacks, write_stacks, pin_due,
}
use roost_skill.Combat.Buffs.Sweeps.{Merge, done, left, right, all_right, tick-Merge, dispel-Merge}

abbrev pub ids : List BuffInstance → List ℕ
ids = map λ i. i.instance_id

abbrev pub IsUnique : List ℕ → Type 0
IsUnique [] = Unit
IsUnique (k ∷ ks) = All (λ j. j ≢ k) ks × IsUnique ks

abbrev pub IsIssued : ℕ → ℕ → Type 0
IsIssued sequence id = (0 < id) × (id ≤ sequence)

-- The ids of a container: issued by its sequence, and no two alike.
pub record IsValid (c : BuffContainer) : Type 0 where
  pub issued : All (IsIssued c.sequence) (ids c.active)
  pub unique : IsUnique (ids c.active)

All-mono {κ} : {P Q : ℕ → Type κ} → ((k : ℕ) → P k → Q k) → (ks : List ℕ) → All P ks → All Q ks
All-mono f [] h = tt
All-mono f (k ∷ ks) h = (f k h.0, All-mono f ks h.1)

All-add {κ} : (P : ℕ → Type κ) (ks : List ℕ) (k : ℕ) → All P ks → P k → All P (ks ++ k ∷ [])
All-add P [] k h p = (p, tt)
All-add P (j ∷ ks) k h p = (h.0, All-add P ks k h.1 p)

-- A new id above all others keeps them unique.
add-IsUnique :
    (ks : List ℕ) (n k : ℕ) → All (IsIssued n) ks → n < k → IsUnique ks → IsUnique (ks ++ k ∷ [])
add-IsUnique [] n k h lt u = (tt, tt)
add-IsUnique (j ∷ ks) n k h lt u =
    (All-add (λ i. i ≢ j) ks k u.0 (λ e. above j k e (h.0.1) lt), add-IsUnique ks n k h.1 lt u.1)
  where
    above : (j k : ℕ) → k ≡ j → j ≤ n → n < k → ⊥
    above j k e le lt = omega arith

Merge-ids : {xs ys zs : List BuffInstance} → Merge xs ys zs → Merge (ids xs) (ids ys) (ids zs)
Merge-ids done = done
Merge-ids (left m) = left (Merge-ids m)
Merge-ids (right m) = right (Merge-ids m)

All-rest {κ} : (P : ℕ → Type κ) {xs ys zs : List ℕ} → Merge xs ys zs → All P zs → All P ys
All-rest P done h = tt
All-rest P (left m) h = All-rest P m h.1
All-rest P (right m) h = (h.0, All-rest P m h.1)

rest-IsUnique : {xs ys zs : List ℕ} → Merge xs ys zs → IsUnique zs → IsUnique ys
rest-IsUnique done u = tt
rest-IsUnique (left m) u = rest-IsUnique m u.1
rest-IsUnique (right {a} m) u = (All-rest (λ j. j ≢ a) m u.0, rest-IsUnique m u.1)

-- Taking instances out keeps a container valid.
rest-IsValid :
    {xs : List BuffInstance} (c : BuffContainer) (active : List BuffInstance)
    → Merge xs active c.active
    → IsValid c
    → (attributes : _) → IsValid (record c { active = active; attributes = attributes })
rest-IsValid c active m v attributes = record {
  issued = All-rest (IsIssued c.sequence) (Merge-ids m) v.issued;
  unique = rest-IsUnique (Merge-ids m) v.unique;
}

-- A container that holds the same ids under the same sequence is as valid.
same_ids-IsValid :
    (c d : BuffContainer)
    → ids d.active ≡ ids c.active
    → d.sequence ≡ c.sequence
    → IsValid c
    → IsValid d
same_ids-IsValid c d e f v = record { issued = rw (e, f) v.issued; unique = rw e v.unique }

replace_buff-ids :
    (id : ℕ) (new : BuffInstance) (l : List BuffInstance) {i : BuffInstance}
    → find_buff id l ≡ some i
    → new.instance_id ≡ i.instance_id
    → ids (replace_buff id new l) ≡ ids l
unfolding find_buff replace_buff
replace_buff-ids id new [] e n = refl
replace_buff-ids id new (j ∷ l) {i} e n = ground (arith, replace_buff-ids id new l {i = i})

replace_instance-ids :
    (id : ℕ) (new : BuffInstance) (l : List BuffInstance)
    → new.instance_id ≡ id
    → ids (replace_instance id new l) ≡ ids l
unfolding replace_instance
replace_instance-ids id new [] n = refl
replace_instance-ids id new (j ∷ l) n = ground (arith, replace_instance-ids id new l)

-- The sequence has room for one more id.
abbrev pub HasRoom : BuffContainer → Type 0
HasRoom c = c.sequence < 2 ^ 64 - 1

next_lem : (n : ℕ) → n < 2 ^ 64 - 1 → next_sequence n ≡ n + 1
unfolding next_sequence
next_lem n h = omega arith

append-IsValid :
    (i : BuffInstance) (c : BuffContainer)
    → HasRoom c
    → IsValid c
    → IsValid (append_instance i c).container
unfolding append_instance
append-IsValid i c room v =
    let new : BuffInstance = record i { instance_id = next_sequence c.sequence } in
    let n = next_lem c.sequence room in
    let e = map-append (λ (j : BuffInstance). j.instance_id) c.active (new ∷ []) in
    record {
      issued = rw e (
          All-add (IsIssued (next_sequence c.sequence)) (ids c.active) (next_sequence c.sequence)
            (All-mono (λ k h. (h.0, omega (arith, n))) (ids c.active) v.issued)
            (omega (arith, n), omega arith));
      unique = rw e (
          add-IsUnique (ids c.active) c.sequence (next_sequence c.sequence) v.issued
            (omega (arith, n)) v.unique);
    }

renew-IsValid :
    (spec : BuffSpec) (tick source duration : ℤ) (i : BuffInstance) (c : BuffContainer)
    → find_buff spec.id c.active ≡ some i
    → IsValid c
    → IsValid (renew spec tick source duration i c).container
unfolding renew renewed
renew-IsValid spec tick source duration i c e v =
    same_ids-IsValid c _ (replace_buff-ids spec.id _ c.active e refl) refl v

reapply-IsValid :
    (policy : BuffStackPolicy) (spec : BuffSpec) (tick source duration : ℤ) (i : BuffInstance)
    (c : BuffContainer)
    → merge_target policy spec.id c.active ≡ some i
    → IsValid c
    → IsValid (reapply policy spec tick source duration i c).container
unfolding reapply merge_target
reapply-IsValid refresh spec tick source duration i c e v =
    renew-IsValid spec tick source duration i c e v
reapply-IsValid extend spec tick source duration i c e v =
    renew-IsValid spec tick source duration i c e v
reapply-IsValid ignore spec tick source duration i c e v = v
reapply-IsValid independent spec tick source duration i c e v = cc
reapply-IsValid (unknown n) spec tick source duration i c e v =
    renew-IsValid spec tick source duration i c e v

merge_or_create-IsValid :
    (spec : BuffSpec) (now source duration : ℤ) (c : BuffContainer) (o : Option BuffInstance)
    → merge_target spec.stack_policy spec.id c.active ≡ o
    → HasRoom c
    → IsValid c
    → IsValid (merge_or_create spec now source duration c o).container
unfolding merge_or_create create
merge_or_create-IsValid spec now source duration c none e room v =
    append-IsValid (new_instance spec now source duration) c room v
merge_or_create-IsValid spec now source duration c (some i) e room v =
    reapply-IsValid spec.stack_policy spec now source duration i c e v

-- Where the sequence has room for one more id, Apply keeps the instance ids unique, not zero and at
-- most the sequence, on every branch.
pub apply-IsValid :
    (spec : BuffSpec) (now source : ℤ) (c : BuffContainer)
    → HasRoom c
    → IsValid c
    → IsValid (apply spec now source c).container
unfolding apply
apply-IsValid spec now source c room v =
    if_both {A = Applied} (λ r. IsValid r.container) _ v
      (merge_or_create-IsValid spec now source _ c _ refl room v)

-- Adopt as well.
pub adopt-IsValid :
    (i : BuffInstance) (c : BuffContainer) → HasRoom c → IsValid c → IsValid (adopt i c).0
unfolding adopt
adopt-IsValid i c room v = append-IsValid i c room v

pub tick-IsValid : (now : ℤ) (c : BuffContainer) → IsValid c → IsValid (tick now c).0
unfolding tick
tick-IsValid now c v = rest-IsValid c _ (tick-Merge now c).0 v _

pub dispel-IsValid :
    (tag : String) (limit : ℤ) (c : BuffContainer) → IsValid c → IsValid (dispel tag limit c).0
unfolding dispel
dispel-IsValid tag limit c v = rest-IsValid c _ (dispel-Merge tag limit c).0 v _

find_instance-id :
    (id : ℕ) (l : List BuffInstance) {i : BuffInstance}
    → find_instance id l ≡ some i
    → i.instance_id ≡ id
unfolding find_instance
find_instance-id id [] e = cc
find_instance-id id (j ∷ l) {i} e = ground (arith, find_instance-id id l {i = i})

drop_instance-Merge :
    (id : ℕ) (l : List BuffInstance) → (xs : List BuffInstance) × Merge xs (drop_instance id l) l
unfolding drop_instance
drop_instance-Merge id [] = ([], done)
drop_instance-Merge id (j ∷ l) = elim (Bool-cases (j.instance_id == id)) [
  | inl hit ↦ (j ∷ [], rw hit (left (all_right l)))
  | inr miss ↦ let r = drop_instance-Merge id l in (r.0, rw miss (right r.1))
]

remove_found-IsValid :
    (i : BuffInstance) (c : BuffContainer) → IsValid c → IsValid (remove_found i c)
unfolding remove_found
remove_found-IsValid i c v = rest-IsValid c _ (drop_instance-Merge i.instance_id c.active).1 v _

at_found-IsValid :
    (o : Option BuffInstance)
    (f : BuffInstance → BuffContainer → BuffContainer × Option BuffInstance) (c : BuffContainer)
    → ((i : BuffInstance) → IsValid (f i c).0)
    → IsValid c
    → IsValid (at_found o f c).0
at_found-IsValid none f c h v = v
at_found-IsValid (some i) f c h v = h i

pub remove-IsValid : (id : ℕ) (c : BuffContainer) → IsValid c → IsValid (remove id c).0
unfolding remove
remove-IsValid id c v =
    at_found-IsValid (find_instance id c.active) _ c (λ i. remove_found-IsValid i c v) v

write_stacks-IsValid :
    (stacks : ℤ) (i : BuffInstance) (c : BuffContainer)
    → IsValid c
    → IsValid (write_stacks stacks i c).0
unfolding write_stacks
write_stacks-IsValid stacks i c v =
    same_ids-IsValid c _ (replace_instance-ids i.instance_id _ c.active refl) refl v

pin_stacks-IsValid :
    (stacks : ℤ) (i : BuffInstance) (c : BuffContainer)
    → IsValid c
    → IsValid (pin_stacks stacks i c).0
unfolding pin_stacks
pin_stacks-IsValid stacks i c v =
    if_both {A = BuffContainer × Option BuffInstance} (λ r. IsValid (r.0)) _
      (remove_found-IsValid i c v) (write_stacks-IsValid _ i c v)

-- SetStacks keeps the instance ids unique, not zero and at most the sequence, whether it writes the
-- stacks, removes the instance or finds none.
pub set_stacks-IsValid :
    (id : ℕ) (stacks : ℤ) (c : BuffContainer) → IsValid c → IsValid (set_stacks id stacks c).0
unfolding set_stacks
set_stacks-IsValid id stacks c v =
    at_found-IsValid (find_instance id c.active) (pin_stacks stacks) c
      (λ i. pin_stacks-IsValid stacks i c v) v

pub set_due_tick-IsValid :
    (id : ℕ) (due : ℤ) (c : BuffContainer) → IsValid c → IsValid (set_due_tick id due c).0
unfolding set_due_tick pin_due
set_due_tick-IsValid id due c v =
    at_found-IsValid (find_instance id c.active) (pin_due due) c
      (λ i. same_ids-IsValid c _ (replace_instance-ids i.instance_id _ c.active refl) refl v) v
