-- ===== src/Combat/Buffs/Restore.antt =====
-- combat/buffs.go: what RestoreBuffContainer accepts, and the round trip with State.
use roost_skill.Common.{
  ℕ, Bool, true, false, if◌then◌else◌, not, ◌&&◌, List, [], ◌∷◌, none, some, ◌≡◌, ◌≢◌, inl, inr,
  refl, sym, ap, subst, arith, All, any, ◌==◌, ltb, Bool-cases,
}
use roost_skill.Common.Int.{ℤ, pos, ◌≤ℤ◌, ltb_ℤ}
use roost_skill.Combat.FixedMath.{basis_point_scale}
use roost_skill.Combat.Buffs.Specs.{BuffInstance}
use roost_skill.Combat.Buffs.{BuffContainer, set_tenacity_bp}
use roost_skill.Combat.Buffs.Removal.{
  BuffContainerState, state, restore_buff_container, ids_accepted,
}
use roost_skill.Combat.Buffs.Valid.{IsValid, ids, IsUnique, IsIssued}

-- No id of `seen` is the id `k`.
abbrev IsNew : List ℕ → ℕ → Type 0
IsNew seen k = All (λ j. j ≢ k) seen

any-IsNew : (k : ℕ) (seen : List ℕ) → any (λ j. j == k) seen ≡ false → IsNew seen k
any-IsNew k [] e = tt
any-IsNew k (j ∷ seen) e = (ground arith, any-IsNew k seen (ground arith))

IsNew-any : (k : ℕ) (seen : List ℕ) → IsNew seen k → any (λ j. j == k) seen ≡ false
IsNew-any k [] h = refl
IsNew-any k (j ∷ seen) h = ground (arith, IsNew-any k seen h.1, h.0)

-- What the validation loop has checked of each instance it accepts.
record Checked (n : ℕ) (seen : List ℕ) (l : List BuffInstance) : Type 0 where
  issued : All (IsIssued n) (ids l)
  unique : IsUnique (ids l)
  fresh : All (IsNew seen) (ids l)

split_seen :
    (k : ℕ) (seen ks : List ℕ)
    → All (IsNew (k ∷ seen)) ks
    → All (λ j. j ≢ k) ks × All (IsNew seen) ks
split_seen k seen [] h = (tt, tt)
split_seen k seen (j ∷ ks) h =
    let r = split_seen k seen ks h.1 in (((λ e. h.0.0 (sym e)), r.0), (h.0.1, r.1))

join_seen :
    (k : ℕ) (seen ks : List ℕ)
    → All (λ j. j ≢ k) ks
    → All (IsNew seen) ks
    → All (IsNew (k ∷ seen)) ks
join_seen k seen [] h g = tt
join_seen k seen (j ∷ ks) h g = (((λ e. h.0 (sym e)), g.0), join_seen k seen ks h.1 g.1)

and_true : (a b : Bool) → (a && b) ≡ true → (a ≡ true) × (b ≡ true)
and_true a b e = ground arith

accepted-Checked :
    (n : ℕ) (seen : List ℕ) (l : List BuffInstance)
    → ids_accepted n seen l ≡ true
    → Checked n seen l
unfolding ids_accepted
accepted-Checked n seen [] e = record { issued = tt; unique = tt; fresh = tt }
accepted-Checked n seen (i ∷ l) e =
    let rest = ids_accepted n (i.instance_id ∷ seen) l in
    let new = not (any (λ id. id == i.instance_id) seen) in
    let low = not (ltb n i.instance_id) in
    let nonzero = not (i.instance_id == 0) in
    let c = and_true (nonzero && low && new) rest e in
    let b = and_true (nonzero && low) new c.0 in
    let a = and_true nonzero low b.0 in
    let r = accepted-Checked n (i.instance_id ∷ seen) l c.1 in
    let f = split_seen i.instance_id seen (ids l) r.fresh in
    record {
      issued = (issued_of i.instance_id n a.0 a.1, r.issued);
      unique = (f.0, r.unique);
      fresh =
          (any-IsNew i.instance_id seen (not_true (any (λ id. id == i.instance_id) seen) b.1), f.1);
    }
  where
    not_true : (b : Bool) → not b ≡ true → b ≡ false
    not_true b e = ground arith

    issued_of : (k n : ℕ) → not (k == 0) ≡ true → not (ltb n k) ≡ true → IsIssued n k
    issued_of k n z le = ground arith

Checked-accepted :
    (n : ℕ) (seen : List ℕ) (l : List BuffInstance)
    → All (IsIssued n) (ids l)
    → IsUnique (ids l)
    → All (IsNew seen) (ids l)
    → ids_accepted n seen l ≡ true
unfolding ids_accepted
Checked-accepted n seen [] issued unique fresh = refl
Checked-accepted n seen (i ∷ l) issued unique fresh =
    all_three i.instance_id n _ _ issued.0 (IsNew-any i.instance_id seen fresh.0) (
      Checked-accepted n (i.instance_id ∷ seen) l issued.1 unique.1
        (join_seen i.instance_id seen (ids l) unique.0 fresh.1))
  where
    all_three :
        (k n : ℕ) (b c : Bool)
        → IsIssued n k
        → b ≡ false
        → c ≡ true
        → (not (k == 0) && not (ltb n k) && not b && c) ≡ true
    all_three k n b c h e f = ground arith

none_seen : (ks : List ℕ) → All (IsNew []) ks
none_seen [] = tt
none_seen (k ∷ ks) = (tt, none_seen ks)

-- RestoreBuffContainer accepts a snapshot only into a container whose instance ids are unique, not
-- zero and at most the sequence counter.
pub restore_buff_container-IsValid :
    (s : BuffContainerState) (c : BuffContainer) → restore_buff_container s ≡ some c → IsValid c
unfolding restore_buff_container set_tenacity_bp
restore_buff_container-IsValid s c e = elim (Bool-cases (ids_accepted s.sequence [] s.active)) [
  | inl ok ↦
      let r = accepted-Checked s.sequence [] s.active ok in
      let f = rw ok at e in
      subst IsValid (some_inj f) (record { issued = r.issued; unique = r.unique })
  | inr bad ↦ absurd (rw bad at e)
]
  where
    some_inj : {x y : BuffContainer} → some x ≡ some y → x ≡ y
    some_inj e = cc

    absurd : none ≡ some c → IsValid c
    absurd e = cc

-- A container with valid ids and a tenacity of 0 to 10000 basis points comes back from its State:
-- the same sequence, instances and tenacity, linked to no attribute set.
pub restore_buff_container-state :
    (c : BuffContainer)
    → IsValid c
    → pos 0 ≤ℤ c.tenacity_bp
    → c.tenacity_bp ≤ℤ basis_point_scale
    → restore_buff_container (state c) ≡ some (record c { attributes = none })
unfolding restore_buff_container state set_tenacity_bp
restore_buff_container-state c v low high =
    let e = Checked-accepted c.sequence [] c.active v.issued v.unique (none_seen (ids c.active)) in
    rw e (
      ap (λ t. some (record c { tenacity_bp = t; attributes = none }))
        (kept c.tenacity_bp low high))
  where
    kept :
        (t : ℤ)
        → pos 0 ≤ℤ t
        → t ≤ℤ basis_point_scale
        → (let raised = if ltb_ℤ t (pos 0) then pos 0 else t in
            if ltb_ℤ basis_point_scale raised then basis_point_scale else raised)
          ≡ t
    kept t low high = ground arith
