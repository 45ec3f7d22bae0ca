-- ===== src/Combat/Attributes/Sums.antt =====
-- combat/attributes.go: the running sums of Grant and Revoke against the sums over the live grants.
use roost_skill.Common.{
  ℕ, Bool, true, false, if◌then◌else◌, List, [], ◌∷◌, none, some, ◌==◌, ◌≡◌, refl, sym, ap, ◌∙◌,
  arith, inl, inr, Bool-cases, ==_iff,
}
use roost_skill.Common.Int.{
  ℤ, pos, ◌+ℤ◌, ◌-ℤ◌, int_laws, wrap64, add64, sub64, wrap64_add_left, wrap64_sub_left,
}
use roost_skill.Common.Maps.{Map, lookup, insert, erase, KeysUnique, get_or-insert, erase_absent}
use roost_skill.Combat.Attributes.{
  Modifier, AttributeSet, value_of, notify, add_modifier, add_modifiers, remove_modifier,
  remove_modifiers,
}

-- What the modifiers `ms` add to the attribute `id`, by the exact sum of the field `f`.
abbrev pub mods : (Modifier → ℤ) → ℕ → List Modifier → ℤ
mods f id [] = pos 0
mods f id (m ∷ ms) = if m.attribute == id then f m +ℤ mods f id ms else mods f id ms

-- The same over all grants.
abbrev pub total : (Modifier → ℤ) → ℕ → Map (List Modifier) → ℤ
total f id [] = pos 0
total f id ((h, ms) ∷ g) = mods f id ms +ℤ total f id g

-- Every sum is the int64 of the exact sum over the grants, and no handle has two grants.
pub record IsBalanced (set : AttributeSet) : Type 0 where
  pub unique : KeysUnique set.grants
  pub flats : (id : ℕ) → value_of id set.flat_sum ≡ wrap64 (total (λ m. m.flat) id set.grants)
  pub rates : (id : ℕ) → value_of id set.rate_sum ≡ wrap64 (total (λ m. m.rate_bp) id set.grants)

pub add_zero : (a : ℤ) → a +ℤ pos 0 ≡ a
unfolding ◌+ℤ◌
add_zero a = ground arith

pub sub_zero : (a : ℤ) → a -ℤ pos 0 ≡ a
unfolding ◌-ℤ◌
sub_zero a = ground arith

add_regroup : (a b c : ℤ) → a +ℤ b +ℤ c ≡ a +ℤ (b +ℤ c)
add_regroup a b c = omega int_laws

sub_regroup : (a b c : ℤ) → a -ℤ b -ℤ c ≡ a -ℤ (b +ℤ c)
sub_regroup a b c = omega int_laws

notify_keeps :
    (id : ℕ) (set : AttributeSet)
    → ((notify id set).flat_sum ≡ set.flat_sum)
      × ((notify id set).rate_sum ≡ set.rate_sum)
      × ((notify id set).grants ≡ set.grants)
unfolding notify
notify_keeps id set = ground arith

-- A map write `m[k] += v` or `m[k] -= v`, at every key.
module _ (op : ℤ → ℤ → ℤ) (law : (a b : ℤ) → wrap64 (op (wrap64 a) b) ≡ wrap64 (op a b)) where
  bump_lem :
      (k id : ℕ) (v x : ℤ) (m : Map ℤ)
      → value_of id m ≡ wrap64 x
      → value_of id (insert k (wrap64 (op (value_of k m) v)) m)
        ≡ wrap64 (if k == id then op x v else x)
  bump_lem k id v x m e =
      get_or-insert (pos 0) id k (wrap64 (op (value_of k m) v)) m ∙ elim (Bool-cases (k == id)) [
        | inl same ↦ rw same (
            ap (λ j. wrap64 (op (value_of j m) v)) ((==_iff k id).0 same)
            ∙ ap (λ y. wrap64 (op y v)) e
            ∙ law x v)
        | inr differ ↦ rw differ e
      ]

add_modifier_lem :
    (id : ℕ) (m : Modifier) (x y : ℤ) (set : AttributeSet)
    → value_of id set.flat_sum ≡ wrap64 x
    → value_of id set.rate_sum ≡ wrap64 y
    → let r = add_modifier m set in
      (value_of id r.flat_sum ≡ wrap64 (if m.attribute == id then x +ℤ m.flat else x))
      × (value_of id r.rate_sum ≡ wrap64 (if m.attribute == id then y +ℤ m.rate_bp else y))
      × (r.grants ≡ set.grants)
unfolding add_modifier add64
add_modifier_lem id m x y set e f =
    let k = notify_keeps m.attribute _ in
    (
      ap (value_of id) k.0 ∙ bump_lem ◌+ℤ◌ wrap64_add_left m.attribute id m.flat x set.flat_sum e,
      ap (value_of id) k.1
          ∙ bump_lem ◌+ℤ◌ wrap64_add_left m.attribute id m.rate_bp y set.rate_sum f,
      k.2,
    )

remove_modifier_lem :
    (id : ℕ) (m : Modifier) (x y : ℤ) (set : AttributeSet)
    → value_of id set.flat_sum ≡ wrap64 x
    → value_of id set.rate_sum ≡ wrap64 y
    → let r = remove_modifier m set in
      (value_of id r.flat_sum ≡ wrap64 (if m.attribute == id then x -ℤ m.flat else x))
      × (value_of id r.rate_sum ≡ wrap64 (if m.attribute == id then y -ℤ m.rate_bp else y))
      × (r.grants ≡ set.grants)
unfolding remove_modifier sub64
remove_modifier_lem id m x y set e f =
    let k = notify_keeps m.attribute _ in
    (
      ap (value_of id) k.0 ∙ bump_lem ◌-ℤ◌ wrap64_sub_left m.attribute id m.flat x set.flat_sum e,
      ap (value_of id) k.1
          ∙ bump_lem ◌-ℤ◌ wrap64_sub_left m.attribute id m.rate_bp y set.rate_sum f,
      k.2,
    )

add_step : (b : Bool) (x v w : ℤ) → (if b then x +ℤ v else x) +ℤ w ≡ x +ℤ (if b then v +ℤ w else w)
add_step true x v w = add_regroup x v w
add_step false x v w = refl

sub_step : (b : Bool) (x v w : ℤ) → (if b then x -ℤ v else x) -ℤ w ≡ x -ℤ (if b then v +ℤ w else w)
sub_step true x v w = sub_regroup x v w
sub_step false x v w = refl

-- The loops of Grant and Revoke.
pub add_modifiers_lem :
    (id : ℕ) (ms : List Modifier) (x y : ℤ) (set : AttributeSet)
    → value_of id set.flat_sum ≡ wrap64 x
    → value_of id set.rate_sum ≡ wrap64 y
    → let r = add_modifiers ms set in
      (value_of id r.flat_sum ≡ wrap64 (x +ℤ mods (λ m. m.flat) id ms))
      × (value_of id r.rate_sum ≡ wrap64 (y +ℤ mods (λ m. m.rate_bp) id ms))
      × (r.grants ≡ set.grants)
unfolding add_modifiers
add_modifiers_lem id [] x y set e f =
    (e ∙ ap wrap64 (sym (add_zero x)), f ∙ ap wrap64 (sym (add_zero y)), refl)
add_modifiers_lem id (m ∷ ms) x y set e f =
    let s = add_modifier_lem id m x y set e f in
    let r = add_modifiers_lem id ms _ _ (add_modifier m set) s.0 s.1 in
    (
      r.0 ∙ ap wrap64 (add_step (m.attribute == id) x m.flat _),
      r.1 ∙ ap wrap64 (add_step (m.attribute == id) y m.rate_bp _),
      r.2 ∙ s.2,
    )

pub remove_modifiers_lem :
    (id : ℕ) (ms : List Modifier) (x y : ℤ) (set : AttributeSet)
    → value_of id set.flat_sum ≡ wrap64 x
    → value_of id set.rate_sum ≡ wrap64 y
    → let r = remove_modifiers ms set in
      (value_of id r.flat_sum ≡ wrap64 (x -ℤ mods (λ m. m.flat) id ms))
      × (value_of id r.rate_sum ≡ wrap64 (y -ℤ mods (λ m. m.rate_bp) id ms))
      × (r.grants ≡ set.grants)
unfolding remove_modifiers
remove_modifiers_lem id [] x y set e f =
    (e ∙ ap wrap64 (sym (sub_zero x)), f ∙ ap wrap64 (sym (sub_zero y)), refl)
remove_modifiers_lem id (m ∷ ms) x y set e f =
    let s = remove_modifier_lem id m x y set e f in
    let r = remove_modifiers_lem id ms _ _ (remove_modifier m set) s.0 s.1 in
    (
      r.0 ∙ ap wrap64 (sub_step (m.attribute == id) x m.flat _),
      r.1 ∙ ap wrap64 (sub_step (m.attribute == id) y m.rate_bp _),
      r.2 ∙ s.2,
    )

add_swap : (a : ℤ) → a +ℤ pos 0 ≡ pos 0 +ℤ a
add_swap a = omega int_laws

cancel : (a b : ℤ) → a +ℤ b -ℤ a ≡ b
cancel a b = omega int_laws

carry : (a b c : ℤ) → a +ℤ b -ℤ c ≡ a +ℤ (b -ℤ c)
carry a b c = omega int_laws

carry_add : (a b c : ℤ) → a +ℤ (b +ℤ c) ≡ a +ℤ b +ℤ c
carry_add a b c = omega int_laws

-- Taking a grant out of the map takes its modifiers out of the total, and back.
pub total-erase :
    (f : Modifier → ℤ) (id h : ℕ) (ms : List Modifier) (g : Map (List Modifier))
    → KeysUnique g
    → lookup h g ≡ some ms
    → total f id g -ℤ mods f id ms ≡ total f id (erase h g)
unfolding lookup erase
total-erase f id h ms [] u e = cc
total-erase f id h ms ((j, ns) ∷ g) u e = ground (
  arith,
  erase_absent h g,
  total-erase f id h ms g u.1,
  cancel (mods f id ns) (total f id g),
  carry (mods f id ns) (total f id g) (mods f id ms),
)

pub total-insert :
    (f : Modifier → ℤ) (id h : ℕ) (ms : List Modifier) (g : Map (List Modifier))
    → lookup h g ≡ none
    → total f id (insert h ms g) ≡ total f id g +ℤ mods f id ms
unfolding lookup insert
total-insert f id h ms [] e = add_swap (mods f id ms)
total-insert f id h ms ((j, ns) ∷ g) e =
    ground (arith, total-insert f id h ms g, carry_add (mods f id ns) (total f id g) (mods f id ms))
