-- ===== src/Combat/Attributes/Grants.antt =====
-- combat/attributes.go: Grant and Revoke keep the sums balanced, undo one another and commute.
use roost_skill.Common.{
  ℕ, List, [], ◌∷◌, Option, none, some, ◌≡◌, ◌≢◌, refl, sym, ap, ◌∙◌, arith, subst, inl, inr,
  Option-cases,
}
use roost_skill.Common.Int.{ℤ, pos, ◌+ℤ◌, ◌-ℤ◌, int_laws, wrap64}
use roost_skill.Common.Maps.{
  Map, lookup, insert, erase, KeysUnique, insert-KeysUnique, erase-KeysUnique, lookup-erase,
  erase_absent, lookup-insert, lookup-insert_self,
}
use roost_skill.Combat.Attributes.{
  Modifier, AttributeSet, value_of, notify, add_modifier, add_modifiers, remove_modifier,
  remove_modifiers, revoke, install, grant, current, resolve_value,
}
use roost_skill.Combat.Attributes.Sums.{
  mods, total, IsBalanced, add_modifiers_lem, remove_modifiers_lem, total-erase, total-insert,
  add_zero, sub_zero,
}

-- Revoking a handle, known or not, keeps a balanced set balanced: every flat and rate sum is the
-- int64 of the exact sum over the grants that stay, and no handle has two grants.
pub revoke-IsBalanced : (h : ℕ) (set : AttributeSet) → IsBalanced set → IsBalanced (revoke h set)
unfolding revoke
revoke-IsBalanced h set b = elim (Option-cases (lookup h set.grants)) [
  | inl e ↦ rw (e, revoke) b
  | inr (ms, e) ↦
      rw (e, revoke)
        (let held = record set { grants = erase h set.grants } in
          let r = λ (id : ℕ). remove_modifiers_lem id ms _ _ held (b.flats id) (b.rates id) in
          record {
            unique = subst KeysUnique (sym (r 0).2) (erase-KeysUnique h set.grants b.unique);
            flats = λ id.
                (r id).0
                ∙ ap wrap64 (
                    total-erase (λ m. m.flat) id h ms set.grants b.unique e
                    ∙ ap (total (λ m. m.flat) id) (sym (r id).2));
            rates = λ id.
                (r id).1
                ∙ ap wrap64 (
                    total-erase (λ m. m.rate_bp) id h ms set.grants b.unique e
                    ∙ ap (total (λ m. m.rate_bp) id) (sym (r id).2));
          })
]

-- The loops write neither bases nor bounds nor grants.
abbrev Framed : AttributeSet → AttributeSet → Type 0
Framed a b = (a.base ≡ b.base) × (a.bounds ≡ b.bounds) × (a.grants ≡ b.grants)

add_modifiers-Framed : (ms : List Modifier) (set : AttributeSet) → Framed (add_modifiers ms set) set
unfolding add_modifiers add_modifier notify
add_modifiers-Framed [] set = (refl, refl, refl)
add_modifiers-Framed (m ∷ ms) set = ground (arith, add_modifiers-Framed ms (add_modifier m set))

remove_modifiers-Framed :
    (ms : List Modifier) (set : AttributeSet) → Framed (remove_modifiers ms set) set
unfolding remove_modifiers remove_modifier notify
remove_modifiers-Framed [] set = (refl, refl, refl)
remove_modifiers-Framed (m ∷ ms) set =
    ground (arith, remove_modifiers-Framed ms (remove_modifier m set))

-- After Revoke the handle has no grant.
revoke-grants : (h : ℕ) (set : AttributeSet) → (revoke h set).grants ≡ erase h set.grants
unfolding revoke
revoke-grants h set = elim (Option-cases (lookup h set.grants)) [
  | inl e ↦ rw (e, revoke) (sym (erase_absent h set.grants e))
  | inr (ms, e) ↦ rw (e, revoke) (remove_modifiers-Framed ms _).2
]

lookup-revoke : (h : ℕ) (set : AttributeSet) → lookup h (revoke h set).grants ≡ none
lookup-revoke h set =
    ap (lookup h) (revoke-grants h set) ∙ lookup-erase h h set.grants ∙ ground arith

install-IsBalanced :
    (h : ℕ) (ms : List Modifier) (set : AttributeSet)
    → lookup h set.grants ≡ none
    → IsBalanced set
    → IsBalanced (install h ms set)
unfolding install
install-IsBalanced h [] set e b = b
install-IsBalanced h (m ∷ ms) set e b =
    let held = record set { grants = insert h (m ∷ ms) set.grants } in
    let r = λ (id : ℕ). add_modifiers_lem id (m ∷ ms) _ _ held (b.flats id) (b.rates id) in
    record {
      unique = subst KeysUnique (sym (r 0).2) (insert-KeysUnique h (m ∷ ms) set.grants b.unique);
      flats = λ id.
          (r id).0
          ∙ ap wrap64 (
              sym (total-insert (λ m. m.flat) id h (m ∷ ms) set.grants e)
              ∙ ap (total (λ m. m.flat) id) (sym (r id).2));
      rates = λ id.
          (r id).1
          ∙ ap wrap64 (
              sym (total-insert (λ m. m.rate_bp) id h (m ∷ ms) set.grants e)
              ∙ ap (total (λ m. m.rate_bp) id) (sym (r id).2));
    }

-- Granting, under a new or a known handle, keeps a balanced set balanced: every flat and rate sum is
-- the int64 of the exact sum over the grants that then live, and no handle has two grants.
pub grant-IsBalanced :
    (h : ℕ) (ms : List Modifier) (set : AttributeSet) → IsBalanced set → IsBalanced (grant h ms set)
unfolding grant
grant-IsBalanced h ms set b =
    install-IsBalanced h ms (revoke h set) (lookup-revoke h set) (revoke-IsBalanced h set b)

abbrev planted : ℕ → List Modifier → AttributeSet → AttributeSet
planted h ms set = record set { grants = insert h ms set.grants }

-- Neither Grant nor Revoke writes a base or a bound.
abbrev pub SameConfig : AttributeSet → AttributeSet → Type 0
SameConfig a b = (a.base ≡ b.base) × (a.bounds ≡ b.bounds)

revoke-SameConfig : (h : ℕ) (set : AttributeSet) → SameConfig (revoke h set) set
unfolding revoke
revoke-SameConfig h set = elim (Option-cases (lookup h set.grants)) [
  | inl e ↦ rw (e, revoke) (refl, refl)
  | inr (ms, e) ↦
      rw (e, revoke) ((remove_modifiers-Framed ms _).0, (remove_modifiers-Framed ms _).1)
]

install-SameConfig :
    (h : ℕ) (ms : List Modifier) (set : AttributeSet) → SameConfig (install h ms set) set
unfolding install
install-SameConfig h [] set = (refl, refl)
install-SameConfig h (m ∷ ms) set = (
  (add_modifiers-Framed (m ∷ ms) (planted h (m ∷ ms) set)).0,
  (add_modifiers-Framed (m ∷ ms) (planted h (m ∷ ms) set)).1,
)

grant-SameConfig :
    (h : ℕ) (ms : List Modifier) (set : AttributeSet) → SameConfig (grant h ms set) set
unfolding grant
grant-SameConfig h ms set =
    let i = install-SameConfig h ms (revoke h set) in
    let r = revoke-SameConfig h set in (i.0 ∙ r.0, i.1 ∙ r.1)

-- What the grant under a handle, if any, adds to an attribute.
abbrev held : (Modifier → ℤ) → ℕ → Option (List Modifier) → ℤ
held f id none = pos 0
held f id (some ms) = mods f id ms

-- The total after a grant: the handle's old modifiers leave and the new ones come.
total-erase-held :
    (f : Modifier → ℤ) (id h : ℕ) (g : Map (List Modifier))
    → KeysUnique g
    → total f id (erase h g) ≡ total f id g -ℤ held f id (lookup h g)
total-erase-held f id h g u = elim (Option-cases (lookup h g)) [
  | inl e ↦ rw e (ap (total f id) (erase_absent h g e) ∙ sym (sub_zero (total f id g)))
  | inr (ms, e) ↦ rw e (sym (total-erase f id h ms g u e))
]

install-total :
    (f : Modifier → ℤ) (id h : ℕ) (ms : List Modifier) (set : AttributeSet)
    → lookup h set.grants ≡ none
    → total f id (install h ms set).grants ≡ total f id set.grants +ℤ mods f id ms
unfolding install
install-total f id h [] set e = sym (add_zero _)
install-total f id h (m ∷ ms) set e =
    ap (total f id) (add_modifiers-Framed (m ∷ ms) (planted h (m ∷ ms) set)).2
    ∙ total-insert f id h (m ∷ ms) set.grants e

grant-total :
    (f : Modifier → ℤ) (id h : ℕ) (ms : List Modifier) (set : AttributeSet)
    → KeysUnique set.grants
    → total f id (grant h ms set).grants
      ≡ total f id set.grants -ℤ held f id (lookup h set.grants) +ℤ mods f id ms
unfolding grant
grant-total f id h ms set u =
    install-total f id h ms (revoke h set) (lookup-revoke h set)
    ∙ ap (λ g. total f id g +ℤ mods f id ms) (revoke-grants h set)
    ∙ ap (λ t. t +ℤ mods f id ms) (total-erase-held f id h set.grants u)

-- A grant under another handle stays as it was.
install-lookup_ne :
    (j h : ℕ) (ms : List Modifier) (set : AttributeSet)
    → h ≢ j
    → lookup j (install h ms set).grants ≡ lookup j set.grants
unfolding install
install-lookup_ne j h [] set ne = refl
install-lookup_ne j h (m ∷ ms) set ne =
    ap (lookup j) (add_modifiers-Framed (m ∷ ms) (planted h (m ∷ ms) set)).2
    ∙ lookup-insert j h (m ∷ ms) set.grants
    ∙ ground arith

grant-lookup_ne :
    (j h : ℕ) (ms : List Modifier) (set : AttributeSet)
    → h ≢ j
    → lookup j (grant h ms set).grants ≡ lookup j set.grants
unfolding grant
grant-lookup_ne j h ms set ne =
    install-lookup_ne j h ms (revoke h set) ne
    ∙ ap (lookup j) (revoke-grants h set)
    ∙ lookup-erase j h set.grants
    ∙ ground arith

-- In a balanced set the value of an attribute is a function of its base, its bounds and the exact
-- sums of the live modifiers.
current-total :
    (id : ℕ) (set : AttributeSet)
    → IsBalanced set
    → current id set
      ≡ resolve_value
          (value_of id set.base)
          (wrap64 (total (λ m. m.flat) id set.grants))
          (wrap64 (total (λ m. m.rate_bp) id set.grants))
          (lookup id set.bounds)
unfolding current
current-total id set b = rw (b.flats id, b.rates id)

same_current :
    (id : ℕ) (a b : AttributeSet)
    → IsBalanced a
    → IsBalanced b
    → SameConfig a b
    → ((f : Modifier → ℤ) → total f id a.grants ≡ total f id b.grants)
    → current id a ≡ current id b
same_current id a b ba bb c t =
    current-total id a ba
    ∙ rw (c.0, c.1, t (λ m. m.flat), t (λ m. m.rate_bp)) (sym (current-total id b bb))

swap_grants : (t a b c d : ℤ) → t -ℤ a +ℤ b -ℤ c +ℤ d ≡ t -ℤ c +ℤ d -ℤ a +ℤ b
swap_grants t a b c d = omega int_laws

two_totals :
    (f : Modifier → ℤ) (id h k : ℕ) (ms ns : List Modifier) (set : AttributeSet)
    → IsBalanced set
    → k ≢ h
    → total f id (grant h ms (grant k ns set)).grants
      ≡ total f id set.grants
        -ℤ held f id (lookup k set.grants)
        +ℤ mods f id ns
        -ℤ held f id (lookup h set.grants)
        +ℤ mods f id ms
two_totals f id h k ms ns set b ne =
    grant-total f id h ms (grant k ns set) (grant-IsBalanced k ns set b).unique
    ∙ ap (λ o. total f id (grant k ns set).grants -ℤ held f id o +ℤ mods f id ms)
        (grant-lookup_ne h k ns set ne)
    ∙ ap (λ t. t -ℤ held f id (lookup h set.grants) +ℤ mods f id ms)
        (grant-total f id k ns set b.unique)

two_grants-SameConfig :
    (h k : ℕ) (ms ns : List Modifier) (set : AttributeSet)
    → SameConfig (grant h ms (grant k ns set)) set
two_grants-SameConfig h k ms ns set =
    let x = grant-SameConfig h ms (grant k ns set) in
    let y = grant-SameConfig k ns set in (x.0 ∙ y.0, x.1 ∙ y.1)

-- In a balanced set, two grants under different handles give the same values in either order.
pub grant_comm :
    (id h k : ℕ) (ms ns : List Modifier) (set : AttributeSet)
    → IsBalanced set
    → h ≢ k
    → current id (grant h ms (grant k ns set)) ≡ current id (grant k ns (grant h ms set))
grant_comm id h k ms ns set b ne =
    let x = two_grants-SameConfig h k ms ns set in
    let y = two_grants-SameConfig k h ns ms set in
    same_current id (grant h ms (grant k ns set)) (grant k ns (grant h ms set))
      (grant-IsBalanced h ms _ (grant-IsBalanced k ns set b))
      (grant-IsBalanced k ns _ (grant-IsBalanced h ms set b)) (x.0 ∙ sym y.0, x.1 ∙ sym y.1)
      λ f.
        two_totals f id h k ms ns set b (λ e. ne (sym e))
        ∙ swap_grants (total f id set.grants) (held f id (lookup k set.grants)) (mods f id ns)
            (held f id (lookup h set.grants)) (mods f id ms)
        ∙ sym (two_totals f id k h ns ms set b ne)

grant-held :
    (f : Modifier → ℤ) (id h : ℕ) (ms : List Modifier) (set : AttributeSet)
    → held f id (lookup h (grant h ms set).grants) ≡ mods f id ms
unfolding grant install
grant-held f id h [] set = ap (held f id) (lookup-revoke h set)
grant-held f id h (m ∷ ms) set =
    ap (λ g. held f id (lookup h g))
      (add_modifiers-Framed (m ∷ ms) (planted h (m ∷ ms) (revoke h set))).2
    ∙ ap (held f id) (lookup-insert_self h (m ∷ ms) (revoke h set).grants)

undo_total : (t m : ℤ) → t -ℤ pos 0 +ℤ m -ℤ m ≡ t
undo_total t m = omega int_laws

-- In a balanced set, revoking what was granted under a free handle restores every value.
pub revoke-grant :
    (id h : ℕ) (ms : List Modifier) (set : AttributeSet)
    → IsBalanced set
    → lookup h set.grants ≡ none
    → current id (revoke h (grant h ms set)) ≡ current id set
revoke-grant id h ms set b free =
    let x = revoke-SameConfig h (grant h ms set) in
    let y = grant-SameConfig h ms set in
    same_current id (revoke h (grant h ms set)) set
      (revoke-IsBalanced h _ (grant-IsBalanced h ms set b)) b (x.0 ∙ y.0, x.1 ∙ y.1)
      λ f.
        ap (total f id) (revoke-grants h (grant h ms set))
        ∙ total-erase-held f id h (grant h ms set).grants (grant-IsBalanced h ms set b).unique
        ∙ ap (λ m. total f id (grant h ms set).grants -ℤ m) (grant-held f id h ms set)
        ∙ ap (λ t. t -ℤ mods f id ms)
            (grant-total f id h ms set b.unique
              ∙ ap (λ o. total f id set.grants -ℤ held f id o +ℤ mods f id ms) free)
        ∙ undo_total (total f id set.grants) (mods f id ms)
