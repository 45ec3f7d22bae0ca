-- ===== src/Skill/Mutations/RoundTrip.antt =====
-- skill/runtime_mutation.go: the changes of a diff, applied in the order in which it lists them.
use roost_skill.Common.{
  Bool, true, false, if◌then◌else◌, not, ◌&&◌, List, [], ◌∷◌, ◌++◌, Option, none, some, any, ◌≡◌,
  refl, sym, ap, subst, ◌∙◌, ◌⊎◌, inl, inr, ◌↔◌, arith, Bool-cases, if_cases,
}
use roost_skill.Skill.Mutations.{
  Change, is_some, or_earlier, indexed, upsert, remove, apply_change, apply_changes, removals,
  differs, upserts, diff_states,
}

module _ {K V : Type 0} (key : V → K) (equal : K → K → Bool) where
  -- The state of a key: the first one.
  unfoldable pub find : K → List V → Option V
  find k [] = none
  find k (v ∷ vs) = if equal (key v) k then some v else find k vs

  abbrev pub KeysUnique : List V → Type 0
  KeysUnique [] = Unit
  KeysUnique (v ∷ vs) = (find (key v) vs ≡ none) × KeysUnique vs

module _ {K V : Type 0} (key : V → K) (equal : K → K → Bool)
    (equal_iff : (a b : K) → (equal a b ≡ true) ↔ (a ≡ b)) where
  pub find_of_equal_key :
      (j k : K) (vs : List V)
      → find key equal j vs ≡ none
      → equal j k ≡ true
      → find key equal k vs ≡ none
  find_of_equal_key j k vs h e = subst (λ x. find key equal x vs ≡ none) ((equal_iff j k).0 e) h

  pub indexed-find :
      (k : K) (vs : List V) → KeysUnique key equal vs → indexed key equal k vs ≡ find key equal k vs
  unfolding indexed find
  indexed-find k [] u = refl
  indexed-find k (v ∷ vs) u = elim (Bool-cases (equal (key v) k)) [
    | inl e ↦ rw (e, indexed-find k vs u.1, find_of_equal_key (key v) k vs u.0 e) refl
    | inr e ↦ rw (e, indexed-find k vs u.1) (or_none (find key equal k vs))
  ]
    where
      or_none : (o : Option V) → or_earlier o none ≡ o
      or_none none = refl
      or_none (some v) = refl

  same_test : (a b k : K) → equal a b ≡ true → equal a k ≡ equal b k
  same_test a b k e = ap (λ x. equal x k) ((equal_iff a b).0 e)

  pub find-upsert :
      (k : K) (v : V) (xs : List V)
      → find key equal k (upsert key equal v xs)
        ≡ (if equal (key v) k then some v else find key equal k xs)
  unfolding find upsert
  find-upsert k v [] = refl
  find-upsert k v (x ∷ xs) = elim (Bool-cases (equal (key x) (key v))) [
    | inl e ↦ rw (e, same_test (key x) (key v) k e) (twice (equal (key v) k))
    | inr e ↦ elim (Bool-cases (equal (key x) k)) [
      | inl i ↦ rw (e, i, other x i e) refl
      | inr i ↦ rw (e, i) (find-upsert k v xs)
    ]
  ]
    where
      twice :
          (b : Bool)
          → (if b then some v else find key equal k xs)
            ≡ (if b then some v else if b then some x else find key equal k xs)
      twice true = refl
      twice false = refl

      other :
          (x : V) → equal (key x) k ≡ true → equal (key x) (key v) ≡ false → equal (key v) k ≡ false
      other x i e = elim (Bool-cases (equal (key v) k)) [
        | inl j ↦ cc (
          e,
          (equal_iff (key x) (key v)).1
              ((equal_iff (key x) k).0 i ∙ sym ((equal_iff (key v) k).0 j)),
        )
        | inr j ↦ j
      ]

  pub find-remove :
      (j k : K) (xs : List V)
      → find key equal k (remove key equal j xs) ≡ (if equal j k then none else find key equal k xs)
  unfolding find remove
  find-remove j k [] =
      if_cases (λ (o : Option V). none ≡ o) (equal j k) {x = none} {y = none} (λ _. refl)
        (λ _. refl)
  find-remove j k (x ∷ xs) = elim (Bool-cases (equal (key x) j)) [
    | inl e ↦ rw (e, same_test (key x) j k e, find-remove j k xs) (twice (equal j k))
    | inr e ↦ elim (Bool-cases (equal (key x) k)) [
      | inl i ↦ rw (e, i, apart i e) refl
      | inr i ↦ rw (e, i) (find-remove j k xs)
    ]
  ]
    where
      twice :
          (b : Bool)
          → (if b then none else find key equal k xs)
            ≡ (if b then none else if b then some x else find key equal k xs)
      twice true = refl
      twice false = refl

      apart : equal (key x) k ≡ true → equal (key x) j ≡ false → equal j k ≡ false
      apart i e = elim (Bool-cases (equal j k)) [
        | inl h ↦
            cc (e, (equal_iff (key x) j).1 ((equal_iff (key x) k).0 i ∙ sym ((equal_iff j k).0 h)))
        | inr h ↦ h
      ]

  -- The removals take the states whose key is not among those after, and no others.
  find-removals :
      (after : List V) (k : K) (vs xs : List V)
      → find key equal k (apply_changes key equal (removals key equal after vs) xs) ≡ (
          if any (λ v. equal (key v) k) vs && not (is_some (indexed key equal k after))
          then none
          else find key equal k xs)
  unfolding apply_changes removals apply_change
  find-removals after k [] xs = refl
  find-removals after k (v ∷ vs) xs = elim (Bool-cases (equal (key v) k)) [
    | inl e ↦
        let q = (equal_iff (key v) k).0 e in
        elim (Bool-cases (is_some (indexed key equal k after))) [
          | inl h ↦
              rw (e, ap (λ x. is_some (indexed key equal x after)) q, h)
                (find-removals after k vs xs ∙ rw h (never (any (λ w. equal (key w) k) vs)))
          | inr h ↦
              rw (e, ap (λ x. is_some (indexed key equal x after)) q, h)
                (find-removals after k vs (remove key equal (key v) xs)
                  ∙ rw (find-remove (key v) k xs, e) (both_none _ none refl))
        ]
    | inr e ↦ elim (Bool-cases (is_some (indexed key equal (key v) after))) [
      | inl h ↦ rw (e, h) (find-removals after k vs xs)
      | inr h ↦
          rw (e, h)
            (find-removals after k vs (remove key equal (key v) xs)
              ∙ rw (find-remove (key v) k xs, e) refl)
    ]
  ]
    where
      never : (b : Bool) → (if b && false then none else find key equal k xs) ≡ find key equal k xs
      never true = refl
      never false = refl

      both_none : (b : Bool) (o : Option V) → o ≡ none → (if b then none else o) ≡ none
      both_none true o h = refl
      both_none false o h = h

-- The same state, or one that the comparison of the diff takes for the same.
abbrev pub Agrees : {V : Type 0} → (V → V → Bool) → Option V → Option V → Type 0
Agrees same none none = Unit
Agrees same (some w) (some v) = (w ≡ v) ⊎ (same w v ≡ true)
Agrees same none (some v) = ⊥
Agrees same (some w) none = ⊥

abbrev updated : {V : Type 0} → (V → V → Bool) → Option V → Option V → Option V
updated same earlier none = earlier
updated same earlier (some v) = if differs same v earlier then some v else earlier

module _ {K V : Type 0} (key : V → K) (equal : K → K → Bool) (same : V → V → Bool)
    (equal_iff : (a b : K) → (equal a b ≡ true) ↔ (a ≡ b)) where
  -- A key that no state has after is left as it is.
  upserts_elsewhere :
      (before : List V) (k : K) (vs xs : List V)
      → find key equal k vs ≡ none
      → find key equal k (apply_changes key equal (upserts key equal same before vs) xs)
        ≡ find key equal k xs
  unfolding find apply_changes upserts apply_change
  upserts_elsewhere before k [] xs h = refl
  upserts_elsewhere before k (v ∷ vs) xs h = elim (Bool-cases (equal (key v) k)) [
    | inl e ↦ cc (rw e at h)
    | inr e ↦ elim (Bool-cases (differs same v (indexed key equal (key v) before))) [
      | inl d ↦ rw d (
          upserts_elsewhere before k vs (upsert key equal v xs) (rw e at h)
          ∙ rw (find-upsert key equal equal_iff k v xs, e) refl)
      | inr d ↦ rw d (upserts_elsewhere before k vs xs (rw e at h))
    ]
  ]

  -- The upserts put the states that differ from those before.
  find-upserts :
      (before : List V) (k : K) (vs xs : List V)
      → KeysUnique key equal before
      → KeysUnique key equal vs
      → find key equal k xs ≡ find key equal k before
      → find key equal k (apply_changes key equal (upserts key equal same before vs) xs)
        ≡ updated same (find key equal k before) (find key equal k vs)
  unfolding find apply_changes upserts apply_change
  find-upserts before k [] xs ub u h = h
  find-upserts before k (v ∷ vs) xs ub u h = elim (Bool-cases (equal (key v) k)) [
    | inl e ↦
        let q = (equal_iff (key v) k).0 e in
        let none_left = find_of_equal_key key equal equal_iff (key v) k vs u.0 e in
        let before_is =
          ap (λ j. indexed key equal j before) q ∙ indexed-find key equal equal_iff k before ub in
        elim (Bool-cases (differs same v (find key equal k before))) [
          | inl d ↦
              rw (before_is, d, e)
                (upserts_elsewhere before k vs (upsert key equal v xs) none_left
                  ∙ rw (find-upsert key equal equal_iff k v xs, e, d) refl)
          | inr d ↦
              rw (before_is, d, e) (upserts_elsewhere before k vs xs none_left ∙ h ∙ rw d refl)
        ]
    | inr e ↦ elim (Bool-cases (differs same v (indexed key equal (key v) before))) [
      | inl d ↦
          rw (d, e)
            (find-upserts before k vs (upsert key equal v xs) ub u.1
              (rw (find-upsert key equal equal_iff k v xs, e) h))
      | inr d ↦ rw (d, e) (find-upserts before k vs xs ub u.1 h)
    ]
  ]

  apply_changes-append :
      (cs ds : List (Change K V)) (xs : List V)
      → apply_changes key equal (cs ++ ds) xs
        ≡ apply_changes key equal ds (apply_changes key equal cs xs)
  unfolding apply_changes
  apply_changes-append [] ds xs = refl
  apply_changes-append (c ∷ cs) ds xs = apply_changes-append cs ds (apply_change key equal c xs)

  any-find : (k : K) (vs : List V) → any (λ v. equal (key v) k) vs ≡ is_some (find key equal k vs)
  unfolding find
  any-find k [] = refl
  any-find k (v ∷ vs) = elim (Bool-cases (equal (key v) k)) [
    | inl e ↦ rw e refl
    | inr e ↦ rw e (any-find k vs)
  ]

  settled :
      (earlier later : Option V)
      → Agrees same
          (if is_some earlier && not (is_some later) then none else updated same earlier later)
          later
  settled none none = tt
  settled none (some v) = inl refl
  settled (some p) none = tt
  settled (some p) (some v) =
      if_cases (λ (o : Option V). Agrees same o (some v)) (not (same p v)) (λ _. inl refl)
        (λ e. inr (ground arith))

  pub diff_states-Agrees :
      (before after : List V) (k : K)
      → KeysUnique key equal before
      → KeysUnique key equal after
      → Agrees same
          (find key equal k
            (apply_changes key equal (diff_states key equal same before after) before))
          (find key equal k after)
  unfolding diff_states
  diff_states-Agrees before after k ub ua =
      subst (λ o. Agrees same o (find key equal k after)) (sym computed)
        (settled (find key equal k before) (find key equal k after))
    where
      put : List V
      put = apply_changes key equal (upserts key equal same before after) before

      computed :
          find key equal k (
            apply_changes key equal
              (upserts key equal same before after ++ removals key equal after before)
              before)
          ≡ (if is_some (find key equal k before) && not (is_some (find key equal k after))
              then none
              else updated same (find key equal k before) (find key equal k after))
      computed =
          ap (find key equal k) (
            apply_changes-append (upserts key equal same before after)
              (removals key equal after before) before)
          ∙ find-removals key equal equal_iff after k before put
          ∙ rw
              (
                any-find k before,
                indexed-find key equal equal_iff k after ua,
                find-upserts before k after before ub ua refl,
              )
              refl
