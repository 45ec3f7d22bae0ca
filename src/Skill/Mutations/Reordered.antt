-- ===== src/Skill/Mutations/Reordered.antt =====
-- skill/runtime_mutation.go: the order of the changes, and what they do under one key.
use roost_skill.Common.{
  ℕ, ◌+◌, ◌≤◌, Bool, true, false, if◌then◌else◌, not, ◌&&◌, List, [], ◌∷◌, ◌++◌, Option, none, some,
  ◌≡◌, refl, sym, ap, subst, ◌∙◌, ◌↔◌, arith, Bool-cases, inl, inr,
}
use roost_skill.Common.Reordering.{Reordered, none_left, keep, exchange, in_turn}
use roost_skill.Skill.Mutations.{
  Change, upserted, removed, is_some, indexed, upsert, remove, apply_change, apply_changes,
  removals, differs, upserts, diff_states,
}
use roost_skill.Skill.Mutations.RoundTrip.{
  find, KeysUnique, find-upsert, find-remove, indexed-find, find_of_equal_key, Agrees,
  diff_states-Agrees,
}

module _ {K V : Type 0} (key : V → K) (equal : K → K → Bool) where
  abbrev changed_key : Change K V → K
  changed_key (upserted v) = key v
  changed_key (removed k) = k

  abbrev left_by : Change K V → Option V
  left_by (upserted v) = some v
  left_by (removed k) = none

  abbrev concerns : K → Change K V → Bool
  concerns k c = equal (changed_key c) k

  -- What the changes make of the state of a key.
  unfoldable effect : K → List (Change K V) → Option V → Option V
  effect k [] o = o
  effect k (c ∷ cs) o = effect k cs (if concerns k c then left_by c else o)

  -- How many of the changes concern the key.
  unfoldable pub count_of : K → List (Change K V) → ℕ
  count_of k [] = 0
  count_of k (c ∷ cs) = if concerns k c then 1 + count_of k cs else count_of k cs

  count_of-Reordered :
      (k : K) {cs ds : List (Change K V)} → Reordered cs ds → count_of k cs ≡ count_of k ds
  unfolding count_of
  count_of-Reordered k none_left = refl
  count_of-Reordered k (keep a d) = rw (count_of-Reordered k d) refl
  count_of-Reordered k (exchange a b l) = swapped (concerns k a) (concerns k b) (count_of k l)
    where
      swapped :
          (x y : Bool) (n : ℕ)
          → (if x then 1 + (if y then 1 + n else n) else if y then 1 + n else n)
            ≡ (if y then 1 + (if x then 1 + n else n) else if x then 1 + n else n)
      swapped x y n = ground arith
  count_of-Reordered k (in_turn d e) = count_of-Reordered k d ∙ count_of-Reordered k e

  -- In any order of changes that concern a key at most once, they make the same of its state.
  effect-Reordered :
      (k : K) {cs ds : List (Change K V)} (o : Option V)
      → Reordered cs ds
      → count_of k cs ≤ 1
      → effect k cs o ≡ effect k ds o
  unfolding effect count_of
  effect-Reordered k o none_left le = refl
  effect-Reordered k o (keep a {xs} d) le =
      effect-Reordered k _ d (rest (concerns k a) (count_of k xs) le)
    where
      rest : (x : Bool) (n : ℕ) → (if x then 1 + n else n) ≤ 1 → n ≤ 1
      rest x n h = ground arith
  effect-Reordered k o (exchange a b l) le =
      ap (effect k l) (swapped (concerns k a) (concerns k b) (count_of k l) le)
    where
      too_many : (n : ℕ) → 1 + (1 + n) ≤ 1 → ⊥
      too_many n h = omega arith

      swapped :
          (x y : Bool) (n : ℕ)
          → (if x then 1 + (if y then 1 + n else n) else if y then 1 + n else n) ≤ 1
          → (if y then left_by b else if x then left_by a else o)
            ≡ (if x then left_by a else if y then left_by b else o)
      swapped true true n h = absurd (too_many n h)
      swapped true false n h = refl
      swapped false true n h = refl
      swapped false false n h = refl
  effect-Reordered k o (in_turn d e) le =
      effect-Reordered k o d le
      ∙ effect-Reordered k o e (subst (λ n. n ≤ 1) (count_of-Reordered k d) le)

  count_of-append :
      (k : K) (cs ds : List (Change K V)) → count_of k (cs ++ ds) ≡ count_of k cs + count_of k ds
  unfolding count_of
  count_of-append k [] ds = omega arith
  count_of-append k (c ∷ cs) ds = ground (arith, count_of-append k cs ds)

module _ {K V : Type 0} (key : V → K) (equal : K → K → Bool)
    (equal_iff : (a b : K) → (equal a b ≡ true) ↔ (a ≡ b)) where
  find-effect :
      (k : K) (cs : List (Change K V)) (xs : List V)
      → find key equal k (apply_changes key equal cs xs)
        ≡ effect key equal k cs (find key equal k xs)
  unfolding apply_changes apply_change effect
  find-effect k [] xs = refl
  find-effect k (upserted v ∷ cs) xs =
      find-effect k cs (upsert key equal v xs)
      ∙ ap (effect key equal k cs) (find-upsert key equal equal_iff k v xs)
  find-effect k (removed j ∷ cs) xs =
      find-effect k cs (remove key equal j xs)
      ∙ ap (effect key equal k cs) (find-remove key equal equal_iff j k xs)

  abbrev one_if : Bool → ℕ
  one_if true = 1
  one_if false = 0

  count_of-upserts :
      (same : V → V → Bool) (before : List V) (k : K) (vs : List V)
      → KeysUnique key equal vs
      → count_of key equal k (upserts key equal same before vs)
        ≤ one_if (is_some (find key equal k vs))
  unfolding count_of upserts find
  count_of-upserts same before k [] u = omega arith
  count_of-upserts same before k (v ∷ vs) u =
      let rest = count_of-upserts same before k vs u.1 in
      elim (Bool-cases (equal (key v) k)) [
        | inl e ↦
            let left = find_of_equal_key key equal equal_iff (key v) k vs u.0 e in
            at_key (differs same v (indexed key equal (key v) before)) e (
              subst
                (λ (o : Option V).
                  count_of key equal k (upserts key equal same before vs) ≤ one_if (is_some o))
                left rest)
        | inr e ↦ elsewhere (differs same v (indexed key equal (key v) before)) e rest
      ]
    where
      at_key :
          (d : Bool)
          → equal (key v) k ≡ true
          → count_of key equal k (upserts key equal same before vs) ≤ 0
          → count_of key equal k (
              if d
              then upserted v ∷ upserts key equal same before vs
              else upserts key equal same before vs)
            ≤ one_if (is_some (if equal (key v) k then some v else find key equal k vs))
      at_key true e h = rw e (omega arith)
      at_key false e h = rw e (omega arith)

      elsewhere :
          (d : Bool)
          → equal (key v) k ≡ false
          → count_of key equal k (upserts key equal same before vs)
            ≤ one_if (is_some (find key equal k vs))
          → count_of key equal k (
              if d
              then upserted v ∷ upserts key equal same before vs
              else upserts key equal same before vs)
            ≤ one_if (is_some (if equal (key v) k then some v else find key equal k vs))
      elsewhere true e h = rw e h
      elsewhere false e h = rw e h

  count_of-removals :
      (after : List V) (k : K) (vs : List V)
      → KeysUnique key equal vs
      → count_of key equal k (removals key equal after vs)
        ≤ one_if (is_some (find key equal k vs) && not (is_some (indexed key equal k after)))
  unfolding count_of removals find
  count_of-removals after k [] u = omega arith
  count_of-removals after k (v ∷ vs) u =
      let rest = count_of-removals after k vs u.1 in
      elim (Bool-cases (equal (key v) k)) [
        | inl e ↦
            let left = find_of_equal_key key equal equal_iff (key v) k vs u.0 e in
            let same_key =
              ap (λ j. is_some (indexed key equal j after)) ((equal_iff (key v) k).0 e) in
            at_key (is_some (indexed key equal (key v) after)) (is_some (indexed key equal k after))
              same_key e
              (subst
                (λ (o : Option V).
                  count_of key equal k (removals key equal after vs)
                  ≤ one_if (is_some o && not (is_some (indexed key equal k after))))
                left rest)
        | inr e ↦ elsewhere (is_some (indexed key equal (key v) after)) e rest
      ]
    where
      at_key :
          (d i : Bool)
          → d ≡ i
          → equal (key v) k ≡ true
          → count_of key equal k (removals key equal after vs) ≤ 0
          → count_of key equal k (
              if d
              then removals key equal after vs
              else removed (key v) ∷ removals key equal after vs)
            ≤ one_if (is_some (if equal (key v) k then some v else find key equal k vs) && not i)
      at_key true true q e h = rw e h
      at_key true false q e h = cc
      at_key false true q e h = cc
      at_key false false q e h = rw e (omega arith)

      elsewhere :
          (d : Bool)
          → equal (key v) k ≡ false
          → count_of key equal k (removals key equal after vs)
            ≤ one_if (is_some (find key equal k vs) && not (is_some (indexed key equal k after)))
          → count_of key equal k (
              if d
              then removals key equal after vs
              else removed (key v) ∷ removals key equal after vs)
            ≤ one_if (
                is_some (if equal (key v) k then some v else find key equal k vs)
                && not (is_some (indexed key equal k after)))
      elsewhere true e h = rw e h
      elsewhere false e h = rw e h

  module _ (same : V → V → Bool) (before after : List V) (k : K) (ub : KeysUnique key equal before)
      (ua : KeysUnique key equal after) where
    -- A diff lists at most one change for a key.
    at_most_one : count_of key equal k (diff_states key equal same before after) ≤ 1
    unfolding diff_states
    at_most_one =
        rw
          (count_of-append key equal k (upserts key equal same before after)
            (removals key equal after before))
          (sum (find key equal k after) (find key equal k before) _ _
            (count_of-upserts same before k after ua)
            (subst
              (λ (o : Option V).
                count_of key equal k (removals key equal after before)
                ≤ one_if (is_some (find key equal k before) && not (is_some o)))
              (indexed-find key equal equal_iff k after ua) (count_of-removals after k before ub)))
      where
        sum :
            (a b : Option V) (m n : ℕ)
            → m ≤ one_if (is_some a)
            → n ≤ one_if (is_some b && not (is_some a))
            → m + n ≤ 1
        sum none none m n h i = omega arith
        sum none (some v) m n h i = omega arith
        sum (some v) none m n h i = omega arith
        sum (some v) (some w) m n h i = omega arith

    -- The changes of a diff, applied to the states before in any order, as the sort of them gives one,
    -- have under every key the state after, or the state before where the diff takes the two for the
    -- same; and no state where there is none after. No key stands twice in the states before or after.
    pub apply_changes-Agrees :
        (cs : List (Change K V))
        → Reordered (diff_states key equal same before after) cs
        → Agrees same
            (find key equal k (apply_changes key equal cs before))
            (find key equal k after)
    apply_changes-Agrees cs order =
        subst (λ o. Agrees same o (find key equal k after))
          (find-effect k (diff_states key equal same before after) before
            ∙ effect-Reordered key equal k (find key equal k before) order at_most_one
            ∙ sym (find-effect k cs before))
          (diff_states-Agrees key equal same equal_iff before after k ub ua)
