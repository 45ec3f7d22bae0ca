-- ===== src/Combat/Buffs/Sweeps.antt =====
-- combat/buffs.go: what the walks of Tick and Dispel take out of the container.
use mathlib.Core.Path.{subst₂, subst₃}
use mathlib.Core.List.{reverse, reverse-reverse, reverse-cons, append_assoc, append-nil}
use roost_skill.Common.{
  ℕ, ◌≤◌, ◌<◌, Bool, true, false, ◌++◌, List, [], ◌∷◌, ◌≡◌, ◌≢◌, ◌⊎◌, inl, inr, refl, sym, ap, ◌∙◌,
  subst, arith, All, length, Bool-cases, String, length-append,
}
use roost_skill.Common.Int.{ℤ, pos, ◌≤ℤ◌, ◌<ℤ◌}
use roost_skill.Combat.Buffs.Specs.{BuffInstance}
use roost_skill.Combat.Buffs.{BuffContainer}
use roost_skill.Combat.Buffs.Removal.{
  Sweep, visit, tick_loop, tick, is_due, dispel_loop, dispel, is_full, has_tag_of,
}

-- `zs` holds the entries of `xs` and of `ys`, both in their order.
pub data Merge {ℓ} {A : Type ℓ} : List A → List A → List A → Type ℓ where
  done : Merge [] [] []
  left : {a : A} {xs ys zs : List A} → Merge xs ys zs → Merge (a ∷ xs) ys (a ∷ zs)
  right : {a : A} {xs ys zs : List A} → Merge xs ys zs → Merge xs (a ∷ ys) (a ∷ zs)

pub all_right {ℓ} : {A : Type ℓ} (l : List A) → Merge [] l l
all_right [] = done
all_right (a ∷ l) = right (all_right l)

-- The entry `a` at the end of the merged list.
module _ {ℓ} {A : Type ℓ} (a : A) where
  left_end : {xs ys zs : List A} → Merge xs ys zs → Merge (xs ++ a ∷ []) ys (zs ++ a ∷ [])
  left_end done = left done
  left_end (left m) = left (left_end m)
  left_end (right m) = right (left_end m)

  right_end : {xs ys zs : List A} → Merge xs ys zs → Merge xs (ys ++ a ∷ []) (zs ++ a ∷ [])
  right_end done = right done
  right_end (left m) = left (right_end m)
  right_end (right m) = right (right_end m)

Merge-reverse {ℓ} :
    {A : Type ℓ} {xs ys zs : List A} → Merge xs ys zs → Merge (reverse xs) (reverse ys) (reverse zs)
Merge-reverse done = done
Merge-reverse (left {a} {xs} {ys} {zs} m) =
    rw (reverse-cons a xs, reverse-cons a zs) (left_end a (Merge-reverse m))
Merge-reverse (right {a} {xs} {ys} {zs} m) =
    rw (reverse-cons a ys, reverse-cons a zs) (right_end a (Merge-reverse m))

-- An instance that has run out by `now`, and one that has not.
abbrev pub IsOver : ℤ → BuffInstance → Type 0
IsOver now i = (i.due_tick ≢ pos 0) × (i.due_tick ≤ℤ now)

abbrev pub IsRunning : ℤ → BuffInstance → Type 0
IsRunning now i = (i.due_tick ≡ pos 0) ⊎ (now <ℤ i.due_tick)

is_due-IsOver : (now : ℤ) (i : BuffInstance) → is_due now i ≡ true → IsOver now i
unfolding is_due
is_due-IsOver now i e = ground arith

is_due-IsRunning : (now : ℤ) (i : BuffInstance) → is_due now i ≡ false → IsRunning now i
unfolding is_due
is_due-IsRunning now i e = ground arith

-- What a walk over `l` from the sweep `s` to the sweep `r` has done: what it took satisfies `P`, and
-- if it was not cut short (`R`), what it left satisfies `Q`.
pub record Walked (P Q : BuffInstance → Type 0) (R : Type 0) (l : List BuffInstance) (s r : Sweep)
    : Type 0 where
  pub taken : List BuffInstance
  pub left_over : List BuffInstance
  pub split : Merge taken left_over l
  pub removed_eq : r.removed ≡ s.removed ++ taken
  pub kept_eq : r.kept ≡ reverse left_over ++ s.kept
  pub taken_all : All P taken
  pub left_all : R → All Q left_over

module _ {P Q : BuffInstance → Type 0} {R : Type 0} where
  Walked-none : (s : Sweep) → Walked P Q R [] s s
  Walked-none s = record {
    taken = [];
    left_over = [];
    split = done;
    removed_eq = sym (append-nil s.removed);
    kept_eq = refl;
    taken_all = tt;
    left_all = λ h. tt;
  }

  visit_first :
      (hit : Bool) (i : BuffInstance) (l : List BuffInstance) (s r : Sweep)
      → (hit ≡ true → P i)
      → (hit ≡ false → Q i)
      → Walked P Q R l (visit hit i s) r
      → Walked P Q R (i ∷ l) s r
  unfolding visit
  visit_first true i l s r p q w = record {
    taken = i ∷ w.taken;
    left_over = w.left_over;
    split = left w.split;
    removed_eq = w.removed_eq ∙ append_assoc s.removed (i ∷ []) w.taken;
    kept_eq = w.kept_eq;
    taken_all = (p refl, w.taken_all);
    left_all = w.left_all;
  }
  visit_first false i l s r p q w = record {
    taken = w.taken;
    left_over = i ∷ w.left_over;
    split = right w.split;
    removed_eq = w.removed_eq;
    kept_eq =
        w.kept_eq
        ∙ sym (
            ap (λ x. x ++ s.kept) (reverse-cons i w.left_over)
            ∙ append_assoc (reverse w.left_over) (i ∷ []) s.kept);
    taken_all = w.taken_all;
    left_all = λ h. (q refl, w.left_all h);
  }

tick_loop-Walked :
    (now : ℤ) (l : List BuffInstance) (s : Sweep)
    → Walked (IsOver now) (IsRunning now) (Unit {0}) l s (tick_loop now l s)
unfolding tick_loop
tick_loop-Walked now [] s = Walked-none s
tick_loop-Walked now (i ∷ l) s =
    visit_first (is_due now i) i l s _ (is_due-IsOver now i) (is_due-IsRunning now i)
      (tick_loop-Walked now l (visit (is_due now i) i s))

-- Tick takes exactly the instances that are over, and keeps the others; both stay in order.
pub tick-Merge :
    (now : ℤ) (c : BuffContainer)
    → let (c', expired) = tick now c in
      Merge expired c'.active c.active × All (IsOver now) expired × All (IsRunning now) c'.active
unfolding tick
tick-Merge now c =
    let w = tick_loop-Walked now c.active _ in
    let k =
      ap reverse (w.kept_eq ∙ append-nil (reverse w.left_over)) ∙ reverse-reverse w.left_over in
    (
      subst₂ (λ x y. Merge x y c.active) (sym w.removed_eq) (sym k) w.split,
      subst (All (IsOver now)) (sym w.removed_eq) w.taken_all,
      subst (All (IsRunning now)) (sym k) (w.left_all tt),
    )

abbrev HasTag : String → BuffInstance → Type 0
HasTag tag i = has_tag_of tag i ≡ true

abbrev LacksTag : String → BuffInstance → Type 0
LacksTag tag i = has_tag_of tag i ≡ false

-- A cut: nothing more is taken.
cut_short :
    {P Q : BuffInstance → Type 0} {R : Type 0} (l : List BuffInstance) (s : Sweep)
    → ¬ R
    → Walked P Q R l s (record s { kept = reverse l ++ s.kept })
cut_short l s h = record {
  taken = [];
  left_over = l;
  split = all_right l;
  removed_eq = sym (append-nil s.removed);
  kept_eq = refl;
  taken_all = tt;
  left_all = λ r. absurd (h r);
}

true_ne_false : true ≢ false
true_ne_false e = cc

dispel_loop-Walked :
    (tag : String) (limit : ℤ) (l : List BuffInstance) (s : Sweep)
    → Walked
        (HasTag tag)
        (LacksTag tag)
        (is_full limit (dispel_loop tag limit l s).removed ≡ false)
        l
        s
        (dispel_loop tag limit l s)
unfolding dispel_loop
dispel_loop-Walked tag limit [] s = Walked-none s
dispel_loop-Walked tag limit (i ∷ l) s = elim (Bool-cases (is_full limit s.removed)) [
  | inl full ↦ rw full (cut_short (i ∷ l) s (λ e. true_ne_false (sym full ∙ e)))
  | inr more ↦ rw more (
      visit_first (has_tag_of tag i) i l s _ (λ e. e) (λ e. e)
        (dispel_loop-Walked tag limit l (visit (has_tag_of tag i) i s)))
]

length-visit :
    (hit : Bool) (i : BuffInstance) (n : ℕ) (s : Sweep)
    → length s.removed < n
    → length (visit hit i s).removed ≤ n
unfolding visit
length-visit true i n s h = omega (arith, length-append s.removed (i ∷ []))
length-visit false i n s h = omega arith

is_full_lt : (n : ℕ) (l : List BuffInstance) → is_full (pos n) l ≡ false → 0 < n → length l < n
unfolding is_full
is_full_lt n l e h = ground arith

not_full :
    (limit : ℤ) (l : List BuffInstance)
    → (limit ≤ℤ pos 0) ⊎ (pos (length l) <ℤ limit)
    → is_full limit l ≡ false
unfolding is_full
not_full limit l h = ground arith

length-dispel_loop :
    (tag : String) (n : ℕ) (l : List BuffInstance) (s : Sweep)
    → 0 < n
    → length s.removed ≤ n
    → length (dispel_loop tag (pos n) l s).removed ≤ n
unfolding dispel_loop
length-dispel_loop tag n [] s h k = k
length-dispel_loop tag n (i ∷ l) s h k = elim (Bool-cases (is_full (pos n) s.removed)) [
  | inl full ↦ rw full k
  | inr more ↦ rw more (
      length-dispel_loop tag n l (visit (has_tag_of tag i) i s) h
        (length-visit (has_tag_of tag i) i n s (is_full_lt n s.removed more h)))
]

module _ (P : BuffInstance → Type 0) where
  All-end : (l : List BuffInstance) (a : BuffInstance) → All P l → P a → All P (l ++ a ∷ [])
  All-end [] a h p = (p, tt)
  All-end (b ∷ l) a h p = (h.0, All-end l a h.1 p)

  All-reverse : (l : List BuffInstance) → All P l → All P (reverse l)
  All-reverse [] h = tt
  All-reverse (a ∷ l) h = rw (reverse-cons a l) (All-end (reverse l) a (All-reverse l h.1) h.0)

  pub All-Merge : {xs ys zs : List BuffInstance} → Merge xs ys zs → All P zs → All P xs × All P ys
  All-Merge done h = (tt, tt)
  All-Merge (left m) h = let r = All-Merge m h.1 in ((h.0, r.0), r.1)
  All-Merge (right m) h = let r = All-Merge m h.1 in (r.0, (h.0, r.1))

-- The sweep that Dispel starts from.
abbrev unswept : BuffContainer → Sweep
unswept c = record { kept = []; removed = []; attributes = c.attributes }

-- Dispel takes only instances with the tag; what is taken, read backwards, and what is left are in
-- order.
pub dispel-Merge :
    (tag : String) (limit : ℤ) (c : BuffContainer)
    → let (c', removed) = dispel tag limit c in
      Merge (reverse removed) c'.active c.active × All (HasTag tag) removed
unfolding dispel
dispel-Merge tag limit c =
    let w = dispel_loop-Walked tag limit (reverse c.active) (unswept c) in
    let k = w.kept_eq ∙ append-nil (reverse w.left_over) in
    (
      subst₃ Merge (sym (ap reverse w.removed_eq)) (sym k) (reverse-reverse c.active)
          (Merge-reverse w.split),
      subst (All (HasTag tag)) (sym w.removed_eq) w.taken_all,
    )

-- A positive limit bounds the number of instances that Dispel takes.
pub dispel_limit :
    (tag : String) (n : ℕ) (c : BuffContainer) → 0 < n → length (dispel tag (pos n) c).1 ≤ n
unfolding dispel
dispel_limit tag n c h = length-dispel_loop tag n (reverse c.active) (unswept c) h (omega arith)

-- With no limit, or with fewer taken than the limit, no instance with the tag is left.
pub dispel_complete :
    (tag : String) (limit : ℤ) (c : BuffContainer)
    → (limit ≤ℤ pos 0) ⊎ (pos (length (dispel tag limit c).1) <ℤ limit)
    → All (LacksTag tag) (dispel tag limit c).0.active
unfolding dispel
dispel_complete tag limit c h =
    let w = dispel_loop-Walked tag limit (reverse c.active) (unswept c) in
    let k = w.kept_eq ∙ append-nil (reverse w.left_over) in
    subst (All (LacksTag tag)) (sym k)
      (All-reverse (LacksTag tag) w.left_over (w.left_all (not_full limit _ h)))
