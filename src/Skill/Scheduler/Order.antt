-- ===== src/Skill/Scheduler/Order.antt =====
-- skill/scheduler.go: the queue seen as the tasks sorted by due tick and sequence.
use roost_skill.Common.{
  Bool, true, false, if◌then◌else◌, not, List, [], ◌∷◌, ◌++◌, filter, ◌≡◌, ◌≢◌, refl, ap, ◌∙◌,
  arith, if_cases, Bool-cases, inl, inr, All, All-implies, insert_sorted, sort_by, All-sort_by, ◌<◌,
}
use roost_skill.Common.Int.{ltb_ℤ}
use roost_skill.Skill.Tasks.{ScheduledTask}
use roost_skill.Skill.Scheduler.{task_less}

abbrev pub insert_task : ScheduledTask → List ScheduledTask → List ScheduledTask
insert_task = insert_sorted task_less

-- The tasks in the order in which they are due.
unfoldable pub view : List ScheduledTask → List ScheduledTask
view = sort_by task_less

pub view-nil : view [] ≡ []
unfolding view sort_by
view-nil = refl

less_total : (t u : ScheduledTask) → t.sequence ≢ u.sequence → task_less t u ≡ not (task_less u t)
unfolding task_less
less_total t u h = ground arith

less_trans :
    (t u x : ScheduledTask) → task_less t u ≡ true → task_less u x ≡ true → task_less t x ≡ true
unfolding task_less
less_trans t u x h k = ground arith

-- Tasks of different sequences may be inserted in either order.
pub insert_comm :
    (t u : ScheduledTask) (ts : List ScheduledTask)
    → t.sequence ≢ u.sequence
    → insert_task t (insert_task u ts) ≡ insert_task u (insert_task t ts)
unfolding insert_sorted
insert_comm t u [] h = ground (arith, less_total t u h)
insert_comm t u (x ∷ xs) h =
    ground (arith, insert_comm t u xs h, less_total t u h, less_trans x t u, less_trans x u t)

-- Push is insertion, for a task whose sequence is new.
view-append :
    (t : ScheduledTask) (ts : List ScheduledTask)
    → All (λ (u : ScheduledTask). u.sequence ≢ t.sequence) ts
    → view (ts ++ t ∷ []) ≡ insert_task t (view ts)
unfolding view sort_by
view-append t [] h = refl
view-append t (u ∷ us) h =
    ap (insert_task u) (view-append t us h.1) ∙ insert_comm u t (sort_by task_less us) h.0

-- In a sorted list no task precedes an earlier one.
abbrev pub Sorted : List ScheduledTask → Type 0
Sorted [] = Unit
Sorted (t ∷ ts) = All (λ u. task_less u t ≡ false) ts × Sorted ts

not_less_trans :
    (t u x : ScheduledTask) → task_less u t ≡ false → task_less x u ≡ false → task_less x t ≡ false
unfolding task_less
not_less_trans t u x h k = ground arith

less_asym : (t u : ScheduledTask) → task_less t u ≡ true → task_less u t ≡ false
unfolding task_less
less_asym t u h = ground arith

unfoldable pub NotBefore : ScheduledTask → List ScheduledTask → Type 0
NotBefore t = All (λ u. task_less u t ≡ false)

pub insert-All :
    (P : ScheduledTask → Type 0) (t : ScheduledTask) (ts : List ScheduledTask)
    → P t
    → All P ts
    → All P (insert_task t ts)
unfolding insert_sorted
insert-All P t [] h k = (h, tt)
insert-All P t (x ∷ xs) h k =
    if_cases (All P) (task_less x t) (λ _. (k.0, insert-All P t xs h k.1)) (λ _. (h, k))

NotBefore-trans :
    (t x : ScheduledTask) (xs : List ScheduledTask)
    → task_less x t ≡ false
    → NotBefore x xs
    → NotBefore t xs
unfolding NotBefore
NotBefore-trans t x [] h k = tt
NotBefore-trans t x (y ∷ ys) h k = (not_less_trans t x y h k.0, NotBefore-trans t x ys h k.1)

insert-Sorted :
    (t : ScheduledTask) (ts : List ScheduledTask) → Sorted ts → Sorted (insert_task t ts)
unfolding insert_sorted NotBefore
insert-Sorted t [] s = (tt, tt)
insert-Sorted t (x ∷ xs) s =
    if_cases Sorted (task_less x t)
      (λ e. (
        insert-All (λ u. task_less u x ≡ false) t xs (less_asym x t e) s.0,
        insert-Sorted t xs s.1,
      ))
      (λ e. ((e, NotBefore-trans t x xs e s.0), s))

pub view-Sorted : (ts : List ScheduledTask) → Sorted (view ts)
unfolding view sort_by
view-Sorted [] = tt
view-Sorted (t ∷ ts) = insert-Sorted t (view ts) (view-Sorted ts)

pub insert_front :
    (t : ScheduledTask) (ts : List ScheduledTask) → NotBefore t ts → insert_task t ts ≡ t ∷ ts
unfolding insert_sorted NotBefore
insert_front t [] h = refl
insert_front t (x ∷ xs) h = rw (h.0) refl

pub filter-All :
    (P : ScheduledTask → Type 0) (p : ScheduledTask → Bool) (ts : List ScheduledTask)
    → All P ts
    → All P (filter p ts)
filter-All P p [] h = tt
filter-All P p (t ∷ ts) h =
    if_cases (All P) (p t) (λ _. (h.0, filter-All P p ts h.1)) (λ _. filter-All P p ts h.1)

filter-insert :
    (p : ScheduledTask → Bool) (t : ScheduledTask) (ts : List ScheduledTask)
    → Sorted ts
    → filter p (insert_task t ts) ≡ (if p t then insert_task t (filter p ts) else filter p ts)
unfolding insert_sorted NotBefore
filter-insert p t [] s = refl
filter-insert p t (x ∷ xs) s = elim (Bool-cases (task_less x t)) [
  | inl less ↦ rw less (ground (arith, filter-insert p t xs s.1))
  | inr more ↦ rw more (
      ground (
        arith,
        insert_front t (filter p (x ∷ xs)) (
            filter-All (λ u. task_less u t ≡ false) p (x ∷ xs)
              (more, NotBefore-trans t x xs more s.0)),
      ))
]

pub filter-view :
    (p : ScheduledTask → Bool) (ts : List ScheduledTask) → view (filter p ts) ≡ filter p (view ts)
unfolding view sort_by
filter-view p [] = refl
filter-view p (t ∷ ts) =
    rw (filter-insert p t (sort_by task_less ts) (view-Sorted ts))
      (ground (arith, filter-view p ts))

-- A task goes behind those that are not due after it.
unfoldable pub insert_due : ScheduledTask → List ScheduledTask → List ScheduledTask
insert_due t [] = t ∷ []
insert_due t (x ∷ xs) = if ltb_ℤ t.due_tick x.due_tick then t ∷ x ∷ xs else x ∷ insert_due t xs

newest_less :
    (t x : ScheduledTask)
    → x.sequence < t.sequence
    → task_less x t ≡ not (ltb_ℤ t.due_tick x.due_tick)
unfolding task_less
newest_less t x h = ground arith

-- What was scheduled last goes there.
insert_task-insert_due :
    (t : ScheduledTask) (ts : List ScheduledTask)
    → All (λ (u : ScheduledTask). u.sequence < t.sequence) ts
    → insert_task t ts ≡ insert_due t ts
unfolding insert_sorted insert_due
insert_task-insert_due t [] h = refl
insert_task-insert_due t (x ∷ xs) h =
    ground (arith, newest_less t x h.0, insert_task-insert_due t xs h.1)

pub view-All : (P : ScheduledTask → Type 0) (ts : List ScheduledTask) → All P ts → All P (view ts)
unfolding view
view-All P ts h = All-sort_by task_less P ts h

-- So does the view of a queue that a new task has been pushed to.
pub view-insert_due :
    (t : ScheduledTask) (ts : List ScheduledTask)
    → All (λ (u : ScheduledTask). u.sequence < t.sequence) ts
    → view (ts ++ t ∷ []) ≡ insert_due t (view ts)
view-insert_due t ts h =
    view-append t ts (
      All-implies (λ (u : ScheduledTask). u.sequence < t.sequence)
        (λ (u : ScheduledTask). u.sequence ≢ t.sequence) ts (λ u le eq. omega arith) h)
    ∙ insert_task-insert_due t (view ts)
        (view-All (λ (u : ScheduledTask). u.sequence < t.sequence) ts h)
