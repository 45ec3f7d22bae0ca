-- ===== src/Skill/Scheduler/SortedHeap.antt =====
-- A heap that keeps its tasks sorted: a Pop for tests.
use roost_skill.Common.{
  false, List, [], ◌∷◌, ◌≡◌, refl, sym, subst, if_cases, All, insert_sorted, sort_by,
}
use roost_skill.Common.Reordering.{Reordered, none_left, keep, exchange, in_turn, Reordered-refl}
use roost_skill.Skill.Tasks.{ScheduledTask}
use roost_skill.Skill.Scheduler.{task_less, HeapPop}
use roost_skill.Skill.Scheduler.Order.{view, insert_task, view-Sorted, Sorted}
use roost_skill.Skill.Scheduler.Heap.{PopsLeast}

abbrev pub first_of : ScheduledTask → List ScheduledTask → ScheduledTask × List ScheduledTask
first_of t [] = (t, [])
first_of t (x ∷ xs) = (x, xs)

unfoldable pub sorted_pop : HeapPop
unfolding view
sorted_pop t ts = first_of t (insert_task t (view ts))

insert_task-Reordered :
    (t : ScheduledTask) (ts : List ScheduledTask) → Reordered (t ∷ ts) (insert_task t ts)
unfolding insert_sorted
insert_task-Reordered t [] = Reordered-refl (t ∷ [])
insert_task-Reordered t (x ∷ xs) =
    if_cases (Reordered (t ∷ x ∷ xs)) (task_less x t)
      (λ _. in_turn (exchange t x xs) (keep x (insert_task-Reordered t xs)))
      (λ _. Reordered-refl (t ∷ x ∷ xs))

view-Reordered_from : (ts : List ScheduledTask) → Reordered ts (view ts)
unfolding view sort_by
view-Reordered_from [] = none_left
view-Reordered_from (t ∷ ts) =
    in_turn (keep t (view-Reordered_from ts)) (insert_task-Reordered t (view ts))

rejoined :
    (t : ScheduledTask) (ts : List ScheduledTask)
    → (let r = first_of t (insert_task t ts) in (r.0 ∷ r.1) ≡ insert_task t ts)
unfolding insert_sorted
rejoined t [] = refl
rejoined t (x ∷ xs) =
    if_cases (λ (l : List ScheduledTask). (let r = first_of t l in (r.0 ∷ r.1) ≡ l)) (task_less x t)
      (λ _. refl) (λ _. refl)

least_first :
    (t : ScheduledTask) (l : List ScheduledTask)
    → Sorted l
    → (let r = first_of t l in All (λ u. task_less u r.0 ≡ false) r.1)
least_first t [] s = tt
least_first t (x ∷ xs) s = s.0

pub sorted_pop-PopsLeast : PopsLeast sorted_pop
unfolding sorted_pop view sort_by
sorted_pop-PopsLeast = record {
  kept = λ t ts.
      subst (Reordered (t ∷ ts)) (sym (rejoined t (view ts))) (view-Reordered_from (t ∷ ts));
  least = λ t ts. least_first t (insert_task t (view ts)) (view-Sorted (t ∷ ts));
}
