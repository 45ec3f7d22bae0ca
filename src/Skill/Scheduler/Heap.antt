-- ===== src/Skill/Scheduler/Heap.antt =====
-- skill/scheduler.go: what container/heap promises of the tasks by their Less, and the queue that it
-- makes of them.
use roost_skill.Common.{
  Bool, false, List, [], ◌∷◌, ◌++◌, filter, ◌≡◌, ◌≢◌, refl, sym, ap, ◌∙◌, if_cases, All,
  All-append_last, sort_by,
}
use roost_skill.Common.Reordering.{Reordered, none_left, keep, exchange, in_turn, All-Reordered}
use roost_skill.Skill.Tasks.{ScheduledTask}
use roost_skill.Skill.Scheduler.{task_less, HeapPop}
use roost_skill.Skill.Scheduler.Order.{
  view, insert_task, insert_comm, insert_front, view-All, NotBefore, filter-All,
}

-- The contract of Pop: it removes one of the tasks, which no other precedes by Less.
pub record PopsLeast (heap_pop : HeapPop) : Type 0 where
  pub kept :
      (t : ScheduledTask) (ts : List ScheduledTask)
      → Reordered (t ∷ ts) ((heap_pop t ts).0 ∷ (heap_pop t ts).1)
  pub least :
      (t : ScheduledTask) (ts : List ScheduledTask)
      → All (λ u. task_less u (heap_pop t ts).0 ≡ false) (heap_pop t ts).1

-- No two tasks have the same sequence.
abbrev pub AreDistinct : List ScheduledTask → Type 0
AreDistinct [] = Unit
AreDistinct (t ∷ ts) = All (λ (u : ScheduledTask). u.sequence ≢ t.sequence) ts × AreDistinct ts

pub AreDistinct-Reordered :
    {ts us : List ScheduledTask} → Reordered ts us → AreDistinct ts → AreDistinct us
AreDistinct-Reordered none_left d = d
AreDistinct-Reordered (keep a r) d = (
  All-Reordered (λ (u : ScheduledTask). u.sequence ≢ a.sequence) r d.0,
  AreDistinct-Reordered r d.1,
)
AreDistinct-Reordered (exchange a b ts) d = (((λ e. d.0.0 (sym e)), d.1.0), (d.0.1, d.1.1))
AreDistinct-Reordered (in_turn r s) d = AreDistinct-Reordered s (AreDistinct-Reordered r d)

pub AreDistinct-filter :
    (p : ScheduledTask → Bool) (ts : List ScheduledTask)
    → AreDistinct ts
    → AreDistinct (filter p ts)
AreDistinct-filter p [] d = tt
AreDistinct-filter p (t ∷ ts) d =
    if_cases AreDistinct (p t)
      (λ _. (
        filter-All (λ (u : ScheduledTask). u.sequence ≢ t.sequence) p ts d.0,
        AreDistinct-filter p ts d.1,
      ))
      (λ _. AreDistinct-filter p ts d.1)

pub AreDistinct-append :
    (ts : List ScheduledTask) (t : ScheduledTask)
    → All (λ (u : ScheduledTask). u.sequence ≢ t.sequence) ts
    → AreDistinct ts
    → AreDistinct (ts ++ t ∷ [])
AreDistinct-append [] t h d = (tt, tt)
AreDistinct-append (u ∷ us) t h d = (
  All-append_last (λ (x : ScheduledTask). x.sequence ≢ u.sequence) us t d.0 (λ e. h.0 (sym e)),
  AreDistinct-append us t h.1 d.1,
)

-- The view of tasks with distinct sequences does not depend on the order that the heap keeps.
view-Reordered : {ts us : List ScheduledTask} → Reordered ts us → AreDistinct ts → view ts ≡ view us
unfolding view sort_by
view-Reordered none_left d = refl
view-Reordered (keep a r) d = ap (insert_task a) (view-Reordered r d.1)
view-Reordered (exchange a b ts) d = insert_comm a b (view ts) (λ e. d.0.0 (sym e))
view-Reordered (in_turn r s) d = view-Reordered r d ∙ view-Reordered s (AreDistinct-Reordered r d)

-- Pop takes the first of the view.
pub popped-view :
    (heap_pop : HeapPop) (t : ScheduledTask) (ts : List ScheduledTask)
    → PopsLeast heap_pop
    → AreDistinct (t ∷ ts)
    → view (t ∷ ts) ≡ (heap_pop t ts).0 ∷ view (heap_pop t ts).1
unfolding view sort_by NotBefore
popped-view heap_pop t ts h d =
    view-Reordered (h.kept t ts) d
    ∙ insert_front (heap_pop t ts).0 (view (heap_pop t ts).1)
        (view-All (λ u. task_less u (heap_pop t ts).0 ≡ false) (heap_pop t ts).1 (h.least t ts))
