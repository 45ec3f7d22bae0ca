-- ===== src/Skill/Scheduler/Refinement.antt =====
-- skill/scheduler.go: the scheduler and an abstract queue.
use roost_skill.Common.{
  ℕ, ◌+◌, ◌-◌, ◌%◌, ◌^◌, ◌<◌, ◌≤◌, if◌then◌else◌, not, ◌||◌, ◌==◌, List, [], ◌∷◌, Option, none,
  some, filter, ◌≡◌, ◌≢◌, refl, sym, ap, subst, ◌∙◌, arith, All, All-implies, All-append_last,
  Bool-cases, inl, inr, length, String,
}
use roost_skill.Common.Int.{ℤ, ltb_ℤ}
use roost_skill.Common.Maps.{Map}
use roost_skill.Skill.Tasks.{Payload, ScheduledTask, frame_id}
use roost_skill.Skill.Scheduler.{
  push, pop, pop_least, HeapPop, Runtime, Cast, Error, program_invariant, schedule, schedule_system,
  cancel_phase_tasks, cancel_tasks, is_of_phase, enqueue, drop_frame,
}
use roost_skill.Common.Reordering.{All-Reordered}
use roost_skill.Skill.Scheduler.Heap.{
  PopsLeast, AreDistinct, AreDistinct-append, AreDistinct-filter, AreDistinct-Reordered,
  popped-view,
}
use roost_skill.Skill.Scheduler.Order.{
  view, view-nil, insert_due, view-insert_due, filter-All, filter-view,
}

-- What the runtime asks of its scheduler.
pub data Operation : Type 0 where
  post : ℤ → Payload → Operation
  post_for : Cast → ℤ → Payload → Operation
  take : Operation
  cancel : Cast → ℕ → Operation

pub data Answer : Type 0 where
  done : Option Error → Answer
  taken : Option ScheduledTask → Answer

abbrev pub perform : HeapPop → Operation → Runtime → Answer × Runtime
perform heap_pop (post due payload) r = let x = schedule_system due payload r in (done x.0, x.1)
perform heap_pop (post_for cast due payload) r =
    let x = schedule cast due payload r in (done x.0, x.2)
perform heap_pop take r =
    let x = pop heap_pop r.scheduler in (taken x.0, record r { scheduler = x.1 })
perform heap_pop (cancel cast token) r = let x = cancel_phase_tasks cast token r in (done none, x.1)

unfoldable pub perform_all : HeapPop → List Operation → Runtime → List Answer
perform_all heap_pop [] r = []
perform_all heap_pop (o ∷ os) r = let x = perform heap_pop o r in x.0 ∷ perform_all heap_pop os x.1

-- The abstract queue: the tasks as they are due, and the last sequence given out.
pub record Queue : Type 0 where
  pub now : ℤ
  pub last : ℕ
  pub waiting : List ScheduledTask

abbrev add : ℤ → Payload → Queue → Queue
add due payload q = record q {
  last = q.last + 1;
  waiting =
      insert_due (record { due_tick = due; sequence = q.last + 1; payload = payload }) q.waiting;
}

abbrev head_of : List ScheduledTask → Option ScheduledTask
head_of [] = none
head_of (t ∷ ts) = some t

abbrev tail_of : List ScheduledTask → List ScheduledTask
tail_of [] = []
tail_of (t ∷ ts) = ts

abbrev pub serve : Operation → Queue → Answer × Queue
serve (post due payload) q =
    if ltb_ℤ due q.now then (done (some program_invariant), q) else (done none, add due payload q)
serve (post_for cast due payload) q =
    if frame_id payload == 0 || ltb_ℤ due q.now
    then (done (some program_invariant), q)
    else (done none, add due payload q)
serve take q = (taken (head_of q.waiting), record q { waiting = tail_of q.waiting })
serve (cancel cast token) q =
    (done none, record q { waiting = filter (λ t. not (is_of_phase cast.id token t)) q.waiting })

unfoldable pub serve_all : List Operation → Queue → List Answer
serve_all [] q = []
serve_all (o ∷ os) q = let x = serve o q in x.0 ∷ serve_all os x.1

abbrev pub abstraction : Runtime → Queue
abstraction r = record {
  now = r.current_tick;
  last = r.next_task_sequence;
  waiting = (let queue = r.scheduler in view queue.tasks);
}

-- Every task that waits has a sequence that was given out, and no two have the same.
abbrev pub Numbered : Runtime → Type 0
Numbered r =
    let queue = r.scheduler in
    All (λ (t : ScheduledTask). t.sequence ≤ r.next_task_sequence) queue.tasks
    × AreDistinct queue.tasks

pub cancel_tasks-filter :
    (id token : ℕ) (ts : List ScheduledTask) (pending : ℕ) (frames : Map (List String))
    → (cancel_tasks id token ts pending frames).2 ≡ filter (λ t. not (is_of_phase id token t)) ts
unfolding cancel_tasks
cancel_tasks-filter id token [] pending frames = refl
cancel_tasks-filter id token (t ∷ ts) pending frames = elim (Bool-cases (is_of_phase id token t)) [
  | inl e ↦ rw e (cancel_tasks-filter id token ts (pending - 1) (drop_frame t frames))
  | inr e ↦ rw e (ap (λ us. t ∷ us) (cancel_tasks-filter id token ts pending frames))
]

enqueue-abstraction :
    (due : ℤ) (payload : Payload) (r : Runtime)
    → r.next_task_sequence + 1 < 2 ^ 64
    → Numbered r
    → (abstraction (enqueue due payload r) ≡ add due payload (abstraction r))
      × Numbered (enqueue due payload r)
unfolding enqueue push
enqueue-abstraction due payload r room h =
    let queue = r.scheduler in
    let e : (r.next_task_sequence + 1) % 2 ^ 64 ≡ r.next_task_sequence + 1 = omega arith in
    rw e (
      ap (λ ts. record { now = r.current_tick; last = r.next_task_sequence + 1; waiting = ts })
          (view-insert_due
            (record { due_tick = due; sequence = r.next_task_sequence + 1; payload = payload })
            queue.tasks
            (All-implies (λ (t : ScheduledTask). t.sequence ≤ r.next_task_sequence)
              (λ (t : ScheduledTask). t.sequence < r.next_task_sequence + 1) queue.tasks
              (λ t le. omega arith) h.0)),
      (
        All-append_last (λ (t : ScheduledTask). t.sequence ≤ r.next_task_sequence + 1) queue.tasks
            (record { due_tick = due; sequence = r.next_task_sequence + 1; payload = payload })
            (All-implies (λ (t : ScheduledTask). t.sequence ≤ r.next_task_sequence)
              (λ (t : ScheduledTask). t.sequence ≤ r.next_task_sequence + 1) queue.tasks
              (λ t le. omega arith) h.0)
            (omega arith),
        AreDistinct-append queue.tasks
            (record { due_tick = due; sequence = r.next_task_sequence + 1; payload = payload })
            (All-implies (λ (t : ScheduledTask). t.sequence ≤ r.next_task_sequence)
              (λ (t : ScheduledTask). t.sequence ≢ r.next_task_sequence + 1) queue.tasks
              (λ t le eq. omega arith) h.0)
            h.1,
      ),
    )

-- One operation, on the runtime and on the abstract queue.
abbrev Agrees : Runtime → Answer × Runtime → Answer × Queue → Type 0
Agrees r x y =
    (x.0 ≡ y.0)
    × (abstraction x.1 ≡ y.1)
    × Numbered x.1
    × (x.1.next_task_sequence ≤ r.next_task_sequence + 1)

enqueue_next :
    (due : ℤ) (payload : Payload) (r : Runtime)
    → (enqueue due payload r).next_task_sequence ≤ r.next_task_sequence + 1
unfolding enqueue
enqueue_next due payload r = omega arith

unchanged : (r : Runtime) (a : Answer) → Numbered r → Agrees r (a, r) (a, abstraction r)
unchanged r a h = (refl, refl, h, omega arith)

queued :
    (due : ℤ) (payload : Payload) (r : Runtime) (a : Answer)
    → r.next_task_sequence + 1 < 2 ^ 64
    → Numbered r
    → Agrees r (a, enqueue due payload r) (a, add due payload (abstraction r))
queued due payload r a room h =
    let e = enqueue-abstraction due payload r room h in (refl, e.0, e.1, enqueue_next due payload r)

module _ (heap_pop : HeapPop) where
  pop_least-view :
      (ts : List ScheduledTask)
      → PopsLeast heap_pop
      → AreDistinct ts
      → ((pop_least heap_pop ts).0 ≡ head_of (view ts))
        × (view ((pop_least heap_pop ts).1).tasks ≡ tail_of (view ts))
  unfolding pop_least
  pop_least-view [] least d = rw view-nil (refl, refl)
  pop_least-view (t ∷ ts) least d = rw (popped-view heap_pop t ts least d) (refl, refl)

  pop_least-kept :
      (n : ℕ) (ts : List ScheduledTask)
      → PopsLeast heap_pop
      → All (λ (t : ScheduledTask). t.sequence ≤ n) ts
      → AreDistinct ts
      → All (λ (t : ScheduledTask). t.sequence ≤ n) ((pop_least heap_pop ts).1).tasks
        × AreDistinct ((pop_least heap_pop ts).1).tasks
  unfolding pop_least
  pop_least-kept n [] least h d = (tt, tt)
  pop_least-kept n (t ∷ ts) least h d = (
    (All-Reordered (λ (t : ScheduledTask). t.sequence ≤ n) (least.kept t ts) h).1,
    (AreDistinct-Reordered (least.kept t ts) d).1,
  )

  popped :
      (r : Runtime)
      → PopsLeast heap_pop
      → Numbered r
      → Agrees r (perform heap_pop take r) (serve take (abstraction r))
  unfolding pop
  popped r least h =
      let queue = r.scheduler in
      let p = pop_least-view queue.tasks least h.1 in
      (
        ap taken p.0,
        ap (λ ts. record { now = r.current_tick; last = r.next_task_sequence; waiting = ts }) p.1,
        pop_least-kept r.next_task_sequence queue.tasks least h.0 h.1,
        omega arith,
      )

  perform-serve :
      (o : Operation) (r : Runtime)
      → PopsLeast heap_pop
      → r.next_task_sequence + 1 < 2 ^ 64
      → Numbered r
      → Agrees r (perform heap_pop o r) (serve o (abstraction r))
  unfolding schedule schedule_system cancel_phase_tasks
  perform-serve (post due payload) r least room h = elim (Bool-cases (ltb_ℤ due r.current_tick)) [
    | inl late ↦ rw late (unchanged r (done (some program_invariant)) h)
    | inr due_later ↦ rw due_later (queued due payload r (done none) room h)
  ]
  perform-serve (post_for cast due payload) r least room h =
      elim (Bool-cases (frame_id payload == 0 || ltb_ℤ due r.current_tick)) [
        | inl late ↦ rw late (unchanged r (done (some program_invariant)) h)
        | inr due_later ↦ rw due_later (queued due payload r (done none) room h)
      ]
  perform-serve take r least room h = popped r least h
  perform-serve (cancel cast token) r least room h =
      let queue = r.scheduler in
      let kept = cancel_tasks-filter cast.id token queue.tasks cast.pending_tasks r.frames in
      (
        refl,
        ap (λ ts. record { now = r.current_tick; last = r.next_task_sequence; waiting = ts })
            (ap view kept ∙ filter-view (λ t. not (is_of_phase cast.id token t)) queue.tasks),
        (
          subst (All (λ (t : ScheduledTask). t.sequence ≤ r.next_task_sequence)) (sym kept) (
              filter-All (λ (t : ScheduledTask). t.sequence ≤ r.next_task_sequence)
                (λ t. not (is_of_phase cast.id token t)) queue.tasks h.0),
          subst AreDistinct (sym kept)
              (AreDistinct-filter (λ t. not (is_of_phase cast.id token t)) queue.tasks h.1),
        ),
        omega arith,
      )

-- However the runtime schedules, takes and cancels, and in whatever order the heap keeps its tasks,
-- as long as its Pop removes one that no other precedes by Less, it is answered as by a queue in which
-- a new task goes behind those that are not due after it, and of which a take gives the first task: by
-- due tick and, within a tick, by the order of scheduling. The sequences do not run out.
pub perform_all-serve_all :
    (heap_pop : HeapPop) (os : List Operation) (r : Runtime)
    → PopsLeast heap_pop
    → r.next_task_sequence + length os < 2 ^ 64
    → Numbered r
    → perform_all heap_pop os r ≡ serve_all os (abstraction r)
unfolding perform_all serve_all
perform_all-serve_all heap_pop [] r least room h = refl
perform_all-serve_all heap_pop (o ∷ os) r least room h =
    let s = perform-serve heap_pop o r least (omega arith) h in
    joined (s.0) (
      perform_all-serve_all heap_pop os (perform heap_pop o r).1 least (omega (arith, s.3)) s.2
      ∙ ap (serve_all os) s.1)
  where
    joined : {x y : Answer} {xs ys : List Answer} → x ≡ y → xs ≡ ys → (x ∷ xs) ≡ (y ∷ ys)
    joined e f = cc
