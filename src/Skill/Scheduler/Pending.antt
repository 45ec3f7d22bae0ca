-- ===== src/Skill/Scheduler/Pending.antt =====
-- skill/scheduler.go: the count of the pending tasks of a cast.
use roost_skill.Common.{
  ℕ, ◌+◌, ◌-◌, ◌≤◌, Bool, true, if◌then◌else◌, not, ◌&&◌, ◌||◌, ◌==◌, List, [], ◌∷◌, ◌++◌, Option,
  none, filter, ◌≡◌, refl, sym, ap, ◌∙◌, arith, if_cases, ==_iff, any, Bool-cases, inl, inr, String,
}
use roost_skill.Common.Int.{ℤ, ltb_ℤ}
use roost_skill.Common.Maps.{Map, lookup, lookup-erase}
use roost_skill.Skill.Tasks.{Payload, ScheduledTask, frame_id, scheduled_task_identity}
use roost_skill.Skill.Scheduler.Refinement.{cancel_tasks-filter}
use roost_skill.Skill.Scheduler.{
  Runtime, Cast, Error, schedule, cancel_phase_tasks, cancel_tasks, is_of_phase, enqueue,
  drop_frame, push,
}

-- How many tasks pass a test.
unfoldable pub count_tasks : (ScheduledTask → Bool) → List ScheduledTask → ℕ
count_tasks p [] = 0
count_tasks p (t ∷ ts) = if p t then 1 + count_tasks p ts else count_tasks p ts

abbrev pub is_of_cast : ℕ → ScheduledTask → Bool
is_of_cast id t = let identity = scheduled_task_identity t.payload in identity.0 == id

-- The cast's count is that of its tasks in the queue.
abbrev pub PendingIsRight : Cast → Runtime → Type 0
PendingIsRight cast r =
    let queue = r.scheduler in cast.pending_tasks ≡ count_tasks (is_of_cast cast.id) queue.tasks

-- The loop takes one from the count for each task that it drops.
cancel_tasks-pending :
    (id token : ℕ) (ts : List ScheduledTask) (pending : ℕ) (frames : Map (List String))
    → count_tasks (is_of_phase id token) ts ≤ pending
    → (cancel_tasks id token ts pending frames).0 + count_tasks (is_of_phase id token) ts ≡ pending
unfolding cancel_tasks count_tasks
cancel_tasks-pending id token [] pending frames h = omega arith
cancel_tasks-pending id token (t ∷ ts) pending frames h =
    elim (Bool-cases (is_of_phase id token t)) [
      | inl e ↦
          let ih = cancel_tasks-pending id token ts (pending - 1) (drop_frame t frames) in
          rw e (let k = rw e at h in omega (arith, ih (omega arith)))
      | inr e ↦ rw e (let k = rw e at h in cancel_tasks-pending id token ts pending frames k)
    ]

count_tasks-last :
    (p : ScheduledTask → Bool) (ts : List ScheduledTask) (t : ScheduledTask)
    → p t ≡ true
    → count_tasks p (ts ++ t ∷ []) ≡ count_tasks p ts + 1
unfolding count_tasks
count_tasks-last p [] t e = rw e refl
count_tasks-last p (u ∷ us) t e = ground (arith, count_tasks-last p us t e)

-- Without the tasks of a test, those of a weaker one are fewer by their number.
count_tasks-filter :
    (p q : ScheduledTask → Bool) (ts : List ScheduledTask)
    → ((t : ScheduledTask) → q t ≡ true → p t ≡ true)
    → count_tasks p ts ≡ count_tasks p (filter (λ t. not (q t)) ts) + count_tasks q ts
unfolding count_tasks
count_tasks-filter p q [] h = refl
count_tasks-filter p q (t ∷ ts) h = ground (arith, count_tasks-filter p q ts h, h t)

count_tasks-none_left :
    (q : ScheduledTask → Bool) (ts : List ScheduledTask)
    → count_tasks q (filter (λ t. not (q t)) ts) ≡ 0
unfolding count_tasks
count_tasks-none_left q [] = refl
count_tasks-none_left q (t ∷ ts) = ground (arith, count_tasks-none_left q ts)

is_of_phase-cast :
    (id token : ℕ) (t : ScheduledTask) → is_of_phase id token t ≡ true → is_of_cast id t ≡ true
unfolding is_of_phase
is_of_phase-cast id token t h = ground arith

cancel_phase_tasks-pending :
    (cast : Cast) (token : ℕ) (r : Runtime)
    → PendingIsRight cast r
    → PendingIsRight (cancel_phase_tasks cast token r).0 (cancel_phase_tasks cast token r).1
unfolding cancel_phase_tasks
cancel_phase_tasks-pending cast token r h =
    let queue = r.scheduler in
    let kept = cancel_tasks-filter cast.id token queue.tasks cast.pending_tasks r.frames in
    let fewer =
      count_tasks-filter (is_of_cast cast.id) (is_of_phase cast.id token) queue.tasks
        (λ t e. is_of_phase-cast cast.id token t e) in
    let less =
      cancel_tasks-pending cast.id token queue.tasks cast.pending_tasks r.frames
        (omega (arith, fewer, h)) in
    rw kept (omega (arith, fewer, h, less))

-- Scheduling a task of the cast, or being refused, leaves the cast's count of pending tasks that of
-- its tasks in the queue.
pub schedule-PendingIsRight :
    (cast : Cast) (due : ℤ) (payload : Payload) (r : Runtime)
    → (scheduled_task_identity payload).0 ≡ cast.id
    → PendingIsRight cast r
    → (let x = schedule cast due payload r in PendingIsRight x.1 x.2)
unfolding schedule enqueue push
schedule-PendingIsRight cast due payload r own h =
    if_cases (λ (x : Option Error × Cast × Runtime). PendingIsRight x.1 x.2)
      (frame_id payload == 0 || ltb_ℤ due r.current_tick) (λ _. h)
      λ _.
        let queue = r.scheduler in
        ap (λ n. n + 1) h
        ∙ sym (count_tasks-last (is_of_cast cast.id) queue.tasks _ ((==_iff _ cast.id).1 own))

-- A dropped task with a frame.
abbrev pub drops_frame : ℕ → ℕ → ℕ → ScheduledTask → Bool
drops_frame id token f t =
    is_of_phase id token t && frame_id t.payload == f && not (frame_id t.payload == 0)

lookup-drop_frame :
    (f : ℕ) (t : ScheduledTask) (frames : Map (List String))
    → lookup f (drop_frame t frames)
      ≡ (if frame_id t.payload == f && not (frame_id t.payload == 0) then none else lookup f frames)
lookup-drop_frame f t frames = ground (arith, lookup-erase f (frame_id t.payload) frames)

lookup-cancel_tasks :
    (id token f : ℕ) (ts : List ScheduledTask) (pending : ℕ) (frames : Map (List String))
    → lookup f (cancel_tasks id token ts pending frames).1
      ≡ (if any (drops_frame id token f) ts then none else lookup f frames)
unfolding cancel_tasks
lookup-cancel_tasks id token f [] pending frames = refl
lookup-cancel_tasks id token f (t ∷ ts) pending frames =
    elim (Bool-cases (is_of_phase id token t)) [
      | inl e ↦ rw e (
          ground (
            arith,
            lookup-drop_frame f t frames,
            lookup-cancel_tasks id token f ts (pending - 1) (drop_frame t frames),
          ))
      | inr e ↦ rw e (lookup-cancel_tasks id token f ts pending frames)
    ]

-- Cancelling a phase leaves none of its tasks in the queue and drops their frames, no other frame,
-- from the runtime; the cast's count of pending tasks stays that of its tasks in the queue.
pub cancel_phase_tasks-PendingIsRight :
    (cast : Cast) (token : ℕ) (r : Runtime)
    → PendingIsRight cast r
    → (let x = cancel_phase_tasks cast token r in
        let before = r.scheduler in
        let after = x.1.scheduler in
        PendingIsRight x.0 x.1
        × (count_tasks (is_of_phase cast.id token) after.tasks ≡ 0)
        × ((f : ℕ)
            → lookup f x.1.frames ≡ (
                if any (drops_frame cast.id token f) before.tasks
                then none
                else lookup f r.frames)))
unfolding cancel_phase_tasks
cancel_phase_tasks-PendingIsRight cast token r h =
    let queue = r.scheduler in
    (
      cancel_phase_tasks-pending cast token r h,
      ap (count_tasks (is_of_phase cast.id token))
            (cancel_tasks-filter cast.id token queue.tasks cast.pending_tasks r.frames)
          ∙ count_tasks-none_left (is_of_phase cast.id token) queue.tasks,
      λ f. lookup-cancel_tasks cast.id token f queue.tasks cast.pending_tasks r.frames,
    )
