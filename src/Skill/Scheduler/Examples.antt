-- ===== src/Skill/Scheduler/Examples.antt =====
-- Tests of the scheduler, and its theorems at concrete queues.
use roost_skill.Common.{
  ℕ, List, [], ◌∷◌, Option, none, some, ◌≡◌, refl, arith, any, if◌then◌else◌, insert_sorted,
  sort_by,
}
use roost_skill.Common.Int.{ℤ, pos}
use roost_skill.Common.Maps.{lookup}
use roost_skill.Skill.Tasks.{
  Payload, cast_commit, external_event, frame_id, scheduled_task_identity,
}
use roost_skill.Skill.Scheduler.{
  Runtime, Cast, running, new_scheduler, schedule, cancel_phase_tasks, retain_local_frame, pop,
  task_less, is_of_phase, Error, schedule_system,
}
use roost_skill.Skill.Scheduler.SortedHeap.{sorted_pop, sorted_pop-PopsLeast}
use roost_skill.Skill.Scheduler.Refinement.{
  Operation, post, post_for, take, cancel, Answer, done, taken, perform_all, serve_all, abstraction,
  perform_all-serve_all,
}
use roost_skill.Skill.Scheduler.Pending.{
  PendingIsRight, schedule-PendingIsRight, cancel_phase_tasks-PendingIsRight, count_tasks,
  drops_frame,
}

abbrev cast : Cast
cast = record { id = 4; pending_tasks = 0; status = running }

abbrev idle : Runtime
idle = record {
  current_tick = pos 10;
  next_task_sequence = 0;
  next_frame_id = 0;
  frames = [];
  scheduler = new_scheduler;
}

abbrev commit_task : Payload
commit_task = cast_commit 4 1 1

abbrev operations : List Operation
operations =
    post (pos 30) (external_event "late")
    ∷ post_for cast (pos 20) commit_task
    ∷ post (pos 20) (external_event "next")
    ∷ take
    ∷ take
    ∷ cancel cast 1
    ∷ take
    ∷ take
    ∷ []

abbrev task : ℤ → ℕ → Payload → Answer
task due sequence payload =
    taken (some (record { due_tick = due; sequence = sequence; payload = payload }))

in_order :
    perform_all sorted_pop operations idle
    ≡ done none
      ∷ done none
      ∷ done none
      ∷ task (pos 20) 2 commit_task
      ∷ task (pos 20) 3 (external_event "next")
      ∷ done none
      ∷ task (pos 30) 1 (external_event "late")
      ∷ taken none
      ∷ []
unfolding perform_all schedule_system schedule pop frame_id cancel_phase_tasks sorted_pop
    insert_sorted sort_by task_less is_of_phase scheduled_task_identity
in_order = refl

perform_all-serve_all_example :
    perform_all sorted_pop operations idle ≡ serve_all operations (abstraction idle)
perform_all-serve_all_example =
    perform_all-serve_all sorted_pop operations idle sorted_pop-PopsLeast (omega arith) (tt, tt)

abbrev with_frame : Runtime
with_frame = (retain_local_frame ("x" ∷ []) idle).1

abbrev scheduled : Option Error × Cast × Runtime
scheduled = schedule cast (pos 20) commit_task with_frame

own : (scheduled_task_identity commit_task).0 ≡ cast.id
unfolding scheduled_task_identity
own = refl

none_yet : PendingIsRight cast with_frame
unfolding retain_local_frame count_tasks
none_yet = refl

schedule-PendingIsRight_example : PendingIsRight scheduled.1 scheduled.2
schedule-PendingIsRight_example =
    schedule-PendingIsRight cast (pos 20) commit_task with_frame own none_yet

cancel_phase_tasks-PendingIsRight_example :
    (let x = cancel_phase_tasks scheduled.1 1 scheduled.2 in
      let before = scheduled.2.scheduler in
      let after = x.1.scheduler in
      PendingIsRight x.0 x.1
      × (count_tasks (is_of_phase scheduled.1.id 1) after.tasks ≡ 0)
      × ((f : ℕ)
          → lookup f x.1.frames ≡ (
              if any (drops_frame scheduled.1.id 1 f) before.tasks
              then none
              else lookup f scheduled.2.frames)))
cancel_phase_tasks-PendingIsRight_example =
    cancel_phase_tasks-PendingIsRight scheduled.1 1 scheduled.2
      (schedule-PendingIsRight cast (pos 20) commit_task with_frame own none_yet)
