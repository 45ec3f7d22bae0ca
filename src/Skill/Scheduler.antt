-- ===== src/Skill/Scheduler.antt =====
-- skill/scheduler.go: the queue of scheduled tasks, and the runtime's operations on it.
-- container/heap is a parameter: Push adds a task, Pop removes one, in whatever order it keeps them,
-- and Init keeps them.
pub mod Order
pub mod Heap
pub mod SortedHeap
pub mod Refinement
pub mod Pending
mod Examples
use roost_skill.Common.{
  ℕ, ◌+◌, ◌-◌, ◌%◌, ◌^◌, Bool, true, false, if◌then◌else◌, not, ◌&&◌, ◌||◌, ◌==◌, ltb, List, [],
  ◌∷◌, ◌++◌, Option, none, some, filter, String,
}
use roost_skill.Common.Int.{ℤ, eqb_ℤ, ltb_ℤ}
use roost_skill.Common.Maps.{Map, lookup, insert, erase}
use roost_skill.Skill.Tasks.{Payload, ScheduledTask, frame_id, scheduled_task_identity}

-- Less of taskHeap.
unfoldable pub task_less : ScheduledTask → ScheduledTask → Bool
task_less t u =
    if not (eqb_ℤ t.due_tick u.due_tick)
    then ltb_ℤ t.due_tick u.due_tick
    else ltb t.sequence u.sequence

-- The tasks of the heap, in any order.
pub record Scheduler : Type 0 where
  pub tasks : List ScheduledTask

abbrev pub new_scheduler : Scheduler
new_scheduler = record { tasks = [] }

unfoldable pub push : ScheduledTask → Scheduler → Scheduler
push t s = record { tasks = s.tasks ++ t ∷ [] }

-- The Pop of container/heap on tasks of which there is one: the task that it removes, and those that
-- it leaves.
abbrev pub HeapPop : Type 0
HeapPop = ScheduledTask → List ScheduledTask → ScheduledTask × List ScheduledTask

unfoldable pub pop_least : HeapPop → List ScheduledTask → Option ScheduledTask × Scheduler
pop_least heap_pop [] = (none, record { tasks = [] })
pop_least heap_pop (t ∷ ts) = let r = heap_pop t ts in (some r.0, record { tasks = r.1 })

-- Pop of an empty queue is the zero task, here none.
unfoldable pub pop : HeapPop → Scheduler → Option ScheduledTask × Scheduler
unfolding pop_least
pop heap_pop s = pop_least heap_pop s.tasks

-- The first task of a heap is the one that Pop would remove.
unfoldable pub peek : HeapPop → Scheduler → Option ScheduledTask
unfolding pop
peek heap_pop s = (pop heap_pop s).0

pub data CastStatus : Type 0 where
  running suspended finished failed : CastStatus

-- Of a cast instance, the fields that the scheduler reads or writes.
pub record Cast : Type 0 where
  pub id : ℕ
  pub pending_tasks : ℕ
  pub status : CastStatus

-- Of the runtime, the fields that the scheduler reads or writes; the values of a frame are texts.
pub record Runtime : Type 0 where
  pub current_tick : ℤ
  pub next_task_sequence : ℕ
  pub next_frame_id : ℕ
  pub frames : Map (List String)
  pub scheduler : Scheduler

pub data Error : Type 0 where
  program_invariant : Error

abbrev next_uint64 : ℕ → ℕ
next_uint64 n = (n + 1) % 2 ^ 64

unfoldable pub retain_local_frame : List String → Runtime → ℕ × Runtime
retain_local_frame values r =
    let frame = next_uint64 r.next_frame_id in
    (frame, record r { next_frame_id = frame; frames = insert frame values r.frames })

abbrev found_frame : ℕ → Option (List String) → Runtime → Option (List String) × Runtime
found_frame frame none r = (none, r)
found_frame frame (some values) r = (some values, record r { frames = erase frame r.frames })

unfoldable pub take_local_frame : ℕ → Runtime → Option (List String) × Runtime
take_local_frame frame r = found_frame frame (lookup frame r.frames) r

unfoldable pub enqueue : ℤ → Payload → Runtime → Runtime
unfolding push
enqueue due payload r =
    let sequence = next_uint64 r.next_task_sequence in
    record r {
      next_task_sequence = sequence;
      scheduler =
          push (record { due_tick = due; sequence = sequence; payload = payload }) r.scheduler;
    }

-- A payload is not nil. The cast that the call changes is returned with the runtime.
unfoldable pub schedule : Cast → ℤ → Payload → Runtime → Option Error × Cast × Runtime
unfolding enqueue
schedule cast due payload r =
    if frame_id payload == 0 || ltb_ℤ due r.current_tick
    then (some program_invariant, cast, r)
    else (
      none,
      record cast { pending_tasks = cast.pending_tasks + 1; status = suspended },
      enqueue due payload r,
    )

unfoldable pub schedule_system : ℤ → Payload → Runtime → Option Error × Runtime
unfolding enqueue
schedule_system due payload r =
    if ltb_ℤ due r.current_tick then (some program_invariant, r) else (none, enqueue due payload r)

-- A task of the cast's phase.
unfoldable pub is_of_phase : ℕ → ℕ → ScheduledTask → Bool
is_of_phase cast_id token t =
    let identity = scheduled_task_identity t.payload in identity.0 == cast_id && identity.1 == token

abbrev pub drop_frame : ScheduledTask → Map (List String) → Map (List String)
drop_frame t frames =
    if not (frame_id t.payload == 0) then erase (frame_id t.payload) frames else frames

-- The loop of cancelPhaseTasks: the pending tasks of the cast and the frames, with the kept tasks.
unfoldable pub cancel_tasks :
    ℕ → ℕ → List ScheduledTask → ℕ → Map (List String) → ℕ × Map (List String) × List ScheduledTask
cancel_tasks cast_id token [] pending frames = (pending, frames, [])
cancel_tasks cast_id token (t ∷ ts) pending frames =
    let dropped = cancel_tasks cast_id token ts (pending - 1) (drop_frame t frames) in
    let kept = cancel_tasks cast_id token ts pending frames in
    if is_of_phase cast_id token t then dropped else (kept.0, kept.1, t ∷ kept.2)

unfoldable pub cancel_phase_tasks : Cast → ℕ → Runtime → Cast × Runtime
unfolding cancel_tasks
cancel_phase_tasks cast token r =
    let queue = r.scheduler in
    let result = cancel_tasks cast.id token queue.tasks cast.pending_tasks r.frames in
    (
      record cast { pending_tasks = result.0 },
      record r { frames = result.1; scheduler = record { tasks = result.2 } },
    )
