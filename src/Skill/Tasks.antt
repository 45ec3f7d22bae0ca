-- ===== src/Skill/Tasks.antt =====
-- skill/scheduler.go: the tasks that wait for their tick. Programs, events, and the values of local
-- slots are only carried, and so are texts.
use roost_skill.Common.{ℕ, List, String}
use roost_skill.Common.Int.{ℤ}

pub data Payload : Type 0 where
  flow_continuation : (cast_id phase_token frame : ℕ) → (operations : List ℕ) → Payload
  repeat_iteration :
      (cast_id phase_token frame body index_local : ℕ)
      → (iteration times interval : ℤ) → (tail : List ℕ) → Payload
  phase_timeout : (cast_id phase_token frame : ℕ) → Payload
  chain_hop : (cast_id phase_token frame operation : ℕ) → (hop : ℤ) → Payload
  process_step : (cast_id phase_token frame process_id : ℕ) → Payload
  cast_commit cast_execute cast_recovery : (cast_id phase_token frame : ℕ) → Payload
  cast_pulse : (cast_id phase_token frame : ℕ) → (pulse_index : ℤ) → Payload
  cast_auto_release : (cast_id phase_token frame : ℕ) → (reason : String) → Payload
  ammo_recharge : (caster : ℕ) → (skill : String) → (generation : ℕ) → Payload
  passive_activation : (id : ℕ) → (program event : String) → (owner ability : ℕ) → Payload
  external_event : (event : String) → Payload
  ability_overlay_expiry : (owner ability overlay_id : ℕ) → (context : String) → Payload

unfoldable pub frame_id : Payload → ℕ
frame_id (flow_continuation c p f ops) = f
frame_id (repeat_iteration c p f b i n t v ops) = f
frame_id (phase_timeout c p f) = f
frame_id (chain_hop c p f o h) = f
frame_id (process_step c p f i) = f
frame_id (cast_commit c p f) = f
frame_id (cast_execute c p f) = f
frame_id (cast_recovery c p f) = f
frame_id (cast_pulse c p f i) = f
frame_id (cast_auto_release c p f r) = f
frame_id (ammo_recharge c s g) = 0
frame_id (passive_activation i p e o a) = 0
frame_id (external_event e) = 0
frame_id (ability_overlay_expiry o a i x) = 0

-- The cast and the phase token of a task.
unfoldable pub scheduled_task_identity : Payload → ℕ × ℕ
scheduled_task_identity (flow_continuation c p f ops) = (c, p)
scheduled_task_identity (repeat_iteration c p f b i n t v ops) = (c, p)
scheduled_task_identity (phase_timeout c p f) = (c, p)
scheduled_task_identity (chain_hop c p f o h) = (c, p)
scheduled_task_identity (process_step c p f i) = (c, p)
scheduled_task_identity (cast_commit c p f) = (c, p)
scheduled_task_identity (cast_execute c p f) = (c, p)
scheduled_task_identity (cast_recovery c p f) = (c, p)
scheduled_task_identity (cast_pulse c p f i) = (c, p)
scheduled_task_identity (cast_auto_release c p f r) = (c, p)
scheduled_task_identity _ = (0, 0)

pub record ScheduledTask : Type 0 where
  pub due_tick : ℤ
  pub sequence : ℕ
  pub payload : Payload
