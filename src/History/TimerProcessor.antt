-- ===== src/History/TimerProcessor.antt =====
-- history/internal/service/timer_processor.go, what a timer does when it fires. Errors are logged and end the step that met them.
pub mod Loop
pub mod Evolution
pub mod Rounds
pub mod Late
pub mod Timeouts
pub mod Executions
pub mod Dispatch
pub mod Wakeups
pub mod Claimed
pub mod Ends
pub mod Recovery
use mini_workflow.Prelude.{
  ℕ, String, Bool, false, not, ◌||◌, Option, none, some, [], ◌∷◌, if◌then◌else◌,
}
use mini_workflow.Prelude.Int.{ℤ, pos, ltz, inc64, lt64, to_bits, wrap32, seconds, unix_milli, ◌+ℤ◌}
use mini_workflow.Result.{Result, ok, err}
use mini_workflow.Codec.{Bytes, json, text, object, end, field}
use mini_workflow.Codec.Decode.{Setter, set_text, set_int64, in_field, names, unmarshal}
use mini_workflow.Api.{AddWorkflowTaskRequest, AddActivityTaskRequest, internal}
use mini_workflow.Matching.Service.{is_blank}
use mini_workflow.History.Models.{
  Uuid, WorkflowExecution, WorkflowStatus, HistoryEvent, ActivityState, Timer, timed_out, user,
  workflow_timeout, activity_timeout, workflow_task_timeout,
}
use mini_workflow.History.Backend.{Backend}
use mini_workflow.History.Postgres.{
  get_workflow_execution, get_activity_state, update_workflow_execution, is_running,
}
use mini_workflow.History.Postgres.Timers.{mark_timer_fired, get_timer_by_id}
use mini_workflow.History.World.{
  World, Env, Exec, ◌>>=◌, ◌>>◌, pure, query, write, schedule_timer, add_workflow_task,
  add_activity_task,
}
use mini_workflow.History.Service.Heartbeat.{or_thirty}

-- record_activity_task_heartbeat.go, `activityTimerToken`
pub record ActivityTimerToken : Type 0 where
  pub activity_id : String
  pub heartbeat_timeout_seconds : ℤ

unfoldable pub set_activity_timer_token : Setter ActivityTimerToken
set_activity_timer_token k v t =
    if names k "activity_id"
    then in_field (λ s. record t { activity_id = s }) (set_text v t.activity_id)
    else if names k "heartbeat_timeout_seconds"
    then in_field (λ n. record t { heartbeat_timeout_seconds = n })
        (set_int64 v t.heartbeat_timeout_seconds)
    else (t, false)

abbrev pub decoded : {A : Type 0} → A × Option String → Result String A
decoded (a, none) = ok a
decoded (a, some e) = err e

unfoldable pub decode_activity_timer_token : Bytes → Result String ActivityTimerToken
decode_activity_timer_token token = decoded (
    unmarshal set_activity_timer_token token
      (record { activity_id = ""; heartbeat_timeout_seconds = pos 0 }))

-- The `event_id` in the token of a workflow task's timer, as bits.
unfoldable pub set_event_id : Setter ℤ
set_event_id k v n = if names k "event_id" then set_int64 v n else (n, false)

unfoldable pub decode_event_id : Bytes → Result String ℤ
decode_event_id token = decoded (unmarshal set_event_id token (pos 0))

module _ ⦃b : Backend⦄ (env : Env) where
  abbrev pub new_status : Option WorkflowStatus → WorkflowExecution → WorkflowExecution
  new_status none exec = exec
  new_status (some s) exec = record exec { status = s }

  abbrev pub timer_event : Timer → ℕ → String → HistoryEvent
  timer_event t event_id event_type = record {
    key = t.key;
    event_id = event_id;
    event_type = event_type;
    payload = json (object (field "timer_id" (text (b.print_uuid t.timer_id)) end));
    created_at = pos 0;
  }

  -- What follows the read of the run.
  unfoldable pub record_timer :
      Timer → String → Option WorkflowStatus → WorkflowExecution → Exec WorkflowExecution
  record_timer t event_type status exec = do
    let event_id = exec.next_event_id
    let exec' = new_status status (record exec { next_event_id = inc64 event_id })
    write "" (
        update_workflow_execution (env.db_fault 3) env.db_clock exec' exec.current_version
          (timer_event t event_id event_type ∷ []) [] [])
    pure exec'

  unfoldable pub process_execution_timer :
      Timer → String → Option WorkflowStatus → Exec WorkflowExecution
  unfolding record_timer
  process_execution_timer t event_type status = do
    exec ← query internal "" (get_workflow_execution (env.db_fault 2) t.key)
    record_timer t event_type status exec

  -- The workflow task of the timer's run.
  abbrev pub wake_for : Timer → WorkflowExecution → AddWorkflowTaskRequest
  wake_for t exec = record {
    task_queue = exec.task_queue;
    workflow_id = t.workflow_id;
    run_id = b.print_uuid t.run_id;
    workflow_type = exec.workflow_type;
  }

  abbrev pub again : Timer → String → ActivityState → AddActivityTaskRequest
  again t activity_id act = record {
    task_queue = act.task_queue;
    workflow_id = t.workflow_id;
    run_id = b.print_uuid t.run_id;
    activity_id = activity_id;
    activity_type = act.activity_type;
    input = act.input;
    heartbeat_timeout_seconds = wrap32 act.heartbeat_timeout_seconds;
  }

  -- The deadline that a heartbeat has set, if it is still ahead.
  unfoldable pub live_deadline : ℤ → Option ℤ → Option ℤ
  live_deadline timeout_seconds none = none
  live_deadline timeout_seconds (some beat) =
      let deadline = beat +ℤ seconds (or_thirty timeout_seconds) in
      if ltz (env.time 0) deadline then some deadline else none

  abbrev pub judged : Timer → String → ActivityState → Option ℤ → Exec (Unit {0})
  judged t activity_id act (some deadline) =
      schedule_timer env 0 (b.print_uuid t.timer_id) (unix_milli deadline)
  judged t activity_id act none = add_activity_task env 0 (again t activity_id act)

  unfoldable pub judge_activity : Timer → ActivityTimerToken → ActivityState → Exec (Unit {0})
  judge_activity t tok act =
      judged t tok.activity_id act (live_deadline tok.heartbeat_timeout_seconds act.last_heartbeat)

  abbrev pub with_activity : Timer → Result String ActivityTimerToken → Exec (Unit {0})
  with_activity t (err e) w = (ok tt, w)
  with_activity t (ok tok) w =
      if is_blank tok.activity_id
      then (ok tt, w)
      else (query internal "" (get_activity_state (env.db_fault 2) t.key tok.activity_id)
            >>= judge_activity t tok)
          w

  unfoldable pub handle_activity_timeout : Timer → Exec (Unit {0})
  handle_activity_timeout t = with_activity t (decode_activity_timer_token t.task_token)

  -- The run is closed, or has gone on since the task was started.
  abbrev pub has_progressed : WorkflowExecution → ℕ → Bool
  has_progressed exec event_id =
      not (is_running exec.status) || lt64 (inc64 event_id) exec.next_event_id

  abbrev pub with_event_id : Timer → Result String ℤ → Exec (Unit {0})
  with_event_id t (err e) w = (ok tt, w)
  with_event_id t (ok event_id) w =
      (query internal "" (get_workflow_execution (env.db_fault 2) t.key) >>= λ exec.
      if has_progressed exec (to_bits event_id)
      then pure tt
      else add_workflow_task env 0 (wake_for t exec))
        w

  unfoldable pub handle_workflow_task_timeout : Timer → Exec (Unit {0})
  handle_workflow_task_timeout t = with_event_id t (decode_event_id t.task_token)

  unfoldable pub fire : Timer → Exec (Unit {0})
  fire t = elim t.timer_type [
    | user ↦ do
      exec ← process_execution_timer t "TimerFired" none
      add_workflow_task env 0 (wake_for t exec)
    | workflow_timeout ↦ do
      exec ← process_execution_timer t "WorkflowExecutionTimedOut" (some timed_out)
      pure tt
    | activity_timeout ↦ handle_activity_timeout t
    | workflow_task_timeout ↦ handle_workflow_task_timeout t
  ]

  unfoldable pub dispatch : Uuid → Exec (Unit {0})
  dispatch timer_id = do
    t ← query internal "" (get_timer_by_id (env.db_fault 0) timer_id)
    write "" (mark_timer_fired (env.db_fault 1) timer_id)
    fire t
