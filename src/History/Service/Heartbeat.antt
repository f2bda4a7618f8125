-- ===== src/History/Service/Heartbeat.antt =====
-- record_activity_task_heartbeat.go, with token.go.
pub mod Deadline
pub mod Answers
use mini_workflow.Prelude.{
  ℕ, ◌+◌, String, Bool, true, false, ◌||◌, Option, none, some, [], ◌∷◌, concat, ltb, if◌then◌else◌,
}
use mini_workflow.Prelude.Int.{ℤ, pos, ltz, inc64, seconds, unix_milli, ◌+ℤ◌}
use mini_workflow.Result.{Result, ok, err}
use mini_workflow.Codec.{
  Bytes, nil, json, boolean, text, blob_of, number, instant, object, end, field, is_empty,
}
use mini_workflow.Codec.Decode.{Setter, set_text, set_int64, in_field, names, unmarshal}
use mini_workflow.Api.{
  RecordActivityTaskStartedRequest, RecordActivityTaskCompletedRequest,
  RecordActivityTaskFailedRequest, RecordActivityTaskHeartbeatRequest, invalid_argument, not_found,
}
use mini_workflow.Matching.Service.{is_blank}
use mini_workflow.History.Models.{
  WorkflowExecution, ActivityState, Timer, started, completed, failed, activity_timeout,
}
use mini_workflow.History.Backend.{Backend}
use mini_workflow.History.Postgres.{
  Database, is_running, get_workflow_execution, update_workflow_execution,
}
use mini_workflow.History.Postgres.Timers.{get_activity_timeout_timer, update_timer_fire_time}
use mini_workflow.History.World.{
  Env, Exec, ◌>>=◌, ◌>>◌, pure, lift, refuse, relabel, query, write, schedule_timer,
  add_workflow_task,
}
use mini_workflow.History.Service.Load.{
  default_run, new_event, run_id_from_string, wake, load_running, load_activity, commit,
}

-- token.go
pub record TaskToken : Type 0 where
  pub workflow_id : String
  pub run_id : String
  pub activity_id : String
  pub attempt : ℤ

unfoldable pub set_task_token : Setter TaskToken
set_task_token k v t =
    if names k "workflow_id"
    then in_field (λ s. record t { workflow_id = s }) (set_text v t.workflow_id)
    else if names k "run_id"
    then in_field (λ s. record t { run_id = s }) (set_text v t.run_id)
    else if names k "activity_id"
    then in_field (λ s. record t { activity_id = s }) (set_text v t.activity_id)
    else if names k "attempt"
    then in_field (λ n. record t { attempt = n }) (set_int64 v t.attempt)
    else (t, false)

abbrev pub no_token : TaskToken
no_token = record { workflow_id = ""; run_id = ""; activity_id = ""; attempt = pos 0 }

abbrev pub checked_token : TaskToken × Option String → Result String TaskToken
checked_token (t, some e) = err (concat ("unmarshal task token: " ∷ e ∷ []))
checked_token (t, none) =
    if is_blank t.workflow_id || is_blank t.run_id
    then err "task token missing workflow_id or run_id"
    else ok t

unfoldable pub decode_task_token : Bytes → Result String TaskToken
decode_task_token token = checked_token (unmarshal set_task_token token no_token)

abbrev pub or_thirty : ℤ → ℤ
or_thirty n = if ltz (pos 0) n then n else pos 30

module _ ⦃b : Backend⦄ (env : Env) where
  abbrev pub rescheduled : Timer → ℤ → Result String Database → Exec (Unit {0})
  rescheduled timer at (err e) w = (ok tt, w)
  rescheduled timer at (ok db) w =
      schedule_timer env 0 (b.print_uuid timer.timer_id) (unix_milli at) (record w { db = db })

  abbrev pub extended : ℤ → Result String (Option Timer) → Exec (Unit {0})
  extended at (err e) w = (ok tt, w)
  extended at (ok none) w = (ok tt, w)
  extended at (ok (some timer)) w =
      rescheduled timer at (update_timer_fire_time (env.db_fault 4) timer.timer_id at w.db) w

  -- Errors are logged; the heartbeat itself has been recorded.
  unfoldable pub extend_deadline : WorkflowExecution → String → ActivityState → ℤ → Exec (Unit {0})
  extend_deadline exec activity_id act now w =
      extended (now +ℤ seconds (or_thirty act.heartbeat_timeout_seconds))
        (get_activity_timeout_timer (env.db_fault 3) exec.key activity_id w.db) w

  unfoldable pub heartbeat : WorkflowExecution → String → Exec Bool
  heartbeat exec activity_id = do
    let now = env.time 0
    act ← load_activity env exec activity_id
    let act' = record act { last_heartbeat = some now }
    write "update heartbeat" (
        update_workflow_execution (env.db_fault 2) env.db_clock exec exec.current_version []
          (act' ∷ []) [])
    extend_deadline exec activity_id act' now
    pure false

  -- The reply is `cancel_requested`.
  unfoldable pub answer_heartbeat : String → WorkflowExecution → Exec Bool
  unfolding heartbeat
  answer_heartbeat activity_id exec =
      if is_running exec.status then heartbeat exec activity_id else pure true

  -- A heartbeat finds its run by the token.
  abbrev pub with_token_run :
      {B : Type 0}
      → RecordActivityTaskHeartbeatRequest
      → (String → WorkflowExecution → Exec B)
      → Exec B
  with_token_run req rest =
      if is_empty req.task_token then refuse invalid_argument "task_token is required" else do
        tok ←
            lift (relabel invalid_argument "invalid task token" (decode_task_token req.task_token))
        run ←
            lift
              (relabel invalid_argument "invalid run_id in token" (run_id_from_string tok.run_id))
        exec ←
            query not_found "workflow execution not found"
              (get_workflow_execution (env.db_fault 0) (default_run tok.workflow_id run))
        rest tok.activity_id exec

  unfoldable pub record_activity_task_heartbeat : RecordActivityTaskHeartbeatRequest → Exec Bool
  unfolding heartbeat answer_heartbeat
  record_activity_task_heartbeat req = with_token_run req answer_heartbeat
