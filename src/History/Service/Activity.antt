-- ===== src/History/Service/Activity.antt =====
-- record_activity_task_started.go, record_activity_task_completed.go and record_activity_task_failed.go.
use mini_workflow.Prelude.{ℕ, ◌+◌, String, true, false, none, some, [], ◌∷◌, ltb, if◌then◌else◌}
use mini_workflow.Prelude.Int.{ℤ, pos, inc64, seconds, unix_milli, ◌+ℤ◌}
use mini_workflow.Codec.{
  Bytes, nil, json, boolean, text, blob_of, number, instant, object, end, field,
}
use mini_workflow.Api.{
  RecordActivityTaskStartedRequest, RecordActivityTaskCompletedRequest,
  RecordActivityTaskFailedRequest,
}
use mini_workflow.History.Models.{
  WorkflowExecution, ActivityState, Timer, started, completed, failed, activity_timeout,
}
use mini_workflow.History.Backend.{Backend}
use mini_workflow.History.World.{Env, Exec, ◌>>=◌, ◌>>◌, schedule_timer, add_workflow_task}
use mini_workflow.History.Service.Load.{new_event, wake, load_running, load_activity, commit}

abbrev pub max_activity_attempts : ℕ
max_activity_attempts = 3

abbrev pub retry_backoff_seconds : ℕ
retry_backoff_seconds = 5

-- The JSON in `Timer.task_token` of an activity's timer.
abbrev pub activity_timer_token : String → ℤ → Bytes
activity_timer_token activity_id heartbeat_timeout_seconds = json (
    object (
      field "activity_id" (text activity_id)
        (field "heartbeat_timeout_seconds" (number heartbeat_timeout_seconds) end)))

module _ ⦃b : Backend⦄ (env : Env) where
  unfoldable pub start_activity :
      RecordActivityTaskStartedRequest → WorkflowExecution → Exec (Unit {0})
  start_activity req exec = do
    let event_id = exec.next_event_id
    let now = env.time 0
    let payload =
        json (
          object
            (field "activity_id" (text req.activity_id) (field "started_at" (instant now) end)))
    let event = new_event exec event_id "ActivityTaskStarted" payload
    commit env 1 (record exec { next_event_id = inc64 event_id }) exec.current_version (event ∷ [])
        (started_state exec req.activity_id now ∷ []) []
    where
      started_state : WorkflowExecution → String → ℤ → ActivityState
      started_state exec activity_id now = record {
        key = exec.key;
        activity_id = activity_id;
        status = started;
        attempt = 1;
        last_heartbeat = some now;
        last_failure_reason = none;
        task_token = nil;
        heartbeat_timeout_seconds = pos 0;
        task_queue = "";
        activity_type = "";
        input = nil;
      }

  unfoldable pub record_activity_task_started : RecordActivityTaskStartedRequest → Exec (Unit {0})
  unfolding start_activity
  record_activity_task_started req = do
    exec ← load_running env req.workflow_id req.run_id
    start_activity req exec

  unfoldable pub complete_activity :
      RecordActivityTaskCompletedRequest → WorkflowExecution → Exec (Unit {0})
  complete_activity req exec = do
    let event_id = exec.next_event_id
    let payload = json (
        object
          (field "activity_id" (text req.activity_id) (field "result" (blob_of req.result) end)))
    let event = new_event exec event_id "ActivityTaskCompleted" payload
    act ← load_activity env exec req.activity_id
    commit env 2 (record exec { next_event_id = inc64 event_id }) exec.current_version (event ∷ [])
        (record act { status = completed; attempt = 1 } ∷ []) []
    add_workflow_task env 0 (wake exec)

  unfoldable pub record_activity_task_completed :
      RecordActivityTaskCompletedRequest → Exec (Unit {0})
  unfolding complete_activity
  record_activity_task_completed req = do
    exec ← load_running env req.workflow_id req.run_id
    complete_activity req exec

  abbrev pub retry_timer : WorkflowExecution → ActivityState → String → Timer
  retry_timer exec act activity_id = record {
    timer_id = env.uuid 0;
    key = exec.key;
    fire_time = env.time 0 +ℤ seconds (pos retry_backoff_seconds);
    timer_type = activity_timeout;
    task_token = activity_timer_token activity_id act.heartbeat_timeout_seconds;
    is_fired = false;
  }

  -- The branch for an activity that has attempts left.
  unfoldable pub retry_activity :
      RecordActivityTaskFailedRequest → WorkflowExecution → ActivityState → Exec (Unit {0})
  retry_activity req exec act = do
    let event_id = exec.next_event_id
    let payload = json (
        object (
          field "activity_id" (text req.activity_id)
            (field "attempt" (number (pos act.attempt)) (field "reason" (text req.reason) end))))
    let event = new_event exec event_id "ActivityTaskFailed" payload
    let act' = record act {
      attempt = act.attempt + 1;
      status = failed;
      last_failure_reason = some req.reason;
    }
    let timer = retry_timer exec act req.activity_id
    commit env 2 (record exec { next_event_id = inc64 event_id }) exec.current_version (event ∷ [])
        (act' ∷ []) (timer ∷ [])
    schedule_timer env 0 (b.print_uuid timer.timer_id) (unix_milli timer.fire_time)

  unfoldable pub give_up_activity :
      RecordActivityTaskFailedRequest → WorkflowExecution → ActivityState → Exec (Unit {0})
  give_up_activity req exec act = do
    let event_id = exec.next_event_id
    let payload = json (
        object (
          field "activity_id" (text req.activity_id)
            (field "final" (boolean true) (field "reason" (text req.reason) end))))
    let event = new_event exec event_id "ActivityTaskFailed" payload
    commit env 2 (record exec { next_event_id = inc64 event_id }) exec.current_version (event ∷ [])
        (record act { status = failed; last_failure_reason = some req.reason } ∷ []) []
    add_workflow_task env 0 (wake exec)

  unfoldable pub fail_activity :
      RecordActivityTaskFailedRequest → WorkflowExecution → Exec (Unit {0})
  fail_activity req exec = do
    act ← load_activity env exec req.activity_id
    if ltb act.attempt max_activity_attempts
        then retry_activity req exec act
        else give_up_activity req exec act

  unfoldable pub record_activity_task_failed : RecordActivityTaskFailedRequest → Exec (Unit {0})
  unfolding fail_activity
  record_activity_task_failed req = do
    exec ← load_running env req.workflow_id req.run_id
    fail_activity req exec
