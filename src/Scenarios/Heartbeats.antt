-- ===== src/Scenarios/Heartbeats.antt =====
-- A heartbeat at a concrete input: its timer is put off.
use mini_workflow.Prelude.{◌≡◌, refl, true, false, some, [], ◌∷◌}
use mini_workflow.Prelude.Text.{concat, equal_fold}
use mini_workflow.Prelude.Int.{pos, inc64}
use mini_workflow.Result.{ok}
use mini_workflow.Codec.{nil, json, text, object, end, field}
use mini_workflow.Codec.Decode.{unmarshal}
use mini_workflow.Api.{RecordActivityTaskHeartbeatRequest}
use mini_workflow.History.Models.{Uuid, WorkflowExecution, Timer, activity_timeout, same_run}
use mini_workflow.History.Backend.{Backend}
use mini_workflow.History.Postgres.{
  get_workflow_execution, find_execution, update_workflow_execution, update_row, insert_events,
  upsert_activities, insert_timers, replace_execution, get_activity_state, find_activity,
  upsert_activity,
}
use mini_workflow.History.Postgres.Timers.{
  get_activity_timeout_timer, order_by_time, insert_by_time, update_timer_fire_time, alter_timer,
}
use mini_workflow.History.World.{World, schedule_timer}
use mini_workflow.History.Service.Load.{default_run, run_id_from_string, load_activity}
use mini_workflow.History.Service.Heartbeat.{
  TaskToken, decode_task_token, set_task_token, record_activity_task_heartbeat, answer_heartbeat,
  heartbeat, extend_deadline,
}
use mini_workflow.History.Service.Heartbeat.Answers.{Answered, record_activity_task_heartbeat-ok}
use mini_workflow.Scenarios.{backend, calm, open_row, world_of, count}

abbrev finds_tokens : Backend
finds_tokens = record backend { token_is_like = λ _ _. true }

abbrev deadline : Timer
deadline = record {
  timer_id = 1;
  key = open_row.key;
  fire_time = pos 2000000000;
  timer_type = activity_timeout;
  task_token = nil;
  is_fired = false;
}

abbrev charging : World
charging = record (world_of open_row) {
  db = record (world_of open_row).db { timers = deadline ∷ [] };
}

abbrev beat : RecordActivityTaskHeartbeatRequest
beat = record {
  task_token = json (
      object (
        field "activity_id" (text "charge")
          (field "run_id" (text "x") (field "workflow_id" (text "order-1") end))));
  details = nil;
}

goes_on : (record_activity_task_heartbeat ⦃b = finds_tokens⦄ (calm 2) beat charging).0 ≡ ok false
unfolding record_activity_task_heartbeat answer_heartbeat heartbeat extend_deadline
    decode_task_token unmarshal set_task_token run_id_from_string count get_workflow_execution
    find_execution same_run load_activity get_activity_state find_activity update_workflow_execution
    update_row insert_events upsert_activities upsert_activity insert_timers replace_execution inc64
    get_activity_timeout_timer order_by_time insert_by_time update_timer_fire_time alter_timer
    schedule_timer concat equal_fold
goes_on = refl

record_activity_task_heartbeat-ok_example :
    (token : TaskToken) × (u : Uuid) × (exec : WorkflowExecution) × (decode_task_token
        beat.task_token
      ≡ ok token)
    × (run_id_from_string ⦃b = finds_tokens⦄ token.run_id ≡ ok u)
    × (find_execution (default_run token.workflow_id u) charging.db.executions ≡ some exec)
    × Answered ⦃b = finds_tokens⦄
        (calm 2)
        exec
        token.activity_id
        charging
        false
        (record_activity_task_heartbeat ⦃b = finds_tokens⦄ (calm 2) beat charging).1
record_activity_task_heartbeat-ok_example =
    record_activity_task_heartbeat-ok ⦃b = finds_tokens⦄ (calm 2) beat charging false goes_on
