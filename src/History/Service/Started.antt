-- ===== src/History/Service/Started.antt =====
-- What the start of an activity task writes.
use mini_workflow.Prelude.{◌≡◌, String, true, none, some, [], ◌∷◌, ◌++◌}
use mini_workflow.Prelude.Int.{ℤ, pos, inc64}
use mini_workflow.Result.{Result, ok}
use mini_workflow.Codec.{json, nil, text, instant, object, end, field}
use mini_workflow.Api.{Status, RecordActivityTaskStartedRequest}
use mini_workflow.History.Models.{WorkflowExecution, ActivityState, same_run}
use mini_workflow.History.Models
use mini_workflow.History.Backend.{Backend}
use mini_workflow.History.Postgres.{find_execution, find_activity, is_running}
use mini_workflow.History.Postgres.Update.{updated, stamp}
use mini_workflow.History.World.{World, Env}
use mini_workflow.History.Service.Load.{new_event}

-- The row of an activity that has just been started.
abbrev pub fresh_activity : WorkflowExecution → String → ℤ → ActivityState
fresh_activity exec activity_id now = record {
  key = exec.key;
  activity_id = activity_id;
  status = Models.started;
  attempt = 1;
  last_heartbeat = some now;
  last_failure_reason = none;
  task_token = nil;
  heartbeat_timeout_seconds = pos 0;
  task_queue = "";
  activity_type = "";
  input = nil;
}

module _ ⦃b : Backend⦄ (env : Env) (req : RecordActivityTaskStartedRequest) (w : World) where
  -- What a start has read and written.
  abbrev pub Recorded : World → Type 0
  Recorded w' =
      (exec : WorkflowExecution) × (find_execution exec.key w.db.executions ≡ some exec)
      × (is_running exec.status ≡ true)
      × (find_execution exec.key w'.db.executions
          ≡ some (
              updated env.db_clock (record exec { next_event_id = inc64 exec.next_event_id }) exec))
      × (w'.db.events
          ≡ w.db.events
            ++ stamp env.db_clock (
                new_event exec exec.next_event_id "ActivityTaskStarted" (
                  json (
                    object (
                      field "activity_id" (text req.activity_id)
                        (field "started_at" (instant (env.time 0)) end)))))
              ∷ [])
      × (find_activity exec.key req.activity_id w'.db.activities
          ≡ some (fresh_activity exec req.activity_id (env.time 0)))

  abbrev Records : Result Status (Unit {0}) × World → Type 0
  Records r = r.0 ≡ ok tt → Recorded r.1
