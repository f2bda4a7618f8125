-- ===== src/History/Service/Retries.antt =====
-- What the failure of an activity leads to.
use mini_workflow.Prelude.{◌+◌, ◌≡◌, false, some, List, [], ◌∷◌, ◌++◌, ltb, if◌then◌else◌}
use mini_workflow.Prelude.Int.{pos, ◌+ℤ◌}
use mini_workflow.Result.{Result, ok}
use mini_workflow.Codec.{json, text, number, object, end, field}
use mini_workflow.Api.{Status, RecordActivityTaskFailedRequest}
use mini_workflow.History.Models.{WorkflowExecution, ActivityState, failed, activity_timeout}
use mini_workflow.History.Backend.{Backend}
use mini_workflow.History.Postgres.{find_execution, find_activity}
use mini_workflow.History.World.{World, Env, add_workflow_task}
use mini_workflow.History.Service.Load.{wake}
use mini_workflow.History.Service.Queued.{with_workflow_task}
use mini_workflow.History.Service.Activity.{retry_timer}

-- The activity, the timers and the queues after a failure that has been recorded.
abbrev failed_again : RecordActivityTaskFailedRequest → ActivityState → ActivityState
failed_again req act = record act {
  attempt = if ltb act.attempt 3 then act.attempt + 1 else act.attempt;
  status = failed;
  last_failure_reason = some req.reason;
}

module _ ⦃b : Backend⦄ (env : Env) (req : RecordActivityTaskFailedRequest) (w : World) where
  -- The run and the activity that the request is about, and what has become of them.
  abbrev Retried : World → Type 0
  Retried w' =
      (exec : WorkflowExecution) × (act : ActivityState) × (find_execution exec.key w.db.executions
        ≡ some exec)
      × (find_activity exec.key req.activity_id w.db.activities ≡ some act)
      × (find_activity exec.key req.activity_id w'.db.activities ≡ some (failed_again req act))
      × (w'.db.timers ≡ (
          if ltb act.attempt 3
          then w.db.timers ++ retry_timer env exec act req.activity_id ∷ []
          else w.db.timers))
      × (w'.queues ≡ (
          if ltb act.attempt 3 then w.queues else (add_workflow_task env 0 (wake exec) w).1.queues))

  abbrev Retries : Result Status (Unit {0}) × World → Type 0
  Retries r = r.0 ≡ ok tt → Retried r.1

  -- What a failure leaves, written out: the time of the retry is 5 seconds after that of the request.
  abbrev pub FailedAgain : World → Type 0
  FailedAgain w' =
      (exec : WorkflowExecution) × (act : ActivityState) × (find_execution exec.key w.db.executions
        ≡ some exec)
      × (find_activity exec.key req.activity_id w.db.activities ≡ some act)
      × (find_activity exec.key req.activity_id w'.db.activities ≡ some (failed_again req act))
      × (w'.db.timers ≡ (
          if ltb act.attempt 3
          then w.db.timers
            ++ (record {
              timer_id = env.uuid 0;
              key = exec.key;
              fire_time = env.time 0 +ℤ pos 5000000000;
              timer_type = activity_timeout;
              task_token = json (
                  object (
                    field "activity_id" (text req.activity_id) (
                      field "heartbeat_timeout_seconds" (number act.heartbeat_timeout_seconds)
                        end)));
              is_fired = false;
            })
              ∷ []
          else w.db.timers))
      × (w'.queues ≡ (
          if ltb act.attempt 3
          then w.queues
          else with_workflow_task env exec.workflow_id (b.print_uuid exec.run_id) exec.workflow_type
              exec.task_queue w.queues))
