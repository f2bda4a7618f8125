-- ===== src/History/Service/Refusals.antt =====
-- Requests that are refused, and what a refusal leaves.
use mini_workflow.Prelude.{◌≡◌, refl, String, false, Option, none, some, arith, ◌∷◌, [], concat}
use mini_workflow.Result.{ok, err}
use mini_workflow.Api.{Status, failed_precondition}
use mini_workflow.History.Models.{Uuid, WorkflowExecution}
use mini_workflow.History.Backend.{Backend}
use mini_workflow.History.Postgres.{find_execution, is_running, get_workflow_execution}
use mini_workflow.History.World.{World, Env}
use mini_workflow.History.Service.Load.{
  default_run, run_id_from_string, load_running, load, status_name,
}
use mini_workflow.History.Service.Workflow.{
  record_workflow_task_started, record_workflow_task_failed, signal_workflow_execution,
}
use mini_workflow.History.Service.Activity.{
  record_activity_task_started, record_activity_task_completed, record_activity_task_failed,
}
use mini_workflow.History.Service.Commands.{record_workflow_task_completed}
use mini_workflow.History.Handler.{
  Request, handle, workflow_execution_started, workflow_task_started, workflow_task_completed,
  workflow_task_failed, activity_task_started, activity_task_completed, activity_task_failed,
  activity_task_heartbeat, workflow_execution_signaled, workflow_execution_queried, history_read,
}

-- The run that a request changes, where it names it outside of a token.
abbrev pub changed_run : Request → Option (String × String)
changed_run (workflow_execution_started r) = none
changed_run (workflow_task_started r) = some (r.workflow_id, r.run_id)
changed_run (workflow_task_completed r) = some (r.workflow_id, r.run_id)
changed_run (workflow_task_failed r) = some (r.workflow_id, r.run_id)
changed_run (activity_task_started r) = some (r.workflow_id, r.run_id)
changed_run (activity_task_completed r) = some (r.workflow_id, r.run_id)
changed_run (activity_task_failed r) = some (r.workflow_id, r.run_id)
changed_run (activity_task_heartbeat r) = none
changed_run (workflow_execution_signaled r) = some (r.workflow_id, r.run_id)
changed_run (workflow_execution_queried r) = none
changed_run (history_read r) = none

abbrev pub not_running : WorkflowExecution → Status
not_running exec = record {
  code = failed_precondition;
  message = concat ("workflow is not running (status: " ∷ status_name exec.status ∷ ")" ∷ []);
}

module _ ⦃b : Backend⦄ (env : Env) (w : World) (run_id : String) where
  load_running-closed :
      (workflow_id : String) (u : Uuid) (exec : WorkflowExecution)
      → run_id_from_string run_id ≡ ok u
      → env.db_fault 0 ≡ none
      → find_execution (default_run workflow_id u) w.db.executions ≡ some exec
      → is_running exec.status ≡ false
      → load_running env workflow_id run_id w ≡ (err (not_running exec), w)
  unfolding load_running load get_workflow_execution
  load_running-closed workflow_id u exec named up found closed = rw (named, up, found, closed) refl

  stopped :
      (req : Request) (s : Status) (workflow_id : String)
      → changed_run req ≡ some (workflow_id, run_id)
      → load_running env workflow_id run_id w ≡ (err s, w)
      → handle env req w ≡ (err s, w)
  unfolding handle record_workflow_task_started record_workflow_task_completed
      record_workflow_task_failed record_activity_task_started record_activity_task_completed
      record_activity_task_failed signal_workflow_execution
  stopped (workflow_task_started r) s wf own e = ground (arith, e)
  stopped (workflow_task_completed r) s wf own e = ground (arith, e)
  stopped (workflow_task_failed r) s wf own e = ground (arith, e)
  stopped (activity_task_started r) s wf own e = ground (arith, e)
  stopped (activity_task_completed r) s wf own e = ground (arith, e)
  stopped (activity_task_failed r) s wf own e = ground (arith, e)
  stopped (workflow_execution_signaled r) s wf own e = ground (arith, e)
  stopped (workflow_execution_started r) s wf own e = ground arith
  stopped (activity_task_heartbeat r) s wf own e = ground arith
  stopped (workflow_execution_queried r) s wf own e = ground arith
  stopped (history_read r) s wf own e = ground arith

  -- Of a run that is not running, a request to record a started, completed or failed workflow or
  -- activity task, or a signal, is refused with FailedPrecondition and the status of the run, and
  -- neither the database nor the timers nor the queues change, as long as the read of the run
  -- succeeds.
  pub handle-closed :
      (req : Request) (workflow_id : String) (u : Uuid) (exec : WorkflowExecution)
      → changed_run req ≡ some (workflow_id, run_id)
      → run_id_from_string run_id ≡ ok u
      → env.db_fault 0 ≡ none
      → find_execution (default_run workflow_id u) w.db.executions ≡ some exec
      → is_running exec.status ≡ false
      → handle env req w ≡ (err (not_running exec), w)
  handle-closed req wf u exec own named up found closed =
      stopped req (not_running exec) wf own (load_running-closed wf u exec named up found closed)
