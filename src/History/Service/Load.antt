-- ===== src/History/Service/Load.antt =====
-- What the handlers of history/internal/service begin with, and the rows that they write.
use mini_workflow.Prelude.{ℕ, String, Option, none, some, List, [], ◌∷◌, concat, if◌then◌else◌}
use mini_workflow.Prelude.Int.{pos}
use mini_workflow.Result.{Result, ok, err}
use mini_workflow.Codec.{Bytes}
use mini_workflow.Api.{
  invalid_argument, not_found, failed_precondition, internal, AddWorkflowTaskRequest,
}
use mini_workflow.History.Models.{
  Uuid, RunKey, WorkflowExecution, WorkflowStatus, HistoryEvent, ActivityState, Timer, running,
  completed, failed, timed_out,
}
use mini_workflow.History.Backend.{Backend}
use mini_workflow.History.Postgres.{
  get_workflow_execution, get_activity_state, update_workflow_execution, is_running,
}
use mini_workflow.History.World.{Env, Exec, ◌>>=◌, pure, lift, refuse, with_code, query, write}

abbrev pub status_name : WorkflowStatus → String
status_name running = "Running"
status_name completed = "Completed"
status_name failed = "Failed"
status_name timed_out = "TimedOut"

abbrev pub default_run : String → Uuid → RunKey
default_run workflow_id run_id = record {
  namespace = "default";
  workflow_id = workflow_id;
  run_id = run_id;
}

unfoldable pub new_event : WorkflowExecution → ℕ → String → Bytes → HistoryEvent
new_event exec event_id event_type payload = record {
  key = exec.key;
  event_id = event_id;
  event_type = event_type;
  payload = payload;
  created_at = pos 0;
}

module _ ⦃b : Backend⦄ where
  abbrev pub parsed : String → Option Uuid → Result String Uuid
  parsed s (some u) = ok u
  parsed s none = err (concat ("invalid run_id " ∷ s ∷ []))

  unfoldable pub run_id_from_string : String → Result String Uuid
  run_id_from_string s = parsed s (b.parse_uuid s)

  -- The request that wakes the workflow's worker.
  abbrev pub wake : WorkflowExecution → AddWorkflowTaskRequest
  wake exec = record {
    task_queue = exec.task_queue;
    workflow_id = exec.workflow_id;
    run_id = b.print_uuid exec.run_id;
    workflow_type = exec.workflow_type;
  }

  module _ (env : Env) where
    unfoldable pub load : String → String → Exec WorkflowExecution
    load workflow_id run_id = do
      run ← lift (with_code invalid_argument (run_id_from_string run_id))
      query not_found "workflow execution not found"
          (get_workflow_execution (env.db_fault 0) (default_run workflow_id run))

    abbrev pub check_running : WorkflowExecution → Exec WorkflowExecution
    check_running exec =
        if is_running exec.status
        then pure exec
        else refuse failed_precondition
            (concat ("workflow is not running (status: " ∷ status_name exec.status ∷ ")" ∷ []))

    unfoldable pub load_running : String → String → Exec WorkflowExecution
    load_running workflow_id run_id = do exec ← load workflow_id run_id; check_running exec

    -- The key of the row that was found is the key that was asked for.
    unfoldable pub load_activity : WorkflowExecution → String → Exec ActivityState
    load_activity exec activity_id =
        query internal "get activity state"
          (get_activity_state (env.db_fault 1) exec.key activity_id)

    -- The `k`-th call of the repository: one transaction.
    unfoldable pub commit :
        ℕ
        → WorkflowExecution
        → ℕ
        → List HistoryEvent
        → List ActivityState
        → List Timer
        → Exec (Unit {0})
    commit k exec expected_version events activities timers = write "update execution" (
        update_workflow_execution (env.db_fault k) env.db_clock exec expected_version events
          activities timers)
