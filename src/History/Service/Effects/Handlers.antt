-- ===== src/History/Service/Effects/Handlers.antt =====
-- Each handler of history/internal/service that changes a run, when it succeeds.
use mini_workflow.Prelude.{◌≡◌, refl, subst, String, true, Option, some, Bool-cases, inl, inr}
use mini_workflow.Result.{Result, ok, err}
use mini_workflow.Api.{Status, invalid_argument, not_found}
use mini_workflow.History.Models.{Uuid, WorkflowExecution}
use mini_workflow.History.Backend.{Backend}
use mini_workflow.History.Postgres.{find_execution, is_running, get_workflow_execution}
use mini_workflow.History.World.{World, Env, Exec, lift, with_code, ◌>>=◌, continue, query}
use mini_workflow.History.Handler.{
  Request, Reply, handle, replied, workflow_execution_started, workflow_task_started,
  workflow_task_completed, workflow_task_failed, activity_task_started, activity_task_completed,
  activity_task_failed, activity_task_heartbeat, workflow_execution_signaled,
  workflow_execution_queried, history_read, done,
}
use mini_workflow.History.Service.Load.{
  default_run, run_id_from_string, load, check_running, load_running,
}
use mini_workflow.History.Service.Workflow.{
  start_workflow_task, fail_workflow_task, signal_run, record_workflow_task_started,
  record_workflow_task_failed, signal_workflow_execution,
}
use mini_workflow.History.Service.Activity.{
  start_activity, complete_activity, fail_activity, record_activity_task_started,
  record_activity_task_completed, record_activity_task_failed,
}
use mini_workflow.History.Service.Commands.{complete_workflow_task, record_workflow_task_completed}
use mini_workflow.History.Service.Rules.{query-cases, get_workflow_execution-ok}
use mini_workflow.History.Service.Effects.{Effect}
use mini_workflow.History.Service.Refusals.{changed_run}
use mini_workflow.History.Service.Effects.Bodies.{
  request_events, status_left, Leaves, started, failed_task, signaled, activity_started,
  activity_completed, activity_failed, completed_task,
}

some-inj : {p q : String × String} → ◌≡◌ {A = Option (String × String)} (some p) (some q) → p ≡ q
some-inj h = cc h

module _ ⦃b : Backend⦄ (env : Env) (w : World) where
  -- The run that a request names was there and open, and has changed so.
  abbrev pub Changed : Request → String → String → World → Type 0
  Changed req workflow_id run_id w' =
      (u : Uuid) × (exec : WorkflowExecution) × (run_id_from_string run_id ≡ ok u)
      × (find_execution (default_run workflow_id u) w.db.executions ≡ some exec)
      × (is_running exec.status ≡ true)
      × Effect (request_events req) (status_left req exec.status) exec w.db w'.db

  module _ (req : Request) (workflow_id run_id : String)
      (body : WorkflowExecution → Exec (Unit {0}))
      (leaves : (exec : WorkflowExecution) → Leaves env w req exec (body exec w)) where
    abbrev Ran : Result Status (Unit {0}) × World → Type 0
    Ran r = r.0 ≡ ok tt → Changed req workflow_id run_id r.1

    opened :
        (u : Uuid) (exec : WorkflowExecution)
        → run_id_from_string run_id ≡ ok u
        → find_execution (default_run workflow_id u) w.db.executions ≡ some exec
        → Ran (continue (check_running env exec w) body)
    opened u exec parsed found = elim (Bool-cases (is_running exec.status)) [
      | inl is_open ↦ rw is_open (λ h. (u, exec, parsed, found, is_open, leaves exec h))
      | inr closed ↦ rw closed (λ h. cc)
    ]

    looked :
        (parsed : Result String Uuid)
        → run_id_from_string run_id ≡ parsed
        → Ran (
            continue
              (((lift (with_code invalid_argument parsed) >>= λ run.
                    query not_found "workflow execution not found"
                      (get_workflow_execution (env.db_fault 0) (default_run workflow_id run)))
                  >>= check_running env)
                w)
              body)
    looked (err x) e = λ h. cc
    looked (ok u) e =
        query-cases (λ r. Ran (continue r body)) (check_running env) w not_found
          "workflow execution not found"
          (get_workflow_execution (env.db_fault 0) (default_run workflow_id u)) (λ s h. cc)
          λ exec h.
            opened u exec e
              (get_workflow_execution-ok (env.db_fault 0) (default_run workflow_id u) w.db h)

    ran : Ran ((load_running env workflow_id run_id >>= body) w)
    unfolding load_running load
    ran = looked (run_id_from_string run_id) refl

    replied-Ran :
        (reply : Reply) (r : Result Status (Unit {0}) × World)
        → Ran r
        → (replied (λ _. done) r).0 ≡ ok reply
        → Changed req workflow_id run_id (replied (λ _. done) r).1
    replied-Ran reply (ok x, w') h e = h refl
    replied-Ran reply (err s, w') h e = cc

    pub handled :
        (reply : Reply)
        → (replied (λ _. done) ((load_running env workflow_id run_id >>= body) w)).0 ≡ ok reply
        → Changed req workflow_id run_id
            (replied (λ _. done) ((load_running env workflow_id run_id >>= body) w)).1
    handled reply = replied-Ran reply _ ran

  named :
      (req : Request) {wf id wf' id' : String} (w' : World)
      → ◌≡◌ {A = Option (String × String)} (some (wf', id')) (some (wf, id))
      → Changed req wf' id' w'
      → Changed req wf id w'
  named req w' own c = subst (λ (p : String × String). Changed req p.0 p.1 w') (some-inj own) c

  -- A request to record a started, completed or failed workflow or activity task, or a signal, that
  -- succeeds found the run that it names open; it adds to the log, at its end, the events that its
  -- kind and its commands call for, in their order, gives the run the next version, and leaves its
  -- status unless it fails the run or one of its commands completes it.
  pub handle-Effect :
      (req : Request) (workflow_id run_id : String) (reply : Reply)
      → changed_run req ≡ some (workflow_id, run_id)
      → (handle env req w).0 ≡ ok reply
      → Changed req workflow_id run_id (handle env req w).1
  unfolding handle record_workflow_task_started record_workflow_task_completed
      record_workflow_task_failed record_activity_task_started record_activity_task_completed
      record_activity_task_failed signal_workflow_execution
  handle-Effect (workflow_task_started r) wf id reply own h =
      named (workflow_task_started r) (handle env (workflow_task_started r) w).1 own (
        handled (workflow_task_started r) r.workflow_id r.run_id (start_workflow_task env r)
          (λ exec. started env w exec r) reply h)
  handle-Effect (workflow_task_completed r) wf id reply own h =
      named (workflow_task_completed r) (handle env (workflow_task_completed r) w).1 own (
        handled (workflow_task_completed r) r.workflow_id r.run_id (complete_workflow_task env r)
          (λ exec. completed_task env w exec r) reply h)
  handle-Effect (workflow_task_failed r) wf id reply own h =
      named (workflow_task_failed r) (handle env (workflow_task_failed r) w).1 own (
        handled (workflow_task_failed r) r.workflow_id r.run_id (fail_workflow_task env r)
          (λ exec. failed_task env w exec r) reply h)
  handle-Effect (activity_task_started r) wf id reply own h =
      named (activity_task_started r) (handle env (activity_task_started r) w).1 own (
        handled (activity_task_started r) r.workflow_id r.run_id (start_activity env r)
          (λ exec. activity_started env w exec r) reply h)
  handle-Effect (activity_task_completed r) wf id reply own h =
      named (activity_task_completed r) (handle env (activity_task_completed r) w).1 own (
        handled (activity_task_completed r) r.workflow_id r.run_id (complete_activity env r)
          (λ exec. activity_completed env w exec r) reply h)
  handle-Effect (activity_task_failed r) wf id reply own h =
      named (activity_task_failed r) (handle env (activity_task_failed r) w).1 own (
        handled (activity_task_failed r) r.workflow_id r.run_id (fail_activity env r)
          (λ exec. activity_failed env w exec r) reply h)
  handle-Effect (workflow_execution_signaled r) wf id reply own h =
      named (workflow_execution_signaled r) (handle env (workflow_execution_signaled r) w).1 own (
        handled (workflow_execution_signaled r) r.workflow_id r.run_id (signal_run env r)
          (λ exec. signaled env w exec r) reply h)
  handle-Effect (workflow_execution_started r) wf id reply own h = cc
  handle-Effect (activity_task_heartbeat r) wf id reply own h = cc
  handle-Effect (workflow_execution_queried r) wf id reply own h = cc
  handle-Effect (history_read r) wf id reply own h = cc
