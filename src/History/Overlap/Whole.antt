-- ===== src/History/Overlap/Whole.antt =====
-- A handler of history/internal/service that is not interrupted.
use mini_workflow.History.TimerProcessor.{fire, process_execution_timer, record_timer, wake_for}
use mini_workflow.Prelude.{Option, none, some, ◌≡◌, refl, ◌||◌, Bool-cases, Option-cases, inl, inr}
use mini_workflow.Result.{Result, ok, err}
use mini_workflow.Codec.{is_empty}
use mini_workflow.Api.{
  Status, StartWorkflowRequest, RecordActivityTaskHeartbeatRequest, not_found, internal,
}
use mini_workflow.History.Models.{
  timed_out, Timer, TimerType, WorkflowExecution, user, workflow_timeout, activity_timeout,
  workflow_task_timeout,
}
use mini_workflow.History.Backend.{Backend}
use mini_workflow.History.World.{
  World, Env, Exec, ◌>>=◌, ◌>>◌, continue, pure, query, add_workflow_task,
}
use mini_workflow.History.Postgres.{get_workflow_execution, find_running_workflow}
use mini_workflow.Matching.Service.{is_blank}
use mini_workflow.History.Service.Rules.{Result-cases}
use mini_workflow.History.Service.Load.{load_running, default_run, run_id_from_string}
use mini_workflow.History.Service.Workflow.{
  record_workflow_task_started, record_workflow_task_failed, signal_workflow_execution,
  start_workflow_task, fail_workflow_task, signal_run, record_workflow_execution_started, start,
  create_run, refuse_running,
}
use mini_workflow.History.Service.Activity.{
  record_activity_task_started, record_activity_task_completed, record_activity_task_failed,
  start_activity, complete_activity, fail_activity,
}
use mini_workflow.History.Service.Heartbeat.{
  record_activity_task_heartbeat, with_token_run, decode_task_token, answer_heartbeat,
}
use mini_workflow.History.Service.Commands.{record_workflow_task_completed, complete_workflow_task}
use mini_workflow.History.Overlap.{begin, begin_timer}
use mini_workflow.History.Handler.{
  Request, Reply, handle, replied, workflow_execution_started, workflow_task_started,
  workflow_task_completed, workflow_task_failed, activity_task_started, activity_task_completed,
  activity_task_failed, activity_task_heartbeat, workflow_execution_signaled,
  workflow_execution_queried, history_read, done, cancel_requested, run_started,
}

resumed :
    {A B : Type 0} (reply : B → Reply) (f : A → Exec B) (r : Result Status A × World)
    → continue (continue r (λ a. pure (λ w. replied reply (f a w)))) (λ rest. rest)
      ≡ replied reply (continue r f)
resumed reply f (ok a, w) = refl
resumed reply f (err e, w) = refl

module _ ⦃b : Backend⦄ (env : Env) where
  resumed_heartbeat :
      (r : RecordActivityTaskHeartbeatRequest) (w : World)
      → (with_token_run env r
              (λ id exec. pure (λ w. replied cancel_requested (answer_heartbeat env id exec w)))
            >>= λ rest. rest)
          w
        ≡ replied cancel_requested (with_token_run env r (answer_heartbeat env) w)
  resumed_heartbeat r w = elim (Bool-cases (is_empty r.task_token)) [
    | inl missing ↦ rw missing refl
    | inr given ↦ rw given (elim (Result-cases (decode_task_token r.task_token)) [
      | inr (x, e) ↦ rw e refl
      | inl (tok, e) ↦ rw e (elim (Result-cases (run_id_from_string tok.run_id)) [
        | inr (x, e) ↦ rw e refl
        | inl (run, e) ↦ rw e (
            resumed cancel_requested (answer_heartbeat env tok.activity_id) (
              query not_found "workflow execution not found"
                (get_workflow_execution (env.db_fault 0) (default_run tok.workflow_id run)) w))
      ])
    ])
  ]

  looked_up :
      (sr : StartWorkflowRequest) (r : Result Status (Option WorkflowExecution) × World)
      → continue
          (continue r (λ existing.
            refuse_running env sr.workflow_id existing
            >> pure (λ w. replied run_started (create_run env sr w))))
          (λ rest. rest)
        ≡ replied run_started (
            continue r
              (λ existing. refuse_running env sr.workflow_id existing >> create_run env sr))
  looked_up sr (ok none, w) = refl
  looked_up sr (ok (some existing), w) = refl
  looked_up sr (err s, w) = refl

  -- A request whose rest follows at once is handled as `handle` says.
  pub begin-handle :
      (req : Request) (w : World) → (begin env req >>= λ rest. rest) w ≡ handle env req w
  unfolding begin handle record_workflow_task_started record_workflow_task_failed
      signal_workflow_execution record_activity_task_started record_activity_task_completed
      record_activity_task_failed record_activity_task_heartbeat record_workflow_task_completed
      record_workflow_execution_started start
  begin-handle (workflow_execution_started r) w = elim (Option-cases r.start_request) [
    | inl missing ↦ rw missing refl
    | inr (sr, e) ↦ rw e (elim (Bool-cases (is_blank sr.workflow_id || is_blank sr.workflow_type)) [
      | inl blank ↦ rw blank refl
      | inr named ↦ rw named (
          looked_up sr (
            query internal "check duplicate"
              (find_running_workflow (env.db_fault 0) "default" sr.workflow_id) w))
    ])
  ]
  begin-handle (workflow_task_started r) w =
      resumed (λ _. done) (start_workflow_task env r) (load_running env r.workflow_id r.run_id w)
  begin-handle (workflow_task_completed r) w =
      resumed (λ _. done) (complete_workflow_task env r) (load_running env r.workflow_id r.run_id w)
  begin-handle (workflow_task_failed r) w =
      resumed (λ _. done) (fail_workflow_task env r) (load_running env r.workflow_id r.run_id w)
  begin-handle (activity_task_started r) w =
      resumed (λ _. done) (start_activity env r) (load_running env r.workflow_id r.run_id w)
  begin-handle (activity_task_completed r) w =
      resumed (λ _. done) (complete_activity env r) (load_running env r.workflow_id r.run_id w)
  begin-handle (activity_task_failed r) w =
      resumed (λ _. done) (fail_activity env r) (load_running env r.workflow_id r.run_id w)
  begin-handle (activity_task_heartbeat r) w = resumed_heartbeat r w
  begin-handle (workflow_execution_signaled r) w =
      resumed (λ _. done) (signal_run env r) (load_running env r.workflow_id r.run_id w)
  begin-handle (workflow_execution_queried r) w = refl
  begin-handle (history_read r) w = refl

  of_query :
      (t : Timer) (f : WorkflowExecution → Exec WorkflowExecution)
      (g : WorkflowExecution → Exec (Unit {0})) (r : Result Status WorkflowExecution × World)
      → continue
          (continue r (λ exec. pure (λ w. replied (λ _. done) ((f exec >>= g) w))))
          (λ rest. rest)
        ≡ replied (λ _. done) (continue (continue r f) g)
  of_query t f g (ok a, w) = refl
  of_query t f g (err e, w) = refl

  -- A timer whose rest follows at once fires as `fire` says.
  pub begin_timer-fire :
      (t : Timer) (w : World)
      → (begin_timer env t >>= λ rest. rest) w ≡ replied (λ _. done) (fire env t w)
  unfolding begin_timer fire process_execution_timer
  begin_timer-fire t w = of_type t.timer_type refl
    where
      of_type :
          (kind : TimerType)
          → t.timer_type ≡ kind
          → (begin_timer env t >>= λ rest. rest) w ≡ replied (λ _. done) (fire env t w)
      of_type user e = rw e (
          of_query t (record_timer env t "TimerFired" none)
            (λ exec. add_workflow_task env 0 (wake_for env t exec))
            (query internal "" (get_workflow_execution (env.db_fault 2) t.key) w))
      of_type workflow_timeout e = rw e (
          of_query t (record_timer env t "WorkflowExecutionTimedOut" (some timed_out))
            (λ exec. pure tt) (query internal "" (get_workflow_execution (env.db_fault 2) t.key) w))
      of_type activity_timeout e = rw e refl
      of_type workflow_task_timeout e = rw e refl
