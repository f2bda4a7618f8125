-- ===== src/History/Overlap.antt =====
-- Requests that overlap. A handler of history/internal/service first reads its run, or looks for one;
-- what it then does waits, while others run, until it goes on: `begin` is the part up to the read,
-- and what it answers is the rest. After that a handler works in one go: what decides is its transaction. So
-- does a timer of timer_processor.go whose firing records an event.
pub mod Whole
pub mod Rests
pub mod Requests
pub mod Timers
use mini_workflow.Prelude.{Bool, true, false, none, some}
use mini_workflow.Api.{internal}
use mini_workflow.History.Models.{
  Timer, TimerType, timed_out, user, workflow_timeout, activity_timeout, workflow_task_timeout,
}
use mini_workflow.History.Backend.{Backend}
use mini_workflow.History.Postgres.{get_workflow_execution}
use mini_workflow.History.World.{Env, Exec, ◌>>=◌, ◌>>◌, pure, query, add_workflow_task}
use mini_workflow.History.Service.Load.{load_running}
use mini_workflow.History.Service.Workflow.{
  start_workflow_task, fail_workflow_task, signal_run, with_start_request, unless_running,
  create_run,
}
use mini_workflow.History.Service.Activity.{start_activity, complete_activity, fail_activity}
use mini_workflow.History.Service.Heartbeat.{answer_heartbeat, with_token_run}
use mini_workflow.History.Service.Commands.{complete_workflow_task}
use mini_workflow.History.TimerProcessor.{record_timer, wake_for, fire}
use mini_workflow.History.Handler.{
  Request, Reply, handle, replied, workflow_execution_started, workflow_task_started,
  workflow_task_completed, workflow_task_failed, activity_task_started, activity_task_completed,
  activity_task_failed, activity_task_heartbeat, workflow_execution_signaled,
  workflow_execution_queried, history_read, done, cancel_requested, run_started,
}

abbrev pub is_start : Request → Bool
is_start (workflow_execution_started r) = true
is_start _ = false

module _ ⦃b : Backend⦄ (env : Env) where
  -- The requests that change nothing wait as a whole; a start looks for a run first.
  unfoldable pub begin : Request → Exec (Exec Reply)
  begin (workflow_execution_started r) =
      with_start_request env r
        (λ sr. unless_running env sr (pure (λ w. replied run_started (create_run env sr w))))
  begin (workflow_task_started r) = do
    exec ← load_running env r.workflow_id r.run_id
    pure (λ w. replied (λ _. done) (start_workflow_task env r exec w))
  begin (workflow_task_completed r) = do
    exec ← load_running env r.workflow_id r.run_id
    pure (λ w. replied (λ _. done) (complete_workflow_task env r exec w))
  begin (workflow_task_failed r) = do
    exec ← load_running env r.workflow_id r.run_id
    pure (λ w. replied (λ _. done) (fail_workflow_task env r exec w))
  begin (activity_task_started r) = do
    exec ← load_running env r.workflow_id r.run_id
    pure (λ w. replied (λ _. done) (start_activity env r exec w))
  begin (activity_task_completed r) = do
    exec ← load_running env r.workflow_id r.run_id
    pure (λ w. replied (λ _. done) (complete_activity env r exec w))
  begin (activity_task_failed r) = do
    exec ← load_running env r.workflow_id r.run_id
    pure (λ w. replied (λ _. done) (fail_activity env r exec w))
  begin (activity_task_heartbeat r) =
      with_token_run env r
        (λ id exec. pure (λ w. replied cancel_requested (answer_heartbeat env id exec w)))
  begin (workflow_execution_signaled r) = do
    exec ← load_running env r.workflow_id r.run_id
    pure (λ w. replied (λ _. done) (signal_run env r exec w))
  begin (workflow_execution_queried r) = pure (handle env (workflow_execution_queried r))
  begin (history_read r) = pure (handle env (history_read r))

  abbrev pub begin_kind : TimerType → Timer → Exec (Exec Reply)
  begin_kind user t = do
    exec ← query internal "" (get_workflow_execution (env.db_fault 2) t.key)
    pure (λ w.
        replied (λ _. done)
          ((record_timer env t "TimerFired" none exec >>= λ exec.
              add_workflow_task env 0 (wake_for env t exec))
            w))
  begin_kind workflow_timeout t = do
    exec ← query internal "" (get_workflow_execution (env.db_fault 2) t.key)
    pure (λ w.
        replied (λ _. done)
          ((record_timer env t "WorkflowExecutionTimedOut" (some timed_out) exec >>= λ exec.
              pure tt)
            w))
  begin_kind activity_timeout t = pure (λ w. replied (λ _. done) (fire env t w))
  begin_kind workflow_task_timeout t = pure (λ w. replied (λ _. done) (fire env t w))

  -- A timer that is marked as fired. Those of activities and of workflow tasks write no row.
  unfoldable pub begin_timer : Timer → Exec (Exec Reply)
  begin_timer t = begin_kind t.timer_type t
