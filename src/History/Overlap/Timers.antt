-- ===== src/History/Overlap/Timers.antt =====
-- The rest of a timer of history/internal/service/timer_processor.go, against the specification
-- `Changes`.
use mini_workflow.Prelude.{String, ◌≡◌, refl, Bool, some, none}
use mini_workflow.Api.{internal}
use mini_workflow.History.Models.{
  WorkflowExecution, WorkflowStatus, Timer, TimerType, timed_out, user, workflow_timeout,
  activity_timeout, workflow_task_timeout,
}
use mini_workflow.History.Backend.{Backend}
use mini_workflow.History.Postgres.{get_workflow_execution}
use mini_workflow.History.Postgres.Find.{find_execution-key}
use mini_workflow.History.Changes.{Changes-if, same}
use mini_workflow.History.World.{World, Env, Exec, ◌>>=◌, pure, query, add_workflow_task}
use mini_workflow.History.Service.Rules.{query-cases, get_workflow_execution-ok}
use mini_workflow.History.Service.Evolution.{add_workflow_task-db}
use mini_workflow.Prelude.{Option}
use mini_workflow.History.TimerProcessor.{record_timer, wake_for}
use mini_workflow.History.TimerProcessor.Evolution.{
  record_timer-Evolves, fire-Evolves, continue-db, Closes,
}
use mini_workflow.History.Overlap.{begin_kind, begin_timer}
use mini_workflow.History.Handler.{replied, done}
use mini_workflow.History.Overlap.Rests.{Changes-Current, found_itself, Begun, replied-world}

module _ ⦃b : Backend⦄ (env : Env) (apart : Bool) where
  timer_run :
      (t : Timer) (kind : String) (status : Option WorkflowStatus)
      (g : WorkflowExecution → Exec (Unit {0})) (w : World)
      → Closes status
      → ((exec : WorkflowExecution) (w' : World) → (g exec w').1.db ≡ w'.db)
      → Begun apart w (
          (query internal "" (get_workflow_execution (env.db_fault 2) t.key) >>= λ exec.
          pure (λ w'. replied (λ _. done) ((record_timer env t kind status exec >>= g) w')))
            w)
  timer_run t kind status g w closes quiet =
      query-cases (Begun apart w)
        (λ exec. pure (λ w'. replied (λ _. done) ((record_timer env t kind status exec >>= g) w')))
        w internal "" (get_workflow_execution (env.db_fault 2) t.key) (λ s. same)
        λ exec h. (
          same,
          λ w' c. rw replied-world (
              rw (continue-db env (record_timer env t kind status exec w') g quiet) (
                Changes-if (
                  record_timer-Evolves env t exec w'
                    (find_execution-key t.key w.db.executions exec
                      (get_workflow_execution-ok (env.db_fault 2) t.key w.db h))
                    (Changes-Current exec (found_itself t.key (env.db_fault 2) w.db h) c) kind
                    status closes))),
        )

  begin_kind-Begun :
      (kind : TimerType) (t : Timer) (w : World) → Begun apart w (begin_kind env kind t w)
  begin_kind-Begun user t w =
      timer_run t "TimerFired" none (λ exec. add_workflow_task env 0 (wake_for env t exec)) w tt
        (λ exec w'. add_workflow_task-db env 0 w' _)
  begin_kind-Begun workflow_timeout t w =
      timer_run t "WorkflowExecutionTimedOut" (some timed_out) (λ exec. pure tt) w refl
        (λ exec w'. refl)
  begin_kind-Begun activity_timeout t w =
      (same, λ w' c. rw replied-world (Changes-if (fire-Evolves env t w')))
  begin_kind-Begun workflow_task_timeout t w =
      (same, λ w' c. rw replied-world (Changes-if (fire-Evolves env t w')))

  pub begin_timer-Begun : (t : Timer) (w : World) → Begun apart w (begin_timer env t w)
  unfolding begin_timer
  begin_timer-Begun t w = begin_kind-Begun t.timer_type t w
