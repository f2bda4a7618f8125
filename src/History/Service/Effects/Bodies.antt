-- ===== src/History/Service/Effects/Bodies.antt =====
-- What each handler of history/internal/service does with the run that it has read, when it succeeds.
use mini_workflow.Prelude.{
  ℕ, ◌≡◌, refl, ap, subst, ◌∙◌, String, Bool, true, false, List, [], ◌∷◌, ◌++◌, length, ltb, inl,
  inr, if◌then◌else◌,
}
use mini_workflow.Result.{Result, ok}
use mini_workflow.Api.{Status, Command, RecordActivityTaskFailedRequest}
use mini_workflow.History.Models.{ActivityState, WorkflowExecution, WorkflowStatus, failed}
use mini_workflow.History.Backend.{Backend}
use mini_workflow.History.Postgres.{Database}
use mini_workflow.History.World.{World, Env}
use mini_workflow.History.Handler.{
  Request, workflow_execution_started, workflow_task_started, workflow_task_completed,
  workflow_task_failed, activity_task_started, activity_task_completed, activity_task_failed,
  activity_task_heartbeat, workflow_execution_signaled, workflow_execution_queried, history_read,
}
use mini_workflow.History.Service.Load.{new_event}
use mini_workflow.History.Service.Workflow.{start_workflow_task, fail_workflow_task, signal_run}
use mini_workflow.History.Service.Activity.{
  start_activity, complete_activity, fail_activity, retry_activity, give_up_activity,
  max_activity_attempts,
}
use mini_workflow.History.Postgres.Update.{Updated}
use mini_workflow.History.Service.Commands.{
  Batch, first_batch, run_commands, complete_workflow_task, append_event,
}
use mini_workflow.History.Service.Batch.{first_batch-IsNumbered, run_commands-IsNumbered}
use mini_workflow.History.Service.Rules.{
  Result-cases, load_activity-cases, commit-cases, commit-last,
}
use mini_workflow.History.Service.Evolution.{
  schedule_timer-db, add_workflow_task-db, schedule_timers_lem, enqueue_activities_lem,
}
use mini_workflow.History.Service.Effects.{
  Effect, Updated-Effect, commands_events, status_after, run_commands-Gains, types,
}

-- The events that a request adds to its run, and the status that it leaves.
abbrev pub request_events : Request → List String
request_events (workflow_task_started r) = "WorkflowTaskStarted" ∷ []
request_events (workflow_task_completed r) = "WorkflowTaskCompleted" ∷ commands_events r.commands
request_events (workflow_task_failed r) = "WorkflowTaskFailed" ∷ "WorkflowExecutionFailed" ∷ []
request_events (activity_task_started r) = "ActivityTaskStarted" ∷ []
request_events (activity_task_completed r) = "ActivityTaskCompleted" ∷ []
request_events (activity_task_failed r) = "ActivityTaskFailed" ∷ []
request_events (workflow_execution_signaled r) = "WorkflowExecutionSignaled" ∷ []
request_events (workflow_execution_started r) = "WorkflowExecutionStarted" ∷ []
request_events (activity_task_heartbeat r) = []
request_events (workflow_execution_queried r) = []
request_events (history_read r) = []

abbrev pub status_left : Request → WorkflowStatus → WorkflowStatus
status_left (workflow_task_completed r) s = status_after r.commands s
status_left (workflow_task_failed r) s = failed
status_left _ s = s

module _ ⦃b : Backend⦄ (env : Env) (w : World) where
  abbrev pub Leaves : Request → WorkflowExecution → Result Status (Unit {0}) × World → Type 0
  Leaves req exec r =
      r.0 ≡ ok tt → Effect (request_events req) (status_left req exec.status) exec w.db r.1.db

  module _ (exec : WorkflowExecution) where
    pub started : (r : _) → Leaves (workflow_task_started r) exec (start_workflow_task env r exec w)
    unfolding start_workflow_task new_event
    started r =
        commit-cases env (Leaves (workflow_task_started r) exec) w 1 _ exec.current_version _ [] _ _
          (λ s h. cc) λ db' u h. rw schedule_timer-db (Updated-Effect exec refl u)

    pub failed_task :
        (r : _) → Leaves (workflow_task_failed r) exec (fail_workflow_task env r exec w)
    unfolding fail_workflow_task new_event
    failed_task r =
        commit-last env (Leaves (workflow_task_failed r) exec) w 1 _ exec.current_version _ [] []
          (λ s h. cc) λ db' u h. Updated-Effect exec refl u

    pub signaled : (r : _) → Leaves (workflow_execution_signaled r) exec (signal_run env r exec w)
    unfolding signal_run new_event
    signaled r =
        commit-cases env (Leaves (workflow_execution_signaled r) exec) w 1 _ exec.current_version _
          [] [] _ (λ s h. cc) λ db' u h. rw add_workflow_task-db (Updated-Effect exec refl u)

    pub activity_started :
        (r : _) → Leaves (activity_task_started r) exec (start_activity env r exec w)
    unfolding start_activity new_event
    activity_started r =
        commit-last env (Leaves (activity_task_started r) exec) w 1 _ exec.current_version _ _ []
          (λ s h. cc) λ db' u h. Updated-Effect exec refl u

    pub activity_completed :
        (r : _) → Leaves (activity_task_completed r) exec (complete_activity env r exec w)
    unfolding complete_activity new_event
    activity_completed r =
        load_activity-cases env (Leaves (activity_task_completed r) exec) w exec _ r.activity_id
          (λ s h. cc)
          λ act _.
            commit-cases env (Leaves (activity_task_completed r) exec) w 2 _ exec.current_version _
              _ [] _ (λ s h. cc) λ db' u h. rw add_workflow_task-db (Updated-Effect exec refl u)

    failed_branch :
        (r : RecordActivityTaskFailedRequest) (act : ActivityState) (c : Bool)
        → Leaves
            (activity_task_failed r)
            exec
            ((if c then retry_activity env r exec act else give_up_activity env r exec act) w)
    unfolding retry_activity give_up_activity new_event
    failed_branch r act true =
        commit-cases env (Leaves (activity_task_failed r) exec) w 2 _ exec.current_version _ _ _ _
          (λ s h. cc) λ db' u h. rw schedule_timer-db (Updated-Effect exec refl u)
    failed_branch r act false =
        commit-cases env (Leaves (activity_task_failed r) exec) w 2 _ exec.current_version _ _ [] _
          (λ s h. cc) λ db' u h. rw add_workflow_task-db (Updated-Effect exec refl u)

    pub activity_failed :
        (r : _) → Leaves (activity_task_failed r) exec (fail_activity env r exec w)
    unfolding fail_activity
    activity_failed r =
        load_activity-cases env (Leaves (activity_task_failed r) exec) w exec _ r.activity_id
          (λ s h. cc) λ act _. failed_branch r act (ltb act.attempt max_activity_attempts)

    first_types :
        (count : ℕ)
        → (types (first_batch env exec count).events ≡ "WorkflowTaskCompleted" ∷ [])
          × ((first_batch env exec count).exec ≡ exec)
    unfolding first_batch append_event new_event
    first_types count = (refl, refl)

    batch-Effect :
        (cmds : List Command) (x : Batch) {db' : Database}
        → run_commands env 0 cmds (first_batch env exec (length cmds)) ≡ ok x
        → Updated env.db_clock
            (record x.exec { next_event_id = x.event_id })
            exec.current_version
            x.events
            x.activities
            x.timers
            w.db
            db'
        → Effect
            ("WorkflowTaskCompleted" ∷ commands_events cmds)
            (status_after cmds exec.status)
            exec
            w.db
            db'
    batch-Effect cmds x {db'} e u =
        let (kinds, same_exec) = first_types (length cmds) in
        let g = run_commands-Gains env 0 cmds (first_batch env exec (length cmds)) e in
        let n =
          run_commands-IsNumbered exec env 0 cmds (first_batch-IsNumbered exec env (length cmds))
            e in
        subst (λ k. Effect k (status_after cmds exec.status) exec w.db db')
          (g.gained ∙ ap (λ l. l ++ commands_events cmds) kinds)
          (subst (λ s. Effect (types x.events) s exec w.db db')
            (g.left ∙ ap (λ (r : WorkflowExecution). status_after cmds r.status) same_exec)
            (Updated-Effect exec n.same_key u))

    pub completed_task :
        (r : _) → Leaves (workflow_task_completed r) exec (complete_workflow_task env r exec w)
    unfolding complete_workflow_task
    completed_task r =
        elim (Result-cases
          (run_commands env 0 r.commands (first_batch env exec (length r.commands)))) [
            | inr (s, e) ↦ rw e (λ h. cc)
            | inl (x, e) ↦ rw e (
                commit-cases env (Leaves (workflow_task_completed r) exec) w 1 _
                  exec.current_version x.events x.activities x.timers _ (λ s h. cc)
                  λ db' u.
                    let (s, timed) = schedule_timers_lem env 0 x.timers (record w { db = db' }) in
                    let (q, sent) =
                      enqueue_activities_lem env 0 x.tasks
                        (record w { db = db'; timer_store = s }) in
                    rw (timed, sent) (λ h. batch-Effect r.commands x e u))
          ]
