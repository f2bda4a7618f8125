-- ===== src/History/Service/Errors.antt =====
-- What a handler of history/internal/service leaves when it returns an error, which comes before the
-- one transaction of the handler or from it.
use mini_workflow.Prelude.{◌≡◌, refl, Bool, true, false, [], inl, inr, if◌then◌else◌, ltb, length}
use mini_workflow.Result.{Result, ok, err}
use mini_workflow.Api.{Status, RecordActivityTaskFailedRequest}
use mini_workflow.History.Models.{WorkflowExecution, ActivityState}
use mini_workflow.History.Backend.{Backend}
use mini_workflow.History.World.{World, Env, schedule_timer, add_workflow_task}
use mini_workflow.History.Service.Workflow.{
  record_workflow_task_started, record_workflow_task_failed, signal_workflow_execution,
}
use mini_workflow.History.Service.Activity.{
  record_activity_task_started, record_activity_task_completed, record_activity_task_failed,
  retry_activity, give_up_activity, max_activity_attempts,
}
use mini_workflow.History.Service.Commands.{
  first_batch, run_commands, record_workflow_task_completed,
}
use mini_workflow.History.Service.Reads.{
  query_workflow_execution-world, get_workflow_execution_history-world,
}
use mini_workflow.History.Service.Rules.{
  load_running-cases, load_activity-cases, commit-cases, commit-last, Result-cases,
}
use mini_workflow.History.Service.Evolution.{schedule_timers_lem, enqueue_activities_lem}
use mini_workflow.History.Handler.{
  Request, Reply, handle, replied, workflow_execution_started, workflow_task_started,
  workflow_task_completed, workflow_task_failed, activity_task_started, activity_task_completed,
  activity_task_failed, activity_task_heartbeat, workflow_execution_signaled,
  workflow_execution_queried, history_read,
}
use mini_workflow.History.Service.Keeps.{
  Keeps, failing, record_workflow_execution_started-Keeps, record_activity_task_heartbeat-Keeps,
}

module _ ⦃b : Backend⦄ (env : Env) (w : World) where
  record_workflow_task_started-Keeps : (req : _) → Keeps w (record_workflow_task_started env req w)
  unfolding record_workflow_task_started schedule_timer
  record_workflow_task_started-Keeps req =
      load_running-cases env (Keeps w) w _ req.workflow_id req.run_id (failing w) λ exec _ _.
        commit-cases env (Keeps w) w 1 _ exec.current_version _ [] _ _ (failing w)
          λ db' _. λ s h. cc

  record_workflow_task_failed-Keeps : (req : _) → Keeps w (record_workflow_task_failed env req w)
  unfolding record_workflow_task_failed
  record_workflow_task_failed-Keeps req =
      load_running-cases env (Keeps w) w _ req.workflow_id req.run_id (failing w) λ exec _ _.
        commit-last env (Keeps w) w 1 _ exec.current_version _ [] [] (failing w) λ db' _ s h. cc

  signal_workflow_execution-Keeps : (req : _) → Keeps w (signal_workflow_execution env req w)
  unfolding signal_workflow_execution add_workflow_task
  signal_workflow_execution-Keeps req =
      load_running-cases env (Keeps w) w _ req.workflow_id req.run_id (failing w) λ exec _ _.
        commit-cases env (Keeps w) w 1 _ exec.current_version _ [] [] _ (failing w) λ db' _ s h. cc

  record_activity_task_started-Keeps : (req : _) → Keeps w (record_activity_task_started env req w)
  unfolding record_activity_task_started
  record_activity_task_started-Keeps req =
      load_running-cases env (Keeps w) w _ req.workflow_id req.run_id (failing w) λ exec _ _.
        commit-last env (Keeps w) w 1 _ exec.current_version _ _ [] (failing w) λ db' _ s h. cc

  record_activity_task_completed-Keeps :
      (req : _) → Keeps w (record_activity_task_completed env req w)
  unfolding record_activity_task_completed add_workflow_task
  record_activity_task_completed-Keeps req =
      load_running-cases env (Keeps w) w _ req.workflow_id req.run_id (failing w) λ exec _ _.
        load_activity-cases env (Keeps w) w exec _ req.activity_id (failing w) λ act _.
          commit-cases env (Keeps w) w 2 _ exec.current_version _ _ [] _ (failing w) λ db' _ s h. cc

  retry_or_not :
      (req : RecordActivityTaskFailedRequest) (exec : WorkflowExecution) (act : ActivityState)
      (c : Bool)
      → Keeps w
          ((if c then retry_activity env req exec act else give_up_activity env req exec act) w)
  unfolding retry_activity give_up_activity schedule_timer add_workflow_task
  retry_or_not req exec act true =
      commit-cases env (Keeps w) w 2 _ exec.current_version _ _ _ _ (failing w) λ db' _ s h. cc
  retry_or_not req exec act false =
      commit-cases env (Keeps w) w 2 _ exec.current_version _ _ [] _ (failing w) λ db' _ s h. cc

  record_activity_task_failed-Keeps : (req : _) → Keeps w (record_activity_task_failed env req w)
  unfolding record_activity_task_failed
  record_activity_task_failed-Keeps req =
      load_running-cases env (Keeps w) w _ req.workflow_id req.run_id (failing w) λ exec _ _.
        load_activity-cases env (Keeps w) w exec _ req.activity_id (failing w)
          λ act _. retry_or_not req exec act (ltb act.attempt max_activity_attempts)

  record_workflow_task_completed-Keeps :
      (req : _) → Keeps w (record_workflow_task_completed env req w)
  unfolding record_workflow_task_completed
  record_workflow_task_completed-Keeps req =
      load_running-cases env (Keeps w) w _ req.workflow_id req.run_id (failing w) λ exec _ _.
        elim (Result-cases
          (run_commands env 0 req.commands (first_batch env exec (length req.commands)))) [
            | inr (s, e) ↦ rw e (failing w s)
            | inl (x, e) ↦ rw e (
                commit-cases env (Keeps w) w 1 _ exec.current_version x.events x.activities x.timers
                  _ (failing w)
                  λ db' _.
                    let (s, timed) = schedule_timers_lem env 0 x.timers (record w { db = db' }) in
                    let (q, sent) =
                      enqueue_activities_lem env 0 x.tasks
                        (record w { db = db'; timer_store = s }) in
                    rw (timed, sent) (λ s h. cc))
          ]

  relayed :
      {A : Type 0} (reply : A → Reply) (r : Result Status A × World)
      → Keeps w r
      → Keeps w (replied reply r)
  relayed reply (ok a, v) keeps s h = cc
  relayed reply (err t, v) keeps s h = keeps t refl

  -- Whatever request fails, for whatever reason, has changed nothing: the database, the timers in
  -- Redis and the queues are as they were before it.
  pub handle-error :
      (req : Request) (s : Status) → (handle env req w).0 ≡ err s → (handle env req w).1 ≡ w
  unfolding handle
  handle-error (workflow_execution_started r) =
      relayed _ _ (record_workflow_execution_started-Keeps env w r)
  handle-error (workflow_task_started r) = relayed _ _ (record_workflow_task_started-Keeps r)
  handle-error (workflow_task_completed r) = relayed _ _ (record_workflow_task_completed-Keeps r)
  handle-error (workflow_task_failed r) = relayed _ _ (record_workflow_task_failed-Keeps r)
  handle-error (activity_task_started r) = relayed _ _ (record_activity_task_started-Keeps r)
  handle-error (activity_task_completed r) = relayed _ _ (record_activity_task_completed-Keeps r)
  handle-error (activity_task_failed r) = relayed _ _ (record_activity_task_failed-Keeps r)
  handle-error (activity_task_heartbeat r) =
      relayed _ _ (record_activity_task_heartbeat-Keeps env w r)
  handle-error (workflow_execution_signaled r) = relayed _ _ (signal_workflow_execution-Keeps r)
  handle-error (workflow_execution_queried r) =
      relayed _ _ (λ s h. query_workflow_execution-world env w r)
  handle-error (history_read r) = relayed _ _ (λ s h. get_workflow_execution_history-world env w r)
