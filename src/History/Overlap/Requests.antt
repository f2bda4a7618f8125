-- ===== src/History/Overlap/Requests.antt =====
-- The rest of each request of history/internal/service, against the specification `Changes`.
use mini_workflow.Prelude.{
  String, ◌≡◌, sym, subst, Bool, true, false, ◌&&◌, ◌||◌, some, none, Bool-cases, Option-cases, inl,
  inr,
}
use mini_workflow.Result.{Result, ok, err}
use mini_workflow.Codec.{is_empty}
use mini_workflow.Api.{
  invalid_argument, Status, StartWorkflowRequest, RecordActivityTaskHeartbeatRequest, not_found,
  internal,
}
use mini_workflow.History.Models.{WorkflowExecution}
use mini_workflow.History.Backend.{Backend}
use mini_workflow.History.Postgres.{is_running, get_workflow_execution, find_running_workflow}
use mini_workflow.History.Changes.{ChangesIf, Changes-if, same}
use mini_workflow.History.World.{
  continue, lift, relabel, World, Env, Exec, ◌>>=◌, ◌>>◌, pure, query,
}
use mini_workflow.History.Service.Load.{load_running, default_run, run_id_from_string}
use mini_workflow.History.Service.Workflow.{
  start_workflow_task, fail_workflow_task, signal_run, create_run, refuse_running,
}
use mini_workflow.History.Service.Activity.{start_activity, complete_activity, fail_activity}
use mini_workflow.History.Service.Heartbeat.{
  answer_heartbeat, with_token_run, decode_task_token, TaskToken,
}
use mini_workflow.History.Service.Commands.{complete_workflow_task}
use mini_workflow.Matching.Service.{is_blank}
use mini_workflow.History.Service.Rules.{load_running-cases, query-cases, Result-cases}
use mini_workflow.History.Service.Evolution.{
  Evolves, Current, start_workflow_task-Evolves, fail_workflow_task-Evolves, signal_run-Evolves,
  start_activity-Evolves, complete_activity-Evolves, fail_activity-Evolves,
  complete_workflow_task-Evolves,
}
use mini_workflow.History.Service.Evolution.Heartbeat.{answer_heartbeat-Evolves}
use mini_workflow.History.Service.Evolution.Start.{create_run-ChangesIf}
use mini_workflow.History.Service.Reads.{
  query_workflow_execution-world, get_workflow_execution_history-world,
}
use mini_workflow.Prelude.{ℕ, Option}
use mini_workflow.History.Overlap.{begin, is_start}
use mini_workflow.History.Handler.{
  Request, handle, replied, workflow_execution_started, workflow_task_started,
  workflow_task_completed, workflow_task_failed, activity_task_started, activity_task_completed,
  activity_task_failed, activity_task_heartbeat, workflow_execution_signaled,
  workflow_execution_queried, history_read, done, cancel_requested, run_started,
}
use mini_workflow.History.Overlap.Rests.{Changes-Current, found_itself, Begun, replied-world}

no_start : (apart : Bool) → (apart && true) ≡ false → apart ≡ false
no_start true h = h
no_start false h = h

module _ ⦃b : Backend⦄ (env : Env) (apart : Bool) where
  loaded :
      (workflow_id run_id : String) (w : World) (rest : WorkflowExecution → Exec (Unit {0}))
      → ((exec : WorkflowExecution) (w' : World)
          → Current exec w'.db
          → is_running exec.status ≡ true
          → Evolves w' (rest exec w'))
      → Begun apart w (
          (load_running env workflow_id run_id >>= λ exec.
          pure (λ w'. replied (λ _. done) (rest exec w')))
            w)
  loaded workflow_id run_id w rest safe =
      load_running-cases env (Begun apart w) w
        (λ exec. pure (λ w'. replied (λ _. done) (rest exec w'))) workflow_id run_id (λ s. same)
        λ exec found is_open. (
          same,
          λ w' c.
              rw replied-world (Changes-if (safe exec w' (Changes-Current exec found c) is_open)),
        )

  with_run :
      (tok : TaskToken) (w : World) (parsed : Result String ℕ)
      → Begun apart w (
          (lift (relabel invalid_argument "invalid run_id in token" parsed) >>= λ run.
          query not_found "workflow execution not found"
            (get_workflow_execution (env.db_fault 0) (default_run tok.workflow_id run))
          >>= λ exec.
              pure (λ w'. replied cancel_requested (answer_heartbeat env tok.activity_id exec w')))
            w)
  with_run tok w (err e) = same
  with_run tok w (ok run) =
      query-cases (Begun apart w)
        (λ exec.
          pure (λ w'. replied cancel_requested (answer_heartbeat env tok.activity_id exec w')))
        w not_found "workflow execution not found"
        (get_workflow_execution (env.db_fault 0) (default_run tok.workflow_id run)) (λ s. same)
        λ exec h. (
          same,
          λ w' c. rw replied-world (
              Changes-if (
                answer_heartbeat-Evolves env exec tok.activity_id w' (
                  Changes-Current exec
                    (found_itself (default_run tok.workflow_id run) (env.db_fault 0) w.db h) c))),
        )

  token_run :
      (r : RecordActivityTaskHeartbeatRequest) (w : World)
      → Begun apart w (
          with_token_run env r
            (λ id exec. pure (λ w'. replied cancel_requested (answer_heartbeat env id exec w')))
            w)
  token_run r w = elim (Bool-cases (is_empty r.task_token)) [
    | inl missing ↦ rw missing same
    | inr given ↦ rw given (elim (Result-cases (decode_task_token r.task_token)) [
      | inr (x, e) ↦ rw e same
      | inl (tok, e) ↦ rw e (with_run tok w (run_id_from_string tok.run_id))
    ])
  ]

  start-Begun :
      (sr : StartWorkflowRequest) (r : Result Status (Option WorkflowExecution)) (w : World)
      → apart ≡ false
      → Begun apart w (
          continue
            (r, w)
            (λ existing.
              refuse_running env sr.workflow_id existing
              >> pure (λ w'. replied run_started (create_run env sr w'))))
  start-Begun sr (ok none) w loose = (
    same,
    λ w' c. rw replied-world (
        subst (λ a. ChangesIf a w'.db (create_run env sr w').1.db) (sym loose)
          (create_run-ChangesIf env w' sr)),
  )
  start-Begun sr (ok (some existing)) w loose = same
  start-Begun sr (err e) w loose = same

  -- Where starts are apart, a start does not begin and wait.
  pub begin-Begun :
      (req : Request) (w : World)
      → (apart && is_start req) ≡ false
      → Begun apart w (begin env req w)
  unfolding begin handle
  begin-Begun (workflow_execution_started r) w loose = elim (Option-cases r.start_request) [
    | inl missing ↦ rw missing same
    | inr (sr, e) ↦ rw e (elim (Bool-cases (is_blank sr.workflow_id || is_blank sr.workflow_type)) [
      | inl blank ↦ rw blank same
      | inr named ↦ rw named (
          start-Begun sr
            (relabel internal "check duplicate"
              (find_running_workflow (env.db_fault 0) "default" sr.workflow_id w.db))
            w (no_start apart loose))
    ])
  ]
  begin-Begun (workflow_task_started r) w loose =
      loaded r.workflow_id r.run_id w (start_workflow_task env r)
        (λ exec w' c o. start_workflow_task-Evolves env exec w' c o r)
  begin-Begun (workflow_task_completed r) w loose =
      loaded r.workflow_id r.run_id w (complete_workflow_task env r)
        (λ exec w' c o. complete_workflow_task-Evolves env exec w' c o r)
  begin-Begun (workflow_task_failed r) w loose =
      loaded r.workflow_id r.run_id w (fail_workflow_task env r)
        (λ exec w' c o. fail_workflow_task-Evolves env exec w' c o r)
  begin-Begun (activity_task_started r) w loose =
      loaded r.workflow_id r.run_id w (start_activity env r)
        (λ exec w' c o. start_activity-Evolves env exec w' c o r)
  begin-Begun (activity_task_completed r) w loose =
      loaded r.workflow_id r.run_id w (complete_activity env r)
        (λ exec w' c o. complete_activity-Evolves env exec w' c o r)
  begin-Begun (activity_task_failed r) w loose =
      loaded r.workflow_id r.run_id w (fail_activity env r)
        (λ exec w' c o. fail_activity-Evolves env exec w' c o r)
  begin-Begun (activity_task_heartbeat r) w loose = token_run r w
  begin-Begun (workflow_execution_signaled r) w loose =
      loaded r.workflow_id r.run_id w (signal_run env r)
        (λ exec w' c o. signal_run-Evolves env exec w' c o r)
  begin-Begun (workflow_execution_queried r) w loose =
      (same, λ w' c. rw (replied-world, query_workflow_execution-world) same)
  begin-Begun (history_read r) w loose =
      (same, λ w' c. rw (replied-world, get_workflow_execution_history-world) same)
