-- ===== src/History/Service/Evolution/Start.antt =====
-- record_workflow_execution_started.go against the specification `Changes`.
use mini_workflow.Prelude.{
  String, ◌≡◌, refl, false, ◌||◌, Option, none, some, Bool-cases, Option-cases, inl, inr, arith,
}
use mini_workflow.Api.{StartWorkflowRequest, RecordWorkflowExecutionStartedRequest, internal}
use mini_workflow.Result.{ok}
use mini_workflow.Matching.Service.{is_blank}
use mini_workflow.History.Models.{WorkflowExecution, HistoryEvent}
use mini_workflow.History.Backend.{Backend}
use mini_workflow.History.Postgres.{
  Database, first_running, find_running_workflow, create_workflow_execution,
}
use mini_workflow.History.Postgres.Create.{create-Created}
use mini_workflow.History.Changes.{ChangesIf, same, one, created}
use mini_workflow.History.World.{World, Env, Exec, ◌>>◌, pure, write, add_workflow_task}
use mini_workflow.History.Service.Load.{new_event, wake}
use mini_workflow.History.Service.Workflow.{
  create_run, start, record_workflow_execution_started, first_execution, started_payload,
  refuse_running,
}
use mini_workflow.History.Service.Rules.{query-cases, write-cases}
use mini_workflow.History.Service.Evolution.{Evolves}

pub find_running_workflow-none :
    (fault : Option String) (wf : String) (db : Database)
    → find_running_workflow fault "default" wf db ≡ ok none
    → first_running "default" wf db.executions ≡ none
unfolding find_running_workflow
find_running_workflow-none none wf db h = ground arith
find_running_workflow-none (some e) wf db h = cc

module _ ⦃b : Backend⦄ (env : Env) (w : World) where
  abbrev first_event : StartWorkflowRequest → HistoryEvent
  first_event sr =
      new_event (first_execution env sr (env.uuid 0)) 1 "WorkflowExecutionStarted"
        (started_payload env sr (env.uuid 0))

  create_step :
      (sr : StartWorkflowRequest) (existing : Option WorkflowExecution) (rest : Exec String)
      → find_running_workflow (env.db_fault 0) "default" sr.workflow_id w.db ≡ ok existing
      → ((w' : World) → (rest w').1.db ≡ w'.db)
      → Evolves w (
          (refuse_running env sr.workflow_id existing
              >> (write "create workflow execution" (
                    create_workflow_execution
                      (env.db_fault 1)
                      env.db_clock
                      (first_execution env sr (env.uuid 0))
                      (first_event sr))
                  >> rest))
            w)
  unfolding new_event
  create_step sr none rest alone quiet =
      write-cases (Evolves w) rest w "create workflow execution"
        (create_workflow_execution (env.db_fault 1) env.db_clock
          (first_execution env sr (env.uuid 0)) (first_event sr))
        (λ s. same)
        λ db' at. rw quiet (
          one (
            created env.db_clock _ (first_event sr)
              (create-Created env.db_clock _ (first_event sr) w.db (env.db_fault 1) at) refl refl
              refl (λ _. find_running_workflow-none (env.db_fault 0) sr.workflow_id w.db alone)))
  create_step sr (some e) rest alone quiet = same

  abbrev pub notified : StartWorkflowRequest → Exec String
  notified sr =
      add_workflow_task env 0 (wake (first_execution env sr (env.uuid 0)))
      >> pure (b.print_uuid (env.uuid 0))

  pub db-notified : (sr : StartWorkflowRequest) (w' : World) → (notified sr w').1.db ≡ w'.db
  unfolding add_workflow_task
  db-notified sr w' = ground arith

  -- What follows the check, whatever has happened since.
  pub create_run-ChangesIf :
      (sr : StartWorkflowRequest) → ChangesIf false w.db (create_run env sr w).1.db
  unfolding create_run new_event
  create_run-ChangesIf sr =
      write-cases (λ r. ChangesIf false w.db r.1.db) (notified sr) w "create workflow execution"
        (create_workflow_execution (env.db_fault 1) env.db_clock
          (first_execution env sr (env.uuid 0)) (first_event sr))
        (λ s. same)
        λ db' at. rw db-notified (
          one (
            created env.db_clock _ (first_event sr)
              (create-Created env.db_clock _ (first_event sr) w.db (env.db_fault 1) at) refl refl
              refl (λ h. cc)))

  start-Evolves : (sr : StartWorkflowRequest) → Evolves w (start env sr w)
  unfolding start
  start-Evolves sr =
      query-cases (Evolves w) _ w internal "check duplicate"
        (find_running_workflow (env.db_fault 0) "default" sr.workflow_id) (λ s. same)
        λ existing alone. create_step sr existing (notified sr) alone (db-notified sr)

  pub record_workflow_execution_started-Evolves :
      (req : RecordWorkflowExecutionStartedRequest)
      → Evolves w (record_workflow_execution_started env req w)
  unfolding record_workflow_execution_started
  record_workflow_execution_started-Evolves req = elim (Option-cases req.start_request) [
    | inl e ↦ rw e same
    | inr (sr, e) ↦ rw e (elim (Bool-cases (is_blank sr.workflow_id || is_blank sr.workflow_type)) [
      | inl blank ↦ rw blank same
      | inr named ↦ rw named (start-Evolves sr)
    ])
  ]
