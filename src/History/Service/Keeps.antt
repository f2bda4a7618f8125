-- ===== src/History/Service/Keeps.antt =====
-- What a handler that returns an error leaves: the property, and the handlers that start a run and
-- that record a heartbeat.
use mini_workflow.Prelude.{
  ◌≡◌, refl, String, Bool, true, false, Option, none, some, [], ◌∷◌, inl, inr, if◌then◌else◌,
  Bool-cases, Option-cases, ◌||◌,
}
use mini_workflow.Result.{Result, ok, err}
use mini_workflow.Codec.{is_empty}
use mini_workflow.Api.{Status, internal, not_found, StartWorkflowRequest}
use mini_workflow.Matching.Service.{is_blank}
use mini_workflow.History.Models.{WorkflowExecution, Timer}
use mini_workflow.History.Backend.{Backend}
use mini_workflow.History.Postgres.{
  create_workflow_execution, find_running_workflow, get_workflow_execution,
  update_workflow_execution, is_running,
}
use mini_workflow.History.Postgres.Timers.{update_timer_fire_time}
use mini_workflow.Prelude.Int.{ℤ}
use mini_workflow.History.World.{
  World, Env, ◌>>◌, continue, pure, write, schedule_timer, add_workflow_task,
}
use mini_workflow.History.Service.Load.{wake, new_event, default_run, run_id_from_string}
use mini_workflow.History.Service.Workflow.{
  start, record_workflow_execution_started, first_execution, refuse_running, started_payload,
}
use mini_workflow.History.Service.Heartbeat.{
  record_activity_task_heartbeat, heartbeat, decode_task_token, extended, extend_deadline,
}
use mini_workflow.History.Service.Rules.{
  load_activity-cases, query-cases, write-cases, Result-cases,
}

abbrev pub Keeps : {A : Type 0} → World → Result Status A × World → Type 0
Keeps w r = (s : Status) → r.0 ≡ err s → r.1 ≡ w

module _ {A : Type 0} (w : World) where
  pub failing : (s : Status) → Keeps {A = A} w (err s, w)
  failing s t h = refl

module _ ⦃b : Backend⦄ (env : Env) (w : World) where
  started_run :
      (sr : StartWorkflowRequest) (existing : Option WorkflowExecution)
      → Keeps w (
          (refuse_running env sr.workflow_id existing
              >> (write "create workflow execution" (
                    create_workflow_execution
                      (env.db_fault 1)
                      env.db_clock
                      (first_execution env sr (env.uuid 0))
                      (new_event
                        (first_execution env sr (env.uuid 0))
                        1
                        "WorkflowExecutionStarted"
                        (started_payload env sr (env.uuid 0))))
                  >> (add_workflow_task env 0 (wake (first_execution env sr (env.uuid 0)))
                      >> pure (b.print_uuid (env.uuid 0)))))
            w)
  unfolding add_workflow_task
  started_run sr none =
      write-cases (Keeps w) _ w "create workflow execution"
        (create_workflow_execution (env.db_fault 1) env.db_clock
          (first_execution env sr (env.uuid 0)) _)
        (failing w) λ db' _ s h. cc
  started_run sr (some e) = failing w _

  pub record_workflow_execution_started-Keeps :
      (req : _) → Keeps w (record_workflow_execution_started env req w)
  unfolding record_workflow_execution_started start
  record_workflow_execution_started-Keeps req = elim (Option-cases req.start_request) [
    | inl e ↦ rw e (failing w _)
    | inr (sr, e) ↦ rw e (elim (Bool-cases (is_blank sr.workflow_id || is_blank sr.workflow_type)) [
      | inl blank ↦ rw blank (failing w _)
      | inr named ↦ rw named (
          query-cases (Keeps w) _ w internal "check duplicate"
            (find_running_workflow (env.db_fault 0) "default" sr.workflow_id) (failing w)
            λ existing _. started_run sr existing)
    ])
  ]

  extended-ok :
      (at : ℤ) (found : Result String (Option Timer)) (w : World)
      → (extended env at found w).0 ≡ ok tt
  unfolding schedule_timer
  extended-ok at (err e) w = refl
  extended-ok at (ok none) w = refl
  extended-ok at (ok (some t)) w =
      elim (Result-cases (update_timer_fire_time (env.db_fault 4) t.timer_id at w.db)) [
        | inl (db', e) ↦ rw e refl
        | inr (x, e) ↦ rw e refl
      ]

  then_false :
      (r : Result Status (Unit {0}) × World) → r.0 ≡ ok tt → Keeps w (continue r (λ _. pure false))
  then_false (ok tt, v) e s h = cc
  then_false (err t, v) e s h = cc

  beaten : (exec : WorkflowExecution) (id : String) → Keeps w (heartbeat env exec id w)
  unfolding heartbeat extend_deadline
  beaten exec id = load_activity-cases env (Keeps w) w exec _ id (failing w) λ act _.
      write-cases (Keeps w) _ w "update heartbeat"
        (update_workflow_execution (env.db_fault 2) env.db_clock exec exec.current_version []
          (record act { last_heartbeat = some (env.time 0) } ∷ []) [])
        (failing w) λ db' _. then_false _ (extended-ok _ _ (record w { db = db' }))

  beaten_if :
      (exec : WorkflowExecution) (id : String) (c : Bool)
      → Keeps w ((if c then heartbeat env exec id else pure true) w)
  beaten_if exec id true = beaten exec id
  beaten_if exec id false = λ s h. cc

  pub record_activity_task_heartbeat-Keeps :
      (req : _) → Keeps w (record_activity_task_heartbeat env req w)
  unfolding record_activity_task_heartbeat
  record_activity_task_heartbeat-Keeps req = elim (Bool-cases (is_empty req.task_token)) [
    | inl missing ↦ rw missing (failing w _)
    | inr given ↦ rw given (elim (Result-cases (decode_task_token req.task_token)) [
      | inr (x, e) ↦ rw e (failing w _)
      | inl (tok, e) ↦ rw e (elim (Result-cases (run_id_from_string tok.run_id)) [
        | inr (x, f) ↦ rw f (failing w _)
        | inl (u, f) ↦ rw f (
            query-cases (Keeps w) _ w not_found "workflow execution not found"
              (get_workflow_execution (env.db_fault 0) (default_run tok.workflow_id u)) (failing w)
              λ exec _. beaten_if exec tok.activity_id (is_running exec.status))
      ])
    ])
  ]
