-- ===== src/History/Races.antt =====
-- Two starts of one workflow that overlap: both handlers of history/internal/service look for an open
-- run before the first creation.
use mini_workflow.Prelude.{◌≡◌, refl, sym, ap, subst, ◌∙◌, String, false, ◌||◌, none, some, [], ◌∷◌}
use mini_workflow.Result.{ok}
use mini_workflow.Api.{StartWorkflowRequest}
use mini_workflow.Matching.Service.{is_blank}
use mini_workflow.History.Backend.{Backend}
use mini_workflow.History.Postgres.{create_workflow_execution, find_running_workflow}
use mini_workflow.History.Changes.OneOpen.{IsSingle}
use mini_workflow.History.World.{World, Env, Exec}
use mini_workflow.History.Handler.{Reply, Request, replied, run_started, workflow_execution_started}
use mini_workflow.History.Overlap.{begin}
use mini_workflow.History.Service.Load.{new_event}
use mini_workflow.History.Service.Workflow.{create_run, first_execution, started_payload}
use mini_workflow.History.Service.Rules.{write-cases}
use mini_workflow.History.Service.Evolution.Start.{db-notified}
use mini_workflow.History.Overlap.Rests.{replied-world}
use mini_workflow.History.Service.Race.{start-race}
use mini_workflow.History.System.{System, Step, Steps, at_rest, begun, resumed, none_yet, then_step}

module _ ⦃b : Backend⦄ (sr : StartWorkflowRequest) where
  -- A creation that succeeds has gone through in the database.
  create_run-ok :
      (env : Env) (w : World) (id : String)
      → (create_run env sr w).0 ≡ ok id
      → create_workflow_execution
          (env.db_fault 1)
          env.db_clock
          (first_execution env sr (env.uuid 0))
          (new_event
            (first_execution env sr (env.uuid 0))
            1
            "WorkflowExecutionStarted"
            (started_payload env sr (env.uuid 0)))
          w.db
        ≡ ok (create_run env sr w).1.db
  unfolding create_run
  create_run-ok env w id =
      write-cases
        (λ r.
          r.0 ≡ ok id
          → create_workflow_execution (env.db_fault 1) env.db_clock
              (first_execution env sr (env.uuid 0))
              (new_event (first_execution env sr (env.uuid 0)) 1 "WorkflowExecutionStarted"
                (started_payload env sr (env.uuid 0)))
              w.db
            ≡ ok r.1.db)
        _ w "create workflow execution"
        (create_workflow_execution (env.db_fault 1) env.db_clock
          (first_execution env sr (env.uuid 0))
          (new_event (first_execution env sr (env.uuid 0)) 1 "WorkflowExecutionStarted"
            (started_payload env sr (env.uuid 0))))
        (λ s h. cc) λ db' at h. at ∙ ap ok (sym (db-notified env w sr (record w { db = db' })))

  abbrev request : Request
  request = workflow_execution_started (record { start_request = some sr })

  abbrev rest_of : Env → Exec Reply
  rest_of env w = replied run_started (create_run env sr w)

  start_begins :
      (env : Env) (w : World)
      → (is_blank sr.workflow_id || is_blank sr.workflow_type) ≡ false
      → find_running_workflow (env.db_fault 0) "default" sr.workflow_id w.db ≡ ok none
      → begin env request w ≡ (ok (rest_of env), w)
  unfolding begin
  start_begins env w named alone = rw (named, alone) refl

  begin-Step :
      (env : Env) (s : System)
      → (is_blank sr.workflow_id || is_blank sr.workflow_type) ≡ false
      → find_running_workflow (env.db_fault 0) "default" sr.workflow_id s.world.db ≡ ok none
      → Step false s (record { world = s.world; pending = rest_of env ∷ s.pending })
  begin-Step env s named alone =
      let e = start_begins env s.world named alone in
      subst (λ (w : World). Step false s (record { world = w; pending = rest_of env ∷ s.pending }))
        (ap (λ r. r.1) e) (begun env request (rest_of env) refl (ap (λ r. r.0) e))

  module _ (first second : Env) (w : World) where
    abbrev both : World
    both = (rest_of second (rest_of first w).1).1

    both-created : (create_run second sr (create_run first sr w).1).1 ≡ both
    both-created =
        sym (replied-world run_started (create_run second sr (create_run first sr w).1))
        ∙ ap (λ w'. (rest_of second w').1) (sym (replied-world run_started (create_run first sr w)))

    both_open :
        (i j : String)
        → (create_run first sr w).0 ≡ ok i
        → (create_run second sr (create_run first sr w).1).0 ≡ ok j
        → ¬ IsSingle both.db
    both_open i j created created' =
        subst (λ (w' : World). ¬ IsSingle w'.db) both-created
          (start-race first second sr (first.db_fault 1) (second.db_fault 1) _ _ w.db
            (create_run first sr w).1.db _ (create_run-ok first w i created)
            (create_run-ok second (create_run first sr w).1 j created'))

    -- Two starts of one workflow, both with a look for an open run that finds none before either of them
    -- creates its run, leave two runs of the workflow open, if both creations succeed: steps of the
    -- service lead there. Nothing in the database stands in for the check.
    pub begin-race :
        (i j : String)
        → (is_blank sr.workflow_id || is_blank sr.workflow_type) ≡ false
        → find_running_workflow (first.db_fault 0) "default" sr.workflow_id w.db ≡ ok none
        → find_running_workflow (second.db_fault 0) "default" sr.workflow_id w.db ≡ ok none
        → (create_run first sr w).0 ≡ ok i
        → (create_run second sr (create_run first sr w).1).0 ≡ ok j
        → (s : System) × Steps false (at_rest w) s × (s.pending ≡ []) × ¬ IsSingle s.world.db
    begin-race i j named alone alone' created created' = (
      record { world = both; pending = [] },
      then_step
          (then_step
            (then_step (then_step none_yet (begin-Step first (at_rest w) named alone))
              (begin-Step second (record { world = w; pending = rest_of first ∷ [] }) named alone'))
            (resumed (rest_of second ∷ []) [] (rest_of first) refl))
          (resumed [] [] (rest_of second) refl),
      refl,
      both_open i j created created',
    )
