-- ===== src/Services/Started.antt =====
-- A workflow that a client starts at the frontend: its run, its log and its task.
use mini_workflow.Prelude.{
  ◌≡◌, subst, refl, sym, ap, ◌∙◌, String, false, ◌||◌, none, some, List, [], ◌∷◌, ◌++◌, map,
  Bool-cases, inl, inr, keep-append,
}
use mini_workflow.Result.{Result, ok, err}
use mini_workflow.Api.{Status, StartWorkflowRequest}
use mini_workflow.Matching.TaskQueue.{Queues}
use mini_workflow.Matching.Service.{is_blank, queue_key, default_namespace}
use mini_workflow.Matching.Service
use mini_workflow.History.Models
use mini_workflow.History.Models.{Uuid, same_run}
use mini_workflow.History.Backend.{Backend}
use mini_workflow.History.Postgres.{
  Database, find_execution, events_of, order_by_id, insert_by_id, get_history_events,
}
use mini_workflow.History.Postgres.Find.{same_run_refl}
use mini_workflow.History.Postgres.Log.{IsGapless, ids_of}
use mini_workflow.History.Postgres.Update.{stamp}
use mini_workflow.History.World.{World, Env}
use mini_workflow.History.World
use mini_workflow.History.Service.Load.{default_run, new_event, wake, run_id_from_string}
use mini_workflow.History.Service.Workflow.{
  first_execution, started_payload, proto_event, record_workflow_execution_started,
  get_workflow_execution_history,
}
use mini_workflow.History.Service.Start.{start-Began, Began}
use mini_workflow.Frontend.Service.{start_workflow, mapped}
use mini_workflow.Services.{received, polled, history_client, matching_client}

module _ {A : Type 0} where
  passed : (r : Result Status A × World) (a : A) → (mapped (received r)).0 ≡ ok a → r.0 ≡ ok a
  passed (ok x, w) a h = cc
  passed (err s, w) a h = cc

  same_world : (r : Result Status A × World) → (mapped (received r)).1 ≡ r.1
  same_world (ok x, w) = refl
  same_world (err s, w) = refl

  pub polled-ok :
      (r : Result Status A × Queues) (a : A) (w : World)
      → r.0 ≡ ok a
      → polled r w ≡ (ok a, record w { queues = r.1 })
  polled-ok (ok x, q) a w h = cc
  polled-ok (err s, q) a w h = cc

no_events :
    (es : List Models.HistoryEvent)
    → map (λ (e : Models.HistoryEvent). e.event_id) es ≡ []
    → es ≡ []
no_events [] h = refl
no_events (e ∷ es) h = cc

module _ ⦃b : Backend⦄ (env : Env) (w : World) (sr : StartWorkflowRequest) where
  abbrev pub first_event : Models.HistoryEvent
  first_event = stamp env.db_clock (
      new_event (first_execution env sr (env.uuid 0)) 1 "WorkflowExecutionStarted"
        (started_payload env sr (env.uuid 0)))

  own_event :
      events_of (default_run sr.workflow_id (env.uuid 0)) (first_event ∷ []) ≡ first_event ∷ []
  unfolding events_of new_event
  own_event = rw (same_run_refl (default_run sr.workflow_id (env.uuid 0))) refl

  -- The log of the new run is its first event.
  pub first_log :
      (db : Database)
      → IsGapless w.db
      → find_execution (default_run sr.workflow_id (env.uuid 0)) w.db.executions ≡ none
      → db.events ≡ w.db.events ++ first_event ∷ []
      → events_of (default_run sr.workflow_id (env.uuid 0)) db.events ≡ first_event ∷ []
  unfolding events_of ids_of new_event
  first_log db g fresh log =
      let k = default_run sr.workflow_id (env.uuid 0) in
      ap (events_of k) log
      ∙ keep-append (λ e. same_run e.key k) w.db.events (first_event ∷ [])
      ∙ ap (λ l. l ++ events_of k (first_event ∷ []))
          (no_events (events_of k w.db.events) (g.unlogged k fresh))
      ∙ own_event

  pub read_first :
      (env' : Env) (w' : World)
      → env'.db_fault 0 ≡ none
      → events_of (default_run sr.workflow_id (env.uuid 0)) w'.db.events ≡ first_event ∷ []
      → get_workflow_execution_history env'
          (record { workflow_id = sr.workflow_id; run_id = b.print_uuid (env.uuid 0) })
          w'
        ≡ (ok (proto_event env' first_event ∷ []), w')
  unfolding get_workflow_execution_history run_id_from_string get_history_events order_by_id
      insert_by_id
  read_first env' w' up log = rw (b.parse_uuid-print_uuid (env.uuid 0), up, log) refl

  pub sent :
      env.is_lost 0 ≡ false
      → env.queue_fault 0 ≡ none
      → (World.add_workflow_task env 0 (wake (first_execution env sr (env.uuid 0))) w).1.queues
        ≡ (Service.add_workflow_task none (wake (first_execution env sr (env.uuid 0))) w.queues).1
  unfolding World.add_workflow_task
  sent arrives redis = rw (arrives, redis) refl

  abbrev pub answer : World
  answer = (start_workflow (history_client env) (matching_client env) sr w).1

  module _ (named : (is_blank sr.workflow_id || is_blank sr.workflow_type) ≡ false) where
    through :
        start_workflow (history_client env) (matching_client env) sr w
        ≡ mapped (
            received (record_workflow_execution_started env (record { start_request = some sr }) w))
    unfolding start_workflow
    through = rw named refl

    answer-world :
        answer ≡ (record_workflow_execution_started env (record { start_request = some sr }) w).1
    answer-world =
        ap (λ r. r.1) through
        ∙ same_world (record_workflow_execution_started env (record { start_request = some sr }) w)

    recorded :
        (id : String)
        → (start_workflow (history_client env) (matching_client env) sr w).0 ≡ ok id
        → (record_workflow_execution_started env (record { start_request = some sr }) w).0 ≡ ok id
    unfolding start_workflow
    recorded id h =
        passed (record_workflow_execution_started env (record { start_request = some sr }) w) id
          (rw named at h)

    pub began :
        (id : String)
        → (start_workflow (history_client env) (matching_client env) sr w).0 ≡ ok id
        → Began env w sr id answer
    began id h =
        subst (Began env w sr id) (sym answer-world) (start-Began env w sr id (recorded id h))

  pub start_named :
      (id : String)
      → (start_workflow (history_client env) (matching_client env) sr w).0 ≡ ok id
      → (is_blank sr.workflow_id || is_blank sr.workflow_type) ≡ false
  unfolding start_workflow
  start_named id h = elim (Bool-cases (is_blank sr.workflow_id || is_blank sr.workflow_type)) [
    | inl blank ↦ cc (rw blank at h)
    | inr named ↦ named
  ]
