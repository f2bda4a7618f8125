-- ===== src/History/Service/Start.antt =====
-- The start of a run: who is refused, and what a start leaves.
use mini_workflow.Prelude.{
  ◌≡◌, refl, ap, ◌∙◌, String, false, ◌&&◌, ◌||◌, Option, none, some, List, [], ◌∷◌, ◌++◌, All,
  arith, concat, inl, inr, Bool-cases, str_eq, eq_refl,
}
use mini_workflow.Result.{Result, ok, err}
use mini_workflow.Api.{Status, StartWorkflowRequest, already_exists, internal}
use mini_workflow.Matching.Service.{is_blank}
use mini_workflow.Codec.{json, text, blob_of, object, end, field}
use mini_workflow.History.Models.{WorkflowExecution, running}
use mini_workflow.History.Backend.{Backend}
use mini_workflow.History.Postgres.{
  Database, find_execution, first_running, find_running_workflow, create_workflow_execution,
  is_running,
}
use mini_workflow.History.Postgres.Find.{same_run_refl}
use mini_workflow.History.Postgres.Create.{create-Created, find-Created, inserted}
use mini_workflow.History.Postgres.Update.{stamp}
use mini_workflow.History.World.{World, Env, ◌>>◌, pure, write, add_workflow_task}
use mini_workflow.History.Service.Load.{new_event, wake, default_run}
use mini_workflow.History.Service.Evolution.Start.{find_running_workflow-none}
use mini_workflow.History.Service.Queued.{with_workflow_task, add_workflow_task-queued}
use mini_workflow.History.Service.Rules.{query-cases, write-cases}
use mini_workflow.History.Service.Workflow.{
  start, record_workflow_execution_started, first_execution, started_payload, refuse_running,
}

module _ ⦃b : Backend⦄ (env : Env) (w : World) (sr : StartWorkflowRequest) where
  -- A row that is no open run of the workflow.
  abbrev pub IsApart : WorkflowExecution → Type 0
  IsApart e =
      (str_eq e.namespace "default" && str_eq e.workflow_id sr.workflow_id && is_running e.status)
      ≡ false

  first_running-found :
      (before after : List WorkflowExecution) (existing : WorkflowExecution)
      → All IsApart before
      → existing.namespace ≡ "default"
      → existing.workflow_id ≡ sr.workflow_id
      → existing.status ≡ running
      → first_running "default" sr.workflow_id (before ++ existing ∷ after) ≡ some existing
  unfolding first_running
  first_running-found [] after existing apart ns wf open_now =
      rw (ns, wf, open_now, eq_refl sr.workflow_id) refl
  first_running-found (e ∷ before) after existing (other, apart) ns wf open_now =
      rw other (first_running-found before after existing apart ns wf open_now)

  -- While a run of a workflow is open, wherever its row stands in the table, the request to start one
  -- is refused with AlreadyExists and the id of the first such run, and nothing changes; the request
  -- names a workflow and a type, and the look for a run succeeds.
  pub start-running :
      (before after : List WorkflowExecution) (existing : WorkflowExecution)
      → w.db.executions ≡ before ++ existing ∷ after
      → All IsApart before
      → existing.namespace ≡ "default"
      → existing.workflow_id ≡ sr.workflow_id
      → existing.status ≡ running
      → (is_blank sr.workflow_id || is_blank sr.workflow_type) ≡ false
      → env.db_fault 0 ≡ none
      → record_workflow_execution_started env (record { start_request = some sr }) w ≡ (
        err (record {
          code = already_exists;
          message = concat (
              "workflow "
              ∷ sr.workflow_id
              ∷ " is already running (run_id: "
              ∷ b.print_uuid existing.run_id
              ∷ ")"
              ∷ []);
        }),
        w,
      )
  unfolding record_workflow_execution_started start find_running_workflow
  start-running before after existing rows apart ns wf open_now named up =
      rw (named, up, rows, first_running-found before after existing apart ns wf open_now) refl

  -- What a start leaves, of which the reply is the id.
  abbrev pub Began : String → World → Type 0
  Began id w' =
      (id ≡ b.print_uuid (env.uuid 0))
      × (first_running "default" sr.workflow_id w.db.executions ≡ none)
      × (find_execution (default_run sr.workflow_id (env.uuid 0)) w.db.executions ≡ none)
      × (find_execution (default_run sr.workflow_id (env.uuid 0)) w'.db.executions
          ≡ some (inserted env.db_clock (first_execution env sr (env.uuid 0))))
      × (w'.db.events
          ≡ w.db.events
            ++ stamp env.db_clock (
                new_event (first_execution env sr (env.uuid 0)) 1 "WorkflowExecutionStarted"
                  (started_payload env sr (env.uuid 0)))
              ∷ [])
      × (w'.queues
          ≡ (add_workflow_task env 0 (wake (first_execution env sr (env.uuid 0))) w).1.queues)

  -- What a start leaves, written out.
  abbrev pub Started : String → World → Type 0
  Started id w' =
      (id ≡ b.print_uuid (env.uuid 0))
      × (first_running "default" sr.workflow_id w.db.executions ≡ none)
      × (find_execution (default_run sr.workflow_id (env.uuid 0)) w.db.executions ≡ none)
      × (find_execution (default_run sr.workflow_id (env.uuid 0)) w'.db.executions
          ≡ some (record {
            key = record {
              namespace = "default";
              workflow_id = sr.workflow_id;
              run_id = env.uuid 0;
            };
            workflow_type = sr.workflow_type;
            task_queue = sr.task_queue;
            status = running;
            current_version = 1;
            next_event_id = 2;
            input = sr.input;
            result = none;
            start_time = env.db_clock;
            last_updated_time = env.db_clock;
          }))
      × (w'.db.events
          ≡ w.db.events
            ++ (record {
              key = record {
                namespace = "default";
                workflow_id = sr.workflow_id;
                run_id = env.uuid 0;
              };
              event_id = 1;
              event_type = "WorkflowExecutionStarted";
              payload = json (
                  object (
                    field "input" (blob_of sr.input) (
                      field "run_id" (text (b.print_uuid (env.uuid 0))) (
                        field "task_queue" (text sr.task_queue)
                          (field "workflow_type" (text sr.workflow_type) end)))));
              created_at = env.db_clock;
            })
              ∷ [])
      × (w'.queues
          ≡ with_workflow_task env sr.workflow_id (b.print_uuid (env.uuid 0)) sr.workflow_type
              sr.task_queue w.queues)

  abbrev Begins : Result Status String × World → Type 0
  Begins r = (id : String) → r.0 ≡ ok id → Began id r.1

  task_queued :
      (db : Database)
      → add_workflow_task env 0 (wake (first_execution env sr (env.uuid 0))) (record w { db = db })
        ≡ (
          ok tt,
          record w {
            db = db;
            queues =
                (add_workflow_task env 0 (wake (first_execution env sr (env.uuid 0))) w).1.queues;
          },
        )
  unfolding add_workflow_task
  task_queued db = ground arith

  create_step :
      (existing : Option WorkflowExecution)
      → find_running_workflow (env.db_fault 0) "default" sr.workflow_id w.db ≡ ok existing
      → Begins (
          (refuse_running env sr.workflow_id existing
              >> (write "create workflow execution" (
                    create_workflow_execution
                      (env.db_fault 1)
                      env.db_clock
                      (first_execution env sr (env.uuid 0))
                      (new_event
                        (first_execution env sr (env.uuid 0))
                        1
                        "WorkflowExecutionStarted"
                        (started_payload env sr (env.uuid 0))))
                  >> (add_workflow_task env 0 (wake (first_execution env sr (env.uuid 0)))
                      >> pure (b.print_uuid (env.uuid 0)))))
            w)
  create_step (some e) alone = λ id h. cc
  create_step none alone =
      write-cases Begins _ w "create workflow execution"
        (create_workflow_execution (env.db_fault 1) env.db_clock
          (first_execution env sr (env.uuid 0)) _)
        (λ s id h. cc)
        λ db' at.
          let c =
            create-Created env.db_clock (first_execution env sr (env.uuid 0)) _ w.db
              (env.db_fault 1) at in
          let found = find-Created c (default_run sr.workflow_id (env.uuid 0)) in
          rw (task_queued db') λ id h. (
            cc h,
            find_running_workflow-none (env.db_fault 0) sr.workflow_id w.db alone,
            c.fresh,
            rw (same_run_refl (default_run sr.workflow_id (env.uuid 0))) at found,
            c.events,
            refl,
          )

  pub start-Began :
      (id : String)
      → (record_workflow_execution_started env (record { start_request = some sr }) w).0 ≡ ok id
      → Began id (record_workflow_execution_started env (record { start_request = some sr }) w).1
  unfolding record_workflow_execution_started start
  start-Began = elim (Bool-cases (is_blank sr.workflow_id || is_blank sr.workflow_type)) [
    | inl blank ↦ rw blank (λ id h. cc)
    | inr named ↦ rw named (
        query-cases Begins _ w internal "check duplicate"
          (find_running_workflow (env.db_fault 0) "default" sr.workflow_id) (λ s id h. cc)
          λ existing alone. create_step existing alone)
  ]

  -- A start that succeeds found no open run of the workflow, and no run with the new id; it leaves
  -- the run that was asked for, open, at version 1, with the next event 2, and one event more in the
  -- log, its first; the reply is the id of the run. A task of the run is put in its queue if the call
  -- gets through and none of the names in it is empty; else the queues are as they were.
  pub start-ok :
      (id : String)
      → (record_workflow_execution_started env (record { start_request = some sr }) w).0 ≡ ok id
      → Started id (record_workflow_execution_started env (record { start_request = some sr }) w).1
  unfolding new_event
  start-ok id started =
      let (own, alone, fresh, found, log, queues) = start-Began id started in
      (
        own,
        alone,
        fresh,
        found,
        log,
        queues
            ∙ ap (λ r. r.1.queues)
                (add_workflow_task-queued env w (wake (first_execution env sr (env.uuid 0)))),
      )
