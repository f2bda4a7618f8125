-- ===== src/Services/FirstTask.antt =====
-- The worker that polls, at the frontend, the first task of a workflow that a client has started there.
use mini_workflow.Prelude.{
  ◌≡◌, refl, sym, ap, ◌∙◌, String, Bool, true, false, ◌||◌, none, List, [], ◌∷◌, length,
}
use mini_workflow.Prelude.Int.{unix_milli}
use mini_workflow.Result.{ok}
use mini_workflow.Codec.{Bytes, json, text, blob_of, object, end, field}
use mini_workflow.Api.{Command, StartWorkflowRequest, PollWorkflowTaskQueueResponse}
use mini_workflow.Matching.Service.{is_blank, queue_key, default_namespace}
use mini_workflow.Matching.Service
use mini_workflow.Matching.Delivery.{waiting}
use mini_workflow.Matching.Order.{Operation, serve_all, taken}
use mini_workflow.Matching.Order.Tasks.{add_workflow_task-delivered}
use mini_workflow.History.Backend.{Backend}
use mini_workflow.History.Postgres.Log.{IsGapless}
use mini_workflow.History.World.{World, Env}
use mini_workflow.History.Service.Load.{wake, new_event}
use mini_workflow.History.Service.Workflow.{first_execution, proto_event}
use mini_workflow.History.Service.Start.{Began}
use mini_workflow.Frontend.Service.{
  start_workflow, poll_workflow_task_queue, respond_workflow_task_completed, downstream,
}
use mini_workflow.Frontend.Laws.{poll_workflow_task_queue-respond}
use mini_workflow.Services.Started.{
  first_event, answer, sent, first_log, read_first, began, start_named, polled-ok,
}
use mini_workflow.Services.{received, history_client, matching_client}

module _ ⦃b : Backend⦄ (env : Env) (w : World) (sr : StartWorkflowRequest) where
  either_named : (c d : Bool) → c ≡ false → d ≡ false → (c || d) ≡ false
  either_named c d h k = rw (h, k) refl

  abbrev delivered_task : String → PollWorkflowTaskQueueResponse
  delivered_task run = record {
    task_token =
        json (object (field "run_id" (text run) (field "workflow_id" (text sr.workflow_id) end)));
    workflow_type = sr.workflow_type;
    history = [];
  }

  -- The task is the next that the matching service gives out.
  delivered :
      (env' : Env) (id identity : String) (os : List Operation)
      → Began env w sr id (answer env w sr)
      → (is_blank sr.workflow_id || is_blank (b.print_uuid (env.uuid 0))) ≡ false
      → is_blank sr.task_queue ≡ false
      → env.is_lost 0 ≡ false
      → env.queue_fault 0 ≡ none
      → env'.queue_fault 0 ≡ none
      → taken (queue_key default_namespace sr.task_queue "workflow") os
        ≡ length (waiting (w.queues (queue_key default_namespace sr.task_queue "workflow")))
      → (Service.poll_workflow_task_queue
          (env'.queue_fault 0)
          (record { task_queue = sr.task_queue; identity = identity })
          (serve_all os (answer env w sr).queues)).0
        ≡ ok (delivered_task (b.print_uuid (env.uuid 0)))
  delivered env' id identity os (_, _, _, _, _, queues) ids queue arrives redis redis' all =
      rw (redis', queues, sent env w sr arrives redis)
        (add_workflow_task-delivered identity os w.queues
          (wake (first_execution env sr (env.uuid 0))) ids queue all)

  workflow_named : (c d : Bool) → (c || d) ≡ false → c ≡ false
  workflow_named false d h = refl
  workflow_named true d h = cc

  -- A workflow that a client starts at the frontend reaches a worker: a start that succeeds leaves a
  -- task, and after any requests to the matching service, with any failures, that have taken as many
  -- tasks from its queue as waited there before, a worker that polls it gets the first event of the
  -- run, WorkflowExecutionStarted with the number 1, and a token that makes the frontend record the commands it responds with for that run. The
  -- queue and the id of the run are not empty, the request to the matching service and the polls
  -- reach Redis, the read of the history succeeds, and the database had no gap and has not changed.
  pub start_workflow-poll :
      (env' : Env) (id identity : String) (os : List Operation) (commands : List Command)
      (s₁ : World)
      → (start_workflow (history_client env) (matching_client env) sr w).0 ≡ ok id
      → is_blank sr.task_queue ≡ false
      → is_blank id ≡ false
      → env.is_lost 0 ≡ false
      → env.queue_fault 0 ≡ none
      → env'.queue_fault 0 ≡ none
      → env'.db_fault 0 ≡ none
      → IsGapless w.db
      → taken (queue_key default_namespace sr.task_queue "workflow") os
        ≡ length (waiting (w.queues (queue_key default_namespace sr.task_queue "workflow")))
      → (token : Bytes) × ((poll_workflow_task_queue
            (history_client env')
            (matching_client env')
            (record { task_queue = sr.task_queue; identity = identity })
            (record (answer env w sr) { queues = serve_all os (answer env w sr).queues })).0
          ≡ ok (record {
            task_token = token;
            workflow_type = sr.workflow_type;
            history =
                (record {
                  event_id = 1;
                  event_type = "WorkflowExecutionStarted";
                  payload = json (
                      object (
                        field "input" (blob_of sr.input) (
                          field "run_id" (text id) (
                            field "task_queue"
                              (text sr.task_queue)
                              (field "workflow_type" (text sr.workflow_type) end)))));
                  timestamp = unix_milli env.db_clock;
                })
                ∷ [];
          }))
        × (respond_workflow_task_completed
              (history_client env')
              (matching_client env')
              (record { task_token = token; commands = commands; identity = identity })
              s₁
            ≡ downstream
                ((history_client env').record_workflow_task_completed
                  (record { workflow_id = sr.workflow_id; run_id = id; commands = commands }))
                s₁)
  unfolding new_event
  start_workflow-poll env' id identity os commands s₁ started queue id_named arrives redis redis' up
        g all =
      let named = start_named env w sr id started in
      let (own_id, alone, fresh, found, log, queues) = began env w sr named id started in
      let run = b.print_uuid (env.uuid 0) in
      let ids : (is_blank sr.workflow_id || is_blank run) ≡ false =
        either_named (is_blank sr.workflow_id) (is_blank run)
          (workflow_named (is_blank sr.workflow_id) (is_blank sr.workflow_type) named)
          (ap is_blank (sym own_id) ∙ id_named) in
      let waiting_tasks = serve_all os (answer env w sr).queues in
      let poll =
        Service.poll_workflow_task_queue (env'.queue_fault 0)
          (record { task_queue = sr.task_queue; identity = identity }) waiting_tasks in
      let after : World = record (answer env w sr) { queues = poll.1 } in
      let (token, got, responded, failed) =
        poll_workflow_task_queue-respond (history_client env') (matching_client env')
          (record {
            workflow_id = sr.workflow_id;
            run_id = run;
            workflow_type = sr.workflow_type;
            task_queue = sr.task_queue;
          })
          (record { task_queue = sr.task_queue; identity = identity }) (delivered_task run)
          (proto_event env' (first_event env w sr) ∷ [])
          (record (answer env w sr) { queues = serve_all os (answer env w sr).queues }) after after
          s₁ commands "" identity
          (polled-ok poll (delivered_task run) (record (answer env w sr) { queues = waiting_tasks })
            (delivered env' id identity os (began env w sr named id started) ids queue arrives redis
              redis' all))
          refl
          (ap received (
            read_first env w sr env' after up
              (first_log env w sr (answer env w sr).db g fresh log))) in
      (token, rw own_id (ap (λ r. r.0) got), responded ∙ rw own_id refl)
