-- ===== src/Scenarios/Deliveries.antt =====
-- Tasks behind others in a queue, a workflow through the three services, and failures of the frontend.
use mini_workflow.Prelude.{◌≡◌, refl, none, some, List, [], ◌∷◌}
use mini_workflow.Prelude.Text.{concat}
use mini_workflow.Prelude.Int.{pos}
use mini_workflow.Result.{ok, err}
use mini_workflow.Api.{unavailable}
use mini_workflow.Codec.{nil, raw, json, text, object, end, field}
use mini_workflow.History.World.{World}
use mini_workflow.Matching.TaskQueue.{Queues, push}
use mini_workflow.Matching.Service.{
  add_workflow_task, add_activity_task, poll_workflow_task_queue, poll_activity_task_queue,
  queue_key,
}
use mini_workflow.Matching.Delivery.{waiting}
use mini_workflow.Matching.Order.{
  Operation, workflow_added, workflow_polled, activity_added, activity_polled, serve_all,
}
use mini_workflow.Matching.Order.Tasks.{add_workflow_task-delivered, add_activity_task-delivered}
use mini_workflow.Frontend.Clients.{HistoryClient}
use mini_workflow.Frontend.Errors.{context_deadline, status, map_downstream_error}
use mini_workflow.Frontend.Handler.{Request, handle, workflow_query}
use mini_workflow.Frontend.Failures.{IsClean, handle-Clean}
use mini_workflow.Frontend.Service.{query_workflow}
use mini_workflow.Services.{history_client, matching_client}
use mini_workflow.Scenarios.{backend, calm, world_of, open_row}
use mini_workflow.Scenarios.Edges.{workflow_request, activity_request}

-- A task waits in each queue.
abbrev busy : Queues
busy =
    (add_activity_task none activity_request
      (add_workflow_task none workflow_request (λ k. [])).1).1

-- Another task is added, a poll fails, another gets the first task.
abbrev workflow_polls : List Operation
workflow_polls =
    workflow_added none workflow_request
    ∷ workflow_polled (some "down") (record { task_queue = "orders"; identity = "v" })
    ∷ workflow_polled none (record { task_queue = "orders"; identity = "v" })
    ∷ []

add_workflow_task-delivered_example :
    (poll_workflow_task_queue none
      (record { task_queue = "orders"; identity = "w" })
      (serve_all workflow_polls
        (add_workflow_task none (record workflow_request { workflow_id = "order-2" }) busy).1)).0
    ≡ ok (record {
      task_token =
          json (object (field "run_id" (text "x") (field "workflow_id" (text "order-2") end)));
      workflow_type = "Order";
      history = [];
    })
unfolding waiting add_workflow_task add_activity_task push queue_key concat
add_workflow_task-delivered_example =
    add_workflow_task-delivered "w" workflow_polls busy
      (record workflow_request { workflow_id = "order-2" }) refl refl refl

abbrev activity_polls : List Operation
activity_polls =
    activity_polled none (record { task_queue = "payments"; identity = "v" })
    ∷ activity_added none activity_request
    ∷ []

add_activity_task-delivered_example :
    (poll_activity_task_queue none
      (record { task_queue = "payments"; identity = "w" })
      (serve_all activity_polls
        (add_activity_task none (record activity_request { activity_id = "refund" }) busy).1)).0
    ≡ ok (record {
      task_token = json (
          object (
            field "activity_id"
              (text "refund")
              (field "run_id" (text "x") (field "workflow_id" (text "order-1") end))));
      activity_id = "refund";
      activity_type = "Charge";
      input = raw [];
      heartbeat_timeout_seconds = pos 30;
    })
unfolding waiting add_workflow_task add_activity_task push queue_key concat
add_activity_task-delivered_example =
    add_activity_task-delivered "w" activity_polls busy
      (record activity_request { activity_id = "refund" }) refl refl refl refl

-- The history service does not answer in time.
abbrev too_late : HistoryClient World
too_late = record (history_client ⦃b = backend⦄ (calm 2)) {
  query_workflow_execution = λ r w. (err context_deadline, w);
}

abbrev query : Request
query =
    workflow_query
      (record { workflow_id = "order-1"; run_id = "x"; query_type = "state"; query_args = nil })

handle-Clean_example : IsClean (
    status (record {
      code = unavailable;
      message = concat ("downstream error" ∷ ": " ∷ "context deadline exceeded" ∷ []);
    }))
unfolding handle query_workflow map_downstream_error
handle-Clean_example = handle-Clean too_late (matching_client (calm 2)) query (world_of open_row)
