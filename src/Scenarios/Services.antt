-- ===== src/Scenarios/Services.antt =====
-- A workflow through the three services at a concrete input.
use mini_workflow.Prelude.{◌≡◌, refl, [], ◌∷◌}
use mini_workflow.Prelude.Int.{pos, unix_milli}
use mini_workflow.Result.{ok}
use mini_workflow.Codec.{Bytes, json, text, blob_of, object, end, field}
use mini_workflow.Matching.Delivery.{waiting}
use mini_workflow.History.Postgres.{
  find_execution, find_running_workflow, first_running, create_workflow_execution, insert_event,
  has_event,
}
use mini_workflow.History.World.{add_workflow_task}
use mini_workflow.History.Service.Load.{new_event}
use mini_workflow.History.Service.Workflow.{record_workflow_execution_started, start}
use mini_workflow.Frontend.Service.{
  start_workflow, poll_workflow_task_queue, respond_workflow_task_completed, downstream,
}
use mini_workflow.Services.{history_client, matching_client}
use mini_workflow.Services.Started.{answer}
use mini_workflow.Services.FirstTask.{start_workflow-poll}
use mini_workflow.Scenarios.{backend, calm, empty_world, empty-IsGapless, start_request, tally}

begun :
    (start_workflow
      (history_client ⦃b = backend⦄ (calm 1))
      (matching_client (calm 1))
      start_request
      empty_world).0
    ≡ ok "x"
unfolding start_workflow record_workflow_execution_started start find_running_workflow first_running
    create_workflow_execution insert_event has_event add_workflow_task find_execution tally
    new_event
begun = refl

start_workflow-poll_example :
    (token : Bytes) × ((poll_workflow_task_queue
        (history_client ⦃b = backend⦄ (calm 2))
        (matching_client (calm 2))
        (record { task_queue = "orders"; identity = "w" })
        (answer ⦃b = backend⦄ (calm 1) empty_world start_request)).0
      ≡ ok (record {
        task_token = token;
        workflow_type = "Order";
        history =
            (record {
              event_id = 1;
              event_type = "WorkflowExecutionStarted";
              payload = json (
                  object (
                    field "input" (blob_of start_request.input) (
                      field "run_id" (text "x") (
                        field "task_queue"
                          (text "orders")
                          (field "workflow_type" (text "Order") end)))));
              timestamp = unix_milli (pos 1000000000);
            })
            ∷ [];
      }))
    × (respond_workflow_task_completed
          (history_client ⦃b = backend⦄ (calm 2))
          (matching_client (calm 2))
          (record { task_token = token; commands = []; identity = "w" })
          empty_world
        ≡ downstream
            ((history_client ⦃b = backend⦄ (calm 2)).record_workflow_task_completed
              (record { workflow_id = "order-1"; run_id = "x"; commands = [] }))
            empty_world)
unfolding waiting
start_workflow-poll_example =
    start_workflow-poll ⦃b = backend⦄ (calm 1) empty_world start_request (calm 2) "x" "w" [] []
      empty_world begun refl refl refl refl refl refl empty-IsGapless refl
