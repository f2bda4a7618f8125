-- ===== src/Scenarios/Edges.antt =====
-- The frontend and the matching service at concrete inputs.
use mini_workflow.Prelude.{◌≡◌, refl, false, none, some, [], ◌∷◌}
use mini_workflow.Prelude.Int.{pos}
use mini_workflow.Result.{ok, err}
use mini_workflow.Codec.{Bytes, nil, raw, json, text, object, end, field}
use mini_workflow.Api.{
  Status, unavailable, invalid_argument, AddWorkflowTaskRequest, AddActivityTaskRequest,
  PollActivityTaskQueueResponse,
}
use mini_workflow.History.World.{World}
use mini_workflow.Matching.TaskQueue.{push, block_pop}
use mini_workflow.Matching.Service.{
  add_workflow_task, add_activity_task, poll_workflow_task_queue, poll_activity_task_queue,
  activity_token,
}
use mini_workflow.Matching.Delivery.{
  queue_fifo, waiting, add_workflow_task-poll, add_activity_task-poll, activity_of,
}
use mini_workflow.Frontend.Token.{TaskToken, encode, decode}
use mini_workflow.Frontend.RoundTrip.{decode-encode}
use mini_workflow.Frontend.Errors.{status, context_deadline, map_downstream_error, is_timeout}
use mini_workflow.Frontend.Clients.{HistoryClient, MatchingClient}
use mini_workflow.Frontend.Laws.{
  map_downstream_error-timeout, poll_activity_task_queue-respond, status_code,
}
use mini_workflow.Frontend.Service
use mini_workflow.Services.{history_client, heartbeat-refused}
use mini_workflow.Api.{PollWorkflowTaskQueueResponse}
use mini_workflow.Matching.Models.{WorkflowTask}
use mini_workflow.Matching.Service.{workflow_token}
use mini_workflow.Frontend.Laws.{poll_workflow_task_queue-respond}
use mini_workflow.History.Service.Workflow.{get_workflow_execution_history}
use mini_workflow.History.Service.Load.{run_id_from_string}
use mini_workflow.History.Postgres.{get_history_events, events_of, order_by_id}
use mini_workflow.Scenarios.{count}
use mini_workflow.Scenarios.{backend, calm, open_row, world_of}

queue_fifo_example :
    (waiting ((push none "a" nil (λ k. [])).1 "a") ≡ nil ∷ [])
    × ((block_pop none "a" (λ k. [])).0 ≡ ok none)
    × (waiting ((block_pop none "a" (λ k. [])).1 "a") ≡ [])
unfolding waiting
queue_fifo_example = queue_fifo "a" "a" nil (λ k. [])

abbrev pub workflow_request : AddWorkflowTaskRequest
workflow_request = record {
  task_queue = "orders";
  workflow_id = "order-1";
  run_id = "x";
  workflow_type = "Order";
}

workflow_task_polled :
    (poll_workflow_task_queue none
      (record { task_queue = "orders"; identity = "w" })
      (add_workflow_task none workflow_request (λ k. [])).1).0
    ≡ ok (record {
      task_token =
          json (object (field "run_id" (text "x") (field "workflow_id" (text "order-1") end)));
      workflow_type = "Order";
      history = [];
    })
workflow_task_polled = add_workflow_task-poll (λ k. []) "w" workflow_request refl refl refl

abbrev pub activity_request : AddActivityTaskRequest
activity_request = record {
  task_queue = "payments";
  workflow_id = "order-1";
  run_id = "x";
  activity_id = "charge";
  activity_type = "Charge";
  input = raw [];
  heartbeat_timeout_seconds = pos 30;
}

activity_task_polled :
    (poll_activity_task_queue none
      (record { task_queue = "payments"; identity = "w" })
      (add_activity_task none activity_request (λ k. [])).1).0
    ≡ ok (record {
      task_token = activity_token (activity_of activity_request);
      activity_id = "charge";
      activity_type = "Charge";
      input = raw [];
      heartbeat_timeout_seconds = pos 30;
    })
activity_task_polled = add_activity_task-poll (λ k. []) "w" activity_request refl refl refl refl

abbrev token : TaskToken
token = record { workflow_id = "order-1"; run_id = "x"; activity_id = "charge"; attempt = pos 1 }

decode-encode_example : decode (encode token) ≡ ok token
decode-encode_example = decode-encode token refl

map_downstream_error-timeout_example :
    (s : Status) × (map_downstream_error context_deadline ≡ status s)
    × (is_timeout (map_downstream_error context_deadline) ≡ false)
    × (status_code (map_downstream_error (map_downstream_error context_deadline)) ≡ some s.code)
    × (some s.code ≡ some unavailable)
unfolding is_timeout
map_downstream_error-timeout_example = map_downstream_error-timeout context_deadline

abbrev polled : PollActivityTaskQueueResponse
polled = record {
  task_token = activity_token (activity_of activity_request);
  activity_id = "charge";
  activity_type = "Charge";
  input = nil;
  heartbeat_timeout_seconds = pos 30;
}

abbrev one_task : MatchingClient World
one_task = record {
  poll_workflow_task_queue = λ r w. (err context_deadline, w);
  poll_activity_task_queue = λ r w. (ok polled, w);
}

heartbeat-refused_example :
    Service.record_activity_task_heartbeat
      (history_client ⦃b = backend⦄ (calm 1))
      one_task
      (record { task_token = encode token; details = nil })
      (world_of open_row)
    ≡ (
      err (
          status (record {
            code = invalid_argument;
            message = "invalid task token: unmarshal task token: invalid character in JSON text";
          })),
      world_of open_row,
    )
heartbeat-refused_example =
    heartbeat-refused ⦃b = backend⦄ (calm 1) one_task token nil (world_of open_row) refl

abbrev pub history : HistoryClient World
history = history_client ⦃b = backend⦄ (calm 1)

poll_activity_task_queue-respond_example :
    (t : Bytes) × (Service.poll_activity_task_queue history one_task
        (record { task_queue = "payments"; identity = "w" })
        (world_of open_row)
      ≡ (ok (record polled { task_token = t }), world_of open_row))
    × (Service.respond_activity_task_completed history one_task
          (record { task_token = t; result = nil; identity = "w" })
          (world_of open_row)
        ≡ Service.downstream
            (history.record_activity_task_completed (record {
              workflow_id = "order-1";
              run_id = "x";
              activity_id = "charge";
              result = nil;
            }))
            (world_of open_row))
    × (Service.respond_activity_task_failed history one_task
          (record { task_token = t; reason = "late"; details = ""; identity = "w" })
          (world_of open_row)
        ≡ Service.downstream
            (history.record_activity_task_failed (record {
              workflow_id = "order-1";
              run_id = "x";
              activity_id = "charge";
              reason = "late";
            }))
            (world_of open_row))
poll_activity_task_queue-respond_example =
    poll_activity_task_queue-respond history one_task (activity_of activity_request)
      (record { task_queue = "payments"; identity = "w" }) polled (world_of open_row)
      (world_of open_row) (world_of open_row) nil "late" "" "w" refl refl refl

abbrev order_task : WorkflowTask
order_task = record {
  workflow_id = "order-1";
  run_id = "x";
  workflow_type = "Order";
  task_queue = "orders";
}

abbrev order_polled : PollWorkflowTaskQueueResponse
order_polled = record {
  task_token = workflow_token order_task;
  workflow_type = "Order";
  history = [];
}

abbrev order_client : MatchingClient World
order_client = record {
  poll_workflow_task_queue = λ r w. (ok order_polled, w);
  poll_activity_task_queue = λ r w. (err context_deadline, w);
}

poll_workflow_task_queue-respond_example :
    (t : Bytes) × (Service.poll_workflow_task_queue history order_client
        (record { task_queue = "orders"; identity = "w" })
        (world_of open_row)
      ≡ (ok (record { task_token = t; workflow_type = "Order"; history = [] }), world_of open_row))
    × (Service.respond_workflow_task_completed history order_client
          (record { task_token = t; commands = []; identity = "w" })
          (world_of open_row)
        ≡ Service.downstream
            (history.record_workflow_task_completed
              (record { workflow_id = "order-1"; run_id = "x"; commands = [] }))
            (world_of open_row))
    × (Service.respond_workflow_task_failed history order_client
          (record { task_token = t; cause = "panic"; identity = "w" })
          (world_of open_row)
        ≡ Service.downstream
            (history.record_workflow_task_failed
              (record { workflow_id = "order-1"; run_id = "x"; cause = "panic" }))
            (world_of open_row))
unfolding get_workflow_execution_history run_id_from_string count get_history_events events_of
    order_by_id
poll_workflow_task_queue-respond_example =
    poll_workflow_task_queue-respond history order_client order_task
      (record { task_queue = "orders"; identity = "w" }) order_polled [] (world_of open_row)
      (world_of open_row) (world_of open_row) (world_of open_row) [] "panic" "w" refl refl refl
