-- ===== src/Services.antt =====
-- frontend/internal/adapters/grpc/history_client.go and matching_client.go: the frontend in front of
-- the history service and the matching service.
pub mod Started
pub mod FirstTask
use mini_workflow.Prelude.{◌≡◌, refl, true}
use mini_workflow.Prelude.Text.{concat}
use mini_workflow.Prelude.Int.{in_int32}
use mini_workflow.Result.{Result, ok, err}
use mini_workflow.Codec.{Bytes, base64_encode}
use mini_workflow.Codec.Decode.{unmarshal}
use mini_workflow.Api.{Status, invalid_argument}
use mini_workflow.History.Backend.{Backend}
use mini_workflow.History.World.{World, Env}
use mini_workflow.History.World
use mini_workflow.History.Service.Workflow
use mini_workflow.History.Service.Activity
use mini_workflow.History.Service.Heartbeat
use mini_workflow.History.Service.Commands
use mini_workflow.Matching.TaskQueue.{Queues}
use mini_workflow.Matching.Service
use mini_workflow.Frontend.Token.{TaskToken, encode, token_json}
use mini_workflow.Frontend.RoundTrip.{decode-encode}
use mini_workflow.Frontend.Errors.{Error, status, map_downstream_error}
use mini_workflow.Frontend.Clients.{Exec, HistoryClient, MatchingClient}
use mini_workflow.Frontend.Service.{record_activity_task_heartbeat}

-- An error of a call is the status that the service returned.
abbrev pub received : {A : Type 0} → Result Status A × World → Result Error A × World
received (ok a, w) = (ok a, w)
received (err s, w) = (err (status s), w)

abbrev pub call : {A : Type 0} → World.Exec A → Exec World A
call m w = received (m w)

abbrev pub history_client : ⦃b : Backend⦄ → Env → HistoryClient World
history_client env = record {
  record_workflow_execution_started = λ r. call (Workflow.record_workflow_execution_started env r);
  record_workflow_task_completed = λ r. call (Commands.record_workflow_task_completed env r);
  record_workflow_task_failed = λ r. call (Workflow.record_workflow_task_failed env r);
  record_activity_task_completed = λ r. call (Activity.record_activity_task_completed env r);
  record_activity_task_failed = λ r. call (Activity.record_activity_task_failed env r);
  record_activity_task_heartbeat = λ r. call (Heartbeat.record_activity_task_heartbeat env r);
  signal_workflow_execution = λ r. call (Workflow.signal_workflow_execution env r);
  query_workflow_execution = λ r. call (Workflow.query_workflow_execution env r);
  get_workflow_execution_history = λ r. call (Workflow.get_workflow_execution_history env r);
}

abbrev pub polled : {A : Type 0} → Result Status A × Queues → World → Result Error A × World
polled (ok a, q) w = (ok a, record w { queues = q })
polled (err s, q) w = (err (status s), record w { queues = q })

abbrev pub matching_client : Env → MatchingClient World
matching_client env = record {
  poll_workflow_task_queue =
      λ r w. polled (Service.poll_workflow_task_queue (env.queue_fault 0) r w.queues) w;
  poll_activity_task_queue =
      λ r w. polled (Service.poll_activity_task_queue (env.queue_fault 0) r w.queues) w;
}

-- A heartbeat with the token that the frontend has given to a worker is refused by the history
-- service as an invalid token, and nothing changes: the service reads JSON, and the frontend passes
-- on base64.
pub heartbeat-refused :
    ⦃b : Backend⦄ (env : Env) (matching : MatchingClient World) (t : TaskToken) (details : Bytes)
    (w : World)
    → in_int32 t.attempt ≡ true
    → record_activity_task_heartbeat
        (history_client env)
        matching
        (record { task_token = encode t; details = details })
        w
      ≡ (
        err (
            status (record {
              code = invalid_argument;
              message = "invalid task token: unmarshal task token: invalid character in JSON text";
            })),
        w,
      )
unfolding record_activity_task_heartbeat map_downstream_error encode token_json base64_encode
    Heartbeat.record_activity_task_heartbeat Heartbeat.decode_task_token unmarshal concat
heartbeat-refused env matching t details w small = rw (decode-encode t small) refl
