-- ===== src/Frontend/Laws.antt =====
-- What the callers of the frontend see of the errors behind it, and where their tokens lead.
use mini_workflow.Matching.Models.{WorkflowTask}
use mini_workflow.Api.{Command, HistoryEvent, PollWorkflowTaskQueueResponse}
use mini_workflow.Frontend.Service.{
  poll_workflow_task_queue, respond_workflow_task_completed, respond_workflow_task_failed,
}
use mini_workflow.Prelude.{List}
use mini_workflow.Prelude.{◌≡◌, refl, String, false, Option, none, some, if◌then◌else◌}
use mini_workflow.Prelude.Int.{pos}
use mini_workflow.Result.{ok}
use mini_workflow.Codec.{Bytes}
use mini_workflow.Codec.Decode.{unmarshal}
use mini_workflow.Api.{
  Status, Code, invalid_argument, not_found, already_exists, failed_precondition, internal,
  unavailable, deadline_exceeded, unknown, PollTaskQueueRequest, PollActivityTaskQueueResponse,
}
use mini_workflow.Matching.Models.{ActivityTask}
use mini_workflow.Matching.Service
use mini_workflow.Frontend.Token.{TaskToken, encode}
use mini_workflow.Frontend.RoundTrip.{decode-encode}
use mini_workflow.Frontend.Errors.{
  Error, status, context_deadline, plain, map_downstream_error, is_timeout,
}
use mini_workflow.Frontend.Clients.{HistoryClient, MatchingClient}
use mini_workflow.Frontend.Service.{
  downstream, read_matching_token, poll_activity_task_queue, respond_activity_task_completed,
  respond_activity_task_failed,
}

abbrev pub status_code : Error → Option Code
status_code (status s) = some s.code
status_code e = none

of_status :
    (c : Code) (m : String)
    → (s : Status) × (map_downstream_error (status (record { code = c; message = m })) ≡ status s)
      × (is_timeout (map_downstream_error (status (record { code = c; message = m }))) ≡ false)
      × (status_code (
            map_downstream_error (map_downstream_error (status (record { code = c; message = m }))))
          ≡ some s.code)
      × ((if is_timeout (status (record { code = c; message = m }))
            then some s.code
            else some unavailable)
          ≡ some unavailable)
unfolding map_downstream_error is_timeout
of_status invalid_argument m = (_, refl, refl, refl, refl)
of_status not_found m = (_, refl, refl, refl, refl)
of_status already_exists m = (_, refl, refl, refl, refl)
of_status failed_precondition m = (_, refl, refl, refl, refl)
of_status internal m = (_, refl, refl, refl, refl)
of_status unavailable m = (_, refl, refl, refl, refl)
of_status deadline_exceeded m = (_, refl, refl, refl, refl)
of_status unknown m = (_, refl, refl, refl, refl)

-- Whatever an error of a call is, the one that the frontend returns in its place is a gRPC status
-- and not a time-out; it is `Unavailable` in place of a time-out, and mapping it once more leaves
-- its code.
pub map_downstream_error-timeout :
    (e : Error)
    → (s : Status) × (map_downstream_error e ≡ status s)
      × (is_timeout (map_downstream_error e) ≡ false)
      × (status_code (map_downstream_error (map_downstream_error e)) ≡ some s.code)
      × ((if is_timeout e then some s.code else some unavailable) ≡ some unavailable)
unfolding map_downstream_error is_timeout
map_downstream_error-timeout context_deadline = (_, refl, refl, refl, refl)
map_downstream_error-timeout (plain m) = (_, refl, refl, refl, refl)
map_downstream_error-timeout (status s) = of_status s.code s.message

abbrev worker_workflow_token : WorkflowTask → TaskToken
worker_workflow_token t = record {
  workflow_id = t.workflow_id;
  run_id = t.run_id;
  activity_id = "";
  attempt = pos 0;
}

abbrev worker_activity_token : ActivityTask → TaskToken
worker_activity_token t = record {
  workflow_id = t.workflow_id;
  run_id = t.run_id;
  activity_id = t.activity_id;
  attempt = pos 1;
}

module _ {S : Type 0} (history : HistoryClient S) (matching : MatchingClient S) where
  -- A worker that polls an activity task of the matching service, and responds with the token it
  -- got, makes the frontend record the completion, or the failure, of that activity of that run.
  pub poll_activity_task_queue-respond :
      (t : ActivityTask) (req : PollTaskQueueRequest) (polled : PollActivityTaskQueueResponse)
      (s s' s₁ : S) (result : Bytes) (reason details identity : String)
      → matching.poll_activity_task_queue req s ≡ (ok polled, s')
      → polled.task_token ≡ Service.activity_token t
      → polled.activity_id ≡ t.activity_id
      → (token : Bytes) × (poll_activity_task_queue history matching req s
          ≡ (ok (record polled { task_token = token }), s'))
        × (respond_activity_task_completed history matching
              (record { task_token = token; result = result; identity = identity })
              s₁
            ≡ downstream
                (history.record_activity_task_completed (record {
                  workflow_id = t.workflow_id;
                  run_id = t.run_id;
                  activity_id = t.activity_id;
                  result = result;
                }))
                s₁)
        × (respond_activity_task_failed history matching
              (record {
                task_token = token;
                reason = reason;
                details = details;
                identity = identity;
              })
              s₁
            ≡ downstream
                (history.record_activity_task_failed (record {
                  workflow_id = t.workflow_id;
                  run_id = t.run_id;
                  activity_id = t.activity_id;
                  reason = reason;
                }))
                s₁)
  unfolding poll_activity_task_queue respond_activity_task_completed respond_activity_task_failed
      read_matching_token unmarshal
  poll_activity_task_queue-respond t req polled s s' s₁ result reason details identity answer token
        id =
      let again = decode-encode (worker_activity_token t) refl in
      (encode (worker_activity_token t), rw (answer, token, id) refl, rw again refl, rw again refl)

  -- A worker that polls a workflow task of the matching service gets the history of that run, if the
  -- history service has it, and the token it responds with makes the frontend record the commands,
  -- or the failure, of a workflow task of that run.
  pub poll_workflow_task_queue-respond :
      (t : WorkflowTask) (req : PollTaskQueueRequest) (polled : PollWorkflowTaskQueueResponse)
      (events : List HistoryEvent) (s s' s'' s₁ : S) (commands : List Command)
      (cause identity : String)
      → matching.poll_workflow_task_queue req s ≡ (ok polled, s')
      → polled.task_token ≡ Service.workflow_token t
      → history.get_workflow_execution_history
          (record { workflow_id = t.workflow_id; run_id = t.run_id })
          s'
        ≡ (ok events, s'')
      → (token : Bytes) × (poll_workflow_task_queue history matching req s ≡ (
        ok (record { task_token = token; workflow_type = polled.workflow_type; history = events }),
        s'',
      ))
        × (respond_workflow_task_completed history matching
              (record { task_token = token; commands = commands; identity = identity })
              s₁
            ≡ downstream
                (history.record_workflow_task_completed
                  (record { workflow_id = t.workflow_id; run_id = t.run_id; commands = commands }))
                s₁)
        × (respond_workflow_task_failed history matching
              (record { task_token = token; cause = cause; identity = identity })
              s₁
            ≡ downstream
                (history.record_workflow_task_failed
                  (record { workflow_id = t.workflow_id; run_id = t.run_id; cause = cause }))
                s₁)
  unfolding poll_workflow_task_queue respond_workflow_task_completed respond_workflow_task_failed
      read_matching_token unmarshal
  poll_workflow_task_queue-respond t req polled events s s' s'' s₁ commands cause identity answer
        token known =
      let again = decode-encode (worker_workflow_token t) refl in
      (
        encode (worker_workflow_token t),
        rw (answer, token, known) refl,
        rw again refl,
        rw again refl,
      )
