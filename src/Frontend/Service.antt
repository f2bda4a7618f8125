-- ===== src/Frontend/Service.antt =====
-- frontend/internal/service. The router gives every workflow the one history client, so a handler
-- calls `history` itself.
use mini_workflow.Prelude.{
  String, Bool, ◌||◌, Option, none, some, List, [], ◌∷◌, str_eq, concat, if◌then◌else◌,
}
use mini_workflow.Prelude.Int.{pos}
use mini_workflow.Result.{Result, ok, err}
use mini_workflow.Codec.{Bytes, nil, null, text}
use mini_workflow.Codec.Decode.{Setter, unmarshal}
use mini_workflow.Api.{
  Code, HistoryEvent, StartWorkflowRequest, SignalWorkflowRequest, QueryWorkflowRequest,
  GetHistoryRequest, PollTaskQueueRequest, PollWorkflowTaskQueueResponse,
  PollActivityTaskQueueResponse, RespondWorkflowTaskCompletedRequest,
  RespondWorkflowTaskFailedRequest, RespondActivityTaskCompletedRequest,
  RespondActivityTaskFailedRequest, RecordActivityTaskHeartbeatRequest, invalid_argument, internal,
}
use mini_workflow.Matching.Service.{is_blank}
use mini_workflow.Frontend.Token.{TaskToken, encode, decode}
use mini_workflow.Frontend.Errors.{Error, status, map_downstream_error, is_timeout}
use mini_workflow.Frontend.Clients.{Exec, ◌>>=◌, pure, fail, HistoryClient, MatchingClient}

abbrev pub mapped : {S A : Type 0} → Result Error A × S → Result Error A × S
mapped (ok a, s) = (ok a, s)
mapped (err e, s) = (err (map_downstream_error e), s)

-- A call whose error is mapped and returned.
abbrev pub downstream : {S A : Type 0} → Exec S A → Exec S A
downstream call s = mapped (call s)

-- A `map[string]string`: what is missing reads as the empty text.
abbrev pub set_entry : Setter (String → String)
set_entry k (text v) m = (λ j. if str_eq j k then v else m j, Bool.false)
set_entry k null m = (λ j. if str_eq j k then "" else m j, Bool.false)
set_entry k _ m = (m, Bool.true)

abbrev pub status_error : Code → String → String → Error
status_error c what e = status (record { code = c; message = concat (what ∷ ": " ∷ e ∷ []) })

abbrev pub entries : (String → String) × Option String → Result Error (String → String)
entries (m, none) = ok m
entries (m, some e) = err (status_error internal "decode matching token" e)

unfoldable pub read_matching_token : Bytes → Result Error (String → String)
read_matching_token token = entries (unmarshal set_entry token (λ _. ""))

abbrev pub worker_token : {S : Type 0} → Result String TaskToken → Exec S TaskToken
worker_token (ok t) s = (ok t, s)
worker_token (err e) s = (err (status_error invalid_argument "invalid task token" e), s)

abbrev pub lift : {S A : Type 0} → Result Error A → Exec S A
lift r s = (r, s)

module _ {S : Type 0} (history : HistoryClient S) (matching : MatchingClient S) where
  unfoldable pub start_workflow : StartWorkflowRequest → Exec S String
  start_workflow req =
      if is_blank req.workflow_id || is_blank req.workflow_type
      then fail (
          status (record {
            code = invalid_argument;
            message = "workflow_id and workflow_type are required";
          }))
      else downstream
          (history.record_workflow_execution_started (record { start_request = some req }))

  unfoldable pub signal_workflow : SignalWorkflowRequest → Exec S (Unit {0})
  signal_workflow req = downstream (history.signal_workflow_execution req)

  unfoldable pub query_workflow : QueryWorkflowRequest → Exec S Bytes
  query_workflow req = downstream (history.query_workflow_execution req)

  unfoldable pub get_workflow_execution_history : GetHistoryRequest → Exec S (List HistoryEvent)
  get_workflow_execution_history req = downstream (history.get_workflow_execution_history req)

  abbrev pub no_workflow_task : PollWorkflowTaskQueueResponse
  no_workflow_task = record { task_token = nil; workflow_type = ""; history = [] }

  abbrev pub no_activity_task : PollActivityTaskQueueResponse
  no_activity_task = record {
    task_token = nil;
    activity_id = "";
    activity_type = "";
    input = nil;
    heartbeat_timeout_seconds = pos 0;
  }

  abbrev pub workflow_token : (String → String) → TaskToken
  workflow_token m = record {
    workflow_id = m "workflow_id";
    run_id = m "run_id";
    activity_id = "";
    attempt = pos 0;
  }

  abbrev pub with_history :
      PollWorkflowTaskQueueResponse → (String → String) → Exec S PollWorkflowTaskQueueResponse
  with_history polled m = do
    events ← downstream (
        history.get_workflow_execution_history
          (record { workflow_id = m "workflow_id"; run_id = m "run_id" }))
    pure (record {
      task_token = encode (workflow_token m);
      workflow_type = polled.workflow_type;
      history = events;
    })

  -- A time-out of the poll is no error: the reply is empty.
  abbrev pub polled_workflow :
      Result Error PollWorkflowTaskQueueResponse × S
      → Result Error PollWorkflowTaskQueueResponse × S
  polled_workflow (ok polled, s) =
      (lift (read_matching_token polled.task_token) >>= with_history polled) s
  polled_workflow (err e, s) =
      (if is_timeout e then ok no_workflow_task else err (map_downstream_error e), s)

  unfoldable pub poll_workflow_task_queue :
      PollTaskQueueRequest → Exec S PollWorkflowTaskQueueResponse
  poll_workflow_task_queue req s = polled_workflow (matching.poll_workflow_task_queue req s)

  abbrev pub activity_token : PollActivityTaskQueueResponse → (String → String) → TaskToken
  activity_token polled m = record {
    workflow_id = m "workflow_id";
    run_id = m "run_id";
    activity_id = polled.activity_id;
    attempt = pos 1;
  }

  abbrev pub polled_activity :
      Result Error PollActivityTaskQueueResponse × S
      → Result Error PollActivityTaskQueueResponse × S
  polled_activity (ok polled, s) =
      (lift (read_matching_token polled.task_token) >>= λ m.
      pure (record polled { task_token = encode (activity_token polled m) }))
        s
  polled_activity (err e, s) =
      (if is_timeout e then ok no_activity_task else err (map_downstream_error e), s)

  unfoldable pub poll_activity_task_queue :
      PollTaskQueueRequest → Exec S PollActivityTaskQueueResponse
  poll_activity_task_queue req s = polled_activity (matching.poll_activity_task_queue req s)

  unfoldable pub respond_workflow_task_completed :
      RespondWorkflowTaskCompletedRequest → Exec S (Unit {0})
  respond_workflow_task_completed req = do
    tok ← worker_token (decode req.task_token)
    downstream (
        history.record_workflow_task_completed
          (record { workflow_id = tok.workflow_id; run_id = tok.run_id; commands = req.commands }))

  unfoldable pub respond_workflow_task_failed : RespondWorkflowTaskFailedRequest → Exec S (Unit {0})
  respond_workflow_task_failed req = do
    tok ← worker_token (decode req.task_token)
    downstream (
        history.record_workflow_task_failed
          (record { workflow_id = tok.workflow_id; run_id = tok.run_id; cause = req.cause }))

  unfoldable pub respond_activity_task_completed :
      RespondActivityTaskCompletedRequest → Exec S (Unit {0})
  respond_activity_task_completed req = do
    tok ← worker_token (decode req.task_token)
    downstream (
        history.record_activity_task_completed (record {
          workflow_id = tok.workflow_id;
          run_id = tok.run_id;
          activity_id = tok.activity_id;
          result = req.result;
        }))

  unfoldable pub respond_activity_task_failed : RespondActivityTaskFailedRequest → Exec S (Unit {0})
  respond_activity_task_failed req = do
    tok ← worker_token (decode req.task_token)
    downstream (
        history.record_activity_task_failed (record {
          workflow_id = tok.workflow_id;
          run_id = tok.run_id;
          activity_id = tok.activity_id;
          reason = req.reason;
        }))

  -- The token is decoded to find the history service; the request is passed on as it came.
  unfoldable pub record_activity_task_heartbeat : RecordActivityTaskHeartbeatRequest → Exec S Bool
  record_activity_task_heartbeat req = do
    tok ← worker_token (decode req.task_token)
    downstream (history.record_activity_task_heartbeat req)
