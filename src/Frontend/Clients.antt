-- ===== src/Frontend/Clients.antt =====
-- frontend/internal/ports/outbound.go, the calls that the service makes, over the state `S` of
-- what is behind them; and the actions that the handlers are made of.
use mini_workflow.Prelude.{String, Bool, List}
use mini_workflow.Result.{Result, ok, err}
use mini_workflow.Codec.{Bytes}
use mini_workflow.Api.{
  HistoryEvent, SignalWorkflowRequest, QueryWorkflowRequest, GetHistoryRequest,
  PollTaskQueueRequest, PollWorkflowTaskQueueResponse, PollActivityTaskQueueResponse,
  RecordWorkflowExecutionStartedRequest, RecordWorkflowTaskCompletedHistoryRequest,
  RecordWorkflowTaskFailedHistoryRequest, RecordActivityTaskCompletedRequest,
  RecordActivityTaskFailedRequest, RecordActivityTaskHeartbeatRequest,
}
use mini_workflow.Frontend.Errors.{Error}

abbrev pub Exec : Type 0 → Type 0 → Type 0
Exec S A = S → Result Error A × S

abbrev pub continue : {S A B : Type 0} → Result Error A × S → (A → Exec S B) → Result Error B × S
continue (ok a, s) f = f a s
continue (err e, s) f = (err e, s)

infixl 5 ◌>>=◌
abbrev pub ◌>>=◌ : {S A B : Type 0} → Exec S A → (A → Exec S B) → Exec S B
◌>>=◌ m f s = continue (m s) f

abbrev pub pure : {S A : Type 0} → A → Exec S A
pure a s = (ok a, s)

abbrev pub fail : {S A : Type 0} → Error → Exec S A
fail e s = (err e, s)

pub record HistoryClient (S : Type 0) : Type 0 where
  pub record_workflow_execution_started : RecordWorkflowExecutionStartedRequest → Exec S String
  pub record_workflow_task_completed : RecordWorkflowTaskCompletedHistoryRequest → Exec S (Unit {0})
  pub record_workflow_task_failed : RecordWorkflowTaskFailedHistoryRequest → Exec S (Unit {0})
  pub record_activity_task_completed : RecordActivityTaskCompletedRequest → Exec S (Unit {0})
  pub record_activity_task_failed : RecordActivityTaskFailedRequest → Exec S (Unit {0})
  pub record_activity_task_heartbeat : RecordActivityTaskHeartbeatRequest → Exec S Bool
  pub signal_workflow_execution : SignalWorkflowRequest → Exec S (Unit {0})
  pub query_workflow_execution : QueryWorkflowRequest → Exec S Bytes
  pub get_workflow_execution_history : GetHistoryRequest → Exec S (List HistoryEvent)

pub record MatchingClient (S : Type 0) : Type 0 where
  pub poll_workflow_task_queue : PollTaskQueueRequest → Exec S PollWorkflowTaskQueueResponse
  pub poll_activity_task_queue : PollTaskQueueRequest → Exec S PollActivityTaskQueueResponse
