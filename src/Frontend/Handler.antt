-- ===== src/Frontend/Handler.antt =====
-- frontend/internal/adapters/grpc/handler.go: the requests of the frontend, and the method of the
-- service that each one goes to.
use mini_workflow.Prelude.{String, Bool, List}
use mini_workflow.Result.{Result, ok, err}
use mini_workflow.Codec.{Bytes}
use mini_workflow.Api.{
  HistoryEvent, StartWorkflowRequest, SignalWorkflowRequest, QueryWorkflowRequest,
  GetHistoryRequest, PollTaskQueueRequest, PollWorkflowTaskQueueResponse,
  PollActivityTaskQueueResponse, RespondWorkflowTaskCompletedRequest,
  RespondWorkflowTaskFailedRequest, RespondActivityTaskCompletedRequest,
  RespondActivityTaskFailedRequest, RecordActivityTaskHeartbeatRequest,
}
use mini_workflow.Frontend.Errors.{Error}
use mini_workflow.Frontend.Clients.{Exec, HistoryClient, MatchingClient}
use mini_workflow.Frontend.Service.{
  start_workflow, signal_workflow, query_workflow, get_workflow_execution_history,
  poll_workflow_task_queue, poll_activity_task_queue, respond_workflow_task_completed,
  respond_workflow_task_failed, respond_activity_task_completed, respond_activity_task_failed,
  record_activity_task_heartbeat,
}

pub data Request : Type 0 where
  workflow_start : StartWorkflowRequest → Request
  workflow_signal : SignalWorkflowRequest → Request
  workflow_query : QueryWorkflowRequest → Request
  history_read : GetHistoryRequest → Request
  workflow_task_poll : PollTaskQueueRequest → Request
  workflow_task_completed : RespondWorkflowTaskCompletedRequest → Request
  workflow_task_failed : RespondWorkflowTaskFailedRequest → Request
  activity_task_poll : PollTaskQueueRequest → Request
  activity_task_completed : RespondActivityTaskCompletedRequest → Request
  activity_task_failed : RespondActivityTaskFailedRequest → Request
  activity_task_heartbeat : RecordActivityTaskHeartbeatRequest → Request

pub data Reply : Type 0 where
  done : Reply
  run_started : String → Reply
  query_result : Bytes → Reply
  history : List HistoryEvent → Reply
  workflow_task : PollWorkflowTaskQueueResponse → Reply
  activity_task : PollActivityTaskQueueResponse → Reply
  cancel_requested : Bool → Reply

abbrev pub replied : {S A : Type 0} → (A → Reply) → Result Error A × S → Result Error Reply × S
replied reply (ok a, s) = (ok (reply a), s)
replied reply (err e, s) = (err e, s)

module _ {S : Type 0} (to_history : HistoryClient S) (matching : MatchingClient S) where
  unfoldable pub handle : Request → Exec S Reply
  handle (workflow_start r) s = replied run_started (start_workflow to_history matching r s)
  handle (workflow_signal r) s = replied (λ _. done) (signal_workflow to_history matching r s)
  handle (workflow_query r) s = replied query_result (query_workflow to_history matching r s)
  handle (history_read r) s =
      replied history (get_workflow_execution_history to_history matching r s)
  handle (workflow_task_poll r) s =
      replied workflow_task (poll_workflow_task_queue to_history matching r s)
  handle (workflow_task_completed r) s =
      replied (λ _. done) (respond_workflow_task_completed to_history matching r s)
  handle (workflow_task_failed r) s =
      replied (λ _. done) (respond_workflow_task_failed to_history matching r s)
  handle (activity_task_poll r) s =
      replied activity_task (poll_activity_task_queue to_history matching r s)
  handle (activity_task_completed r) s =
      replied (λ _. done) (respond_activity_task_completed to_history matching r s)
  handle (activity_task_failed r) s =
      replied (λ _. done) (respond_activity_task_failed to_history matching r s)
  handle (activity_task_heartbeat r) s =
      replied cancel_requested (record_activity_task_heartbeat to_history matching r s)
