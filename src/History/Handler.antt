-- ===== src/History/Handler.antt =====
-- history/internal/adapters/grpc/handler.go and ports/inbound.go: the requests of the history
-- service, and the handler that each one goes to.
use mini_workflow.Prelude.{String, Bool, List}
use mini_workflow.Result.{Result, ok, err}
use mini_workflow.Codec.{Bytes}
use mini_workflow.Api.{
  Status, HistoryEvent, SignalWorkflowRequest, QueryWorkflowRequest, GetHistoryRequest,
  RecordWorkflowExecutionStartedRequest, RecordWorkflowTaskStartedRequest,
  RecordWorkflowTaskFailedHistoryRequest, RecordWorkflowTaskCompletedHistoryRequest,
  RecordActivityTaskStartedRequest, RecordActivityTaskCompletedRequest,
  RecordActivityTaskFailedRequest, RecordActivityTaskHeartbeatRequest,
}
use mini_workflow.History.Backend.{Backend}
use mini_workflow.History.World.{World, Env, Exec}
use mini_workflow.History.Service.Workflow.{
  record_workflow_execution_started, record_workflow_task_started, record_workflow_task_failed,
  signal_workflow_execution, query_workflow_execution, get_workflow_execution_history,
}
use mini_workflow.History.Service.Activity.{
  record_activity_task_started, record_activity_task_completed, record_activity_task_failed,
}
use mini_workflow.History.Service.Heartbeat.{record_activity_task_heartbeat}
use mini_workflow.History.Service.Commands.{record_workflow_task_completed}

pub data Request : Type 0 where
  workflow_execution_started : RecordWorkflowExecutionStartedRequest → Request
  workflow_task_started : RecordWorkflowTaskStartedRequest → Request
  workflow_task_completed : RecordWorkflowTaskCompletedHistoryRequest → Request
  workflow_task_failed : RecordWorkflowTaskFailedHistoryRequest → Request
  activity_task_started : RecordActivityTaskStartedRequest → Request
  activity_task_completed : RecordActivityTaskCompletedRequest → Request
  activity_task_failed : RecordActivityTaskFailedRequest → Request
  activity_task_heartbeat : RecordActivityTaskHeartbeatRequest → Request
  workflow_execution_signaled : SignalWorkflowRequest → Request
  workflow_execution_queried : QueryWorkflowRequest → Request
  history_read : GetHistoryRequest → Request

pub data Reply : Type 0 where
  done : Reply
  run_started : String → Reply
  cancel_requested : Bool → Reply
  query_result : Bytes → Reply
  history : List HistoryEvent → Reply

abbrev pub replied :
    {A : Type 0} → (A → Reply) → Result Status A × World → Result Status Reply × World
replied reply (ok a, w) = (ok (reply a), w)
replied reply (err s, w) = (err s, w)

module _ ⦃b : Backend⦄ (env : Env) where
  unfoldable pub handle : Request → Exec Reply
  handle (workflow_execution_started r) w =
      replied run_started (record_workflow_execution_started env r w)
  handle (workflow_task_started r) w = replied (λ _. done) (record_workflow_task_started env r w)
  handle (workflow_task_completed r) w =
      replied (λ _. done) (record_workflow_task_completed env r w)
  handle (workflow_task_failed r) w = replied (λ _. done) (record_workflow_task_failed env r w)
  handle (activity_task_started r) w = replied (λ _. done) (record_activity_task_started env r w)
  handle (activity_task_completed r) w =
      replied (λ _. done) (record_activity_task_completed env r w)
  handle (activity_task_failed r) w = replied (λ _. done) (record_activity_task_failed env r w)
  handle (activity_task_heartbeat r) w =
      replied cancel_requested (record_activity_task_heartbeat env r w)
  handle (workflow_execution_signaled r) w = replied (λ _. done) (signal_workflow_execution env r w)
  handle (workflow_execution_queried r) w = replied query_result (query_workflow_execution env r w)
  handle (history_read r) w = replied history (get_workflow_execution_history env r w)
