-- ===== src/Api.antt =====
-- The messages of api/workflow.proto that carry data, and the gRPC status of an error.
use mini_workflow.Prelude.{ℕ, String, Option, List}
use mini_workflow.Prelude.Int.{ℤ}
use mini_workflow.Codec.{Bytes}

-- The codes of `google.golang.org/grpc/codes` that the services make or tell apart.
pub data Code : Type 0 where
  invalid_argument not_found already_exists failed_precondition internal unavailable : Code
  deadline_exceeded unknown : Code

pub record Status : Type 0 where
  pub code : Code
  pub message : String

pub record HistoryEvent : Type 0 where
  pub event_id : ℕ
  pub event_type : String
  pub payload : Bytes
  pub timestamp : ℤ

pub record Command : Type 0 where
  pub command_type : String
  pub attributes : Bytes

pub record StartWorkflowRequest : Type 0 where
  pub workflow_id : String
  pub workflow_type : String
  pub task_queue : String
  pub input : Bytes

pub record SignalWorkflowRequest : Type 0 where
  pub workflow_id : String
  pub run_id : String
  pub signal_name : String
  pub input : Bytes

pub record QueryWorkflowRequest : Type 0 where
  pub workflow_id : String
  pub run_id : String
  pub query_type : String
  pub query_args : Bytes

pub record GetHistoryRequest : Type 0 where
  pub workflow_id : String
  pub run_id : String

pub record PollTaskQueueRequest : Type 0 where
  pub task_queue : String
  pub identity : String

pub record PollWorkflowTaskQueueResponse : Type 0 where
  pub task_token : Bytes
  pub workflow_type : String
  pub history : List HistoryEvent

pub record PollActivityTaskQueueResponse : Type 0 where
  pub task_token : Bytes
  pub activity_id : String
  pub activity_type : String
  pub input : Bytes
  pub heartbeat_timeout_seconds : ℤ

pub record RespondWorkflowTaskCompletedRequest : Type 0 where
  pub task_token : Bytes
  pub commands : List Command
  pub identity : String

pub record RespondWorkflowTaskFailedRequest : Type 0 where
  pub task_token : Bytes
  pub cause : String
  pub identity : String

pub record RespondActivityTaskCompletedRequest : Type 0 where
  pub task_token : Bytes
  pub result : Bytes
  pub identity : String

pub record RespondActivityTaskFailedRequest : Type 0 where
  pub task_token : Bytes
  pub reason : String
  pub details : String
  pub identity : String

pub record RecordActivityTaskHeartbeatRequest : Type 0 where
  pub task_token : Bytes
  pub details : Bytes

-- `start_request` is a pointer, which may be nil.
pub record RecordWorkflowExecutionStartedRequest : Type 0 where
  pub start_request : Option StartWorkflowRequest

pub record RecordWorkflowTaskStartedRequest : Type 0 where
  pub workflow_id : String
  pub run_id : String

pub record RecordWorkflowTaskCompletedHistoryRequest : Type 0 where
  pub workflow_id : String
  pub run_id : String
  pub commands : List Command

pub record RecordWorkflowTaskFailedHistoryRequest : Type 0 where
  pub workflow_id : String
  pub run_id : String
  pub cause : String

pub record RecordActivityTaskStartedRequest : Type 0 where
  pub workflow_id : String
  pub run_id : String
  pub activity_id : String

pub record RecordActivityTaskCompletedRequest : Type 0 where
  pub workflow_id : String
  pub run_id : String
  pub activity_id : String
  pub result : Bytes

pub record RecordActivityTaskFailedRequest : Type 0 where
  pub workflow_id : String
  pub run_id : String
  pub activity_id : String
  pub reason : String

pub record AddWorkflowTaskRequest : Type 0 where
  pub task_queue : String
  pub workflow_id : String
  pub run_id : String
  pub workflow_type : String

pub record AddActivityTaskRequest : Type 0 where
  pub task_queue : String
  pub workflow_id : String
  pub run_id : String
  pub activity_id : String
  pub activity_type : String
  pub input : Bytes
  pub heartbeat_timeout_seconds : ℤ
