-- ===== src/History/Models.antt =====
-- history/internal/domain/models.go: the rows of the four tables.
use mini_workflow.Prelude.{
  ℕ, String, ◌≡◌, ◌↔◌, Bool, true, ◌&&◌, Option, arith, ◌==◌, str_eq, eq_iff,
}
use mini_workflow.Prelude.Int.{ℤ}
use mini_workflow.Codec.{Bytes}

-- `uuid.UUID` is a value of 16 bytes.
abbrev pub Uuid : Type 0
Uuid = ℕ

pub data WorkflowStatus : Type 0 where
  running completed failed timed_out : WorkflowStatus

pub data ActivityStatus : Type 0 where
  scheduled started completed failed : ActivityStatus

pub data TimerType : Type 0 where
  user activity_timeout workflow_timeout workflow_task_timeout : TimerType

-- The columns that all four tables begin with, and that every query names together.
pub record RunKey : Type 0 where
  pub namespace : String
  pub workflow_id : String
  pub run_id : Uuid

-- `int64` fields hold bit patterns.
pub record WorkflowExecution : Type 0 where
  pub key : RunKey
  pub open key use *
  pub workflow_type : String
  pub task_queue : String
  pub status : WorkflowStatus
  pub current_version : ℕ
  pub next_event_id : ℕ
  pub input : Bytes
  pub result : Option Bytes
  pub start_time : ℤ
  pub last_updated_time : ℤ

pub record HistoryEvent : Type 0 where
  pub key : RunKey
  pub open key use *
  pub event_id : ℕ
  pub event_type : String
  pub payload : Bytes
  pub created_at : ℤ

pub record ActivityState : Type 0 where
  pub key : RunKey
  pub open key use *
  pub activity_id : String
  pub status : ActivityStatus
  pub attempt : ℕ
  pub last_heartbeat : Option ℤ
  pub last_failure_reason : Option String
  pub task_token : Bytes
  pub heartbeat_timeout_seconds : ℤ
  pub task_queue : String
  pub activity_type : String
  pub input : Bytes

pub record Timer : Type 0 where
  pub timer_id : Uuid
  pub key : RunKey
  pub open key use *
  pub fire_time : ℤ
  pub timer_type : TimerType
  pub task_token : Bytes
  pub is_fired : Bool

-- `WHERE namespace = … AND workflow_id = … AND run_id = …`
unfoldable pub same_run : RunKey → RunKey → Bool
same_run j k =
    str_eq j.namespace k.namespace && str_eq j.workflow_id k.workflow_id && j.run_id == k.run_id

pub same_run_iff : (j k : RunKey) → (same_run j k ≡ true) ↔ (j ≡ k)
unfolding same_run
same_run_iff j k =
    ground (arith, eq_iff j.namespace k.namespace, eq_iff j.workflow_id k.workflow_id)
