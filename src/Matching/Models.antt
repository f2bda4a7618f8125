-- ===== src/Matching/Models.antt =====
-- matching/internal/domain/models.go: the payloads of the queues, and their JSON.
use mini_workflow.Prelude.{String, false, if◌then◌else◌}
use mini_workflow.Prelude.Int.{ℤ, pos}
use mini_workflow.Codec.{Bytes, nil, json, text, blob_of, number, object, end, field}
use mini_workflow.Codec.Decode.{Setter, set_text, set_blob, set_int32, in_field, names}

pub record WorkflowTask : Type 0 where
  pub workflow_id : String
  pub run_id : String
  pub workflow_type : String
  pub task_queue : String

pub record ActivityTask : Type 0 where
  pub workflow_id : String
  pub run_id : String
  pub activity_id : String
  pub activity_type : String
  pub input : Bytes
  pub task_queue : String
  pub heartbeat_timeout_seconds : ℤ

abbrev pub no_workflow_task : WorkflowTask
no_workflow_task = record { workflow_id = ""; run_id = ""; workflow_type = ""; task_queue = "" }

abbrev pub no_activity_task : ActivityTask
no_activity_task = record {
  workflow_id = "";
  run_id = "";
  activity_id = "";
  activity_type = "";
  input = nil;
  task_queue = "";
  heartbeat_timeout_seconds = pos 0;
}

-- `json.Marshal` writes the fields of a struct in their order.
unfoldable pub workflow_task_json : WorkflowTask → Bytes
workflow_task_json t = json (
    object (
      field "workflow_id" (text t.workflow_id) (
        field "run_id" (text t.run_id) (
          field "workflow_type" (text t.workflow_type)
            (field "task_queue" (text t.task_queue) end)))))

unfoldable pub activity_task_json : ActivityTask → Bytes
activity_task_json t = json (
    object (
      field "workflow_id" (text t.workflow_id) (
        field "run_id" (text t.run_id) (
          field "activity_id" (text t.activity_id) (
            field "activity_type" (text t.activity_type) (
              field "input" (blob_of t.input) (
                field "task_queue" (text t.task_queue) (
                  field "heartbeat_timeout_seconds" (number t.heartbeat_timeout_seconds) end))))))))

unfoldable pub set_workflow_task : Setter WorkflowTask
set_workflow_task k v t =
    if names k "workflow_id"
    then in_field (λ s. record t { workflow_id = s }) (set_text v t.workflow_id)
    else if names k "run_id"
    then in_field (λ s. record t { run_id = s }) (set_text v t.run_id)
    else if names k "workflow_type"
    then in_field (λ s. record t { workflow_type = s }) (set_text v t.workflow_type)
    else if names k "task_queue"
    then in_field (λ s. record t { task_queue = s }) (set_text v t.task_queue)
    else (t, false)

unfoldable pub set_activity_task : Setter ActivityTask
set_activity_task k v t =
    if names k "workflow_id"
    then in_field (λ s. record t { workflow_id = s }) (set_text v t.workflow_id)
    else if names k "run_id"
    then in_field (λ s. record t { run_id = s }) (set_text v t.run_id)
    else if names k "activity_id"
    then in_field (λ s. record t { activity_id = s }) (set_text v t.activity_id)
    else if names k "activity_type"
    then in_field (λ s. record t { activity_type = s }) (set_text v t.activity_type)
    else if names k "input"
    then in_field (λ b. record t { input = b }) (set_blob v t.input)
    else if names k "task_queue"
    then in_field (λ s. record t { task_queue = s }) (set_text v t.task_queue)
    else if names k "heartbeat_timeout_seconds"
    then in_field (λ n. record t { heartbeat_timeout_seconds = n })
        (set_int32 v t.heartbeat_timeout_seconds)
    else (t, false)
