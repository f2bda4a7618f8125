-- ===== src/Matching/Service.antt =====
-- matching/internal/service/matching.go
use mini_workflow.Prelude.{
  String, Bool, ◌||◌, Option, none, some, [], ◌∷◌, str_eq, concat, if◌then◌else◌,
}
use mini_workflow.Result.{Result, ok, err}
use mini_workflow.Api.{
  Status, invalid_argument, not_found, internal, AddWorkflowTaskRequest, AddActivityTaskRequest,
  PollTaskQueueRequest, PollWorkflowTaskQueueResponse, PollActivityTaskQueueResponse,
}
use mini_workflow.Codec.{Bytes, json, text, object, end, field}
use mini_workflow.Codec.Decode.{unmarshal}
use mini_workflow.Matching.Models.{
  WorkflowTask, ActivityTask, no_workflow_task, no_activity_task, workflow_task_json,
  activity_task_json, set_workflow_task, set_activity_task,
}
use mini_workflow.Matching.TaskQueue.{Queues, push, block_pop}

unfoldable pub queue_key : String → String → String → String
queue_key namespace task_queue kind =
    concat ("task_queue:" ∷ namespace ∷ ":" ∷ task_queue ∷ ":" ∷ kind ∷ [])

abbrev pub default_namespace : String
default_namespace = "default"

abbrev pub is_blank : String → Bool
is_blank s = str_eq s ""

abbrev pub invalid : String → Status
invalid m = record { code = invalid_argument; message = m }

abbrev pub internal_error : String → String → Status
internal_error what e = record { code = internal; message = concat (what ∷ ": " ∷ e ∷ []) }

abbrev pub unavailable_task : String → Status
unavailable_task m = record { code = not_found; message = m }

abbrev pub pushed : String → Result String (Unit {0}) × Queues → Result Status (Unit {0}) × Queues
pushed what (ok _, q) = (ok tt, q)
pushed what (err e, q) = (err (internal_error what e), q)

unfoldable pub add_workflow_task :
    Option String → AddWorkflowTaskRequest → Queues → Result Status (Unit {0}) × Queues
add_workflow_task fault req q =
    if is_blank req.workflow_id || is_blank req.run_id
    then (err (invalid "workflow_id and run_id are required"), q)
    else if is_blank req.task_queue
    then (err (invalid "task_queue is required"), q)
    else pushed "push workflow task" (
        push fault (queue_key default_namespace req.task_queue "workflow") (workflow_task_json task)
          q)
  where
    task : WorkflowTask
    task = record {
      workflow_id = req.workflow_id;
      run_id = req.run_id;
      workflow_type = req.workflow_type;
      task_queue = req.task_queue;
    }

unfoldable pub add_activity_task :
    Option String → AddActivityTaskRequest → Queues → Result Status (Unit {0}) × Queues
add_activity_task fault req q =
    if is_blank req.workflow_id || is_blank req.run_id || is_blank req.activity_id
    then (err (invalid "workflow_id, run_id, and activity_id are required"), q)
    else if is_blank req.task_queue
    then (err (invalid "task_queue is required"), q)
    else pushed "push activity task" (
        push fault (queue_key default_namespace req.task_queue "activity") (activity_task_json task)
          q)
  where
    task : ActivityTask
    task = record {
      workflow_id = req.workflow_id;
      run_id = req.run_id;
      activity_id = req.activity_id;
      activity_type = req.activity_type;
      input = req.input;
      task_queue = req.task_queue;
      heartbeat_timeout_seconds = req.heartbeat_timeout_seconds;
    }

-- `json.Marshal` of a map writes its names in order.
abbrev pub workflow_token : WorkflowTask → Bytes
workflow_token t =
    json (object (field "run_id" (text t.run_id) (field "workflow_id" (text t.workflow_id) end)))

abbrev pub activity_token : ActivityTask → Bytes
activity_token t = json (
    object (
      field "activity_id" (text t.activity_id)
        (field "run_id" (text t.run_id) (field "workflow_id" (text t.workflow_id) end))))

abbrev pub workflow_reply :
    WorkflowTask × Option String → Result Status PollWorkflowTaskQueueResponse
workflow_reply (t, some e) = err (internal_error "unmarshal workflow task" e)
workflow_reply (t, none) =
    ok (record { task_token = workflow_token t; workflow_type = t.workflow_type; history = [] })

abbrev pub activity_reply :
    ActivityTask × Option String → Result Status PollActivityTaskQueueResponse
activity_reply (t, some e) = err (internal_error "unmarshal activity task" e)
activity_reply (t, none) = ok (record {
  task_token = activity_token t;
  activity_id = t.activity_id;
  activity_type = t.activity_type;
  input = t.input;
  heartbeat_timeout_seconds = t.heartbeat_timeout_seconds;
})

abbrev pub workflow_popped :
    Result String (Option Bytes) × Queues → Result Status PollWorkflowTaskQueueResponse × Queues
workflow_popped (err e, q) = (err (internal_error "poll workflow task queue" e), q)
workflow_popped (ok none, q) = (err (unavailable_task "no workflow task available"), q)
workflow_popped (ok (some payload), q) =
    (workflow_reply (unmarshal set_workflow_task payload no_workflow_task), q)

abbrev pub activity_popped :
    Result String (Option Bytes) × Queues → Result Status PollActivityTaskQueueResponse × Queues
activity_popped (err e, q) = (err (internal_error "poll activity task queue" e), q)
activity_popped (ok none, q) = (err (unavailable_task "no activity task available"), q)
activity_popped (ok (some payload), q) =
    (activity_reply (unmarshal set_activity_task payload no_activity_task), q)

unfoldable pub poll_workflow_task_queue :
    Option String
    → PollTaskQueueRequest
    → Queues
    → Result Status PollWorkflowTaskQueueResponse × Queues
poll_workflow_task_queue fault req q =
    if is_blank req.task_queue
    then (err (invalid "task_queue is required"), q)
    else workflow_popped (block_pop fault (queue_key default_namespace req.task_queue "workflow") q)

unfoldable pub poll_activity_task_queue :
    Option String
    → PollTaskQueueRequest
    → Queues
    → Result Status PollActivityTaskQueueResponse × Queues
poll_activity_task_queue fault req q =
    if is_blank req.task_queue
    then (err (invalid "task_queue is required"), q)
    else activity_popped (block_pop fault (queue_key default_namespace req.task_queue "activity") q)
