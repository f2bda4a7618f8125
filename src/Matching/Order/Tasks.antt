-- ===== src/Matching/Order/Tasks.antt =====
-- A task that is added to a queue of matching/internal, and the poll that gets it.
use mini_workflow.Prelude.{
  ◌≡◌, refl, String, true, false, ◌||◌, Option, none, some, List, [], length,
}
use mini_workflow.Prelude.Int.{in_int32}
use mini_workflow.Result.{Result, ok, err}
use mini_workflow.Codec.{Bytes, json, text, object, end, field}
use mini_workflow.Api.{AddWorkflowTaskRequest, AddActivityTaskRequest}
use mini_workflow.Matching.Models.{
  WorkflowTask, ActivityTask, workflow_task_json, activity_task_json,
}
use mini_workflow.Matching.TaskQueue.{Queues}
use mini_workflow.Matching.Service.{
  add_workflow_task, add_activity_task, poll_workflow_task_queue, poll_activity_task_queue,
  is_blank, queue_key, default_namespace, workflow_popped, activity_popped, activity_token,
}
use mini_workflow.Matching.Delivery.{
  waiting, activity_of, workflow_task-unmarshal, activity_task-unmarshal,
}
use mini_workflow.Matching.Order.{Operation, serve_all, taken}
use mini_workflow.Matching.Order.Served.{comes_next, pushed_queues}

abbrev task_token : WorkflowTask → Bytes
task_token t =
    json (object (field "run_id" (text t.run_id) (field "workflow_id" (text t.workflow_id) end)))

workflow_reply_of :
    (t : WorkflowTask) (r : Result String (Option Bytes) × Queues)
    → r.0 ≡ ok (some (workflow_task_json t))
    → (workflow_popped r).0
      ≡ ok (record { task_token = task_token t; workflow_type = t.workflow_type; history = [] })
workflow_reply_of t (ok (some p), q) e =
    let same : p ≡ workflow_task_json t = cc in rw (same, workflow_task-unmarshal) refl
workflow_reply_of t (ok none, q) e = cc
workflow_reply_of t (err x, q) e = cc

activity_reply_of :
    (t : ActivityTask) (r : Result String (Option Bytes) × Queues)
    → in_int32 t.heartbeat_timeout_seconds ≡ true
    → r.0 ≡ ok (some (activity_task_json t))
    → (activity_popped r).0
      ≡ ok (record {
        task_token = activity_token t;
        activity_id = t.activity_id;
        activity_type = t.activity_type;
        input = t.input;
        heartbeat_timeout_seconds = t.heartbeat_timeout_seconds;
      })
activity_reply_of t (ok (some p), q) small e =
    let same : p ≡ activity_task_json t = cc in rw (same, activity_task-unmarshal t small) refl
activity_reply_of t (ok none, q) small e = cc
activity_reply_of t (err x, q) small e = cc

module _ (identity : String) (os : List Operation) (q : Queues) where
  -- A workflow task that is added to a queue, whatever waits there, is delivered: after any requests
  -- to the service, with any failures, that have taken as many tasks from that queue as waited in it
  -- before, the next poll gets this one, with a token of its workflow and run, and its type. The ids
  -- and the name of the queue are not empty, and Redis answers the request that adds the task and the
  -- last poll.
  pub add_workflow_task-delivered :
      (req : AddWorkflowTaskRequest)
      → (is_blank req.workflow_id || is_blank req.run_id) ≡ false
      → is_blank req.task_queue ≡ false
      → taken (queue_key default_namespace req.task_queue "workflow") os
        ≡ length (waiting (q (queue_key default_namespace req.task_queue "workflow")))
      → (poll_workflow_task_queue none
          (record { task_queue = req.task_queue; identity = identity })
          (serve_all os (add_workflow_task none req q).1)).0
        ≡ ok (record {
          task_token = json (
              object (
                field "run_id" (text req.run_id) (field "workflow_id" (text req.workflow_id) end)));
          workflow_type = req.workflow_type;
          history = [];
        })
  unfolding add_workflow_task poll_workflow_task_queue
  add_workflow_task-delivered req ids named all =
      rw (ids, named, pushed_queues)
        (workflow_reply_of
          (record {
            workflow_id = req.workflow_id;
            run_id = req.run_id;
            workflow_type = req.workflow_type;
            task_queue = req.task_queue;
          })
          _ (comes_next (queue_key default_namespace req.task_queue "workflow") _ os q all))

  -- An activity task likewise, with a token of its workflow, run and activity, its input and its heartbeat time-out
  -- of 32 bits.
  pub add_activity_task-delivered :
      (req : AddActivityTaskRequest)
      → (is_blank req.workflow_id || is_blank req.run_id || is_blank req.activity_id) ≡ false
      → is_blank req.task_queue ≡ false
      → in_int32 req.heartbeat_timeout_seconds ≡ true
      → taken (queue_key default_namespace req.task_queue "activity") os
        ≡ length (waiting (q (queue_key default_namespace req.task_queue "activity")))
      → (poll_activity_task_queue none
          (record { task_queue = req.task_queue; identity = identity })
          (serve_all os (add_activity_task none req q).1)).0
        ≡ ok (record {
          task_token = json (
              object (
                field "activity_id" (text req.activity_id) (
                  field "run_id"
                    (text req.run_id)
                    (field "workflow_id" (text req.workflow_id) end))));
          activity_id = req.activity_id;
          activity_type = req.activity_type;
          input = req.input;
          heartbeat_timeout_seconds = req.heartbeat_timeout_seconds;
        })
  unfolding add_activity_task poll_activity_task_queue
  add_activity_task-delivered req ids named small all =
      rw (ids, named, pushed_queues)
        (activity_reply_of (activity_of req) _ small
          (comes_next (queue_key default_namespace req.task_queue "activity") _ os q all))
