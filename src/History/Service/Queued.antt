-- ===== src/History/Service/Queued.antt =====
-- The queues of the matching service after the history service has sent it a task: a description
-- that shares no code with the call.
use mini_workflow.Prelude.{
  ◌≡◌, refl, String, Bool, true, false, ◌||◌, none, some, [], ◌∷◌, concat, str_eq, if◌then◌else◌,
  Bool-cases, Option-cases, inl, inr,
}
use mini_workflow.Prelude.Int.{ℤ}
use mini_workflow.Result.{ok}
use mini_workflow.Codec.{Bytes, json, text, blob_of, number, object, end, field}
use mini_workflow.Api.{AddWorkflowTaskRequest, AddActivityTaskRequest}
use mini_workflow.Matching.Models.{workflow_task_json, activity_task_json}
use mini_workflow.Matching.TaskQueue.{Queues, push}
use mini_workflow.Matching.Service
use mini_workflow.Matching.Service.{queue_key}
use mini_workflow.History.World.{World, Env, add_workflow_task, add_activity_task}

-- The first call of a request does not get through: it is lost, or Redis fails behind it.
abbrev pub is_cut : Env → Bool
is_cut env = env.is_lost 0 || elim (env.queue_fault 0) [ none ↦ false | some e ↦ true ]

-- LPUSH to a key, unless the call does not get through or a name is missing.
abbrev pub put : Bool → Bool → String → Bytes → Queues → Queues
put cut missing key payload q k =
    if cut then q k else if missing then q k else if str_eq key k then payload ∷ q key else q k

-- The queues with a workflow task more, of a workflow, its run and its type, in a task queue.
abbrev pub with_workflow_task : Env → String → String → String → String → Queues → Queues
with_workflow_task env workflow_id run_id workflow_type task_queue =
    put (is_cut env) ((str_eq workflow_id "" || str_eq run_id "") || str_eq task_queue "")
      (concat ("task_queue:" ∷ "default" ∷ ":" ∷ task_queue ∷ ":" ∷ "workflow" ∷ []))
      (json (
        object (
          field "workflow_id" (text workflow_id) (
            field "run_id" (text run_id) (
              field "workflow_type" (text workflow_type)
                (field "task_queue" (text task_queue) end))))))

-- The queues with an activity task more.
abbrev pub with_activity_task :
    Env → String → String → String → String → Bytes → String → ℤ → Queues → Queues
with_activity_task env workflow_id run_id activity_id activity_type input task_queue timeout =
    put (is_cut env)
      ((str_eq workflow_id "" || str_eq run_id "" || str_eq activity_id "") || str_eq task_queue "")
      (concat ("task_queue:" ∷ "default" ∷ ":" ∷ task_queue ∷ ":" ∷ "activity" ∷ []))
      (json (
        object (
          field "workflow_id" (text workflow_id) (
            field "run_id" (text run_id) (
              field "activity_id" (text activity_id) (
                field "activity_type" (text activity_type) (
                  field "input" (blob_of input) (
                    field "task_queue" (text task_queue)
                      (field "heartbeat_timeout_seconds" (number timeout) end)))))))))

module _ (env : Env) (w : World) where
  pub add_workflow_task-queued :
      (r : AddWorkflowTaskRequest)
      → add_workflow_task env 0 r w ≡ (
        ok tt,
        record w {
          queues =
              with_workflow_task env r.workflow_id r.run_id r.workflow_type r.task_queue w.queues;
        },
      )
  unfolding add_workflow_task Service.add_workflow_task push queue_key workflow_task_json
  add_workflow_task-queued r = elim (Bool-cases (env.is_lost 0)) [
    | inl lost ↦ rw lost refl
    | inr arrives ↦ elim (Option-cases (env.queue_fault 0)) [
      | inr (e, down) ↦ elim (Bool-cases (str_eq r.workflow_id "" || str_eq r.run_id "")) [
        | inl blank ↦ rw (arrives, down, blank) refl
        | inr ids ↦ elim (Bool-cases (str_eq r.task_queue "")) [
          | inl blank ↦ rw (arrives, down, ids, blank) refl
          | inr named ↦ rw (arrives, down, ids, named) refl
        ]
      ]
      | inl up ↦ elim (Bool-cases (str_eq r.workflow_id "" || str_eq r.run_id "")) [
        | inl blank ↦ rw (arrives, up, blank) refl
        | inr ids ↦ elim (Bool-cases (str_eq r.task_queue "")) [
          | inl blank ↦ rw (arrives, up, ids, blank) refl
          | inr named ↦ rw (arrives, up, ids, named) refl
        ]
      ]
    ]
  ]

  pub add_activity_task-queued :
      (r : AddActivityTaskRequest)
      → add_activity_task env 0 r w ≡ (
        ok tt,
        record w {
          queues =
              with_activity_task env r.workflow_id r.run_id r.activity_id r.activity_type r.input
                r.task_queue r.heartbeat_timeout_seconds w.queues;
        },
      )
  unfolding add_activity_task Service.add_activity_task push queue_key activity_task_json
  add_activity_task-queued r = elim (Bool-cases (env.is_lost 0)) [
    | inl lost ↦ rw lost refl
    | inr arrives ↦ elim (Option-cases (env.queue_fault 0)) [
      | inr (e, down) ↦
          elim (Bool-cases
            (str_eq r.workflow_id "" || str_eq r.run_id "" || str_eq r.activity_id "")) [
              | inl blank ↦ rw (arrives, down, blank) refl
              | inr ids ↦ elim (Bool-cases (str_eq r.task_queue "")) [
                | inl blank ↦ rw (arrives, down, ids, blank) refl
                | inr named ↦ rw (arrives, down, ids, named) refl
              ]
            ]
      | inl up ↦
          elim (Bool-cases
            (str_eq r.workflow_id "" || str_eq r.run_id "" || str_eq r.activity_id "")) [
              | inl blank ↦ rw (arrives, up, blank) refl
              | inr ids ↦ elim (Bool-cases (str_eq r.task_queue "")) [
                | inl blank ↦ rw (arrives, up, ids, blank) refl
                | inr named ↦ rw (arrives, up, ids, named) refl
              ]
            ]
    ]
  ]
