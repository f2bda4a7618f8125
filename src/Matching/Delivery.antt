-- ===== src/Matching/Delivery.antt =====
-- The order in which the queues of matching/internal hand out tasks, and what a poll gets of a task.
use mini_workflow.Prelude.{
  ◌≡◌, refl, sym, ap, ◌∙◌, String, Bool, true, false, Option, none, some, List, [], ◌∷◌, ◌++◌,
  str_eq, eq_iff, eq_refl, Option-cases, inl, inr, if◌then◌else◌, ◌||◌,
}
use mini_workflow.Prelude.Text.{equal_fold}
use mini_workflow.Prelude.Int.{ℤ, pos, in_int32}
use mini_workflow.Result.{ok}
use mini_workflow.Codec.{Bytes, nil, raw, json, base64, blob_of, number, text, object, end, field}
use mini_workflow.Codec.Decode.{unmarshal, set_blob, set_int32}
use mini_workflow.Api.{AddWorkflowTaskRequest, AddActivityTaskRequest}
use mini_workflow.Matching.Models.{
  WorkflowTask, ActivityTask, no_workflow_task, no_activity_task, workflow_task_json,
  activity_task_json, set_workflow_task, set_activity_task,
}
use mini_workflow.Matching.TaskQueue.{Queues, push, block_pop, popped, split_last}
use mini_workflow.Matching.Service.{
  add_workflow_task, add_activity_task, poll_workflow_task_queue, poll_activity_task_queue,
  activity_token, is_blank, queue_key, default_namespace,
}

-- A queue from its oldest payload to its newest.
unfoldable pub waiting : List Bytes → List Bytes
waiting [] = []
waiting (x ∷ xs) = waiting xs ++ x ∷ []

abbrev pub first : List Bytes → Option Bytes
first [] = none
first (x ∷ xs) = some x

abbrev pub rest_of : List Bytes → List Bytes
rest_of [] = []
rest_of (x ∷ xs) = xs

abbrev last_of : Option (List Bytes × Bytes) → Option Bytes
last_of none = none
last_of (some (l, x)) = some x

abbrev init_of : Option (List Bytes × Bytes) → List Bytes
init_of none = []
init_of (some (l, x)) = l

only :
    (x : Bytes) (l : List Bytes)
    → first l ≡ none
    → (first (l ++ x ∷ []) ≡ some x) × (rest_of (l ++ x ∷ []) ≡ [])
only x [] h = (refl, refl)
only x (y ∷ l) h = cc

later :
    (x : Bytes) (l : List Bytes) {y : Bytes} {r : List Bytes}
    → first l ≡ some y
    → rest_of l ≡ r
    → (first (l ++ x ∷ []) ≡ some y) × (rest_of (l ++ x ∷ []) ≡ r ++ x ∷ [])
later x [] h e = cc
later x (z ∷ l) h e = (h, ap (λ m. m ++ x ∷ []) e)

split_last-waiting :
    (xs : List Bytes)
    → (first (waiting xs) ≡ last_of (split_last xs))
      × (rest_of (waiting xs) ≡ waiting (init_of (split_last xs)))
unfolding waiting split_last
split_last-waiting [] = (refl, refl)
split_last-waiting (x ∷ xs) = elim (Option-cases (split_last xs)) [
  | inl e ↦ let (h, t) = split_last-waiting xs in rw e (only x (waiting xs) (h ∙ ap last_of e))
  | inr (p, e) ↦
      let (h, t) = split_last-waiting xs in
      rw e (later x (waiting xs) (h ∙ ap last_of e) (t ∙ ap (λ o. waiting (init_of o)) e))
]

module _ (key other : String) (q : Queues) where
  unchanged :
      (c : Bool)
      → str_eq key other ≡ c
      → waiting (q key) ≡ []
      → waiting (q other) ≡ (if c then rest_of (waiting (q key)) else waiting (q other))
  unchanged true same e = rw e (ap (λ k. waiting (q k)) (sym ((eq_iff key other).0 same)) ∙ e)
  unchanged false differ e = refl

  shortened :
      (c : Bool) (l : List Bytes)
      → rest_of (waiting (q key)) ≡ waiting l
      → waiting (if c then l else q other)
        ≡ (if c then rest_of (waiting (q key)) else waiting (q other))
  shortened true l e = sym e
  shortened false l e = refl

  emptied : (l : List Bytes) → first l ≡ none → l ≡ []
  emptied [] h = refl
  emptied (x ∷ l) h = cc

  popped_lem :
      (o : Option (List Bytes × Bytes))
      → first (waiting (q key)) ≡ last_of o
      → rest_of (waiting (q key)) ≡ waiting (init_of o)
      → ((popped key q o).0 ≡ ok (first (waiting (q key))))
        × (waiting ((popped key q o).1 other)
            ≡ (if str_eq key other then rest_of (waiting (q key)) else waiting (q other)))
  popped_lem none h t = (rw h refl, unchanged (str_eq key other) refl (emptied (waiting (q key)) h))
  popped_lem (some (l, x)) h t = (rw h refl, shortened (str_eq key other) l t)

-- The abstract queue: adding puts a payload at the end, and polling takes the first, if there is
-- one; neither touches the queue of another key. A command of Redis that fails changes nothing.
pub queue_fifo :
    (key other : String) (payload : Bytes) (q : Queues)
    → (waiting ((push none key payload q).1 other)
        ≡ (if str_eq key other then waiting (q key) ++ payload ∷ [] else waiting (q other)))
      × ((block_pop none key q).0 ≡ ok (first (waiting (q key))))
      × (waiting ((block_pop none key q).1 other)
          ≡ (if str_eq key other then rest_of (waiting (q key)) else waiting (q other)))
unfolding push block_pop waiting
queue_fifo key other payload q =
    let (h, t) = split_last-waiting (q key) in
    let (taken, left) = popped_lem key other q (split_last (q key)) h t in
    (pushed (str_eq key other), taken, left)
  where
    pushed :
        (c : Bool)
        → waiting (if c then payload ∷ q key else q other)
          ≡ (if c then waiting (q key) ++ payload ∷ [] else waiting (q other))
    pushed true = refl
    pushed false = refl

pub workflow_task-unmarshal :
    (t : WorkflowTask)
    → unmarshal set_workflow_task (workflow_task_json t) no_workflow_task ≡ (t, none)
unfolding unmarshal set_workflow_task workflow_task_json equal_fold
workflow_task-unmarshal t = refl

set_blob-blob_of : (b : Bytes) → set_blob (blob_of b) nil ≡ (b, false)
set_blob-blob_of nil = refl
set_blob-blob_of (raw l) = refl
set_blob-blob_of (json j) = refl
set_blob-blob_of (base64 b) = refl

set_int32-number : (n : ℤ) → in_int32 n ≡ true → set_int32 (number n) (pos 0) ≡ (n, false)
set_int32-number n h = rw h refl

pub activity_task-unmarshal :
    (t : ActivityTask)
    → in_int32 t.heartbeat_timeout_seconds ≡ true
    → unmarshal set_activity_task (activity_task_json t) no_activity_task ≡ (t, none)
unfolding unmarshal set_activity_task activity_task_json equal_fold
activity_task-unmarshal t h =
    rw (set_blob-blob_of t.input, set_int32-number t.heartbeat_timeout_seconds h) refl

abbrev pub activity_of : AddActivityTaskRequest → ActivityTask
activity_of req = record {
  workflow_id = req.workflow_id;
  run_id = req.run_id;
  activity_id = req.activity_id;
  activity_type = req.activity_type;
  input = req.input;
  task_queue = req.task_queue;
  heartbeat_timeout_seconds = req.heartbeat_timeout_seconds;
}

module _ (q : Queues) (identity : String) where
  -- A workflow task that is added to an empty queue is the task of the next poll of it: the token
  -- names its workflow and run, and the reply its type. The ids and the name of the queue are not
  -- empty, and Redis answers.
  pub add_workflow_task-poll :
      (req : AddWorkflowTaskRequest)
      → (is_blank req.workflow_id || is_blank req.run_id) ≡ false
      → is_blank req.task_queue ≡ false
      → q (queue_key default_namespace req.task_queue "workflow") ≡ []
      → (poll_workflow_task_queue none
          (record { task_queue = req.task_queue; identity = identity })
          (add_workflow_task none req q).1).0
        ≡ ok (record {
          task_token = json (
              object (
                field "run_id" (text req.run_id) (field "workflow_id" (text req.workflow_id) end)));
          workflow_type = req.workflow_type;
          history = [];
        })
  unfolding add_workflow_task poll_workflow_task_queue push block_pop split_last
  add_workflow_task-poll req ids named empty =
      rw
        (
          ids,
          named,
          eq_refl (queue_key default_namespace req.task_queue "workflow"),
          empty,
          workflow_task-unmarshal,
        )
        refl

  -- An activity task likewise, with its id, type, input and heartbeat time-out of 32 bits.
  pub add_activity_task-poll :
      (req : AddActivityTaskRequest)
      → (is_blank req.workflow_id || is_blank req.run_id || is_blank req.activity_id) ≡ false
      → is_blank req.task_queue ≡ false
      → in_int32 req.heartbeat_timeout_seconds ≡ true
      → q (queue_key default_namespace req.task_queue "activity") ≡ []
      → (poll_activity_task_queue none
          (record { task_queue = req.task_queue; identity = identity })
          (add_activity_task none req q).1).0
        ≡ ok (record {
          task_token = activity_token (activity_of req);
          activity_id = req.activity_id;
          activity_type = req.activity_type;
          input = req.input;
          heartbeat_timeout_seconds = req.heartbeat_timeout_seconds;
        })
  unfolding add_activity_task poll_activity_task_queue push block_pop split_last
  add_activity_task-poll req ids named small empty =
      rw
        (
          ids,
          named,
          eq_refl (queue_key default_namespace req.task_queue "activity"),
          empty,
          activity_task-unmarshal (activity_of req) small,
        )
        refl
