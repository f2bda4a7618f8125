-- ===== src/Matching/Order.antt =====
-- Any sequence of the operations of matching/internal, and where a task stands in its queue.
pub mod Served
pub mod Tasks
use mini_workflow.Prelude.{
  ℕ, suc, ◌+◌, ◌≡◌, refl, sym, ap, ◌∙◌, String, Bool, true, false, not, ◌&&◌, ◌||◌, Option, none,
  some, List, [], ◌∷◌, ◌++◌, arith, length, str_eq, eq_refl, eq_iff, subst, Bool-cases, inl, inr,
  if◌then◌else◌,
}
use mathlib.Core.List.{append_assoc}
use mini_workflow.Prelude.Int.{ℤ, in_int32}
use mini_workflow.Result.{Result, ok, err}
use mini_workflow.Codec.{Bytes, json, text, object, end, field}
use mini_workflow.Api.{
  Status, AddWorkflowTaskRequest, AddActivityTaskRequest, PollTaskQueueRequest,
  PollWorkflowTaskQueueResponse, PollActivityTaskQueueResponse,
}
use mini_workflow.Matching.Models.{
  WorkflowTask, ActivityTask, workflow_task_json, activity_task_json,
}
use mini_workflow.Matching.TaskQueue.{Queues, push, block_pop}
use mini_workflow.Matching.Service.{
  add_workflow_task, add_activity_task, poll_workflow_task_queue, poll_activity_task_queue,
  is_blank, queue_key, default_namespace, workflow_popped, activity_popped, pushed, activity_token,
}
use mini_workflow.Matching.Delivery.{
  waiting, first, rest_of, queue_fifo, activity_of, workflow_task-unmarshal,
  activity_task-unmarshal,
}

-- The requests of the service, with the failure of Redis, if it fails.
pub data Operation : Type 0 where
  workflow_added : Option String → AddWorkflowTaskRequest → Operation
  activity_added : Option String → AddActivityTaskRequest → Operation
  workflow_polled : Option String → PollTaskQueueRequest → Operation
  activity_polled : Option String → PollTaskQueueRequest → Operation

abbrev pub serve : Operation → Queues → Queues
serve (workflow_added fault r) q = (add_workflow_task fault r q).1
serve (activity_added fault r) q = (add_activity_task fault r q).1
serve (workflow_polled fault r) q = (poll_workflow_task_queue fault r q).1
serve (activity_polled fault r) q = (poll_activity_task_queue fault r q).1

abbrev pub serve_all : List Operation → Queues → Queues
serve_all [] q = q
serve_all (o ∷ rest) q = serve_all rest (serve o q)

-- Does an operation take a task from the queue of a key?
abbrev pub reaches : Option String → String → PollTaskQueueRequest → String → Bool
reaches (some e) kind r key = false
reaches none kind r key =
    not (is_blank r.task_queue) && str_eq (queue_key default_namespace r.task_queue kind) key

abbrev pub takes : String → Operation → Bool
takes key (workflow_added fault r) = false
takes key (activity_added fault r) = false
takes key (workflow_polled fault r) = reaches fault "workflow" r key
takes key (activity_polled fault r) = reaches fault "activity" r key

abbrev pub one_if : Bool → ℕ
one_if true = 1
one_if false = 0

abbrev pub taken : String → List Operation → ℕ
taken key [] = 0
taken key (o ∷ rest) = one_if (takes key o) + taken key rest

-- A payload stands in the queue with `n` others before it.
pub record Stands (key : String) (payload : Bytes) (n : ℕ) (q : Queues) : Type 0 where
  pub before : List Bytes
  pub behind : List Bytes
  pub queue : waiting (q key) ≡ before ++ payload ∷ behind
  pub ahead : length before ≡ n

module _ (key : String) (payload : Bytes) where
  behind_one_more :
      (p : Bytes) (n : ℕ) (q : Queues)
      → Stands key payload n q
      → Stands key payload n (push none key p q).1
  behind_one_more p n q s = record {
    before = s.before;
    behind = s.behind ++ p ∷ [];
    queue =
        (queue_fifo key key p q).0
        ∙ ap (λ c. if c then waiting (q key) ++ p ∷ [] else waiting (q key)) (eq_refl key)
        ∙ ap (λ l. l ++ p ∷ []) s.queue
        ∙ append_assoc s.before (payload ∷ s.behind) (p ∷ []);
    ahead = s.ahead;
  }

  -- Another payload is added to some queue.
  pub push-Stands :
      (fault : Option String) (other : String) (p : Bytes) (n : ℕ) (q : Queues)
      → Stands key payload n q
      → Stands key payload n (push fault other p q).1
  unfolding push
  push-Stands (some e) other p n q s = s
  push-Stands none other p n q s = elim (Bool-cases (str_eq other key)) [
    | inl own ↦
        subst (λ o. Stands key payload n (push none o p q).1) (sym ((eq_iff other key).0 own))
          (behind_one_more p n q s)
    | inr differ ↦ record {
      before = s.before;
      behind = s.behind;
      queue =
          (queue_fifo other key p q).0
          ∙ ap (λ c. if c then waiting (q other) ++ p ∷ [] else waiting (q key)) differ
          ∙ s.queue;
      ahead = s.ahead;
    }
  ]

  rested :
      (before behind l : List Bytes) (n : ℕ)
      → l ≡ before ++ payload ∷ behind
      → length before ≡ suc n
      → (fewer : List Bytes) × (rest_of l ≡ fewer ++ payload ∷ behind) × (length fewer ≡ n)
  rested [] behind l n e h = absurd (omega arith)
  rested (x ∷ fewer) behind l n e h = (fewer, ap rest_of e, omega arith)

  one_fewer :
      (n : ℕ) (q : Queues)
      → Stands key payload (suc n) q
      → Stands key payload n (block_pop none key q).1
  one_fewer n q s =
      let (fewer, rest, ahead) = rested s.before s.behind (waiting (q key)) n s.queue s.ahead in
      record {
        before = fewer;
        behind = s.behind;
        queue =
            (queue_fifo key key payload q).2
            ∙ ap (λ c. if c then rest_of (waiting (q key)) else waiting (q key)) (eq_refl key)
            ∙ rest;
        ahead = ahead;
      }

  pub block_pop-Stands :
      (other : String) (n : ℕ) (q : Queues)
      → Stands key payload (one_if (str_eq other key) + n) q
      → Stands key payload n (block_pop none other q).1
  block_pop-Stands other n q s = elim (Bool-cases (str_eq other key)) [
    | inl own ↦
        subst (λ o. Stands key payload n (block_pop none o q).1) (sym ((eq_iff other key).0 own))
          (one_fewer n q (subst (λ m. Stands key payload m q) (rw own (omega arith)) s))
    | inr differ ↦ record {
      before = s.before;
      behind = s.behind;
      queue =
          (queue_fifo other key payload q).2
          ∙ ap (λ c. if c then rest_of (waiting (q other)) else waiting (q key)) differ
          ∙ s.queue;
      ahead = s.ahead ∙ rw differ (omega arith);
    }
  ]
