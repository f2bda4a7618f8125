-- ===== src/Matching/Order/Served.antt =====
-- One operation, and any sequence of them, of matching/internal/service/matching.go on a payload
-- that stands in a queue.
use mini_workflow.Prelude.{
  ℕ, ◌+◌, ◌≡◌, refl, ap, ◌∙◌, String, true, false, not, ◌&&◌, ◌||◌, Option, none, some, List, [],
  ◌∷◌, ◌++◌, arith, length, str_eq, eq_refl, subst, Bool-cases, inl, inr, if◌then◌else◌,
}
use mini_workflow.Result.{Result, ok, err}
use mini_workflow.Codec.{Bytes}
use mini_workflow.Api.{AddWorkflowTaskRequest, AddActivityTaskRequest, PollTaskQueueRequest}
use mini_workflow.Matching.TaskQueue.{Queues, push, block_pop}
use mini_workflow.Matching.Service.{
  add_workflow_task, add_activity_task, poll_workflow_task_queue, poll_activity_task_queue,
  is_blank, queue_key, default_namespace, workflow_popped, activity_popped, pushed,
}
use mini_workflow.Matching.Delivery.{waiting, first, queue_fifo}
use mini_workflow.Matching.Order.{
  Operation, workflow_added, activity_added, workflow_polled, activity_polled, serve, serve_all,
  reaches, takes, one_if, taken, Stands, push-Stands, block_pop-Stands,
}

pub pushed_queues :
    (what : String) (r : Result String (Unit {0}) × Queues) → (pushed what r).1 ≡ r.1
pushed_queues what (ok _, q) = refl
pushed_queues what (err e, q) = refl

workflow_popped_queues : (r : Result String (Option Bytes) × Queues) → (workflow_popped r).1 ≡ r.1
workflow_popped_queues (ok none, q) = refl
workflow_popped_queues (ok (some p), q) = refl
workflow_popped_queues (err e, q) = refl

activity_popped_queues : (r : Result String (Option Bytes) × Queues) → (activity_popped r).1 ≡ r.1
activity_popped_queues (ok none, q) = refl
activity_popped_queues (ok (some p), q) = refl
activity_popped_queues (err e, q) = refl

module _ (key : String) (payload : Bytes) where
  added_workflow :
      (fault : Option String) (r : AddWorkflowTaskRequest) (n : ℕ) (q : Queues)
      → Stands key payload n q
      → Stands key payload n (add_workflow_task fault r q).1
  unfolding add_workflow_task
  added_workflow fault r n q s = elim (Bool-cases (is_blank r.workflow_id || is_blank r.run_id)) [
    | inl blank ↦ rw blank s
    | inr ids ↦ rw ids (elim (Bool-cases (is_blank r.task_queue)) [
      | inl blank ↦ rw blank s
      | inr named ↦
          rw (named, pushed_queues)
            (push-Stands key payload fault (queue_key default_namespace r.task_queue "workflow") _ n
              q s)
    ])
  ]

  added_activity :
      (fault : Option String) (r : AddActivityTaskRequest) (n : ℕ) (q : Queues)
      → Stands key payload n q
      → Stands key payload n (add_activity_task fault r q).1
  unfolding add_activity_task
  added_activity fault r n q s =
      elim (Bool-cases (is_blank r.workflow_id || is_blank r.run_id || is_blank r.activity_id)) [
        | inl blank ↦ rw blank s
        | inr ids ↦ rw ids (elim (Bool-cases (is_blank r.task_queue)) [
          | inl blank ↦ rw blank s
          | inr named ↦
              rw (named, pushed_queues)
                (push-Stands key payload fault (queue_key default_namespace r.task_queue "activity")
                  _ n q s)
        ])
      ]

  none_taken : (n : ℕ) (q : Queues) → Stands key payload (0 + n) q → Stands key payload n q
  none_taken n q s = record {
    before = s.before;
    behind = s.behind;
    queue = s.queue;
    ahead = omega (arith, s.ahead);
  }

  module _ (kind : String) (r : PollTaskQueueRequest) (n : ℕ) (q : Queues) where
    unreached :
        (fault : Option String)
        → is_blank r.task_queue ≡ true
        → Stands key payload (one_if (reaches fault kind r key) + n) q
        → Stands key payload n q
    unreached (some e) blank s = none_taken n q s
    unreached none blank s = none_taken n q (
        subst (λ c. Stands key payload (one_if c + n) q)
          (ap (λ b. not b && str_eq (queue_key default_namespace r.task_queue kind) key) blank) s)

    reached :
        (fault : Option String)
        → is_blank r.task_queue ≡ false
        → Stands key payload (one_if (reaches fault kind r key) + n) q
        → Stands key payload n (block_pop fault (queue_key default_namespace r.task_queue kind) q).1
    unfolding block_pop
    reached (some e) named s = none_taken n q s
    reached none named s =
        block_pop-Stands key payload (queue_key default_namespace r.task_queue kind) n q (
          subst (λ c. Stands key payload (one_if c + n) q)
            (ap (λ b. not b && str_eq (queue_key default_namespace r.task_queue kind) key) named) s)

  polled_workflow :
      (fault : Option String) (r : PollTaskQueueRequest) (n : ℕ) (q : Queues)
      → Stands key payload (one_if (reaches fault "workflow" r key) + n) q
      → Stands key payload n (poll_workflow_task_queue fault r q).1
  unfolding poll_workflow_task_queue
  polled_workflow fault r n q s = elim (Bool-cases (is_blank r.task_queue)) [
    | inl blank ↦ rw blank (unreached "workflow" r n q fault blank s)
    | inr named ↦ rw (named, workflow_popped_queues) (reached "workflow" r n q fault named s)
  ]

  polled_activity :
      (fault : Option String) (r : PollTaskQueueRequest) (n : ℕ) (q : Queues)
      → Stands key payload (one_if (reaches fault "activity" r key) + n) q
      → Stands key payload n (poll_activity_task_queue fault r q).1
  unfolding poll_activity_task_queue
  polled_activity fault r n q s = elim (Bool-cases (is_blank r.task_queue)) [
    | inl blank ↦ rw blank (unreached "activity" r n q fault blank s)
    | inr named ↦ rw (named, activity_popped_queues) (reached "activity" r n q fault named s)
  ]

  serve-Stands :
      (o : Operation) (n : ℕ) (q : Queues)
      → Stands key payload (one_if (takes key o) + n) q
      → Stands key payload n (serve o q)
  serve-Stands (workflow_added fault r) n q s = added_workflow fault r n q (none_taken n q s)
  serve-Stands (activity_added fault r) n q s = added_activity fault r n q (none_taken n q s)
  serve-Stands (workflow_polled fault r) n q s = polled_workflow fault r n q s
  serve-Stands (activity_polled fault r) n q s = polled_activity fault r n q s

  serve_all-Stands :
      (os : List Operation) (n : ℕ) (q : Queues)
      → Stands key payload (taken key os + n) q
      → Stands key payload n (serve_all os q)
  serve_all-Stands [] n q s = none_taken n q s
  serve_all-Stands (o ∷ rest) n q s =
      serve_all-Stands rest n (serve o q) (
        serve-Stands o (taken key rest + n) q (subst (λ m. Stands key payload m q) (omega arith) s))

  pushed-Stands :
      (q : Queues) → Stands key payload (length (waiting (q key))) (push none key payload q).1
  pushed-Stands q = record {
    before = waiting (q key);
    behind = [];
    queue =
        (queue_fifo key key payload q).0
        ∙ ap (λ c. if c then waiting (q key) ++ payload ∷ [] else waiting (q key)) (eq_refl key);
    ahead = refl;
  }

  at_head :
      (before behind l : List Bytes)
      → l ≡ before ++ payload ∷ behind
      → length before ≡ 0
      → first l ≡ some payload
  at_head [] behind l e h = rw e refl
  at_head (x ∷ before) behind l e h = absurd (omega arith)

  popped_next : (q : Queues) → Stands key payload 0 q → (block_pop none key q).0 ≡ ok (some payload)
  popped_next q s =
      (queue_fifo key key payload q).1
      ∙ ap ok (at_head s.before s.behind (waiting (q key)) s.queue s.ahead)

  -- After a push and any operations that take as many tasks as were there, it is the next.
  pub comes_next :
      (os : List Operation) (q : Queues)
      → taken key os ≡ length (waiting (q key))
      → (block_pop none key (serve_all os (push none key payload q).1)).0 ≡ ok (some payload)
  comes_next os q all = popped_next (serve_all os (push none key payload q).1) (
      serve_all-Stands os 0 (push none key payload q).1 (
        subst (λ m. Stands key payload m (push none key payload q).1) (omega (arith, all))
          (pushed-Stands q)))
