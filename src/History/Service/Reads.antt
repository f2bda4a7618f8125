-- ===== src/History/Service/Reads.antt =====
-- The requests that only read: get_workflow_execution_history.go and query_workflow_execution.go.
use mini_workflow.Prelude.{
  ℕ, zero, suc, ◌+◌, ◌<◌, ◌≤◌, ◌≡◌, refl, ap, ◌∙◌, keep, String, none, List, [], ◌∷◌, map, inl, inr,
  arith, length, cons-head, cons-tail, Option-cases,
}
use mini_workflow.Prelude.Int.{lt64, unix_milli}
use mini_workflow.Result.{Result, ok, err}
use mini_workflow.Api
use mini_workflow.Api.{Status, QueryWorkflowRequest, GetHistoryRequest}
use mini_workflow.History.Models.{Uuid, RunKey, HistoryEvent, same_run}
use mini_workflow.History.Backend.{Backend}
use mini_workflow.History.Postgres.{
  Database, get_history_events, order_by_id, insert_by_id, events_of, find_execution,
}
use mini_workflow.History.Postgres.Log.{IsGapless, ids_of, ids_from}
use mini_workflow.History.Changes.{max_events, length-ids_of, length-ids_from}
use mini_workflow.History.World.{World, Env, continue, pure}
use mini_workflow.History.Service.Load.{default_run, run_id_from_string}
use mini_workflow.History.Service.Rules.{Result-cases}
use mini_workflow.History.Service.Workflow.{
  query_workflow_execution, get_workflow_execution_history, read_events, proto_event,
}

module _ ⦃b : Backend⦄ (env : Env) (w : World) where
  read_events-world : (wf run : String) → (read_events env wf run w).1 ≡ w
  read_events-world wf run = elim (Result-cases (run_id_from_string run)) [
    | inr (x, e) ↦ rw e refl
    | inl (u, e) ↦ rw e refl
  ]

  kept :
      {A B : Type 0} (m : Result Status A × World) (f : A → B)
      → m.1 ≡ w
      → (continue m (λ a. pure (f a))).1 ≡ w
  kept (ok a, v) f e = e
  kept (err s, v) f e = e

  pub query_workflow_execution-world :
      (req : QueryWorkflowRequest) → (query_workflow_execution env req w).1 ≡ w
  unfolding query_workflow_execution
  query_workflow_execution-world req =
      kept (read_events env req.workflow_id req.run_id w) (λ _. req.query_args)
        (read_events-world _ _)

  pub get_workflow_execution_history-world :
      (req : GetHistoryRequest) → (get_workflow_execution_history env req w).1 ≡ w
  unfolding get_workflow_execution_history
  get_workflow_execution_history-world req =
      kept (read_events env req.workflow_id req.run_id w) (map (proto_event env))
        (read_events-world _ _)

-- A list of events numbered one after the other is in the order of the numbers.
insert_by_id-first :
    (e : HistoryEvent) (n c : ℕ) (rest : List HistoryEvent)
    → e.event_id ≡ n
    → n + c < 9223372036854775808
    → map (λ f. f.event_id) rest ≡ ids_from (suc n) c
    → insert_by_id e rest ≡ e ∷ rest
unfolding insert_by_id lt64
insert_by_id-first e n c [] own h ids = refl
insert_by_id-first e n zero (f ∷ rest) own h ids = cc
insert_by_id-first e n (suc c) (f ∷ rest) own h ids = ground (arith, cons-head ids)

order_by_id-ids_from :
    (n c : ℕ) (es : List HistoryEvent)
    → n + c ≤ 9223372036854775808
    → map (λ f. f.event_id) es ≡ ids_from n c
    → order_by_id es ≡ es
unfolding order_by_id
order_by_id-ids_from n c [] h ids = refl
order_by_id-ids_from n zero (e ∷ es) h ids = cc
order_by_id-ids_from n (suc c) (e ∷ es) h ids =
    rw (order_by_id-ids_from (suc n) c es (omega arith) (cons-tail ids))
      (insert_by_id-first e n c es (cons-head ids) (omega arith) (cons-tail ids))

ids_of-IsGapless :
    (k : RunKey) {db : Database}
    → IsGapless db
    → (count : ℕ) × (ids_of k db.events ≡ ids_from 1 count) × (count ≤ length db.events)
ids_of-IsGapless k {db} g = elim (Option-cases (find_execution k db.executions)) [
  | inl absent ↦ (0, g.unlogged k absent, omega arith)
  | inr (e, found) ↦
      let (count, ids, next) = g.logged k e found in
      (count, ids, omega (arith, length-ids_of k db.events, ap length ids, length-ids_from 1 count))
]

module _ ⦃b : Backend⦄ (env : Env) (w : World) where
  reply_ids :
      (es : List HistoryEvent)
      → map (λ e. e.event_id) (map (proto_event env) es) ≡ map (λ e. e.event_id) es
  reply_ids [] = refl
  reply_ids (e ∷ es) = ap (λ ids. e.event_id ∷ ids) (reply_ids es)

  -- In a database whose logs have no gap, the history of a run is the run's events in the order in
  -- which they were written, each with its number, type, payload and time in milliseconds, and the
  -- numbers in the reply are 1, 2, … without a gap; the world does not change. The run id is one that
  -- parses, the read succeeds, and the table has at most 2^63 - 2 events.
  pub get_workflow_execution_history-IsGapless :
      (req : GetHistoryRequest) (u : Uuid)
      → run_id_from_string req.run_id ≡ ok u
      → env.db_fault 0 ≡ none
      → IsGapless w.db
      → length w.db.events ≤ max_events
      → (reply : List Api.HistoryEvent) × (count : ℕ) × (get_workflow_execution_history env req w
          ≡ (ok reply, w))
        × (reply
            ≡ map
                (λ e. record {
                  event_id = e.event_id;
                  event_type = e.event_type;
                  payload = e.payload;
                  timestamp = unix_milli e.created_at;
                })
                (keep (λ e. same_run e.key (default_run req.workflow_id u)) w.db.events))
        × (map (λ e. e.event_id) reply ≡ ids_from 1 count)
  unfolding get_workflow_execution_history get_history_events events_of ids_of
  get_workflow_execution_history-IsGapless req u named up gapless room =
      let k = default_run req.workflow_id u in
      let (count, ids, short) = ids_of-IsGapless k gapless in
      (
        map (proto_event env) (events_of k w.db.events),
        count,
        rw
            (
              named,
              up,
              order_by_id-ids_from 1 count (events_of k w.db.events) (omega (arith, short)) ids,
            )
            refl,
        refl,
        reply_ids (events_of k w.db.events) ∙ ids,
      )
