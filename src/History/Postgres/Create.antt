-- ===== src/History/Postgres/Create.antt =====
-- What a successful `CreateWorkflowExecution` has done.
use mini_workflow.Prelude.{
  ◌≡◌, ap, ◌∙◌, false, none, some, [], ◌∷◌, ◌++◌, arith, if◌then◌else◌, Bool-cases, inl, inr,
}
use mathlib.Core.List.{append-nil}
use mini_workflow.Prelude.Int.{ℤ}
use mini_workflow.Result.{ok, >>=-eq-ok, refuse_if}
use mini_workflow.History.Models.{RunKey, WorkflowExecution, HistoryEvent, same_run, same_run_iff}
use mini_workflow.History.Backend.{Backend}
use mini_workflow.History.Postgres.{
  Database, Fault, find_execution, insert_event, create_workflow_execution, not_refused, is_some,
  duplicate_key,
}
use mini_workflow.History.Postgres.Find.{find_execution-append}
use mini_workflow.History.Postgres.Update.{stamp, insert_event-ok}
use mini_workflow.History.Postgres.Log.{ids_of, ids_of-append, IsGapless}

abbrev pub inserted : ℤ → WorkflowExecution → WorkflowExecution
inserted now exec = record exec { start_time = now; last_updated_time = now; result = none }

pub record Created (now : ℤ) (exec : WorkflowExecution) (e : HistoryEvent) (db db' : Database)
    : Type 0 where
  pub fresh : find_execution exec.key db.executions ≡ none
  pub executions : db'.executions ≡ db.executions ++ inserted now exec ∷ []
  pub events : db'.events ≡ db.events ++ stamp now e ∷ []
  pub timers : db'.timers ≡ db.timers

module _ ⦃b : Backend⦄ (now : ℤ) (exec : WorkflowExecution) (e : HistoryEvent) (db : Database) where
  pub create-Created :
      (fault : Fault) {db' : Database}
      → create_workflow_execution fault now exec e db ≡ ok db'
      → Created now exec e db db'
  unfolding create_workflow_execution
  create-Created (some x) h = cc
  create-Created none {db'} h =
      let (_, _, h₁) = >>=-eq-ok (not_refused (b.refuses_execution exec)) _ h in
      let (_, absent, h₂) =
        >>=-eq-ok (refuse_if (is_some (find_execution exec.key db.executions)) duplicate_key) _
          h₁ in
      let (events', evented, h₃) = >>=-eq-ok (insert_event now e db.events) _ h₂ in
      record {
        fresh = ground arith;
        executions = cc;
        events = cc (insert_event-ok now e db.events evented);
        timers = cc;
      }

module _ {now : ℤ} {exec : WorkflowExecution} {e : HistoryEvent} {db db' : Database}
    (c : Created now exec e db db') where
  pub find-Created :
      (k : RunKey)
      → find_execution k db'.executions
        ≡ (if same_run exec.key k then some (inserted now exec) else find_execution k db.executions)
  find-Created k =
      ground
        (arith, c.executions, c.fresh, find_execution-append k db.executions (inserted now exec))

  module _ (gapless : IsGapless db) (own : e.key ≡ exec.key) (first : e.event_id ≡ 1)
      (second : exec.next_event_id ≡ 2) where
    new_ids : (k : RunKey) → ids_of k db'.events ≡ ids_of k db.events ++ ids_of k (stamp now e ∷ [])
    new_ids k = ap (ids_of k) c.events ∙ ids_of-append k db.events (stamp now e ∷ [])

    same_ids : (k : RunKey) → same_run exec.key k ≡ false → ids_of k db'.events ≡ ids_of k db.events
    unfolding ids_of
    same_ids k other = ground (arith, new_ids k, own, append-nil (ids_of k db.events))

    own_ids : ids_of exec.key db'.events ≡ 1 ∷ []
    unfolding ids_of
    own_ids = ground (
      arith,
      new_ids exec.key,
      own,
      first,
      gapless.unlogged exec.key c.fresh,
      same_run_iff e.key exec.key,
    )

    -- The first event of a new run is number 1.
    pub Created-IsGapless : IsGapless db'
    Created-IsGapless = record {
      logged = λ k x h. elim (Bool-cases (same_run exec.key k)) [
        | inl same ↦
            let same_key : exec.key ≡ k = (same_run_iff exec.key k).0 same in
            (
              1,
              cc (own_ids, ap (λ j. ids_of j db'.events) same_key),
              ground (arith, find-Created k, second),
            )
        | inr other ↦
            let (count, ids, next) = gapless.logged k x (ground (arith, find-Created k)) in
            (count, cc (same_ids k other, ids), next)
      ];
      unlogged = λ k h. elim (Bool-cases (same_run exec.key k)) [
        | inl same ↦ absurd (ground (arith, find-Created k))
        | inr other ↦ cc (same_ids k other, gapless.unlogged k (ground (arith, find-Created k)))
      ];
    }
