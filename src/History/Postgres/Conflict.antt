-- ===== src/History/Postgres/Conflict.antt =====
-- The expected version of `UpdateWorkflowExecution`: which of two writers wins, and what the loser
-- is told.
use mini_workflow.Prelude.{
  ◌++◌, map, ℕ, ◌+◌, ◌≡◌, ap, ◌∙◌, Bool, none, some, List, arith, if◌then◌else◌,
}
use mini_workflow.Prelude.Int.{ℤ}
use mini_workflow.Result.{ok, err}
use mini_workflow.History.Models.{
  RunKey, WorkflowExecution, HistoryEvent, ActivityState, Timer, same_run,
}
use mini_workflow.History.Backend.{Backend}
use mini_workflow.History.Postgres.{
  Database, Fault, find_execution, update_workflow_execution, concurrency_conflict, update_row,
}
use mini_workflow.History.Postgres.Find.{same_run_refl}
use mini_workflow.History.Postgres.Update.{stamp, updated, update-Updated}
use mini_workflow.History.Postgres.Log.{find-Updated}

module _ ⦃b : Backend⦄ (now : ℤ) (exec : WorkflowExecution) (es : List HistoryEvent)
    (acts : List ActivityState) (ts : List Timer) (db : Database) where
  stale_row :
      (row : WorkflowExecution) (v : ℕ)
      → (row.current_version ≡ v → row.current_version + 1 ≡ row.current_version)
      → find_execution exec.key db.executions ≡ some row
      → update_workflow_execution none now exec v es acts ts db ≡ err concurrency_conflict
  unfolding update_workflow_execution update_row
  stale_row row v other found = ground (arith, found)

  pub update-stale :
      (v : ℕ) (row : WorkflowExecution)
      → find_execution exec.key db.executions ≡ some row
      → row.current_version ≡ v + 1
      → update_workflow_execution none now exec v es acts ts db ≡ err concurrency_conflict
  update-stale v row found ahead = stale_row row v (λ e. omega arith) found

-- A transaction that succeeds found the run at the version that it expected; it gives that run the
-- next version and what was asked for, leaves every other run, and adds the events and the timers
-- at the ends of their tables.
pub update-ok :
    ⦃b : Backend⦄ (fault : Fault) (now : ℤ) (exec : WorkflowExecution) (v : ℕ)
    (es : List HistoryEvent) (acts : List ActivityState) (ts : List Timer) (db db' : Database)
    → update_workflow_execution fault now exec v es acts ts db ≡ ok db'
    → (row : WorkflowExecution) × (find_execution exec.key db.executions ≡ some row)
      × (row.current_version ≡ v)
      × ((k : RunKey)
          → find_execution k db'.executions ≡ (
              if same_run exec.key k
              then some (updated now exec row)
              else find_execution k db.executions))
      × (db'.events ≡ db.events ++ map (stamp now) es)
      × (db'.timers ≡ db.timers ++ ts)
update-ok fault now exec v es acts ts db db' h =
    let u = update-Updated now exec v es acts ts db fault h in
    (u.row, u.found, u.version, find-Updated u, u.events, u.timers)

-- Of two transactions that have read the same version of a run, only the first can succeed: after
-- it has, the second, with whatever events, activities and timers, is a concurrency conflict, if the
-- database answers it.
pub update-conflict :
    ⦃b : Backend⦄ (first second : WorkflowExecution) (v : ℕ) (fault : Fault) (now now' : ℤ)
    (es es' : List HistoryEvent) (acts acts' : List ActivityState) (ts ts' : List Timer)
    (db db' : Database)
    → first.key ≡ second.key
    → update_workflow_execution fault now first v es acts ts db ≡ ok db'
    → update_workflow_execution none now' second v es' acts' ts' db' ≡ err concurrency_conflict
update-conflict first second v fault now now' es es' acts acts' ts ts' db db' same h =
    let u = update-Updated now first v es acts ts db fault h in
    update-stale now' second es' acts' ts' db' v (updated now first u.row)
      (find-Updated u second.key
        ∙ ap
            (λ (c : Bool).
              if c then some (updated now first u.row) else find_execution second.key db.executions)
            (ap (λ k. same_run k second.key) same ∙ same_run_refl second.key))
      (ap (λ n. n + 1) u.version)
