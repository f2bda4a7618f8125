-- ===== src/History/Service/Race.antt =====
-- The check for an open run and the creation of one are two calls of the database. What two starts
-- leave whose checks both come before the first creation.
use mini_workflow.Prelude.{◌≡◌, refl, sym, ap, false, some, arith}
use mini_workflow.Result.{ok}
use mini_workflow.Api.{StartWorkflowRequest}
use mini_workflow.History.Models.{WorkflowExecution, HistoryEvent, same_run, same_run_iff}
use mini_workflow.History.Backend.{Backend}
use mini_workflow.History.Postgres.{Database, Fault, find_execution, create_workflow_execution}
use mini_workflow.History.Postgres.Find.{same_run_refl}
use mini_workflow.History.Postgres.Create.{create-Created, find-Created, inserted}
use mini_workflow.History.Changes.OneOpen.{IsSingle}
use mini_workflow.History.World.{Env}
use mini_workflow.History.Service.Workflow.{first_execution}

module _ ⦃b : Backend⦄ (first second : Env) (sr : StartWorkflowRequest) where
  abbrev row_of : Env → WorkflowExecution
  row_of env = first_execution env sr (env.uuid 0)

  -- Two creations of runs of one workflow that follow each other and both succeed leave two runs of
  -- it open: nothing in the database stands in for the check that a start makes before.
  pub start-race :
      (fault fault' : Fault) (e e' : HistoryEvent) (db db₁ db₂ : Database)
      → create_workflow_execution fault first.db_clock (row_of first) e db ≡ ok db₁
      → create_workflow_execution fault' second.db_clock (row_of second) e' db₁ ≡ ok db₂
      → ¬ IsSingle db₂
  start-race fault fault' e e' db db₁ db₂ h h' single =
      let c = create-Created first.db_clock (row_of first) e db fault h in
      let c' = create-Created second.db_clock (row_of second) e' db₁ fault' h' in
      let j = (row_of first).key in
      let k = (row_of second).key in
      let early : find_execution j db₁.executions ≡ some (inserted first.db_clock (row_of first)) =
        ground (arith, find-Created c j, same_run_refl j) in
      let late : find_execution k db₂.executions ≡ some (inserted second.db_clock (row_of second)) =
        ground (arith, find-Created c' k, same_run_refl k) in
      let differ : same_run k j ≡ false =
        ground
          (arith, early, c'.fresh, ap (λ l. find_execution l db₁.executions), same_run_iff k j) in
      let still : find_execution j db₂.executions ≡ some (inserted first.db_clock (row_of first)) =
        ground (arith, find-Created c' j, differ, early) in
      let same : j ≡ k =
        single.same_key j k
          (record { row = inserted first.db_clock (row_of first); found = still; running = refl })
          (record { row = inserted second.db_clock (row_of second); found = late; running = refl })
          refl refl in
      cc (differ, (same_run_iff k j).1 (sym same))
