-- ===== src/History/Postgres/Find.antt =====
-- Lookups in the tables after a row has been replaced, inserted or put in place of another.
use mini_workflow.Prelude.{
  String, ◌≡◌, refl, true, false, some, List, [], ◌∷◌, ◌++◌, arith, if◌then◌else◌, eq_iff, str_eq,
}
use mini_workflow.History.Models.{RunKey, WorkflowExecution, ActivityState, same_run, same_run_iff}
use mini_workflow.History.Postgres.{
  find_execution, replace_execution, find_activity, upsert_activity, is_some,
}

pub same_run_refl : (k : RunKey) → same_run k k ≡ true
same_run_refl k = (same_run_iff k k).1 refl

pub find_execution-key :
    (k : RunKey) (rows : List WorkflowExecution) (e : WorkflowExecution)
    → find_execution k rows ≡ some e
    → e.key ≡ k
unfolding find_execution
find_execution-key k [] e h = cc
find_execution-key k (r ∷ rest) e h =
    ground (arith, same_run_iff r.key k, find_execution-key k rest e)

pub find_execution-replace :
    (r : WorkflowExecution) (k : RunKey) (rows : List WorkflowExecution)
    → is_some (find_execution r.key rows) ≡ true
    → find_execution k (replace_execution r rows)
      ≡ (if same_run r.key k then some r else find_execution k rows)
unfolding find_execution replace_execution
find_execution-replace r k [] h = cc
find_execution-replace r k (e ∷ rest) h = ground (
  arith,
  same_run_iff e.key r.key,
  same_run_iff e.key k,
  same_run_iff r.key k,
  find_execution-replace r k rest,
)

pub find_execution-append :
    (k : RunKey) (rows : List WorkflowExecution) (r : WorkflowExecution)
    → is_some (find_execution r.key rows) ≡ false
    → find_execution k (rows ++ r ∷ [])
      ≡ (if same_run r.key k then some r else find_execution k rows)
unfolding find_execution
find_execution-append k [] r h = refl
find_execution-append k (e ∷ rest) r h = ground (
  arith,
  same_run_iff e.key r.key,
  same_run_iff e.key k,
  same_run_iff r.key k,
  find_execution-append k rest r,
)

pub find_activity-upsert :
    (a : ActivityState) (k : RunKey) (id : String) (rows : List ActivityState)
    → find_activity k id (upsert_activity a rows) ≡ (
        if same_run a.key k
        then (if str_eq a.activity_id id then some a else find_activity k id rows)
        else find_activity k id rows)
unfolding find_activity upsert_activity
find_activity-upsert a k id [] = ground arith
find_activity-upsert a k id (b ∷ rest) = ground (
  arith,
  same_run_iff b.key a.key,
  same_run_iff b.key k,
  same_run_iff a.key k,
  eq_iff b.activity_id a.activity_id,
  eq_iff b.activity_id id,
  eq_iff a.activity_id id,
  find_activity-upsert a k id rest,
)

pub find_activity-key :
    (k : RunKey) (id : String) (rows : List ActivityState) (a : ActivityState)
    → find_activity k id rows ≡ some a
    → (a.key ≡ k) × (a.activity_id ≡ id)
unfolding find_activity
find_activity-key k id [] a h = cc
find_activity-key k id (b ∷ rest) a h =
    ground (arith, same_run_iff b.key k, eq_iff b.activity_id id, find_activity-key k id rest a)
