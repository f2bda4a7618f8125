-- ===== src/History/Service/Rules.antt =====
-- One rule for each step that the handlers are made of: what holds of the rest of a handler in each
-- case holds of the whole.
use mini_workflow.Prelude.{
  ℕ, String, ◌≡◌, refl, ap, ◌∙◌, ◌⊎◌, inl, inr, true, Option, some, List, arith, Bool-cases,
}
use mini_workflow.Result.{Result, ok, err}
use mini_workflow.Api.{Status, Code, internal, not_found}
use mini_workflow.History.Models.{RunKey, WorkflowExecution, HistoryEvent, ActivityState, Timer}
use mini_workflow.History.Backend.{Backend}
use mini_workflow.History.Postgres.{
  Database, find_execution, find_activity, get_workflow_execution, get_activity_state,
  update_workflow_execution, is_running,
}
use mini_workflow.History.Postgres.Find.{find_execution-key}
use mini_workflow.History.Postgres.Update.{Updated, update-Updated}
use mini_workflow.History.World.{World, Env, Exec, ◌>>=◌, ◌>>◌, continue, query, write}
use mini_workflow.History.Service.Load.{
  default_run, run_id_from_string, load, check_running, load_running, load_activity, commit,
}

pub Result-cases {ℓ κ} :
    {E : Type ℓ} {A : Type κ} (r : Result E A) → ((a : A) × (r ≡ ok a)) ⊎ ((e : E) × (r ≡ err e))
Result-cases (ok a) = inl (a, refl)
Result-cases (err e) = inr (e, refl)

module _ {A B : Type 0} (P : Result Status B × World → Type 0) (f : A → Exec B) (w : World) where
  -- A query leaves the world as it is.
  pub query-cases :
      (c : Code) (what : String) (q : Database → Result String A)
      → ((s : Status) → P (err s, w))
      → ((a : A) → q w.db ≡ ok a → P (f a w))
      → P ((query c what q >>= f) w)
  query-cases c what q failed found = elim (Result-cases (q w.db)) [
    | inl (a, e) ↦ rw e (found a e)
    | inr (x, e) ↦ rw e (failed _)
  ]

module _ {B : Type 0} (P : Result Status B × World → Type 0) (m : Exec B) (w : World) where
  pub write-cases :
      (what : String) (q : Database → Result String Database)
      → ((s : Status) → P (err s, w))
      → ((db' : Database) → q w.db ≡ ok db' → P (m (record w { db = db' })))
      → P ((write what q >> m) w)
  write-cases what q failed done = elim (Result-cases (q w.db)) [
    | inl (a, e) ↦ rw e (done a e)
    | inr (x, e) ↦ rw e (failed _)
  ]

write_last :
    (P : Result Status (Unit {0}) × World → Type 0) (w : World) (what : String)
    (q : Database → Result String Database)
    → ((s : Status) → P (err s, w))
    → ((db' : Database) → q w.db ≡ ok db' → P (ok tt, record w { db = db' }))
    → P (write what q w)
write_last P w what q failed done = elim (Result-cases (q w.db)) [
  | inl (a, e) ↦ rw e (done a e)
  | inr (x, e) ↦ rw e (failed _)
]

pub get_workflow_execution-ok :
    (fault : Option String) (k : RunKey) (db : Database) {e : WorkflowExecution}
    → get_workflow_execution fault k db ≡ ok e
    → find_execution k db.executions ≡ some e
unfolding get_workflow_execution
get_workflow_execution-ok fault k db h = ground arith

pub get_activity_state-ok :
    (fault : Option String) (k : RunKey) (id : String) (db : Database) {a : ActivityState}
    → get_activity_state fault k id db ≡ ok a
    → find_activity k id db.activities ≡ some a
unfolding get_activity_state
get_activity_state-ok fault k id db h = ground arith

module _ ⦃b : Backend⦄ (env : Env) where
  module _ (Q : Result Status WorkflowExecution × World → Type 0) (w : World) where
    checked :
        (run : RunKey) (exec : WorkflowExecution)
        → ((s : Status) → Q (err s, w))
        → ((exec : WorkflowExecution)
            → find_execution exec.key w.db.executions ≡ some exec
            → is_running exec.status ≡ true
            → Q (ok exec, w))
        → find_execution run w.db.executions ≡ some exec
        → Q (check_running env exec w)
    checked run exec failed found at = elim (Bool-cases (is_running exec.status)) [
      | inl is_open ↦ rw is_open (
          found exec
            (ap (λ k. find_execution k w.db.executions)
                (find_execution-key run w.db.executions exec at)
              ∙ at)
            is_open)
      | inr closed ↦ rw closed (failed _)
    ]

    loaded :
        (run : RunKey)
        → ((s : Status) → Q (err s, w))
        → ((exec : WorkflowExecution)
            → find_execution exec.key w.db.executions ≡ some exec
            → is_running exec.status ≡ true
            → Q (ok exec, w))
        → Q (
            (query not_found "workflow execution not found"
                  (get_workflow_execution (env.db_fault 0) run)
                >>= check_running env)
              w)
    loaded run failed found =
        query-cases Q (check_running env) w not_found "workflow execution not found"
          (get_workflow_execution (env.db_fault 0) run) failed
          (λ exec at.
            checked run exec failed found (get_workflow_execution-ok (env.db_fault 0) run w.db at))

    load_running-elim :
        (workflow_id run_id : String)
        → ((s : Status) → Q (err s, w))
        → ((exec : WorkflowExecution)
            → find_execution exec.key w.db.executions ≡ some exec
            → is_running exec.status ≡ true
            → Q (ok exec, w))
        → Q (load_running env workflow_id run_id w)
    unfolding load_running load
    load_running-elim workflow_id run_id failed found =
        elim (Result-cases (run_id_from_string run_id)) [
          | inr (x, e) ↦ rw e (failed _)
          | inl (u, e) ↦ rw e (loaded (default_run workflow_id u) failed found)
        ]

  module _ {B : Type 0} (P : Result Status B × World → Type 0) (w : World) where
    -- A request goes on with the run that it names, if that is open.
    pub load_running-cases :
        (m : WorkflowExecution → Exec B) (workflow_id run_id : String)
        → ((s : Status) → P (err s, w))
        → ((exec : WorkflowExecution)
            → find_execution exec.key w.db.executions ≡ some exec
            → is_running exec.status ≡ true
            → P (m exec w))
        → P ((load_running env workflow_id run_id >>= m) w)
    load_running-cases m workflow_id run_id failed found =
        load_running-elim (λ r. P (continue r m)) w workflow_id run_id failed found

    pub load_activity-cases :
        (exec : WorkflowExecution) (m : ActivityState → Exec B) (activity_id : String)
        → ((s : Status) → P (err s, w))
        → ((act : ActivityState)
            → find_activity exec.key activity_id w.db.activities ≡ some act
            → P (m act w))
        → P ((load_activity env exec activity_id >>= m) w)
    unfolding load_activity
    load_activity-cases exec m activity_id failed found =
        query-cases P m w internal "get activity state"
          (get_activity_state (env.db_fault 1) exec.key activity_id) failed
          (λ act at.
            found act (get_activity_state-ok (env.db_fault 1) exec.key activity_id w.db at))

    pub commit-cases :
        (k : ℕ) (exec : WorkflowExecution) (v : ℕ) (es : List HistoryEvent)
        (acts : List ActivityState) (ts : List Timer) (m : Exec B)
        → ((s : Status) → P (err s, w))
        → ((db' : Database)
            → Updated env.db_clock exec v es acts ts w.db db'
            → P (m (record w { db = db' })))
        → P ((commit env k exec v es acts ts >> m) w)
    unfolding commit
    commit-cases k exec v es acts ts m failed done =
        write-cases P m w "update execution"
          (update_workflow_execution (env.db_fault k) env.db_clock exec v es acts ts) failed
          (λ db' at.
            done db' (update-Updated env.db_clock exec v es acts ts w.db (env.db_fault k) at))

  module _ (Q : Result Status (Unit {0}) × World → Type 0) (w : World) where
    -- A commit that ends the handler.
    pub commit-last :
        (k : ℕ) (exec : WorkflowExecution) (v : ℕ) (es : List HistoryEvent)
        (acts : List ActivityState) (ts : List Timer)
        → ((s : Status) → Q (err s, w))
        → ((db' : Database)
            → Updated env.db_clock exec v es acts ts w.db db'
            → Q (ok tt, record w { db = db' }))
        → Q (commit env k exec v es acts ts w)
    unfolding commit
    commit-last k exec v es acts ts failed done =
        write_last Q w "update execution"
          (update_workflow_execution (env.db_fault k) env.db_clock exec v es acts ts) failed
          (λ db' at.
            done db' (update-Updated env.db_clock exec v es acts ts w.db (env.db_fault k) at))
