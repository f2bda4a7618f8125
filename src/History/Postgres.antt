-- ===== src/History/Postgres.antt =====
-- history/internal/adapters/postgres/repository.go over the tables of db/migrations. A table is the
-- list of its rows in order of insertion; its primary key or unique constraint is tested where a
-- row is inserted. A call's first argument is the failure of its connection or transaction, if it
-- fails; the whole call is then without effect. `now` is the server's CURRENT_TIMESTAMP.
pub mod Timers
pub mod Conflict
pub mod Find
pub mod Update
pub mod TimerRows
pub mod Log
pub mod Create
use mini_workflow.Prelude.{
  ℕ, ◌+◌, String, Bool, true, false, not, ◌&&◌, ◌||◌, Option, none, some, List, [], ◌∷◌, ◌++◌, ◌==◌,
  leb, str_eq, concat, keep, if◌then◌else◌,
}
use mini_workflow.Prelude.Int.{ℤ, ltz, lt64}
use mini_workflow.Result.{Result, ok, err, ◌>>=◌, ◌>>◌, unless_fault, refuse_if, or_err}
use mini_workflow.History.Models.{
  Uuid, RunKey, WorkflowExecution, HistoryEvent, ActivityState, Timer, WorkflowStatus, TimerType,
  running, activity_timeout, same_run,
}
use mini_workflow.History.Backend.{Backend}

pub record Database : Type 0 where
  pub executions : List WorkflowExecution
  pub events : List HistoryEvent
  pub activities : List ActivityState
  pub timers : List Timer

abbrev pub Fault : Type 0
Fault = Option String

unfoldable pub find_execution : RunKey → List WorkflowExecution → Option WorkflowExecution
find_execution k [] = none
find_execution k (e ∷ rest) = if same_run e.key k then some e else find_execution k rest

-- The row with the key of `r` gives way to `r`.
unfoldable pub replace_execution :
    WorkflowExecution → List WorkflowExecution → List WorkflowExecution
replace_execution r [] = []
replace_execution r (e ∷ rest) =
    if same_run e.key r.key then r ∷ rest else e ∷ replace_execution r rest

-- UNIQUE (namespace, workflow_id, run_id, event_id)
unfoldable pub has_event : RunKey → ℕ → List HistoryEvent → Bool
has_event k i [] = false
has_event k i (e ∷ rest) = (same_run e.key k && e.event_id == i) || has_event k i rest

abbrev pub same_activity : ActivityState → RunKey → String → Bool
same_activity a k id = same_run a.key k && str_eq a.activity_id id

unfoldable pub find_activity : RunKey → String → List ActivityState → Option ActivityState
find_activity k id [] = none
find_activity k id (a ∷ rest) = if same_activity a k id then some a else find_activity k id rest

-- INSERT … ON CONFLICT (namespace, workflow_id, run_id, activity_id) DO UPDATE: every column that
-- is not in the key is taken from the new row.
unfoldable pub upsert_activity : ActivityState → List ActivityState → List ActivityState
upsert_activity a [] = a ∷ []
upsert_activity a (b ∷ rest) =
    if same_activity b a.key a.activity_id then a ∷ rest else b ∷ upsert_activity a rest

unfoldable pub find_timer : Uuid → List Timer → Option Timer
find_timer id [] = none
find_timer id (t ∷ rest) = if t.timer_id == id then some t else find_timer id rest

abbrev pub is_some {ℓ} : {A : Type ℓ} → Option A → Bool
is_some (some _) = true
is_some none = false

abbrev pub duplicate_key : String
duplicate_key = "pq: duplicate key value violates unique constraint"

abbrev pub not_refused : Option String → Result String (Unit {0})
not_refused none = ok tt
not_refused (some e) = err e

abbrev pub max_int64 : ℕ
max_int64 = 9223372036854775807

abbrev pub concurrency_conflict : String
concurrency_conflict = "concurrency conflict: version mismatch"

module _ ⦃b : Backend⦄ where
  unfoldable pub insert_event :
      ℤ → HistoryEvent → List HistoryEvent → Result String (List HistoryEvent)
  insert_event now e events = do
    not_refused (b.refuses_event e)
    refuse_if (has_event e.key e.event_id events) duplicate_key
    ok (events ++ record e { created_at = now } ∷ [])

  -- A statement with several rows inserts all or none; the caller drops what an error leaves.
  unfoldable pub insert_events :
      ℤ → List HistoryEvent → List HistoryEvent → Result String (List HistoryEvent)
  insert_events now [] events = ok events
  insert_events now (e ∷ rest) events = insert_event now e events >>= insert_events now rest

  unfoldable pub upsert_activities :
      List ActivityState → List ActivityState → Result String (List ActivityState)
  upsert_activities [] rows = ok rows
  upsert_activities (a ∷ rest) rows =
      not_refused (b.refuses_activity a) >>= λ _. upsert_activities rest (upsert_activity a rows)

  unfoldable pub insert_timers : List Timer → List Timer → Result String (List Timer)
  insert_timers [] rows = ok rows
  insert_timers (t ∷ rest) rows = not_refused (b.refuses_timer t) >>= λ _.
      refuse_if (is_some (find_timer t.timer_id rows)) duplicate_key >>= λ _.
      insert_timers rest (rows ++ t ∷ [])

  unfoldable pub create_workflow_execution :
      Fault → ℤ → WorkflowExecution → HistoryEvent → Database → Result String Database
  create_workflow_execution fault now exec initial_event db = unless_fault fault (do
    not_refused (b.refuses_execution exec)
    refuse_if (is_some (find_execution exec.key db.executions)) duplicate_key
    events ← insert_event now initial_event db.events
    let row = record exec { start_time = now; last_updated_time = now; result = none }
    ok (record db { executions = db.executions ++ row ∷ []; events = events }))

  -- UPDATE … SET … WHERE key AND current_version = expected; no row affected is a conflict.
  unfoldable pub update_row :
      ℤ → WorkflowExecution → ℕ → Option WorkflowExecution → Result String WorkflowExecution
  update_row now exec expected_version none = err concurrency_conflict
  update_row now exec expected_version (some row) = do
    refuse_if (not (row.current_version == expected_version)) concurrency_conflict
    refuse_if (leb max_int64 row.current_version) "pq: bigint out of range"
    let updated = record row {
      status = exec.status;
      current_version = row.current_version + 1;
      next_event_id = exec.next_event_id;
      result = exec.result;
      last_updated_time = now;
    }
    not_refused (b.refuses_execution updated)
    ok updated

  unfoldable pub update_workflow_execution :
      Fault
      → ℤ
      → WorkflowExecution
      → ℕ
      → List HistoryEvent
      → List ActivityState
      → List Timer
      → Database
      → Result String Database
  update_workflow_execution fault now exec expected_version events activities timers db =
      unless_fault fault (do
        row ← update_row now exec expected_version (find_execution exec.key db.executions)
        events' ← insert_events now events db.events
        activities' ← upsert_activities activities db.activities
        timers' ← insert_timers timers db.timers
        ok (record {
          executions = replace_execution row db.executions;
          events = events';
          activities = activities';
          timers = timers';
        }))

unfoldable pub get_workflow_execution : Fault → RunKey → Database → Result String WorkflowExecution
get_workflow_execution fault k db =
    unless_fault fault (or_err (find_execution k db.executions) "workflow execution not found")

abbrev pub is_running : WorkflowStatus → Bool
is_running running = true
is_running _ = false

unfoldable pub first_running : String → String → List WorkflowExecution → Option WorkflowExecution
first_running ns wf [] = none
first_running ns wf (e ∷ rest) =
    if str_eq e.namespace ns && str_eq e.workflow_id wf && is_running e.status
    then some e
    else first_running ns wf rest

-- No row is no error, and no execution.
unfoldable pub find_running_workflow :
    Fault → String → String → Database → Result String (Option WorkflowExecution)
find_running_workflow fault ns wf db = unless_fault fault (ok (first_running ns wf db.executions))

-- ORDER BY event_id ASC
unfoldable pub insert_by_id : HistoryEvent → List HistoryEvent → List HistoryEvent
insert_by_id e [] = e ∷ []
insert_by_id e (f ∷ rest) =
    if lt64 f.event_id e.event_id then f ∷ insert_by_id e rest else e ∷ f ∷ rest

unfoldable pub order_by_id : List HistoryEvent → List HistoryEvent
unfolding insert_by_id
order_by_id [] = []
order_by_id (e ∷ rest) = insert_by_id e (order_by_id rest)

unfoldable pub events_of : RunKey → List HistoryEvent → List HistoryEvent
events_of k = keep (λ e. same_run e.key k)

unfoldable pub get_history_events : Fault → RunKey → Database → Result String (List HistoryEvent)
get_history_events fault k db = unless_fault fault (ok (order_by_id (events_of k db.events)))

unfoldable pub get_activity_state : Fault → RunKey → String → Database → Result String ActivityState
get_activity_state fault k id db =
    unless_fault fault
      (or_err (find_activity k id db.activities) (concat ("activity state not found: " ∷ id ∷ [])))
