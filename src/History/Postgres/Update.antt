-- ===== src/History/Postgres/Update.antt =====
-- What a successful transaction of `UpdateWorkflowExecution` has done.
use mini_workflow.Prelude.{
  ℕ, ◌+◌, ◌≡◌, refl, ap, subst, ◌∙◌, Option, none, some, List, [], ◌∷◌, ◌++◌, map, arith,
}
use mathlib.Core.List.{append_assoc, append-nil}
use mini_workflow.Prelude.Int.{ℤ}
use mini_workflow.Result.{ok, >>=-eq-ok, refuse_if}
use mini_workflow.History.Models.{WorkflowExecution, HistoryEvent, ActivityState, Timer}
use mini_workflow.History.Backend.{Backend}
use mini_workflow.History.Postgres.{
  Database, Fault, find_execution, replace_execution, upsert_activity, insert_event, insert_events,
  upsert_activities, insert_timers, update_row, update_workflow_execution, is_some, not_refused,
  find_timer, duplicate_key,
}
use mini_workflow.History.Postgres.TimerRows.{AllKept, insert_timers-AllKept}

abbrev pub stamp : ℤ → HistoryEvent → HistoryEvent
stamp now e = record e { created_at = now }

abbrev pub upsert_all : List ActivityState → List ActivityState → List ActivityState
upsert_all [] rows = rows
upsert_all (a ∷ rest) rows = upsert_all rest (upsert_activity a rows)

abbrev pub updated : ℤ → WorkflowExecution → WorkflowExecution → WorkflowExecution
updated now exec row = record row {
  status = exec.status;
  current_version = row.current_version + 1;
  next_event_id = exec.next_event_id;
  result = exec.result;
  last_updated_time = now;
}

-- The row that was found has been changed, and the events and timers appended.
pub record Updated (now : ℤ) (exec : WorkflowExecution) (v : ℕ) (es : List HistoryEvent)
    (acts : List ActivityState) (ts : List Timer) (db db' : Database) : Type 0 where
  pub row : WorkflowExecution
  pub found : find_execution exec.key db.executions ≡ some row
  pub version : row.current_version ≡ v
  pub executions : db'.executions ≡ replace_execution (updated now exec row) db.executions
  pub events : db'.events ≡ db.events ++ map (stamp now) es
  pub activities : db'.activities ≡ upsert_all acts db.activities
  pub timers : db'.timers ≡ db.timers ++ ts
  pub timers_kept : AllKept db.timers db'.timers

module _ ⦃b : Backend⦄ where
  pub insert_event-ok :
      (now : ℤ) (e : HistoryEvent) (rows : List HistoryEvent) {rows' : List HistoryEvent}
      → insert_event now e rows ≡ ok rows'
      → rows' ≡ rows ++ stamp now e ∷ []
  unfolding insert_event
  insert_event-ok now e rows h = ground arith

  pub insert_events-ok :
      (now : ℤ) (es rows : List HistoryEvent) {rows' : List HistoryEvent}
      → insert_events now es rows ≡ ok rows'
      → rows' ≡ rows ++ map (stamp now) es
  unfolding insert_events
  insert_events-ok now [] rows h = rw append-nil (ground arith)
  insert_events-ok now (e ∷ es) rows h =
      let (mid, first, rest) = >>=-eq-ok (insert_event now e rows) (insert_events now es) h in
      insert_events-ok now es mid rest
      ∙ ap (λ l. l ++ map (stamp now) es) (insert_event-ok now e rows first)
      ∙ append_assoc rows (stamp now e ∷ []) (map (stamp now) es)

  pub upsert_activities-ok :
      (acts rows : List ActivityState) {rows' : List ActivityState}
      → upsert_activities acts rows ≡ ok rows'
      → rows' ≡ upsert_all acts rows
  unfolding upsert_activities
  upsert_activities-ok [] rows h = ground arith
  upsert_activities-ok (a ∷ acts) rows h =
      let (_, _, rest) = >>=-eq-ok (not_refused (b.refuses_activity a)) _ h in
      upsert_activities-ok acts (upsert_activity a rows) rest

  pub insert_timers-ok :
      (ts rows : List Timer) {rows' : List Timer}
      → insert_timers ts rows ≡ ok rows'
      → rows' ≡ rows ++ ts
  unfolding insert_timers
  insert_timers-ok [] rows h = rw append-nil (ground arith)
  insert_timers-ok (t ∷ ts) rows h =
      let (_, _, more) = >>=-eq-ok (not_refused (b.refuses_timer t)) _ h in
      let (_, _, rest) =
        >>=-eq-ok (refuse_if (is_some (find_timer t.timer_id rows)) duplicate_key) _ more in
      insert_timers-ok ts (rows ++ t ∷ []) rest ∙ append_assoc rows (t ∷ []) ts

  update_row-ok :
      (now : ℤ) (exec : WorkflowExecution) (v : ℕ) (found : Option WorkflowExecution)
      {row' : WorkflowExecution}
      → update_row now exec v found ≡ ok row'
      → (row : WorkflowExecution) × (found ≡ some row)
        × (row.current_version ≡ v)
        × (row' ≡ updated now exec row)
  unfolding update_row
  update_row-ok now exec v none h = cc
  update_row-ok now exec v (some row) h = (row, refl, ground arith, ground arith)

  module _ (now : ℤ) (exec : WorkflowExecution) (v : ℕ) (es : List HistoryEvent)
      (acts : List ActivityState) (ts : List Timer) (db : Database) where
    -- A transaction that succeeds has done this.
    pub update-Updated :
        (fault : Fault) {db' : Database}
        → update_workflow_execution fault now exec v es acts ts db ≡ ok db'
        → Updated now exec v es acts ts db db'
    unfolding update_workflow_execution
    update-Updated (some e) h = cc
    update-Updated none {db'} h =
        let (row', rowed, h₁) = >>=-eq-ok (update_row now exec v _) _ h in
        let (events', evented, h₂) = >>=-eq-ok (insert_events now es db.events) _ h₁ in
        let (acts', acted, h₃) = >>=-eq-ok (upsert_activities acts db.activities) _ h₂ in
        let (ts', timed, h₄) = >>=-eq-ok (insert_timers ts db.timers) _ h₃ in
        let (row, found, version, e) = update_row-ok now exec v _ rowed in
        let same_timers : ts' ≡ db'.timers = cc in
        record {
          row = row;
          found = found;
          version = version;
          executions = cc;
          events = cc (insert_events-ok now es db.events evented);
          activities = cc (upsert_activities-ok acts db.activities acted);
          timers = cc (insert_timers-ok ts db.timers timed);
          timers_kept =
              subst (AllKept db.timers) same_timers (insert_timers-AllKept ts db.timers timed);
        }
