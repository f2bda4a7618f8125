-- ===== src/History/Service/Evolution.antt =====
-- The handlers of history/internal/service against the specification `Changes`, one theorem for each.
pub mod Start
pub mod Heartbeat
use mini_workflow.Prelude.{
  ℕ, String, ◌≡◌, refl, sym, ap, ◌∙◌, subst, Bool, true, false, some, List, [], ◌∷◌, arith,
  if◌then◌else◌, ltb, length, ◌+◌, Bool-cases, inl, inr,
}
use mini_workflow.Prelude.Int.{ℤ}
use mini_workflow.Result.{Result, ok}
use mini_workflow.Api.{
  Status, RecordWorkflowTaskStartedRequest, RecordWorkflowTaskFailedHistoryRequest,
  RecordWorkflowTaskCompletedHistoryRequest, SignalWorkflowRequest,
  RecordActivityTaskStartedRequest, RecordActivityTaskCompletedRequest,
  RecordActivityTaskFailedRequest, AddWorkflowTaskRequest, AddActivityTaskRequest,
}
use mini_workflow.Matching.TaskQueue.{Queues}
use mini_workflow.History.TimerStore.{TimerStore}
use mini_workflow.History.Models.{WorkflowExecution, HistoryEvent, ActivityState, Timer}
use mini_workflow.History.Backend.{Backend}
use mini_workflow.History.Postgres.{Database, find_execution, is_running}
use mini_workflow.History.Postgres.Update.{Updated}
use mini_workflow.History.Postgres.Log.{Numbered}
use mini_workflow.History.Changes.{Changes, Change, same, one, updated}
use mini_workflow.History.World.{World, Env, schedule_timer, add_workflow_task, add_activity_task}
use mini_workflow.History.Service.Load.{new_event}
use mini_workflow.History.Service.Workflow.{start_workflow_task, fail_workflow_task, signal_run}
use mini_workflow.History.Service.Activity.{
  start_activity, complete_activity, fail_activity, retry_activity, give_up_activity,
  max_activity_attempts,
}
use mini_workflow.History.Service.Commands.{
  Batch, first_batch, run_commands, schedule_timers, enqueue_activities, complete_workflow_task,
}
use mini_workflow.History.Service.Batch.{
  IsNumbered, first_batch-IsNumbered, run_commands-IsNumbered,
}
use mini_workflow.History.Service.Rules.{
  Result-cases, load_activity-cases, commit-cases, commit-last,
}

module _ (env : Env) (k : ℕ) (w : World) where
  pub schedule_timer-db : (id : String) (at : ℤ) → (schedule_timer env k id at w).1.db ≡ w.db
  unfolding schedule_timer
  schedule_timer-db id at = refl

  pub add_workflow_task-db :
      (r : AddWorkflowTaskRequest) → (add_workflow_task env k r w).1.db ≡ w.db
  unfolding add_workflow_task
  add_workflow_task-db r = ground arith

  pub add_activity_task-db :
      (r : AddActivityTaskRequest) → (add_activity_task env k r w).1.db ≡ w.db
  unfolding add_activity_task
  add_activity_task-db r = ground arith

abbrev pub Evolves : {A : Type 0} → World → Result Status A × World → Type 0
Evolves w r = Changes w.db r.1.db

-- A run that has been read is still the one in the database, if that has its version.
abbrev pub Current : WorkflowExecution → Database → Type 0
Current exec db =
    (row : WorkflowExecution)
    → find_execution exec.key db.executions ≡ some row
    → row.current_version ≡ exec.current_version
    → row ≡ exec

pub found-Current :
    (exec : WorkflowExecution) (db : Database)
    → find_execution exec.key db.executions ≡ some exec
    → Current exec db
found-Current exec db found row at same_version = cc

-- A transaction on a run that numbers its events from the number that the handler has read.
pub Updated-Change :
    (row : WorkflowExecution) {now : ℤ} {exec : WorkflowExecution} {es : List HistoryEvent}
    {acts : List ActivityState} {ts : List Timer} {db db' : Database}
    → Current row db
    → exec.key ≡ row.key
    → Numbered exec.key row.next_event_id es exec.next_event_id
    → (is_running exec.status ≡ true → is_running row.status ≡ true)
    → Updated now exec row.current_version es acts ts db db'
    → Change db db'
Updated-Change row {now} {exec} {es} {acts} {ts} {db} current own numbered stays u =
    let same_row : u.row ≡ row =
      current u.row (ap (λ k. find_execution k db.executions) (sym own) ∙ u.found) u.version in
    updated now exec row.current_version es acts ts u
      (subst (λ (r : WorkflowExecution). Numbered exec.key r.next_event_id es exec.next_event_id)
        (sym same_row) numbered)
      (λ h. ap (λ (r : WorkflowExecution). is_running r.status) same_row ∙ stays h)

-- What a handler does to the run that it has read, whatever has been done since.
module _ ⦃b : Backend⦄ (env : Env) (exec : WorkflowExecution) (w : World)
    (current : Current exec w.db) (is_open : is_running exec.status ≡ true) where
  pub start_workflow_task-Evolves :
      (req : RecordWorkflowTaskStartedRequest) → Evolves w (start_workflow_task env req exec w)
  unfolding start_workflow_task new_event
  start_workflow_task-Evolves req =
      commit-cases env (Evolves w) w 1 _ exec.current_version _ [] _ _ (λ s. same)
        λ db' u.
          rw schedule_timer-db
            (one (Updated-Change exec current refl (refl, refl, refl) (λ _. is_open) u))

  pub fail_workflow_task-Evolves :
      (req : RecordWorkflowTaskFailedHistoryRequest) → Evolves w (fail_workflow_task env req exec w)
  unfolding fail_workflow_task new_event
  fail_workflow_task-Evolves req =
      commit-last env (Evolves w) w 1 _ exec.current_version _ [] [] (λ s. same)
        λ db' u.
          one (Updated-Change exec current refl (refl, refl, (refl, refl, refl)) (λ _. is_open) u)

  pub signal_run-Evolves : (req : SignalWorkflowRequest) → Evolves w (signal_run env req exec w)
  unfolding signal_run new_event
  signal_run-Evolves req =
      commit-cases env (Evolves w) w 1 _ exec.current_version _ [] [] _ (λ s. same)
        λ db' u.
          rw add_workflow_task-db
            (one (Updated-Change exec current refl (refl, refl, refl) (λ _. is_open) u))

  pub start_activity-Evolves :
      (req : RecordActivityTaskStartedRequest) → Evolves w (start_activity env req exec w)
  unfolding start_activity new_event
  start_activity-Evolves req =
      commit-last env (Evolves w) w 1 _ exec.current_version _ _ [] (λ s. same)
        λ db' u. one (Updated-Change exec current refl (refl, refl, refl) (λ _. is_open) u)

  pub complete_activity-Evolves :
      (req : RecordActivityTaskCompletedRequest) → Evolves w (complete_activity env req exec w)
  unfolding complete_activity new_event
  complete_activity-Evolves req =
      load_activity-cases env (Evolves w) w exec _ req.activity_id (λ s. same)
        λ act _.
          commit-cases env (Evolves w) w 2 _ exec.current_version _ _ [] _ (λ s. same)
            λ db' u.
              rw add_workflow_task-db
                (one (Updated-Change exec current refl (refl, refl, refl) (λ _. is_open) u))

  failed_branch :
      (req : RecordActivityTaskFailedRequest) (act : ActivityState) (c : Bool)
      → Evolves w
          ((if c then retry_activity env req exec act else give_up_activity env req exec act) w)
  unfolding retry_activity give_up_activity new_event
  failed_branch req act true =
      commit-cases env (Evolves w) w 2 _ exec.current_version _ _ _ _ (λ s. same)
        λ db' u.
          rw schedule_timer-db
            (one (Updated-Change exec current refl (refl, refl, refl) (λ _. is_open) u))
  failed_branch req act false =
      commit-cases env (Evolves w) w 2 _ exec.current_version _ _ [] _ (λ s. same)
        λ db' u.
          rw add_workflow_task-db
            (one (Updated-Change exec current refl (refl, refl, refl) (λ _. is_open) u))

  pub fail_activity-Evolves :
      (req : RecordActivityTaskFailedRequest) → Evolves w (fail_activity env req exec w)
  unfolding fail_activity
  fail_activity-Evolves req =
      load_activity-cases env (Evolves w) w exec _ req.activity_id (λ s. same)
        λ act _. failed_branch req act (ltb act.attempt max_activity_attempts)

module _ ⦃b : Backend⦄ (env : Env) where
  pub schedule_timers_lem :
      (k : ℕ) (ts : List Timer) (w : World)
      → (s : TimerStore) × (schedule_timers env k ts w ≡ (ok tt, record w { timer_store = s }))
  unfolding schedule_timers schedule_timer
  schedule_timers_lem k [] w = (w.timer_store, refl)
  schedule_timers_lem k (t ∷ rest) w = schedule_timers_lem (k + 1) rest _

  pub enqueue_activities_lem :
      (k : ℕ) (rs : List AddActivityTaskRequest) (w : World)
      → (q : Queues) × (enqueue_activities env k rs w ≡ (ok tt, record w { queues = q }))
  unfolding enqueue_activities add_activity_task
  enqueue_activities_lem k [] w = (w.queues, refl)
  enqueue_activities_lem k (r ∷ rest) w = elim (Bool-cases (env.is_lost k)) [
    | inl lost ↦ rw lost (enqueue_activities_lem (k + 1) rest _)
    | inr sent ↦ rw sent (enqueue_activities_lem (k + 1) rest _)
  ]

module _ ⦃b : Backend⦄ (env : Env) (exec : WorkflowExecution) (w : World)
    (current : Current exec w.db) (is_open : is_running exec.status ≡ true) where
  batch-Change :
      (x : Batch) {db' : Database}
      → IsNumbered exec x
      → Updated env.db_clock
          (record x.exec { next_event_id = x.event_id })
          exec.current_version
          x.events
          x.activities
          x.timers
          w.db
          db'
      → Change w.db db'
  batch-Change x h u =
      Updated-Change exec current h.same_key (rw h.same_key h.numbered) (λ _. is_open) u

  pub complete_workflow_task-Evolves :
      (req : RecordWorkflowTaskCompletedHistoryRequest)
      → Evolves w (complete_workflow_task env req exec w)
  unfolding complete_workflow_task
  complete_workflow_task-Evolves req =
      elim (Result-cases
        (run_commands env 0 req.commands (first_batch env exec (length req.commands)))) [
          | inr (s, e) ↦ rw e same
          | inl (x, e) ↦ rw e (
              commit-cases env (Evolves w) w 1 _ exec.current_version x.events x.activities x.timers
                _ (λ s. same)
                λ db' u.
                  let (s, timed) = schedule_timers_lem env 0 x.timers (record w { db = db' }) in
                  let (q, sent) =
                    enqueue_activities_lem env 0 x.tasks (record w { db = db'; timer_store = s }) in
                  rw (timed, sent)
                    (one (
                      batch-Change x
                        (run_commands-IsNumbered exec env 0 req.commands
                          (first_batch-IsNumbered exec env (length req.commands)) e)
                        u)))
        ]
