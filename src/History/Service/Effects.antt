-- ===== src/History/Service/Effects.antt =====
-- What each handler of history/internal/service that changes a run leaves when it succeeds: the
-- types of the events that it adds, and the status and the version of the run.
pub mod Bodies
pub mod Handlers
use mini_workflow.Prelude.{
  ℕ, ◌+◌, ◌≡◌, refl, sym, ap, subst, ◌∙◌, String, Bool, true, false, ◌||◌, Option, none, some, List,
  [], ◌∷◌, ◌++◌, map, arith, length, ltb, str_eq, Bool-cases, inl, inr, if◌then◌else◌,
}
use mathlib.Core.List.{map-append, append_assoc, append-nil}
use mini_workflow.Prelude.Int.{ℤ}
use mini_workflow.Result.{Result, ok, err, >>=-eq-ok}
use mini_workflow.Api.{
  Status, Command, RecordWorkflowTaskCompletedHistoryRequest, RecordActivityTaskFailedRequest,
}
use mini_workflow.History.Models.{
  Uuid, WorkflowExecution, WorkflowStatus, HistoryEvent, ActivityState, Timer, completed,
}
use mini_workflow.History.Backend.{Backend}
use mini_workflow.History.Postgres.{Database, find_execution, is_running}
use mini_workflow.History.Postgres.Find.{same_run_refl}
use mini_workflow.History.Postgres.Update.{stamp, updated, Updated}
use mini_workflow.History.Postgres.Log.{find-Updated}
use mini_workflow.History.World.{World, Env}
use mini_workflow.History.Service.Commands.{
  Batch, append_event, schedule_activity, start_timer, complete_workflow, run_command, run_commands,
  first_batch, scheduled_with, timer_with,
}
use mini_workflow.History.Service.Load.{new_event}
use mini_workflow.History.Service.Attributes.{ScheduleAttributes, TimerAttributes}

abbrev pub types : List HistoryEvent → List String
types es = map (λ (e : HistoryEvent). e.event_type) es

-- The events of one command, and of a list of them.
abbrev pub command_events : Command → List String
command_events c =
    if str_eq c.command_type "ScheduleActivityTask"
    then "ActivityTaskScheduled" ∷ []
    else if str_eq c.command_type "StartTimer"
    then "TimerStarted" ∷ []
    else if str_eq c.command_type "CompleteWorkflowExecution"
    then "WorkflowExecutionCompleted" ∷ []
    else []

abbrev pub commands_events : List Command → List String
commands_events [] = []
commands_events (c ∷ rest) = command_events c ++ commands_events rest

-- The status after the commands: the first two kinds leave it.
abbrev pub closes : Command → Bool
closes c =
    if str_eq c.command_type "ScheduleActivityTask"
    then false
    else if str_eq c.command_type "StartTimer"
    then false
    else str_eq c.command_type "CompleteWorkflowExecution"

abbrev pub status_after : List Command → WorkflowStatus → WorkflowStatus
status_after [] s = s
status_after (c ∷ rest) s = status_after rest (if closes c then completed else s)

-- A successful change of one run: `exec` is the run before.
pub record Effect (kinds : List String) (outcome : WorkflowStatus) (exec : WorkflowExecution)
    (db db' : Database) : Type 0 where
  pub more : List HistoryEvent
  pub log : db'.events ≡ db.events ++ more
  pub kinds_of : types more ≡ kinds
  pub now : WorkflowExecution
  pub found : find_execution exec.key db'.executions ≡ some now
  pub status : now.status ≡ outcome
  pub version : now.current_version ≡ exec.current_version + 1

types-stamp : (now : ℤ) (es : List HistoryEvent) → types (map (stamp now) es) ≡ types es
types-stamp now [] = refl
types-stamp now (e ∷ es) = ap (λ l. e.event_type ∷ l) (types-stamp now es)

pub Updated-Effect :
    (exec : WorkflowExecution) {now : ℤ} {exec' : WorkflowExecution} {es : List HistoryEvent}
    {acts : List ActivityState} {ts : List Timer} {db db' : Database}
    → exec'.key ≡ exec.key
    → Updated now exec' exec.current_version es acts ts db db'
    → Effect (types es) exec'.status exec db db'
Updated-Effect exec {now} {exec'} {es} own u = record {
  more = map (stamp now) es;
  log = u.events;
  kinds_of = types-stamp now es;
  now = updated now exec' u.row;
  found = ground (arith, find-Updated u exec.key, own, same_run_refl exec.key);
  status = refl;
  version = ap (λ n. n + 1) u.version;
}

-- What commands add to a batch.
pub record Gains (kinds : List String) (outcome : WorkflowStatus) (x y : Batch) : Type 0 where
  pub gained : types y.events ≡ types x.events ++ kinds
  pub left : y.exec.status ≡ outcome

ok-inj : {E A : Type 0} {a c : A} → ◌≡◌ {A = Result E A} (ok a) (ok c) → a ≡ c
ok-inj h = cc h

nothing : (x : Batch) → Gains [] x.exec.status x x
nothing x = record { gained = sym (append-nil (types x.events)); left = refl }

module _ ⦃b : Backend⦄ (env : Env) where
  appended :
      (es : List HistoryEvent) (e : HistoryEvent)
      → types (es ++ e ∷ []) ≡ types es ++ e.event_type ∷ []
  appended es e = map-append (λ (f : HistoryEvent). f.event_type) es (e ∷ [])

  scheduled :
      (k : ℕ) (x : Batch) (u : ScheduleAttributes × Option String) {y : Batch}
      → scheduled_with env k x u ≡ ok y
      → Gains ("ActivityTaskScheduled" ∷ []) x.exec.status x y
  unfolding schedule_activity append_event new_event
  scheduled k x (attrs, none) h =
      subst (Gains ("ActivityTaskScheduled" ∷ []) x.exec.status x) (ok-inj h)
        (record { gained = appended x.events _; left = refl })
  scheduled k x (attrs, some e) h = cc

  timed :
      (k : ℕ) (x : Batch) (u : TimerAttributes × Option String) {y : Batch}
      → timer_with env k x u ≡ ok y
      → Gains ("TimerStarted" ∷ []) x.exec.status x y
  unfolding start_timer append_event new_event
  timed k x (attrs, none) h =
      subst (Gains ("TimerStarted" ∷ []) x.exec.status x) (ok-inj h)
        (record { gained = appended x.events _; left = refl })
  timed k x (attrs, some e) h = cc

  commanded :
      (k : ℕ) (cmd : Command) (x : Batch) {y : Batch}
      → run_command env k cmd x ≡ ok y
      → Gains (command_events cmd) (if closes cmd then completed else x.exec.status) x y
  unfolding run_command complete_workflow append_event new_event
  commanded k cmd x h = elim (Bool-cases (str_eq cmd.command_type "ScheduleActivityTask")) [
    | inl own ↦ rw own (scheduled k x _ (rw own at h))
    | inr not_first ↦ elim (Bool-cases (str_eq cmd.command_type "StartTimer")) [
      | inl own ↦ rw (not_first, own) (timed k x _ (rw (not_first, own) at h))
      | inr not_second ↦ elim (Bool-cases (str_eq cmd.command_type "CompleteWorkflowExecution")) [
        | inl own ↦
            rw (not_first, not_second, own)
              (subst (Gains ("WorkflowExecutionCompleted" ∷ []) completed x)
                (ok-inj (rw (not_first, not_second, own) at h))
                (record { gained = appended x.events _; left = refl }))
        | inr not_third ↦
            rw (not_first, not_second, not_third)
              (subst (Gains [] x.exec.status x)
                (ok-inj (rw (not_first, not_second, not_third) at h)) (nothing x))
      ]
    ]
  ]

  pub run_commands-Gains :
      (k : ℕ) (cmds : List Command) (x : Batch) {y : Batch}
      → run_commands env k cmds x ≡ ok y
      → Gains (commands_events cmds) (status_after cmds x.exec.status) x y
  unfolding run_commands
  run_commands-Gains k [] x h = subst (Gains [] x.exec.status x) (ok-inj h) (nothing x)
  run_commands-Gains k (cmd ∷ rest) x h =
      let (m, first, more) =
        >>=-eq-ok (run_command env k cmd x) (run_commands env (k + 1) rest) h in
      let one = commanded k cmd x first in
      let others = run_commands-Gains (k + 1) rest m more in
      record {
        gained =
            others.gained
            ∙ ap (λ l. l ++ commands_events rest) one.gained
            ∙ append_assoc (types x.events) (command_events cmd) (commands_events rest);
        left = others.left ∙ ap (status_after rest) one.left;
      }
