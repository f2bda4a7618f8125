-- ===== src/History/TimerProcessor/Dispatch.antt =====
-- The mark that `dispatch` of history/internal/service/timer_processor.go sets on a timer.
use mini_workflow.Prelude.{
  Bool-cases, inl, inr, sym, ◌≡◌, refl, ap, ◌∙◌, String, Bool, true, false, Option, none, some,
  List, [], ◌∷◌, if◌then◌else◌, ◌==◌, ==_iff,
}
use mathlib.Core.List.{append-nil}
use mini_workflow.Prelude.Int.{inc64}
use mini_workflow.Api.{internal}
use mini_workflow.History.Models.{
  Uuid, Timer, TimerType, WorkflowStatus, user, workflow_timeout, activity_timeout,
  workflow_task_timeout, timed_out,
}
use mini_workflow.History.Backend.{Backend}
use mini_workflow.History.Postgres.{find_timer, get_workflow_execution, update_workflow_execution}
use mini_workflow.History.Postgres.Timers.{alter_timer, mark_timer_fired, get_timer_by_id}
use mini_workflow.History.Postgres.Update.{update-Updated}
use mini_workflow.History.World.{World, Env, add_workflow_task, pure}
use mini_workflow.History.Service.Rules.{query-cases, write-cases}
use mini_workflow.History.Service.Evolution.{add_workflow_task-db}
use mini_workflow.History.TimerProcessor.{
  dispatch, fire, handle_activity_timeout, judge_activity, handle_workflow_task_timeout,
  process_execution_timer, new_status, timer_event, wake_for,
}
use mini_workflow.History.TimerProcessor.Evolution.{
  continue-db, handle_activity_timeout-db, handle_workflow_task_timeout-db,
}

some-inj : {A : Type 0} {a c : A} → some a ≡ some c → a ≡ c
some-inj h = cc h

abbrev fired : Timer → Timer
fired t = record t { is_fired = true }

find_timer-other :
    (id j : Uuid) (rows : List Timer)
    → (id == j) ≡ false
    → find_timer j (alter_timer id fired rows) ≡ find_timer j rows
unfolding find_timer alter_timer
find_timer-other id j [] differ = refl
find_timer-other id j (r ∷ rest) differ = elim (Bool-cases (r.timer_id == id)) [
  | inl own ↦
      let same = (==_iff r.timer_id id).0 own in
      let apart : (r.timer_id == j) ≡ false = ap (λ k. k == j) same ∙ differ in
      rw own (rw apart (find_timer-other id j rest differ))
  | inr other ↦
      rw other (ap (λ o. if r.timer_id == j then some r else o) (find_timer-other id j rest differ))
]

find_timer-own :
    (id : Uuid) (rows : List Timer) (t : Timer)
    → find_timer id rows ≡ some t
    → find_timer id (alter_timer id fired rows) ≡ some (fired t)
unfolding find_timer alter_timer
find_timer-own id [] t h = cc
find_timer-own id (r ∷ rest) t h = elim (Bool-cases (r.timer_id == id)) [
  | inl own ↦ rw own (rw own (ap (λ o. some (fired o)) (some-inj (rw own at h))))
  | inr other ↦ rw other (rw other (find_timer-own id rest t (rw other at h)))
]

module _ ⦃b : Backend⦄ (env : Env) where
  process_execution_timer-timers :
      (t : Timer) (kind : String) (status : Option WorkflowStatus) (w : World)
      → (process_execution_timer env t kind status w).1.db.timers ≡ w.db.timers
  unfolding process_execution_timer
  process_execution_timer-timers t kind status w =
      query-cases (λ r. r.1.db.timers ≡ w.db.timers) _ w internal ""
        (get_workflow_execution (env.db_fault 2) t.key) (λ s. refl)
        λ exec _.
          write-cases (λ r. r.1.db.timers ≡ w.db.timers) _ w ""
            (update_workflow_execution (env.db_fault 3) env.db_clock
              (new_status env status (record exec { next_event_id = inc64 exec.next_event_id }))
              exec.current_version (timer_event env t exec.next_event_id kind ∷ []) [] [])
            (λ s. refl)
            λ db' h.
              let u = update-Updated env.db_clock _ _ _ _ [] w.db (env.db_fault 3) h in
              u.timers ∙ append-nil w.db.timers

  fire-timers : (t : Timer) (w : World) → (fire env t w).1.db.timers ≡ w.db.timers
  unfolding fire process_execution_timer handle_activity_timeout judge_activity
      handle_workflow_task_timeout
  fire-timers t w = of_type t.timer_type refl
    where
      of_type : (kind : TimerType) → t.timer_type ≡ kind → (fire env t w).1.db.timers ≡ w.db.timers
      of_type user e = rw e (
          rw
            (continue-db env (process_execution_timer env t "TimerFired" none w)
              (λ exec. add_workflow_task env 0 (wake_for env t exec))
              (λ exec w'. add_workflow_task-db env 0 w' _))
            (process_execution_timer-timers t "TimerFired" none w))
      of_type workflow_timeout e = rw e (
          rw
            (continue-db env
              (process_execution_timer env t "WorkflowExecutionTimedOut" (some timed_out) w)
              (λ exec. pure tt) (λ exec w'. refl))
            (process_execution_timer-timers t "WorkflowExecutionTimedOut" (some timed_out) w))
      of_type activity_timeout e = rw e (ap (λ d. d.timers) (handle_activity_timeout-db env t w))
      of_type workflow_task_timeout e =
          rw e (ap (λ d. d.timers) (handle_workflow_task_timeout-db env t w))

  -- A timer that is dispatched, when its read and its marking succeed, is marked as fired for good,
  -- whatever it does then and whether that succeeds or not; every other timer is as it was.
  pub dispatch-fired :
      (id j : Uuid) (t : Timer) (w : World)
      → env.db_fault 0 ≡ none
      → env.db_fault 1 ≡ none
      → find_timer id w.db.timers ≡ some t
      → find_timer j (dispatch env id w).1.db.timers
        ≡ (if id == j then some (record t { is_fired = true }) else find_timer j w.db.timers)
  unfolding dispatch mark_timer_fired get_timer_by_id
  dispatch-fired id j t w read marked found =
      rw (read, found, marked, fire-timers t) (marked_timer (id == j) refl)
    where
      marked_timer :
          (c : Bool)
          → (id == j) ≡ c
          → find_timer j (alter_timer id fired w.db.timers)
            ≡ (if c then some (fired t) else find_timer j w.db.timers)
      marked_timer true own =
          ap (λ k. find_timer k (alter_timer id fired w.db.timers)) (sym ((==_iff id j).0 own))
          ∙ find_timer-own id w.db.timers t found
      marked_timer false differ = find_timer-other id j w.db.timers differ
