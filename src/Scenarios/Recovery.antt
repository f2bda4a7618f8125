-- ===== src/Scenarios/Recovery.antt =====
-- A timer in the database, that Redis has lost, at a concrete input.
use mini_workflow.Prelude.{refl, false, [], ◌∷◌, arith}
use mini_workflow.Prelude.Int.{pos, unix_milli, ◌+ℤ◌}
use mini_workflow.Codec.{nil}
use mini_workflow.History.Models.{Timer, user}
use mini_workflow.History.Postgres.{find_timer}
use mini_workflow.History.Postgres.Timers.{get_non_fired_timers, order_by_time, insert_by_time}
use mini_workflow.History.TimerStore.{
  reached, add_all, zadd, insert_entry, without, before, rebuild_from_db,
}
use mini_workflow.History.World.{World}
use mini_workflow.History.TimerProcessor.Loop.{process_expired, scavenge}
use mini_workflow.History.Recovery.{Fired, Steps-scavenge-process_expired}
use mini_workflow.History.System.{Steps, Steps-AllKept, at_rest, none_yet, then_step, handled}
use mini_workflow.History.Handler.{handle}
use mini_workflow.History.Models.{same_run}
use mini_workflow.History.Postgres.{
  get_workflow_execution, find_execution, update_workflow_execution, update_row, insert_events,
  insert_event, has_event, upsert_activities, insert_timers, replace_execution,
}
use mini_workflow.History.Postgres.TimerRows.{AllKept}
use mini_workflow.Prelude.Int.{inc64}
use mini_workflow.History.World.{add_workflow_task}
use mini_workflow.History.Service.Load.{load_running, load, run_id_from_string, commit, new_event}
use mini_workflow.History.Service.Workflow.{signal_run, signal_workflow_execution}
use mini_workflow.Scenarios.{count, signal_request}
use mini_workflow.Scenarios.{backend, calm, open_row, world_of, tally}

abbrev lost : Timer
lost = record {
  timer_id = 1;
  key = open_row.key;
  fire_time = pos 2000000;
  timer_type = user;
  task_token = nil;
  is_fired = false;
}

abbrev forgetful : World
forgetful = record (world_of open_row) { db = record (world_of open_row).db { timers = lost ∷ [] } }

-- A signal is handled before.
abbrev went_on : World
went_on = (handle ⦃b = backend⦄ (calm 2) signal_request forgetful).1

signals : Steps ⦃b = backend⦄ false (at_rest forgetful) (at_rest went_on)
signals = then_step none_yet (handled (calm 2) signal_request)

Steps-AllKept_example : AllKept forgetful.db.timers went_on.db.timers
Steps-AllKept_example = Steps-AllKept ⦃b = backend⦄ signals

Steps-scavenge-process_expired_example :
    Fired ⦃b = backend⦄ 1 lost (
      process_expired ⦃b = backend⦄
        (calm 3)
        (λ k. calm 4)
        (scavenge ⦃b = backend⦄ (calm 2) went_on))
unfolding find_timer scavenge get_non_fired_timers order_by_time insert_by_time rebuild_from_db
    add_all reached zadd insert_entry without before tally ◌+ℤ◌ unix_milli handle
    signal_workflow_execution load_running load run_id_from_string get_workflow_execution
    find_execution same_run count commit update_workflow_execution update_row insert_events
    insert_event has_event upsert_activities insert_timers replace_execution inc64 add_workflow_task
    new_event signal_run
Steps-scavenge-process_expired_example =
    Steps-scavenge-process_expired ⦃b = backend⦄ 1 lost (calm 2) (calm 3) (λ k. calm 4) signals
      (refl, tt) refl refl (λ k. refl) refl (λ k. (refl, refl)) refl refl (omega arith)
