-- ===== src/Scenarios/Histories.antt =====
-- The history of a run with two events.
use mini_workflow.Prelude.{ℕ, ◌≡◌, refl, true, some, List, map, keep, arith, length}
use mini_workflow.Prelude.Int.{inc64, unix_milli}
use mini_workflow.Result.{ok}
use mini_workflow.Api
use mini_workflow.History.Models.{HistoryEvent, same_run}
use mini_workflow.History.Postgres.{
  get_workflow_execution, find_execution, find_running_workflow, first_running,
  create_workflow_execution, insert_event, has_event, update_workflow_execution, update_row,
  insert_events, upsert_activities, insert_timers, replace_execution,
}
use mini_workflow.History.Postgres.Log.{IsGapless, ids_from}
use mini_workflow.History.World.{add_workflow_task}
use mini_workflow.History.Handler.{handle, workflow_execution_started}
use mini_workflow.History.Service.Load.{
  load_running, load, run_id_from_string, commit, new_event, default_run,
}
use mini_workflow.History.Service.Workflow.{
  record_workflow_execution_started, start, signal_workflow_execution, signal_run,
  get_workflow_execution_history,
}
use mini_workflow.History.Service.Reads.{get_workflow_execution_history-IsGapless}
use mini_workflow.History.System.{Steps, at_rest, handled, none_yet, then_step, Steps-IsGapless}
use mini_workflow.Scenarios.{
  backend, calm, count, tally, empty_world, empty-IsGapless, start_request, signal_request,
  signaled,
}

start_and_signal : Steps ⦃b = backend⦄ true (at_rest empty_world) (at_rest signaled)
start_and_signal =
    then_step
      (then_step none_yet (
        handled (calm 1)
          (workflow_execution_started (record { start_request = some start_request }))))
      (handled (calm 2) signal_request)

two_events : length signaled.db.events ≡ 2
unfolding handle signal_workflow_execution load_running load run_id_from_string
    get_workflow_execution find_execution record_workflow_execution_started start
    find_running_workflow first_running create_workflow_execution insert_event has_event
    add_workflow_task same_run count tally commit update_workflow_execution update_row insert_events
    upsert_activities insert_timers replace_execution inc64 new_event signal_run
two_events = refl

signaled-IsGapless : IsGapless signaled.db
signaled-IsGapless =
    Steps-IsGapless ⦃b = backend⦄ start_and_signal (omega (arith, two_events)) empty-IsGapless

get_workflow_execution_history-IsGapless_example :
    (reply : List Api.HistoryEvent) × (n : ℕ) × (get_workflow_execution_history ⦃b = backend⦄
        (calm 3)
        (record { workflow_id = "order-1"; run_id = "x" })
        signaled
      ≡ (ok reply, signaled))
    × (reply
        ≡ map
            (λ (e : HistoryEvent). record {
              event_id = e.event_id;
              event_type = e.event_type;
              payload = e.payload;
              timestamp = unix_milli e.created_at;
            })
            (keep (λ e. same_run e.key (default_run "order-1" 1)) signaled.db.events))
    × (map (λ (e : Api.HistoryEvent). e.event_id) reply ≡ ids_from 1 n)
unfolding run_id_from_string count
get_workflow_execution_history-IsGapless_example =
    get_workflow_execution_history-IsGapless ⦃b = backend⦄ (calm 3) signaled
      (record { workflow_id = "order-1"; run_id = "x" }) 1 refl refl signaled-IsGapless
      (omega (arith, two_events))
