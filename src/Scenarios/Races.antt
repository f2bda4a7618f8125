-- ===== src/Scenarios/Races.antt =====
-- Two starts at once, and a timer that is dispatched while its run is closed.
use mini_workflow.Prelude.{◌≡◌, refl, true, false, some, [], ◌∷◌}
use mini_workflow.Prelude.Int.{pos}
use mini_workflow.Codec.{nil}
use mini_workflow.History.Models.{Timer, same_run, user}
use mini_workflow.History.Postgres.{
  find_execution, find_timer, create_workflow_execution, insert_event, has_event,
}
use mini_workflow.History.Changes.OneOpen.{IsSingle}
use mini_workflow.History.World.{World}
use mini_workflow.History.Races.{begin-race}
use mini_workflow.History.System.{System, Steps, at_rest}
use mini_workflow.History.Service.Workflow.{create_run}
use mini_workflow.History.Service.Load.{new_event}
use mini_workflow.History.World.{add_workflow_task}
use mini_workflow.History.Postgres.{find_running_workflow, first_running}
use mini_workflow.Result.{ok}
use mini_workflow.Scenarios.{tally}
use mini_workflow.History.TimerProcessor.{dispatch}
use mini_workflow.History.TimerProcessor.Dispatch.{dispatch-fired}
use mini_workflow.Scenarios.{backend, calm, empty_world, start_request, closed_row, world_of}

first_created : (create_run ⦃b = backend⦄ (calm 1) start_request empty_world).0 ≡ ok "x"
unfolding create_run create_workflow_execution insert_event has_event find_execution
    add_workflow_task tally new_event
first_created = refl

second_created :
    (create_run ⦃b = backend⦄
      (calm 2)
      start_request
      (create_run ⦃b = backend⦄ (calm 1) start_request empty_world).1).0
    ≡ ok "xx"
unfolding create_run create_workflow_execution insert_event has_event find_execution
    add_workflow_task tally new_event same_run
second_created = refl

begin-race_example :
    (s : System) × Steps ⦃b = backend⦄ false (at_rest empty_world) s
    × (s.pending ≡ [])
    × ¬ IsSingle s.world.db
unfolding find_running_workflow first_running
begin-race_example =
    begin-race ⦃b = backend⦄ start_request (calm 1) (calm 2) empty_world "x" "xx" refl refl refl
      first_created second_created

abbrev due : Timer
due = record {
  timer_id = 1;
  key = closed_row.key;
  fire_time = pos 2000000;
  timer_type = user;
  task_token = nil;
  is_fired = false;
}

abbrev with_timer : World
with_timer = record empty_world { db = record (world_of closed_row).db { timers = due ∷ [] } }

dispatch-fired_example :
    find_timer 1 (dispatch ⦃b = backend⦄ (calm 3) 1 with_timer).1.db.timers
    ≡ some (record due { is_fired = true })
unfolding find_timer
dispatch-fired_example = dispatch-fired ⦃b = backend⦄ (calm 3) 1 1 due with_timer refl refl refl
