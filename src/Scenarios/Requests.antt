-- ===== src/Scenarios/Requests.antt =====
-- Requests of the history service at concrete inputs.
use mini_workflow.Prelude.{◌≡◌, refl, none, some, List, [], ◌∷◌, length, concat}
use mini_workflow.Prelude.Text.{equal_fold}
use mini_workflow.Prelude.Int.{pos}
use mini_workflow.Result.{err}
use mini_workflow.Codec.{nil, json, text, number, object, end, field}
use mini_workflow.Codec.Decode.{unmarshal}
use mini_workflow.Api.{Command, RecordActivityTaskFailedRequest, already_exists}
use mini_workflow.History.Models.{same_run, completed}
use mini_workflow.History.Postgres.{
  Database, find_execution, update_workflow_execution, update_row, insert_events, upsert_activities,
  insert_timers, replace_execution, concurrency_conflict, get_workflow_execution, first_running,
  find_running_workflow, create_workflow_execution, insert_event, has_event,
}
use mini_workflow.History.Postgres.Conflict.{update-conflict, update-ok}
use mini_workflow.History.Postgres.Update.{updated}
use mini_workflow.History.Models.{RunKey, WorkflowExecution}
use mini_workflow.Prelude.{if◌then◌else◌}
use mini_workflow.History.World.{World, add_workflow_task}
use mini_workflow.History.Handler.{handle}
use mini_workflow.History.Service.Load.{load_running, load, run_id_from_string, new_event}
use mini_workflow.History.Service.Workflow.{
  signal_workflow_execution, record_workflow_execution_started, start,
}
use mini_workflow.History.Service.Commands.{
  Batch, run_commands, first_batch, run_command, schedule_activity, start_timer, complete_workflow,
}
use mini_workflow.History.Service.Attributes.{set_schedule, no_schedule, set_timer}
use mini_workflow.Api.{RecordActivityTaskStartedRequest}
use mini_workflow.History.Service.Errors.{handle-error}
use mini_workflow.History.Service.Refusals.{handle-closed, not_running}
use mini_workflow.History.Service.Start.{start-ok, start-running, Started}
use mini_workflow.History.Service.Counts.{run_commands-counts}
use mini_workflow.Scenarios.{
  backend, calm, empty_world, start_request, started, signal_request, open_row, closed_row,
  world_of, tally, count,
}

handle-closed_example :
    handle ⦃b = backend⦄ (calm 2) signal_request (world_of closed_row)
    ≡ (err (not_running closed_row), world_of closed_row)
unfolding find_execution same_run run_id_from_string count
handle-closed_example =
    handle-closed ⦃b = backend⦄ (calm 2) (world_of closed_row) "x" signal_request "order-1" 1
      closed_row refl refl refl refl refl

handle-error_example :
    (handle ⦃b = backend⦄ (calm 2) signal_request (world_of closed_row)).1 ≡ world_of closed_row
unfolding find_execution same_run run_id_from_string count handle signal_workflow_execution
    load_running load get_workflow_execution
handle-error_example =
    handle-error ⦃b = backend⦄ (calm 2) (world_of closed_row) signal_request
      (not_running closed_row) refl

abbrev once_updated : Database
once_updated = record (world_of open_row).db {
  executions = record open_row { status = completed; current_version = 3 } ∷ [];
}

update-conflict_example :
    update_workflow_execution ⦃b = backend⦄ none (pos 0) open_row 2 [] [] [] once_updated
    ≡ err concurrency_conflict
unfolding update_workflow_execution find_execution same_run update_row insert_events
    upsert_activities insert_timers replace_execution
update-conflict_example =
    update-conflict ⦃b = backend⦄ closed_row open_row 2 none (pos 0) (pos 0) [] [] [] [] [] []
      (world_of open_row).db once_updated refl refl

update-ok_example :
    (row : WorkflowExecution) × (find_execution open_row.key (world_of open_row).db.executions
      ≡ some row)
    × (row.current_version ≡ 2)
    × ((k : RunKey)
        → find_execution k once_updated.executions ≡ (
            if same_run open_row.key k
            then some (updated (pos 0) closed_row row)
            else find_execution k (world_of open_row).db.executions))
    × (once_updated.events ≡ [])
    × (once_updated.timers ≡ [])
unfolding update_workflow_execution find_execution same_run update_row insert_events
    upsert_activities insert_timers replace_execution
update-ok_example =
    update-ok ⦃b = backend⦄ none (pos 0) closed_row 2 [] [] [] (world_of open_row).db once_updated
      refl

-- An open run behind two that have closed.
abbrev third_run : World
third_run = record (world_of open_row) {
  db = record (world_of open_row).db {
    executions =
        closed_row
        ∷ (record closed_row {
          key = record { namespace = "default"; workflow_id = "order-1"; run_id = 2 };
        })
        ∷ (record open_row {
          key = record { namespace = "default"; workflow_id = "order-1"; run_id = 3 };
        })
        ∷ [];
  };
}

start-running_example :
    record_workflow_execution_started ⦃b = backend⦄
      (calm 2)
      (record { start_request = some start_request })
      third_run
    ≡ (
      err (record {
        code = already_exists;
        message =
            concat ("workflow " ∷ "order-1" ∷ " is already running (run_id: " ∷ tally 3 ∷ ")" ∷ []);
      }),
      third_run,
    )
start-running_example =
    start-running ⦃b = backend⦄ (calm 2) third_run start_request
      (closed_row
        ∷ (record closed_row {
          key = record { namespace = "default"; workflow_id = "order-1"; run_id = 2 };
        })
        ∷ [])
      []
      (record open_row {
        key = record { namespace = "default"; workflow_id = "order-1"; run_id = 3 };
      })
      refl (refl, (refl, tt)) refl refl refl refl refl

start-ok_example : Started ⦃b = backend⦄ (calm 1) empty_world start_request (tally 1) started
unfolding handle record_workflow_execution_started start find_running_workflow first_running
    create_workflow_execution insert_event has_event add_workflow_task new_event find_execution
start-ok_example = start-ok ⦃b = backend⦄ (calm 1) empty_world start_request (tally 1) refl

abbrev failure : RecordActivityTaskFailedRequest
failure = record {
  workflow_id = "order-1";
  run_id = "x";
  activity_id = "charge";
  reason = "declined again";
}

abbrev start_of_charge : RecordActivityTaskStartedRequest
start_of_charge = record { workflow_id = "order-1"; run_id = "x"; activity_id = "charge" }

abbrev commands : List Command
commands =
    (record {
      command_type = "ScheduleActivityTask";
      attributes = json (object (field "activity_id" (text "charge") end));
    })
    ∷ (record {
      command_type = "StartTimer";
      attributes = json (object (field "fire_after_seconds" (number (pos 60)) end));
    })
    ∷ (record { command_type = "CompleteWorkflowExecution"; attributes = nil })
    ∷ []

abbrev gathered : Batch
gathered = complete_workflow ⦃b = backend⦄ (calm 2) nil (
    start_timer ⦃b = backend⦄ (calm 2) 1 (record { timer_id = ""; fire_after_seconds = pos 60 })
      (schedule_activity ⦃b = backend⦄ (calm 2) 0 (record no_schedule { activity_id = "charge" })
        (first_batch ⦃b = backend⦄ (calm 2) open_row 3)))

run_commands-counts_example :
    (length gathered.activities ≡ 1)
    × (length gathered.tasks ≡ 1)
    × (length gathered.timers ≡ 2)
    × (length gathered.events ≡ 4)
unfolding run_commands run_command unmarshal set_schedule set_timer equal_fold
run_commands-counts_example =
    run_commands-counts ⦃b = backend⦄ (calm 2) open_row commands gathered refl
