-- ===== src/Scenarios/Overlaps.antt =====
-- Requests of the history service that go on in one go, and what they leave, at concrete inputs.
use mini_workflow.Prelude.{◌≡◌, refl, [], ◌∷◌}
use mini_workflow.Prelude.Int.{inc64}
use mini_workflow.Result.{ok}
use mini_workflow.Codec.{nil}
use mini_workflow.History.Models.{same_run}
use mini_workflow.History.Postgres.{
  get_workflow_execution, find_execution, update_workflow_execution, update_row, insert_events,
  insert_event, has_event, upsert_activities, insert_timers, replace_execution,
}
use mini_workflow.History.World.{◌>>=◌}
use mini_workflow.History.Handler.{Request, handle, workflow_task_completed, done}
use mini_workflow.History.Overlap.{begin}
use mini_workflow.History.Overlap.Whole.{begin-handle}
use mini_workflow.History.Service.Load.{load_running, load, run_id_from_string, commit, new_event}
use mini_workflow.History.Service.Commands.{
  record_workflow_task_completed, complete_workflow_task, run_commands, run_command, first_batch,
  complete_workflow, append_event, schedule_timers, enqueue_activities,
}
use mini_workflow.History.Service.Effects.Handlers.{Changed, handle-Effect}
use mini_workflow.Scenarios.{backend, calm, signal_request, world_of, open_row, count}

signal_at_once :
    (begin ⦃b = backend⦄ (calm 2) signal_request >>= λ rest. rest) (world_of open_row)
    ≡ handle ⦃b = backend⦄ (calm 2) signal_request (world_of open_row)
signal_at_once = begin-handle ⦃b = backend⦄ (calm 2) signal_request (world_of open_row)

-- The commands of a worker complete the run.
abbrev last_task : Request
last_task = workflow_task_completed (record {
  workflow_id = "order-1";
  run_id = "x";
  commands = record { command_type = "CompleteWorkflowExecution"; attributes = nil } ∷ [];
})

last_task-ok : (handle ⦃b = backend⦄ (calm 2) last_task (world_of open_row)).0 ≡ ok done
unfolding handle record_workflow_task_completed complete_workflow_task load_running load
    run_id_from_string get_workflow_execution find_execution same_run count run_commands run_command
    first_batch complete_workflow append_event new_event commit update_workflow_execution update_row
    insert_events insert_event has_event upsert_activities insert_timers replace_execution inc64
    schedule_timers enqueue_activities
last_task-ok = refl

handle-Effect_example :
    Changed ⦃b = backend⦄
      (calm 2)
      (world_of open_row)
      last_task
      "order-1"
      "x"
      (handle ⦃b = backend⦄ (calm 2) last_task (world_of open_row)).1
handle-Effect_example =
    handle-Effect ⦃b = backend⦄ (calm 2) (world_of open_row) last_task "order-1" "x" done refl
      last_task-ok
