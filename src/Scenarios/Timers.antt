-- ===== src/Scenarios/Timers.antt =====
-- Timers at concrete inputs.
use mini_workflow.Prelude.{◌≡◌, refl, false, none, some, [], ◌∷◌, arith, if◌then◌else◌}
use mini_workflow.Prelude.Int.{pos, ltz, seconds, wrap32, unix_milli}
use mini_workflow.Result.{ok}
use mini_workflow.History.Models.{same_run}
use mini_workflow.History.Postgres.{find_execution, find_activity}
use mini_workflow.History.TimerStore.{TimerStore}
use mini_workflow.History.TimerStore.Claims.{score_of}
use mini_workflow.History.World.{add_workflow_task}
use mini_workflow.History.Service.Queued.{with_workflow_task, with_activity_task}
use mini_workflow.History.Service.Workflow.{task_timer}
use mini_workflow.History.Service.Activity.{retry_timer}
use mini_workflow.History.TimerProcessor.{fire}
use mini_workflow.History.TimerProcessor.Timeouts.{
  task_timer-fire, retry_timer-fire, next_wait_duration-bound,
}
use mini_workflow.History.TimerProcessor.Late.{expired}
use mini_workflow.History.TimerProcessor.Loop.{next_wait_duration}
use mini_workflow.Codec.{nil}
use mini_workflow.History.World.{World}
use mini_workflow.Prelude.Int.{◌+ℤ◌}
use mini_workflow.History.Models.{Timer, WorkflowExecution, user, workflow_timeout, timed_out}
use mini_workflow.History.Postgres.{
  get_workflow_execution, update_workflow_execution, update_row, insert_events, insert_event,
  has_event, upsert_activities, insert_timers, replace_execution, find_timer,
}
use mini_workflow.History.TimerStore.{schedule_timer as set_timer, is_earliest, rebuild_from_db}
use mini_workflow.History.TimerStore.Schedule.{schedule_timer-rebuild_from_db, no_fault}
use mini_workflow.History.TimerProcessor.{process_execution_timer}
use mini_workflow.History.TimerProcessor.Executions.{user_timer-fire, workflow_timeout-fire, Fired}
use mini_workflow.History.TimerProcessor.Wakeups.{next_wait_duration-wakes}
use mini_workflow.History.TimerProcessor.Loop.{until}
use mini_workflow.Scenarios.{tally, count, closed_row}
use mini_workflow.Scenarios.{backend, calm, open_row, activity, world_of, empty_world}

abbrev two_timers : TimerStore
two_timers = record {
  active =
      (record { score = pos 5; member = "x" }) ∷ (record { score = pos 9; member = "xx" }) ∷ [];
  wakeups = 0;
}

task_timer-fire_example :
    fire ⦃b = backend⦄ (calm 3) (task_timer ⦃b = backend⦄ (calm 2) open_row 2) (world_of open_row)
    ≡ (
      ok tt,
      record (world_of open_row) {
        queues = with_workflow_task (calm 3) "order-1" (tally 1) "Order" "orders" (λ k. []);
      },
    )
unfolding find_execution same_run
task_timer-fire_example =
    task_timer-fire ⦃b = backend⦄ (calm 2) (calm 3) (world_of open_row) open_row open_row 2
      (omega arith) (omega arith) refl refl

retry_timer-fire_example :
    fire ⦃b = backend⦄
      (calm 3)
      (retry_timer ⦃b = backend⦄ (calm 2) open_row activity "charge")
      (world_of open_row)
    ≡ expired
        (
          ok tt,
          record (world_of open_row) {
            queues =
                with_activity_task
                  (calm 3)
                  "order-1"
                  (tally 1)
                  "charge"
                  "Charge"
                  nil
                  "payments"
                  (wrap32 (pos 30))
                  (λ k. []);
          },
        )
        (λ deadline. (
          ok tt,
          record (world_of open_row) {
            timer_store =
                (set_timer (λ k. none) (tally 2) (unix_milli deadline) empty_world.timer_store).1;
          },
        ))
        (pos 1000000000)
        (seconds (pos 30))
        (some (pos 500000000))
unfolding find_activity same_run
retry_timer-fire_example =
    retry_timer-fire ⦃b = backend⦄ (calm 2) (calm 3) (world_of open_row) open_row activity activity
      "charge" refl refl refl refl

next_wait_duration-bound_example :
    ltz
      (next_wait_duration ⦃b = backend⦄
        (calm 2)
        (record empty_world { timer_store = two_timers })).0
      (pos 0)
    ≡ false
next_wait_duration-bound_example =
    next_wait_duration-bound ⦃b = backend⦄ (calm 2)
      (record empty_world { timer_store = two_timers })

abbrev due : Timer
due = record {
  timer_id = 1;
  key = closed_row.key;
  fire_time = pos 2000000;
  timer_type = user;
  task_token = nil;
  is_fired = false;
}

abbrev time_out : Timer
time_out = record due { timer_type = workflow_timeout }

-- The run has closed before its timers fire.
user_timer-fire_example :
    (exec : WorkflowExecution) × Fired ⦃b = backend⦄
      (calm 3)
      due
      (world_of closed_row)
      "TimerFired"
      exec.status
      exec
      (fire ⦃b = backend⦄ (calm 3) due (world_of closed_row)).1.db
    × ((fire ⦃b = backend⦄ (calm 3) due (world_of closed_row)).1.queues
        ≡ with_workflow_task
            (calm 3)
            "order-1"
            (tally 1)
            exec.workflow_type
            exec.task_queue
            (λ k. []))
unfolding fire process_execution_timer get_workflow_execution find_execution same_run
    update_workflow_execution update_row insert_events insert_event has_event upsert_activities
    insert_timers replace_execution add_workflow_task
user_timer-fire_example = user_timer-fire ⦃b = backend⦄ (calm 3) due (world_of closed_row) refl refl

workflow_timeout-fire_example :
    (exec : WorkflowExecution) × Fired ⦃b = backend⦄
      (calm 3)
      time_out
      (world_of closed_row)
      "WorkflowExecutionTimedOut"
      timed_out
      exec
      (fire ⦃b = backend⦄ (calm 3) time_out (world_of closed_row)).1.db
unfolding fire process_execution_timer get_workflow_execution find_execution same_run
    update_workflow_execution update_row insert_events insert_event has_event upsert_activities
    insert_timers replace_execution
workflow_timeout-fire_example =
    workflow_timeout-fire ⦃b = backend⦄ (calm 3) time_out (world_of closed_row) refl refl

schedule_timer-rebuild_from_db_example :
    ((set_timer no_fault "x" (pos 7) two_timers).0 ≡ ok tt)
    × (score_of "x" (set_timer no_fault "x" (pos 7) two_timers).1.active ≡ some (pos 7))
    × ((set_timer no_fault "x" (pos 7) two_timers).1.wakeups
        ≡ (if is_earliest "x" (set_timer no_fault "x" (pos 7) two_timers).1.active then 1 else 0))
    × (score_of "x" (rebuild_from_db ⦃b = backend⦄ (λ k. none) (due ∷ []) two_timers).1.active
        ≡ some (pos 2))
unfolding tally unix_milli
schedule_timer-rebuild_from_db_example =
    schedule_timer-rebuild_from_db ⦃b = backend⦄ "x" "x" (pos 7) (due ∷ []) two_timers

abbrev waiting : World
waiting = record empty_world {
  db = record empty_world.db { timers = due ∷ [] };
  timer_store = record { active = (record { score = pos 2; member = "x" }) ∷ []; wakeups = 0 };
}

next_wait_duration-wakes_example : next_wait_duration ⦃b = backend⦄ (calm 2) waiting ≡ (
  until ⦃b = backend⦄ (pos 1000000000) (pos 2000000),
  record waiting {
    timer_store = record {
      active = (record { score = unix_milli (pos 2000000); member = "x" }) ∷ [];
      wakeups = 1;
    };
  },
)
unfolding find_timer count unix_milli ◌+ℤ◌
next_wait_duration-wakes_example =
    next_wait_duration-wakes ⦃b = backend⦄ (calm 2) waiting (record { score = pos 2; member = "x" })
      1 due refl refl refl refl refl (λ k j. refl)
