-- ===== src/Scenarios.antt =====
-- The theorems at concrete inputs: a run of one workflow.
pub mod Requests
pub mod Timers
pub mod Edges
pub mod Races
pub mod Overlaps
pub mod Deliveries
pub mod Services
pub mod Recovery
pub mod Heartbeats
pub mod Rounds
pub mod Wakeups
pub mod Histories
use mini_workflow.Prelude.{
  ℕ, zero, suc, ◌≡◌, refl, ap, String, Bool, true, false, Option, none, some, List, [], ◌∷◌, ◌++◌,
  arith, length, ◌≤◌,
}
use mini_workflow.Prelude.Text.{concat}
use mini_workflow.Prelude.Int.{ℤ, pos}
use mini_workflow.Result.{Result, ok, err}
use mini_workflow.Codec.{Bytes, nil, raw, json, text, number, object, end, field}
use mini_workflow.Api.{Status, StartWorkflowRequest, Command, internal}
use mini_workflow.History.Models.{
  RunKey, WorkflowExecution, HistoryEvent, ActivityState, running, completed, failed,
}
use mini_workflow.History.Backend.{Backend}
use mini_workflow.History.Postgres.{Database, find_execution, events_of}
use mini_workflow.History.Postgres.Log.{IsGapless, ids_of}
use mini_workflow.History.World.{World, Env, Exec}
use mini_workflow.History.Handler.{
  Request, handle, workflow_execution_started, workflow_task_started, workflow_task_completed,
  workflow_task_failed, activity_task_started, activity_task_completed, activity_task_failed,
  activity_task_heartbeat, workflow_execution_signaled, workflow_execution_queried, history_read,
  Reply, replied, done,
}
use mini_workflow.History.Overlap.{begin}
use mini_workflow.History.Service.Load.{new_event, load_running, load, run_id_from_string, commit}
use mini_workflow.History.Service.Workflow.{
  signal_run, signal_workflow_execution, record_workflow_execution_started, start,
}
use mini_workflow.History.Models.{same_run}
use mini_workflow.History.World.{add_workflow_task}
use mini_workflow.Prelude.Int.{inc64}
use mini_workflow.History.Postgres.{
  get_workflow_execution, find_running_workflow, first_running, create_workflow_execution,
  insert_event, has_event, update_workflow_execution, update_row, insert_events, upsert_activities,
  insert_timers, replace_execution,
}
use mini_workflow.History.Changes.OneOpen.{IsSingle}
use mini_workflow.History.Changes.Growth.{Later}
use mini_workflow.History.System.{
  Step, Steps, System, at_rest, handled, begun, resumed, none_yet, then_step, Steps-IsGapless,
  Steps-IsSingle, Steps-Later,
}

-- Ids are written as tallies.
unfoldable pub tally : ℕ → String
tally zero = ""
tally (suc n) = String.◌∷◌ "x" (tally n)

unfoldable pub count : String → ℕ
count String.[] = 0
count (String.◌∷◌ c s) = suc (count s)

pub count-tally : (n : ℕ) → count (tally n) ≡ n
unfolding count tally
count-tally zero = refl
count-tally (suc n) = ap suc (count-tally n)

abbrev pub backend : Backend
backend = record {
  parse_uuid = λ s. some (count s);
  print_uuid = tally;
  parse_uuid-print_uuid = λ n. ap some (count-tally n);
  refuses_execution = λ _. none;
  refuses_event = λ _. none;
  refuses_activity = λ _. none;
  refuses_timer = λ _. none;
  token_is_like = λ _ _. false;
}

-- All is well, and the n-th id is `base + n`.
abbrev pub calm : ℕ → Env
calm base = record {
  time = λ n. pos 1000000000;
  uuid = λ n. base;
  db_clock = pos 1000000000;
  db_fault = λ n. none;
  redis_fault = λ k n. none;
  is_lost = λ k. false;
  queue_fault = λ k. none;
}

abbrev pub empty_world : World
empty_world = record {
  db = record { executions = []; events = []; activities = []; timers = [] };
  timer_store = record { active = []; wakeups = 0 };
  queues = λ k. [];
}

pub empty-IsGapless : IsGapless empty_world.db
unfolding find_execution ids_of events_of
empty-IsGapless = record { logged = λ k e h. absurd (cc h); unlogged = λ k h. refl }

empty-IsSingle : IsSingle empty_world.db
unfolding find_execution
empty-IsSingle = record { same_key = λ j k i l ns wf. absurd (cc i.found) }

abbrev pub start_request : StartWorkflowRequest
start_request = record {
  workflow_id = "order-1";
  workflow_type = "Order";
  task_queue = "orders";
  input = raw [];
}

abbrev pub started : World
started =
    (handle ⦃b = backend⦄ (calm 1)
      (workflow_execution_started (record { start_request = some start_request })) empty_world).1

abbrev pub signal_request : Request
signal_request =
    workflow_execution_signaled
      (record { workflow_id = "order-1"; run_id = "x"; signal_name = "paid"; input = nil })

abbrev pub signaled : World
signaled = (handle ⦃b = backend⦄ (calm 2) signal_request started).1

abbrev started_row : WorkflowExecution
started_row = record {
  key = record { namespace = "default"; workflow_id = "order-1"; run_id = 1 };
  workflow_type = "Order";
  task_queue = "orders";
  status = running;
  current_version = 1;
  next_event_id = 2;
  input = raw [];
  result = none;
  start_time = pos 1000000000;
  last_updated_time = pos 1000000000;
}

-- A signal that has read the run, and goes on after another has been handled.
abbrev stale_signal : Exec Reply
stale_signal w =
    replied (λ _. done)
      (signal_run ⦃b = backend⦄ (calm 3)
        (record { workflow_id = "order-1"; run_id = "x"; signal_name = "paid"; input = nil })
        started_row w)

abbrev overlapped : System
overlapped = record { world = (stale_signal signaled).1; pending = [] }

two_signals : Steps ⦃b = backend⦄ true (at_rest empty_world) overlapped
unfolding begin load_running load run_id_from_string get_workflow_execution find_execution
    record_workflow_execution_started start find_running_workflow first_running
    create_workflow_execution insert_event has_event handle add_workflow_task same_run count tally
    new_event
two_signals =
    then_step
      (then_step
        (then_step
          (then_step none_yet (
            handled (calm 1)
              (workflow_execution_started (record { start_request = some start_request }))))
          (begun (calm 3) signal_request stale_signal refl refl))
        (handled (calm 2) signal_request))
      (resumed [] [] stale_signal refl)

two_events : length overlapped.world.db.events ≡ 2
unfolding handle signal_workflow_execution load_running load run_id_from_string
    get_workflow_execution find_execution record_workflow_execution_started start
    find_running_workflow first_running create_workflow_execution insert_event has_event
    add_workflow_task same_run count tally commit update_workflow_execution update_row insert_events
    upsert_activities insert_timers replace_execution inc64 new_event signal_run
two_events = refl

Steps-IsGapless_example : IsGapless overlapped.world.db
Steps-IsGapless_example =
    Steps-IsGapless ⦃b = backend⦄ two_signals (omega (arith, two_events)) empty-IsGapless

Steps-IsSingle_example : IsSingle overlapped.world.db
Steps-IsSingle_example = Steps-IsSingle ⦃b = backend⦄ two_signals empty-IsSingle

-- A run with two events, open.
abbrev pub open_row : WorkflowExecution
open_row = record {
  key = record { namespace = "default"; workflow_id = "order-1"; run_id = 1 };
  workflow_type = "Order";
  task_queue = "orders";
  status = running;
  current_version = 2;
  next_event_id = 3;
  input = raw [];
  result = none;
  start_time = pos 0;
  last_updated_time = pos 0;
}

abbrev pub closed_row : WorkflowExecution
closed_row = record open_row { status = completed }

-- An activity that has failed once.
abbrev pub activity : ActivityState
activity = record {
  key = open_row.key;
  activity_id = "charge";
  status = failed;
  attempt = 2;
  last_heartbeat = some (pos 500000000);
  last_failure_reason = some "declined";
  task_token = nil;
  heartbeat_timeout_seconds = pos 30;
  task_queue = "payments";
  activity_type = "Charge";
  input = nil;
}

abbrev pub world_of : WorkflowExecution → World
world_of row = record empty_world {
  db = record { executions = row ∷ []; events = []; activities = activity ∷ []; timers = [] };
}

abbrev pub signaled_again : World
signaled_again = (handle ⦃b = backend⦄ (calm 2) signal_request (world_of open_row)).1

Steps-Later_example :
    ((more : List HistoryEvent) × (signaled_again.db.events
        ≡ (world_of open_row).db.events ++ more))
    × Later open_row.key open_row signaled_again.db
unfolding find_execution same_run
Steps-Later_example =
    Steps-Later ⦃b = backend⦄ {apart = true} open_row.key open_row
      (then_step none_yet (handled (calm 2) signal_request)) refl
