-- ===== src/History/Service/Commands.antt =====
-- record_workflow_task_completed.go: the commands of a workflow worker, gathered in one batch and
-- written in one transaction.
use mini_workflow.Prelude.{
  ℕ, zero, suc, ◌+◌, String, false, Option, none, some, List, [], ◌∷◌, ◌++◌, length, concat, str_eq,
  if◌then◌else◌,
}
use mini_workflow.Prelude.Int.{ℤ, pos, negsuc, inc64, wrap32, seconds, unix_milli, ◌+ℤ◌}
use mini_workflow.Result.{Result, ok, err}
use mini_workflow.Result
use mini_workflow.Codec.{Bytes, nil, json, text, blob_of, number, instant, object, end, field}
use mini_workflow.Codec.Decode.{unmarshal}
use mini_workflow.Api.{
  Status, Command, RecordWorkflowTaskCompletedHistoryRequest, AddActivityTaskRequest,
  invalid_argument,
}
use mini_workflow.Matching.Service.{is_blank}
use mini_workflow.History.Models.{
  WorkflowExecution, HistoryEvent, ActivityState, Timer, completed, scheduled, user,
  activity_timeout,
}
use mini_workflow.History.Backend.{Backend}
use mini_workflow.History.World.{
  Env, Exec, ◌>>=◌, ◌>>◌, pure, lift, schedule_timer, add_activity_task,
}
use mini_workflow.History.Service.Load.{new_event, load_running, commit}
use mini_workflow.History.Service.Attributes.{
  ScheduleAttributes, no_schedule, set_schedule, TimerAttributes, no_timer, set_timer, set_result,
}
use mini_workflow.History.Service.Activity.{activity_timer_token}

-- The variables of the loop over the commands.
pub record Batch : Type 0 where
  pub exec : WorkflowExecution
  pub event_id : ℕ
  pub events : List HistoryEvent
  pub activities : List ActivityState
  pub timers : List Timer
  pub tasks : List AddActivityTaskRequest

-- `events = append(events, …); eventID++`
unfoldable pub append_event : String → Bytes → Batch → Batch
append_event event_type payload x = record x {
  events = x.events ++ new_event x.exec x.event_id event_type payload ∷ [];
  event_id = inc64 x.event_id;
}

abbrev or_default : ℤ → ℤ
or_default (pos n) = elim n [ zero ↦ pos 30 | suc m ↦ pos (suc m) ]
or_default (negsuc n) = negsuc n

module _ ⦃b : Backend⦄ (env : Env) where
  -- `k` counts the commands: each asks for the time and for a UUID once, if at all.
  unfoldable pub schedule_activity : ℕ → ScheduleAttributes → Batch → Batch
  schedule_activity k attrs x = record y {
    activities = y.activities ++ state ∷ [];
    timers = y.timers ++ timer ∷ [];
    tasks = y.tasks ++ task ∷ [];
  }
    where
      timeout : ℤ
      timeout = or_default attrs.heartbeat_timeout_seconds

      y : Batch
      y =
          append_event "ActivityTaskScheduled"
            (json (
              object (
                field "activity_id" (text attrs.activity_id) (
                  field "activity_type" (text attrs.activity_type)
                    (field "input" (blob_of attrs.input) end)))))
            x

      task_queue : String
      task_queue = if is_blank attrs.task_queue then x.exec.task_queue else attrs.task_queue

      state : ActivityState
      state = record {
        key = x.exec.key;
        activity_id = attrs.activity_id;
        status = scheduled;
        attempt = 1;
        last_heartbeat = none;
        last_failure_reason = none;
        task_token = nil;
        heartbeat_timeout_seconds = timeout;
        task_queue = task_queue;
        activity_type = attrs.activity_type;
        input = attrs.input;
      }

      timer : Timer
      timer = record {
        timer_id = env.uuid k;
        key = x.exec.key;
        fire_time = env.time k +ℤ seconds timeout;
        timer_type = activity_timeout;
        task_token = activity_timer_token attrs.activity_id timeout;
        is_fired = false;
      }

      task : AddActivityTaskRequest
      task = record {
        task_queue = task_queue;
        workflow_id = x.exec.workflow_id;
        run_id = b.print_uuid x.exec.run_id;
        activity_id = attrs.activity_id;
        activity_type = attrs.activity_type;
        input = attrs.input;
        heartbeat_timeout_seconds = wrap32 timeout;
      }

  unfoldable pub start_timer : ℕ → TimerAttributes → Batch → Batch
  start_timer k attrs x = record y { timers = y.timers ++ timer ∷ [] }
    where
      fire_time : ℤ
      fire_time = env.time k +ℤ seconds attrs.fire_after_seconds

      y : Batch
      y =
          append_event "TimerStarted"
            (json (
              object (
                field "fire_time" (instant fire_time)
                  (field "timer_id" (text (b.print_uuid (env.uuid k))) end))))
            x

      timer : Timer
      timer = record {
        timer_id = env.uuid k;
        key = x.exec.key;
        fire_time = fire_time;
        timer_type = user;
        task_token = nil;
        is_fired = false;
      }

  unfoldable pub complete_workflow : Bytes → Batch → Batch
  complete_workflow result x =
      let y =
        append_event "WorkflowExecutionCompleted"
          (json (object (field "result" (blob_of result) end))) x in
      record y { exec = record y.exec { status = completed; result = some result } }

  abbrev pub attributes_error {ℓ} : {A : Type ℓ} → String → String → Result Status A
  attributes_error kind e = err (record {
    code = invalid_argument;
    message = concat ("parse " ∷ kind ∷ " attributes: " ∷ e ∷ []);
  })

  abbrev pub scheduled_with : ℕ → Batch → ScheduleAttributes × Option String → Result Status Batch
  scheduled_with k x (attrs, none) = ok (schedule_activity k attrs x)
  scheduled_with k x (attrs, some e) = attributes_error "ScheduleActivityTask" e

  abbrev pub timer_with : ℕ → Batch → TimerAttributes × Option String → Result Status Batch
  timer_with k x (attrs, none) = ok (start_timer k attrs x)
  timer_with k x (attrs, some e) = attributes_error "StartTimer" e

  -- An unknown command is passed over, and so is an error in the result of a completion.
  unfoldable pub run_command : ℕ → Command → Batch → Result Status Batch
  run_command k cmd x =
      if str_eq cmd.command_type "ScheduleActivityTask"
      then scheduled_with k x (unmarshal set_schedule cmd.attributes no_schedule)
      else if str_eq cmd.command_type "StartTimer"
      then timer_with k x (unmarshal set_timer cmd.attributes no_timer)
      else if str_eq cmd.command_type "CompleteWorkflowExecution"
      then ok (complete_workflow (unmarshal set_result cmd.attributes nil).0 x)
      else ok x

  unfoldable pub run_commands : ℕ → List Command → Batch → Result Status Batch
  run_commands k [] x = ok x
  run_commands k (cmd ∷ rest) x = Result.◌>>=◌ (run_command k cmd x) (run_commands (k + 1) rest)

  unfoldable pub first_batch : WorkflowExecution → ℕ → Batch
  first_batch exec command_count =
      append_event "WorkflowTaskCompleted"
        (json (object (field "command_count" (number (pos command_count)) end)))
        (record {
          exec = exec;
          event_id = exec.next_event_id;
          events = [];
          activities = [];
          timers = [];
          tasks = [];
        })

  unfoldable pub schedule_timers : ℕ → List Timer → Exec (Unit {0})
  schedule_timers k [] = pure tt
  schedule_timers k (t ∷ rest) = do
    schedule_timer env k (b.print_uuid t.timer_id) (unix_milli t.fire_time)
    schedule_timers (k + 1) rest

  unfoldable pub enqueue_activities : ℕ → List AddActivityTaskRequest → Exec (Unit {0})
  enqueue_activities k [] = pure tt
  enqueue_activities k (r ∷ rest) = do add_activity_task env k r; enqueue_activities (k + 1) rest

  unfoldable pub complete_workflow_task :
      RecordWorkflowTaskCompletedHistoryRequest → WorkflowExecution → Exec (Unit {0})
  complete_workflow_task req exec = do
    x ← lift (run_commands 0 req.commands (first_batch exec (length req.commands)))
    commit env 1 (record x.exec { next_event_id = x.event_id }) exec.current_version x.events
        x.activities x.timers
    schedule_timers 0 x.timers
    enqueue_activities 0 x.tasks

  unfoldable pub record_workflow_task_completed :
      RecordWorkflowTaskCompletedHistoryRequest → Exec (Unit {0})
  unfolding complete_workflow_task
  record_workflow_task_completed req = do
    exec ← load_running env req.workflow_id req.run_id
    complete_workflow_task req exec
