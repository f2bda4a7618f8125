-- ===== src/History/Service/Workflow.antt =====
-- record_workflow_execution_started.go, record_workflow_task_started.go,
-- record_workflow_task_failed.go, signal_workflow_execution.go, query_workflow_execution.go and
-- get_workflow_execution_history.go.
use mini_workflow.Prelude.{
  ℕ, String, false, ◌||◌, Option, none, some, List, [], ◌∷◌, map, concat, if◌then◌else◌,
}
use mini_workflow.Prelude.Int.{pos, inc64, of_bits, seconds, unix_milli, ◌+ℤ◌}
use mini_workflow.Codec.{Bytes, json, text, blob_of, number, instant, object, end, field}
use mini_workflow.Api.{
  HistoryEvent, StartWorkflowRequest, SignalWorkflowRequest, QueryWorkflowRequest,
  GetHistoryRequest, RecordWorkflowExecutionStartedRequest, RecordWorkflowTaskStartedRequest,
  RecordWorkflowTaskFailedHistoryRequest, invalid_argument, already_exists, internal,
}
use mini_workflow.Matching.Service.{is_blank}
use mini_workflow.History.Models.{
  Uuid, WorkflowExecution, Timer, running, failed, workflow_task_timeout,
}
use mini_workflow.History.Models
use mini_workflow.History.Backend.{Backend}
use mini_workflow.History.Postgres.{
  create_workflow_execution, find_running_workflow, get_history_events,
}
use mini_workflow.History.World.{
  Env, Exec, ◌>>=◌, ◌>>◌, pure, lift, refuse, with_code, query, write, schedule_timer,
  add_workflow_task,
}
use mini_workflow.History.Service.Load.{
  default_run, new_event, run_id_from_string, wake, load_running, commit,
}

module _ ⦃b : Backend⦄ (env : Env) where
  abbrev pub first_execution : StartWorkflowRequest → Uuid → WorkflowExecution
  first_execution sr run_id = record {
    key = default_run sr.workflow_id run_id;
    workflow_type = sr.workflow_type;
    task_queue = sr.task_queue;
    status = running;
    current_version = 1;
    next_event_id = 2;
    input = sr.input;
    result = none;
    start_time = pos 0;
    last_updated_time = pos 0;
  }

  abbrev pub started_payload : StartWorkflowRequest → Uuid → Bytes
  started_payload sr run_id = json (
      object (
        field "input" (blob_of sr.input) (
          field "run_id" (text (b.print_uuid run_id)) (
            field "task_queue" (text sr.task_queue)
              (field "workflow_type" (text sr.workflow_type) end)))))

  abbrev pub refuse_running : String → Option WorkflowExecution → Exec (Unit {0})
  refuse_running workflow_id none = pure tt
  refuse_running workflow_id (some existing) = refuse already_exists (
      concat (
        "workflow "
        ∷ workflow_id
        ∷ " is already running (run_id: "
        ∷ b.print_uuid existing.run_id
        ∷ ")"
        ∷ []))

  -- What follows the check for a running workflow.
  unfoldable pub create_run : StartWorkflowRequest → Exec String
  create_run sr = do
    let run_id = env.uuid 0
    let exec = first_execution sr run_id
    let initial_event = new_event exec 1 "WorkflowExecutionStarted" (started_payload sr run_id)
    write "create workflow execution"
        (create_workflow_execution (env.db_fault 1) env.db_clock exec initial_event)
    add_workflow_task env 0 (wake exec)
    pure (b.print_uuid run_id)

  abbrev pub unless_running : {B : Type 0} → StartWorkflowRequest → Exec B → Exec B
  unless_running sr rest = do
    existing ←
        query internal "check duplicate"
          (find_running_workflow (env.db_fault 0) "default" sr.workflow_id)
    refuse_running sr.workflow_id existing
    rest

  -- The part after the guard on the request.
  unfoldable pub start : StartWorkflowRequest → Exec String
  unfolding create_run
  start sr = unless_running sr (create_run sr)

  abbrev pub with_start_request :
      {B : Type 0}
      → RecordWorkflowExecutionStartedRequest
      → (StartWorkflowRequest → Exec B)
      → Exec B
  with_start_request req rest = elim req.start_request [
    | none ↦ refuse invalid_argument "start_request with workflow_id and workflow_type is required"
    | some sr ↦
        if is_blank sr.workflow_id || is_blank sr.workflow_type
        then refuse invalid_argument "start_request with workflow_id and workflow_type is required"
        else rest sr
  ]

  unfoldable pub record_workflow_execution_started :
      RecordWorkflowExecutionStartedRequest → Exec String
  unfolding start create_run
  record_workflow_execution_started req = with_start_request req start

  abbrev pub task_timer : WorkflowExecution → ℕ → Timer
  task_timer exec event_id = record {
    timer_id = env.uuid 0;
    key = exec.key;
    fire_time = env.time 1 +ℤ seconds (pos 10);
    timer_type = workflow_task_timeout;
    task_token = json (object (field "event_id" (number (of_bits event_id)) end));
    is_fired = false;
  }

  unfoldable pub start_workflow_task :
      RecordWorkflowTaskStartedRequest → WorkflowExecution → Exec (Unit {0})
  start_workflow_task req exec = do
    let event_id = exec.next_event_id
    let payload = json (object (field "started_at" (instant (env.time 0)) end))
    let event = new_event exec event_id "WorkflowTaskStarted" payload
    let timer = task_timer exec event_id
    commit env 1 (record exec { next_event_id = inc64 event_id }) exec.current_version (event ∷ [])
        [] (timer ∷ [])
    schedule_timer env 0 (b.print_uuid timer.timer_id) (unix_milli timer.fire_time)

  unfoldable pub record_workflow_task_started : RecordWorkflowTaskStartedRequest → Exec (Unit {0})
  unfolding start_workflow_task
  record_workflow_task_started req = do
    exec ← load_running env req.workflow_id req.run_id
    start_workflow_task req exec

  unfoldable pub fail_workflow_task :
      RecordWorkflowTaskFailedHistoryRequest → WorkflowExecution → Exec (Unit {0})
  fail_workflow_task req exec = do
    let event_id = exec.next_event_id
    let payload = json (object (field "cause" (text req.cause) end))
    let event1 = new_event exec event_id "WorkflowTaskFailed" payload
    let event2 = new_event exec (inc64 event_id) "WorkflowExecutionFailed" payload
    commit env 1 (record exec { next_event_id = inc64 (inc64 event_id); status = failed })
        exec.current_version (event1 ∷ event2 ∷ []) [] []

  unfoldable pub record_workflow_task_failed :
      RecordWorkflowTaskFailedHistoryRequest → Exec (Unit {0})
  unfolding fail_workflow_task
  record_workflow_task_failed req = do
    exec ← load_running env req.workflow_id req.run_id
    fail_workflow_task req exec

  unfoldable pub signal_run : SignalWorkflowRequest → WorkflowExecution → Exec (Unit {0})
  signal_run req exec = do
    let event_id = exec.next_event_id
    let payload = json (
        object (field "input" (blob_of req.input) (field "signal_name" (text req.signal_name) end)))
    let event = new_event exec event_id "WorkflowExecutionSignaled" payload
    commit env 1 (record exec { next_event_id = inc64 event_id }) exec.current_version (event ∷ [])
        [] []
    add_workflow_task env 0 (wake exec)

  unfoldable pub signal_workflow_execution : SignalWorkflowRequest → Exec (Unit {0})
  unfolding signal_run
  signal_workflow_execution req = do
    exec ← load_running env req.workflow_id req.run_id
    signal_run req exec

  abbrev pub read_events : String → String → Exec (List Models.HistoryEvent)
  read_events workflow_id run_id = do
    run ← lift (with_code invalid_argument (run_id_from_string run_id))
    query internal "get history events"
        (get_history_events (env.db_fault 0) (default_run workflow_id run))

  abbrev pub proto_event : Models.HistoryEvent → HistoryEvent
  proto_event e = record {
    event_id = e.event_id;
    event_type = e.event_type;
    payload = e.payload;
    timestamp = unix_milli e.created_at;
  }

  unfoldable pub get_workflow_execution_history : GetHistoryRequest → Exec (List HistoryEvent)
  get_workflow_execution_history req = do
    events ← read_events req.workflow_id req.run_id
    pure (map proto_event events)

  -- The events are read and not used.
  unfoldable pub query_workflow_execution : QueryWorkflowRequest → Exec Bytes
  query_workflow_execution req = do
    events ← read_events req.workflow_id req.run_id
    pure req.query_args
