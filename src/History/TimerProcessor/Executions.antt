-- ===== src/History/TimerProcessor/Executions.antt =====
-- What the timers of a run itself do when they fire: those that a workflow has started, and its
-- time-out.
use mini_workflow.Prelude.{
  ◌+◌, ◌≡◌, refl, ap, ◌∙◌, String, Option, none, some, [], ◌∷◌, ◌++◌, arith,
}
use mini_workflow.Prelude.Int.{inc64}
use mini_workflow.Result.{Result, ok, err}
use mini_workflow.Codec.{json, text, object, end, field}
use mini_workflow.Api.{Status, internal, AddWorkflowTaskRequest}
use mini_workflow.Matching.TaskQueue.{Queues}
use mini_workflow.History.Models.{
  WorkflowExecution, WorkflowStatus, Timer, user, workflow_timeout, timed_out,
}
use mini_workflow.History.Backend.{Backend}
use mini_workflow.History.Postgres.{
  Database, find_execution, get_workflow_execution, update_workflow_execution,
}
use mini_workflow.History.Postgres.Find.{same_run_refl, find_execution-key}
use mini_workflow.History.Postgres.Update.{updated, stamp, update-Updated}
use mini_workflow.History.Postgres.Log.{find-Updated}
use mini_workflow.History.World.{World, Env, continue, pure, add_workflow_task}
use mini_workflow.History.Service.Queued.{with_workflow_task, add_workflow_task-queued}
use mini_workflow.History.Service.Rules.{query-cases, write-cases, get_workflow_execution-ok}
use mini_workflow.History.TimerProcessor.{
  process_execution_timer, new_status, timer_event, fire, wake_for,
}

module _ ⦃b : Backend⦄ (env : Env) (t : Timer) (w : World) where
  -- The run that the timer has found, whatever its status, and what it has become.
  abbrev Ticked : String → Option WorkflowStatus → WorkflowExecution → Database → Type 0
  Ticked kind status exec db' =
      (find_execution t.key w.db.executions ≡ some exec)
      × (find_execution t.key db'.executions
          ≡ some (
              updated env.db_clock
                (new_status env status (record exec { next_event_id = inc64 exec.next_event_id }))
                exec))
      × (db'.events
          ≡ w.db.events ++ stamp env.db_clock (timer_event env t exec.next_event_id kind) ∷ [])

  abbrev Ticks : String → Option WorkflowStatus → Result Status WorkflowExecution × World → Type 0
  Ticks kind status r =
      (x : WorkflowExecution)
      → r.0 ≡ ok x
      → (exec : WorkflowExecution) × (x
          ≡ new_status env status (record exec { next_event_id = inc64 exec.next_event_id }))
        × (r.1.queues ≡ w.queues)
        × Ticked kind status exec r.1.db

  ticked :
      (kind : String) (status : Option WorkflowStatus) (exec : WorkflowExecution) {db' : Database}
      → find_execution t.key w.db.executions ≡ some exec
      → update_workflow_execution
          (env.db_fault 3)
          env.db_clock
          (new_status env status (record exec { next_event_id = inc64 exec.next_event_id }))
          exec.current_version
          (timer_event env t exec.next_event_id kind ∷ [])
          []
          []
          w.db
        ≡ ok db'
      → Ticked kind status exec db'
  ticked kind none exec at h =
      let u = update-Updated env.db_clock _ _ _ _ _ w.db (env.db_fault 3) h in
      let own = find_execution-key t.key w.db.executions exec at in
      let same_row : u.row ≡ exec =
        cc (u.found, ap (λ k. find_execution k w.db.executions) own, at) in
      (at, ground (arith, find-Updated u t.key, own, same_run_refl t.key, same_row), u.events)
  ticked kind (some s) exec at h =
      let u = update-Updated env.db_clock _ _ _ _ _ w.db (env.db_fault 3) h in
      let own = find_execution-key t.key w.db.executions exec at in
      let same_row : u.row ≡ exec =
        cc (u.found, ap (λ k. find_execution k w.db.executions) own, at) in
      (at, ground (arith, find-Updated u t.key, own, same_run_refl t.key, same_row), u.events)

  process_execution_timer-ok :
      (kind : String) (status : Option WorkflowStatus)
      → Ticks kind status (process_execution_timer env t kind status w)
  unfolding process_execution_timer
  process_execution_timer-ok kind status =
      query-cases (Ticks kind status) _ w internal ""
        (get_workflow_execution (env.db_fault 2) t.key) (λ s x h. cc)
        λ exec at.
          write-cases (Ticks kind status) _ w ""
            (update_workflow_execution (env.db_fault 3) env.db_clock
              (new_status env status (record exec { next_event_id = inc64 exec.next_event_id }))
              exec.current_version (timer_event env t exec.next_event_id kind ∷ []) [] [])
            (λ s x h. cc)
            λ db' h x e. (
              exec,
              cc e,
              refl,
              ticked kind status exec (get_workflow_execution-ok (env.db_fault 2) t.key w.db at) h,
            )

  task_queued :
      (r : AddWorkflowTaskRequest) (v : World)
      → v.queues ≡ w.queues
      → ((add_workflow_task env 0 r v).1.queues ≡ (add_workflow_task env 0 r w).1.queues)
        × ((add_workflow_task env 0 r v).1.db ≡ v.db)
  unfolding add_workflow_task
  task_queued r v same = (ground (arith, same), ground arith)

  abbrev Woken : Database → Queues → Type 0
  Woken db q =
      (exec : WorkflowExecution) × Ticked "TimerFired" none exec db
      × (q ≡ (add_workflow_task env 0 (wake_for env t exec) w).1.queues)

  woken :
      (r : Result Status WorkflowExecution × World)
      → Ticks "TimerFired" none r
      → (continue r (λ exec. add_workflow_task env 0 (wake_for env t exec))).0 ≡ ok tt
      → Woken
          (continue r (λ exec. add_workflow_task env 0 (wake_for env t exec))).1.db
          (continue r (λ exec. add_workflow_task env 0 (wake_for env t exec))).1.queues
  woken (err s, v) ticks h = cc
  woken (ok x, v) ticks h =
      let (exec, same, quiet, told) = ticks x refl in
      let (queued, kept) = task_queued (wake_for env t x) v quiet in
      rw (queued, kept, same) (exec, told, refl)

  -- What a timer that fires with success does to its run, written out, with the status that it
  -- leaves.
  abbrev pub Fired : String → WorkflowStatus → WorkflowExecution → Database → Type 0
  Fired kind status exec db' =
      (find_execution t.key w.db.executions ≡ some exec)
      × (find_execution t.key db'.executions
          ≡ some (record exec {
            status = status;
            current_version = exec.current_version + 1;
            next_event_id = inc64 exec.next_event_id;
            last_updated_time = env.db_clock;
          }))
      × (db'.events
          ≡ w.db.events
            ++ (record {
              key = t.key;
              event_id = exec.next_event_id;
              event_type = kind;
              payload = json (object (field "timer_id" (text (b.print_uuid t.timer_id)) end));
              created_at = env.db_clock;
            })
              ∷ [])

  -- A timer that a workflow has started, when it fires with success, adds TimerFired to the log of
  -- its run, and puts a workflow task in the queue of the run if the call gets through and none of
  -- the names in it is empty; the run keeps its status, and is not asked for it: this holds of a
  -- closed run too.
  pub user_timer-fire :
      t.timer_type ≡ user
      → (fire env t w).0 ≡ ok tt
      → (exec : WorkflowExecution) × Fired "TimerFired" exec.status exec (fire env t w).1.db
        × ((fire env t w).1.queues
            ≡ with_workflow_task env t.workflow_id
                (b.print_uuid t.run_id)
                exec.workflow_type
                exec.task_queue
                w.queues)
  unfolding fire process_execution_timer
  user_timer-fire e = rw e λ h.
      let (exec, told, queues) =
        woken (process_execution_timer env t "TimerFired" none w)
          (process_execution_timer-ok "TimerFired" none) h in
      (
        exec,
        told,
        queues ∙ ap (λ r. r.1.queues) (add_workflow_task-queued env w (wake_for env t exec)),
      )

  ended :
      (r : Result Status WorkflowExecution × World)
      → Ticks "WorkflowExecutionTimedOut" (some timed_out) r
      → (continue r (λ exec. pure tt)).0 ≡ ok tt
      → (exec : WorkflowExecution) × Ticked "WorkflowExecutionTimedOut"
          (some timed_out)
          exec
          (continue r (λ exec. pure tt)).1.db
  ended (err s, v) ticks h = cc
  ended (ok x, v) ticks h = let (exec, same, quiet, told) = ticks x refl in (exec, told)

  -- The time-out of a run, when it fires with success, adds WorkflowExecutionTimedOut to the log of
  -- the run and makes its status timed out, whatever it was.
  pub workflow_timeout-fire :
      t.timer_type ≡ workflow_timeout
      → (fire env t w).0 ≡ ok tt
      → (exec : WorkflowExecution) × Fired "WorkflowExecutionTimedOut" timed_out exec
          (fire env t w).1.db
  unfolding fire process_execution_timer
  workflow_timeout-fire e = rw e (
      ended (process_execution_timer env t "WorkflowExecutionTimedOut" (some timed_out) w)
        (process_execution_timer-ok "WorkflowExecutionTimedOut" (some timed_out)))
