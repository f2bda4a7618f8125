-- ===== src/History/TimerProcessor/Timeouts.antt =====
-- What the timers that the handlers set do when they fire.
use mini_workflow.Prelude.{
  ℕ, ◌+◌, ◌<◌, ◌≡◌, refl, ap, ◌∙◌, String, true, false, Option, none, some, [], ◌∷◌, arith, ltb,
  if◌then◌else◌, List,
}
use mini_workflow.Prelude.Int.{sub_time, ℤ, pos, negsuc, ltz, in_int64, unix_milli, wrap32, seconds}
use mini_workflow.Result.{Result, ok, err}
use mini_workflow.Matching.Service.{is_blank}
use mini_workflow.History.Models.{WorkflowExecution, ActivityState, Timer}
use mini_workflow.History.Backend.{Backend}
use mini_workflow.History.Postgres.{find_execution, find_activity, is_running}
use mini_workflow.History.TimerStore.{TimerStore}
use mini_workflow.History.TimerStore
use mini_workflow.History.World.{World, Env, schedule_timer}
use mini_workflow.History.Service.Workflow.{task_timer}
use mini_workflow.History.Service.Activity.{retry_timer}
use mini_workflow.History.Service.Queued.{
  with_workflow_task, with_activity_task, add_workflow_task-queued, add_activity_task-queued,
}
use mini_workflow.History.Service.Heartbeat.{or_thirty}
use mini_workflow.History.TimerProcessor.{fire, wake_for, again}
use mini_workflow.History.TimerProcessor.Late.{expired, task_timer-calls, retry_timer-calls}
use mini_workflow.History.TimerProcessor.Loop.{
  next_wait_duration, until, peeked, peeked_id, peeked_timer,
}

module _ ⦃b : Backend⦄ (env env' : Env) (w : World) where
  -- The timer that the start of a workflow task sets, when it fires: if the run is open and its next
  -- event is the one that follows the start, the task is put in the queue of the run again, if the
  -- call gets through and none of the names in it is empty; if the run is closed or has more events,
  -- nothing happens. The event numbers are below 2^63 - 1, and the read of the run succeeds.
  pub task_timer-fire :
      (started exec : WorkflowExecution) (n : ℕ)
      → n < 9223372036854775807
      → exec.next_event_id < 9223372036854775808
      → env'.db_fault 2 ≡ none
      → find_execution started.key w.db.executions ≡ some exec
      → fire env' (task_timer env started n) w ≡ (
          if is_running exec.status
          then (if ltb (n + 1) exec.next_event_id then (ok tt, w) else (
            ok tt,
            record w {
              queues =
                  with_workflow_task env' started.workflow_id
                    (b.print_uuid started.run_id)
                    exec.workflow_type
                    exec.task_queue
                    w.queues;
            },
          ))
          else (ok tt, w))
  task_timer-fire started exec n small bounded up found =
      task_timer-calls env env' w started exec n small bounded up found
      ∙ ap
          (λ late.
            if is_running exec.status
            then (if ltb (n + 1) exec.next_event_id then (ok tt, w) else late)
            else (ok tt, w))
          (add_workflow_task-queued env' w (wake_for env' (task_timer env started n) exec))

  -- The timer of a retry, when it fires: whatever has become of the activity since, it is put in the
  -- queue that its row has now, if the call gets through and none of the names in it is empty; unless
  -- its last heartbeat is recent enough to wait for the next one, and then the timer is set to that
  -- time. The id is not empty, the time-out is of 64 bits, and the read of the activity succeeds.
  pub retry_timer-fire :
      (exec : WorkflowExecution) (old act : ActivityState) (id : String)
      → is_blank id ≡ false
      → in_int64 old.heartbeat_timeout_seconds ≡ true
      → env'.db_fault 2 ≡ none
      → find_activity exec.key id w.db.activities ≡ some act
      → fire env' (retry_timer env exec old id) w
        ≡ expired
            (
              ok tt,
              record w {
                queues =
                    with_activity_task env' exec.workflow_id
                      (b.print_uuid exec.run_id)
                      id
                      act.activity_type
                      act.input
                      act.task_queue
                      (wrap32 act.heartbeat_timeout_seconds)
                      w.queues;
              },
            )
            (λ deadline. (
              ok tt,
              record w {
                timer_store =
                    (TimerStore.schedule_timer
                      (env'.redis_fault 0)
                      (b.print_uuid (env.uuid 0))
                      (unix_milli deadline)
                      w.timer_store).1;
              },
            ))
            (env'.time 0)
            (seconds (or_thirty old.heartbeat_timeout_seconds))
            act.last_heartbeat
  unfolding schedule_timer
  retry_timer-fire exec old act id named small up found =
      retry_timer-calls env env' w exec old act id named small up found
      ∙ ap
          (λ late.
            expired late
              (λ deadline.
                schedule_timer env' 0 (b.print_uuid (env.uuid 0)) (unix_milli deadline) w)
              (env'.time 0) (seconds (or_thirty old.heartbeat_timeout_seconds)) act.last_heartbeat)
          (add_activity_task-queued env' w (again env' (retry_timer env exec old id) id act))

module _ ⦃b : Backend⦄ where
  not_negative : (x : ℤ) → ltz (if ltz x (pos 0) then pos 0 else x) (pos 0) ≡ false
  not_negative (pos n) = ground arith
  not_negative (negsuc n) = ground arith

  until-positive : (now at : ℤ) → ltz (until now at) (pos 0) ≡ false
  unfolding until
  until-positive now at = not_negative (sub_time at now)

  peeked_timer-bound :
      (env : Env) (id : String) (r : Result String Timer) (w : World)
      → ltz (peeked_timer env id r w).0 (pos 0) ≡ false
  peeked_timer-bound env id (err e) w = refl
  peeked_timer-bound env id (ok t) w = until-positive (env.time 1) t.fire_time

  peeked_id-bound :
      (env : Env) (id : String) (u : Option ℕ) (w : World)
      → ltz (peeked_id env id u w).0 (pos 0) ≡ false
  peeked_id-bound env id none w = refl
  peeked_id-bound env id (some u) w = peeked_timer-bound env id _ w

  peeked-bound :
      (env : Env) (r : Result String (List String) × TimerStore) (w : World)
      → ltz (peeked env r w).0 (pos 0) ≡ false
  peeked-bound env (err e, s) w = refl
  peeked-bound env (ok [], s) w = refl
  peeked-bound env (ok (id ∷ rest), s) w = peeked_id-bound env id (b.parse_uuid id) _

module _ ⦃b : Backend⦄ (env : Env) where
  -- The wait for the next timer is never negative.
  pub next_wait_duration-bound : (w : World) → ltz (next_wait_duration env w).0 (pos 0) ≡ false
  unfolding next_wait_duration
  next_wait_duration-bound w = peeked-bound env _ w
