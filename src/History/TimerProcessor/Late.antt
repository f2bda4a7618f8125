-- ===== src/History/TimerProcessor/Late.antt =====
-- The calls that the timers of the handlers make when they fire.
use mini_workflow.Prelude.{
  ℕ, ◌+◌, ◌<◌, ◌≡◌, refl, String, true, false, Option, none, some, arith, ltb, if◌then◌else◌,
  Bool-cases, inl, inr,
}
use mini_workflow.Prelude.Text.{equal_fold}
use mini_workflow.Prelude.Int.{
  ℤ, ltz, lt64, of_bits, to_bits-of_bits, inc64_lem, in_int64, int64_mod, unix_milli, seconds, ◌+ℤ◌,
}
use mini_workflow.Result.{ok}
use mini_workflow.Codec.{number}
use mini_workflow.Codec.Decode.{unmarshal, set_int64}
use mini_workflow.Matching.Service.{is_blank}
use mini_workflow.History.Models.{WorkflowExecution, ActivityState, Timer}
use mini_workflow.History.Backend.{Backend}
use mini_workflow.History.Postgres.{
  find_execution, find_activity, is_running, get_workflow_execution, get_activity_state,
}
use mini_workflow.History.World.{World, Env, schedule_timer, add_workflow_task, add_activity_task}
use mini_workflow.History.Service.Workflow.{task_timer}
use mini_workflow.History.Service.Activity.{retry_timer}
use mini_workflow.History.Service.Heartbeat.{or_thirty}
use mini_workflow.History.TimerProcessor.{
  decode_event_id, decode_activity_timer_token, handle_workflow_task_timeout,
  handle_activity_timeout, fire, wake_for, set_event_id, set_activity_timer_token, again, judged,
  judge_activity, live_deadline,
}

set_number : (n : ℤ) → in_int64 n ≡ true → (old : ℤ) → set_int64 (number n) old ≡ (n, false)
set_number n h old = rw h refl

of_bits-in_int64 : (n : ℕ) → n < int64_mod → in_int64 (of_bits n) ≡ true
unfolding of_bits
of_bits-in_int64 n h = ground arith

lt64_lem : (a b : ℕ) → a < 9223372036854775808 → b < 9223372036854775808 → lt64 a b ≡ ltb a b
unfolding lt64
lt64_lem a b h k = ground arith

-- The two ends of the wait for a heartbeat: none is awaited, or there is time left until one is due.
abbrev pub expired : {A : Type 0} → A → (ℤ → A) → ℤ → ℤ → Option ℤ → A
expired late wait now timeout none = late
expired late wait now timeout (some beat) =
    if ltz now (beat +ℤ timeout) then wait (beat +ℤ timeout) else late

module _ ⦃b : Backend⦄ (env env' : Env) (w : World) where
  -- The call of the timer that the start of a workflow task sets.
  pub task_timer-calls :
      (started exec : WorkflowExecution) (n : ℕ)
      → n < 9223372036854775807
      → exec.next_event_id < 9223372036854775808
      → env'.db_fault 2 ≡ none
      → find_execution started.key w.db.executions ≡ some exec
      → fire env' (task_timer env started n) w ≡ (
          if is_running exec.status
          then (if ltb (n + 1) exec.next_event_id
              then (ok tt, w)
              else add_workflow_task env' 0 (wake_for env' (task_timer env started n) exec) w)
          else (ok tt, w))
  unfolding fire handle_workflow_task_timeout decode_event_id unmarshal set_event_id equal_fold
      get_workflow_execution
  task_timer-calls started exec n small bounded up found =
      rw
        (
          set_number (of_bits n) (of_bits-in_int64 n (omega arith)),
          up,
          found,
          to_bits-of_bits n (omega arith),
          inc64_lem n (omega arith),
        )
        (elim (Bool-cases (is_running exec.status)) [
          | inl is_open ↦
              rw (is_open, lt64_lem (n + 1) exec.next_event_id (omega arith) bounded) (ground arith)
          | inr closed ↦ rw closed refl
        ])

  judged_lem :
      (t : Timer) (id : String) (act : ActivityState) (timeout : ℤ) (beat : Option ℤ)
      → judged env' t id act (live_deadline env' timeout beat) w
        ≡ expired
            (add_activity_task env' 0 (again env' t id act) w)
            (λ deadline. schedule_timer env' 0 (b.print_uuid t.timer_id) (unix_milli deadline) w)
            (env'.time 0)
            (seconds (or_thirty timeout))
            beat
  unfolding live_deadline
  judged_lem t id act timeout none = refl
  judged_lem t id act timeout (some beat) = ground arith

  -- The calls of the timer of a retry.
  pub retry_timer-calls :
      (exec : WorkflowExecution) (old act : ActivityState) (id : String)
      → is_blank id ≡ false
      → in_int64 old.heartbeat_timeout_seconds ≡ true
      → env'.db_fault 2 ≡ none
      → find_activity exec.key id w.db.activities ≡ some act
      → fire env' (retry_timer env exec old id) w
        ≡ expired
            (add_activity_task env' 0 (again env' (retry_timer env exec old id) id act) w)
            (λ deadline. schedule_timer env' 0 (b.print_uuid (env.uuid 0)) (unix_milli deadline) w)
            (env'.time 0)
            (seconds (or_thirty old.heartbeat_timeout_seconds))
            act.last_heartbeat
  unfolding fire handle_activity_timeout decode_activity_timer_token unmarshal
      set_activity_timer_token equal_fold get_activity_state judge_activity live_deadline
  retry_timer-calls exec old act id named small up found =
      rw (set_number old.heartbeat_timeout_seconds small, named, up, found)
        (judged_lem (retry_timer env exec old id) id act old.heartbeat_timeout_seconds
          act.last_heartbeat)
