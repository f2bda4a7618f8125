-- ===== src/History/Service/Attributes.antt =====
-- record_workflow_task_completed.go: the attributes of the commands, as JSON.
use mini_workflow.Prelude.{String, false, if◌then◌else◌}
use mini_workflow.Prelude.Int.{ℤ, pos}
use mini_workflow.Codec.{Bytes, nil}
use mini_workflow.Codec.Decode.{Setter, set_text, set_blob, set_int64, in_field, names}

pub record ScheduleAttributes : Type 0 where
  pub activity_id : String
  pub activity_type : String
  pub input : Bytes
  pub task_queue : String
  pub heartbeat_timeout_seconds : ℤ

abbrev pub no_schedule : ScheduleAttributes
no_schedule = record {
  activity_id = "";
  activity_type = "";
  input = nil;
  task_queue = "";
  heartbeat_timeout_seconds = pos 0;
}

unfoldable pub set_schedule : Setter ScheduleAttributes
set_schedule k v t =
    if names k "activity_id"
    then in_field (λ s. record t { activity_id = s }) (set_text v t.activity_id)
    else if names k "activity_type"
    then in_field (λ s. record t { activity_type = s }) (set_text v t.activity_type)
    else if names k "input"
    then in_field (λ b. record t { input = b }) (set_blob v t.input)
    else if names k "task_queue"
    then in_field (λ s. record t { task_queue = s }) (set_text v t.task_queue)
    else if names k "heartbeat_timeout_seconds"
    then in_field (λ n. record t { heartbeat_timeout_seconds = n })
        (set_int64 v t.heartbeat_timeout_seconds)
    else (t, false)

pub record TimerAttributes : Type 0 where
  pub timer_id : String
  pub fire_after_seconds : ℤ

abbrev pub no_timer : TimerAttributes
no_timer = record { timer_id = ""; fire_after_seconds = pos 0 }

unfoldable pub set_timer : Setter TimerAttributes
set_timer k v t =
    if names k "timer_id"
    then in_field (λ s. record t { timer_id = s }) (set_text v t.timer_id)
    else if names k "fire_after_seconds"
    then in_field (λ n. record t { fire_after_seconds = n }) (set_int64 v t.fire_after_seconds)
    else (t, false)

unfoldable pub set_result : Setter Bytes
set_result k v r = if names k "result" then set_blob v r else (r, false)
