-- ===== src/History/TimerProcessor/Wakeups.antt =====
-- The loop of the timer processor and the messages that wake it.
use mini_workflow.Prelude.{ℕ, ◌+◌, ◌≡◌, refl, true, none, some, [], ◌∷◌, eq_refl}
use mini_workflow.Prelude.Int.{pos, unix_milli, ◌+ℤ◌}
use mini_workflow.History.Models.{Uuid, Timer}
use mini_workflow.History.Backend.{Backend}
use mini_workflow.History.Postgres.{find_timer}
use mini_workflow.History.Postgres.Timers.{get_timer_by_id}
use mini_workflow.History.TimerStore.{
  Entry, TimerStore, claim_expired, is_expired, is_in, zadd, without, insert_entry,
}
use mini_workflow.History.TimerStore
use mini_workflow.History.World.{World, Env, schedule_timer}
use mini_workflow.History.TimerProcessor.Loop.{next_wait_duration, hour, until}

module _ ⦃b : Backend⦄ (env : Env) (w : World) where
  -- With one timer in Redis, due within the hour, the look for the next timer takes it, puts it back
  -- with the time that the database has, and publishes a wake-up, which is a message to this loop
  -- itself; the wait is until that time. Redis and the database answer.
  pub next_wait_duration-wakes :
      (e : Entry) (u : Uuid) (t : Timer)
      → w.timer_store.active ≡ e ∷ []
      → is_expired (unix_milli (env.time 0 +ℤ hour) +ℤ pos 1) e ≡ true
      → b.parse_uuid e.member ≡ some u
      → find_timer u w.db.timers ≡ some t
      → env.db_fault 0 ≡ none
      → ((k j : ℕ) → env.redis_fault k j ≡ none)
      → next_wait_duration env w ≡ (
        until (env.time 1) t.fire_time,
        record w {
          timer_store = record {
            active = (record { score = unix_milli t.fire_time; member = e.member }) ∷ [];
            wakeups = w.timer_store.wakeups + 1;
          };
        },
      )
  unfolding next_wait_duration claim_expired schedule_timer TimerStore.schedule_timer
      get_timer_by_id is_in zadd without insert_entry
  next_wait_duration-wakes e u t one late parsed found up redis =
      rw
        (redis 0 0, one, late, parsed, up, found, redis 1 0, redis 1 1, redis 1 2, eq_refl e.member)
        (rw (eq_refl e.member) refl)
