-- ===== src/History/Recovery.antt =====
-- The scavenger of history/internal/service/timer_processor.go and the timers that Redis has forgotten,
-- after any steps of the history service.
use mini_workflow.Prelude.{
  Bool, ℕ, ◌≡◌, refl, ap, ◌∙◌, ◌≤◌, true, false, none, some, length, keep, Bool-cases, inl, inr,
}
use mini_workflow.Prelude.Int.{ltz, unix_milli, ◌+ℤ◌}
use mini_workflow.History.Models.{Uuid, Timer}
use mini_workflow.History.Backend.{Backend}
use mini_workflow.History.Postgres.{find_timer}
use mini_workflow.History.Postgres.TimerRows.{IsKeyed, Kept}
use mini_workflow.History.Changes.Timers.{Changes-AllKept}
use mini_workflow.History.TimerStore.{is_expired}
use mini_workflow.History.World.{World, Env}
use mini_workflow.History.TimerProcessor.Loop.{process_expired, scavenge, hour, timer_batch_size}
use mini_workflow.History.TimerProcessor.Rounds.{process_expired-Evolves, scavenge-db}
use mini_workflow.History.TimerProcessor.Claimed.{Answers}
use mini_workflow.History.TimerProcessor.Recovery.{scavenge-process_expired}
use mini_workflow.History.System.{System, at_rest, Steps, Steps-AllKept}

module _ ⦃b : Backend⦄ (id : Uuid) (t : Timer) where
  abbrev pub Fired : World → Type 0
  Fired w = (u : Timer) × (find_timer id w.db.timers ≡ some u) × Kept t u × (u.is_fired ≡ true)

  stays-Fired :
      (claim_env : Env) (envs : ℕ → Env) (w : World)
      → find_timer id w.db.timers ≡ some t
      → t.is_fired ≡ true
      → Fired (process_expired claim_env envs w)
  stays-Fired claim_env envs w found fired =
      let (u, at, kept) =
        (Changes-AllKept (process_expired-Evolves claim_env envs w)).stays id t found in
      (u, at, kept, kept.is_fired fired)

  -- Whatever requests and timers the service has handled before, with any failures, overlapping, and
  -- whatever Redis holds or has lost, a timer that is in the database and due is marked as fired
  -- after a pass of the scavenger and a look for expired timers whose commands answer, if at most ten of
  -- the timers that Redis then holds have expired and no two timers had one id at the start.
  pub Steps-scavenge-process_expired :
      {apart : Bool} {start : World} {s : System} (scavenge_env claim_env : Env) (envs : ℕ → Env)
      → Steps apart (at_rest start) s
      → IsKeyed start.db.timers
      → find_timer id s.world.db.timers ≡ some t
      → scavenge_env.db_fault 0 ≡ none
      → ((k : ℕ) → scavenge_env.redis_fault 0 k ≡ none)
      → claim_env.redis_fault 0 0 ≡ none
      → ((k : ℕ) → Answers (envs k))
      → ltz (scavenge_env.time 0 +ℤ hour) t.fire_time ≡ false
      → is_expired
          (unix_milli (claim_env.time 0))
          (record { score = unix_milli t.fire_time; member = b.print_uuid id })
        ≡ true
      → length (
          keep
            (is_expired (unix_milli (claim_env.time 0)))
            (scavenge scavenge_env s.world).timer_store.active)
        ≤ timer_batch_size
      → Fired (process_expired claim_env envs (scavenge scavenge_env s.world))
  Steps-scavenge-process_expired {apart} {start} {s} scavenge_env claim_env envs steps keyed found
        up redis claim answers soon late room =
      elim (Bool-cases t.is_fired) [
        | inl fired ↦
            stays-Fired claim_env envs (scavenge scavenge_env s.world)
              (ap (λ d. find_timer id d.timers) (scavenge-db scavenge_env s.world) ∙ found) fired
        | inr waits ↦ (
          record t { is_fired = true },
          scavenge-process_expired id t scavenge_env claim_env envs s.world up redis claim answers
              ((Steps-AllKept steps).keyed keyed) found (rw (waits, soon) refl) late room,
          record {
            timer_id = refl;
            key = refl;
            timer_type = refl;
            task_token = refl;
            is_fired = λ h. refl;
          },
          refl,
        )
      ]
