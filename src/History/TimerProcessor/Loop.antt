-- ===== src/History/TimerProcessor/Loop.antt =====
-- history/internal/service/timer_processor.go, the loop: claim what has expired, sleep until the
-- next timer, and rebuild the timers in Redis from the database now and then.
use mini_workflow.Prelude.{ℕ, ◌+◌, String, Option, none, some, List, [], ◌∷◌, if◌then◌else◌}
use mini_workflow.Prelude.Int.{ℤ, pos, ltz, unix_milli, sub_time, ◌+ℤ◌}
use mini_workflow.Result.{Result, ok, err}
use mini_workflow.History.Models.{Uuid, Timer}
use mini_workflow.History.Backend.{Backend}
use mini_workflow.History.Postgres.Timers.{get_timer_by_id, get_non_fired_timers}
use mini_workflow.History.TimerStore.{TimerStore, claim_expired, rebuild_from_db}
use mini_workflow.History.World.{World, Env, schedule_timer}
use mini_workflow.History.TimerProcessor.{dispatch}

abbrev pub timer_batch_size : ℕ
timer_batch_size = 10

abbrev pub hour : ℤ
hour = pos 3600000000000

abbrev pub with_store : World → TimerStore → World
with_store w s = record w { timer_store = s }

-- What ends the wait: the time, a message, the ticker, or the end of the program.
pub data Signal : Type 0 where
  elapsed woken ticked done : Signal

pub record Round : Type 0 where
  pub claim_env : Env
  pub dispatch_envs : ℕ → Env
  pub wait_env : Env
  pub scavenge_env : Env
  pub signal : Signal

module _ ⦃b : Backend⦄ where
  abbrev pub dispatched : Env → Option Uuid → World → World
  dispatched env none w = w
  dispatched env (some timer_id) w = (dispatch env timer_id w).1

  -- The `k`-th dispatch has surroundings of its own.
  unfoldable pub dispatch_all : (ℕ → Env) → List String → World → World
  dispatch_all envs [] w = w
  dispatch_all envs (id ∷ rest) w =
      dispatch_all (λ k. envs (k + 1)) rest (dispatched (envs 0) (b.parse_uuid id) w)

  abbrev pub claimed : (ℕ → Env) → Result String (List String) × TimerStore → World → World
  claimed envs (err e, s) w = with_store w s
  claimed envs (ok ids, s) w = dispatch_all envs ids (with_store w s)

  unfoldable pub process_expired : Env → (ℕ → Env) → World → World
  process_expired env envs w =
      claimed envs
        (claim_expired (env.redis_fault 0 0) (unix_milli (env.time 0)) timer_batch_size
          w.timer_store)
        w

  abbrev idle : World → ℤ × World
  idle w = (hour, w)

  -- `time.Until`, and no wait for a time that has passed.
  unfoldable pub until : ℤ → ℤ → ℤ
  until now at = let wait = sub_time at now in if ltz wait (pos 0) then pos 0 else wait

  abbrev pub peeked_timer : Env → String → Result String Timer → World → ℤ × World
  peeked_timer env id (err e) w = idle w
  peeked_timer env id (ok t) w =
      (until (env.time 1) t.fire_time, (schedule_timer env 1 id (unix_milli t.fire_time) w).1)

  abbrev pub peeked_id : Env → String → Option Uuid → World → ℤ × World
  peeked_id env id none w = idle w
  peeked_id env id (some timer_id) w =
      peeked_timer env id (get_timer_by_id (env.db_fault 0) timer_id w.db) w

  abbrev pub peeked : Env → Result String (List String) × TimerStore → World → ℤ × World
  peeked env (err e, s) w = idle (with_store w s)
  peeked env (ok [], s) w = idle (with_store w s)
  peeked env (ok (id ∷ _), s) w = peeked_id env id (b.parse_uuid id) (with_store w s)

  -- The next timer is claimed, and put back with the time that the database has for it.
  unfoldable pub next_wait_duration : Env → World → ℤ × World
  next_wait_duration env w =
      peeked env
        (claim_expired (env.redis_fault 0 0) (unix_milli (env.time 0 +ℤ hour) +ℤ pos 1) 1
          w.timer_store)
        w

  abbrev pub rebuilt : Env → Result String (List Timer) → World → World
  rebuilt env (err e) w = w
  rebuilt env (ok timers) w =
      let (_, s) = rebuild_from_db (env.redis_fault 0) timers w.timer_store in with_store w s

  unfoldable pub scavenge : Env → World → World
  scavenge env w = rebuilt env (get_non_fired_timers (env.db_fault 0) (env.time 0 +ℤ hour) w.db) w

  abbrev pub signalled : Env → Signal → World → World
  signalled env ticked w = scavenge env w
  signalled env elapsed w = w
  signalled env woken w = w
  signalled env done w = w

  unfoldable pub run_round : Round → World → World
  run_round r w =
      let (_, w') = next_wait_duration r.wait_env (process_expired r.claim_env r.dispatch_envs w) in
      signalled r.scavenge_env r.signal w'

  -- The loop ends with the round that meets `done`; the rounds that follow are not made.
  unfoldable pub run : List Round → World → World
  run [] w = w
  run (r ∷ rest) w =
      let next = run rest (run_round r w) in elim r.signal [ done ↦ run_round r w | _ ↦ next ]
