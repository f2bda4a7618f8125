-- ===== src/History/TimerProcessor/Rounds.antt =====
-- history/internal/service/timer_processor.go against the specification `Changes`: a round of the
-- loop.
use mini_workflow.Prelude.{ℕ, ◌+◌, ◌≡◌, refl, String, Option, none, some, List, [], ◌∷◌}
use mini_workflow.Prelude.Int.{unix_milli}
use mini_workflow.Result.{Result, ok, err}
use mini_workflow.History.TimerStore.{TimerStore}
use mini_workflow.History.Models.{Uuid, Timer}
use mini_workflow.History.Backend.{Backend}
use mini_workflow.History.Changes.{Changes, Changes-trans, same}
use mini_workflow.History.World.{World, Env}
use mini_workflow.History.Service.Evolution.{schedule_timer-db}
use mini_workflow.History.TimerProcessor.Evolution.{dispatch-Evolves}
use mini_workflow.History.TimerProcessor.Loop.{
  Round, Signal, ticked, done, elapsed, woken, run_round, dispatch_all, process_expired,
  next_wait_duration, scavenge, peeked, peeked_id, peeked_timer, signalled, dispatched, claimed,
  rebuilt, with_store,
}

module _ ⦃b : Backend⦄ where
  dispatched-Evolves :
      (env : Env) (u : Option Uuid) (w : World) → Changes w.db (dispatched env u w).db
  dispatched-Evolves env none w = same
  dispatched-Evolves env (some u) w = dispatch-Evolves env u w

  dispatch_all-Evolves :
      (envs : ℕ → Env) (ids : List String) (w : World) → Changes w.db (dispatch_all envs ids w).db
  unfolding dispatch_all
  dispatch_all-Evolves envs [] w = same
  dispatch_all-Evolves envs (id ∷ rest) w =
      Changes-trans (dispatched-Evolves (envs 0) (b.parse_uuid id) w)
        (dispatch_all-Evolves (λ k. envs (k + 1)) rest _)

  claimed-Evolves :
      (envs : ℕ → Env) (r : Result String (List String) × TimerStore) (w : World)
      → Changes w.db (claimed envs r w).db
  claimed-Evolves envs (err e, s) w = same
  claimed-Evolves envs (ok ids, s) w = dispatch_all-Evolves envs ids (with_store w s)

  pub process_expired-Evolves :
      (env : Env) (envs : ℕ → Env) (w : World) → Changes w.db (process_expired env envs w).db
  unfolding process_expired
  process_expired-Evolves env envs w = claimed-Evolves envs _ w

  peeked_timer-db :
      (env : Env) (id : String) (r : Result String Timer) (w : World)
      → (peeked_timer env id r w).1.db ≡ w.db
  peeked_timer-db env id (err e) w = refl
  peeked_timer-db env id (ok t) w = schedule_timer-db env 1 w id (unix_milli t.fire_time)

  peeked_id-db :
      (env : Env) (id : String) (u : Option Uuid) (w : World) → (peeked_id env id u w).1.db ≡ w.db
  peeked_id-db env id none w = refl
  peeked_id-db env id (some u) w = peeked_timer-db env id _ w

  peeked-db :
      (env : Env) (r : Result String (List String) × TimerStore) (w : World)
      → (peeked env r w).1.db ≡ w.db
  peeked-db env (err e, s) w = refl
  peeked-db env (ok [], s) w = refl
  peeked-db env (ok (id ∷ rest), s) w = peeked_id-db env id (b.parse_uuid id) (with_store w s)

  next_wait_duration-db : (env : Env) (w : World) → (next_wait_duration env w).1.db ≡ w.db
  unfolding next_wait_duration
  next_wait_duration-db env w = peeked-db env _ w

  rebuilt-db :
      (env : Env) (r : Result String (List Timer)) (w : World) → (rebuilt env r w).db ≡ w.db
  rebuilt-db env (err e) w = refl
  rebuilt-db env (ok ts) w = refl

  pub scavenge-db : (env : Env) (w : World) → (scavenge env w).db ≡ w.db
  unfolding scavenge
  scavenge-db env w = rebuilt-db env _ w

  signalled-db : (env : Env) (s : Signal) (w : World) → (signalled env s w).db ≡ w.db
  signalled-db env elapsed w = refl
  signalled-db env woken w = refl
  signalled-db env ticked w = scavenge-db env w
  signalled-db env done w = refl

  pub run_round-Evolves : (r : Round) (w : World) → Changes w.db (run_round r w).db
  unfolding run_round
  run_round-Evolves r w =
      let w' = process_expired r.claim_env r.dispatch_envs w in
      rw (signalled-db r.scavenge_env r.signal, next_wait_duration-db r.wait_env w')
        (process_expired-Evolves r.claim_env r.dispatch_envs w)
