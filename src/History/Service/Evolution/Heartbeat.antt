-- ===== src/History/Service/Evolution/Heartbeat.antt =====
-- record_activity_task_heartbeat.go against the specification `Changes`.
use mini_workflow.Prelude.{
  ℕ, String, ◌≡◌, subst, refl, false, Option, none, some, [], ◌∷◌, Bool-cases, inl, inr, arith,
}
use mini_workflow.Prelude.Int.{ℤ}
use mini_workflow.Api.{Status}
use mini_workflow.Result.{Result, ok, err}
use mini_workflow.History.Models.{WorkflowExecution, ActivityState, Timer}
use mini_workflow.History.Backend.{Backend}
use mini_workflow.History.Postgres.{Database, is_running, update_workflow_execution}
use mini_workflow.History.Postgres.Timers.{update_timer_fire_time}
use mini_workflow.History.Postgres.TimerRows.{AllKept, alter_timer-AllKept}
use mini_workflow.History.Postgres.Update.{update-Updated}
use mini_workflow.History.Changes.{Change, Changes-trans, same, one, retimed}
use mini_workflow.History.World.{World, Env, continue, pure, schedule_timer}
use mini_workflow.History.Service.Heartbeat.{heartbeat, answer_heartbeat, extend_deadline, extended}
use mini_workflow.History.Service.Rules.{write-cases, load_activity-cases, Result-cases}
use mini_workflow.History.Service.Evolution.{Evolves, Current, Updated-Change}

ok-inj : {d e : Database} → ◌≡◌ {A = Result String Database} (ok d) (ok e) → d ≡ e
ok-inj h = cc h

module _ ⦃b : Backend⦄ (env : Env) where
  update_timer_fire_time-Change :
      (fault : Option String) (id : ℕ) (at : ℤ) (db : Database) {db' : Database}
      → update_timer_fire_time fault id at db ≡ ok db'
      → Change db db'
  unfolding update_timer_fire_time
  update_timer_fire_time-Change none id at db {db'} h =
      retimed (ground arith) (ground arith) (ground arith) (
        subst (λ (d : Database). AllKept db.timers d.timers) (ok-inj h)
          (alter_timer-AllKept id (λ t. record t { fire_time = at })
            (λ t. record {
              timer_id = refl;
              key = refl;
              timer_type = refl;
              task_token = refl;
              is_fired = λ f. f;
            })
            db.timers))
  update_timer_fire_time-Change (some e) id at db h = cc

  extended-Evolves :
      (at : ℤ) (found : Result String (Option Timer)) (w : World)
      → Evolves w (extended env at found w)
  unfolding schedule_timer
  extended-Evolves at (err e) w = same
  extended-Evolves at (ok none) w = same
  extended-Evolves at (ok (some t)) w =
      elim (Result-cases (update_timer_fire_time (env.db_fault 4) t.timer_id at w.db)) [
        | inl (db', e) ↦
            rw e (one (update_timer_fire_time-Change (env.db_fault 4) t.timer_id at w.db e))
        | inr (x, e) ↦ rw e same
      ]

  extend_deadline-Evolves :
      (exec : WorkflowExecution) (id : String) (act : ActivityState) (now : ℤ) (w : World)
      → Evolves w (extend_deadline env exec id act now w)
  unfolding extend_deadline
  extend_deadline-Evolves exec id act now w = extended-Evolves _ _ w

  world-then-pure :
      {A : Type 0} (r : Result Status (Unit {0}) × World) (a : A)
      → (continue r (λ _. pure a)).1 ≡ r.1
  world-then-pure (ok _, w) a = refl
  world-then-pure (err _, w) a = refl

  heartbeat-Evolves :
      (exec : WorkflowExecution) (id : String) (w : World)
      → Current exec w.db
      → Evolves w (heartbeat env exec id w)
  unfolding heartbeat
  heartbeat-Evolves exec id w current =
      load_activity-cases env (Evolves w) w exec _ id (λ s. same)
        λ act _.
          write-cases (Evolves w) _ w "update heartbeat"
            (update_workflow_execution (env.db_fault 2) env.db_clock exec exec.current_version []
              (record act { last_heartbeat = some (env.time 0) } ∷ []) [])
            (λ s. same)
            λ db' at.
              rw
                (world-then-pure
                  (extend_deadline env exec id (record act { last_heartbeat = some (env.time 0) })
                    (env.time 0) (record w { db = db' }))
                  false)
                (Changes-trans
                  (one (
                    Updated-Change exec current refl refl (λ h. h)
                      (update-Updated env.db_clock exec exec.current_version [] _ [] w.db
                        (env.db_fault 2) at)))
                  (extend_deadline-Evolves exec id _ (env.time 0) (record w { db = db' })))

  pub answer_heartbeat-Evolves :
      (exec : WorkflowExecution) (id : String) (w : World)
      → Current exec w.db
      → Evolves w (answer_heartbeat env id exec w)
  unfolding answer_heartbeat
  answer_heartbeat-Evolves exec id w current = elim (Bool-cases (is_running exec.status)) [
    | inl is_open ↦ rw is_open (heartbeat-Evolves exec id w current)
    | inr closed ↦ rw closed same
  ]
