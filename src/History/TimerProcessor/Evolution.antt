-- ===== src/History/TimerProcessor/Evolution.antt =====
-- history/internal/service/timer_processor.go against the specification `Changes`: what a timer does
-- when it fires.
use mini_workflow.Prelude.{
  ℕ, String, ◌≡◌, refl, sym, ap, subst, ◌∙◌, Bool, true, false, Option, none, some, [], ◌∷◌, arith,
  Bool-cases, inl, inr, if◌then◌else◌,
}
use mini_workflow.Prelude.Int.{inc64, to_bits}
use mini_workflow.Api.{Status, internal, AddWorkflowTaskRequest}
use mini_workflow.Result.{Result, ok, err}
use mini_workflow.Matching.Service.{is_blank}
use mini_workflow.History.Models.{
  Uuid, WorkflowExecution, WorkflowStatus, ActivityState, Timer, TimerType, timed_out, user,
  workflow_timeout, activity_timeout, workflow_task_timeout,
}
use mini_workflow.History.Backend.{Backend}
use mini_workflow.History.Postgres.{
  Database, find_execution, get_workflow_execution, get_activity_state, update_workflow_execution,
  is_running,
}
use mini_workflow.History.Postgres.Find.{find_execution-key}
use mini_workflow.History.Postgres.Timers.{mark_timer_fired, get_timer_by_id}
use mini_workflow.History.Postgres.TimerRows.{AllKept, alter_timer-AllKept}
use mini_workflow.History.Postgres.Update.{update-Updated}
use mini_workflow.History.Changes.{Change, Changes-trans, same, one, retimed}
use mini_workflow.History.World.{
  World, Env, Exec, ◌>>=◌, continue, pure, query, add_workflow_task, schedule_timer,
  add_activity_task,
}
use mini_workflow.History.Service.Rules.{
  query-cases, write-cases, Result-cases, get_workflow_execution-ok,
}
use mini_workflow.History.Service.Evolution.{
  Evolves, Current, found-Current, Updated-Change, add_workflow_task-db,
}
use mini_workflow.History.TimerProcessor.{
  dispatch, fire, process_execution_timer, record_timer, new_status, handle_activity_timeout,
  judge_activity, handle_workflow_task_timeout, decode_activity_timer_token, decode_event_id,
  timer_event, ActivityTimerToken, has_progressed, wake_for,
}

abbrev pub Closes : Option WorkflowStatus → Type 0
Closes none = Unit
Closes (some s) = is_running s ≡ false

ok-inj : {d e : Database} → ◌≡◌ {A = Result String Database} (ok d) (ok e) → d ≡ e
ok-inj h = cc h

module _ ⦃b : Backend⦄ (env : Env) where
  pub mark_timer_fired-Change :
      (fault : Option String) (id : ℕ) (db : Database) {db' : Database}
      → mark_timer_fired fault id db ≡ ok db'
      → Change db db'
  unfolding mark_timer_fired
  mark_timer_fired-Change none id db {db'} h =
      retimed (ground arith) (ground arith) (ground arith) (
        subst (λ (d : Database). AllKept db.timers d.timers) (ok-inj h)
          (alter_timer-AllKept id (λ t. record t { is_fired = true })
            (λ t. record {
              timer_id = refl;
              key = refl;
              timer_type = refl;
              task_token = refl;
              is_fired = λ f. refl;
            })
            db.timers))
  mark_timer_fired-Change (some e) id db h = cc

  pub continue-db :
      {A B : Type 0} (r : Result Status A × World) (f : A → Exec B)
      → ((a : A) (w : World) → (f a w).1.db ≡ w.db)
      → (continue r f).1.db ≡ r.1.db
  continue-db (ok a, w) f quiet = quiet a w
  continue-db (err s, w) f quiet = refl

  module _ (t : Timer) (exec : WorkflowExecution) (w : World) (own : exec.key ≡ t.key)
      (current : Current exec w.db) where
    next_event :
        (kind : String) (status : Option WorkflowStatus)
        → Closes status
        → {db' : Database}
        → update_workflow_execution
            (env.db_fault 3)
            env.db_clock
            (new_status env status (record exec { next_event_id = inc64 exec.next_event_id }))
            exec.current_version
            (timer_event env t exec.next_event_id kind ∷ [])
            []
            []
            w.db
          ≡ ok db'
        → Change w.db db'
    next_event kind none closes h =
        Updated-Change exec current refl (sym own, refl, refl) (λ h. h)
          (update-Updated env.db_clock _ _ _ _ _ w.db (env.db_fault 3) h)
    next_event kind (some s) closes h =
        Updated-Change exec current refl (sym own, refl, refl) (λ h. cc)
          (update-Updated env.db_clock _ _ _ _ _ w.db (env.db_fault 3) h)

    -- What a timer records of the run that it has read, whatever has been done since.
    pub record_timer-Evolves :
        (kind : String) (status : Option WorkflowStatus)
        → Closes status
        → Evolves w (record_timer env t kind status exec w)
    unfolding record_timer
    record_timer-Evolves kind status closes =
        write-cases (Evolves w) _ w ""
          (update_workflow_execution (env.db_fault 3) env.db_clock
            (new_status env status (record exec { next_event_id = inc64 exec.next_event_id }))
            exec.current_version (timer_event env t exec.next_event_id kind ∷ []) [] [])
          (λ s. same) λ db' h. one (next_event kind status closes h)

  pub process_execution_timer-Evolves :
      (t : Timer) (w : World) (kind : String) (status : Option WorkflowStatus)
      → Closes status
      → Evolves w (process_execution_timer env t kind status w)
  unfolding process_execution_timer
  process_execution_timer-Evolves t w kind status closes =
      query-cases (Evolves w) _ w internal "" (get_workflow_execution (env.db_fault 2) t.key)
        (λ s. same)
        λ exec h.
          let at = get_workflow_execution-ok (env.db_fault 2) t.key w.db h in
          let own = find_execution-key t.key w.db.executions exec at in
          record_timer-Evolves t exec w own
            (found-Current exec w.db (ap (λ k. find_execution k w.db.executions) own ∙ at)) kind
            status closes

  judge_activity-db :
      (t : Timer) (tok : ActivityTimerToken) (act : ActivityState) (w : World)
      → (judge_activity env t tok act w).1.db ≡ w.db
  unfolding judge_activity schedule_timer add_activity_task
  judge_activity-db t tok act w = ground arith

  query-db :
      {A B : Type 0} (q : Database → Result String A) (f : A → Exec B) (w : World)
      → ((a : A) → (f a w).1.db ≡ w.db)
      → ((query internal "" q >>= f) w).1.db ≡ w.db
  query-db q f w quiet =
      query-cases (λ r. r.1.db ≡ w.db) f w internal "" q (λ s. refl) (λ a _. quiet a)

  pub handle_activity_timeout-db :
      (t : Timer) (w : World) → (handle_activity_timeout env t w).1.db ≡ w.db
  unfolding handle_activity_timeout
  handle_activity_timeout-db t w = elim (Result-cases (decode_activity_timer_token t.task_token)) [
    | inr (x, e) ↦ rw e
    | inl (tok, e) ↦ rw e (elim (Bool-cases (is_blank tok.activity_id)) [
      | inl blank ↦ rw blank
      | inr named ↦ rw named (
          query-db (get_activity_state (env.db_fault 2) t.key tok.activity_id)
            (judge_activity env t tok) w (λ act. judge_activity-db t tok act w))
    ])
  ]

  requeue_db :
      (c : Bool) (r : AddWorkflowTaskRequest) (w : World)
      → ((if c then pure tt else add_workflow_task env 0 r) w).1.db ≡ w.db
  requeue_db true r w = refl
  requeue_db false r w = add_workflow_task-db env 0 w r

  pub handle_workflow_task_timeout-db :
      (t : Timer) (w : World) → (handle_workflow_task_timeout env t w).1.db ≡ w.db
  unfolding handle_workflow_task_timeout
  handle_workflow_task_timeout-db t w = elim (Result-cases (decode_event_id t.task_token)) [
    | inr (x, e) ↦ rw e
    | inl (n, e) ↦ rw e (
        query-db (get_workflow_execution (env.db_fault 2) t.key) _ w
          (λ exec. requeue_db (has_progressed env exec (to_bits n)) (wake_for env t exec) w))
  ]

  pub fire-Evolves : (t : Timer) (w : World) → Evolves w (fire env t w)
  unfolding fire process_execution_timer
  fire-Evolves t w = fired t.timer_type refl
    where
      fired : (kind : TimerType) → t.timer_type ≡ kind → Evolves w (fire env t w)
      fired user e = rw e (
          rw
            (continue-db (process_execution_timer env t "TimerFired" none w)
              (λ exec. add_workflow_task env 0 (wake_for env t exec))
              (λ exec w'. add_workflow_task-db env 0 w' _))
            (process_execution_timer-Evolves t w "TimerFired" none tt))
      fired workflow_timeout e = rw e (
          rw
            (continue-db
              (process_execution_timer env t "WorkflowExecutionTimedOut" (some timed_out) w)
              (λ exec. pure tt) (λ exec w'. refl))
            (process_execution_timer-Evolves t w "WorkflowExecutionTimedOut" (some timed_out) refl))
      fired activity_timeout e = rw e (rw handle_activity_timeout-db same)
      fired workflow_task_timeout e = rw e (rw handle_workflow_task_timeout-db same)

  -- Whatever timer fires, and whatever fails on the way.
  pub dispatch-Evolves : (id : Uuid) (w : World) → Evolves w (dispatch env id w)
  unfolding dispatch
  dispatch-Evolves id w =
      query-cases (Evolves w) _ w internal "" (get_timer_by_id (env.db_fault 0) id) (λ s. same)
        λ t _.
          write-cases (Evolves w) (fire env t) w "" (mark_timer_fired (env.db_fault 1) id)
            (λ s. same)
            λ db' h.
              Changes-trans (one (mark_timer_fired-Change (env.db_fault 1) id w.db h))
                (fire-Evolves t (record w { db = db' }))
