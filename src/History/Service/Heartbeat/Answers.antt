-- ===== src/History/Service/Heartbeat/Answers.antt =====
-- RecordActivityTaskHeartbeat of history/internal/service, when it succeeds.
use mini_workflow.Prelude.{
  ◌≡◌, refl, ap, ◌∙◌, String, Bool, true, false, not, Option, none, some, [], ◌∷◌, arith, eq_refl,
  Bool-cases, Option-cases, inl, inr,
}
use mathlib.Core.List.{append-nil}
use mini_workflow.Prelude.Int.{ℤ, seconds, ◌+ℤ◌}
use mini_workflow.Result.{Result, ok, err}
use mini_workflow.Codec.{is_empty}
use mini_workflow.Api.{Status, RecordActivityTaskHeartbeatRequest, not_found}
use mini_workflow.History.Models.{Uuid, WorkflowExecution, ActivityState, Timer}
use mini_workflow.History.Backend.{Backend}
use mini_workflow.History.Postgres.{
  Database, find_execution, find_activity, is_running, get_workflow_execution,
  update_workflow_execution,
}
use mini_workflow.History.Postgres.Timers.{get_activity_timeout_timer, update_timer_fire_time}
use mini_workflow.History.Postgres.Find.{same_run_refl, find_activity-upsert, find_activity-key}
use mini_workflow.History.Postgres.Update.{Updated, update-Updated}
use mini_workflow.History.TimerStore.{TimerStore}
use mini_workflow.History.World.{World, Env, ◌>>◌, pure, schedule_timer}
use mini_workflow.History.Service.Load.{default_run, run_id_from_string}
use mini_workflow.History.Service.Heartbeat.Deadline.{put_off, with_deadline, put_off-with_deadline}
use mini_workflow.History.Service.Heartbeat.{
  TaskToken, decode_task_token, or_thirty, record_activity_task_heartbeat, answer_heartbeat,
  heartbeat, extend_deadline, extended,
}
use mini_workflow.History.Service.Effects.{Effect, Updated-Effect}
use mini_workflow.History.Service.Rules.{
  Result-cases, query-cases, write-cases, load_activity-cases, get_workflow_execution-ok,
}

module _ ⦃b : Backend⦄ (env : Env) where
  -- The heartbeat of an activity of an open run: the database after it.
  pub record Beaten (exec : WorkflowExecution) (id : String) (db db' : Database) : Type 0 where
    pub act : ActivityState
    pub found : find_activity exec.key id db.activities ≡ some act
    pub beat :
        find_activity exec.key id db'.activities
        ≡ some (record act { last_heartbeat = some (env.time 0) })
    pub effect : Effect [] exec.status exec db db'
    pub timers :
        db'.timers
        ≡ with_deadline
            (env.db_fault 3)
            (env.db_fault 4)
            exec.key
            id
            (env.time 0 +ℤ seconds (or_thirty act.heartbeat_timeout_seconds))
            db.timers

  extended_lem :
      (at : ℤ) (found : Result String (Option Timer)) (w : World)
      → (s : TimerStore) × (extended env at found w ≡ (
        ok tt,
        record w {
          db = record w.db { timers = put_off found (env.db_fault 4) at w.db.timers };
          timer_store = s;
        },
      ))
  unfolding schedule_timer update_timer_fire_time
  extended_lem at (err e) w = (w.timer_store, refl)
  extended_lem at (ok none) w = (w.timer_store, refl)
  extended_lem at (ok (some t)) w = elim (Option-cases (env.db_fault 4)) [
    | inl up ↦ rw up (_, refl)
    | inr (e, down) ↦ rw down (w.timer_store, refl)
  ]

  module _ (exec : WorkflowExecution) (id : String) (w : World) where
    -- What a heartbeat leaves, by its answer.
    abbrev pub Answered : Bool → World → Type 0
    Answered cancel w' =
        (cancel ≡ not (is_running exec.status))
        × (is_running exec.status ≡ false → w' ≡ w)
        × (is_running exec.status ≡ true → Beaten exec id w.db w'.db × (w'.queues ≡ w.queues))

    abbrev Beats : Result Status Bool × World → Type 0
    Beats r =
        (c : Bool) → r.0 ≡ ok c → (c ≡ false) × Beaten exec id w.db r.1.db × (r.1.queues ≡ w.queues)

    written :
        (act : ActivityState) {db' : Database}
        → find_activity exec.key id w.db.activities ≡ some act
        → Updated env.db_clock exec exec.current_version []
            (record act { last_heartbeat = some (env.time 0) } ∷ [])
            []
            w.db
            db'
        → Beats (
            (extend_deadline env exec id
                  (record act { last_heartbeat = some (env.time 0) })
                  (env.time 0)
                >> pure false)
              (record w { db = db' }))
    unfolding extend_deadline get_activity_timeout_timer
    written act {db'} found u =
        let same : db'.timers ≡ w.db.timers = u.timers ∙ append-nil w.db.timers in
        let (s, e) =
          extended_lem (env.time 0 +ℤ seconds (or_thirty act.heartbeat_timeout_seconds))
            (get_activity_timeout_timer (env.db_fault 3) exec.key id db') (record w { db = db' }) in
        let effect = Updated-Effect exec refl u in
        let (own_key, own_id) = find_activity-key exec.key id w.db.activities act found in
        rw e λ c h. (
          cc h,
          record {
            act = act;
            found = found;
            beat = ground (
              arith,
              u.activities,
              own_key,
              own_id,
              find_activity-upsert (record act { last_heartbeat = some (env.time 0) }) exec.key id
                  w.db.activities,
              same_run_refl exec.key,
              eq_refl id,
            );
            effect = record {
              more = effect.more;
              log = effect.log;
              kinds_of = effect.kinds_of;
              now = effect.now;
              found = effect.found;
              status = effect.status;
              version = effect.version;
            };
            timers =
                ap
                  (λ rows.
                    put_off
                      (get_activity_timeout_timer (env.db_fault 3) exec.key id
                        (record w.db { timers = rows }))
                      (env.db_fault 4)
                      (env.time 0 +ℤ seconds (or_thirty act.heartbeat_timeout_seconds)) rows)
                  same
                ∙ put_off-with_deadline (env.db_fault 3) (env.db_fault 4) exec.key id
                    (env.time 0 +ℤ seconds (or_thirty act.heartbeat_timeout_seconds)) w.db;
          },
          refl,
        )

    heartbeat-Beats : Beats (heartbeat env exec id w)
    unfolding heartbeat
    heartbeat-Beats =
        load_activity-cases env Beats w exec _ id (λ s c h. cc)
          λ act found.
            write-cases Beats _ w "update heartbeat"
              (update_workflow_execution (env.db_fault 2) env.db_clock exec exec.current_version []
                (record act { last_heartbeat = some (env.time 0) } ∷ []) [])
              (λ s c h. cc)
              λ db' at. written act found (
                update-Updated env.db_clock exec exec.current_version [] _ [] w.db (env.db_fault 2)
                  at)

    abbrev Answers : Result Status Bool × World → Type 0
    Answers r = (c : Bool) → r.0 ≡ ok c → Answered c r.1

    answer_heartbeat-Answers : Answers (answer_heartbeat env id exec w)
    unfolding answer_heartbeat
    answer_heartbeat-Answers = elim (Bool-cases (is_running exec.status)) [
      | inl is_open ↦ rw is_open λ c h.
          let (going_on, beaten, queues) = heartbeat-Beats c h in
          (going_on, (λ closed. cc), (λ _. (beaten, queues)))
      | inr closed ↦ rw closed λ c h. (cc h, (λ _. refl), (λ is_open. cc))
    ]

  -- A heartbeat that succeeds has a token that names a run; the worker is told to cancel exactly
  -- when that run is closed, and then nothing has changed. If the run is open, the activity of the
  -- token was there and has been heard now, no event is added, the run has the next version and keeps
  -- its status, and the queues are as they were. Of the timers of the run that await an activity,
  -- have not fired and have a token like the id of the activity, the earliest, if the read and the
  -- write of it succeed, is set to the end of the time-out from now, with 30 seconds for a time-out
  -- that is not positive; the other timers are as they were.
  pub record_activity_task_heartbeat-ok :
      (req : RecordActivityTaskHeartbeatRequest) (w : World) (cancel : Bool)
      → (record_activity_task_heartbeat env req w).0 ≡ ok cancel
      → (token : TaskToken) × (u : Uuid) × (exec : WorkflowExecution) × (decode_task_token
            req.task_token
          ≡ ok token)
        × (run_id_from_string token.run_id ≡ ok u)
        × (find_execution (default_run token.workflow_id u) w.db.executions ≡ some exec)
        × Answered exec token.activity_id w cancel (record_activity_task_heartbeat env req w).1
  unfolding record_activity_task_heartbeat
  record_activity_task_heartbeat-ok req w cancel = elim (Bool-cases (is_empty req.task_token)) [
    | inl missing ↦ rw missing (λ h. cc)
    | inr given ↦ rw given (elim (Result-cases (decode_task_token req.task_token)) [
      | inr (x, e) ↦ rw e (λ h. cc)
      | inl (token, e) ↦ rw e (elim (Result-cases (run_id_from_string token.run_id)) [
        | inr (x, e') ↦ rw e' (λ h. cc)
        | inl (u, e') ↦ rw e' (
            query-cases
              (λ r.
                r.0 ≡ ok cancel
                → (tok : TaskToken) × (v : Uuid) × (exec : WorkflowExecution) × (◌≡◌
                    {A = Result String TaskToken} (ok token) (ok tok))
                  × (run_id_from_string tok.run_id ≡ ok v)
                  × (find_execution (default_run tok.workflow_id v) w.db.executions ≡ some exec)
                  × Answered exec tok.activity_id w cancel r.1)
              (answer_heartbeat env token.activity_id) w not_found "workflow execution not found"
              (get_workflow_execution (env.db_fault 0) (default_run token.workflow_id u))
              (λ s h. cc)
              λ exec at h. (
                token,
                u,
                exec,
                refl,
                e',
                get_workflow_execution-ok (env.db_fault 0) (default_run token.workflow_id u) w.db
                    at,
                answer_heartbeat-Answers exec token.activity_id w cancel h,
              ))
      ])
    ])
  ]
