-- ===== src/History/System.antt =====
-- The history service as a whole: requests that overlap, the timer processor, and what others do to
-- the timers in Redis and to the queues.
use mini_workflow.Prelude.{
  Bool, true, false, ◌&&◌, ◌⊎◌, inl, inr, ◌≤◌, ◌≡◌, refl, subst, some, List, [], ◌∷◌, ◌++◌, length,
  All, arith,
}
use mini_workflow.Result.{Result, ok, err}
use mini_workflow.Api.{Status, RecordWorkflowExecutionStartedRequest}
use mini_workflow.Matching.TaskQueue.{Queues}
use mini_workflow.History.TimerStore.{TimerStore}
use mini_workflow.History.Models.{Uuid, RunKey, WorkflowExecution, HistoryEvent, Timer}
use mini_workflow.History.Backend.{Backend}
use mini_workflow.History.Postgres.{Database, find_execution}
use mini_workflow.History.Postgres.Timers.{mark_timer_fired}
use mini_workflow.History.Postgres.Log.{IsGapless}
use mini_workflow.History.Changes.{
  Changes, ChangesIf, Changes-if, Changes-trans, Changes-IsGapless, max_events, same, one,
}
use mini_workflow.History.Changes.OneOpen.{IsSingle, Changes-IsSingle}
use mini_workflow.History.Changes.Growth.{Later, Changes-Later, Changes-events}
use mini_workflow.History.Postgres.TimerRows.{AllKept}
use mini_workflow.History.Changes.Timers.{Changes-AllKept}
use mini_workflow.History.World.{World, Env, Exec}
use mini_workflow.History.TimerProcessor.Evolution.{mark_timer_fired-Change}
use mini_workflow.History.TimerProcessor.Rounds.{run_round-Evolves}
use mini_workflow.History.Service.Evolution.Start.{record_workflow_execution_started-Evolves}
use mini_workflow.History.TimerProcessor.Loop.{Round, run_round}
use mini_workflow.History.Handler.{
  Request, Reply, handle, workflow_execution_started, workflow_task_started,
  workflow_task_completed, workflow_task_failed, activity_task_started, activity_task_completed,
  activity_task_failed, activity_task_heartbeat, workflow_execution_signaled,
  workflow_execution_queried, history_read,
}
use mini_workflow.History.Overlap.{begin, begin_timer, is_start}
use mini_workflow.History.Overlap.Whole.{begin-handle}
use mini_workflow.History.Overlap.Rests.{IsSafe, Begun, at_once, replied-world}
use mini_workflow.History.Overlap.Requests.{begin-Begun}
use mini_workflow.History.Overlap.Timers.{begin_timer-Begun}

-- The handlers that have read their run wait in `pending`.
pub record System : Type 0 where
  pub world : World
  pub pending : List (Exec Reply)

abbrev pub at_rest : World → System
at_rest w = record { world = w; pending = [] }

start_cases :
    (req : Request)
    → ((r : RecordWorkflowExecutionStartedRequest) × (req ≡ workflow_execution_started r))
      ⊎ (is_start req ≡ false)
start_cases (workflow_execution_started r) = inl (r, refl)
start_cases (workflow_task_started r) = inr refl
start_cases (workflow_task_completed r) = inr refl
start_cases (workflow_task_failed r) = inr refl
start_cases (activity_task_started r) = inr refl
start_cases (activity_task_completed r) = inr refl
start_cases (activity_task_failed r) = inr refl
start_cases (activity_task_heartbeat r) = inr refl
start_cases (workflow_execution_signaled r) = inr refl
start_cases (workflow_execution_queried r) = inr refl
start_cases (history_read r) = inr refl

module _ ⦃b : Backend⦄ where
  -- Where starts are apart, no other step comes between the look of a start for a running workflow
  -- and the rest of it.
  pub data Step (apart : Bool) (s : System) : System → Type 0 where
    -- a request that nothing interrupts
    handled :
        (env : Env) (req : Request) → Step apart s (record s { world = (handle env req s.world).1 })
    -- a request, or a timer, up to the read of its run, and the rest of one of those that wait
    begun :
        (env : Env) (req : Request) (rest : Exec Reply)
        → (apart && is_start req) ≡ false
        → (begin env req s.world).0 ≡ ok rest
        → Step apart s (record { world = (begin env req s.world).1; pending = rest ∷ s.pending })
    timer_begun :
        (env : Env) (t : Timer) (rest : Exec Reply)
        → (begin_timer env t s.world).0 ≡ ok rest
        → Step apart s
            (record { world = (begin_timer env t s.world).1; pending = rest ∷ s.pending })
    resumed :
        (before later : List (Exec Reply)) (rest : Exec Reply)
        → s.pending ≡ before ++ rest ∷ later
        → Step apart s (record { world = (rest s.world).1; pending = before ++ later })
    -- the mark on a timer before it fires
    timer_marked :
        (env : Env) (id : Uuid) (db : Database)
        → mark_timer_fired (env.db_fault 1) id s.world.db ≡ ok db
        → Step apart s (record s { world = record s.world { db = db } })
    -- a round of the timer processor that nothing interrupts
    timers_processed : (round : Round) → Step apart s (record s { world = run_round round s.world })
    -- the work of another service, or of a part of a handler, on the timers in Redis and the queues
    elsewhere :
        (store : TimerStore) (q : Queues)
        → Step apart s (record s { world = record s.world { timer_store = store; queues = q } })

  pub data Steps (apart : Bool) (s : System) : System → Type 0 where
    none_yet : Steps apart s s
    then_step : {m z : System} → Steps apart s m → Step apart m z → Steps apart s z

  handle-Changes : (env : Env) (req : Request) (w : World) → Changes w.db (handle env req w).1.db
  unfolding handle
  handle-Changes env req w = elim (start_cases req) [
    | inl (r, e) ↦ rw e (rw replied-world (record_workflow_execution_started-Evolves env w r))
    | inr other ↦ rw (← begin-handle env req w) (at_once w _ (begin-Begun env true req w other))
  ]

  module _ (apart : Bool) where
    -- What has been proved of a system after a step.
    abbrev Keeps : System → System → Type 0
    Keeps s z =
        All (IsSafe apart s.world.db) s.pending
        → ChangesIf apart s.world.db z.world.db × All (IsSafe apart z.world.db) z.pending

    All-IsSafe :
        {db db' : Database} (ps : List (Exec Reply))
        → ChangesIf apart db db'
        → All (IsSafe apart db) ps
        → All (IsSafe apart db') ps
    All-IsSafe [] c h = tt
    All-IsSafe (p ∷ ps) c (safe, h) = ((λ w d. safe w (Changes-trans c d)), All-IsSafe ps c h)

    All-middle :
        {db : Database} (ps : List (Exec Reply)) (p : Exec Reply) (qs : List (Exec Reply))
        → All (IsSafe apart db) (ps ++ p ∷ qs)
        → IsSafe apart db p × All (IsSafe apart db) (ps ++ qs)
    All-middle [] p qs (safe, h) = (safe, h)
    All-middle (r ∷ ps) p qs (own, h) =
        let (safe, rest) = All-middle ps p qs h in (safe, (own, rest))

    ok-eq : {p q : Exec Reply} → ◌≡◌ {A = Result Status (Exec Reply)} (ok p) (ok q) → p ≡ q
    ok-eq e = cc e

    Begun-Keeps :
        (s : System) (rest : Exec Reply) (r : Result Status (Exec Reply) × World)
        → Begun apart s.world r
        → r.0 ≡ ok rest
        → Keeps s (record { world = r.1; pending = rest ∷ s.pending })
    Begun-Keeps s rest (ok other, w) (c, safe) e h =
        (c, (subst (IsSafe apart w.db) (ok-eq e) safe, All-IsSafe s.pending c h))
    Begun-Keeps s rest (err x, w) c e h = cc

    Step-Keeps : {s z : System} → Step apart s z → Keeps s z
    Step-Keeps {s} (handled env req) h =
        let c = Changes-if (handle-Changes env req s.world) in (c, All-IsSafe s.pending c h)
    Step-Keeps {s} (begun env req rest free e) h =
        Begun-Keeps s rest _ (begin-Begun env apart req s.world free) e h
    Step-Keeps {s} (timer_begun env t rest e) h =
        Begun-Keeps s rest _ (begin_timer-Begun env apart t s.world) e h
    Step-Keeps {s} (resumed before later rest e) h =
        let (safe, others) = All-middle before rest later (rw e at h) in
        let c = safe s.world same in (c, All-IsSafe (before ++ later) c others)
    Step-Keeps {s} (timer_marked env id db e) h =
        let c = Changes-if (one (mark_timer_fired-Change env (env.db_fault 1) id s.world.db e)) in
        (c, All-IsSafe s.pending c h)
    Step-Keeps {s} (timers_processed round) h =
        let c = Changes-if (run_round-Evolves round s.world) in (c, All-IsSafe s.pending c h)
    Step-Keeps (elsewhere store q) h = (same, h)

    Steps-Keeps : {s z : System} → Steps apart s z → Keeps s z
    Steps-Keeps none_yet h = (same, h)
    Steps-Keeps (then_step rest s) h =
        let (c, there) = Steps-Keeps rest h in
        let (d, here) = Step-Keeps s there in (Changes-trans c d, here)

    Steps-Changes :
        {w : World} {s : System} → Steps apart (at_rest w) s → ChangesIf apart w.db s.world.db
    Steps-Changes steps = (Steps-Keeps steps tt).0

  -- Whatever requests the service handles and whatever timers fire, in any order, overlapping
  -- between the read of their run, or the look of a start for one, and the rest, and with any
  -- failures of the database, of Redis and of the network, the log of every run holds the numbers
  -- 1, 2, … without a gap, in the order of the log, the run's next number is the one that follows,
  -- and no event belongs to a run that is not there: it holds of the last world if it does of the
  -- first, as long as the table has at most 2^63 - 2 events.
  pub Steps-IsGapless :
      {apart : Bool} {w : World} {s : System}
      → Steps apart (at_rest w) s
      → length s.world.db.events ≤ max_events
      → IsGapless w.db
      → IsGapless s.world.db
  Steps-IsGapless steps = Changes-IsGapless (Steps-Changes _ steps)

  -- Of no workflow are two runs open at once, if no step comes between the look of a start for a
  -- running workflow and the rest of it: whatever else is requested, however that overlaps, and
  -- whatever fails, it holds of the last world if it does of the first.
  pub Steps-IsSingle :
      {w : World} {s : System} → Steps true (at_rest w) s → IsSingle w.db → IsSingle s.world.db
  Steps-IsSingle steps = Changes-IsSingle (Steps-Changes _ steps)

  -- Through any steps, overlapping likewise, a timer that the database has stays there, with the same
  -- run, kind and token, and once it is marked as fired the mark stays; and no two timers have one
  -- id, if none had before.
  pub Steps-AllKept :
      {apart : Bool} {w : World} {s : System}
      → Steps apart (at_rest w) s
      → AllKept w.db.timers s.world.db.timers
  Steps-AllKept steps = Changes-AllKept (Steps-Changes _ steps)

  -- Through any steps, overlapping likewise, the log is only added to, at its end; and a run that is
  -- there is there ever after, with a version that does not go down; while that is the same the run
  -- is as it was, and if it was closed it is closed still.
  pub Steps-Later :
      {apart : Bool} {w : World} {s : System} (k : RunKey) (row : WorkflowExecution)
      → Steps apart (at_rest w) s
      → find_execution k w.db.executions ≡ some row
      → ((more : List HistoryEvent) × (s.world.db.events ≡ w.db.events ++ more))
        × Later k row s.world.db
  Steps-Later k row steps found = (
    Changes-events (Steps-Changes _ steps),
    Changes-Later k row (Steps-Changes _ steps) (record {
      now = row;
      found = found;
      version = omega arith;
      unchanged = λ h. refl;
      closed = λ h. h;
    }),
  )
