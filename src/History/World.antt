-- ===== src/History/World.antt =====
-- What a request of the history service reads and changes, and the actions its handlers are made
-- of. The service keeps no state of its own: it works on PostgreSQL, on the timers in Redis, and,
-- over gRPC, on the queues of the matching service.
use mini_workflow.Prelude.{ℕ, String, Bool, true, false, [], ◌∷◌, concat}
use mini_workflow.Prelude.Int.{ℤ}
use mini_workflow.Result.{Result, ok, err}
use mini_workflow.Api.{Status, Code, internal, AddWorkflowTaskRequest, AddActivityTaskRequest}
use mini_workflow.Matching.TaskQueue.{Queues}
use mini_workflow.Matching.Service
use mini_workflow.History.Models.{Uuid}
use mini_workflow.History.Postgres.{Database, Fault}
use mini_workflow.History.TimerStore.{TimerStore}
use mini_workflow.History.TimerStore

pub record World : Type 0 where
  pub db : Database
  pub timer_store : TimerStore
  pub queues : Queues

-- What the surroundings answer to one request, in the order in which it asks.
pub record Env : Type 0 where
  -- `time.Now()` and `uuid.New()`
  pub time : ℕ → ℤ
  pub uuid : ℕ → Uuid
  -- the server's clock, and the failures of its calls
  pub db_clock : ℤ
  pub db_fault : ℕ → Fault
  -- the failures of the commands that each call of the timer store sends
  pub redis_fault : ℕ → ℕ → Fault
  -- the gRPC calls that do not arrive, and the failures of Redis behind those that do
  pub is_lost : ℕ → Bool
  pub queue_fault : ℕ → Fault

-- What was written before an error stays written.
abbrev pub Exec : Type 0 → Type 0
Exec A = World → Result Status A × World

abbrev pub continue :
    {A B : Type 0} → Result Status A × World → (A → Exec B) → Result Status B × World
continue (ok a, w) f = f a w
continue (err e, w) f = (err e, w)

infixl 5 ◌>>=◌ ◌>>◌
abbrev pub ◌>>=◌ : {A B : Type 0} → Exec A → (A → Exec B) → Exec B
◌>>=◌ m f w = continue (m w) f

abbrev pub ◌>>◌ : {B : Type 0} → Exec (Unit {0}) → Exec B → Exec B
m >> k = m >>= λ _. k

abbrev pub pure : {A : Type 0} → A → Exec A
pure a w = (ok a, w)

abbrev pub lift : {A : Type 0} → Result Status A → Exec A
lift r w = (r, w)

abbrev pub refuse : {A : Type 0} → Code → String → Exec A
refuse c m w = (err (record { code = c; message = m }), w)

-- `status.Errorf(c, "what: %v", err)`
abbrev pub relabel : {A : Type 0} → Code → String → Result String A → Result Status A
relabel c what (ok a) = ok a
relabel c what (err e) = err (record { code = c; message = concat (what ∷ ": " ∷ e ∷ []) })

-- `status.Error(c, err.Error())`
abbrev pub with_code : {A : Type 0} → Code → Result String A → Result Status A
with_code c (ok a) = ok a
with_code c (err e) = err (record { code = c; message = e })

abbrev pub query : {A : Type 0} → Code → String → (Database → Result String A) → Exec A
query c what q w = (relabel c what (q w.db), w)

abbrev pub written : World → Result Status Database → Result Status (Unit {0}) × World
written w (ok db) = (ok tt, record w { db = db })
written w (err e) = (err e, w)

abbrev pub write : String → (Database → Result String Database) → Exec (Unit {0})
write what q w = written w (relabel internal what (q w.db))

-- The three calls below are made for their effect: an error is logged and passed over.
module _ (env : Env) where
  unfoldable pub schedule_timer : ℕ → String → ℤ → Exec (Unit {0})
  schedule_timer k timer_id fire_time_ms w =
      let (_, s) =
        TimerStore.schedule_timer (env.redis_fault k) timer_id fire_time_ms w.timer_store in
      (ok tt, record w { timer_store = s })

  abbrev arrives : Bool → World → Queues → World
  arrives true w q = w
  arrives false w q = record w { queues = q }

  unfoldable pub add_workflow_task : ℕ → AddWorkflowTaskRequest → Exec (Unit {0})
  add_workflow_task k req w =
      let (_, q) = Service.add_workflow_task (env.queue_fault k) req w.queues in
      (ok tt, arrives (env.is_lost k) w q)

  unfoldable pub add_activity_task : ℕ → AddActivityTaskRequest → Exec (Unit {0})
  add_activity_task k req w =
      let (_, q) = Service.add_activity_task (env.queue_fault k) req w.queues in
      (ok tt, arrives (env.is_lost k) w q)
