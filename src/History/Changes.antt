-- ===== src/History/Changes.antt =====
-- What one transaction, and a sequence of them, can do to the database: the specification that the
-- handlers and the timer processor implement.
pub mod OneOpen
pub mod Growth
pub mod Timers
use mini_workflow.Prelude.{
  Bool, ℕ, zero, suc, ◌+◌, ◌≤◌, ◌≡◌, refl, ap, List, [], ◌∷◌, map, arith, length, true, none,
  length-append, some,
}
use mini_workflow.Prelude.Int.{ℤ}
use mini_workflow.History.Models.{RunKey, WorkflowExecution, HistoryEvent, ActivityState, Timer}
use mini_workflow.History.Postgres.{Database, find_execution, first_running, is_running}
use mini_workflow.History.Postgres.Update.{stamp, Updated}
use mini_workflow.History.Postgres.Log.{Numbered, IsGapless, Updated-IsGapless, ids_of, ids_from}
use mini_workflow.History.Postgres.TimerRows.{AllKept}
use mini_workflow.History.Postgres.Create.{Created, Created-IsGapless}

-- One transaction. Where starts are apart, a run is created only if none of its workflow is open.
pub data ChangeIf (apart : Bool) (db db' : Database) : Type 0 where
  created :
      (now : ℤ) (exec : WorkflowExecution) (e : HistoryEvent)
      → Created now exec e db db'
      → e.key ≡ exec.key
      → e.event_id ≡ 1
      → exec.next_event_id ≡ 2
      → (apart ≡ true → first_running exec.namespace exec.workflow_id db.executions ≡ none)
      → ChangeIf apart db db'
  updated :
      (now : ℤ) (exec : WorkflowExecution) (v : ℕ) (es : List HistoryEvent)
      (acts : List ActivityState) (ts : List Timer) (u : Updated now exec v es acts ts db db')
      → Numbered exec.key u.row.next_event_id es exec.next_event_id
      -- a run that is closed stays closed
      → (is_running exec.status ≡ true → is_running u.row.status ≡ true)
      → ChangeIf apart db db'
  -- timers alone
  retimed :
      db'.executions ≡ db.executions
      → db'.events ≡ db.events
      → db'.activities ≡ db.activities
      → AllKept db.timers db'.timers
      → ChangeIf apart db db'

pub data ChangesIf (apart : Bool) (db : Database) : Database → Type 0 where
  same : ChangesIf apart db db
  after :
      {db₁ db₂ : Database}
      → ChangesIf apart db db₁
      → ChangeIf apart db₁ db₂
      → ChangesIf apart db db₂

abbrev pub Change : Database → Database → Type 0
Change = ChangeIf true

abbrev pub Changes : Database → Database → Type 0
Changes = ChangesIf true

pub one : {apart : Bool} {db db' : Database} → ChangeIf apart db db' → ChangesIf apart db db'
one c = after same c

pub Changes-trans :
    {apart : Bool} {a m z : Database}
    → ChangesIf apart a m
    → ChangesIf apart m z
    → ChangesIf apart a z
Changes-trans p same = p
Changes-trans p (after q c) = after (Changes-trans p q) c

Change-if : {apart : Bool} {db db' : Database} → Change db db' → ChangeIf apart db db'
Change-if (created now exec e c own first second alone) =
    created now exec e c own first second (λ _. alone refl)
Change-if (updated now exec v es acts ts u numbered stays) =
    updated now exec v es acts ts u numbered stays
Change-if (retimed x e a kept) = retimed x e a kept

-- What is allowed where starts are apart is allowed where they are not.
pub Changes-if : {apart : Bool} {db db' : Database} → Changes db db' → ChangesIf apart db db'
Changes-if same = same
Changes-if (after p c) = after (Changes-if p) (Change-if c)

length-map-stamp : (now : ℤ) (es : List HistoryEvent) → length (map (stamp now) es) ≡ length es
length-map-stamp now [] = refl
length-map-stamp now (e ∷ es) = omega (arith, length-map-stamp now es)

-- No transaction removes an event.
pub Change-events :
    {apart : Bool} {db db' : Database}
    → ChangeIf apart db db'
    → length db.events ≤ length db'.events
Change-events {apart} {db} (created now exec e c _ _ _ _) =
    omega (arith, ap length c.events, length-append db.events (stamp now e ∷ []))
Change-events {apart} {db} (updated now exec v es acts ts u _ _) =
    omega (arith, ap length u.events, length-append db.events (map (stamp now) es))
Change-events (retimed _ e _ _) = omega (arith, ap length e)

pub length-ids_from : (n c : ℕ) → length (ids_from n c) ≡ c
length-ids_from n zero = refl
length-ids_from n (suc c) = omega (arith, length-ids_from (suc n) c)

-- A run has no more events than the table.
pub length-ids_of :
    (k : RunKey) (events : List HistoryEvent) → length (ids_of k events) ≤ length events
unfolding ids_of
length-ids_of k [] = omega arith
length-ids_of k (e ∷ rest) = ground (arith, length-ids_of k rest)

abbrev pub max_events : ℕ
max_events = 9223372036854775806

next-le :
    (db : Database) (k : RunKey) (e : WorkflowExecution)
    → IsGapless db
    → find_execution k db.executions ≡ some e
    → e.next_event_id ≤ length db.events + 1
next-le db k e g found =
    let (count, ids, next) = g.logged k e found in
    omega (arith, length-ids_of k db.events, ap length ids, length-ids_from 1 count)

Change-IsGapless :
    {apart : Bool} {db db' : Database}
    → ChangeIf apart db db'
    → length db'.events ≤ max_events
    → IsGapless db
    → IsGapless db'
Change-IsGapless (created now exec e c own first second _) h g =
    Created-IsGapless c g own first second
Change-IsGapless {apart} {db} (updated now exec v es acts ts u numbered _) h g =
    Updated-IsGapless u g numbered (
      omega (
        arith,
        next-le db exec.key u.row g u.found,
        ap length u.events,
        length-append db.events (map (stamp now) es),
        length-map-stamp now es,
      ))
Change-IsGapless {apart} {db} {db'} (retimed x e _ _) h g = record {
  logged = λ k r found. rw e (g.logged k r (rw x at found));
  unlogged = λ k absent. rw e (g.unlogged k (rw x at absent));
}

-- While the table has room for its `int64` numbers, no transaction leaves a gap in a log.
pub Changes-IsGapless :
    {apart : Bool} {db db' : Database}
    → ChangesIf apart db db'
    → length db'.events ≤ max_events
    → IsGapless db
    → IsGapless db'
Changes-IsGapless same h g = g
Changes-IsGapless (after p c) h g =
    Change-IsGapless c h (Changes-IsGapless p (omega (arith, Change-events c, h)) g)
