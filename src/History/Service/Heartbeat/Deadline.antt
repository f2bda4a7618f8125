-- ===== src/History/Service/Heartbeat/Deadline.antt =====
-- The timer that a heartbeat of history/internal/service puts off.
use mini_workflow.Prelude.{
  ◌≡◌, refl, String, true, false, not, ◌&&◌, Option, none, some, List, [], ◌∷◌, map, keep, ◌==◌,
  if◌then◌else◌, Bool-cases, inl, inr,
}
use mini_workflow.Prelude.Int.{ℤ, ltz}
use mini_workflow.Result.{Result, ok}
use mini_workflow.History.Models.{Uuid, RunKey, Timer, activity_timeout, same_run}
use mini_workflow.History.Backend.{Backend}
use mini_workflow.History.Postgres.{Database, Fault}
use mini_workflow.History.Postgres.Timers.{
  alter_timer, head?, insert_by_time, order_by_time, get_activity_timeout_timer,
}

-- The rows of timers when the one that was looked for, if it was found, has been put off.
abbrev pub put_off : Result String (Option Timer) → Fault → ℤ → List Timer → List Timer
put_off (ok (some t)) none at rows = alter_timer t.timer_id (λ u. record u { fire_time = at }) rows
put_off _ _ at rows = rows

-- The row with the least time, the first of these.
abbrev earliest : List Timer → Option Timer
earliest [] = none
earliest (t ∷ rest) = elim (earliest rest) [
  | none ↦ some t
  | some u ↦ if ltz u.fire_time t.fire_time then some u else some t
]

head?-insert_by_time :
    (t : Timer) (rows : List Timer)
    → head? (insert_by_time t rows) ≡ elim (head? rows) as (λ _. Option Timer) [
      | none ↦ some t
      | some u ↦ if ltz u.fire_time t.fire_time then some u else some t
    ]
unfolding insert_by_time
head?-insert_by_time t [] = refl
head?-insert_by_time t (u ∷ rest) = elim (Bool-cases (ltz u.fire_time t.fire_time)) [
  | inl sooner ↦ rw sooner refl
  | inr later ↦ rw later refl
]

head?-order_by_time : (rows : List Timer) → head? (order_by_time rows) ≡ earliest rows
unfolding order_by_time
head?-order_by_time [] = refl
head?-order_by_time (t ∷ rest) = rw (head?-insert_by_time, head?-order_by_time rest) refl

-- The rows after a heartbeat of an activity: of the timers of its run that await an activity, have
-- not fired and have a token like its id, the earliest gets the new time, unless the read or the
-- write fails.
abbrev pub with_deadline :
    ⦃b : Backend⦄ → Fault → Fault → RunKey → String → ℤ → List Timer → List Timer
with_deadline (some e) write_fault k id at rows = rows
with_deadline none (some e) k id at rows = rows
with_deadline ⦃b⦄ none none k id at rows =
    elim (earliest (
      keep
        (λ t.
          same_run t.key k
          && (elim t.timer_type [ activity_timeout ↦ true | _ ↦ false ])
          && not t.is_fired
          && b.token_is_like t.task_token id)
        rows)) [
          | none ↦ rows
          | some t ↦
              map (λ u. if u.timer_id == t.timer_id then record u { fire_time = at } else u) rows
        ]

alter_timer-map :
    (id : Uuid) (f : Timer → Timer) (rows : List Timer)
    → alter_timer id f rows ≡ map (λ t. if t.timer_id == id then f t else t) rows
unfolding alter_timer
alter_timer-map id f [] = refl
alter_timer-map id f (t ∷ rest) = rw (alter_timer-map id f rest) refl

put_off-found :
    (found : Option Timer) (at : ℤ) (rows : List Timer)
    → put_off (ok found) none at rows ≡ elim found as (λ _. List Timer) [
      | none ↦ rows
      | some t ↦ map (λ u. if u.timer_id == t.timer_id then record u { fire_time = at } else u) rows
    ]
put_off-found none at rows = refl
put_off-found (some t) at rows = alter_timer-map t.timer_id (λ u. record u { fire_time = at }) rows

put_off-unwritten :
    (e : String) (found : Option Timer) (at : ℤ) (rows : List Timer)
    → put_off (ok found) (some e) at rows ≡ rows
put_off-unwritten e none at rows = refl
put_off-unwritten e (some t) at rows = refl

pub put_off-with_deadline :
    ⦃b : Backend⦄ (fault write_fault : Fault) (k : RunKey) (id : String) (at : ℤ) (db : Database)
    → put_off (get_activity_timeout_timer fault k id db) write_fault at db.timers
      ≡ with_deadline fault write_fault k id at db.timers
unfolding get_activity_timeout_timer
put_off-with_deadline (some e) write_fault k id at db = refl
put_off-with_deadline none (some e) k id at db = put_off-unwritten e _ at db.timers
put_off-with_deadline none none k id at db = rw head?-order_by_time (put_off-found _ at db.timers)
