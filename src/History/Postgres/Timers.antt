-- ===== src/History/Postgres/Timers.antt =====
-- repository.go, the queries on the `timers` table.
use mini_workflow.Prelude.{
  String, Bool, true, false, not, ◌&&◌, Option, none, some, List, [], ◌∷◌, ◌==◌, keep,
  if◌then◌else◌,
}
use mini_workflow.Prelude.Int.{ℤ, ltz}
use mini_workflow.Result.{Result, ok, unless_fault, or_err}
use mini_workflow.History.Models.{Uuid, RunKey, Timer, TimerType, activity_timeout, same_run}
use mini_workflow.History.Backend.{Backend}
use mini_workflow.History.Postgres.{Database, Fault, find_timer}

-- UPDATE timers SET … WHERE timer_id = id
unfoldable pub alter_timer : Uuid → (Timer → Timer) → List Timer → List Timer
alter_timer id f [] = []
alter_timer id f (t ∷ rest) = (if t.timer_id == id then f t else t) ∷ alter_timer id f rest

unfoldable pub mark_timer_fired : Fault → Uuid → Database → Result String Database
mark_timer_fired fault id db =
    unless_fault fault
      (ok (record db { timers = alter_timer id (λ t. record t { is_fired = true }) db.timers }))

unfoldable pub update_timer_fire_time : Fault → Uuid → ℤ → Database → Result String Database
update_timer_fire_time fault id at db =
    unless_fault fault
      (ok (record db { timers = alter_timer id (λ t. record t { fire_time = at }) db.timers }))

unfoldable pub get_timer_by_id : Fault → Uuid → Database → Result String Timer
get_timer_by_id fault id db =
    unless_fault fault (or_err (find_timer id db.timers) "timer not found")

-- ORDER BY fire_time ASC
unfoldable pub insert_by_time : Timer → List Timer → List Timer
insert_by_time t [] = t ∷ []
insert_by_time t (u ∷ rest) =
    if ltz u.fire_time t.fire_time then u ∷ insert_by_time t rest else t ∷ u ∷ rest

unfoldable pub order_by_time : List Timer → List Timer
unfolding insert_by_time
order_by_time [] = []
order_by_time (t ∷ rest) = insert_by_time t (order_by_time rest)

unfoldable pub get_non_fired_timers : Fault → ℤ → Database → Result String (List Timer)
get_non_fired_timers fault up_to db =
    unless_fault fault
      (ok (order_by_time (keep (λ t. not t.is_fired && not (ltz up_to t.fire_time)) db.timers)))

abbrev pub is_activity_timeout : TimerType → Bool
is_activity_timeout activity_timeout = true
is_activity_timeout _ = false

abbrev pub head? {ℓ} : {A : Type ℓ} → List A → Option A
head? [] = none
head? (x ∷ _) = some x

-- LIMIT 1; no row is no error, and no timer.
unfoldable pub get_activity_timeout_timer :
    ⦃b : Backend⦄ → Fault → RunKey → String → Database → Result String (Option Timer)
get_activity_timeout_timer ⦃b⦄ fault k activity_id db =
    unless_fault fault (ok (head? (order_by_time (keep matches db.timers))))
  where
    matches : Timer → Bool
    matches t =
        same_run t.key k
        && is_activity_timeout t.timer_type
        && not t.is_fired
        && b.token_is_like t.task_token activity_id
