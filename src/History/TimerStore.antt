-- ===== src/History/TimerStore.antt =====
-- history/internal/adapters/redis/timer_store.go: the sorted set `timers:active_set` and the
-- messages on `timers:wakeup_channel`. Redis keeps a set ordered by score, then by member.
pub mod Claims
pub mod Schedule
pub mod Due
pub mod Ordered
pub mod Earliest
pub mod Subscription
use Prim.Native.String.{compare}
use Prim.Native.Nat.{Ordering}
use mini_workflow.Prelude.{
  ℕ, ◌+◌, String, Bool, true, false, not, ◌&&◌, ◌||◌, none, some, List, [], ◌∷◌, map, str_eq, take,
  keep, if◌then◌else◌,
}
use mini_workflow.Prelude.Int.{ℤ, pos, ltz, unix_milli}
use mini_workflow.Result.{Result, ok, err}
use mini_workflow.History.Models.{Timer}
use mini_workflow.History.Backend.{Backend}
use mini_workflow.History.Postgres.{Fault}

-- A score is a float64 made of an int64: exact for milliseconds below 2 ^ 53.
pub record Entry : Type 0 where
  pub score : ℤ
  pub member : String

pub record TimerStore : Type 0 where
  pub active : List Entry
  -- messages published so far
  pub wakeups : ℕ

abbrev text_lt : String → String → Bool
text_lt s t = elim (compare s t) [ Ordering.lt ↦ true | _ ↦ false ]

-- The order of a sorted set.
unfoldable pub before : Entry → Entry → Bool
before a b = ltz a.score b.score || (not (ltz b.score a.score) && text_lt a.member b.member)

unfoldable pub insert_entry : Entry → List Entry → List Entry
insert_entry e [] = e ∷ []
insert_entry e (f ∷ rest) = if before f e then f ∷ insert_entry e rest else e ∷ f ∷ rest

unfoldable pub without : String → List Entry → List Entry
without m = keep (λ e. not (str_eq e.member m))

-- ZADD: a member that is there gets the new score.
unfoldable pub zadd : ℤ → String → List Entry → List Entry
zadd score m entries = insert_entry (record { score = score; member = m }) (without m entries)

-- ZRANGE 0 0
abbrev pub is_earliest : String → List Entry → Bool
is_earliest m [] = false
is_earliest m (e ∷ _) = str_eq e.member m

-- The faults are those of the commands that a call sends, in order. What ZADD wrote stays where a
-- later command fails.
abbrev pub published : Fault → TimerStore → Result String (Unit {0}) × TimerStore
published (some e) s = (err e, s)
published none s = (ok tt, record s { wakeups = s.wakeups + 1 })

abbrev pub announced : Fault → Fault → String → TimerStore → Result String (Unit {0}) × TimerStore
announced (some e) next timer_id s = (err e, s)
announced none next timer_id s =
    if is_earliest timer_id s.active then published next s else (ok tt, s)

abbrev pub added :
    Fault → Fault → Fault → String → ℤ → TimerStore → Result String (Unit {0}) × TimerStore
added (some e) second third timer_id fire_time_ms s = (err e, s)
added none second third timer_id fire_time_ms s =
    announced second third timer_id (record s { active = zadd fire_time_ms timer_id s.active })

unfoldable pub schedule_timer :
    (ℕ → Fault) → String → ℤ → TimerStore → Result String (Unit {0}) × TimerStore
schedule_timer faults timer_id fire_time_ms s =
    added (faults 0) (faults 1) (faults 2) timer_id fire_time_ms s

-- ZRANGEBYSCORE 0 now
abbrev pub is_expired : ℤ → Entry → Bool
is_expired now e = not (ltz e.score (pos 0)) && not (ltz now e.score)

unfoldable pub is_in : String → List Entry → Bool
is_in m [] = false
is_in m (e ∷ rest) = str_eq e.member m || is_in m rest

-- The script takes the entries and removes them in one step.
unfoldable pub claim_expired : Fault → ℤ → ℕ → TimerStore → Result String (List String) × TimerStore
claim_expired (some e) now_ms batch_size s = (err e, s)
claim_expired none now_ms batch_size s =
    let claimed = take batch_size (keep (is_expired now_ms) s.active) in
    (
      ok (map (λ e. e.member) claimed),
      record s { active = keep (λ e. not (is_in e.member claimed)) s.active },
    )

-- `RebuildFromDB`: one pipeline of ZADD commands, each with a fault of its own. The commands that
-- reach Redis take effect, also where others do not; the answer is the first fault.
unfoldable pub add_all : ⦃b : Backend⦄ → List Timer → List Entry → List Entry
add_all [] entries = entries
add_all ⦃b⦄ (t ∷ rest) entries =
    add_all rest (zadd (unix_milli t.fire_time) (b.print_uuid t.timer_id) entries)

abbrev pub if_reached : Fault → Timer → List Timer → List Timer
if_reached none t later = t ∷ later
if_reached (some e) t later = later

unfoldable pub reached : (ℕ → Fault) → List Timer → List Timer
reached faults [] = []
reached faults (t ∷ rest) = if_reached (faults 0) t (reached (λ k. faults (k + 1)) rest)

abbrev pub unless_failed : Fault → Result String (Unit {0}) → Result String (Unit {0})
unless_failed none later = later
unless_failed (some e) later = err e

unfoldable pub executed : (ℕ → Fault) → List Timer → Result String (Unit {0})
executed faults [] = ok tt
executed faults (t ∷ rest) = unless_failed (faults 0) (executed (λ k. faults (k + 1)) rest)

unfoldable pub rebuild_from_db :
    ⦃b : Backend⦄ → (ℕ → Fault) → List Timer → TimerStore → Result String (Unit {0}) × TimerStore
unfolding add_all reached executed
rebuild_from_db faults [] s = (ok tt, s)
rebuild_from_db faults (t ∷ rest) s =
    (executed faults (t ∷ rest), record s { active = add_all (reached faults (t ∷ rest)) s.active })
