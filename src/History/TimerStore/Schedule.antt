-- ===== src/History/TimerStore/Schedule.antt =====
-- What scheduling a timer leaves in the set of Redis, and when it wakes the processor.
use mini_workflow.Prelude.{
  ℕ, ◌+◌, ◌≡◌, refl, ap, ◌∙◌, String, Bool, true, false, not, Option, none, some, List, [], ◌∷◌,
  arith, str_eq, eq_iff, Bool-cases, inl, inr, if◌then◌else◌,
}
use mini_workflow.Prelude.Int.{ℤ, unix_milli}
use mini_workflow.Result.{ok}
use mini_workflow.History.Models.{Timer}
use mini_workflow.History.Backend.{Backend}
use mini_workflow.History.Postgres.{Fault}
use mini_workflow.History.TimerStore.{
  Entry, TimerStore, insert_entry, without, zadd, is_earliest, schedule_timer, add_all,
  rebuild_from_db, reached,
}
use mini_workflow.History.TimerStore.Claims.{score_of, score_of-keep, score_of-keep-none}

score_of-insert :
    (x : Entry) (m : String) (rows : List Entry)
    → score_of x.member rows ≡ none
    → score_of m (insert_entry x rows)
      ≡ (if str_eq x.member m then some x.score else score_of m rows)
unfolding score_of insert_entry
score_of-insert x m [] h = refl
score_of-insert x m (e ∷ rest) h = ground (
  arith,
  eq_iff e.member x.member,
  eq_iff e.member m,
  eq_iff x.member m,
  score_of-insert x m rest,
)

pub score_of-zadd :
    (at : ℤ) (id m : String) (rows : List Entry)
    → score_of m (zadd at id rows) ≡ (if str_eq id m then some at else score_of m rows)
unfolding zadd without
score_of-zadd at id m rows =
    score_of-insert (record { score = at; member = id }) m (without id rows)
      (score_of-keep-none (λ e. not (str_eq e.member id)) id rows (λ e own. rw own refl))
    ∙ others (str_eq id m) refl
  where
    others :
        (c : Bool)
        → str_eq id m ≡ c
        → (if c then some at else score_of m (without id rows))
          ≡ (if c then some at else score_of m rows)
    others true same = refl
    others false differ =
        score_of-keep (λ e. not (str_eq e.member id)) m rows
          (λ e own. ground (arith, eq_iff e.member m, eq_iff e.member id, eq_iff id m, own, differ))

-- The time of a member after all the timers of a list have been set, one after the other.
abbrev pub set_to : ⦃b : Backend⦄ → String → List Timer → Option ℤ → Option ℤ
set_to m [] old = old
set_to ⦃b⦄ m (t ∷ rest) old =
    set_to m rest
      (if str_eq (b.print_uuid t.timer_id) m then some (unix_milli t.fire_time) else old)

add_all-set_to :
    ⦃b : Backend⦄ (m : String) (ts : List Timer) (rows : List Entry)
    → score_of m (add_all ts rows) ≡ set_to m ts (score_of m rows)
unfolding add_all
add_all-set_to m [] rows = refl
add_all-set_to ⦃b⦄ m (t ∷ rest) rows =
    add_all-set_to m rest (zadd (unix_milli t.fire_time) (b.print_uuid t.timer_id) rows)
    ∙ ap (set_to m rest) (score_of-zadd (unix_milli t.fire_time) (b.print_uuid t.timer_id) m rows)

reached_all :
    (faults : ℕ → Fault) (ts : List Timer) → ((k : ℕ) → faults k ≡ none) → reached faults ts ≡ ts
unfolding reached
reached_all faults [] up = refl
reached_all faults (t ∷ rest) up =
    rw (up 0, reached_all (λ k. faults (k + 1)) rest (λ k. up (k + 1))) refl

pub rebuilt-set_to :
    ⦃b : Backend⦄ (faults : ℕ → Fault) (m : String) (ts : List Timer) (s : TimerStore)
    → ((k : ℕ) → faults k ≡ none)
    → score_of m (rebuild_from_db faults ts s).1.active ≡ set_to m ts (score_of m s.active)
unfolding rebuild_from_db
rebuilt-set_to faults m [] s up = refl
rebuilt-set_to faults m (t ∷ rest) s up =
    rw (reached_all faults (t ∷ rest) up) (add_all-set_to m (t ∷ rest) s.active)

abbrev pub no_fault : ℕ → Option String
no_fault n = none

-- The set of Redis is a map from timers to times. Scheduling a timer sets its time and that of no
-- other, and wakes the processor if the timer is then the first; a rebuild sets the time of each of
-- its timers, in their order, and leaves every other. All of it when Redis answers.
pub schedule_timer-rebuild_from_db :
    ⦃b : Backend⦄ (id m : String) (at : ℤ) (ts : List Timer) (s : TimerStore)
    → ((schedule_timer no_fault id at s).0 ≡ ok tt)
      × (score_of m (schedule_timer no_fault id at s).1.active
          ≡ (if str_eq id m then some at else score_of m s.active))
      × ((schedule_timer no_fault id at s).1.wakeups ≡ (
          if is_earliest id (schedule_timer no_fault id at s).1.active
          then s.wakeups + 1
          else s.wakeups))
      × (score_of m (rebuild_from_db no_fault ts s).1.active ≡ set_to m ts (score_of m s.active))
unfolding schedule_timer
schedule_timer-rebuild_from_db id m at ts s =
    elim (Bool-cases (is_earliest id (zadd at id s.active))) [
      | inl first ↦ rw first (
        refl,
        score_of-zadd at id m s.active,
        rw first refl,
        rebuilt-set_to no_fault m ts s (λ k. refl),
      )
      | inr later ↦ rw later (
        refl,
        score_of-zadd at id m s.active,
        rw later refl,
        rebuilt-set_to no_fault m ts s (λ k. refl),
      )
    ]
