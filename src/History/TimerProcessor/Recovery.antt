-- ===== src/History/TimerProcessor/Recovery.antt =====
-- history/internal/service/timer_processor.go: a pass of the scavenger and the next look for expired
-- timers.
use mini_workflow.Prelude.{
  ℕ, zero, suc, ◌≤◌, take, ◌≡◌, refl, sym, ap, ◌∙◌, subst, String, Bool, true, not, ◌&&◌, none,
  some, List, [], ◌∷◌, arith, length, keep, str_eq, Bool-cases, inl, inr,
}
use mini_workflow.Prelude.Int.{ℤ, pos, ltz, unix_milli, ◌+ℤ◌}
use mini_workflow.History.Models.{Uuid, Timer}
use mini_workflow.History.Backend.{Backend}
use mini_workflow.History.Postgres.{find_timer}
use mini_workflow.History.Postgres.Timers.{get_non_fired_timers, order_by_time}
use mini_workflow.History.TimerStore.{Entry, is_expired, is_in, claim_expired}
use mini_workflow.History.TimerStore.Claims.{score_of}
use mini_workflow.History.TimerStore.Schedule.{rebuilt-set_to}
use mini_workflow.History.Postgres.TimerRows.{IsKeyed}
use mini_workflow.History.TimerStore.Due.{
  find_timer-keep, keep-IsKeyed, order_by_time-lem, set_to-find,
}
use mini_workflow.History.World.{World, Env}
use mini_workflow.History.TimerProcessor.Claimed.{Answers, fires_claimed}
use mini_workflow.History.TimerProcessor.Rounds.{scavenge-db}
use mini_workflow.History.TimerProcessor.Loop.{process_expired, scavenge, hour, timer_batch_size}

some-inj : {A : Type 0} {x y : A} → some x ≡ some y → x ≡ y
some-inj h = cc h

take-short : {A : Type 0} (n : ℕ) (xs : List A) → length xs ≤ n → take n xs ≡ xs
take-short zero [] h = refl
take-short zero (x ∷ xs) h = absurd (omega arith)
take-short (suc n) [] h = refl
take-short (suc n) (x ∷ xs) h = ap (λ l. x ∷ l) (take-short n xs (omega arith))

module _ ⦃b : Backend⦄ where
  abbrev pub has_not_fired : ℤ → Timer → Bool
  has_not_fired up_to t = not t.is_fired && not (ltz up_to t.fire_time)

  -- After the scavenger the set of Redis has the timer, at the time that the database has.
  pub scavenge-score_of :
      (env : Env) (w : World) (id : Uuid) (t : Timer)
      → env.db_fault 0 ≡ none
      → ((k : ℕ) → env.redis_fault 0 k ≡ none)
      → IsKeyed w.db.timers
      → find_timer id w.db.timers ≡ some t
      → has_not_fired (env.time 0 +ℤ hour) t ≡ true
      → score_of (b.print_uuid id) (scavenge env w).timer_store.active
        ≡ some (unix_milli t.fire_time)
  unfolding scavenge get_non_fired_timers
  scavenge-score_of env w id t up redis keyed found early =
      let rows = keep (has_not_fired (env.time 0 +ℤ hour)) w.db.timers in
      let kept = keep-IsKeyed (has_not_fired (env.time 0 +ℤ hour)) w.db.timers keyed in
      let (ordered, same) = order_by_time-lem rows kept in
      rw up (
        rebuilt-set_to (env.redis_fault 0) (b.print_uuid id) (order_by_time rows) w.timer_store
          redis
        ∙ set_to-find id (order_by_time rows) _ t ordered (
            same id
            ∙ find_timer-keep (has_not_fired (env.time 0 +ℤ hour)) id w.db.timers t found early))

  -- A claim that has room takes every timer that has expired.
  is_in-expired :
      (now : ℤ) (m : String) (rows : List Entry) (at : ℤ)
      → score_of m rows ≡ some at
      → is_expired now (record { score = at; member = m }) ≡ true
      → is_in m (keep (is_expired now) rows) ≡ true
  unfolding score_of is_in
  is_in-expired now m [] at found late = cc
  is_in-expired now m (e ∷ rest) at found late = elim (Bool-cases (str_eq e.member m)) [
    | inl own ↦
        let same : e.score ≡ at = some-inj (rw own at found) in
        let it : is_expired now e ≡ true =
          subst (λ s. (not (ltz s (pos 0)) && not (ltz now s)) ≡ true) (sym same) late in
        rw it (rw own refl)
    | inr other ↦
        let later = is_in-expired now m rest at (rw other at found) late in
        elim (Bool-cases (is_expired now e)) [
          | inl taken ↦ rw taken (rw other later)
          | inr left ↦ rw left later
        ]
  ]

  module _ (id : Uuid) (t : Timer) where
    -- A timer that is due, and that the database holds as not fired, is marked as fired by a look for
    -- expired timers that follows a pass of the scavenger, whatever Redis held of it before, when the
    -- commands of both answer and at most ten of the timers in Redis have expired.
    pub scavenge-process_expired :
        (scavenge_env claim_env : Env) (envs : ℕ → Env) (w : World)
        → scavenge_env.db_fault 0 ≡ none
        → ((k : ℕ) → scavenge_env.redis_fault 0 k ≡ none)
        → claim_env.redis_fault 0 0 ≡ none
        → ((k : ℕ) → Answers (envs k))
        → IsKeyed w.db.timers
        → find_timer id w.db.timers ≡ some t
        → has_not_fired (scavenge_env.time 0 +ℤ hour) t ≡ true
        → is_expired
            (unix_milli (claim_env.time 0))
            (record { score = unix_milli t.fire_time; member = b.print_uuid id })
          ≡ true
        → length (
            keep
              (is_expired (unix_milli (claim_env.time 0)))
              (scavenge scavenge_env w).timer_store.active)
          ≤ timer_batch_size
        → find_timer id (process_expired claim_env envs (scavenge scavenge_env w)).db.timers
          ≡ some (record t { is_fired = true })
    unfolding process_expired claim_expired
    scavenge-process_expired scavenge_env claim_env envs w up redis claim answers keyed found early
          late room =
        let now = unix_milli (claim_env.time 0) in
        let w' = scavenge scavenge_env w in
        let expired = keep (is_expired now) w'.timer_store.active in
        let claimed_it =
          is_in-expired now (b.print_uuid id) w'.timer_store.active (unix_milli t.fire_time)
            (scavenge-score_of scavenge_env w id t up redis keyed found early) late in
        rw (claim, take-short timer_batch_size expired room)
          (fires_claimed id t envs expired t.is_fired _ answers
            (ap (find_timer id) (ap (λ d. d.timers) (scavenge-db scavenge_env w)) ∙ found)
            claimed_it)
