-- ===== src/Scenarios/Wakeups.antt =====
-- The wake-ups of the timer processor at concrete inputs.
use mini_workflow.Prelude.{◌≤◌, ◌≡◌, refl, true, none, List, [], ◌∷◌, ◌++◌}
use mini_workflow.Prelude.Int.{pos}
use mini_workflow.History.TimerStore.{
  TimerStore, schedule_timer, zadd, insert_entry, without, before,
}
use mini_workflow.History.TimerStore.Subscription.{
  Event, message, cancelled, received, subscribe, follow, follow_all, reads_woken, sent,
  published_by, schedule_timer-follow,
}

abbrev one_timer : TimerStore
one_timer = record { active = (record { score = pos 5; member = "xx" }) ∷ []; wakeups = 4 }

abbrev earlier : List Event
earlier = message ∷ message ∷ received ∷ []

abbrev later : List Event
later = message ∷ cancelled ∷ message ∷ []

abbrev events : List Event
events =
    earlier
    ++ (published_by one_timer (schedule_timer (λ k. none) "x" (pos 3) one_timer).1 ++ later)

-- Two messages before the read are one wake-up, and so are the two after it.
reads : reads_woken (events ++ received ∷ received ∷ []) subscribe ≡ 2
unfolding follow schedule_timer zadd insert_entry without before
reads = refl

schedule_timer-follow_example :
    ((follow_all events subscribe).full ≡ true) × (reads_woken events subscribe ≤ sent events)
unfolding schedule_timer zadd insert_entry without before
schedule_timer-follow_example =
    schedule_timer-follow (λ k. none) "x" (pos 3) one_timer earlier later refl refl
      (refl, (refl, (refl, tt))) (refl, (refl, (refl, tt)))
