-- ===== src/Scenarios/Rounds.antt =====
-- The set of timers and the loop of the timer processor at concrete inputs.
use mini_workflow.Prelude.{◌≡◌, refl, false, [], ◌∷◌}
use mini_workflow.Prelude.Int.{pos}
use mini_workflow.Codec.{nil}
use mini_workflow.History.Models.{Timer, user}
use mini_workflow.History.TimerStore.{TimerStore}
use mini_workflow.History.World.{World}
use mini_workflow.History.TimerProcessor.Loop.{Round, Signal, ticked, woken, done, run, run_round}
use mini_workflow.History.TimerProcessor.Ends.{in_turn, run-done}
use mini_workflow.Scenarios.{backend, calm, open_row, world_of}

abbrev due : Timer
due = record {
  timer_id = 1;
  key = open_row.key;
  fire_time = pos 2000000;
  timer_type = user;
  task_token = nil;
  is_fired = false;
}

abbrev three_timers : TimerStore
three_timers = record {
  active =
      (record { score = pos 5; member = "xx" })
      ∷ (record { score = pos 6; member = "xxx" })
      ∷ (record { score = pos 9; member = "xxxx" })
      ∷ [];
  wakeups = 0;
}

abbrev round : Signal → Round
round s = record {
  claim_env = calm 2;
  dispatch_envs = λ k. calm 3;
  wait_env = calm 4;
  scavenge_env = calm 5;
  signal = s;
}

abbrev waiting : World
waiting = record (world_of open_row) { db = record (world_of open_row).db { timers = due ∷ [] } }

run-done_example :
    run ⦃b = backend⦄ (round ticked ∷ round woken ∷ round done ∷ round woken ∷ []) waiting
    ≡ run_round ⦃b = backend⦄
        (round done)
        (in_turn ⦃b = backend⦄ (round ticked ∷ round woken ∷ []) waiting)
run-done_example =
    run-done ⦃b = backend⦄ (round ticked ∷ round woken ∷ []) (round done) (round woken ∷ []) waiting
      (refl, (refl, tt)) refl
