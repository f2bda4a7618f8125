-- ===== src/History/TimerProcessor/Ends.antt =====
-- The end of the loop `Run` of history/internal/service/timer_processor.go.
use mini_workflow.Prelude.{◌≡◌, refl, ap, ◌∙◌, Bool, true, false, List, [], ◌∷◌, ◌++◌, All}
use mini_workflow.History.Backend.{Backend}
use mini_workflow.History.World.{World}
use mini_workflow.History.TimerProcessor.Loop.{
  Round, Signal, elapsed, woken, ticked, done, run_round, run,
}

abbrev pub is_done : Signal → Bool
is_done done = true
is_done elapsed = false
is_done woken = false
is_done ticked = false

module _ ⦃b : Backend⦄ where
  abbrev pub in_turn : List Round → World → World
  in_turn [] w = w
  in_turn (r ∷ rest) w = in_turn rest (run_round r w)

  abbrev after_round : Round → List Round → World → Signal → World
  after_round r rest w done = run_round r w
  after_round r rest w elapsed = run rest (run_round r w)
  after_round r rest w woken = run rest (run_round r w)
  after_round r rest w ticked = run rest (run_round r w)

  run-cons :
      (r : Round) (rest : List Round) (w : World) → run (r ∷ rest) w ≡ after_round r rest w r.signal
  unfolding run
  run-cons r rest w = by_signal r.signal
    where
      by_signal :
          (s : Signal)
          → elim s as (λ _. World) [ done ↦ run_round r w | _ ↦ run rest (run_round r w) ]
            ≡ after_round r rest w s
      by_signal done = refl
      by_signal elapsed = refl
      by_signal woken = refl
      by_signal ticked = refl

  goes_on :
      (r : Round) (rest : List Round) (w : World) (s : Signal)
      → is_done s ≡ false
      → after_round r rest w s ≡ run rest (run_round r w)
  goes_on r rest w elapsed h = refl
  goes_on r rest w woken h = refl
  goes_on r rest w ticked h = refl
  goes_on r rest w done h = cc

  -- The loop ends with the first round that meets the end of the program: it has made the rounds
  -- before it in turn, then that one, and none that would follow.
  pub run-done :
      (before : List Round) (last : Round) (later : List Round) (w : World)
      → All (λ r. is_done r.signal ≡ false) before
      → last.signal ≡ done
      → run (before ++ last ∷ later) w ≡ run_round last (in_turn before w)
  run-done [] last later w h end = run-cons last later w ∙ ap (after_round last later w) end
  run-done (r ∷ before) last later w (going, h) end =
      run-cons r (before ++ last ∷ later) w
      ∙ goes_on r (before ++ last ∷ later) w r.signal going
      ∙ run-done before last later (run_round r w) h end
