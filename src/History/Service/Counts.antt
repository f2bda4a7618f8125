-- ===== src/History/Service/Counts.antt =====
-- How the commands of a workflow worker add up in one batch.
use mini_workflow.Prelude.{
  ℕ, ◌+◌, ◌≡◌, refl, ap, subst, ◌∙◌, eq_iff, String, Bool, true, false, Option, none, some, List,
  [], ◌∷◌, arith, length, length-append, str_eq, Bool-cases, inl, inr,
}
use mini_workflow.Result.{Result, ok, >>=-eq-ok}
use mini_workflow.Api.{Command}
use mini_workflow.History.Models.{WorkflowExecution}
use mini_workflow.History.Backend.{Backend}
use mini_workflow.History.World.{Env}
use mini_workflow.History.Service.Commands.{
  Batch, append_event, schedule_activity, start_timer, complete_workflow, run_command, run_commands,
  first_batch, scheduled_with, timer_with,
}
use mini_workflow.History.Service.Attributes.{ScheduleAttributes, TimerAttributes}

abbrev pub one_if : Bool → ℕ
one_if true = 1
one_if false = 0

-- How many of the commands have a type.
abbrev pub count_of : String → List Command → ℕ
count_of s [] = 0
count_of s (c ∷ rest) = one_if (str_eq c.command_type s) + count_of s rest

-- What a command of each kind adds.
abbrev pub Adds : Batch → Batch → ℕ → ℕ → ℕ → Type 0
Adds x y a t c =
    (length y.activities ≡ length x.activities + a)
    × (length y.tasks ≡ length x.tasks + a)
    × (length y.timers ≡ length x.timers + (a + t))
    × (length y.events ≡ length x.events + (a + t + c))

is_other : (t s r : String) → str_eq t s ≡ true → str_eq s r ≡ false → str_eq t r ≡ false
is_other t s r own other = ap (λ u. str_eq u r) ((eq_iff t s).0 own) ∙ other

ok-inj : {E A : Type 0} {a c : A} → ◌≡◌ {A = Result E A} (ok a) (ok c) → a ≡ c
ok-inj h = cc h

none_more : {A : Type 0} (xs : List A) → length xs ≡ length xs + 0
none_more xs = omega arith

module _ ⦃b : Backend⦄ (env : Env) where
  scheduled :
      (k : ℕ) (x : Batch) (u : ScheduleAttributes × Option String) {y : Batch}
      → scheduled_with env k x u ≡ ok y
      → Adds x y 1 0 0
  unfolding schedule_activity append_event
  scheduled k x (attrs, none) h =
      subst (λ z. Adds x z 1 0 0) (ok-inj h)
        (
          length-append x.activities _,
          length-append x.tasks _,
          length-append x.timers _,
          length-append x.events _,
        )
  scheduled k x (attrs, some e) h = cc

  timed :
      (k : ℕ) (x : Batch) (u : TimerAttributes × Option String) {y : Batch}
      → timer_with env k x u ≡ ok y
      → Adds x y 0 1 0
  unfolding start_timer append_event
  timed k x (attrs, none) h =
      subst (λ z. Adds x z 0 1 0) (ok-inj h)
        (
          none_more x.activities,
          none_more x.tasks,
          length-append x.timers _,
          length-append x.events _,
        )
  timed k x (attrs, some e) h = cc

  commanded :
      (k : ℕ) (cmd : Command) (x : Batch) {y : Batch}
      → run_command env k cmd x ≡ ok y
      → Adds x y
          (one_if (str_eq cmd.command_type "ScheduleActivityTask"))
          (one_if (str_eq cmd.command_type "StartTimer"))
          (one_if (str_eq cmd.command_type "CompleteWorkflowExecution"))
  unfolding run_command complete_workflow append_event
  commanded k cmd x h = elim (Bool-cases (str_eq cmd.command_type "ScheduleActivityTask")) [
    | inl own ↦
        rw
          (
            own,
            is_other cmd.command_type _ "StartTimer" own refl,
            is_other cmd.command_type _ "CompleteWorkflowExecution" own refl,
          )
          (scheduled k x _ (rw own at h))
    | inr not_first ↦ elim (Bool-cases (str_eq cmd.command_type "StartTimer")) [
      | inl own ↦
          rw (not_first, own, is_other cmd.command_type _ "CompleteWorkflowExecution" own refl)
            (timed k x _ (rw (not_first, own) at h))
      | inr not_second ↦ elim (Bool-cases (str_eq cmd.command_type "CompleteWorkflowExecution")) [
        | inl own ↦
            rw (not_first, not_second, own)
              (subst (λ z. Adds x z 0 0 1) (ok-inj (rw (not_first, not_second, own) at h))
                (
                  none_more x.activities,
                  none_more x.tasks,
                  none_more x.timers,
                  length-append x.events _,
                ))
        | inr not_third ↦
            rw (not_first, not_second, not_third)
              (subst (λ z. Adds x z 0 0 0) (ok-inj (rw (not_first, not_second, not_third) at h))
                (none_more x.activities, none_more x.tasks, none_more x.timers, none_more x.events))
      ]
    ]
  ]

  added :
      (k : ℕ) (cmds : List Command) (x : Batch) {y : Batch}
      → run_commands env k cmds x ≡ ok y
      → Adds x y
          (count_of "ScheduleActivityTask" cmds)
          (count_of "StartTimer" cmds)
          (count_of "CompleteWorkflowExecution" cmds)
  unfolding run_commands
  added k [] x h =
      subst (λ z. Adds x z 0 0 0) (ok-inj h)
        (none_more x.activities, none_more x.tasks, none_more x.timers, none_more x.events)
  added k (cmd ∷ rest) x h =
      let (m, first, more) =
        >>=-eq-ok (run_command env k cmd x) (run_commands env (k + 1) rest) h in
      let (a, b, c, d) = commanded k cmd x first in
      let (a', b', c', d') = added (k + 1) rest m more in
      (omega arith, omega arith, omega arith, omega arith)

  -- Commands that are all well formed become, in one batch: an activity, and a task for it, for each
  -- `ScheduleActivityTask`; a timer for each of these and for each `StartTimer`; and an event for
  -- each of these and for each `CompleteWorkflowExecution`, after the one of the workflow task.
  -- Commands of any other type are passed over.
  pub run_commands-counts :
      (exec : WorkflowExecution) (cmds : List Command) (y : Batch)
      → run_commands env 0 cmds (first_batch env exec (length cmds)) ≡ ok y
      → (length y.activities ≡ count_of "ScheduleActivityTask" cmds)
        × (length y.tasks ≡ count_of "ScheduleActivityTask" cmds)
        × (length y.timers ≡ count_of "ScheduleActivityTask" cmds + count_of "StartTimer" cmds)
        × (length y.events
            ≡ 1
              + count_of "ScheduleActivityTask" cmds
              + count_of "StartTimer" cmds
              + count_of "CompleteWorkflowExecution" cmds)
  unfolding first_batch append_event
  run_commands-counts exec cmds y h =
      let (a, b, c, d) = added 0 cmds (first_batch env exec (length cmds)) h in
      (omega (arith, a), omega (arith, b), omega (arith, c), omega (arith, d))
