-- ===== src/History/Service/Batch.antt =====
-- The numbers of the events in the batch that the commands of a workflow task build.
use mini_workflow.Prelude.{
  ℕ, ◌+◌, String, ◌≡◌, refl, ap, subst, ◌∙◌, Option, none, some, List, [], ◌∷◌, ◌++◌, str_eq,
  Bool-cases, inl, inr,
}
use mini_workflow.Prelude.Int.{inc64}
use mini_workflow.Result.{ok, >>=-eq-ok}
use mini_workflow.Codec.{Bytes, nil}
use mini_workflow.Codec.Decode.{unmarshal}
use mini_workflow.Api.{Command}
use mini_workflow.History.Models.{RunKey, WorkflowExecution, HistoryEvent}
use mini_workflow.History.Backend.{Backend}
use mini_workflow.History.World.{Env}
use mini_workflow.History.Postgres.Log.{Numbered}
use mini_workflow.History.Service.Load.{new_event}
use mini_workflow.History.Service.Commands.{
  Batch, append_event, schedule_activity, start_timer, complete_workflow, run_command, run_commands,
  first_batch, scheduled_with, timer_with,
}
use mini_workflow.History.Service.Attributes.{
  ScheduleAttributes, TimerAttributes, set_schedule, set_timer, set_result, no_schedule, no_timer,
}

pub Numbered-append :
    (k : RunKey) (n m : ℕ) (es : List HistoryEvent) (e : HistoryEvent)
    → Numbered k n es m
    → e.key ≡ k
    → e.event_id ≡ m
    → Numbered k n (es ++ e ∷ []) (inc64 m)
Numbered-append k n m [] e h own at = (own, at ∙ h, ap inc64 h)
Numbered-append k n m (f ∷ es) e (p, q, r) own at =
    (p, q, Numbered-append k (inc64 n) m es e r own at)

-- What the loop keeps, for the run that the request found.
pub record IsNumbered (exec : WorkflowExecution) (x : Batch) : Type 0 where
  pub same_key : x.exec.key ≡ exec.key
  pub numbered : Numbered exec.key exec.next_event_id x.events x.event_id

module _ (exec : WorkflowExecution) where
  append_event-IsNumbered :
      (kind : String) (payload : Bytes) {x : Batch}
      → IsNumbered exec x
      → IsNumbered exec (append_event kind payload x)
  unfolding append_event new_event
  append_event-IsNumbered kind payload {x} h = record {
    same_key = h.same_key;
    numbered =
        Numbered-append exec.key exec.next_event_id x.event_id x.events _ h.numbered h.same_key
          refl;
  }

  pub first_batch-IsNumbered :
      ⦃b : Backend⦄ (env : Env) (count : ℕ) → IsNumbered exec (first_batch env exec count)
  unfolding first_batch
  first_batch-IsNumbered env count =
      append_event-IsNumbered _ _ (record { same_key = refl; numbered = refl })

  module _ ⦃b : Backend⦄ (env : Env) where
    schedule_activity-IsNumbered :
        (k : ℕ) (attrs : ScheduleAttributes) {x : Batch}
        → IsNumbered exec x
        → IsNumbered exec (schedule_activity env k attrs x)
    unfolding schedule_activity
    schedule_activity-IsNumbered k attrs h =
        let y = append_event-IsNumbered _ _ h in
        record { same_key = y.same_key; numbered = y.numbered }

    start_timer-IsNumbered :
        (k : ℕ) (attrs : TimerAttributes) {x : Batch}
        → IsNumbered exec x
        → IsNumbered exec (start_timer env k attrs x)
    unfolding start_timer
    start_timer-IsNumbered k attrs h =
        let y = append_event-IsNumbered _ _ h in
        record { same_key = y.same_key; numbered = y.numbered }

    complete_workflow-IsNumbered :
        (result : Bytes) {x : Batch}
        → IsNumbered exec x
        → IsNumbered exec (complete_workflow env result x)
    unfolding complete_workflow
    complete_workflow-IsNumbered result h =
        let y = append_event-IsNumbered _ _ h in
        record { same_key = y.same_key; numbered = y.numbered }

    scheduled_with-IsNumbered :
        (k : ℕ) {x x' : Batch} (r : ScheduleAttributes × Option String)
        → IsNumbered exec x
        → scheduled_with env k x r ≡ ok x'
        → IsNumbered exec x'
    scheduled_with-IsNumbered k {x} (attrs, none) h e =
        subst (IsNumbered exec) (cc) (schedule_activity-IsNumbered k attrs {x = x} h)
    scheduled_with-IsNumbered k (attrs, some m) h e = cc

    timer_with-IsNumbered :
        (k : ℕ) {x x' : Batch} (r : TimerAttributes × Option String)
        → IsNumbered exec x
        → timer_with env k x r ≡ ok x'
        → IsNumbered exec x'
    timer_with-IsNumbered k {x} (attrs, none) h e =
        subst (IsNumbered exec) (cc) (start_timer-IsNumbered k attrs {x = x} h)
    timer_with-IsNumbered k (attrs, some m) h e = cc

    run_command-IsNumbered :
        (k : ℕ) (cmd : Command) {x x' : Batch}
        → IsNumbered exec x
        → run_command env k cmd x ≡ ok x'
        → IsNumbered exec x'
    unfolding run_command
    run_command-IsNumbered k cmd {x} h e =
        elim (Bool-cases (str_eq cmd.command_type "ScheduleActivityTask")) [
          | inl a ↦
              scheduled_with-IsNumbered k (unmarshal set_schedule cmd.attributes no_schedule) h
                (rw a at e)
          | inr a ↦ elim (Bool-cases (str_eq cmd.command_type "StartTimer")) [
            | inl t ↦
                timer_with-IsNumbered k (unmarshal set_timer cmd.attributes no_timer) h
                  (rw (a, t) at e)
            | inr t ↦ elim (Bool-cases (str_eq cmd.command_type "CompleteWorkflowExecution")) [
              | inl c ↦ subst (IsNumbered exec) (cc (rw (a, t, c) at e)) (
                  complete_workflow-IsNumbered (unmarshal set_result cmd.attributes nil).0 {x = x}
                    h)
              | inr c ↦ subst (IsNumbered exec) (cc (rw (a, t, c) at e)) h
            ]
          ]
        ]

    -- The commands that are accepted extend the batch by events numbered without a gap.
    pub run_commands-IsNumbered :
        (k : ℕ) (cmds : List Command) {x x' : Batch}
        → IsNumbered exec x
        → run_commands env k cmds x ≡ ok x'
        → IsNumbered exec x'
    unfolding run_commands
    run_commands-IsNumbered k [] h e = subst (IsNumbered exec) (cc) h
    run_commands-IsNumbered k (cmd ∷ rest) {x} h e =
        let (y, first, more) =
          >>=-eq-ok (run_command env k cmd x) (run_commands env (k + 1) rest) e in
        run_commands-IsNumbered (k + 1) rest (run_command-IsNumbered k cmd h first) more
