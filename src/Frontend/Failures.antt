-- ===== src/Frontend/Failures.antt =====
-- What the callers of the frontend get where a request fails.
use mini_workflow.Prelude.{
  ◌≡◌, refl, String, false, ◌||◌, inl, inr, Bool-cases, if◌then◌else◌, Option, none, some,
}
use mini_workflow.Result.{Result, ok, err}
use mini_workflow.Codec.{Bytes}
use mini_workflow.Codec.Decode.{unmarshal}
use mini_workflow.Api.{Status}
use mini_workflow.Matching.Service.{is_blank}
use mini_workflow.Frontend.Token.{TaskToken, decode}
use mini_workflow.Frontend.Errors.{Error, status, map_downstream_error, is_timeout}
use mini_workflow.Frontend.Clients.{Exec, ◌>>=◌, continue, HistoryClient, MatchingClient}
use mini_workflow.Frontend.Service.{
  mapped, entries, downstream, read_matching_token, lift, set_entry, start_workflow,
  signal_workflow, query_workflow, get_workflow_execution_history, poll_workflow_task_queue,
  poll_activity_task_queue, respond_workflow_task_completed, respond_workflow_task_failed,
  respond_activity_task_completed, respond_activity_task_failed, record_activity_task_heartbeat,
  worker_token, polled_workflow, polled_activity, with_history,
}
use mini_workflow.Frontend.Laws.{map_downstream_error-timeout}
use mini_workflow.Frontend.Handler.{
  Request, Reply, handle, replied, workflow_start, workflow_signal, workflow_query, history_read,
  workflow_task_poll, workflow_task_completed, workflow_task_failed, activity_task_poll,
  activity_task_completed, activity_task_failed, activity_task_heartbeat, run_started, done,
  query_result, workflow_task, activity_task, cancel_requested,
}

abbrev pub IsClean : Error → Type 0
IsClean e = ((s : Status) × (e ≡ status s)) × (is_timeout e ≡ false)

-- What a call returns: a result, or such an error.
abbrev pub Clean : {S A : Type 0} → Result Error A × S → Type 0
Clean (ok a, s) = Unit
Clean (err e, s) = IsClean e

mapped-Clean : (e : Error) → IsClean (map_downstream_error e)
mapped-Clean e = let (s, own, late, _, _) = map_downstream_error-timeout e in ((s, own), late)

module _ {S A : Type 0} where
  downstream-Clean : (r : Result Error A × S) → Clean (mapped r)
  downstream-Clean (ok a, s) = tt
  downstream-Clean (err e, s) = mapped-Clean e

  continue-Clean :
      {B : Type 0} (r : Result Error A × S) (f : A → Exec S B)
      → Clean r
      → ((a : A) (s : S) → Clean (f a s))
      → Clean (continue r f)
  continue-Clean (ok a, s) f h g = g a s
  continue-Clean (err e, s) f h g = h

  replied-Clean : (reply : A → Reply) (r : Result Error A × S) → Clean r → Clean (replied reply r)
  replied-Clean reply (ok a, s) h = tt
  replied-Clean reply (err e, s) h = h

-- A token that does not decode is an argument that is not valid, or an internal error.
token-Clean : {S : Type 0} (r : Result String TaskToken) (s : S) → Clean (worker_token r s)
unfolding is_timeout
token-Clean (ok t) s = tt
token-Clean (err e) s = ((_, refl), refl)

entries-Clean :
    {S : Type 0} (r : (String → String) × Option String) (s : S) → Clean (lift (entries r) s)
unfolding is_timeout
entries-Clean (m, none) s = tt
entries-Clean (m, some e) s = ((_, refl), refl)

matching_token-Clean : {S : Type 0} (t : Bytes) (s : S) → Clean (lift (read_matching_token t) s)
unfolding read_matching_token
matching_token-Clean t s = entries-Clean (unmarshal set_entry t (λ _. "")) s

module _ {S : Type 0} (history : HistoryClient S) (matching : MatchingClient S) where
  start-Clean : (r : _) (s : S) → Clean (start_workflow history matching r s)
  unfolding start_workflow is_timeout
  start-Clean r s = elim (Bool-cases (is_blank r.workflow_id || is_blank r.workflow_type)) [
    | inl blank ↦ rw blank ((_, refl), refl)
    | inr named ↦ rw named (
        downstream-Clean
          (history.record_workflow_execution_started (record { start_request = some r }) s))
  ]

  polled_failure :
      {A : Type 0} (none_yet : A) (e : Error) (s : S)
      → Clean ((if is_timeout e then ok none_yet else err (map_downstream_error e)), s)
  polled_failure none_yet e s = elim (Bool-cases (is_timeout e)) [
    | inl late ↦ rw late tt
    | inr other ↦ rw other (mapped-Clean e)
  ]

  polled_workflow-Clean : (r : _) → Clean (polled_workflow history matching r)
  polled_workflow-Clean (ok polled, s) =
      continue-Clean (lift (read_matching_token polled.task_token) s)
        (with_history history matching polled) (matching_token-Clean polled.task_token s)
        (λ m s'.
          continue-Clean
            (downstream
              (history.get_workflow_execution_history
                (record { workflow_id = m "workflow_id"; run_id = m "run_id" }))
              s')
            _
            (downstream-Clean (
              history.get_workflow_execution_history
                (record { workflow_id = m "workflow_id"; run_id = m "run_id" }) s'))
            (λ events s''. tt))
  polled_workflow-Clean (err e, s) = polled_failure _ e s

  polled_activity-Clean : (r : _) → Clean (polled_activity history matching r)
  polled_activity-Clean (ok polled, s) =
      continue-Clean (lift (read_matching_token polled.task_token) s) _
        (matching_token-Clean polled.task_token s) (λ m s'. tt)
  polled_activity-Clean (err e, s) = polled_failure _ e s

  with_token-Clean :
      {A : Type 0} (token : Bytes) (f : TaskToken → Exec S A) (s : S)
      → ((t : TaskToken) (s' : S) → Clean (downstream (f t) s'))
      → Clean ((worker_token (decode token) >>= λ t. downstream (f t)) s)
  with_token-Clean token f s h =
      continue-Clean (worker_token (decode token) s) (λ t. downstream (f t))
        (token-Clean (decode token) s) h

  -- Whatever the other services answer and whatever the client sent, an error that the frontend
  -- returns is a gRPC status, and no time-out.
  pub handle-Clean : (req : Request) (s : S) → Clean (handle history matching req s)
  unfolding handle signal_workflow query_workflow get_workflow_execution_history
      poll_workflow_task_queue poll_activity_task_queue respond_workflow_task_completed
      respond_workflow_task_failed respond_activity_task_completed respond_activity_task_failed
      record_activity_task_heartbeat
  handle-Clean (workflow_start r) s =
      replied-Clean run_started (start_workflow history matching r s) (start-Clean r s)
  handle-Clean (workflow_signal r) s =
      replied-Clean (λ _. done) (signal_workflow history matching r s)
        (downstream-Clean (history.signal_workflow_execution r s))
  handle-Clean (workflow_query r) s =
      replied-Clean query_result (query_workflow history matching r s)
        (downstream-Clean (history.query_workflow_execution r s))
  handle-Clean (history_read r) s =
      replied-Clean Reply.history (get_workflow_execution_history history matching r s)
        (downstream-Clean (history.get_workflow_execution_history r s))
  handle-Clean (workflow_task_poll r) s =
      replied-Clean workflow_task (poll_workflow_task_queue history matching r s)
        (polled_workflow-Clean (matching.poll_workflow_task_queue r s))
  handle-Clean (activity_task_poll r) s =
      replied-Clean activity_task (poll_activity_task_queue history matching r s)
        (polled_activity-Clean (matching.poll_activity_task_queue r s))
  handle-Clean (workflow_task_completed r) s =
      replied-Clean (λ _. done) (respond_workflow_task_completed history matching r s)
        (with_token-Clean r.task_token
          (λ t.
            history.record_workflow_task_completed
              (record { workflow_id = t.workflow_id; run_id = t.run_id; commands = r.commands }))
          s
          (λ t s'. downstream-Clean (
            history.record_workflow_task_completed
              (record { workflow_id = t.workflow_id; run_id = t.run_id; commands = r.commands })
              s')))
  handle-Clean (workflow_task_failed r) s =
      replied-Clean (λ _. done) (respond_workflow_task_failed history matching r s)
        (with_token-Clean r.task_token
          (λ t.
            history.record_workflow_task_failed
              (record { workflow_id = t.workflow_id; run_id = t.run_id; cause = r.cause }))
          s
          (λ t s'. downstream-Clean (
            history.record_workflow_task_failed
              (record { workflow_id = t.workflow_id; run_id = t.run_id; cause = r.cause }) s')))
  handle-Clean (activity_task_completed r) s =
      replied-Clean (λ _. done) (respond_activity_task_completed history matching r s)
        (with_token-Clean r.task_token
          (λ t. history.record_activity_task_completed (record {
            workflow_id = t.workflow_id;
            run_id = t.run_id;
            activity_id = t.activity_id;
            result = r.result;
          }))
          s
          (λ t s'. downstream-Clean (
            history.record_activity_task_completed
              (record {
                workflow_id = t.workflow_id;
                run_id = t.run_id;
                activity_id = t.activity_id;
                result = r.result;
              })
              s')))
  handle-Clean (activity_task_failed r) s =
      replied-Clean (λ _. done) (respond_activity_task_failed history matching r s)
        (with_token-Clean r.task_token
          (λ t. history.record_activity_task_failed (record {
            workflow_id = t.workflow_id;
            run_id = t.run_id;
            activity_id = t.activity_id;
            reason = r.reason;
          }))
          s
          (λ t s'. downstream-Clean (
            history.record_activity_task_failed
              (record {
                workflow_id = t.workflow_id;
                run_id = t.run_id;
                activity_id = t.activity_id;
                reason = r.reason;
              })
              s')))
  handle-Clean (activity_task_heartbeat r) s =
      replied-Clean cancel_requested (record_activity_task_heartbeat history matching r s) (
        with_token-Clean r.task_token (λ t. history.record_activity_task_heartbeat r) s
          (λ t s'. downstream-Clean (history.record_activity_task_heartbeat r s')))
