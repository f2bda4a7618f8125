-- ===== src/History/Backend.antt =====
-- What the code relies on and does not implement: `github.com/google/uuid`, and what PostgreSQL
-- decides by the types of the columns.
use mini_workflow.Prelude.{String, ◌≡◌, Bool, Option, some}
use mini_workflow.Codec.{Bytes}
use mini_workflow.History.Models.{Uuid, WorkflowExecution, HistoryEvent, ActivityState, Timer}

pub record Backend : Type 0 where
  -- `uuid.Parse` and `UUID.String`
  pub parse_uuid : String → Option Uuid
  pub print_uuid : Uuid → String
  pub parse_uuid-print_uuid : (u : Uuid) → parse_uuid (print_uuid u) ≡ some u
  -- the server's refusal of a row: a text that is too long, a `jsonb` that is no JSON
  pub refuses_execution : WorkflowExecution → Option String
  pub refuses_event : HistoryEvent → Option String
  pub refuses_activity : ActivityState → Option String
  pub refuses_timer : Timer → Option String
  -- `task_token::text LIKE '%' || activity_id || '%'`
  pub token_is_like : Bytes → String → Bool
