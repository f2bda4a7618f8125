-- ===== src/Frontend/Errors.antt =====
-- frontend/internal/service/frontend.go: the errors of the calls behind the frontend.
use mini_workflow.Prelude.{String, Bool, true, false, [], ◌∷◌, concat}
use mini_workflow.Api.{Status, Code, not_found, unavailable, deadline_exceeded}

-- An `error` of a client: a gRPC status, `context.DeadlineExceeded`, or any other.
pub data Error : Type 0 where
  status : Status → Error
  context_deadline : Error
  plain : String → Error

abbrev pub unavailable_error : String → String → Error
unavailable_error what m =
    status (record { code = unavailable; message = concat (what ∷ ": " ∷ m ∷ []) })

abbrev pub error_text : Error → String
error_text (status s) = s.message
error_text context_deadline = "context deadline exceeded"
error_text (plain m) = m

abbrev map_status : Code → Status → Error
map_status not_found s = status s
map_status unavailable s = unavailable_error "downstream unavailable" s.message
map_status deadline_exceeded s = unavailable_error "downstream unavailable" s.message
map_status _ s = status s

unfoldable pub map_downstream_error : Error → Error
map_downstream_error (status s) = map_status s.code s
map_downstream_error e = unavailable_error "downstream error" (error_text e)

abbrev is_deadline : Code → Bool
is_deadline deadline_exceeded = true
is_deadline _ = false

unfoldable pub is_timeout : Error → Bool
is_timeout (status s) = is_deadline s.code
is_timeout context_deadline = true
is_timeout (plain m) = false
