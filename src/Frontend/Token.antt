-- ===== src/Frontend/Token.antt =====
-- frontend/internal/token/token.go: the token that a worker gets with a task, base64 of JSON.
use mini_workflow.Prelude.{
  String, Bool, false, Option, none, some, [], ◌∷◌, concat, leb, if◌then◌else◌,
}
use mini_workflow.Prelude.Int.{ℤ, pos, negsuc}
use mini_workflow.Result.{Result, ok, err}
use mini_workflow.Codec.{
  Bytes, Fields, json, text, number, object, end, field, base64_encode, base64_decode,
}
use mini_workflow.Codec.Decode.{Setter, set_text, set_int32, in_field, names, unmarshal}
use mini_workflow.Matching.Service.{is_blank}

pub record TaskToken : Type 0 where
  pub workflow_id : String
  pub run_id : String
  pub activity_id : String
  pub attempt : ℤ

abbrev pub no_token : TaskToken
no_token = record { workflow_id = ""; run_id = ""; activity_id = ""; attempt = pos 0 }

-- `omitempty`
abbrev pub text_unless_empty : String → String → Fields → Fields
text_unless_empty name s rest = if is_blank s then rest else field name (text s) rest

abbrev pub is_zero : ℤ → Bool
is_zero (pos n) = leb n 0
is_zero (negsuc n) = false

abbrev pub number_unless_zero : String → ℤ → Fields → Fields
number_unless_zero name n rest = if is_zero n then rest else field name (number n) rest

unfoldable pub token_json : TaskToken → Bytes
token_json t = json (
    object (
      field "wf_id" (text t.workflow_id) (
        field "run_id" (text t.run_id)
          (text_unless_empty "act_id" t.activity_id (number_unless_zero "attempt" t.attempt end)))))

unfoldable pub set_token : Setter TaskToken
set_token k v t =
    if names k "wf_id"
    then in_field (λ s. record t { workflow_id = s }) (set_text v t.workflow_id)
    else if names k "run_id"
    then in_field (λ s. record t { run_id = s }) (set_text v t.run_id)
    else if names k "act_id"
    then in_field (λ s. record t { activity_id = s }) (set_text v t.activity_id)
    else if names k "attempt"
    then in_field (λ n. record t { attempt = n }) (set_int32 v t.attempt)
    else (t, false)

-- The JSON of a token can always be made, and so can its base64.
unfoldable pub encode : TaskToken → Bytes
encode t = base64_encode (token_json t)

abbrev whole : TaskToken × Option String → Result String TaskToken
whole (t, none) = ok t
whole (t, some e) = err (concat ("unmarshal token: " ∷ e ∷ []))

abbrev from_base64 : Result String Bytes → Result String TaskToken
from_base64 (err e) = err (concat ("decode token: " ∷ e ∷ []))
from_base64 (ok document) = whole (unmarshal set_token document no_token)

unfoldable pub decode : Bytes → Result String TaskToken
decode token = from_base64 (base64_decode token)
