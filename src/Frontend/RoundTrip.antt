-- ===== src/Frontend/RoundTrip.antt =====
-- frontend/internal/token/token.go, a token made and read back.
use mini_workflow.Prelude.{sym, ap, ◌∙◌, false, ◌≡◌, refl, true, Bool, arith, eq_iff}
use mini_workflow.Prelude.Text.{equal_fold}
use mini_workflow.Prelude.Int.{ℤ, pos, negsuc, in_int32}
use mini_workflow.Result.{ok}
use mini_workflow.Matching.Service.{is_blank}
use mini_workflow.Codec.{base64_encode, base64_decode}
use mini_workflow.Codec.Decode.{unmarshal}
use mini_workflow.Frontend.Token.{TaskToken, encode, decode, token_json, set_token, is_zero}

is_zero-eq : (n : ℤ) → is_zero n ≡ true → n ≡ pos 0
is_zero-eq (pos n) h = ap pos (ground arith)
is_zero-eq (negsuc n) h = cc

-- A token read back is the token that was made, for every text and every attempt of 32 bits: the
-- fields that are left out of the document because they are empty or 0 come back as such.
pub decode-encode : (t : TaskToken) → in_int32 t.attempt ≡ true → decode (encode t) ≡ ok t
unfolding decode encode token_json set_token base64_encode base64_decode unmarshal equal_fold
decode-encode t h = whole (is_blank t.activity_id) (is_zero t.attempt) refl refl
  where
    no_activity : is_blank t.activity_id ≡ true → t ≡ record t { activity_id = "" }
    no_activity e = ap (λ a. record t { activity_id = a }) ((eq_iff t.activity_id "").0 e)

    no_attempt : is_zero t.attempt ≡ true → t ≡ record t { attempt = pos 0 }
    no_attempt e = ap (λ n. record t { attempt = n }) (is_zero-eq t.attempt e)

    whole :
        (c d : Bool) → is_blank t.activity_id ≡ c → is_zero t.attempt ≡ d → decode (encode t) ≡ ok t
    whole true true blank nought =
        rw (blank, nought)
          (ap ok (
            sym (
              no_activity blank
              ∙ ap (λ n. record t { activity_id = ""; attempt = n })
                  (is_zero-eq t.attempt nought))))
    whole true false blank tried = rw (blank, tried, h) (ap ok (sym (no_activity blank)))
    whole false true named nought = rw (named, nought) (ap ok (sym (no_attempt nought)))
    whole false false named tried = rw (named, tried, h) refl
