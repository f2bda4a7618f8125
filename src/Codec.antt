-- ===== src/Codec.antt =====
-- Byte strings as the services pass them on: `encoding/json` and `encoding/base64` of the Go
-- library. A byte string is written as the operation that made it, so a JSON text stands for the
-- value that it denotes; `raw` holds bytes that are neither JSON nor base64 text.
pub mod Decode
use mini_workflow.Prelude.{ℕ, String, ◌≡◌, refl, Bool, true, false, List, [], ◌∷◌}
use mini_workflow.Prelude.Int.{ℤ}
use mini_workflow.Result.{Result, ok, err}

mutual
  pub data Bytes : Type 0 where
    nil : Bytes
    raw : List ℕ → Bytes
    json : Json → Bytes
    base64 : Bytes → Bytes

  pub data Json : Type 0 where
    null other : Json
    boolean : Bool → Json
    number : ℤ → Json
    text : String → Json
    -- a string that holds the base64 text of a `[]byte`
    blob : Bytes → Json
    -- a string that holds a `time.Time`
    instant : ℤ → Json
    object : Fields → Json

  pub data Fields : Type 0 where
    end : Fields
    field : String → Json → Fields → Fields

abbrev pub empty : Bytes
empty = raw []

abbrev pub is_empty : Bytes → Bool
is_empty nil = true
is_empty (raw []) = true
is_empty _ = false

-- A `[]byte` in a document: `null` if it is nil.
abbrev pub blob_of : Bytes → Json
blob_of nil = null
blob_of b = blob b

unfoldable pub base64_encode : Bytes → Bytes
base64_encode nil = empty
base64_encode (raw []) = empty
base64_encode b = base64 b

unfoldable pub base64_decode : Bytes → Result String Bytes
base64_decode nil = ok empty
base64_decode (raw []) = ok empty
base64_decode (base64 b) = ok b
base64_decode _ = err "illegal base64 data"

pub base64_decode-base64_encode : (j : Json) → base64_decode (base64_encode (json j)) ≡ ok (json j)
unfolding base64_decode base64_encode
base64_decode-base64_encode j = refl
