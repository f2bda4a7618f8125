-- ===== src/Codec/Decode.antt =====
-- `json.Unmarshal` into a struct: each name of the document sets the field that it fits, exactly
-- or up to case; a value of another type is an error, and the other fields are still set.
use mini_workflow.Prelude.{
  String, Bool, true, false, ◌||◌, Option, none, some, equal_fold, if◌then◌else◌,
}
use mini_workflow.Prelude.Int.{ℤ, in_int64, in_int32}
use mini_workflow.Codec.{
  Bytes, Json, Fields, nil, json, null, number, text, blob, object, end, field,
}

-- What a field holds afterwards, and whether its value had another type.
abbrev pub Setter : Type 0 → Type 0
Setter S = String → Json → S → S × Bool

abbrev pub set_text : Json → String → String × Bool
set_text (text s) old = (s, false)
set_text null old = (old, false)
set_text _ old = (old, true)

abbrev pub set_blob : Json → Bytes → Bytes × Bool
set_blob (blob b) old = (b, false)
set_blob null old = (nil, false)
set_blob _ old = (old, true)

abbrev pub set_int64 : Json → ℤ → ℤ × Bool
set_int64 (number n) old = if in_int64 n then (n, false) else (old, true)
set_int64 null old = (old, false)
set_int64 _ old = (old, true)

abbrev pub set_int32 : Json → ℤ → ℤ × Bool
set_int32 (number n) old = if in_int32 n then (n, false) else (old, true)
set_int32 null old = (old, false)
set_int32 _ old = (old, true)

abbrev pub in_field : {A S : Type 0} → (A → S) → A × Bool → S × Bool
in_field put (a, wrong) = (put a, wrong)

unfoldable pub set_fields : {S : Type 0} → Setter S → Fields → S → S × Bool
set_fields setter end s = (s, false)
set_fields setter (field k v rest) s =
    let (t, wrong) = setter k v s in let (u, more) = set_fields setter rest t in (u, wrong || more)

abbrev type_error : {S : Type 0} → S × Bool → S × Option String
type_error (s, true) = (s, some "json: cannot unmarshal value into Go value")
type_error (s, false) = (s, none)

-- The struct afterwards, also where an error is reported.
unfoldable pub unmarshal : {S : Type 0} → Setter S → Bytes → S → S × Option String
unfolding set_fields
unmarshal setter (json (object fs)) s = type_error (set_fields setter fs s)
unmarshal setter (json null) s = (s, none)
unmarshal setter (json _) s = (s, some "json: cannot unmarshal value into Go value")
unmarshal setter _ s = (s, some "invalid character in JSON text")

abbrev pub names : String → String → Bool
names key name = equal_fold key name
