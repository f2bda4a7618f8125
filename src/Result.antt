-- ===== src/Result.antt =====
-- Results of fallible code, at any type of errors, and the conditions under which code stops.
use mini_workflow.Prelude.{String, ◌≡◌, refl, Bool, true, false, Option, none, some}

pub data Result {ℓ κ} (E : Type ℓ) (A : Type κ) : Type (ℓ ⊔ κ) where
  ok : A → Result E A
  err : E → Result E A

-- A call that fails where its connection does.
abbrev pub unless_fault {ℓ} : {A : Type ℓ} → Option String → Result String A → Result String A
unless_fault none r = r
unless_fault (some e) r = err e

infixl 5 ◌>>=◌
abbrev pub ◌>>=◌ {ℓ κ μ} :
    {E : Type ℓ} {A : Type κ} {B : Type μ} → Result E A → (A → Result E B) → Result E B
ok value >>= next = next value
err failure >>= next = err failure

abbrev pub refuse_if : {E : Type 0} → Bool → E → Result E (Unit {0})
refuse_if true e = err e
refuse_if false e = ok tt

abbrev pub or_err : {E A : Type 0} → Option A → E → Result E A
or_err none e = err e
or_err (some a) e = ok a

infixl 5 ◌>>◌
abbrev pub ◌>>◌ {ℓ μ} : {E : Type ℓ} {B : Type μ} → Result E (Unit {0}) → Result E B → Result E B
first >> second = first >>= λ done. second

-- A chain that succeeds has succeeded at both ends.
pub >>=-eq-ok {ℓ κ μ} :
    {Fault : Type ℓ} {From : Type κ} {To : Type μ} (call : Result Fault From)
    (rest : From → Result Fault To) {answer : To}
    → (call >>= rest) ≡ ok answer
    → (value : From) × (call ≡ ok value) × (rest value ≡ ok answer)
>>=-eq-ok (ok value) rest done = (value, refl, done)
>>=-eq-ok (err failure) rest done = cc
