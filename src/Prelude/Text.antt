-- ===== src/Prelude/Text.antt =====
-- Texts are compared whole, and put together as `fmt.Sprintf` does.
use Prim.Native.Char.{code}
use Prim.Native.Nat.{ℕ, ◌+◌}
use Prim.Native.String.{String, ◌++◌}
use mathlib.Core.Bool.{Bool, true, false, ◌&&◌}
use mathlib.Core.List.{List}
use text.Mathlib.Text.{◌==◌}
use mini_workflow.Prelude.Tests.{leb, ◌==◌ as code_eq, if◌then◌else◌}
pub use text.Mathlib.TextEquality.{eq_iff}
pub use text.Mathlib.TextPositions.{eq_refl}

abbrev pub str_eq : String → String → Bool
str_eq a b = a == b

unfoldable pub concat : List String → String
concat List.[] = ""
concat (List.◌∷◌ s rest) = s ++ concat rest

abbrev lower : ℕ → ℕ
lower n = if leb b'A' n && leb n b'Z' then n + 32 else n

-- Equality up to the case of ASCII letters.
unfoldable pub equal_fold : String → String → Bool
equal_fold String.[] String.[] = true
equal_fold (String.◌∷◌ c s) (String.◌∷◌ d t) =
    code_eq (lower (code c)) (lower (code d)) && equal_fold s t
equal_fold _ _ = false
