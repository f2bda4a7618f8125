-- ===== src/Prelude/Int.antt =====
-- Signed integers of 64 and 32 bits, and instants and durations in nanoseconds.
use Prim.Native.Nat.{ℕ, suc, ◌+◌, ◌-◌, ◌*◌, ◌/◌, ◌%◌, ◌<◌}
use mathlib.Core.Path.{◌≡◌, refl}
use mathlib.Core.Bool.{Bool, true}
use native.Mathlib.Omega.{arith}
use mini_workflow.Prelude.Tests.{ltb, leb, if◌then◌else◌}

-- `negsuc n` is -(n + 1).
pub data ℤ : Type 0 where
  pos : ℕ → ℤ
  negsuc : ℕ → ℤ

abbrev pub pos_part : ℤ → ℕ
pos_part (pos n) = n
pos_part (negsuc n) = 0

abbrev pub neg_part : ℤ → ℕ
neg_part (pos n) = 0
neg_part (negsuc n) = suc n

-- a - b, as an integer.
abbrev pub sub_ℕ : ℕ → ℕ → ℤ
sub_ℕ a b = if leb b a then pos (a - b) else negsuc (b - a - 1)

infixl 65 ◌+ℤ◌ ◌-ℤ◌
unfoldable pub ◌+ℤ◌ : ℤ → ℤ → ℤ
a +ℤ b = sub_ℕ (pos_part a + pos_part b) (neg_part a + neg_part b)

unfoldable pub ◌-ℤ◌ : ℤ → ℤ → ℤ
a -ℤ b = sub_ℕ (pos_part a + neg_part b) (neg_part a + pos_part b)

abbrev pub ltz : ℤ → ℤ → Bool
ltz a b = ltb (pos_part a + neg_part b) (pos_part b + neg_part a)

abbrev pub int64_mod : ℕ
int64_mod = 18446744073709551616

-- An `int64` as its bit pattern, and back.
unfoldable pub to_bits : ℤ → ℕ
to_bits (pos n) = n % int64_mod
to_bits (negsuc n) = int64_mod - 1 - n % int64_mod

unfoldable pub of_bits : ℕ → ℤ
of_bits n = if ltb n 9223372036854775808 then pos n else negsuc (int64_mod - 1 - n)

pub to_bits-of_bits : (n : ℕ) → n < int64_mod → to_bits (of_bits n) ≡ n
unfolding to_bits of_bits
to_bits-of_bits n h = ground arith

-- Conversion to `int64` and to `int32` wraps.
unfoldable pub wrap64 : ℤ → ℤ
unfolding to_bits of_bits
wrap64 a = of_bits (to_bits a)

unfoldable pub wrap32 : ℤ → ℤ
wrap32 (pos n) =
    let m = n % 4294967296 in if ltb m 2147483648 then pos m else negsuc (4294967295 - m)
wrap32 (negsuc n) =
    let m = n % 4294967296 in if ltb m 2147483648 then negsuc m else pos (4294967295 - m)

abbrev pub in_int64 : ℤ → Bool
in_int64 (pos n) = ltb n 9223372036854775808
in_int64 (negsuc n) = ltb n 9223372036854775808

abbrev pub in_int32 : ℤ → Bool
in_int32 (pos n) = ltb n 2147483648
in_int32 (negsuc n) = ltb n 2147483648

pub wrap32_lem : (a : ℤ) → in_int32 a ≡ true → wrap32 a ≡ a
unfolding wrap32
wrap32_lem (pos n) h = ground arith
wrap32_lem (negsuc n) h = ground arith

-- `x++` and `x + 1` on an `int64` held by its bit pattern, and `x < y` of two such.
unfoldable pub inc64 : ℕ → ℕ
inc64 n = (n + 1) % int64_mod

unfoldable pub lt64 : ℕ → ℕ → Bool
lt64 a b = ltb ((a + 9223372036854775808) % int64_mod) ((b + 9223372036854775808) % int64_mod)

pub inc64_lem : (n : ℕ) → n + 1 < int64_mod → inc64 n ≡ n + 1
unfolding inc64
inc64_lem n h = omega arith

pub inc64-lt : (n : ℕ) → inc64 n < int64_mod
unfolding inc64
inc64-lt n = omega arith

-- `time.Duration(n) * time.Second`, an `int64` of nanoseconds.
unfoldable pub seconds : ℤ → ℤ
unfolding wrap64
seconds (pos n) = wrap64 (pos (n * 1000000000))
seconds (negsuc n) = wrap64 (negsuc (n * 1000000000 + 999999999))

-- `t.UnixMilli()` of an instant in nanoseconds, rounded down.
unfoldable pub unix_milli : ℤ → ℤ
unix_milli (pos n) = pos (n / 1000000)
unix_milli (negsuc n) = negsuc (n / 1000000)

-- `t.Sub(u)`, which stops at the ends of `time.Duration`.
unfoldable pub sub_time : ℤ → ℤ → ℤ
unfolding ◌-ℤ◌
sub_time t u =
    let d = t -ℤ u in
    if in_int64 d
    then d
    else if ltz d (pos 0)
    then negsuc 9223372036854775807
    else pos 9223372036854775807

seconds_ten : seconds (pos 10) ≡ pos 10000000000
unfolding seconds
seconds_ten = refl

seconds_negative : seconds (negsuc 0) ≡ negsuc 999999999
unfolding seconds
seconds_negative = refl
