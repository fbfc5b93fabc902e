-- ===== src/Base/Word.antt =====
-- An `i64` as its bit pattern, a number below 2 ^ 64, with the standard library's wrapping
-- operations and signed comparisons.
use Prim.Native.Nat.{ℕ, ◌+◌, ◌-◌, ◌*◌, ◌/◌, ◌%◌, ◌^◌, ◌<◌}
use mathlib.Core.Bool.{Bool, true, false, xor}
use mathlib.Core.Option.{Option, none, some}
use model_lib.Base.Tests.{ltb, leb, ◌==◌, if◌then◌else◌}

abbrev pub IsWord : ℕ → Type 0
IsWord a = a < 2 ^ 64

unfoldable pub wrapping_add : ℕ → ℕ → ℕ
wrapping_add a b = (a + b) % 2 ^ 64

unfoldable pub wrapping_sub : ℕ → ℕ → ℕ
wrapping_sub a b = (a + 2 ^ 64 - b) % 2 ^ 64

unfoldable pub wrapping_mul : ℕ → ℕ → ℕ
wrapping_mul a b = a * b % 2 ^ 64

unfoldable pub wrapping_neg : ℕ → ℕ
wrapping_neg a = (2 ^ 64 - a) % 2 ^ 64

abbrev pub is_negative : ℕ → Bool
is_negative a = leb (2 ^ 63) a

abbrev pub magnitude : ℕ → ℕ
magnitude a = if is_negative a then 2 ^ 64 - a else a

abbrev pub with_sign : Bool → ℕ → ℕ
with_sign negative m = if negative then (2 ^ 64 - m) % 2 ^ 64 else m % 2 ^ 64

-- Both round towards zero, and panic where the divisor is zero.
unfoldable pub wrapping_div : ℕ → ℕ → Option ℕ
wrapping_div a b =
    if b == 0
    then none
    else some (with_sign (xor (is_negative a) (is_negative b)) (magnitude a / magnitude b))

unfoldable pub wrapping_rem : ℕ → ℕ → Option ℕ
wrapping_rem a b =
    if b == 0 then none else some (with_sign (is_negative a) (magnitude a % magnitude b))

-- The signed order is the order of the patterns moved by 2 ^ 63.
unfoldable pub signed_lt : ℕ → ℕ → Bool
signed_lt a b = ltb ((a + 2 ^ 63) % 2 ^ 64) ((b + 2 ^ 63) % 2 ^ 64)

unfoldable pub signed_le : ℕ → ℕ → Bool
signed_le a b = leb ((a + 2 ^ 63) % 2 ^ 64) ((b + 2 ^ 63) % 2 ^ 64)

-- `b as i64`
abbrev pub as_word : Bool → ℕ
as_word true = 1
as_word false = 0
