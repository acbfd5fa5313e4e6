-- ===== src/Common/Int.antt =====
-- Signed 64-bit durations, as `time.Duration` holds them, and instants in nanoseconds.
use Prim.Native.Nat.{ℕ, ◌+◌, ◌-◌, ◌/◌, ◌%◌, ◌^◌}
use mathlib.Core.Bool.{Bool, true, false}
use gitdr.Common.Tests.{ltb, leb, if◌then◌else◌}

-- `negsuc n` is -(n + 1).
pub data ℤ : Type 0 where
  pos : ℕ → ℤ
  negsuc : ℕ → ℤ

abbrev pub is_neg : ℤ → Bool
is_neg (pos _) = false
is_neg (negsuc _) = true

-- `a < b` and `a <= 0` on signed integers.
abbrev pub lt_int : ℤ → ℤ → Bool
lt_int (pos a) (pos b) = ltb a b
lt_int (pos _) (negsuc _) = false
lt_int (negsuc _) (pos _) = true
lt_int (negsuc a) (negsuc b) = ltb b a

abbrev pub le_zero : ℤ → Bool
le_zero (pos n) = leb n 0
le_zero (negsuc _) = true

-- `min(a, b)`.
abbrev pub min_int : ℤ → ℤ → ℤ
min_int a b = if lt_int b a then b else a

-- `a / d` for a positive `d`: Go rounds towards zero.
abbrev pub div_int : ℤ → ℕ → ℤ
div_int (pos n) d = pos (n / d)
div_int (negsuc n) d = let q = (n + 1) / d in if leb q 0 then pos 0 else negsuc (q - 1)

-- What an int64 keeps of an unsigned product.
unfoldable pub wrap64 : ℕ → ℤ
wrap64 n = let m = n % 2 ^ 64 in if ltb m (2 ^ 63) then pos m else negsuc (2 ^ 64 - 1 - m)

-- `t.Sub(u)`, held at the ends of the int64 range as Go holds it.
unfoldable pub sub_time : ℕ → ℕ → ℤ
sub_time t u =
    if leb u t
    then (if ltb (t - u) (2 ^ 63) then pos (t - u) else pos (2 ^ 63 - 1))
    else (if leb (u - t) (2 ^ 63) then negsuc (u - t - 1) else negsuc (2 ^ 63 - 1))

-- The instant `d` after `t`, which is not before the year 1.
unfoldable pub add_time : ℕ → ℤ → ℕ
add_time t (pos d) = t + d
add_time t (negsuc d) = t - (d + 1)

abbrev pub nanos_per_second : ℕ
nanos_per_second = 1000000000

abbrev pub nanos_per_hour : ℕ
nanos_per_hour = 3600000000000

abbrev pub nanos_per_day : ℕ
nanos_per_day = 86400000000000
