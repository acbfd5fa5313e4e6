-- ===== src/Common/Calendar.antt =====
-- UTC dates and the two layouts in which gitdr writes them. An instant counts nanoseconds from
-- the start of the year 1, Go's zero time.
use Prim.Native.Nat.{ℕ, zero, suc, ◌+◌, ◌-◌, ◌*◌, ◌/◌, ◌%◌, min}
use mathlib.Core.Bool.{Bool, true, false, ◌&&◌}
use mathlib.Core.List.{[], ◌∷◌, ◌++◌}
use mathlib.Core.Option.{Option, none, some}
use gitdr.Common.Tests.{if◌then◌else◌, ◌==◌, ltb, leb}
use gitdr.Common.Lists.{is_nil}
use gitdr.Common.Bytes.{Text, codes}
use gitdr.Common.Int.{nanos_per_second, nanos_per_day}

pub record CivilDate : Type 0 where
  pub year : ℕ
  pub month : ℕ
  pub day : ℕ

-- 1 in a leap year, else 0.
leap_day : ℕ → ℕ
leap_day y =
    let by_100 = if y % 400 == 0 then 1 else 0 in
    let by_4 = if y % 100 == 0 then by_100 else 1 in if y % 4 == 0 then by_4 else 0

-- The long months alternate, and July and August are both long.
days_in_month : ℕ → ℕ → ℕ
unfolding leap_day
days_in_month y m = if m == 2 then 28 + leap_day y else 30 + (m + m / 8) % 2

-- The month and the day of a day of the year, from a month on. Twelve rounds are enough.
walk_months : ℕ → ℕ → ℕ → ℕ → ℕ × ℕ
unfolding days_in_month
walk_months zero y m rest = (m, rest + 1)
walk_months (suc fuel) y m rest =
    let later = walk_months fuel y (m + 1) (rest - days_in_month y m) in
    if ltb rest (days_in_month y m) then (m, rest + 1) else later

-- The day counts from 1 January of the year 1. Whole cycles of 400, 100, 4 and 1 years are taken
-- off; the last of four centuries, or of four years, has the day that is left over.
unfoldable pub civil_of_day : ℕ → CivilDate
unfolding walk_months
civil_of_day n =
    let in_cycle = n % 146097 in
    let centuries = min 3 (in_cycle / 36524) in
    let in_century = in_cycle - centuries * 36524 in
    let in_four = in_century % 1461 in
    let years = min 3 (in_four / 365) in
    let year' = 400 * (n / 146097) + 100 * centuries + 4 * (in_century / 1461) + years + 1 in
    let (month', day') = walk_months 12 year' 1 (in_four - years * 365) in
    record { year = year'; month = month'; day = day' }

days_before_month : ℕ → ℕ → ℕ
unfolding days_in_month
days_before_month y zero = 0
days_before_month y (suc zero) = 0
days_before_month y (suc (suc m)) = days_before_month y (suc m) + days_in_month y (suc m)

unfoldable pub day_of_civil : CivilDate → ℕ
unfolding days_before_month
day_of_civil d =
    let whole_years = d.year - 1 in
    365 * whole_years
    + whole_years / 4
    - whole_years / 100
    + whole_years / 400
    + days_before_month d.year d.month
    + (d.day - 1)

abbrev digit : ℕ → ℕ
digit n = b'0' + n % 10

abbrev two_digits : ℕ → Text
two_digits n = digit (n / 10) ∷ digit n ∷ []

abbrev four_digits : ℕ → Text
four_digits n = digit (n / 1000) ∷ digit (n / 100) ∷ digit (n / 10) ∷ digit n ∷ []

-- "20060102" and "2006-01-02", for years below 10000.
unfoldable pub compact_date : ℕ → Text
unfolding civil_of_day
compact_date t =
    let d = civil_of_day (t / nanos_per_day) in
    four_digits d.year ++ (two_digits d.month ++ two_digits d.day)

unfoldable pub dashed_date : ℕ → Text
unfolding civil_of_day
dashed_date t =
    let d = civil_of_day (t / nanos_per_day) in
    four_digits d.year ++ (b'-' ∷ (two_digits d.month ++ (b'-' ∷ two_digits d.day)))

-- "20060102T150405Z".
unfoldable pub format_stamp : ℕ → Text
unfolding compact_date
format_stamp t =
    let s = (t % nanos_per_day) / nanos_per_second in
    compact_date t
    ++ (b'T'
        ∷ (two_digits (s / 3600)
            ++ (two_digits ((s / 60) % 60) ++ (two_digits (s % 60) ++ codes "Z"))))

abbrev pub is_digit : ℕ → Bool
is_digit c = leb b'0' c && leb c b'9'

-- A number of exactly so many digits, and what follows it.
unfoldable pub read_digits : ℕ → ℕ → Text → Option (ℕ × Text)
read_digits zero acc s = some (acc, s)
read_digits (suc n) acc [] = none
read_digits (suc n) acc (c ∷ s) =
    let rest = read_digits n (acc * 10 + (c - b'0')) s in if is_digit c then rest else none

infixl 5 ◌>>=◌ ◌>>◌
abbrev ◌>>=◌ {ℓ κ} : {A : Type ℓ} {B : Type κ} → Option A → (A → Option B) → Option B
none >>= f = none
some a >>= f = f a

abbrev ◌>>◌ {κ} : {B : Type κ} → Option (Unit {0}) → Option B → Option B
m >> k = m >>= λ _. k

abbrev check : Bool → Option (Unit {0})
check true = some tt
check false = none

abbrev expect : ℕ → Text → Option Text
expect b [] = none
expect b (c ∷ s) = if c == b then some s else none

abbrev date_ok : ℕ → ℕ → ℕ → Bool
date_ok y m d = leb 1 m && leb m 12 && leb 1 d && leb d (days_in_month y m)

abbrev midnight : ℕ → ℕ → ℕ → ℕ
midnight y m d = day_of_civil (record { year = y; month = m; day = d }) * nanos_per_day

-- `time.Parse("20060102T150405Z", s)`, for a name without a fraction of a second.
unfoldable pub parse_stamp : Text → Option ℕ
unfolding read_digits days_in_month day_of_civil
parse_stamp s0 = do
  (y, s1) ← read_digits 4 0 s0
  (m, s2) ← read_digits 2 0 s1
  (d, s3) ← read_digits 2 0 s2
  s4 ← expect b'T' s3
  (h, s5) ← read_digits 2 0 s4
  (mi, s6) ← read_digits 2 0 s5
  (sec, s7) ← read_digits 2 0 s6
  s8 ← expect b'Z' s7
  check (date_ok y m d && ltb h 24 && ltb mi 60 && ltb sec 60 && is_nil s8)
  some (midnight y m d + (h * 3600 + mi * 60 + sec) * nanos_per_second)

-- `time.Parse("2006-01-02", s)`.
unfoldable pub parse_dashed : Text → Option ℕ
unfolding read_digits days_in_month day_of_civil
parse_dashed s0 = do
  (y, s1) ← read_digits 4 0 s0
  s2 ← expect b'-' s1
  (m, s3) ← read_digits 2 0 s2
  s4 ← expect b'-' s3
  (d, s5) ← read_digits 2 0 s4
  check (date_ok y m d && is_nil s5)
  some (midnight y m d)
