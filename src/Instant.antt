-- ===== src/Instant.antt =====
-- The calendar of crates/aster-runtime/src/machine.rs: normalised UTC instants, read from their
-- bytes, and `add_seconds`. A year read from text is not negative, nor are the parts of a date
-- inside an era of 400 years, which are plain numbers here.
pub mod Civil
use aster_lang.Base.{
  ℕ, zero, suc, ◌+◌, ◌-◌, ◌*◌, ◌/◌, ◌%◌, String, Bool, true, false, not, ◌&&◌, ◌||◌, Option, none,
  some, List, [], ◌∷◌, leb, ltb, ◌==◌, if◌then◌else◌, length, take,
}
use aster_lang.Base.Int.{
  ℤ, pos, negsuc, ◌+ℤ◌, ◌-ℤ◌, ◌*ℤ◌, checked_add, checked_mul, less_int, pos_part,
}
use aster_lang.Base.Outcome.{Result, ok, err, ok_or, and_then, ◌>>=◌, ◌>>◌, ensure}
use aster_lang.Base.Text.{◌+++◌, decimal, bytes}
use aster_lang.Machine.Errors.{MachineError, invalid_instant}

abbrev pub drop : ℕ → List ℕ → List ℕ
drop zero xs = xs
drop (suc n) [] = []
drop (suc n) (x ∷ xs) = drop n xs

abbrev pub byte_at : List ℕ → ℕ → ℕ
byte_at [] i = 0
byte_at (x ∷ xs) zero = x
byte_at (x ∷ xs) (suc i) = byte_at xs i

-- `i64::div_euclid` and `i64::rem_euclid` by a positive number
abbrev pub div_euclid : ℤ → ℕ → ℤ
div_euclid (pos n) b = pos (n / b)
div_euclid (negsuc n) b = negsuc (n / b)

abbrev pub rem_euclid : ℤ → ℕ → ℕ
rem_euclid (pos n) b = n % b
rem_euclid (negsuc n) b = b - 1 - n % b

abbrev pub is_digit : ℕ → Bool
is_digit c = leb b'0' c && leb c b'9'

digits : ℕ → List ℕ → Result MachineError ℕ
digits n [] = ok n
digits n (c ∷ cs) =
    let rest = digits (n * 10 + (c - b'0')) cs in if is_digit c then rest else err invalid_instant

-- Of at most four digits, so that `str::parse` does not overflow; of none it fails.
unfoldable pub parse_decimal : List ℕ → Result MachineError ℕ
unfolding digits
parse_decimal [] = err invalid_instant
parse_decimal (c ∷ cs) = digits 0 (c ∷ cs)

abbrev pub is_leap : ℕ → Bool
is_leap year = year % 4 == 0 && (not (year % 100 == 0) || year % 400 == 0)

unfoldable pub days_in_month : ℕ → ℕ → Option ℕ
days_in_month year month =
    if month == 1
      || month == 3
      || month == 5
      || month == 7
      || month == 8
      || month == 10
      || month == 12
    then some 31
    else if month == 4 || month == 6 || month == 9 || month == 11
    then some 30
    else if month == 2
    then some (if is_leap year then 29 else 28)
    else none

pub record Parts : Type 0 where
  pub year : ℕ
  pub month : ℕ
  pub day : ℕ
  pub hour : ℕ
  pub minute : ℕ
  pub second : ℕ

abbrev slice : ℕ → ℕ → List ℕ → List ℕ
slice start end b = take (end - start) (drop start b)

abbrev in_range : (year day max_day hour minute second : ℕ) → Bool
in_range year day max_day hour minute second =
    not (year == 0 || day == 0 || ltb max_day day || ltb 23 hour || ltb 59 minute || ltb 59 second)

unfoldable pub instant_parts : String → Result MachineError Parts
unfolding parse_decimal days_in_month
instant_parts instant =
    let b = bytes instant in
    if not (length b == 20)
      || not (byte_at b 4 == b'-')
      || not (byte_at b 7 == b'-')
      || not (byte_at b 10 == b'T')
      || not (byte_at b 13 == b':')
      || not (byte_at b 16 == b':')
      || not (byte_at b 19 == b'Z')
    then err invalid_instant
    else do
      year ← parse_decimal (slice 0 4 b)
      month ← parse_decimal (slice 5 7 b)
      day ← parse_decimal (slice 8 10 b)
      hour ← parse_decimal (slice 11 13 b)
      minute ← parse_decimal (slice 14 16 b)
      second ← parse_decimal (slice 17 19 b)
      max_day ← ok_or invalid_instant (days_in_month year month)
      ensure (in_range year day max_day hour minute second) invalid_instant
      ok (record {
        year = year;
        month = month;
        day = day;
        hour = hour;
        minute = minute;
        second = second;
      })

unfoldable pub validate_instant : String → Result MachineError (Unit {0})
validate_instant instant = and_then (instant_parts instant) (λ _. ok tt)

-- The month counted from March, and the day of the year and of the era from it.
abbrev pub shift_month : ℕ → ℕ
shift_month month = if leb month 2 then month + 9 else month - 3

abbrev pub day_of_year_of : ℕ → ℕ → ℕ
day_of_year_of shifted_month day = (153 * shifted_month + 2) / 5 + day - 1

abbrev pub day_of_era_of : ℕ → ℕ → ℕ
day_of_era_of year_of_era day_of_year =
    year_of_era * 365 + year_of_era / 4 - year_of_era / 100 + day_of_year

unfoldable pub days_from_civil : ℕ → ℕ → ℕ → ℤ
days_from_civil year month day =
    let adjusted_year = pos year -ℤ pos (if leb month 2 then 1 else 0) in
    let era = div_euclid adjusted_year 400 in
    let year_of_era = rem_euclid adjusted_year 400 in
    let day_of_year = day_of_year_of (shift_month month) day in
    era *ℤ pos 146097 +ℤ pos (day_of_era_of year_of_era day_of_year) -ℤ pos 719468

abbrev pub year_of_era_from : ℕ → ℕ
year_of_era_from day_of_era =
    (day_of_era - day_of_era / 1460 + day_of_era / 36524 - day_of_era / 146096) / 365

abbrev pub day_of_year_from : ℕ → ℕ → ℕ
day_of_year_from day_of_era year_of_era =
    day_of_era - (365 * year_of_era + year_of_era / 4 - year_of_era / 100)

abbrev pub month_prime_from : ℕ → ℕ
month_prime_from day_of_year = (5 * day_of_year + 2) / 153

abbrev pub day_from : ℕ → ℕ → ℕ
day_from day_of_year month_prime = day_of_year - (153 * month_prime + 2) / 5 + 1

abbrev pub month_from : ℕ → ℕ
month_from month_prime = if ltb month_prime 10 then month_prime + 3 else month_prime - 9

unfoldable pub civil_from_days : ℤ → ℤ × ℕ × ℕ
civil_from_days days =
    let zero_based = days +ℤ pos 719468 in
    let era = div_euclid zero_based 146097 in
    let day_of_era = rem_euclid zero_based 146097 in
    let year_of_era = year_of_era_from day_of_era in
    let day_of_year = day_of_year_from day_of_era year_of_era in
    let month_prime = month_prime_from day_of_year in
    let month = month_from month_prime in
    (
      pos year_of_era +ℤ era *ℤ pos 400 +ℤ pos (if leb month 2 then 1 else 0),
      month,
      day_from day_of_year month_prime,
    )

-- `{n:02}` and `{n:04}`
abbrev pub pad2 : ℕ → String
pad2 n = (if ltb n 10 then "0" else "") +++ decimal n

abbrev pub pad4 : ℕ → String
pad4 n =
    (if ltb n 10 then "000" else if ltb n 100 then "00" else if ltb n 1000 then "0" else "")
    +++ decimal n

abbrev in_years : ℤ → Bool
in_years year = not (less_int year (pos 1)) && not (less_int (pos 9999) year)

unfoldable pub add_seconds : String → ℤ → Result MachineError String
unfolding instant_parts days_from_civil civil_from_days
add_seconds instant seconds = do
  p ← instant_parts instant
  a ← ok_or invalid_instant (checked_mul (days_from_civil p.year p.month p.day) (pos 86400))
  b ← ok_or invalid_instant (checked_add a (pos (p.hour * 3600)))
  c ← ok_or invalid_instant (checked_add b (pos (p.minute * 60)))
  d ← ok_or invalid_instant (checked_add c (pos p.second))
  total ← ok_or invalid_instant (checked_add d seconds)
  let seconds_of_day = rem_euclid total 86400
  let date = civil_from_days (div_euclid total 86400)
  ensure (in_years date.0) invalid_instant
  ok (
      pad4 (pos_part date.0)
      +++ "-"
      +++ pad2 date.1
      +++ "-"
      +++ pad2 date.2
      +++ "T"
      +++ pad2 (seconds_of_day / 3600)
      +++ ":"
      +++ pad2 (seconds_of_day % 3600 / 60)
      +++ ":"
      +++ pad2 (seconds_of_day % 60)
      +++ "Z")
