-- ===== src/Instant/Civil.antt =====
-- Dates and day counts are inverse: `civil_from_days` undoes `days_from_civil`.
use aster_lang.Base.{
  ℕ, ◌+◌, ◌-◌, ◌*◌, ◌/◌, ◌%◌, ◌<◌, ◌≤◌, ◌≡◌, ◌≢◌, ◌⊎◌, inl, inr, arith, some, leb, if◌then◌else◌,
  ◌==◌, true, Bool-cases, ◌∙◌, ap,
}
use aster_lang.Base.Int.{pos, ◌+ℤ◌, ◌-ℤ◌, ◌*ℤ◌}
use aster_lang.Instant.{
  is_leap, days_in_month, day_of_era_of, day_of_year_of, year_of_era_from, day_of_year_from,
  month_prime_from, day_from, month_from, shift_month, days_from_civil, civil_from_days,
}

-- Whether the year of an era that begins in March has a 29th of February.
abbrev pub LongYear : ℕ → Type 0
LongYear y = (y % 4 ≡ 3) × ((y % 100 ≢ 99) ⊎ (y ≡ 399))

abbrev pub DayOfYear : ℕ → ℕ → Type 0
DayOfYear y doy = (doy ≤ 364) ⊎ ((doy ≡ 365) × LongYear y)

year_of_era-day_of_era_of :
    (y doy : ℕ) → y < 400 → DayOfYear y doy → year_of_era_from (day_of_era_of y doy) ≡ y
year_of_era-day_of_era_of y doy a (inl b) = omega arith
year_of_era-day_of_era_of y doy a (inr (b, (c, inl d))) = omega arith
year_of_era-day_of_era_of y doy a (inr (b, (c, inr d))) = omega arith

day_of_era-lt : (y doy : ℕ) → y < 400 → DayOfYear y doy → day_of_era_of y doy < 146097
day_of_era-lt y doy a (inl b) = omega arith
day_of_era-lt y doy a (inr (b, (c, inl d))) = omega arith
day_of_era-lt y doy a (inr (b, (c, inr d))) = omega arith

day_of_year-day_of_era_of : (y doy : ℕ) → day_of_year_from (day_of_era_of y doy) y ≡ doy
day_of_year-day_of_era_of y doy = omega arith

-- A month, counted from March, and a day in it.
month_prime-day_of_year_of :
    (m d : ℕ)
    → 1 ≤ d
    → (153 * m + 2) / 5 + d ≤ (153 * (m + 1) + 2) / 5
    → month_prime_from (day_of_year_of m d) ≡ m
month_prime-day_of_year_of m d a b = omega arith

day_from-day_of_year_of : (m d : ℕ) → 1 ≤ d → day_from (day_of_year_of m d) m ≡ d
day_from-day_of_year_of m d a = omega arith

add_back : (n k : ℕ) → pos n -ℤ pos k +ℤ pos k ≡ pos n
unfolding ◌+ℤ◌ ◌-ℤ◌
add_back n k = ground arith

-- The year that counts from March.
abbrev march_year : ℕ → ℕ → ℕ
march_year year month = year - (if leb month 2 then 1 else 0)

month_fits :
    (year month day max_day : ℕ)
    → days_in_month year month ≡ some max_day
    → day ≤ max_day
    → (153 * shift_month month + 2) / 5 + day ≤ (153 * (shift_month month + 1) + 2) / 5
unfolding days_in_month
month_fits year month day max_day h b = ground arith

month_from-shift_month :
    (year month max_day : ℕ)
    → days_in_month year month ≡ some max_day
    → month_from (shift_month month) ≡ month
unfolding days_in_month
month_from-shift_month year month max_day h = ground arith

LongYear-of_leap : (year : ℕ) → 1 ≤ year → is_leap year ≡ true → LongYear ((year - 1) % 400)
LongYear-of_leap year y h = (
  ground arith,
  elim (Bool-cases (year % 100 == 0)) [
    | inl century ↦ inr (ground arith)
    | inr plain ↦ inl (ground arith)
  ],
)

day_of_year-le :
    (year month day max_day : ℕ)
    → days_in_month year month ≡ some max_day
    → 1 ≤ day
    → day ≤ max_day
    → (day_of_year_of (shift_month month) day ≤ 364)
      ⊎ ((day_of_year_of (shift_month month) day ≡ 365) × (month ≡ 2) × (is_leap year ≡ true))
unfolding days_in_month
day_of_year-le year month day max_day h a b =
    elim (Bool-cases (leb (day_of_year_of (shift_month month) day) 364)) [
      | inl small ↦ inl (ground arith)
      | inr large ↦ inr (ground arith, ground arith, ground arith)
    ]

valid-DayOfYear :
    (year month day max_day : ℕ)
    → 1 ≤ year
    → days_in_month year month ≡ some max_day
    → 1 ≤ day
    → day ≤ max_day
    → DayOfYear (march_year year month % 400) (day_of_year_of (shift_month month) day)
valid-DayOfYear year month day max_day y h a b =
    elim (day_of_year-le year month day max_day h a b) [
      | inl small ↦ inl small
      | inr (last, february, leap) ↦ inr (last, rw february (LongYear-of_leap year y leap))
    ]

pos-add : (a b : ℕ) → pos a +ℤ pos b ≡ pos (a + b)
unfolding ◌+ℤ◌
pos-add a b = ground arith

pos-mul : (a b : ℕ) → pos a *ℤ pos b ≡ pos (a * b)
unfolding ◌*ℤ◌
pos-mul a b = ground arith

adjusted_year-march_year :
    (year month : ℕ)
    → 1 ≤ year
    → pos year -ℤ pos (if leb month 2 then 1 else 0) ≡ pos (march_year year month)
unfolding ◌-ℤ◌
adjusted_year-march_year year month y = ground arith

days_from_civil-pos :
    (year month day : ℕ)
    → 1 ≤ year
    → days_from_civil year month day
      ≡ pos (
          march_year year month / 400 * 146097
          + day_of_era_of (march_year year month % 400) (day_of_year_of (shift_month month) day))
        -ℤ pos 719468
unfolding days_from_civil
days_from_civil-pos year month day y =
    rw (adjusted_year-march_year year month y) (simp (pos-mul, pos-add))

civil_from_pos :
    (era y doy : ℕ)
    → y < 400
    → DayOfYear y doy
    → civil_from_days (pos (era * 146097 + day_of_era_of y doy) -ℤ pos 719468) ≡ (
      pos (y + era * 400 + (if leb (month_from (month_prime_from doy)) 2 then 1 else 0)),
      month_from (month_prime_from doy),
      day_from doy (month_prime_from doy),
    )
unfolding civil_from_days
civil_from_pos era y doy a b =
    let day = day_of_era_of y doy in
    let era_back : (era * 146097 + day) / 146097 ≡ era = omega (arith, day_of_era-lt y doy a b) in
    let day_back : (era * 146097 + day) % 146097 ≡ day = omega (arith, day_of_era-lt y doy a b) in
    simp (
      add_back,
      era_back,
      day_back,
      year_of_era-day_of_era_of y doy a b,
      day_of_year-day_of_era_of,
      pos-mul,
      pos-add,
    )

-- A date of the calendar, with a year from 1 on, is what `civil_from_days` makes of its count of
-- days: no date is lost or shifted, leap days and centuries included.
pub civil_from_days-days_from_civil :
    (year month day max_day : ℕ)
    → 1 ≤ year
    → days_in_month year month ≡ some max_day
    → 1 ≤ day
    → day ≤ max_day
    → civil_from_days (days_from_civil year month day) ≡ (pos year, month, day)
civil_from_days-days_from_civil year month day max_day y h a b =
    let march = march_year year month in
    let doy = day_of_year_of (shift_month month) day in
    let month_back : month_prime_from doy ≡ shift_month month =
      month_prime-day_of_year_of (shift_month month) day a
        (month_fits year month day max_day h b) in
    ap civil_from_days (days_from_civil-pos year month day y)
    ∙ civil_from_pos (march / 400) (march % 400) doy (omega arith)
        (valid-DayOfYear year month day max_day y h a b)
    ∙ rw
        (
          month_back,
          month_from-shift_month year month max_day h,
          day_from-day_of_year_of (shift_month month) day a,
        )
        (ground arith)
