-- ===== src/Calendar.antt =====
-- The parts of Python's `datetime.date` that the program uses: the proleptic Gregorian calendar,
-- its ordinals, week days and steps of days. A date in the program is valid, and years are from 1.
pub mod Ordinal
mod Tests
use plutus_hr_system.Prelude.{
  ℕ, zero, suc, ◌+◌, ◌-◌, ◌*◌, ◌/◌, ◌%◌, ◌≤◌, Bool, not, ◌&&◌, ◌||◌, ltb, leb, ◌==◌, if◌then◌else◌,
}

pub record Date : Type 0 where
  pub year : ℕ
  pub month : ℕ
  pub day : ℕ

unfoldable pub is_leap : ℕ → Bool
is_leap year = year % 4 == 0 && (not (year % 100 == 0) || year % 400 == 0)

-- `calendar.monthrange(year, month)[1]`
unfoldable pub days_in_month : ℕ → ℕ → ℕ
unfolding is_leap
days_in_month year month =
    if month == 2
    then (if is_leap year then 29 else 28)
    else if month == 4 || month == 6 || month == 9 || month == 11
    then 30
    else 31

-- The days of the year before a month.
unfoldable pub days_before_month : ℕ → ℕ → ℕ
unfolding days_in_month
days_before_month year zero = 0
days_before_month year (suc zero) = 0
days_before_month year (suc (suc m)) = days_before_month year (suc m) + days_in_month year (suc m)

unfoldable pub days_before_year : ℕ → ℕ
days_before_year year = (year - 1) * 365 + (year - 1) / 4 - (year - 1) / 100 + (year - 1) / 400

-- `date.toordinal()`: 1 January of year 1 is day 1.
unfoldable pub ordinal : Date → ℕ
unfolding days_before_year days_before_month
ordinal d = days_before_year d.year + days_before_month d.year d.month + d.day

-- `date.weekday()`: Monday is 0.
unfoldable pub weekday : Date → ℕ
unfolding ordinal
weekday d = (ordinal d + 6) % 7

-- `d + timedelta(days=1)`
unfoldable pub next_day : Date → Date
unfolding days_in_month
next_day d =
    if ltb d.day (days_in_month d.year d.month)
    then record d { day = d.day + 1 }
    else if ltb d.month 12
    then record d { month = d.month + 1; day = 1 }
    else record { year = d.year + 1; month = 1; day = 1 }

-- `d + timedelta(days=n)`
unfoldable pub add_days : ℕ → Date → Date
unfolding next_day
add_days zero d = d
add_days (suc n) d = add_days n (next_day d)

pub record IsDate (d : Date) : Type 0 where
  pub year_from : 1 ≤ d.year
  pub month_from : 1 ≤ d.month
  pub month_to : d.month ≤ 12
  pub day_from : 1 ≤ d.day
  pub day_to : d.day ≤ days_in_month d.year d.month

-- Dates are compared as their ordinals.
abbrev pub before : Date → Date → Bool
before a b = ltb (ordinal a) (ordinal b)

abbrev pub not_after : Date → Date → Bool
not_after a b = leb (ordinal a) (ordinal b)
