-- ===== src/Calendar/Ordinal.antt =====
-- A step of one day raises the ordinal by one, and keeps a date valid; years follow one another.
use plutus_hr_system.Prelude.{ℕ, zero, suc, ◌+◌, ◌-◌, ◌≤◌, ◌<◌, ◌≡◌, refl, arith}
use native.Mathlib.Numerals.{add-one}
use plutus_hr_system.Calendar.{
  Date, IsDate, is_leap, days_in_month, days_before_month, days_before_year, ordinal, next_day,
}

days_in_month_pos : (y m : ℕ) → 1 ≤ days_in_month y m
unfolding days_in_month
days_in_month_pos y m = ground arith

days_before_month_suc :
    (y m : ℕ) → 1 ≤ m → days_before_month y (m + 1) ≡ days_before_month y m + days_in_month y m
unfolding days_before_month
days_before_month_suc y zero h = absurd (omega arith)
days_before_month_suc y (suc m) h = rw add-one

year_length :
    (y : ℕ)
    → 1 ≤ y
    → days_before_year (y + 1) ≡ days_before_year y + days_before_month y 12 + days_in_month y 12
unfolding days_before_year days_before_month is_leap
year_length y h = ground arith

ordinal-next_day_lem : (d : Date) → IsDate d → ordinal (next_day d) ≡ ordinal d + 1
unfolding ordinal next_day
ordinal-next_day_lem d v = ground (arith, days_before_month_suc d.year d.month, year_length d.year)

next_day-IsDate : (d : Date) → IsDate d → IsDate (next_day d)
unfolding next_day
next_day-IsDate d v =
    ground (arith, days_in_month_pos d.year (d.month + 1), days_in_month_pos (d.year + 1) 1)

-- A step of one day from a valid date is a valid date, and raises the ordinal by exactly one.
pub ordinal-next_day :
    (d : Date) → IsDate d → (ordinal (next_day d) ≡ ordinal d + 1) × IsDate (next_day d)
ordinal-next_day d v = (ordinal-next_day_lem d v, next_day-IsDate d v)

month_ends :
    (y m k : ℕ)
    → 1 ≤ m
    → days_before_month y m + days_in_month y m
      ≤ days_before_month y (m + k) + days_in_month y (m + k)
month_ends y m zero h = grind arith
month_ends y m (suc k) h =
    let next = days_before_month_suc y (m + k) (omega arith) in
    let earlier = month_ends y m k h in grind arith

years_before : (y k : ℕ) → 1 ≤ y → days_before_year y ≤ days_before_year (y + k)
years_before y zero h = grind arith
years_before y (suc k) h =
    let length = year_length (y + k) (omega arith) in
    let earlier = years_before y k h in grind arith

-- A date is before the first day of every later year.
pub ordinal-later_year :
    (d : Date) (y : ℕ)
    → IsDate d
    → d.year < y
    → ordinal d < ordinal (record { year = y; month = 1; day = 1 })
unfolding ordinal
ordinal-later_year d y v later =
    let to_december : d.month + (12 - d.month) ≡ 12 = let h = v.month_to in omega arith in
    let to_year : d.year + 1 + (y - (d.year + 1)) ≡ y = omega arith in
    let first_month : days_before_month y 1 ≡ 0 = unfold days_before_month in refl in
    let this_year = rw to_december at (month_ends d.year d.month (12 - d.month) v.month_from) in
    let whole = year_length d.year v.year_from in
    let years = rw to_year at (years_before (d.year + 1) (y - (d.year + 1)) (omega arith)) in
    let in_month = v.day_to in rw first_month (omega arith)
