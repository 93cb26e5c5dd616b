-- ===== src/Calendar/Tests.antt =====
-- The calendar around a leap day and a year's end.
use plutus_hr_system.Prelude.{◌+◌, ◌≡◌, refl, arith}
use plutus_hr_system.Calendar.{Date, IsDate, ordinal, weekday, next_day, days_in_month}
use plutus_hr_system.Calendar.Ordinal.{ordinal-next_day}

abbrev leap_day : Date
leap_day = record { year = 2028; month = 2; day = 29 }

leap_day-IsDate : IsDate leap_day
unfolding days_in_month
leap_day-IsDate = omega arith

ordinal-next_day_example :
    (ordinal (next_day leap_day) ≡ ordinal leap_day + 1) × IsDate (next_day leap_day)
ordinal-next_day_example = ordinal-next_day leap_day leap_day-IsDate

-- 1 January 2026 was a Thursday, day 739617.
new_year : Date
new_year = record { year = 2026; month = 1; day = 1 }

new_year_known : (ordinal new_year ≡ 739617) × (weekday new_year ≡ 3)
unfolding ordinal weekday new_year
new_year_known = (refl, refl)
