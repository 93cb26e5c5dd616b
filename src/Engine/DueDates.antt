-- ===== src/Engine/DueDates.antt =====
-- When a statutory line is due: app/compliance/engine/due_dates.py.
pub mod Working
use plutus_hr_system.Prelude.{ℕ, zero, suc, ◌+◌, ◌*◌, ltb, if◌then◌else◌}
use plutus_hr_system.Calendar.{Date, add_days, next_day, weekday}
use plutus_hr_system.Engine.Rules.{
  DueRule, due_day_of_following_month, due_days_after_period_end, due_working_days_after_period_end,
}

-- The `while remaining > 0` loop. Of three days in a row one is a working day, so that three times
-- the days are enough rounds.
unfoldable pub skip_weekends : ℕ → ℕ → Date → Date
skip_weekends zero remaining current = current
skip_weekends (suc rounds) zero current = current
skip_weekends (suc rounds) (suc remaining) current =
    let next = next_day current in
    let working = ltb (weekday next) 5 in
    skip_weekends rounds (if working then remaining else suc remaining) next

unfoldable pub due_date : DueRule → Date → Date
unfolding skip_weekends
due_date (due_day_of_following_month day) period_end =
    if ltb 12 (period_end.month + 1)
    then record { year = period_end.year + 1; month = 1; day = day }
    else record { year = period_end.year; month = period_end.month + 1; day = day }
due_date (due_days_after_period_end days) period_end = add_days days period_end
due_date (due_working_days_after_period_end days) period_end =
    skip_weekends (days * 3) days period_end
