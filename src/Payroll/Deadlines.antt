-- ===== src/Payroll/Deadlines.antt =====
-- Remittance deadlines: app/domain/payroll/deadlines.py.
pub mod Parity
use plutus_hr_system.Prelude.{
  ℕ, zero, suc, ◌+◌, ◌*◌, ltb, if◌then◌else◌, pos_part, is_neg, Result, ok, ◌>>=◌, ◌>>◌, raise_if,
}
use plutus_hr_system.Errors.{ValueError, negative}
use plutus_hr_system.Calendar.{Date, add_days, next_day, weekday}
use plutus_hr_system.Compliance.{PayeRule, PensionRule, NhfRule, NsitfRule, ItfRule, WhtRule}

-- `_same_day_of_following_month`
unfoldable pub same_day_of_following_month : Date → ℕ → Date
same_day_of_following_month on day_of_month =
    if ltb 12 (on.month + 1)
    then record { year = on.year + 1; month = 1; day = day_of_month }
    else record { year = on.year; month = on.month + 1; day = day_of_month }

unfoldable pub paye_deadline : Date → PayeRule → Date
paye_deadline payment_date rule =
    same_day_of_following_month payment_date rule.due_day_of_following_month

unfoldable pub nsitf_deadline : Date → NsitfRule → Date
nsitf_deadline payment_date rule =
    same_day_of_following_month payment_date rule.due_day_of_following_month

unfoldable pub nhf_deadline : Date → NhfRule → Date
nhf_deadline payment_date rule = add_days rule.due_days_after_payment payment_date

-- The `while` loop, on three rounds for each working day.
unfoldable pub working_days_on : ℕ → ℕ → Date → Date
working_days_on zero remaining current = current
working_days_on (suc rounds) zero current = current
working_days_on (suc rounds) (suc remaining) current =
    let next = next_day current in
    working_days_on rounds (if ltb (weekday next) 5 then remaining else suc remaining) next

unfoldable pub pension_deadline : Date → PensionRule → Result ValueError Date
unfolding working_days_on
pension_deadline payment_date rule = do
  let days = rule.due_working_days_after_payment
  raise_if (is_neg days) (negative "due_working_days_after_payment")
  ok (working_days_on (pos_part days * 3) (pos_part days) payment_date)

unfoldable pub itf_deadline : ℕ → ItfRule → Date
itf_deadline payment_year rule = record {
  year = payment_year + 1;
  month = rule.due_month;
  day = rule.due_day;
}

unfoldable pub wht_deadline : Date → WhtRule → Date
wht_deadline payment_date rule =
    same_day_of_following_month payment_date rule.due_day_of_following_month
