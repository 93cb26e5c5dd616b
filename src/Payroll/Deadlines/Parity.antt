-- ===== src/Payroll/Deadlines/Parity.antt =====
-- Nigeria's deadlines of app/domain/payroll/deadlines.py against the calendar and against the
-- engine's due rules (app/compliance/engine/due_dates.py).
use plutus_hr_system.Prelude.{ℕ, ◌+◌, ◌*◌, ◌≤◌, ◌≡◌, ok}
use plutus_hr_system.Calendar.{Date, ordinal}
use plutus_hr_system.Compliance.{RuleVersion}
use plutus_hr_system.Payroll.Deadlines.{
  paye_deadline, nsitf_deadline, nhf_deadline, wht_deadline, pension_deadline,
}
use plutus_hr_system.Engine.Rules.{
  due_day_of_following_month, due_days_after_period_end, due_working_days_after_period_end,
}
use plutus_hr_system.Engine.DueDates.{due_date}
use plutus_hr_system.Engine.DueDates.Working.{LandsAt}

-- A day of the month after a date's: months are counted through the years.
pub record IsInNextMonth (on : Date) (day : ℕ) (due : Date) : Type 0 where
  pub next_month : due.year * 12 + due.month ≡ on.year * 12 + on.month + 1
  pub month_from : 1 ≤ due.month
  pub month_to : due.month ≤ 12
  pub on_day : due.day ≡ day

-- Where each deadline lies in the calendar, and that the engine's due rule gives the same date.
pub record Agrees (rules : RuleVersion) (on : Date) (days : ℕ) : Type 0 where
  pub paye : IsInNextMonth on rules.paye.due_day_of_following_month (paye_deadline on rules.paye)
  pub nsitf :
      IsInNextMonth on rules.nsitf.due_day_of_following_month (nsitf_deadline on rules.nsitf)
  pub wht : IsInNextMonth on rules.wht.due_day_of_following_month (wht_deadline on rules.wht)
  pub nhf : ordinal (nhf_deadline on rules.nhf) ≡ ordinal on + rules.nhf.due_days_after_payment
  pub pension :
      (due : Date) × (pension_deadline on rules.pension ≡ ok due)
      × LandsAt days on due
      × (due_date (due_working_days_after_period_end days) on ≡ due)
  pub paye_due :
      due_date (due_day_of_following_month rules.paye.due_day_of_following_month) on
      ≡ paye_deadline on rules.paye
  pub nsitf_due :
      due_date (due_day_of_following_month rules.nsitf.due_day_of_following_month) on
      ≡ nsitf_deadline on rules.nsitf
  pub wht_due :
      due_date (due_day_of_following_month rules.wht.due_day_of_following_month) on
      ≡ wht_deadline on rules.wht
  pub nhf_due :
      due_date (due_days_after_period_end rules.nhf.due_days_after_payment) on
      ≡ nhf_deadline on rules.nhf
