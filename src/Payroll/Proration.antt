-- ===== src/Payroll/Proration.antt =====
-- Proration of a period's pay by working days: app/domain/payroll/proration.py. A date is its
-- ordinal, by which Python compares and steps dates; `holidays` is the test of the set.
pub mod Parts
pub mod Bounds
use plutus_hr_system.Prelude.{
  ℕ, zero, suc, ◌+◌, ◌-◌, ◌*◌, ◌/◌, ◌%◌, Bool, false, not, ◌&&◌, ◌||◌, Option, none, some, List, [],
  ◌∷◌, ltb, leb, ◌==◌, if◌then◌else◌,
}

-- `day.weekday() < 5 and day not in holidays`; Monday has an ordinal that leaves 1 by 7.
unfoldable pub is_working_day : (ℕ → Bool) → ℕ → Bool
is_working_day holidays day = ltb ((day + 6) % 7) 5 && not (holidays day)

-- The working days of `rounds` days in a row.
unfoldable pub working_days : (ℕ → Bool) → ℕ → ℕ → ℕ
unfolding is_working_day
working_days holidays zero day = 0
working_days holidays (suc rounds) day =
    (if is_working_day holidays day then 1 else 0) + working_days holidays rounds (day + 1)

unfoldable pub working_days_in_range : ℕ → ℕ → (ℕ → Bool) → ℕ
unfolding working_days
working_days_in_range start end holidays =
    if ltb end start then 0 else working_days holidays (end + 1 - start) start

-- `_scale`, of an amount that is not negative.
unfoldable pub scaled : ℕ → ℕ → ℕ → ℕ
scaled amount_minor credited_days total_days =
    (amount_minor * credited_days + total_days / 2) / total_days

pub record PayComponents : Type 0 where
  pub basic_minor : ℕ
  pub housing_minor : ℕ
  pub transport_minor : ℕ
  pub other_earnings_minor : ℕ

pub record ProrationResult : Type 0 where
  pub components : PayComponents
  pub total_working_days : ℕ
  pub credited_working_days : ℕ

unfoldable pub is_prorated : ProrationResult → Bool
is_prorated result = ltb result.credited_working_days result.total_working_days

-- `any(leave_start <= day <= leave_end for ...)`
unfoldable pub on_leave : List (ℕ × ℕ) → ℕ → Bool
on_leave [] day = false
on_leave ((leave_start, leave_end) ∷ ranges) day =
    (leb leave_start day && leb day leave_end) || on_leave ranges day

-- Whether a day is before the change, where there are pay components from before one.
abbrev pub before_change : Option PayComponents → Option ℕ → ℕ → Bool
before_change none change day = false
before_change (some prior) none day = false
before_change (some prior) (some change) day = ltb day change

-- The loop over the days: those credited at the current pay and those at the prior one.
unfoldable pub credit : (ℕ → Bool) → List (ℕ × ℕ) → Option PayComponents → Option ℕ → ℕ → ℕ → ℕ × ℕ
unfolding is_working_day on_leave
credit holidays leave prior change zero day = (0, 0)
credit holidays leave prior change (suc rounds) day =
    let rest = credit holidays leave prior change rounds (day + 1) in
    if not (is_working_day holidays day && not (on_leave leave day))
    then rest
    else if before_change prior change day
    then (rest.0, rest.1 + 1)
    else (rest.0 + 1, rest.1)

-- `combine`, of a component's current and prior amounts.
unfoldable pub combine : Option ℕ → ℕ → ℕ → ℕ → ℕ → ℕ
unfolding scaled
combine none current credited_current credited_prior total = scaled current credited_current total
combine (some prior) current credited_current credited_prior total =
    let now = scaled current credited_current total in
    if credited_prior == 0 then now else now + scaled prior credited_prior total

abbrev pub of_prior : (PayComponents → ℕ) → Option PayComponents → Option ℕ
of_prior field none = none
of_prior field (some prior) = some (field prior)

abbrev pub each_component : ((PayComponents → ℕ) → ℕ) → PayComponents
each_component amount = record {
  basic_minor = amount (λ c. c.basic_minor);
  housing_minor = amount (λ c. c.housing_minor);
  transport_minor = amount (λ c. c.transport_minor);
  other_earnings_minor = amount (λ c. c.other_earnings_minor);
}

abbrev pub later_of : ℕ → ℕ → ℕ
later_of a b = if ltb a b then b else a

unfoldable pub prorate_pay_components :
    ℕ
    → ℕ
    → ℕ
    → PayComponents
    → Option PayComponents
    → Option ℕ
    → List (ℕ × ℕ)
    → (ℕ → Bool)
    → ProrationResult
unfolding working_days_in_range credit combine
prorate_pay_components period_start period_end hire_date current prior change leave holidays =
    let total = working_days_in_range period_start period_end holidays in
    let start = later_of period_start hire_date in
    let (now, before) = credit holidays leave prior change (period_end + 1 - start) start in
    if ltb period_end start
    then record {
      components = each_component (λ field. 0);
      total_working_days = total;
      credited_working_days = 0;
    }
    else if total == 0
    then record { components = current; total_working_days = total; credited_working_days = total }
    else record {
      components =
          each_component (λ field. combine (of_prior field prior) (field current) now before total);
      total_working_days = total;
      credited_working_days = now + before;
    }
