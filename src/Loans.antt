-- ===== src/Loans.antt =====
-- Employee loans: app/domain/payroll/loans.py, the request and the cancelling of a loan in
-- app/services/loans.py, and the parts of app/services/payroll.py that schedule and record the
-- repayments.
pub mod Installments
pub mod Runs
pub mod Schedule
mod Tests
use plutus_hr_system.Prelude.{
  ℕ, zero, suc, Bool, true, false, not, Option, none, some, List, [], ◌∷◌, if◌then◌else◌, ℤ, pos,
  pos_part, ◌+ℤ◌, ◌-ℤ◌, ◌*ℤ◌, ◌//ℤ◌, ltb_ℤ, is_neg, is_pos, min_ℤ, Result, ok, ◌>>=◌, ◌>>◌,
  raise_if, replicate,
}
use plutus_hr_system.Errors.{
  ValueError, negative, not_positive, tenure_too_short, principal_too_large, active_loan_exists,
  loan_not_active,
}
use plutus_hr_system.Calendar.{Date, ordinal}
use plutus_hr_system.Payroll.Statutory.{PayFrequency, periods_per_year}

abbrev pub min_tenure_days : ℤ
min_tenure_days = pos 90

abbrev pub max_principal_to_monthly_pay_multiple : ℤ
max_principal_to_monthly_pay_multiple = pos 3

unfoldable pub check_loan_eligibility : Date → Date → ℤ → ℤ → Result ValueError (Unit {0})
check_loan_eligibility hire_date start_date principal_minor monthly_pay_minor = do
  let tenure_days = pos (ordinal start_date) -ℤ pos (ordinal hire_date)
  raise_if (ltb_ℤ tenure_days min_tenure_days) tenure_too_short
  let max_principal_minor = monthly_pay_minor *ℤ max_principal_to_monthly_pay_multiple
  raise_if (ltb_ℤ max_principal_minor principal_minor) principal_too_large

unfoldable pub apply_flat_interest_minor : ℤ → ℤ → Result ValueError ℤ
apply_flat_interest_minor principal_minor interest_rate_bps = do
  raise_if (is_neg principal_minor) (negative "principal_minor")
  raise_if (is_neg interest_rate_bps) (negative "interest_rate_bps")
  ok (principal_minor +ℤ principal_minor *ℤ interest_rate_bps //ℤ 10_000)

-- `installments[-1] += rest`
pub add_to_last : ℤ → List ℤ → List ℤ
add_to_last rest [] = []
add_to_last rest (x ∷ []) = (x +ℤ rest) ∷ []
add_to_last rest (x ∷ y ∷ ys) = x ∷ add_to_last rest (y ∷ ys)

unfoldable pub compute_equal_installments : ℤ → ℤ → Result ValueError (List ℤ)
unfolding add_to_last
compute_equal_installments principal_minor num_installments = do
  raise_if (is_neg principal_minor) (negative "principal_minor")
  raise_if (not (is_pos num_installments)) (not_positive "num_installments")
  let base = principal_minor //ℤ pos_part num_installments
  ok (
      add_to_last (principal_minor -ℤ base *ℤ num_installments)
        (replicate (pos_part num_installments) base))

unfoldable pub next_installment_amount : ℤ → ℤ → Result ValueError ℤ
next_installment_amount outstanding_minor scheduled_installment_minor = do
  raise_if (is_neg outstanding_minor) (negative "outstanding_minor")
  raise_if (is_neg scheduled_installment_minor) (negative "scheduled_installment_minor")
  ok (min_ℤ outstanding_minor scheduled_installment_minor)

pub data LoanStatus : Type 0 where
  active paid_off cancelled : LoanStatus

-- A repayment, and whether the pay run it belongs to is reversed.
pub record LoanRepayment : Type 0 where
  pub amount_minor : ℤ
  pub run_reversed : Bool

-- A loan with the repayments that point at it.
pub record Loan : Type 0 where
  pub principal_minor : ℤ
  pub interest_rate_bps : ℤ
  pub total_repayable_minor : ℤ
  pub num_installments : ℤ
  pub installment_minor : ℤ
  pub start_date : Date
  pub status : LoanStatus
  pub repayments : List LoanRepayment

abbrev pub is_active : LoanStatus → Bool
is_active LoanStatus.active = true
is_active LoanStatus.paid_off = false
is_active LoanStatus.cancelled = false

-- The sum over the repayments of runs that are not reversed.
abbrev pub repaid : List LoanRepayment → ℤ
repaid [] = pos 0
repaid (r ∷ rs) = (if r.run_reversed then pos 0 else r.amount_minor) +ℤ repaid rs

unfoldable pub outstanding_loan_balance : Loan → ℤ
outstanding_loan_balance loan = loan.total_repayable_minor -ℤ repaid loan.repayments

-- `installments[0]`
abbrev pub first_or_zero : List ℤ → ℤ
first_or_zero [] = pos 0
first_or_zero (x ∷ xs) = x

-- `current` is the active loan that the employee has, if there is one.
unfoldable pub request_loan :
    Option Loan → Date → ℤ → PayFrequency → ℤ → ℤ → Date → ℤ → Result ValueError Loan
request_loan current date_of_joining period_pay pay_frequency principal num start rate = do
  raise_if (elim current [ none ↦ false | some _ ↦ true ]) active_loan_exists
  let monthly_pay = period_pay *ℤ pos (periods_per_year pay_frequency) //ℤ 12
  check_loan_eligibility date_of_joining start principal monthly_pay
  total ← apply_flat_interest_minor principal rate
  installments ← compute_equal_installments total num
  ok (record {
    principal_minor = principal;
    interest_rate_bps = rate;
    total_repayable_minor = total;
    num_installments = num;
    installment_minor = first_or_zero installments;
    start_date = start;
    status = LoanStatus.active;
    repayments = [];
  })

unfoldable pub cancel_loan : Loan → Result ValueError Loan
cancel_loan loan = do
  raise_if (not (is_active loan.status)) loan_not_active
  ok (record loan { status = LoanStatus.cancelled })

-- What a payslip would deduct: the loan's part of the period's inputs.
unfoldable pub scheduled_loan_minor : Loan → Bool → Result ValueError ℤ
scheduled_loan_minor loan full_loan_recovery =
    let outstanding = outstanding_loan_balance loan in
    if is_pos outstanding
    then next_installment_amount outstanding
        (if full_loan_recovery then outstanding else loan.installment_minor)
    else ok (pos 0)

-- The repayment that a payslip with this deduction records.
unfoldable pub record_repayment : Loan → ℤ → Loan
record_repayment loan deduction =
    let left = outstanding_loan_balance loan -ℤ deduction in
    if is_pos deduction
    then record loan {
      status = if is_pos left then loan.status else LoanStatus.paid_off;
      repayments = record { amount_minor = deduction; run_reversed = false } ∷ loan.repayments;
    }
    else loan

-- One pay run whose net pay covers the installment; only an active loan is found.
unfoldable pub repay : Loan → Result ValueError Loan
repay loan =
    if not (is_active loan.status)
    then ok loan
    else do deduction ← scheduled_loan_minor loan false; ok (record_repayment loan deduction)

pub repay_runs : ℕ → Loan → Result ValueError Loan
repay_runs zero loan = ok loan
repay_runs (suc runs) loan = do before ← repay_runs runs loan; repay before
