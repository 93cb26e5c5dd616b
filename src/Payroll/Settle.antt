-- ===== src/Payroll/Settle.antt =====
-- The deductions from one employee's net pay (`process_employee_payslip` of app/services/payroll.py):
-- statutory lines, then the loan, then benefits, then union dues, each from what the last one left.
pub mod Total
use plutus_hr_system.Prelude.{
  not, Option, none, some, List, if◌then◌else◌, ℤ, pos, ◌-ℤ◌, ltb_ℤ, is_pos, Result, ok, ◌>>=◌,
  ◌>>◌,
}
use plutus_hr_system.Errors.{ValueError}
use plutus_hr_system.Payroll.Statutory.{union_dues_deduction_minor}
use plutus_hr_system.Payroll.Payslip.{PayslipInputs, PayslipComputation, compute_payslip}
use plutus_hr_system.Payroll.Benefits.{BenefitCandidate, select_benefit_deductions}

-- A scheduled installment that net pay cannot cover is dropped, not reduced.
pub loan_deduction : PayslipInputs → ℤ → Result ValueError ℤ
loan_deduction i scheduled = if not (is_pos scheduled) then ok scheduled else do
  before_loan ← compute_payslip i (pos 0) (pos 0) (pos 0)
  ok (if ltb_ℤ before_loan.net_pay_minor scheduled then pos 0 else scheduled)

-- The dues of an active union membership, if there is one.
pub dues_deduction : Option ℤ → ℤ → Result ValueError ℤ
dues_deduction none available = ok (pos 0)
dues_deduction (some monthly_dues) available = union_dues_deduction_minor monthly_dues available

unfoldable pub settle :
    PayslipInputs → ℤ → List BenefitCandidate → Option ℤ → Result ValueError PayslipComputation
settle i scheduled candidates membership = do
  loan ← loan_deduction i scheduled
  before_benefits ← compute_payslip i loan (pos 0) (pos 0)
  let benefit = (select_benefit_deductions candidates before_benefits.net_pay_minor).1
  dues ← dues_deduction membership (before_benefits.net_pay_minor -ℤ benefit)
  compute_payslip i loan benefit dues
