-- ===== src/Payroll/Payslip.antt =====
-- One period's payslip by cumulative-annual tax: app/domain/payroll/payslip.py.
pub mod Conservation
pub mod Total
use plutus_hr_system.Prelude.{ℤ, pos, ◌+ℤ◌, ◌-ℤ◌, ltb_ℤ, is_neg, Result, ok, ◌>>=◌, ◌>>◌, raise_if}
use plutus_hr_system.Errors.{
  ValueError, negative, net_pay_negative, loan_exceeds_net, benefit_exceeds_net, dues_exceed_net,
}
use plutus_hr_system.Compliance.{RuleVersion}
use plutus_hr_system.Payroll.Statutory.{
  PayFrequency, compute_pensionable_pay, compute_pension_employee, compute_pension_employer,
  compute_nhf, compute_rent_relief, prorate_annual_amount,
}
use plutus_hr_system.Payroll.Paye.{compute_chargeable_income, compute_incremental_paye}

-- The keyword arguments that every pass over one period shares (`_SharedComputationKwargs`).
pub record PayslipInputs : Type 0 where
  pub basic_minor : ℤ
  pub housing_minor : ℤ
  pub transport_minor : ℤ
  pub other_earnings_minor : ℤ
  pub annual_rent_paid_minor : ℤ
  pub periods_elapsed_this_year : ℤ
  pub frequency : PayFrequency
  pub cumulative_gross_before_minor : ℤ
  pub cumulative_pension_employee_before_minor : ℤ
  pub cumulative_nhf_before_minor : ℤ
  pub cumulative_paye_withheld_before_minor : ℤ
  pub rules : RuleVersion

pub record PayslipComputation : Type 0 where
  pub gross_minor : ℤ
  pub pensionable_pay_minor : ℤ
  pub pension_employee_minor : ℤ
  pub pension_employer_minor : ℤ
  pub nhf_minor : ℤ
  pub cumulative_rent_relief_minor : ℤ
  pub cumulative_chargeable_income_minor : ℤ
  pub paye_minor : ℤ
  pub loan_deduction_minor : ℤ
  pub benefit_deduction_minor : ℤ
  pub union_dues_deduction_minor : ℤ
  pub net_pay_minor : ℤ

-- The result that `compute_payslip` returns, from the record before deductions.
unfoldable pub taken : PayslipComputation → ℤ → ℤ → ℤ → PayslipComputation
taken statutory loan benefit dues = record statutory {
  loan_deduction_minor = loan;
  benefit_deduction_minor = benefit;
  union_dues_deduction_minor = dues;
  net_pay_minor = statutory.net_pay_minor -ℤ loan -ℤ benefit -ℤ dues;
}

-- The checks and the subtractions that end `compute_payslip`; `statutory` is the record with no
-- deduction and the net pay before them.
unfoldable pub deduct : PayslipComputation → ℤ → ℤ → ℤ → Result ValueError PayslipComputation
deduct statutory loan benefit dues = do
  let net_before_loan = statutory.net_pay_minor
  raise_if (is_neg net_before_loan) net_pay_negative
  raise_if (ltb_ℤ net_before_loan loan) loan_exceeds_net
  let net_before_benefits = net_before_loan -ℤ loan
  raise_if (ltb_ℤ net_before_benefits benefit) benefit_exceeds_net
  let net_before_dues = net_before_benefits -ℤ benefit
  raise_if (ltb_ℤ net_before_dues dues) dues_exceed_net
  ok (taken statutory loan benefit dues)

-- The `PayslipComputation(…)` call, from the period's figures, before any deduction.
unfoldable pub computation_of : ℤ → ℤ → ℤ → ℤ → ℤ → ℤ → ℤ → ℤ → PayslipComputation
computation_of other_earnings pensionable pension_employee pension_employer nhf relief chargeable
      paye =
    let gross = pensionable +ℤ other_earnings in
    record {
      gross_minor = gross;
      pensionable_pay_minor = pensionable;
      pension_employee_minor = pension_employee;
      pension_employer_minor = pension_employer;
      nhf_minor = nhf;
      cumulative_rent_relief_minor = relief;
      cumulative_chargeable_income_minor = chargeable;
      paye_minor = paye;
      loan_deduction_minor = pos 0;
      benefit_deduction_minor = pos 0;
      union_dues_deduction_minor = pos 0;
      net_pay_minor = gross -ℤ pension_employee -ℤ nhf -ℤ paye;
    }

-- The middle of `compute_payslip`: from the pensionable pay to the net pay before deductions.
unfoldable pub statutory_pay : PayslipInputs → Result ValueError PayslipComputation
statutory_pay i = do
  pensionable ← compute_pensionable_pay i.basic_minor i.housing_minor i.transport_minor
  let gross = pensionable +ℤ i.other_earnings_minor
  pension_employee ← compute_pension_employee pensionable i.rules.pension
  pension_employer ← compute_pension_employer pensionable i.rules.pension
  nhf ← compute_nhf i.basic_minor i.rules.nhf
  annual_rent_relief ← compute_rent_relief i.annual_rent_paid_minor i.rules.paye
  relief ← prorate_annual_amount annual_rent_relief i.periods_elapsed_this_year i.frequency
  chargeable ←
      compute_chargeable_income (i.cumulative_gross_before_minor +ℤ gross)
        (i.cumulative_pension_employee_before_minor +ℤ pension_employee)
        (i.cumulative_nhf_before_minor +ℤ nhf) relief
  paye ←
      compute_incremental_paye chargeable i.cumulative_paye_withheld_before_minor i.rules.paye.bands
  ok (
      computation_of i.other_earnings_minor pensionable pension_employee pension_employer nhf relief
        chargeable paye)

unfoldable pub compute_payslip : PayslipInputs → ℤ → ℤ → ℤ → Result ValueError PayslipComputation
compute_payslip i loan benefit dues = do
  raise_if (is_neg i.other_earnings_minor) (negative "other_earnings_minor")
  raise_if (is_neg loan) (negative "loan_deduction_minor")
  raise_if (is_neg benefit) (negative "benefit_deduction_minor")
  raise_if (is_neg dues) (negative "union_dues_deduction_minor")
  statutory ← statutory_pay i
  deduct statutory loan benefit dues
