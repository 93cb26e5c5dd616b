-- ===== src/Payroll/Postings.antt =====
-- The journal of one payslip: app/domain/payroll/postings.py, and the lines that
-- `process_employee_payslip` of app/services/payroll.py makes of it.
pub mod Balanced
use Prim.Native.String.{String}
use plutus_hr_system.Prelude.{
  ℕ, Option, some, List, [], ◌∷◌, map, if◌then◌else◌, ℤ, pos, ◌+ℤ◌, is_nonzero,
}
use plutus_hr_system.Accounting.{PostingLine}
use plutus_hr_system.Payroll.Payslip.{PayslipComputation}

pub record Posting : Type 0 where
  pub account : String
  pub debit_minor : ℤ
  pub credit_minor : ℤ

abbrev pub debit : String → ℤ → Posting
debit account amount = record { account = account; debit_minor = amount; credit_minor = pos 0 }

abbrev pub credit : String → ℤ → Posting
credit account amount = record { account = account; debit_minor = pos 0; credit_minor = amount }

-- `if amount: postings.append(…)`
pub append_if : ℤ → Posting → List Posting → List Posting
append_if amount posting rest = if is_nonzero amount then posting ∷ rest else rest

unfoldable pub build_payslip_postings : PayslipComputation → List Posting
build_payslip_postings c =
    let pension = c.pension_employee_minor +ℤ c.pension_employer_minor in
    debit "payroll_expense_gross" c.gross_minor
    ∷ append_if c.pension_employer_minor
        (debit "payroll_expense_employer_pension" c.pension_employer_minor)
        (append_if c.paye_minor (credit "paye_payable" c.paye_minor) (
          append_if pension (credit "pension_payable" pension) (
            append_if c.nhf_minor (credit "nhf_payable" c.nhf_minor) (
              append_if c.loan_deduction_minor
                (credit "employee_loan_receivable" c.loan_deduction_minor)
                (append_if c.benefit_deduction_minor
                  (credit "benefit_deductions_recovered" c.benefit_deduction_minor)
                  (append_if c.union_dues_deduction_minor
                    (credit "union_dues_payable" c.union_dues_deduction_minor)
                    (append_if c.net_pay_minor (credit "net_pay_payable" c.net_pay_minor) [])))))))

-- The `PostingLine`s of the payslip's journal, tagged with the employee and the run.
unfoldable pub payslip_line : String → ℕ → Option ℕ → ℕ → Posting → PostingLine
payslip_line description employee department run posting = record {
  account = posting.account;
  debit_minor = posting.debit_minor;
  credit_minor = posting.credit_minor;
  description = some description;
  employee_id = some employee;
  department_id = department;
  pay_run_id = some run;
}

unfoldable pub payslip_lines : String → ℕ → Option ℕ → ℕ → PayslipComputation → List PostingLine
payslip_lines description employee department run c =
    map (payslip_line description employee department run) (build_payslip_postings c)
