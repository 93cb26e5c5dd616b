-- ===== src/Lifecycle/Lock.antt =====
-- Locking a pay run: lock_pay_run of app/services/pay_run_lifecycle.py, run_pay_run and
-- _record_period_effects of app/services/payroll.py.
use plutus_hr_system.Prelude.{
  ℕ, Bool, true, false, not, ◌&&◌, Option, none, some, List, [], ◌∷◌, ◌++◌, map, ◌==◌,
  if◌then◌else◌, ℤ, pos, ◌-ℤ◌, is_pos, is_nonzero, Result, ok, ◌>>=◌, ◌>>◌, raise_if, length,
}
use plutus_hr_system.Errors.{ValueError, run_not_validated}
use plutus_hr_system.Accounting.{PostingLine}
use plutus_hr_system.Loans.{LoanStatus, is_active}
use plutus_hr_system.Ledger.{Source, post_journal}
use plutus_hr_system.Lifecycle.Rows.{
  PayRunStatus, PayRun, OvertimeStatus, is_approved, Overtime, LiabilityStatus, StatutoryLiability,
  Loan, Payslip, Books, update, outstanding,
}

-- The query for an employee's approved entries that no run has paid.
abbrev pub is_due : ℕ → Overtime → Bool
is_due employee entry =
    entry.employee_id == employee
    && is_approved entry.status
    && (elim entry.pay_run_id [ none ↦ true | some _ ↦ false ])

abbrev pub paid_in : ℕ → Overtime → Overtime
paid_in run entry = record entry { status = OvertimeStatus.paid; pay_run_id = some run }

-- The loop that marks them paid.
unfoldable pub mark_paid : ℕ → ℕ → List Overtime → List Overtime
mark_paid run employee [] = []
mark_paid run employee (entry ∷ entries) =
    (if is_due employee entry then paid_in run entry else entry) ∷ mark_paid run employee entries

-- `active_loan`
unfoldable pub active_loan : ℕ → List Loan → Option Loan
active_loan employee [] = none
active_loan employee (loan ∷ loans) =
    if loan.employee_id == employee && is_active loan.status
    then some loan
    else active_loan employee loans

unfoldable pub set_loan_status : ℕ → LoanStatus → List Loan → List Loan
set_loan_status id status [] = []
set_loan_status id status (loan ∷ loans) =
    (if loan.id == id then record loan { status = status } else loan)
    ∷ set_loan_status id status loans

-- The repayment of a deduction, and the loan's end where nothing is left.
unfoldable pub record_loan : ℕ → Option Loan → ℤ → Books → Books
record_loan run none deduction books = books
record_loan run (some loan) deduction books =
    if is_pos deduction
    then record books {
      repayments =
          record { loan_id = loan.id; pay_run_id = some run; amount_minor = deduction }
          ∷ books.repayments;
      loans =
          if is_pos (outstanding books loan -ℤ deduction)
          then books.loans
          else set_loan_status loan.id LoanStatus.paid_off books.loans;
    }
    else books

unfoldable pub record_period_effects : ℕ → ℕ → ℤ → Books → Books
record_period_effects run employee deduction books =
    record_loan run (active_loan employee books.loans) deduction (record books {
      overtime = mark_paid run employee books.overtime;
      encashments = mark_paid run employee books.encashments;
    })

-- What the calculation of an employee's payslip comes to, and the lines of its journal.
pub record Calculated : Type 0 where
  pub gross_minor : ℤ
  pub net_minor : ℤ
  pub loan_deduction_minor : ℤ
  pub lines : List PostingLine

abbrev pub payslip_source : ℕ → Source
payslip_source payslip = record {
  source_type = "payroll";
  source_id = some payslip;
  source_event = "payslip.locked";
}

abbrev pub of_run : ℕ → PostingLine → PostingLine
of_run run line = record line { pay_run_id = some run }

abbrev pub payslip_of : PayRun → ℕ → Calculated → Payslip
payslip_of run employee calculated = record {
  pay_run_id = run.id;
  employee_id = employee;
  gross_minor = calculated.gross_minor;
  net_minor = calculated.net_minor;
}

-- `process_employee_payslip` on a calculation that may raise.
unfoldable pub process_employee_payslip :
    PayRun → ℕ → Result ValueError Calculated → Books → Result ValueError Books
process_employee_payslip run employee calculation books = do
  calculated ← calculation
  let payslip = payslip_of run employee calculated
  let effected = record_period_effects run.id employee calculated.loan_deduction_minor books
  ledger ←
      post_journal books.ledger run.period_end (payslip_source (length books.payslips)) false
        (map (of_run run.id) calculated.lines)
  ok (record effected { payslips = payslip ∷ books.payslips; ledger = ledger })

unfoldable pub process_all :
    PayRun → List ℕ → (Books → ℕ → Result ValueError Calculated) → Books → Result ValueError Books
process_all run [] calculate books = ok books
process_all run (employee ∷ employees) calculate books = do
  books' ← process_employee_payslip run employee (calculate books employee) books
  process_all run employees calculate books'

abbrev pub nsitf_source : ℕ → Source
nsitf_source run = record {
  source_type = "statutory_accrual";
  source_id = some run;
  source_event = "nsitf.accrued";
}

abbrev pub accrual_lines : ℕ → ℤ → List PostingLine
accrual_lines run amount =
    record {
      account = "payroll_expense_nsitf";
      debit_minor = amount;
      credit_minor = pos 0;
      description = none;
      employee_id = none;
      department_id = none;
      pay_run_id = some run;
    }
    ∷ record {
      account = "nsitf_payable";
      debit_minor = pos 0;
      credit_minor = amount;
      description = none;
      employee_id = none;
      department_id = none;
      pay_run_id = some run;
    }
    ∷ []

abbrev pub pending_liability : ℕ → ℤ → StatutoryLiability
pending_liability run amount = record {
  pay_run_id = some run;
  amount_minor = amount;
  status = LiabilityStatus.pending;
}

-- `generate_liabilities_for_pay_run` by the amounts of the schemes and NSITF's, which it posts.
unfoldable pub add_liabilities : PayRun → List ℤ → ℤ → Books → Result ValueError Books
add_liabilities run amounts nsitf_amount books = do
  ledger ←
      if is_nonzero nsitf_amount
      then post_journal books.ledger run.period_end (nsitf_source run.id) false
          (accrual_lines run.id nsitf_amount)
      else ok books.ledger
  let own = if is_nonzero nsitf_amount then amounts ++ nsitf_amount ∷ [] else amounts
  ok (record books {
    ledger = ledger;
    liabilities = books.liabilities ++ map (pending_liability run.id) own;
  })

abbrev pub is_empty : List ℕ → Bool
is_empty [] = true
is_empty (_ ∷ _) = false

-- `run_pay_run`. `schemes` works out the liabilities' amounts and NSITF's from the payslips.
unfoldable pub run_pay_run :
    PayRun
    → (Books → ℕ → Result ValueError Calculated)
    → (List Payslip → List ℤ × ℤ)
    → Books
    → Result ValueError Books
run_pay_run run calculate schemes books = do
  paid ← process_all run run.employee_ids calculate books
  let marked = record paid { statuses = update paid.statuses run.id (some PayRunStatus.locked) }
  let (amounts, nsitf_amount) = schemes marked.payslips
  if is_empty run.employee_ids then ok marked else add_liabilities run amounts nsitf_amount marked

abbrev pub has_status : (PayRunStatus → Bool) → Option PayRunStatus → Bool
has_status test none = false
has_status test (some status) = test status

abbrev pub is_validated : PayRunStatus → Bool
is_validated PayRunStatus.validated = true
is_validated _ = false

unfoldable pub lock_pay_run :
    PayRun
    → ℕ
    → (Books → ℕ → Result ValueError Calculated)
    → (List Payslip → List ℤ × ℤ)
    → Books
    → Result ValueError Books
lock_pay_run run account calculate schemes books = do
  raise_if (not (has_status is_validated (books.statuses run.id))) run_not_validated
  locked ← run_pay_run run calculate schemes books
  ok (record locked { locked_by = update locked.locked_by run.id (some account) })
