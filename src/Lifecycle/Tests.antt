-- ===== src/Lifecycle/Tests.antt =====
-- A run that pays overtime and the last of a loan, locked and reversed.
use plutus_hr_system.Prelude.{
  ℕ, ◌≡◌, refl, false, none, some, List, [], ◌∷◌, map, ◌==◌, if◌then◌else◌, ℤ, pos, ◌+ℤ◌, ◌-ℤ◌,
  Result, ok, err, ◌>>=◌, Ensures, length,
}
use plutus_hr_system.Errors.{ValueError}
use plutus_hr_system.Accounting.{plain_line, assert_balanced, check_lines, mirror_postings}
use plutus_hr_system.Loans.{LoanStatus}
use plutus_hr_system.Ledger.{
  Journal, require_open_period, require_active_accounts, is_posted, written, post_journal,
  find_journal, is_reversed, reverse_journal,
}
use plutus_hr_system.Lifecycle.Rows.{
  PayRunStatus, PayRun, OvertimeStatus, Payslip, Books, repaid, outstanding,
}
use plutus_hr_system.Lifecycle.Lock.{
  Calculated, payslip_source, of_run, mark_paid, active_loan, set_loan_status, record_loan,
  record_period_effects, process_employee_payslip, process_all, add_liabilities, run_pay_run,
  lock_pay_run,
}
use plutus_hr_system.Lifecycle.Reverse.{
  acted_on, journals_of, reverse_journals, drop_pending, restore, is_affected, reopen_loans,
  reverse_pay_run,
}
use plutus_hr_system.Accounting.Balance.{IsEntry, assert_balanced_iff}
use plutus_hr_system.Lifecycle.Reverse.Returns.{reverse_pay_run-returns}
use plutus_hr_system.Lifecycle.Undone.{IsUndone}
use plutus_hr_system.Lifecycle.RoundTrip.{lock-reverse-IsUndone}

abbrev march : PayRun
march = record {
  id = 4;
  period_end = record { year = 2026; month = 3; day = 31 };
  employee_ids = 9 ∷ [];
}

abbrev before_lock : Books
before_lock = record {
  statuses = λ id. if id == 4 then some PayRunStatus.validated else none;
  locked_by = λ id. none;
  disbursed_by = λ id. none;
  payslips = [];
  liabilities = [];
  overtime =
      record {
        employee_id = 9;
        amount_minor = pos 50;
        status = OvertimeStatus.approved;
        pay_run_id = none;
      }
      ∷ [];
  encashments = [];
  loans =
      record { id = 2; employee_id = 9; total_repayable_minor = pos 30; status = LoanStatus.active }
      ∷ [];
  repayments = [];
  ledger = record { journals = []; chart = []; lock_date = none };
}

-- Gross pay of 150, of which 30 go to the loan.
abbrev calculated : Calculated
calculated = record {
  gross_minor = pos 150;
  net_minor = pos 120;
  loan_deduction_minor = pos 30;
  lines =
      plain_line "payroll_expense_gross" (pos 150) (pos 0) none
      ∷ plain_line "employee_loan_receivable" (pos 0) (pos 30) none
      ∷ plain_line "net_pay_payable" (pos 0) (pos 120) none
      ∷ [];
}

abbrev no_schemes : List Payslip → List ℤ × ℤ
no_schemes payslips = (pos 10 ∷ [], pos 1)

lock-reverse-IsUndone_example : Ensures (IsUndone 4 before_lock) (
    lock_pay_run march 1 (λ b e. ok calculated) no_schemes before_lock
    >>= reverse_pay_run march false march.period_end)
lock-reverse-IsUndone_example =
    lock-reverse-IsUndone march (λ b e. ok calculated) no_schemes 1 false march.period_end
      before_lock
      (record {
        no_overtime = (refl, tt);
        no_encashment = tt;
        no_liability = tt;
        no_repayment = tt;
        no_line = tt;
        ledger_sound = tt;
      })

-- How many payslips, liabilities, repayments and journals there are, if the code does not raise.
abbrev summary : Result ValueError Books → List ℕ
summary (ok b) =
    length b.payslips ∷ length b.liabilities ∷ length b.repayments ∷ length b.ledger.journals ∷ []
summary (err _) = []

locked_test :
    summary (lock_pay_run march 1 (λ b e. ok calculated) no_schemes before_lock)
    ≡ 1 ∷ 2 ∷ 1 ∷ 2 ∷ []
unfolding lock_pay_run run_pay_run process_all process_employee_payslip record_period_effects
    record_loan mark_paid active_loan set_loan_status outstanding repaid add_liabilities
    post_journal assert_balanced check_lines require_open_period require_active_accounts is_posted
    written ◌+ℤ◌ ◌-ℤ◌
locked_test = refl

reversed_test :
    summary (
      lock_pay_run march 1 (λ b e. ok calculated) no_schemes before_lock
      >>= reverse_pay_run march false march.period_end)
    ≡ 1 ∷ 0 ∷ 1 ∷ 4 ∷ []
unfolding lock_pay_run run_pay_run process_all process_employee_payslip record_period_effects
    record_loan mark_paid active_loan set_loan_status outstanding repaid add_liabilities
    post_journal assert_balanced check_lines require_open_period require_active_accounts is_posted
    written reverse_pay_run acted_on reverse_journals journals_of reverse_journal find_journal
    is_reversed mirror_postings drop_pending restore reopen_loans is_affected ◌+ℤ◌ ◌-ℤ◌
reversed_test = refl

-- The run of before, locked with one journal.
abbrev march_journal : Journal
march_journal = record {
  id = 0;
  entry_date = march.period_end;
  source = payslip_source 0;
  reversal_of_id = none;
  lines = map (of_run 4) calculated.lines;
}

abbrev locked_books : Books
locked_books = record before_lock {
  statuses = λ id. if id == 4 then some PayRunStatus.locked else none;
  ledger = record { journals = march_journal ∷ []; chart = []; lock_date = none };
}

march-IsEntry : IsEntry march_journal.lines
march-IsEntry =
    (assert_balanced_iff march_journal.lines).0 (unfold assert_balanced check_lines ◌+ℤ◌ in refl)

reverse_pay_run-returns_example :
    (after : Books) × (reverse_pay_run march false march.period_end locked_books ≡ ok after)
unfolding acted_on require_open_period is_posted is_reversed
reverse_pay_run-returns_example =
    reverse_pay_run-returns march false march.period_end locked_books refl refl
      (march-IsEntry, refl, refl, tt, tt) refl ((λ e. (refl, refl)), tt)
