-- ===== src/Lifecycle/Reverse.antt =====
-- Reversing a locked pay run, confirming that it was paid, and discarding a draft: the rest of
-- app/services/pay_run_lifecycle.py.
pub mod Journals
pub mod Returns
use Prim.Native.String.{String}
use plutus_hr_system.Prelude.{
  ℕ, Bool, true, false, not, ◌&&◌, ◌||◌, none, some, List, [], ◌∷◌, ◌++◌, ◌==◌, if◌then◌else◌,
  is_pos, Result, ok, ◌>>=◌, ◌>>◌, raise_if,
}
use plutus_hr_system.Errors.{ValueError, run_not_locked, run_not_discardable, liabilities_acted_on}
use plutus_hr_system.Calendar.{Date}
use plutus_hr_system.Accounting.{PostingLine}
use plutus_hr_system.Loans.{LoanStatus}
use plutus_hr_system.Ledger.{Journal, Ledger, reverse_journal}
use plutus_hr_system.Lifecycle.Rows.{
  PayRunStatus, is_locked, PayRun, OvertimeStatus, Overtime, LiabilityStatus, is_pending,
  StatutoryLiability, Loan, LoanRepayment, Books, update, is_of_run, outstanding,
}
use plutus_hr_system.Lifecycle.Lock.{has_status}

-- The run's liabilities that were filed or remitted.
unfoldable pub acted_on : ℕ → List StatutoryLiability → Bool
acted_on run [] = false
acted_on run (l ∷ ls) = (is_of_run l.pay_run_id run && not (is_pending l.status)) || acted_on run ls

abbrev pub has_line : ℕ → List PostingLine → Bool
has_line run [] = false
has_line run (line ∷ lines) = is_of_run line.pay_run_id run || has_line run lines

-- The journals with a line of the run, oldest first.
unfoldable pub journals_of : ℕ → List Journal → List Journal
journals_of run [] = []
journals_of run (j ∷ js) = journals_of run js ++ (if has_line run j.lines then j ∷ [] else [])

-- The loop over the journals: each is reversed.
unfoldable pub reverse_journals : List Journal → Date → Ledger → Result ValueError Ledger
reverse_journals [] on ledger = ok ledger
reverse_journals (j ∷ js) on ledger = do
  ledger' ← reverse_journal ledger j.id on true (some "reversal of pay run")
  reverse_journals js on ledger'

unfoldable pub drop_pending : ℕ → List StatutoryLiability → List StatutoryLiability
drop_pending run [] = []
drop_pending run (l ∷ ls) =
    let kept = drop_pending run ls in
    if is_of_run l.pay_run_id run && is_pending l.status then kept else l ∷ kept

-- An entry that the run paid is approved and unpaid again.
unfoldable pub restore : ℕ → List Overtime → List Overtime
restore run [] = []
restore run (entry ∷ entries) =
    (if is_of_run entry.pay_run_id run
      then record entry { status = OvertimeStatus.approved; pay_run_id = none }
      else entry)
    ∷ restore run entries

-- The loans with a repayment by a payslip of the run.
unfoldable pub is_affected : ℕ → ℕ → List LoanRepayment → Bool
is_affected run loan [] = false
is_affected run loan (r ∷ rs) =
    (r.loan_id == loan && is_of_run r.pay_run_id run) || is_affected run loan rs

abbrev pub is_paid_off : LoanStatus → Bool
is_paid_off LoanStatus.paid_off = true
is_paid_off _ = false

-- A paid-off loan of the run with something outstanding again is active.
abbrev pub reopened : Books → ℕ → Loan → Loan
reopened books run loan =
    if is_affected run loan.id books.repayments
      && is_paid_off loan.status
      && is_pos (outstanding books loan)
    then record loan { status = LoanStatus.active }
    else loan

unfoldable pub reopen_loans : Books → ℕ → List Loan → List Loan
reopen_loans books run [] = []
reopen_loans books run (loan ∷ loans) = reopened books run loan ∷ reopen_loans books run loans

-- The books once the run is reversed, before its loans are looked at.
abbrev pub reversed_books : PayRun → Ledger → Books → Books
reversed_books run ledger books = record books {
  ledger = ledger;
  liabilities = drop_pending run.id books.liabilities;
  overtime = restore run.id books.overtime;
  encashments = restore run.id books.encashments;
  statuses = update books.statuses run.id (some PayRunStatus.reversed);
}

unfoldable pub reverse_pay_run : PayRun → Bool → Date → Books → Result ValueError Books
reverse_pay_run run acknowledged today books = do
  raise_if (not (has_status is_locked (books.statuses run.id))) run_not_locked
  raise_if (acted_on run.id books.liabilities && not acknowledged) liabilities_acted_on
  ledger ← reverse_journals (journals_of run.id books.ledger.journals) today books.ledger
  let undone = reversed_books run ledger books
  ok (record undone { loans = reopen_loans undone run.id undone.loans })

unfoldable pub mark_pay_run_paid : PayRun → ℕ → Books → Result ValueError Books
mark_pay_run_paid run account books = do
  raise_if (not (has_status is_locked (books.statuses run.id))) run_not_locked
  ok (record books { disbursed_by = update books.disbursed_by run.id (some account) })

abbrev pub is_discardable : PayRunStatus → Bool
is_discardable PayRunStatus.draft = true
is_discardable PayRunStatus.validated = true
is_discardable _ = false

unfoldable pub discard_pay_run_draft : PayRun → Books → Result ValueError Books
discard_pay_run_draft run books = do
  raise_if (not (has_status is_discardable (books.statuses run.id))) run_not_discardable
  ok (record books { statuses = update books.statuses run.id none })
