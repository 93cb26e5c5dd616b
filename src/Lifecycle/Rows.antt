-- ===== src/Lifecycle/Rows.antt =====
-- The rows that the lifecycle of pay runs reads and writes: app/models/pay_run.py, overtime.py,
-- leave_encashment.py, statutory_liability.py and loan.py, and the queries on them.
use plutus_hr_system.Prelude.{
  ℕ, Bool, true, false, not, ◌&&◌, Option, none, some, List, [], ◌∷◌, ◌==◌, if◌then◌else◌, ℤ, pos,
  ◌+ℤ◌, ◌-ℤ◌,
}
use plutus_hr_system.Calendar.{Date}
use plutus_hr_system.Ledger.{Ledger}
use plutus_hr_system.Loans.{LoanStatus}

pub data PayRunStatus : Type 0 where
  draft validated locked reversed : PayRunStatus

abbrev pub is_locked : PayRunStatus → Bool
is_locked PayRunStatus.locked = true
is_locked _ = false

abbrev pub is_reversed_run : PayRunStatus → Bool
is_reversed_run PayRunStatus.reversed = true
is_reversed_run _ = false

pub record PayRun : Type 0 where
  pub id : ℕ
  pub period_end : Date
  pub employee_ids : List ℕ

-- The statuses of overtime entries, and of requests for the encashment of leave.
pub data OvertimeStatus : Type 0 where
  pending approved rejected paid : OvertimeStatus

abbrev pub is_approved : OvertimeStatus → Bool
is_approved OvertimeStatus.approved = true
is_approved _ = false

-- An overtime entry, and likewise a request for encashment: what a pay run picks up and pays.
pub record Overtime : Type 0 where
  pub employee_id : ℕ
  pub amount_minor : ℤ
  pub status : OvertimeStatus
  pub pay_run_id : Option ℕ

pub data LiabilityStatus : Type 0 where
  pending filed remitted : LiabilityStatus

abbrev pub is_pending : LiabilityStatus → Bool
is_pending LiabilityStatus.pending = true
is_pending _ = false

pub record StatutoryLiability : Type 0 where
  pub pay_run_id : Option ℕ
  pub amount_minor : ℤ
  pub status : LiabilityStatus

pub record Loan : Type 0 where
  pub id : ℕ
  pub employee_id : ℕ
  pub total_repayable_minor : ℤ
  pub status : LoanStatus

-- The payslip that a repayment names is kept as the run that it is of, which never changes.
pub record LoanRepayment : Type 0 where
  pub loan_id : ℕ
  pub pay_run_id : Option ℕ
  pub amount_minor : ℤ

pub record Payslip : Type 0 where
  pub pay_run_id : ℕ
  pub employee_id : ℕ
  pub gross_minor : ℤ
  pub net_minor : ℤ

-- The tables of one organisation. A run has a status, who locked it and who confirmed that it was
-- paid; `none` as a status is no such run.
pub record Books : Type 0 where
  pub statuses : ℕ → Option PayRunStatus
  pub locked_by : ℕ → Option ℕ
  pub disbursed_by : ℕ → Option ℕ
  pub payslips : List Payslip
  pub liabilities : List StatutoryLiability
  pub overtime : List Overtime
  pub encashments : List Overtime
  pub loans : List Loan
  pub repayments : List LoanRepayment
  pub ledger : Ledger

abbrev pub update {ℓ} : {A : Type ℓ} → (ℕ → A) → ℕ → A → ℕ → A
update f key value at = if at == key then value else f at

abbrev pub is_of_run : Option ℕ → ℕ → Bool
is_of_run none run = false
is_of_run (some id) run = id == run

abbrev pub status_is_reversed : Option PayRunStatus → Bool
status_is_reversed none = false
status_is_reversed (some status) = is_reversed_run status

-- A repayment counts unless the run of its payslip is reversed.
abbrev pub counts : (ℕ → Option PayRunStatus) → Option ℕ → Bool
counts statuses none = true
counts statuses (some run) = not (status_is_reversed (statuses run))

unfoldable pub repaid : (ℕ → Option PayRunStatus) → ℕ → List LoanRepayment → ℤ
repaid statuses loan [] = pos 0
repaid statuses loan (r ∷ rs) =
    (if r.loan_id == loan && counts statuses r.pay_run_id then r.amount_minor else pos 0)
    +ℤ repaid statuses loan rs

-- `outstanding_loan_balance`
unfoldable pub outstanding : Books → Loan → ℤ
outstanding books loan =
    loan.total_repayable_minor -ℤ repaid books.statuses loan.id books.repayments
