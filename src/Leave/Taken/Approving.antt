-- ===== src/Leave/Taken/Approving.antt =====
-- What the balance check of app/services/leave.py leaves room for.
use plutus_hr_system.Prelude.{
  ℕ, ◌≡◌, refl, Bool, true, false, not, ◌&&◌, arith, ◌==◌, if◌then◌else◌, ==_iff, ℤ, pos, ◌+ℤ◌,
  ◌≤ℤ◌, ltb_ℤ, is_neg, is_pos, max_ℤ, int_laws, Ensures, Ensures-raise_if, All,
}
use plutus_hr_system.Calendar.{Date, IsDate, ordinal, before}
use plutus_hr_system.Payroll.Statutory.{compute_leave_balance}
use plutus_hr_system.Tables.{share, total_where-le}
use plutus_hr_system.Leave.Rows.{
  is_approved, LeaveRequest, is_consumed, LeaveEncashmentRequest, LeaveBook,
}
use plutus_hr_system.Leave.{
  leave_year_start, is_taken, is_encashed, leave_days, encashed_days, approved_days_taken,
  leave_balance,
}
use plutus_hr_system.Leave.Taken.{
  taken_in_year, encashed_in_year, days_of_year, IsRequest, IsEncashment,
}

-- A date is not before its own year's first day.
pub from_year_start :
    (d on : Date) → IsDate d → d.year ≡ on.year → before d (leave_year_start on) ≡ false
unfolding ordinal
from_year_start d on v e = rw e (ground arith)

more_days :
    (own counted in_year from_start : Bool) (days : ℤ)
    → is_pos days ≡ true
    → (in_year ≡ true → from_start ≡ true)
    → (if own && counted && in_year then days else pos 0)
      ≤ℤ (if own && counted && from_start then days else pos 0)
more_days own counted in_year from_start days p h = ground arith

counts_more :
    (employee : ℕ) (on : Date) (r : LeaveRequest)
    → IsRequest r
    → share (taken_in_year employee on.year) leave_days r
      ≤ℤ share (is_taken employee (leave_year_start on)) leave_days r
unfolding is_taken
counts_more employee on r v =
    more_days (r.employee_id == employee) (is_approved r.status) (r.start_date.year == on.year)
      (not (before r.start_date (leave_year_start on))) r.days v.0
      λ e. rw (from_year_start r.start_date on v.1 ((==_iff r.start_date.year on.year).0 e)) refl

encashed_more :
    (employee : ℕ) (on : Date) (r : LeaveEncashmentRequest)
    → IsEncashment r
    → share (encashed_in_year employee on.year) encashed_days r
      ≤ℤ share (is_encashed employee (leave_year_start on)) encashed_days r
unfolding is_encashed
encashed_more employee on r v =
    more_days (r.employee_id == employee) (is_consumed r.status) (r.requested_date.year == on.year)
      (not (before r.requested_date (leave_year_start on))) r.days v.0
      λ e.
        rw (from_year_start r.requested_date on v.1 ((==_iff r.requested_date.year on.year).0 e))
          refl

-- The days of a year are among those that the check counts.
pub days_of_year-le :
    (book : LeaveBook) (employee : ℕ) (on : Date)
    → All IsRequest book.requests
    → All IsEncashment book.encashments
    → days_of_year book employee on.year ≤ℤ approved_days_taken book employee on
unfolding approved_days_taken
days_of_year-le book employee on h k =
    let a =
      total_where-le IsRequest (taken_in_year employee on.year)
        (is_taken employee (leave_year_start on)) leave_days book.requests (counts_more employee on)
        h in
    let b =
      total_where-le IsEncashment (encashed_in_year employee on.year)
        (is_encashed employee (leave_year_start on)) encashed_days book.encashments
        (encashed_more employee on) k in
    grind int_laws

-- What the balance is, where it does not raise.
pub leave_balance-room :
    (book : LeaveBook) (employee : ℕ) (on : Date) (days : ℤ)
    → is_pos days ≡ true
    → Ensures
        (λ (remaining : ℤ).
          ltb_ℤ remaining days ≡ false
          → (approved_days_taken book employee on +ℤ days) ≤ℤ book.entitlements employee)
        (leave_balance book employee on)
unfolding leave_balance compute_leave_balance
leave_balance-room book employee on days p =
    let Q : ℤ → Type 0 = λ remaining.
      ltb_ℤ remaining days ≡ false
      → (approved_days_taken book employee on +ℤ days) ≤ℤ book.entitlements employee in
    Ensures-raise_if Q (is_neg (book.entitlements employee)) _ _ λ a.
      Ensures-raise_if Q (is_neg (approved_days_taken book employee on)) _ _
        λ b fits. unfold max_ℤ in grind int_laws
