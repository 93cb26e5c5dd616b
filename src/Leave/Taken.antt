-- ===== src/Leave/Taken.antt =====
-- The leave that a year's entitlement is used up by, and the books that the operations of
-- app/services/leave.py and app/services/leave_encashment.py lead to.
pub mod Approving
pub mod Within
pub mod Encashed
pub mod Bound
pub mod Exact
use plutus_hr_system.Prelude.{ℕ, ◌≡◌, Bool, true, ◌&&◌, some, [], ◌==◌, ℤ, ◌+ℤ◌, is_pos, ok}
use plutus_hr_system.Errors.{ValueError}
use plutus_hr_system.Calendar.{Date, IsDate}
use plutus_hr_system.Tables.{total_where, find_row}
use plutus_hr_system.Leave.Rows.{
  LeaveType, is_approved, LeaveRequest, LeaveEncashmentStatus, is_consumed, LeaveEncashmentRequest,
  LeaveBook,
}
use plutus_hr_system.Leave.{
  leave_days, encashed_days, approve_leave_request, reject_leave_request, submit_leave_request,
  id_of_encashment, with_encashment, submit_leave_encashment, approve_leave_encashment,
  reject_leave_encashment,
}

-- A row of the year, by the date that anchors it.
abbrev pub taken_in_year : ℕ → ℕ → LeaveRequest → Bool
taken_in_year employee year r =
    r.employee_id == employee && is_approved r.status && r.start_date.year == year

abbrev pub encashed_in_year : ℕ → ℕ → LeaveEncashmentRequest → Bool
encashed_in_year employee year r =
    r.employee_id == employee && is_consumed r.status && r.requested_date.year == year

-- The days of one leave year that were approved, taken as leave or encashed.
abbrev pub days_of_year : LeaveBook → ℕ → ℕ → ℤ
days_of_year book employee year =
    total_where (taken_in_year employee year) leave_days book.requests
    +ℤ total_where (encashed_in_year employee year) encashed_days book.encashments

-- The books that the operations lead to under fixed entitlements. A pay run pays an approved
-- encashment, and a reversal of the run makes it approved again.
pub data Reached (entitlements : ℕ → ℤ) : LeaveBook → Type 0 where
  opened :
      Reached entitlements (record { entitlements = entitlements; requests = []; encashments = [] })
  leave_submitted :
      (id employee : ℕ) (leave_type : LeaveType) (start_date end_date : Date) (days : ℤ)
      (book next : LeaveBook)
      → IsDate start_date
      → Reached entitlements book
      → submit_leave_request id employee leave_type start_date end_date days book ≡ ok next
      → Reached entitlements next
  leave_approved :
      (id : ℕ) (book next : LeaveBook)
      → Reached entitlements book
      → approve_leave_request id book ≡ ok next
      → Reached entitlements next
  leave_rejected :
      (id : ℕ) (book next : LeaveBook)
      → Reached entitlements book
      → reject_leave_request id book ≡ ok next
      → Reached entitlements next
  encashment_submitted :
      (id employee : ℕ) (requested_date : Date) (days amount_minor : ℤ) (book next : LeaveBook)
      → IsDate requested_date
      → Reached entitlements book
      → submit_leave_encashment id employee requested_date days amount_minor book ≡ ok next
      → Reached entitlements next
  encashment_approved :
      (id : ℕ) (book next : LeaveBook)
      → Reached entitlements book
      → approve_leave_encashment id book ≡ ok next
      → Reached entitlements next
  encashment_rejected :
      (id : ℕ) (book next : LeaveBook)
      → Reached entitlements book
      → reject_leave_encashment id book ≡ ok next
      → Reached entitlements next
  encashment_paid :
      (id : ℕ) (book : LeaveBook) (r : LeaveEncashmentRequest)
      → Reached entitlements book
      → find_row id_of_encashment id book.encashments ≡ some r
      → r.status ≡ LeaveEncashmentStatus.approved
      → Reached entitlements (with_encashment LeaveEncashmentStatus.paid id book)
  encashment_restored :
      (id : ℕ) (book : LeaveBook) (r : LeaveEncashmentRequest)
      → Reached entitlements book
      → find_row id_of_encashment id book.encashments ≡ some r
      → r.status ≡ LeaveEncashmentStatus.paid
      → Reached entitlements (with_encashment LeaveEncashmentStatus.approved id book)

-- What holds of every row: days to take, from a date that there is.
abbrev pub IsRequest : LeaveRequest → Type 0
IsRequest r = (is_pos r.days ≡ true) × IsDate r.start_date

abbrev pub IsEncashment : LeaveEncashmentRequest → Type 0
IsEncashment r = (is_pos r.days ≡ true) × IsDate r.requested_date
