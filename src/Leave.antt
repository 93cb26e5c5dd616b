-- ===== src/Leave.antt =====
-- Leave and its encashment: app/services/leave.py and app/services/leave_encashment.py, on the rows of
-- one organisation. A request is found by its id, as the routes find it.
pub mod Rows
pub mod Taken
mod Tests
use plutus_hr_system.Prelude.{
  ℕ, Bool, not, ◌&&◌, ◌∷◌, ◌==◌, ℤ, ◌+ℤ◌, ltb_ℤ, is_pos, Result, ok, ◌>>=◌, ◌>>◌, raise_if,
  or_raise,
}
use plutus_hr_system.Errors.{
  ValueError, not_positive, row_not_found, end_before_start, request_not_pending,
  insufficient_leave,
}
use plutus_hr_system.Calendar.{Date, before}
use plutus_hr_system.Payroll.Statutory.{compute_leave_balance}
use plutus_hr_system.Tables.{total_where, find_row, change_row}
use plutus_hr_system.Leave.Rows.{
  LeaveType, LeaveStatus, is_pending, is_approved, LeaveRequest, LeaveEncashmentStatus,
  is_pending_encashment, is_consumed, LeaveEncashmentRequest, LeaveBook,
}

-- `_leave_year_start`
abbrev pub leave_year_start : Date → Date
leave_year_start on = record { year = on.year; month = 1; day = 1 }

-- The conditions of the two queries.
unfoldable pub is_taken : ℕ → Date → LeaveRequest → Bool
is_taken employee year_start r =
    r.employee_id == employee && is_approved r.status && not (before r.start_date year_start)

unfoldable pub is_encashed : ℕ → Date → LeaveEncashmentRequest → Bool
is_encashed employee year_start r =
    r.employee_id == employee && is_consumed r.status && not (before r.requested_date year_start)

abbrev pub leave_days : LeaveRequest → ℤ
leave_days r = r.days

abbrev pub encashed_days : LeaveEncashmentRequest → ℤ
encashed_days r = r.days

unfoldable pub approved_days_taken : LeaveBook → ℕ → Date → ℤ
approved_days_taken book employee on =
    let year_start = leave_year_start on in
    total_where (is_taken employee year_start) leave_days book.requests
    +ℤ total_where (is_encashed employee year_start) encashed_days book.encashments

unfoldable pub leave_balance : LeaveBook → ℕ → Date → Result ValueError ℤ
leave_balance book employee on =
    compute_leave_balance (book.entitlements employee) (approved_days_taken book employee on)

abbrev pub decide_leave : LeaveStatus → LeaveRequest → LeaveRequest
decide_leave status r = record r { status = status }

abbrev pub id_of_leave : LeaveRequest → ℕ
id_of_leave r = r.id

abbrev pub with_leave : LeaveStatus → ℕ → LeaveBook → LeaveBook
with_leave status id book = record book {
  requests = change_row id_of_leave id (decide_leave status) book.requests;
}

unfoldable pub approve_leave_request : ℕ → LeaveBook → Result ValueError LeaveBook
approve_leave_request id book = do
  request ← or_raise (find_row id_of_leave id book.requests) row_not_found
  raise_if (not (is_pending request.status)) request_not_pending
  remaining ← leave_balance book request.employee_id request.start_date
  raise_if (ltb_ℤ remaining request.days) insufficient_leave
  ok (with_leave LeaveStatus.approved id book)

unfoldable pub reject_leave_request : ℕ → LeaveBook → Result ValueError LeaveBook
reject_leave_request id book = do
  request ← or_raise (find_row id_of_leave id book.requests) row_not_found
  raise_if (not (is_pending request.status)) request_not_pending
  ok (with_leave LeaveStatus.rejected id book)

unfoldable pub submit_leave_request :
    ℕ → ℕ → LeaveType → Date → Date → ℤ → LeaveBook → Result ValueError LeaveBook
submit_leave_request id employee leave_type start_date end_date days book = do
  raise_if (not (is_pos days)) (not_positive "days")
  raise_if (before end_date start_date) end_before_start
  let request : LeaveRequest = record {
    id = id;
    employee_id = employee;
    leave_type = leave_type;
    start_date = start_date;
    end_date = end_date;
    days = days;
    status = LeaveStatus.pending;
  }
  ok (record book { requests = request ∷ book.requests })

abbrev pub decide_encashment :
    LeaveEncashmentStatus → LeaveEncashmentRequest → LeaveEncashmentRequest
decide_encashment status r = record r { status = status }

abbrev pub id_of_encashment : LeaveEncashmentRequest → ℕ
id_of_encashment r = r.id

abbrev pub with_encashment : LeaveEncashmentStatus → ℕ → LeaveBook → LeaveBook
with_encashment status id book = record book {
  encashments = change_row id_of_encashment id (decide_encashment status) book.encashments;
}

unfoldable pub submit_leave_encashment :
    ℕ → ℕ → Date → ℤ → ℤ → LeaveBook → Result ValueError LeaveBook
submit_leave_encashment id employee requested_date days amount_minor book = do
  raise_if (not (is_pos days)) (not_positive "days")
  raise_if (not (is_pos amount_minor)) (not_positive "amount_minor")
  let request : LeaveEncashmentRequest = record {
    id = id;
    employee_id = employee;
    requested_date = requested_date;
    days = days;
    amount_minor = amount_minor;
    status = LeaveEncashmentStatus.pending;
  }
  ok (record book { encashments = request ∷ book.encashments })

unfoldable pub approve_leave_encashment : ℕ → LeaveBook → Result ValueError LeaveBook
approve_leave_encashment id book = do
  request ← or_raise (find_row id_of_encashment id book.encashments) row_not_found
  raise_if (not (is_pending_encashment request.status)) request_not_pending
  remaining ← leave_balance book request.employee_id request.requested_date
  raise_if (ltb_ℤ remaining request.days) insufficient_leave
  ok (with_encashment LeaveEncashmentStatus.approved id book)

unfoldable pub reject_leave_encashment : ℕ → LeaveBook → Result ValueError LeaveBook
reject_leave_encashment id book = do
  request ← or_raise (find_row id_of_encashment id book.encashments) row_not_found
  raise_if (not (is_pending_encashment request.status)) request_not_pending
  ok (with_encashment LeaveEncashmentStatus.rejected id book)
