-- ===== src/Leave/Tests.antt =====
-- Leave on concrete requests.
use plutus_hr_system.Prelude.{
  ℕ, ◌≡◌, refl, ◌↔◌, List, [], ◌∷◌, arith, ℤ, pos, ◌+ℤ◌, ◌-ℤ◌, ◌≤ℤ◌, max_ℤ, ok, err,
}
use plutus_hr_system.Errors.{insufficient_leave}
use plutus_hr_system.Calendar.{
  Date, IsDate, days_in_month, ordinal, days_before_month, days_before_year, is_leap,
}
use plutus_hr_system.Payroll.Statutory.{compute_leave_balance}
use plutus_hr_system.Tables.{total_where, find_row, change_row}
use plutus_hr_system.Leave.Rows.{LeaveType, LeaveStatus, LeaveRequest, LeaveBook}
use plutus_hr_system.Leave.{
  is_taken, is_encashed, approved_days_taken, leave_balance, approve_leave_request,
  submit_leave_request,
}
use plutus_hr_system.Leave.Taken.{days_of_year, Reached, opened, leave_submitted, leave_approved}
use plutus_hr_system.Leave.Taken.Exact.{approve_leave_request_iff}
use plutus_hr_system.Leave.Taken.Bound.{Reached-days_of_year}

abbrev on_day : ℕ → ℕ → Date
on_day year day = record { year = year; month = 3; day = day }

abbrev twenty_days : ℕ → ℤ
twenty_days employee = pos 20

abbrev request : ℕ → ℕ → ℤ → LeaveStatus → LeaveRequest
request id year days status = record {
  id = id;
  employee_id = 7;
  leave_type = LeaveType.annual;
  start_date = on_day year 2;
  end_date = on_day year 20;
  days = days;
  status = status;
}

abbrev book_of : List LeaveRequest → LeaveBook
book_of requests = record { entitlements = twenty_days; requests = requests; encashments = [] }

second_of_march : IsDate (on_day 2026 2)
unfolding days_in_month
second_of_march = record {
  year_from = omega arith;
  month_from = omega arith;
  month_to = omega arith;
  day_from = omega arith;
  day_to = omega arith;
}

fifteen_approved : Reached twenty_days (book_of (request 1 2026 (pos 15) LeaveStatus.approved ∷ []))
unfolding submit_leave_request approve_leave_request find_row change_row total_where leave_balance
    compute_leave_balance approved_days_taken is_taken is_encashed ordinal days_before_month
    days_before_year days_in_month is_leap ◌+ℤ◌ ◌-ℤ◌ max_ℤ
fifteen_approved =
    leave_approved 1 (book_of (request 1 2026 (pos 15) LeaveStatus.pending ∷ [])) _
      (leave_submitted 1 7 LeaveType.annual (on_day 2026 2) (on_day 2026 20) (pos 15) (book_of []) _
        second_of_march opened refl)
      refl

Reached-days_of_year_example :
    days_of_year (book_of (request 1 2026 (pos 15) LeaveStatus.approved ∷ [])) 7 2026 ≤ℤ pos 20
Reached-days_of_year_example =
    Reached-days_of_year twenty_days (book_of (request 1 2026 (pos 15) LeaveStatus.approved ∷ [])) 7
      2026 fifteen_approved (omega arith)

-- Leave that is approved for the next year counts against this year's balance.
next_years_leave_test :
    approve_leave_request 2 (
      book_of (
        request 2 2026 (pos 1) LeaveStatus.pending
        ∷ request 1 2027 (pos 20) LeaveStatus.approved
        ∷ []))
    ≡ err insufficient_leave
unfolding approve_leave_request find_row total_where leave_balance compute_leave_balance
    approved_days_taken is_taken is_encashed ordinal days_before_month days_before_year
    days_in_month is_leap ◌+ℤ◌ ◌-ℤ◌ max_ℤ
next_years_leave_test = refl

approve_leave_request_iff_example :
    (approve_leave_request 1 (book_of (request 1 2026 (pos 15) LeaveStatus.pending ∷ []))
      ≡ ok (book_of (request 1 2026 (pos 15) LeaveStatus.approved ∷ [])))
    ↔ (days_of_year (book_of (request 1 2026 (pos 15) LeaveStatus.pending ∷ [])) 7 2026 +ℤ pos 15)
      ≤ℤ pos 20
unfolding find_row change_row
approve_leave_request_iff_example =
    approve_leave_request_iff 1 (book_of (request 1 2026 (pos 15) LeaveStatus.pending ∷ []))
      (request 1 2026 (pos 15) LeaveStatus.pending) refl refl (omega arith)
      (((refl, second_of_march), λ counted. omega arith), tt) tt
