-- ===== src/Leave/Taken/Within.antt =====
-- The bound on a leave year's days in the books of app/services/leave.py and
-- app/services/leave_encashment.py.
use plutus_hr_system.Prelude.{
  ℕ, ◌≡◌, refl, Bool, true, false, not, ◌&&◌, some, arith, ◌==◌, if◌then◌else◌, ==_iff, ℤ, pos,
  ◌+ℤ◌, ◌-ℤ◌, ◌≤ℤ◌, ltb_ℤ, is_pos, int_laws, or_raise, Ensures, Ensures-bind, or_raise-some,
  Ensures-raise_if, All,
}
use plutus_hr_system.Errors.{
  not_positive, row_not_found, end_before_start, request_not_pending, insufficient_leave,
}
use plutus_hr_system.Calendar.{Date, IsDate, before}
use plutus_hr_system.Tables.{
  total_where, find_row, share, total_where-change_row, All-change_row, All-find_row,
}
use plutus_hr_system.Leave.Rows.{
  LeaveType, LeaveStatus, is_pending, is_approved, LeaveRequest, LeaveBook,
}
use plutus_hr_system.Leave.{
  leave_days, approved_days_taken, leave_balance, decide_leave, id_of_leave, with_leave,
  approve_leave_request, reject_leave_request, submit_leave_request,
}
use plutus_hr_system.Leave.Taken.{taken_in_year, days_of_year, IsRequest, IsEncashment}
use plutus_hr_system.Leave.Taken.Approving.{days_of_year-le, leave_balance-room}

pub record IsWithin (entitlements : ℕ → ℤ) (book : LeaveBook) : Type 0 where
  pub same_entitlements : book.entitlements ≡ entitlements
  pub requests_valid : All IsRequest book.requests
  pub encashments_valid : All IsEncashment book.encashments
  pub within :
      (employee year : ℕ)
      → pos 0 ≤ℤ entitlements employee
      → days_of_year book employee year ≤ℤ entitlements employee

-- A total in which one row's share changes, by the days that there is room for if it counts now.
pub changed_within :
    (own counted in_year : Bool) (days old new before_row after_row limit : ℤ)
    → new ≡ old -ℤ before_row +ℤ after_row
    → before_row ≡ pos 0
    → after_row ≡ (if own && counted && in_year then days else pos 0)
    → (own ≡ true → counted ≡ true → in_year ≡ true → (old +ℤ days) ≤ℤ limit)
    → old ≤ℤ limit
    → new ≤ℤ limit
changed_within false counted in_year days old new before_row after_row limit e f g room h =
    grind int_laws
changed_within true false in_year days old new before_row after_row limit e f g room h =
    grind int_laws
changed_within true true false days old new before_row after_row limit e f g room h = grind int_laws
changed_within true true true days old new before_row after_row limit e f g room h =
    let fits = room refl refl refl in grind int_laws

module _ (entitlements : ℕ → ℤ) where
  -- The room that the check leaves, for the employee and the year that it is of.
  pub room_in_year :
      (book : LeaveBook) (employee year : ℕ) (own : ℕ) (on : Date) (days : ℤ)
      → IsWithin entitlements book
      → (approved_days_taken book own on +ℤ days) ≤ℤ book.entitlements own
      → (own == employee) ≡ true
      → (on.year == year) ≡ true
      → (days_of_year book employee year +ℤ days) ≤ℤ entitlements employee
  room_in_year book employee year own on days w room e f =
      let same_year : on.year ≡ year = (==_iff on.year year).0 f in
      let same_employee : own ≡ employee = (==_iff own employee).0 e in
      let counted : days_of_year book own on.year ≤ℤ approved_days_taken book own on =
        days_of_year-le book own on w.requests_valid w.encashments_valid in
      rw (← same_year, ← same_employee, ← w.same_entitlements) (grind int_laws)

  -- A change of a leave request that adds to a year no more than there is room for.
  decided-IsWithin :
      (id : ℕ) (r : LeaveRequest) (status : LeaveStatus) (book : LeaveBook)
      → IsWithin entitlements book
      → find_row id_of_leave id book.requests ≡ some r
      → is_pending r.status ≡ true
      → (is_approved status ≡ true
          → (approved_days_taken book r.employee_id r.start_date +ℤ r.days)
            ≤ℤ book.entitlements r.employee_id)
      → IsWithin entitlements (with_leave status id book)
  decided-IsWithin id r status book w found pending room = record {
    same_entitlements = w.same_entitlements;
    requests_valid =
        All-change_row IsRequest id_of_leave id (decide_leave status) book.requests (λ x v. v)
          w.requests_valid;
    encashments_valid = w.encashments_valid;
    within = λ employee year from.
        changed_within (r.employee_id == employee) (is_approved status) (r.start_date.year == year)
          r.days (days_of_year book employee year) _
          (share (taken_in_year employee year) leave_days r)
          (share (taken_in_year employee year) leave_days (decide_leave status r))
          (entitlements employee)
          (rw
            (total_where-change_row id_of_leave id (decide_leave status)
              (taken_in_year employee year) leave_days r book.requests found)
            (omega int_laws))
          (ground arith) refl
          (λ own counted in_year.
            room_in_year book employee year r.employee_id r.start_date r.days w (room counted) own
              in_year)
          (w.within employee year from);
  }

  pub submit_leave_request-IsWithin :
      (id employee : ℕ) (leave_type : LeaveType) (start_date end_date : Date) (days : ℤ)
      (book : LeaveBook)
      → IsDate start_date
      → IsWithin entitlements book
      → Ensures
          (IsWithin entitlements)
          (submit_leave_request id employee leave_type start_date end_date days book)
  unfolding submit_leave_request total_where
  submit_leave_request-IsWithin id employee leave_type start_date end_date days book v w =
      Ensures-raise_if (IsWithin entitlements) (not (is_pos days)) (not_positive "days") _
        λ days_pos.
          Ensures-raise_if (IsWithin entitlements) (before end_date start_date) end_before_start _
            λ ordered. record {
              same_entitlements = w.same_entitlements;
              requests_valid = ((ground arith, v), w.requests_valid);
              encashments_valid = w.encashments_valid;
              within = λ e y from. let h = w.within e y from in grind int_laws;
            }

  pub approve_leave_request-IsWithin :
      (id : ℕ) (book : LeaveBook)
      → IsWithin entitlements book
      → Ensures (IsWithin entitlements) (approve_leave_request id book)
  unfolding approve_leave_request
  approve_leave_request-IsWithin id book w =
      Ensures-bind (λ r. find_row id_of_leave id book.requests ≡ some r) (IsWithin entitlements)
        (or_raise (find_row id_of_leave id book.requests) row_not_found) _
        (or_raise-some (find_row id_of_leave id book.requests) row_not_found)
        λ (r : LeaveRequest) found.
          let valid : IsRequest r =
            All-find_row IsRequest id_of_leave id r book.requests found w.requests_valid in
          Ensures-raise_if (IsWithin entitlements) (not (is_pending r.status)) request_not_pending _
            λ pending.
              Ensures-bind
                (λ (remaining : ℤ).
                  ltb_ℤ remaining r.days ≡ false
                  → (approved_days_taken book r.employee_id r.start_date +ℤ r.days)
                    ≤ℤ book.entitlements r.employee_id)
                (IsWithin entitlements) (leave_balance book r.employee_id r.start_date) _
                (leave_balance-room book r.employee_id r.start_date r.days valid.0)
                λ (remaining : ℤ) room.
                  Ensures-raise_if (IsWithin entitlements) (ltb_ℤ remaining r.days)
                    insufficient_leave _
                    λ fits.
                      decided-IsWithin id r LeaveStatus.approved book w found (ground arith)
                        λ approved. room fits

  pub reject_leave_request-IsWithin :
      (id : ℕ) (book : LeaveBook)
      → IsWithin entitlements book
      → Ensures (IsWithin entitlements) (reject_leave_request id book)
  unfolding reject_leave_request
  reject_leave_request-IsWithin id book w =
      Ensures-bind (λ r. find_row id_of_leave id book.requests ≡ some r) (IsWithin entitlements)
        (or_raise (find_row id_of_leave id book.requests) row_not_found) _
        (or_raise-some (find_row id_of_leave id book.requests) row_not_found)
        λ (r : LeaveRequest) found.
          Ensures-raise_if (IsWithin entitlements) (not (is_pending r.status)) request_not_pending _
            λ pending.
              decided-IsWithin id r LeaveStatus.rejected book w found (ground arith) λ approved. cc
