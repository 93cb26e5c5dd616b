-- ===== src/Leave/Taken/Encashed.antt =====
-- What the operations of app/services/leave_encashment.py keep of the bound on a leave year.
use plutus_hr_system.Prelude.{
  ℕ, ◌≡◌, refl, true, false, not, some, arith, ◌==◌, ℤ, ◌+ℤ◌, ◌≤ℤ◌, ltb_ℤ, is_pos, int_laws,
  or_raise, Ensures, Ensures-bind, or_raise-some, Ensures-raise_if,
}
use plutus_hr_system.Errors.{not_positive, row_not_found, request_not_pending, insufficient_leave}
use plutus_hr_system.Calendar.{Date, IsDate}
use plutus_hr_system.Tables.{
  total_where, find_row, share, total_where-change_row, All-change_row, All-find_row,
}
use plutus_hr_system.Leave.Rows.{
  LeaveEncashmentStatus, is_pending_encashment, is_consumed, LeaveEncashmentRequest, LeaveBook,
}
use plutus_hr_system.Leave.{
  encashed_days, approved_days_taken, leave_balance, decide_encashment, id_of_encashment,
  with_encashment, submit_leave_encashment, approve_leave_encashment, reject_leave_encashment,
}
use plutus_hr_system.Leave.Taken.{encashed_in_year, days_of_year, IsEncashment}
use plutus_hr_system.Leave.Taken.Approving.{leave_balance-room}
use plutus_hr_system.Leave.Taken.Within.{IsWithin, changed_within, room_in_year}

module _ (entitlements : ℕ → ℤ) where
  -- A change of an encashment that adds to a year no more than there is room for.
  decided_encashment-IsWithin :
      (id : ℕ) (r : LeaveEncashmentRequest) (status : LeaveEncashmentStatus) (book : LeaveBook)
      → IsWithin entitlements book
      → find_row id_of_encashment id book.encashments ≡ some r
      → is_pending_encashment r.status ≡ true
      → (is_consumed status ≡ true
          → (approved_days_taken book r.employee_id r.requested_date +ℤ r.days)
            ≤ℤ book.entitlements r.employee_id)
      → IsWithin entitlements (with_encashment status id book)
  decided_encashment-IsWithin id r status book w found pending room = record {
    same_entitlements = w.same_entitlements;
    requests_valid = w.requests_valid;
    encashments_valid =
        All-change_row IsEncashment id_of_encashment id (decide_encashment status) book.encashments
          (λ x v. v) w.encashments_valid;
    within = λ employee year from.
        changed_within (r.employee_id == employee) (is_consumed status)
          (r.requested_date.year == year) r.days (days_of_year book employee year) _
          (share (encashed_in_year employee year) encashed_days r)
          (share (encashed_in_year employee year) encashed_days (decide_encashment status r))
          (entitlements employee)
          (rw
            (total_where-change_row id_of_encashment id (decide_encashment status)
              (encashed_in_year employee year) encashed_days r book.encashments found)
            (omega int_laws))
          (ground arith) refl
          (λ own counted in_year.
            room_in_year entitlements book employee year r.employee_id r.requested_date r.days w
              (room counted) own in_year)
          (w.within employee year from);
  }

  -- A change between approved and paid, both of which count.
  pub settled-IsWithin :
      (id : ℕ) (r : LeaveEncashmentRequest) (status : LeaveEncashmentStatus) (book : LeaveBook)
      → IsWithin entitlements book
      → find_row id_of_encashment id book.encashments ≡ some r
      → is_consumed r.status ≡ true
      → is_consumed status ≡ true
      → IsWithin entitlements (with_encashment status id book)
  settled-IsWithin id r status book w found before_counts after_counts = record {
    same_entitlements = w.same_entitlements;
    requests_valid = w.requests_valid;
    encashments_valid =
        All-change_row IsEncashment id_of_encashment id (decide_encashment status) book.encashments
          (λ x v. v) w.encashments_valid;
    within = λ employee year from.
        let same_share : share (encashed_in_year employee year) encashed_days
              (decide_encashment status r)
            ≡ share (encashed_in_year employee year) encashed_days r =
          rw (before_counts, after_counts) refl in
        let h = w.within employee year from in
        rw
          (
            total_where-change_row id_of_encashment id (decide_encashment status)
                (encashed_in_year employee year) encashed_days r book.encashments found,
            same_share,
          )
          (grind int_laws);
  }

  pub submit_leave_encashment-IsWithin :
      (id employee : ℕ) (requested_date : Date) (days amount_minor : ℤ) (book : LeaveBook)
      → IsDate requested_date
      → IsWithin entitlements book
      → Ensures
          (IsWithin entitlements)
          (submit_leave_encashment id employee requested_date days amount_minor book)
  unfolding submit_leave_encashment total_where
  submit_leave_encashment-IsWithin id employee requested_date days amount_minor book v w =
      Ensures-raise_if (IsWithin entitlements) (not (is_pos days)) (not_positive "days") _
        λ days_pos.
          Ensures-raise_if (IsWithin entitlements) (not (is_pos amount_minor))
            (not_positive "amount_minor") _
            λ amount_pos. record {
              same_entitlements = w.same_entitlements;
              requests_valid = w.requests_valid;
              encashments_valid = ((ground arith, v), w.encashments_valid);
              within = λ e y from. let h = w.within e y from in grind int_laws;
            }

  pub approve_leave_encashment-IsWithin :
      (id : ℕ) (book : LeaveBook)
      → IsWithin entitlements book
      → Ensures (IsWithin entitlements) (approve_leave_encashment id book)
  unfolding approve_leave_encashment
  approve_leave_encashment-IsWithin id book w =
      Ensures-bind (λ r. find_row id_of_encashment id book.encashments ≡ some r)
        (IsWithin entitlements)
        (or_raise (find_row id_of_encashment id book.encashments) row_not_found) _
        (or_raise-some (find_row id_of_encashment id book.encashments) row_not_found)
        λ (r : LeaveEncashmentRequest) found.
          let valid : IsEncashment r =
            All-find_row IsEncashment id_of_encashment id r book.encashments found
              w.encashments_valid in
          Ensures-raise_if (IsWithin entitlements) (not (is_pending_encashment r.status))
            request_not_pending _
            λ pending.
              Ensures-bind
                (λ (remaining : ℤ).
                  ltb_ℤ remaining r.days ≡ false
                  → (approved_days_taken book r.employee_id r.requested_date +ℤ r.days)
                    ≤ℤ book.entitlements r.employee_id)
                (IsWithin entitlements) (leave_balance book r.employee_id r.requested_date) _
                (leave_balance-room book r.employee_id r.requested_date r.days valid.0)
                λ (remaining : ℤ) room.
                  Ensures-raise_if (IsWithin entitlements) (ltb_ℤ remaining r.days)
                    insufficient_leave _
                    λ fits.
                      decided_encashment-IsWithin id r LeaveEncashmentStatus.approved book w found
                        (ground arith) λ approved. room fits

  pub reject_leave_encashment-IsWithin :
      (id : ℕ) (book : LeaveBook)
      → IsWithin entitlements book
      → Ensures (IsWithin entitlements) (reject_leave_encashment id book)
  unfolding reject_leave_encashment
  reject_leave_encashment-IsWithin id book w =
      Ensures-bind (λ r. find_row id_of_encashment id book.encashments ≡ some r)
        (IsWithin entitlements)
        (or_raise (find_row id_of_encashment id book.encashments) row_not_found) _
        (or_raise-some (find_row id_of_encashment id book.encashments) row_not_found)
        λ (r : LeaveEncashmentRequest) found.
          Ensures-raise_if (IsWithin entitlements) (not (is_pending_encashment r.status))
            request_not_pending _
            λ pending.
              decided_encashment-IsWithin id r LeaveEncashmentStatus.rejected book w found
                (ground arith) λ approved. cc
