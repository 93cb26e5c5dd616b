-- ===== src/Leave/Taken/Bound.antt =====
-- No leave year of app/services/leave.py and app/services/leave_encashment.py is overdrawn.
use plutus_hr_system.Prelude.{ℕ, refl, ℤ, pos, ◌+ℤ◌, ◌≤ℤ◌, Ensures-ok}
use plutus_hr_system.Tables.{total_where}
use plutus_hr_system.Leave.Rows.{LeaveEncashmentStatus, LeaveBook}
use plutus_hr_system.Leave.Taken.{
  days_of_year, Reached, opened, leave_submitted, leave_approved, leave_rejected,
  encashment_submitted, encashment_approved, encashment_rejected, encashment_paid,
  encashment_restored,
}
use plutus_hr_system.Leave.Taken.Within.{
  IsWithin, submit_leave_request-IsWithin, approve_leave_request-IsWithin,
  reject_leave_request-IsWithin,
}
use plutus_hr_system.Leave.Taken.Encashed.{
  settled-IsWithin, submit_leave_encashment-IsWithin, approve_leave_encashment-IsWithin,
  reject_leave_encashment-IsWithin,
}

module _ (entitlements : ℕ → ℤ) where
  Reached-IsWithin : (book : LeaveBook) → Reached entitlements book → IsWithin entitlements book
  unfolding total_where ◌+ℤ◌
  Reached-IsWithin _ opened = record {
    same_entitlements = refl;
    requests_valid = tt;
    encashments_valid = tt;
    within = λ employee year from. from;
  }
  Reached-IsWithin _ (leave_submitted id e t s d n book next v h returned) =
      Ensures-ok (IsWithin entitlements) _ returned
        (submit_leave_request-IsWithin entitlements id e t s d n book v (Reached-IsWithin book h))
  Reached-IsWithin _ (leave_approved id book next h returned) =
      Ensures-ok (IsWithin entitlements) _ returned
        (approve_leave_request-IsWithin entitlements id book (Reached-IsWithin book h))
  Reached-IsWithin _ (leave_rejected id book next h returned) =
      Ensures-ok (IsWithin entitlements) _ returned
        (reject_leave_request-IsWithin entitlements id book (Reached-IsWithin book h))
  Reached-IsWithin _ (encashment_submitted id e d n a book next v h returned) =
      Ensures-ok (IsWithin entitlements) _ returned
        (submit_leave_encashment-IsWithin entitlements id e d n a book v (Reached-IsWithin book h))
  Reached-IsWithin _ (encashment_approved id book next h returned) =
      Ensures-ok (IsWithin entitlements) _ returned
        (approve_leave_encashment-IsWithin entitlements id book (Reached-IsWithin book h))
  Reached-IsWithin _ (encashment_rejected id book next h returned) =
      Ensures-ok (IsWithin entitlements) _ returned
        (reject_leave_encashment-IsWithin entitlements id book (Reached-IsWithin book h))
  Reached-IsWithin _ (encashment_paid id book r h found was) =
      settled-IsWithin entitlements id r LeaveEncashmentStatus.paid book (Reached-IsWithin book h)
        found (rw was refl) refl
  Reached-IsWithin _ (encashment_restored id book r h found was) =
      settled-IsWithin entitlements id r LeaveEncashmentStatus.approved book
        (Reached-IsWithin book h) found (rw was refl) refl

  -- In every book that the operations lead to under fixed entitlements, from requests on dates that there
  -- are, the days of one leave year that were approved as leave of an employee or as encashments, paid or
  -- not, are at most the employee's entitlement, if that is not negative.
  pub Reached-days_of_year :
      (book : LeaveBook) (employee year : ℕ)
      → Reached entitlements book
      → pos 0 ≤ℤ entitlements employee
      → days_of_year book employee year ≤ℤ entitlements employee
  Reached-days_of_year book employee year h from =
      (Reached-IsWithin book h).within employee year from
