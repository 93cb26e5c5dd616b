-- ===== src/Leave/Taken/Exact.antt =====
-- When app/services/leave.py approves a request.
use plutus_hr_system.Prelude.{
  ℕ, ◌≤◌, ◌≡◌, refl, ◌↔◌, inl, inr, Bool, true, false, not, ◌&&◌, some, arith, ◌==◌, if◌then◌else◌,
  Bool-cases, ==_iff, ℤ, pos, ◌+ℤ◌, ◌-ℤ◌, ◌≤ℤ◌, ltb_ℤ, is_pos, max_ℤ, int_laws, ok, All,
}
use plutus_hr_system.Calendar.{Date, IsDate, before}
use plutus_hr_system.Calendar.Ordinal.{ordinal-later_year}
use plutus_hr_system.Payroll.Statutory.{compute_leave_balance}
use plutus_hr_system.Tables.{find_row, All-find_row, total_where-same, total_where-IsNonneg}
use plutus_hr_system.Leave.Rows.{
  LeaveStatus, is_pending, is_approved, LeaveRequest, is_consumed, LeaveEncashmentRequest,
  LeaveBook,
}
use plutus_hr_system.Leave.{
  leave_year_start, is_taken, is_encashed, leave_days, encashed_days, approved_days_taken,
  leave_balance, id_of_leave, with_leave, approve_leave_request,
}
use plutus_hr_system.Leave.Taken.{
  taken_in_year, encashed_in_year, days_of_year, IsRequest, IsEncashment,
}
use plutus_hr_system.Leave.Taken.Approving.{from_year_start}

-- The rows are valid, and none that counts for the employee is of a later year.
abbrev pub UpTo : ℕ → ℕ → LeaveRequest → Type 0
UpTo employee year r =
    IsRequest r
    × ((r.employee_id == employee && is_approved r.status) ≡ true → r.start_date.year ≤ year)

abbrev pub EncashedUpTo : ℕ → ℕ → LeaveEncashmentRequest → Type 0
EncashedUpTo employee year r =
    IsEncashment r
    × ((r.employee_id == employee && is_consumed r.status) ≡ true → r.requested_date.year ≤ year)

-- Up to a year, the dates from its first day on are those of the year.
year_from_start :
    (d on : Date)
    → IsDate d
    → d.year ≤ on.year
    → (d.year == on.year) ≡ not (before d (leave_year_start on))
year_from_start d on v h = elim (Bool-cases (d.year == on.year)) [
  | inl e ↦ rw (e, from_year_start d on v ((==_iff d.year on.year).0 e)) refl
  | inr e ↦ let later = ordinal-later_year d on.year v (grind arith) in grind arith
]

same_test :
    (own counted in_year from_start : Bool)
    → ((own && counted) ≡ true → in_year ≡ from_start)
    → (own && counted && in_year) ≡ (own && counted && from_start)
same_test own counted in_year from_start h = ground arith

from_zero :
    (own counted in_year : Bool) (days : ℤ)
    → is_pos days ≡ true
    → pos 0 ≤ℤ (if own && counted && in_year then days else pos 0)
from_zero own counted in_year days p = ground arith

approved_days_taken-UpTo :
    (book : LeaveBook) (employee : ℕ) (on : Date)
    → All (UpTo employee on.year) book.requests
    → All (EncashedUpTo employee on.year) book.encashments
    → days_of_year book employee on.year ≡ approved_days_taken book employee on
unfolding approved_days_taken is_taken is_encashed
approved_days_taken-UpTo book employee on h k =
    rw
      (
        total_where-same (UpTo employee on.year) (taken_in_year employee on.year)
            (is_taken employee (leave_year_start on)) leave_days book.requests
            (λ r v.
              same_test (r.employee_id == employee) (is_approved r.status)
                (r.start_date.year == on.year) (not (before r.start_date (leave_year_start on)))
                λ mine. year_from_start r.start_date on v.0.1 (v.1 mine))
            h,
        total_where-same (EncashedUpTo employee on.year) (encashed_in_year employee on.year)
            (is_encashed employee (leave_year_start on)) encashed_days book.encashments
            (λ r v.
              same_test (r.employee_id == employee) (is_consumed r.status)
                (r.requested_date.year == on.year)
                (not (before r.requested_date (leave_year_start on)))
                λ mine. year_from_start r.requested_date on v.0.1 (v.1 mine))
            k,
      )
      refl

days_of_year-IsNonneg :
    (book : LeaveBook) (employee year : ℕ)
    → All (UpTo employee year) book.requests
    → All (EncashedUpTo employee year) book.encashments
    → pos 0 ≤ℤ days_of_year book employee year
days_of_year-IsNonneg book employee year h k =
    let a =
      total_where-IsNonneg (UpTo employee year) (taken_in_year employee year) leave_days
        book.requests
        (λ r v.
          from_zero (r.employee_id == employee) (is_approved r.status) (r.start_date.year == year)
            r.days v.0.0)
        h in
    let b =
      total_where-IsNonneg (EncashedUpTo employee year) (encashed_in_year employee year)
        encashed_days book.encashments
        (λ r v.
          from_zero (r.employee_id == employee) (is_consumed r.status)
            (r.requested_date.year == year) r.days v.0.0)
        k in
    grind int_laws

balance_of :
    (book : LeaveBook) (employee : ℕ) (on : Date)
    → pos 0 ≤ℤ book.entitlements employee
    → pos 0 ≤ℤ approved_days_taken book employee on
    → leave_balance book employee on
      ≡ ok (max_ℤ (pos 0) (book.entitlements employee -ℤ approved_days_taken book employee on))
unfolding leave_balance compute_leave_balance
balance_of book employee on h k = grind int_laws

fits_iff :
    (entitlement taken days : ℤ)
    → is_pos days ≡ true
    → ltb_ℤ (max_ℤ (pos 0) (entitlement -ℤ taken)) days ≡ false ↔ (taken +ℤ days) ≤ℤ entitlement
unfolding max_ℤ
fits_iff entitlement taken days p = (λ e. grind int_laws, λ h. grind int_laws)

-- Approving a pending leave request of an employee who has no approved leave or encashment of a later
-- year, in valid rows and with an entitlement that is not negative, approves it exactly when it and the
-- days approved of its own year are at most the entitlement.
pub approve_leave_request_iff :
    (id : ℕ) (book : LeaveBook) (r : LeaveRequest)
    → find_row id_of_leave id book.requests ≡ some r
    → is_pending r.status ≡ true
    → pos 0 ≤ℤ book.entitlements r.employee_id
    → All (UpTo r.employee_id r.start_date.year) book.requests
    → All (EncashedUpTo r.employee_id r.start_date.year) book.encashments
    → (approve_leave_request id book ≡ ok (with_leave LeaveStatus.approved id book))
      ↔ (days_of_year book r.employee_id r.start_date.year +ℤ r.days)
        ≤ℤ book.entitlements r.employee_id
unfolding approve_leave_request
approve_leave_request_iff id book r found pending from h k =
    let same = approved_days_taken-UpTo book r.employee_id r.start_date h k in
    let taken = days_of_year-IsNonneg book r.employee_id r.start_date.year h k in
    let valid =
      All-find_row (UpTo r.employee_id r.start_date.year) id_of_leave id r book.requests found h in
    let balance = balance_of book r.employee_id r.start_date from (rw (← same) taken) in
    let fits =
      fits_iff (book.entitlements r.employee_id)
        (approved_days_taken book r.employee_id r.start_date) r.days valid.0.0 in
    let remaining : ℤ =
      max_ℤ (pos 0)
        (book.entitlements r.employee_id -ℤ approved_days_taken book r.employee_id r.start_date) in
    elim (Bool-cases (ltb_ℤ remaining r.days)) [
      | inl short ↦
          rw (found, pending, same, balance, short) (λ e. cc, λ h. let not_short = fits.1 h in cc)
      | inr enough ↦ rw (found, pending, same, balance, enough) (λ e. fits.0 enough, λ h. refl)
    ]
