-- ===== src/Leave/Rows.antt =====
-- The rows of app/models/leave.py and app/models/leave_encashment.py.
use plutus_hr_system.Prelude.{ℕ, Bool, true, false, List, ℤ}
use plutus_hr_system.Calendar.{Date}

pub data LeaveType : Type 0 where
  annual sick maternity paternity unpaid : LeaveType

pub data LeaveStatus : Type 0 where
  pending approved rejected cancelled : LeaveStatus

abbrev pub is_pending : LeaveStatus → Bool
is_pending LeaveStatus.pending = true
is_pending _ = false

abbrev pub is_approved : LeaveStatus → Bool
is_approved LeaveStatus.approved = true
is_approved _ = false

pub record LeaveRequest : Type 0 where
  pub id : ℕ
  pub employee_id : ℕ
  pub leave_type : LeaveType
  pub start_date : Date
  pub end_date : Date
  pub days : ℤ
  pub status : LeaveStatus

pub data LeaveEncashmentStatus : Type 0 where
  pending approved rejected paid : LeaveEncashmentStatus

abbrev pub is_pending_encashment : LeaveEncashmentStatus → Bool
is_pending_encashment LeaveEncashmentStatus.pending = true
is_pending_encashment _ = false

-- `status.in_((APPROVED, PAID))`
abbrev pub is_consumed : LeaveEncashmentStatus → Bool
is_consumed LeaveEncashmentStatus.approved = true
is_consumed LeaveEncashmentStatus.paid = true
is_consumed _ = false

pub record LeaveEncashmentRequest : Type 0 where
  pub id : ℕ
  pub employee_id : ℕ
  pub requested_date : Date
  pub days : ℤ
  pub amount_minor : ℤ
  pub status : LeaveEncashmentStatus

-- The rows of an organisation, and its employees' `annual_leave_entitlement_days`.
pub record LeaveBook : Type 0 where
  pub entitlements : ℕ → ℤ
  pub requests : List LeaveRequest
  pub encashments : List LeaveEncashmentRequest
