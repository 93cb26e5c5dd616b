-- ===== src/Lifecycle.antt =====
-- The lifecycle of pay runs: app/services/pay_run_lifecycle.py, with the effects that a locked run has
-- on the books (run_pay_run and _record_period_effects of app/services/payroll.py).
pub mod Rows
pub mod Lock
pub mod Reverse
pub mod Variance
pub mod Keeps
pub mod Effects
pub mod Undone
pub mod Locked
pub mod RoundTrip
mod Tests
