-- ===== src/Payroll.antt =====
-- Nigeria's payroll arithmetic (app/domain/payroll): one module for each of its files, or few.
pub mod Statutory
pub mod Paye
pub mod Payslip
pub mod Benefits
pub mod Settle
pub mod Deadlines
pub mod GrossUp
pub mod Proration
pub mod Postings
mod Tests
