-- ===== src/Engine.antt =====
-- The country-neutral payroll engine: app/compliance/engine.
pub mod Rules
pub mod Rounding
pub mod DueDates
pub mod Lines
pub mod IncomeTax
pub mod Calculate
pub mod Postings
mod Tests
