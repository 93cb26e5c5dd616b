-- ===== src/Stock.antt =====
-- The stock of one organisation: its costing, its lots and the engine that posts stock movements
-- (app/domain/inventory/costing.py, app/domain/inventory/quantities.py,
-- app/services/inventory_posting.py) and the pairs of movements of transfers.
pub mod Costing
pub mod Rows
pub mod Lots
pub mod Sums
pub mod Posting
pub mod Transfers
mod Tests
