-- ===== src/Stock/Transfers.antt =====
-- The pairs of movements of an inter-warehouse transfer: `_move_pairs` of
-- app/services/inventory_transfers.py.
pub mod Neutral
use plutus_hr_system.Prelude.{ℕ, false, none, some, List, map, Result, ok, ◌>>=◌, ◌>>◌}
use plutus_hr_system.Errors.{ValueError}
use plutus_hr_system.Stock.Costing.{neg}
use plutus_hr_system.Stock.Rows.{StockMovementType, PlannedMovement, InventoryStockMovement, Stock}
use plutus_hr_system.Stock.Posting.{Document, post_movements}

-- What went out comes in at the destination, at exactly the value that went out.
abbrev pub incoming : ℕ → InventoryStockMovement → PlannedMovement
incoming destination_id out = record {
  source_line_id = out.source_line_id;
  item_id = out.item_id;
  warehouse_id = destination_id;
  quantity_base = neg out.quantity_base;
  movement_type = StockMovementType.transfer_in;
  increase_value_minor = some (neg out.value_minor);
  reversal_of_id = none;
  reason = out.reason;
  lot_id = out.lot_id;
  skip_expired = false;
}

unfoldable pub move_pairs : Document → List PlannedMovement → ℕ → Stock → Result ValueError Stock
move_pairs document outs destination_id stock = do
  (posted, sent) ← post_movements document outs stock
  (received, final) ← post_movements document (map (incoming destination_id) posted) sent
  ok final
