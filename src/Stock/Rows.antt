-- ===== src/Stock/Rows.antt =====
-- The rows that the posting engine reads and writes: app/models/inventory.py and
-- app/models/inventory_control.py, with the planned movements of app/services/inventory_posting.py.
use Prim.Native.String.{String}
use plutus_hr_system.Prelude.{ℕ, Bool, Option, List, ◌==◌, if◌then◌else◌, ℤ}
use plutus_hr_system.Calendar.{Date}
use plutus_hr_system.Stock.Costing.{CostPool}

pub data StockMovementType : Type 0 where
  opening_balance adjustment_gain adjustment_loss reversal receipt issue transfer_out transfer_in :
      StockMovementType

pub data StockSourceType : Type 0 where
  inventory_adjustment goods_receipt stock_issue stock_transfer stocktake : StockSourceType

-- A text, as the code points that Python compares.
pub record InventoryLot : Type 0 where
  pub id : ℕ
  pub lot_number : List ℕ
  pub expiry_date : Option Date
  pub created_at : ℕ

-- One stock change to post; the quantity is signed.
pub record PlannedMovement : Type 0 where
  pub source_line_id : ℕ
  pub item_id : ℕ
  pub warehouse_id : ℕ
  pub quantity_base : ℤ
  pub movement_type : StockMovementType
  pub increase_value_minor : Option ℤ
  pub reversal_of_id : Option ℕ
  pub reason : Option String
  pub lot_id : Option ℕ
  pub skip_expired : Bool

-- A row of the stock ledger. Who posted it is left out.
pub record InventoryStockMovement : Type 0 where
  pub item_id : ℕ
  pub warehouse_id : ℕ
  pub lot_id : Option ℕ
  pub movement_type : StockMovementType
  pub quantity_base : ℤ
  pub value_minor : ℤ
  pub unit_cost_minor : ℕ
  pub entry_date : Date
  pub source_type : StockSourceType
  pub source_id : ℕ
  pub source_line_id : ℕ
  pub reversal_of_id : Option ℕ
  pub reason : Option String

-- The ledger, newest movement first, and its projections: the quantity by item and warehouse, the
-- quantity by item, warehouse and lot, and the cost pool by item. A row that is not there yet is made
-- with nothing in it, so that it reads as zero. `lots` has the lots in the order of their rows.
pub record Stock : Type 0 where
  pub movements : List InventoryStockMovement
  pub balances : ℕ → ℕ → ℤ
  pub lot_balances : ℕ → ℕ → ℕ → ℤ
  pub pools : ℕ → CostPool
  pub lots : List InventoryLot
  pub track_lots : ℕ → Bool
  pub lock_date : Option Date

abbrev pub update {ℓ} : {A : Type ℓ} → (ℕ → A) → ℕ → A → ℕ → A
update f key value at = if at == key then value else f at

abbrev pub add_balance : Stock → ℕ → ℕ → ℤ → ℕ → ℕ → ℤ
add_balance stock item warehouse after =
    update stock.balances item (update (stock.balances item) warehouse after)
