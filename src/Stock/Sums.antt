-- ===== src/Stock/Sums.antt =====
-- What a list of stock movements adds up to: per item and warehouse, per lot, and per item in
-- quantity and in value. This is the stock that the ledger itself says there is.
use plutus_hr_system.Prelude.{
  ℕ, ◌≡◌, Bool, ◌&&◌, some, List, [], ◌∷◌, ◌++◌, ◌==◌, if◌then◌else◌, ℤ, pos, ◌+ℤ◌, int_laws,
}
use plutus_hr_system.Stock.Rows.{InventoryStockMovement}
use plutus_hr_system.Stock.Posting.{same_option}

abbrev pub sum_where :
    (InventoryStockMovement → Bool) → (InventoryStockMovement → ℤ) → List InventoryStockMovement → ℤ
sum_where test amount [] = pos 0
sum_where test amount (m ∷ ms) = (if test m then amount m else pos 0) +ℤ sum_where test amount ms

abbrev pub at_pair : ℕ → ℕ → InventoryStockMovement → Bool
at_pair item warehouse m = m.item_id == item && m.warehouse_id == warehouse

abbrev pub at_lot : ℕ → ℕ → ℕ → InventoryStockMovement → Bool
at_lot item warehouse lot m = at_pair item warehouse m && same_option m.lot_id (some lot)

abbrev pub of_item : ℕ → InventoryStockMovement → Bool
of_item item m = m.item_id == item

abbrev pub quantity_of : InventoryStockMovement → ℤ
quantity_of m = m.quantity_base

abbrev pub value_of : InventoryStockMovement → ℤ
value_of m = m.value_minor

pub sum_where-append :
    (test : InventoryStockMovement → Bool) (amount : InventoryStockMovement → ℤ)
    (ms ns : List InventoryStockMovement)
    → sum_where test amount (ms ++ ns) ≡ sum_where test amount ms +ℤ sum_where test amount ns
sum_where-append test amount [] ns = omega int_laws
sum_where-append test amount (m ∷ ms) ns = rw (sum_where-append test amount ms ns) (omega int_laws)
