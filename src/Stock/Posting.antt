-- ===== src/Stock/Posting.antt =====
-- `post_movements` of app/services/inventory_posting.py, the one place stock moves. Its row locks
-- make postings run one after the other; the model is one posting on the stock it finds.
pub mod Moves
pub mod Carries
pub mod Parts
pub mod Rounds
pub mod Agrees
use plutus_hr_system.Prelude.{
  ℕ, ◌*◌, Bool, true, false, not, ◌&&◌, ◌||◌, Option, none, some, List, [], ◌∷◌, ◌++◌, ◌==◌,
  if◌then◌else◌, ℤ, ◌+ℤ◌, ltb_ℤ, is_neg, is_pos, is_nonzero, Result, ok, ◌>>=◌, ◌>>◌, raise_if,
  or_raise,
}
use plutus_hr_system.Errors.{
  ValueError, period_locked, already_posted, insufficient_stock, nothing_to_post, zero_movement,
  increase_without_value, lots_not_tracked, lot_not_named,
}
use plutus_hr_system.Calendar.{Date, not_after}
use plutus_hr_system.Stock.Costing.{
  CostPool, quantum, magnitude, neg, normalise, in_context, round_minor, make_pool, apply_increase,
  apply_decrease,
}
use plutus_hr_system.Stock.Rows.{
  StockMovementType, StockSourceType, PlannedMovement, InventoryStockMovement, Stock, update,
  add_balance,
}
use plutus_hr_system.Stock.Lots.{apply_lot, allocate}

abbrev pub is_given {ℓ} : {A : Type ℓ} → Option A → Bool
is_given none = false
is_given (some _) = true

-- The checks of the plans that come before anything is read.
unfoldable pub check_plans : List PlannedMovement → Result ValueError (Unit {0})
check_plans [] = ok tt
check_plans (plan ∷ plans) = do
  raise_if (not (is_nonzero plan.quantity_base)) zero_movement
  raise_if (is_pos plan.quantity_base && not (is_given plan.increase_value_minor))
      increase_without_value
  check_plans plans

-- `_check_lot_rule`
unfoldable pub check_lot_rule : Bool → PlannedMovement → Result ValueError (Unit {0})
check_lot_rule track_lots plan = do
  raise_if (not track_lots && is_given plan.lot_id) lots_not_tracked
  raise_if (track_lots && is_pos plan.quantity_base && not (is_given plan.lot_id)) lot_not_named
  ok tt

unfoldable pub check_lot_rules : Stock → List PlannedMovement → Result ValueError (Unit {0})
unfolding check_lot_rule
check_lot_rules stock [] = ok tt
check_lot_rules stock (plan ∷ plans) = do
  check_lot_rule (stock.track_lots plan.item_id) plan
  check_lot_rules stock plans

-- The document that a posting is for, and the date.
pub record Document : Type 0 where
  pub entry_date : Date
  pub source_type : StockSourceType
  pub source_id : ℕ

-- The new pool and the signed value of the movement.
unfoldable pub valued : CostPool → PlannedMovement → Result ValueError (CostPool × ℤ)
valued pool plan =
    if is_pos plan.quantity_base
    then (do
      value ← or_raise plan.increase_value_minor increase_without_value
      new_pool ← apply_increase pool plan.quantity_base value
      ok (new_pool, value))
    else (do taken ← apply_decrease pool (neg plan.quantity_base); ok (taken.0, neg taken.1))

unfoldable pub movement_of : Document → PlannedMovement → ℤ → InventoryStockMovement
unfolding in_context round_minor
movement_of document plan signed_value = record {
  item_id = plan.item_id;
  warehouse_id = plan.warehouse_id;
  lot_id = plan.lot_id;
  movement_type = plan.movement_type;
  quantity_base = plan.quantity_base;
  value_minor = signed_value;
  unit_cost_minor =
      round_minor (in_context (magnitude signed_value * quantum) (magnitude plan.quantity_base));
  entry_date = document.entry_date;
  source_type = document.source_type;
  source_id = document.source_id;
  source_line_id = plan.source_line_id;
  reversal_of_id = plan.reversal_of_id;
  reason = plan.reason;
}

unfoldable pub apply_lots : Option ℕ → Stock → PlannedMovement → Result ValueError Stock
apply_lots none stock plan = ok stock
apply_lots (some lot) stock plan = apply_lot stock plan lot

-- `_post_one`: the movement, and the stock with its projections moved on.
unfoldable pub post_one :
    Document → PlannedMovement → Stock → Result ValueError (InventoryStockMovement × Stock)
post_one document plan stock = do
  let row = stock.pools plan.item_id
  pool ← make_pool row.quantity row.value_minor
  (new_pool, signed_value) ← valued pool plan
  with_lot ← apply_lots plan.lot_id stock plan
  after ← normalise (stock.balances plan.item_id plan.warehouse_id +ℤ plan.quantity_base)
  ok (
    movement_of document plan signed_value,
    record with_lot {
      balances = add_balance stock plan.item_id plan.warehouse_id after;
      pools = update stock.pools plan.item_id new_pool;
    },
  )

unfoldable pub post_parts :
    Document
    → List PlannedMovement
    → Stock
    → Result ValueError (List InventoryStockMovement × Stock)
post_parts document [] stock = ok ([], stock)
post_parts document (part ∷ parts) stock = do
  (movement, stock') ← post_one document part stock
  (movements, final) ← post_parts document parts stock'
  ok (movement ∷ movements, final)

unfoldable pub parts_of :
    Bool → Stock → PlannedMovement → Date → Result ValueError (List PlannedMovement)
parts_of track_lots stock plan entry_date =
    if track_lots && not (is_given plan.lot_id)
    then allocate stock plan entry_date
    else ok (plan ∷ [])

-- One round of the loop over the plans.
unfoldable pub post_plan :
    Document → PlannedMovement → Stock → Result ValueError (List InventoryStockMovement × Stock)
post_plan document plan stock = do
  let balance = stock.balances plan.item_id plan.warehouse_id
  raise_if (is_neg plan.quantity_base && ltb_ℤ balance (neg plan.quantity_base)) insufficient_stock
  parts ← parts_of (stock.track_lots plan.item_id) stock plan document.entry_date
  post_parts document parts stock

unfoldable pub post_plans :
    Document
    → List PlannedMovement
    → Stock
    → Result ValueError (List InventoryStockMovement × Stock)
post_plans document [] stock = ok ([], stock)
post_plans document (plan ∷ plans) stock = do
  (moved, stock') ← post_plan document plan stock
  (movements, final) ← post_plans document plans stock'
  ok (moved ++ movements, final)

-- The enumerations' values are told apart by their places.
abbrev pub type_place : StockMovementType → ℕ
type_place StockMovementType.opening_balance = 0
type_place StockMovementType.adjustment_gain = 1
type_place StockMovementType.adjustment_loss = 2
type_place StockMovementType.reversal = 3
type_place StockMovementType.receipt = 4
type_place StockMovementType.issue = 5
type_place StockMovementType.transfer_out = 6
type_place StockMovementType.transfer_in = 7

abbrev pub source_place : StockSourceType → ℕ
source_place StockSourceType.inventory_adjustment = 0
source_place StockSourceType.goods_receipt = 1
source_place StockSourceType.stock_issue = 2
source_place StockSourceType.stock_transfer = 3
source_place StockSourceType.stocktake = 4

abbrev pub same_option : Option ℕ → Option ℕ → Bool
same_option none none = true
same_option (some a) (some b) = a == b
same_option _ _ = false

-- `uq_inventory_movement_source_line`
abbrev pub same_line : InventoryStockMovement → InventoryStockMovement → Bool
same_line a b =
    source_place a.source_type == source_place b.source_type
    && a.source_line_id == b.source_line_id
    && type_place a.movement_type == type_place b.movement_type
    && a.warehouse_id == b.warehouse_id
    && same_option a.lot_id b.lot_id

-- `uq_inventory_movement_reversal_of`
abbrev pub same_reversal : InventoryStockMovement → InventoryStockMovement → Bool
same_reversal a b = is_given a.reversal_of_id && same_option a.reversal_of_id b.reversal_of_id

unfoldable pub is_recorded : InventoryStockMovement → List InventoryStockMovement → Bool
is_recorded movement [] = false
is_recorded movement (earlier ∷ rest) =
    same_line movement earlier || same_reversal movement earlier || is_recorded movement rest

-- `ck_inventory_movement_reversal`: exactly the reversals name what they reverse.
abbrev pub names_reversal : InventoryStockMovement → Bool
names_reversal movement =
    if type_place movement.movement_type == 3
    then is_given movement.reversal_of_id
    else not (is_given movement.reversal_of_id)

-- `db.flush()`: the rows go in one by one, and one that an index or a check refuses is a conflict.
unfoldable pub flush :
    List InventoryStockMovement
    → List InventoryStockMovement
    → Result ValueError (List InventoryStockMovement)
unfolding is_recorded
flush [] ledger = ok ledger
flush (movement ∷ movements) ledger = do
  raise_if (is_recorded movement ledger || not (names_reversal movement)) already_posted
  flush movements (movement ∷ ledger)

abbrev pub is_locked : Option Date → Date → Bool
is_locked none entry_date = false
is_locked (some locked_to) entry_date = not_after entry_date locked_to

abbrev pub is_empty {ℓ} : {A : Type ℓ} → List A → Bool
is_empty [] = true
is_empty (_ ∷ _) = false

unfoldable pub post_movements :
    Document
    → List PlannedMovement
    → Stock
    → Result ValueError (List InventoryStockMovement × Stock)
post_movements document planned stock = do
  raise_if (is_empty planned) nothing_to_post
  raise_if (is_locked stock.lock_date document.entry_date) period_locked
  check_plans planned
  check_lot_rules stock planned
  (movements, moved) ← post_plans document planned stock
  ledger ← flush movements stock.movements
  ok (movements, record moved { movements = ledger })
