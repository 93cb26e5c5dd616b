-- ===== src/Stock/Tests.antt =====
-- A stock of an item without lots and of one with lots, and postings onto it.
use plutus_hr_system.Prelude.{
  ℕ, ◌≡◌, refl, true, ◌&&◌, ◌||◌, Option, none, some, List, [], ◌∷◌, map, arith, ◌==◌,
  if◌then◌else◌, ℤ, pos, negsuc, ◌+ℤ◌, ◌-ℤ◌, min_ℤ, Result, ok, err, Ensures,
}
use plutus_hr_system.Errors.{ValueError}
use plutus_hr_system.Calendar.{
  Date, ordinal, days_before_year, days_before_month, days_in_month, is_leap,
}
use plutus_hr_system.Stock.Costing.{
  neg, normalise, half_even, in_context, places, dropped, round_minor, share, make_pool,
  decrease_value, apply_increase, apply_decrease,
}
use plutus_hr_system.Stock.Rows.{
  StockMovementType, StockSourceType, InventoryLot, PlannedMovement, InventoryStockMovement, Stock,
}
use plutus_hr_system.Stock.Lots.{
  apply_lot, text_leb, older, goes_first, held_lots, insert_lot, sort_lots, fresh_lots, take_from,
  candidates, allocate,
}
use plutus_hr_system.Stock.Lots.Fefo.{Allocates, allocate-Allocates}
use plutus_hr_system.Stock.Posting.{
  Document, check_plans, check_lot_rule, check_lot_rules, is_recorded, valued, apply_lots,
  movement_of, post_one, post_parts, parts_of, post_plan, post_plans, flush, post_movements,
}
use plutus_hr_system.Stock.Posting.Agrees.{IsStock, Posted, post_movements-Posted}
use plutus_hr_system.Stock.Transfers.{move_pairs}
use plutus_hr_system.Stock.Transfers.Neutral.{Transfers, move_pairs-Transfers}

abbrev on_day : ℕ → Date
on_day day = record { year = 2026; month = 3; day = day }

-- Item 2 tracks lots. Lot 7 expires later than lot 8.
abbrev lot_seven : InventoryLot
lot_seven = record { id = 7; lot_number = 65 ∷ []; expiry_date = some (on_day 20); created_at = 1 }

abbrev lot_eight : InventoryLot
lot_eight = record { id = 8; lot_number = 66 ∷ []; expiry_date = some (on_day 9); created_at = 2 }

abbrev receipt_of : ℕ → Option ℕ → ℤ → ℤ → InventoryStockMovement
receipt_of item lot quantity value = record {
  item_id = item;
  warehouse_id = 1;
  lot_id = lot;
  movement_type = StockMovementType.receipt;
  quantity_base = quantity;
  value_minor = value;
  unit_cost_minor = 100;
  entry_date = on_day 2;
  source_type = StockSourceType.goods_receipt;
  source_id = 40;
  source_line_id = item;
  reversal_of_id = none;
  reason = none;
}

-- 3 base units of item 1 for 1.00, and of item 2 one unit of lot 7 and two of lot 8, all for 6.00.
abbrev ledger : List InventoryStockMovement
ledger =
    receipt_of 2 (some 8) (pos 20_000) (pos 400)
    ∷ receipt_of 2 (some 7) (pos 10_000) (pos 200)
    ∷ receipt_of 1 none (pos 30_000) (pos 100)
    ∷ []

abbrev opening : Stock
opening = record {
  movements = ledger;
  balances = λ i w. if (i == 1 || i == 2) && w == 1 then pos 30_000 else pos 0;
  lot_balances = λ i w l.
      if i == 2 && w == 1 && l == 7
      then pos 10_000
      else if i == 2 && w == 1 && l == 8
      then pos 20_000
      else pos 0;
  pools = λ i.
      if i == 1
      then record { quantity = pos 30_000; value_minor = pos 100 }
      else if i == 2
      then record { quantity = pos 30_000; value_minor = pos 600 }
      else record { quantity = pos 0; value_minor = pos 0 };
  lots = lot_seven ∷ lot_eight ∷ [];
  track_lots = λ i. i == 2;
  lock_date = some (on_day 1);
}

opening-IsStock : IsStock opening
unfolding ◌+ℤ◌
opening-IsStock = record {
  balances_agree = λ i w. ground arith;
  lots_agree = λ i w l. ground arith;
  quantities_agree = λ i. ground arith;
  values_agree = λ i. ground arith;
  lots_named = (refl, (refl, (refl, tt)));
  balances_from = λ i w. ground arith;
  lots_from = λ i w l. ground arith;
  pools_valid = λ i. record {
    quantity_from = ground arith;
    value_from = ground arith;
    no_orphan = λ e. ground arith;
  };
}

abbrev issued : Document
issued = record { entry_date = on_day 5; source_type = StockSourceType.stock_issue; source_id = 50 }

abbrev taking : ℕ → ℤ → PlannedMovement
taking item quantity = record {
  source_line_id = item;
  item_id = item;
  warehouse_id = 1;
  quantity_base = quantity;
  movement_type = StockMovementType.issue;
  increase_value_minor = none;
  reversal_of_id = none;
  reason = none;
  lot_id = none;
  skip_expired = true;
}

abbrev plans : List PlannedMovement
plans = taking 1 (neg (pos 10_000)) ∷ taking 2 (neg (pos 25_000)) ∷ []

-- A third of the pool of item 1, rounded; and item 2 from lot 8 first, then from lot 7.
abbrev results : Result ValueError (List InventoryStockMovement × Stock) → List (ℤ × ℤ × Option ℕ)
results (ok r) =
    map (λ (m : InventoryStockMovement). (m.quantity_base, m.value_minor, m.lot_id)) r.0
results (err e) = []

issue_test :
    results (post_movements issued plans opening)
    ≡ (negsuc 9_999, negsuc 32, none)
      ∷ (negsuc 19_999, negsuc 399, some 8)
      ∷ (negsuc 4_999, negsuc 99, some 7)
      ∷ []
unfolding post_movements ordinal check_plans ◌-ℤ◌ check_lot_rules post_plans post_plan parts_of
    post_parts post_one make_pool valued apply_decrease decrease_value apply_lots normalise ◌+ℤ◌
    allocate days_before_month days_before_year days_in_month is_leap min_ℤ apply_increase dropped
    half_even in_context places round_minor share apply_lot candidates fresh_lots goes_first
    held_lots insert_lot older sort_lots take_from text_leb check_lot_rule flush is_recorded
    movement_of
issue_test = refl

post_movements-Posted_example : Ensures (Posted plans opening) (post_movements issued plans opening)
post_movements-Posted_example = post_movements-Posted issued plans opening opening-IsStock

allocate-Allocates_example :
    Allocates opening
      (taking 2 (neg (pos 25_000)))
      (on_day 5)
      (allocate opening (taking 2 (neg (pos 25_000))) (on_day 5))
unfolding ◌-ℤ◌
allocate-Allocates_example =
    allocate-Allocates opening (taking 2 (neg (pos 25_000))) (on_day 5) refl

move_pairs-Transfers_example :
    Ensures (Transfers plans 2 opening) (move_pairs issued plans 2 opening)
unfolding ◌-ℤ◌
move_pairs-Transfers_example =
    move_pairs-Transfers issued plans 2 opening opening-IsStock (refl, (refl, tt))
