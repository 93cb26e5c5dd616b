-- ===== src/Stock/Lots.antt =====
-- The lot balances that a posting touches: `_LotStock` of app/services/inventory_posting.py. A
-- decrease that names no lot is split over the lots, earliest expiry first.
pub mod Candidates
pub mod Usable
pub mod Tried
pub mod Fefo
use plutus_hr_system.Prelude.{
  ℕ, Bool, true, false, not, ◌&&◌, Option, none, some, List, [], ◌∷◌, ltb, ◌==◌, if◌then◌else◌, ℤ,
  pos, ◌+ℤ◌, ◌-ℤ◌, leb_ℤ, is_neg, is_pos, min_ℤ, Result, ok, ◌>>=◌, ◌>>◌, raise_if,
}
use plutus_hr_system.Errors.{ValueError, insufficient_stock}
use plutus_hr_system.Calendar.{Date, before}
use plutus_hr_system.Stock.Costing.{neg, normalise}
use plutus_hr_system.Stock.Rows.{InventoryLot, PlannedMovement, Stock, update}

-- `_LotStock.apply`, for a movement that names its lot.
unfoldable pub apply_lot : Stock → PlannedMovement → ℕ → Result ValueError Stock
apply_lot stock plan lot = do
  let held = stock.lot_balances plan.item_id plan.warehouse_id
  after ← normalise (held lot +ℤ plan.quantity_base)
  raise_if (is_neg after) insufficient_stock
  ok (record stock {
    lot_balances =
        update stock.lot_balances plan.item_id
          (update (stock.lot_balances plan.item_id) plan.warehouse_id (update held lot after));
  })

-- `a <= b` on texts.
unfoldable pub text_leb : List ℕ → List ℕ → Bool
text_leb [] b = true
text_leb (x ∷ a) [] = false
text_leb (x ∷ a) (y ∷ b) = if x == y then text_leb a b else ltb x y

-- `a <= b` on the rest of the key, the creation time and the number.
unfoldable pub older : InventoryLot → InventoryLot → Bool
unfolding text_leb
older a b =
    if a.created_at == b.created_at
    then text_leb a.lot_number b.lot_number
    else ltb a.created_at b.created_at

-- Lots without an expiry stand last.
abbrev pub sooner : Option Date → Option Date → Bool → Bool
sooner none none rest = rest
sooner none (some b) rest = false
sooner (some a) none rest = true
sooner (some a) (some b) rest = if not (before a b) && not (before b a) then rest else before a b

-- The order of the sort key.
unfoldable pub goes_first : InventoryLot → InventoryLot → Bool
unfolding older
goes_first a b = sooner a.expiry_date b.expiry_date (older a b)

-- The lots of the pair with something in them: (lot, quantity).
unfoldable pub held_lots : (ℕ → ℤ) → List InventoryLot → List (InventoryLot × ℤ)
held_lots held [] = []
held_lots held (lot ∷ lots) =
    let rest = held_lots held lots in
    if is_pos (held lot.id) then (lot, held lot.id) ∷ rest else rest

unfoldable pub insert_lot : InventoryLot × ℤ → List (InventoryLot × ℤ) → List (InventoryLot × ℤ)
insert_lot entry [] = entry ∷ []
insert_lot entry (first ∷ rest) =
    if goes_first entry.0 first.0 then entry ∷ first ∷ rest else first ∷ insert_lot entry rest

unfoldable pub sort_lots : List (InventoryLot × ℤ) → List (InventoryLot × ℤ)
sort_lots [] = []
sort_lots (entry ∷ rest) = insert_lot entry (sort_lots rest)

abbrev pub expired_by : Date → InventoryLot → Bool
expired_by on lot = elim lot.expiry_date [ none ↦ false | some expiry ↦ before expiry on ]

-- The lots that have not expired by the posting date.
unfoldable pub fresh_lots : Date → List (InventoryLot × ℤ) → List (InventoryLot × ℤ)
fresh_lots on [] = []
fresh_lots on ((lot, quantity) ∷ rest) =
    let fresh = fresh_lots on rest in if expired_by on lot then fresh else (lot, quantity) ∷ fresh

-- The loop: the parts, and what is still wanted after the last.
unfoldable pub take_from : PlannedMovement → ℤ → List (InventoryLot × ℤ) → List PlannedMovement × ℤ
take_from plan wanted [] = ([], wanted)
take_from plan wanted ((lot, held) ∷ rest) =
    let take = min_ℤ held wanted in
    let after = take_from plan (wanted -ℤ take) rest in
    let part = record plan { quantity_base = neg take; lot_id = some lot.id } in
    if leb_ℤ wanted (pos 0) then ([], wanted) else (part ∷ after.0, after.1)

unfoldable pub candidates : Stock → PlannedMovement → Date → List (InventoryLot × ℤ)
candidates stock plan entry_date =
    let sorted =
      sort_lots (held_lots (stock.lot_balances plan.item_id plan.warehouse_id) stock.lots) in
    if plan.skip_expired then fresh_lots entry_date sorted else sorted

-- `_LotStock.allocate`
unfoldable pub allocate : Stock → PlannedMovement → Date → Result ValueError (List PlannedMovement)
allocate stock plan entry_date = do
  let taken = take_from plan (neg plan.quantity_base) (candidates stock plan entry_date)
  raise_if (is_pos taken.1) insufficient_stock
  ok taken.0
