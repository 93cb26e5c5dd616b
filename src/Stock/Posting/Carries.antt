-- ===== src/Stock/Posting/Carries.antt =====
-- The movements that a posting returns carry out the plans (app/services/inventory_posting.py): each
-- part becomes one movement, and the parts of a plan move together what it says.
use plutus_hr_system.Prelude.{
  ℕ, ◌≡◌, refl, inl, inr, true, ◌&&◌, some, List, [], ◌∷◌, ◌==◌, if◌then◌else◌, Bool-cases, ℤ, pos,
  ◌+ℤ◌, is_pos, or_raise, Ensures, Ensures-bind, or_raise-some, Ensures-skip,
}
use plutus_hr_system.Errors.{increase_without_value}
use plutus_hr_system.Stock.Costing.{
  CostPool, neg, normalise, make_pool, apply_increase, apply_decrease,
}
use plutus_hr_system.Stock.Rows.{PlannedMovement, InventoryStockMovement, Stock}
use plutus_hr_system.Stock.Sums.{sum_where, at_pair, of_item, quantity_of}
use plutus_hr_system.Stock.Posting.{Document, valued, apply_lots, movement_of, post_one, post_parts}

pub record Carries (plan : PlannedMovement) (m : InventoryStockMovement) : Type 0 where
  pub same_item : m.item_id ≡ plan.item_id
  pub same_warehouse : m.warehouse_id ≡ plan.warehouse_id
  pub same_quantity : m.quantity_base ≡ plan.quantity_base
  pub same_lot : m.lot_id ≡ plan.lot_id
  pub given_value :
      is_pos plan.quantity_base ≡ true → plan.increase_value_minor ≡ some m.value_minor

-- One movement for each plan, in order.
pub data CarriesAll : List PlannedMovement → List InventoryStockMovement → Type 0 where
  done : CarriesAll [] []
  next :
      {plan : PlannedMovement} {m : InventoryStockMovement} {plans : List PlannedMovement}
      {ms : List InventoryStockMovement}
      → Carries plan m
      → CarriesAll plans ms
      → CarriesAll (plan ∷ plans) (m ∷ ms)

abbrev Given : PlannedMovement → CostPool × ℤ → Type 0
Given plan r = is_pos plan.quantity_base ≡ true → plan.increase_value_minor ≡ some r.1

valued-Given : (pool : CostPool) (plan : PlannedMovement) → Ensures (Given plan) (valued pool plan)
unfolding valued
valued-Given pool plan = elim (Bool-cases (is_pos plan.quantity_base)) [
  | inl up ↦ rw up (
      Ensures-bind (λ v. plan.increase_value_minor ≡ some v) (Given plan)
        (or_raise plan.increase_value_minor increase_without_value) _
        (or_raise-some plan.increase_value_minor increase_without_value)
        λ value given.
          Ensures-skip (Given plan) (apply_increase pool plan.quantity_base value) _
            λ new_pool positive. given)
  | inr down ↦ rw down (
      Ensures-skip (Given plan) (apply_decrease pool (neg plan.quantity_base)) _
        λ taken positive. cc)
]

pub post_one-Carries :
    (document : Document) (plan : PlannedMovement) (s : Stock)
    → Ensures (λ r. Carries plan r.0) (post_one document plan s)
unfolding post_one movement_of
post_one-Carries document plan s =
    let Q : InventoryStockMovement × Stock → Type 0 = λ r. Carries plan r.0 in
    let row : CostPool = s.pools plan.item_id in
    Ensures-skip Q (make_pool row.quantity row.value_minor) _ λ pool.
      Ensures-bind (Given plan) Q (valued pool plan) _ (valued-Given pool plan) λ priced given.
        Ensures-skip Q (apply_lots plan.lot_id s plan) _ λ with_lot.
          Ensures-skip Q
            (normalise (s.balances plan.item_id plan.warehouse_id +ℤ plan.quantity_base)) _
            λ after. record {
              same_item = refl;
              same_warehouse = refl;
              same_quantity = refl;
              same_lot = refl;
              given_value = given;
            }

pub post_parts-CarriesAll :
    (document : Document) (parts : List PlannedMovement) (s : Stock)
    → Ensures (λ r. CarriesAll parts r.0) (post_parts document parts s)
unfolding post_parts
post_parts-CarriesAll document [] s = done
post_parts-CarriesAll document (part ∷ parts) s =
    Ensures-bind (λ r. Carries part r.0) (λ r. CarriesAll (part ∷ parts) r.0)
      (post_one document part s) _ (post_one-Carries document part s)
      λ (one : InventoryStockMovement × Stock) carried.
        Ensures-bind (λ r. CarriesAll parts r.0) (λ r. CarriesAll (part ∷ parts) r.0)
          (post_parts document parts one.1) _ (post_parts-CarriesAll document parts one.1)
          λ (rest : List InventoryStockMovement × Stock) all. next carried all

-- What plans move at an item and a warehouse.
abbrev pub planned_at : ℕ → ℕ → List PlannedMovement → ℤ
planned_at item warehouse [] = pos 0
planned_at item warehouse (plan ∷ plans) =
    (if plan.item_id == item && plan.warehouse_id == warehouse then plan.quantity_base else pos 0)
    +ℤ planned_at item warehouse plans

-- What plans move of an item, wherever it is.
abbrev pub planned_of : ℕ → List PlannedMovement → ℤ
planned_of item [] = pos 0
planned_of item (plan ∷ plans) =
    (if plan.item_id == item then plan.quantity_base else pos 0) +ℤ planned_of item plans

pub CarriesAll-planned_of :
    (item : ℕ) {plans : List PlannedMovement} {ms : List InventoryStockMovement}
    → CarriesAll plans ms
    → sum_where (of_item item) quantity_of ms ≡ planned_of item plans
CarriesAll-planned_of item done = refl
CarriesAll-planned_of item (next c cs) =
    rw (c.same_item, c.same_quantity, CarriesAll-planned_of item cs) refl

pub CarriesAll-planned_at :
    (item warehouse : ℕ) {plans : List PlannedMovement} {ms : List InventoryStockMovement}
    → CarriesAll plans ms
    → sum_where (at_pair item warehouse) quantity_of ms ≡ planned_at item warehouse plans
CarriesAll-planned_at item warehouse done = refl
CarriesAll-planned_at item warehouse (next c cs) =
    rw (c.same_item, c.same_warehouse, c.same_quantity, CarriesAll-planned_at item warehouse cs)
      refl
