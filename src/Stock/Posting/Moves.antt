-- ===== src/Stock/Posting/Moves.antt =====
-- What each step of a posting does to the projections of app/services/inventory_posting.py: it moves
-- them by exactly the movements that it returns.
use plutus_hr_system.Prelude.{
  ℕ, ◌≡◌, refl, ◌∙◌, inl, inr, Bool, ◌&&◌, Option, none, some, List, [], ◌∷◌, ◌++◌, ◌==◌,
  if◌then◌else◌, Bool-cases, ℤ, pos, ◌+ℤ◌, ◌-ℤ◌, ◌≤ℤ◌, is_neg, is_pos, int_laws, ok, or_raise,
  Ensures, Ensures-bind, Ensures-skip, Ensures-raise_if,
}
use plutus_hr_system.Errors.{increase_without_value}
use plutus_hr_system.Stock.Costing.{
  CostPool, neg, normalise, make_pool, apply_increase, apply_decrease,
}
use plutus_hr_system.Stock.Costing.Pools.{
  IsPool, Makes, Takes, make_pool-Makes, apply_increase-Makes, apply_decrease-Takes,
}
use plutus_hr_system.Stock.Rows.{PlannedMovement, InventoryStockMovement, Stock, update}
use plutus_hr_system.Stock.Lots.{apply_lot}
use plutus_hr_system.Stock.Sums.{
  sum_where, at_pair, at_lot, of_item, quantity_of, value_of, sum_where-append,
}
use plutus_hr_system.Stock.Posting.{
  Document, valued, apply_lots, movement_of, post_one, post_parts, same_option,
}

abbrev Adds : CostPool → PlannedMovement → CostPool × ℤ → Type 0
Adds pool plan r = Makes (pool.quantity +ℤ plan.quantity_base) (pool.value_minor +ℤ r.1) r.0

retarget : (q v q' v' : ℤ) (pool : CostPool) → q ≡ q' → v ≡ v' → Makes q v pool → Makes q' v' pool
retarget q v q' v' pool e f m = record {
  same_quantity = m.same_quantity ∙ e;
  same_value = m.same_value ∙ f;
  valid = m.valid;
}

minus_neg : (a q : ℤ) → a -ℤ neg q ≡ a +ℤ q
minus_neg a q = omega int_laws

minus : (a v : ℤ) → a -ℤ v ≡ a +ℤ neg v
minus a v = omega int_laws

-- A movement's new pool is the old one with the movement's quantity and signed value added.
valued-Adds :
    (pool : CostPool) (plan : PlannedMovement) → Ensures (Adds pool plan) (valued pool plan)
unfolding valued
valued-Adds pool plan = elim (Bool-cases (is_pos plan.quantity_base)) [
  | inl up ↦ rw up (
      Ensures-skip (Adds pool plan) (or_raise plan.increase_value_minor increase_without_value) _
        λ value.
          Ensures-bind (Makes (pool.quantity +ℤ plan.quantity_base) (pool.value_minor +ℤ value))
            (Adds pool plan) (apply_increase pool plan.quantity_base value) _
            (apply_increase-Makes pool plan.quantity_base value) λ new_pool made. made)
  | inr down ↦ rw down (
      Ensures-bind (Takes pool (neg plan.quantity_base)) (Adds pool plan)
        (apply_decrease pool (neg plan.quantity_base)) _
        (apply_decrease-Takes pool (neg plan.quantity_base))
        λ taken made.
          retarget _ _ _ _ taken.0 (minus_neg pool.quantity plan.quantity_base)
            (minus pool.value_minor taken.1) made)
]

-- The projections of `t` are those of `s` moved on by the movements; the rest is as it was. A pool
-- that a movement touched is a valid one.
pub record Moves (ms : List InventoryStockMovement) (s t : Stock) : Type 0 where
  pub balance :
      (item warehouse : ℕ)
      → t.balances item warehouse
        ≡ s.balances item warehouse +ℤ sum_where (at_pair item warehouse) quantity_of ms
  pub lot_balance :
      (item warehouse lot : ℕ)
      → t.lot_balances item warehouse lot
        ≡ s.lot_balances item warehouse lot +ℤ sum_where (at_lot item warehouse lot) quantity_of ms
  pub pool_quantity :
      (item : ℕ)
      → (t.pools item).quantity ≡ (s.pools item).quantity +ℤ sum_where (of_item item) quantity_of ms
  pub pool_value :
      (item : ℕ)
      → (t.pools item).value_minor
        ≡ (s.pools item).value_minor +ℤ sum_where (of_item item) value_of ms
  pub pools_valid : ((item : ℕ) → IsPool (s.pools item)) → (item : ℕ) → IsPool (t.pools item)
  pub lots_from :
      ((item warehouse lot : ℕ) → pos 0 ≤ℤ s.lot_balances item warehouse lot)
      → (item warehouse lot : ℕ) → pos 0 ≤ℤ t.lot_balances item warehouse lot
  pub same_movements : t.movements ≡ s.movements
  pub same_items : t.track_lots ≡ s.track_lots
  pub same_lots : t.lots ≡ s.lots
  pub same_lock : t.lock_date ≡ s.lock_date

pub Moves-refl : (s : Stock) → Moves [] s s
Moves-refl s = record {
  balance = λ i w. omega int_laws;
  lot_balance = λ i w l. omega int_laws;
  pool_quantity = λ i. omega int_laws;
  pool_value = λ i. omega int_laws;
  pools_valid = λ h. h;
  lots_from = λ h. h;
  same_movements = refl;
  same_items = refl;
  same_lots = refl;
  same_lock = refl;
}

chained :
    (a b c : ℤ) (test : InventoryStockMovement → Bool) (amount : InventoryStockMovement → ℤ)
    (ms ns : List InventoryStockMovement)
    → b ≡ a +ℤ sum_where test amount ms
    → c ≡ b +ℤ sum_where test amount ns
    → c ≡ a +ℤ sum_where test amount (ms ++ ns)
chained a b c test amount ms ns e f = rw (sum_where-append test amount ms ns, f, e) (omega int_laws)

pub Moves-trans :
    (ms ns : List InventoryStockMovement) (s t u : Stock)
    → Moves ms s t
    → Moves ns t u
    → Moves (ms ++ ns) s u
Moves-trans ms ns s t u m n = record {
  balance = λ i w. chained _ _ _ (at_pair i w) quantity_of ms ns (m.balance i w) (n.balance i w);
  lot_balance = λ i w l.
      chained _ _ _ (at_lot i w l) quantity_of ms ns (m.lot_balance i w l) (n.lot_balance i w l);
  pool_quantity =
      λ i. chained _ _ _ (of_item i) quantity_of ms ns (m.pool_quantity i) (n.pool_quantity i);
  pool_value = λ i. chained _ _ _ (of_item i) value_of ms ns (m.pool_value i) (n.pool_value i);
  pools_valid = λ h. n.pools_valid (m.pools_valid h);
  lots_from = λ h. n.lots_from (m.lots_from h);
  same_movements = n.same_movements ∙ m.same_movements;
  same_items = n.same_items ∙ m.same_items;
  same_lots = n.same_lots ∙ m.same_lots;
  same_lock = n.same_lock ∙ m.same_lock;
}

-- The lot balance that a movement names, if it names one, is moved by it, and is not left negative.
record MovesLot (named : Option ℕ) (plan : PlannedMovement) (s t : Stock) : Type 0 where
  lot_moved :
      (item warehouse lot : ℕ)
      → t.lot_balances item warehouse lot
        ≡ s.lot_balances item warehouse lot
          +ℤ (if plan.item_id == item
                && plan.warehouse_id == warehouse
                && same_option named (some lot)
              then plan.quantity_base
              else pos 0)
  lot_from :
      ((item warehouse lot : ℕ) → pos 0 ≤ℤ s.lot_balances item warehouse lot)
      → (item warehouse lot : ℕ) → pos 0 ≤ℤ t.lot_balances item warehouse lot
  kept_movements : t.movements ≡ s.movements
  kept_items : t.track_lots ≡ s.track_lots
  kept_lots : t.lots ≡ s.lots
  kept_lock : t.lock_date ≡ s.lock_date

normalise_same : (q : ℤ) → Ensures (λ r. r ≡ q) (normalise q)
unfolding normalise
normalise_same q = Ensures-raise_if (λ r. r ≡ q) _ _ (ok q) λ fits. refl

apply_lots-MovesLot :
    (named : Option ℕ) (plan : PlannedMovement) (s : Stock)
    → Ensures (MovesLot named plan s) (apply_lots named s plan)
unfolding apply_lots apply_lot
apply_lots-MovesLot none plan s = record {
  lot_moved = λ i w l. grind int_laws;
  lot_from = λ h. h;
  kept_movements = refl;
  kept_items = refl;
  kept_lots = refl;
  kept_lock = refl;
}
apply_lots-MovesLot (some lot) plan s =
    let held : ℤ = s.lot_balances plan.item_id plan.warehouse_id lot in
    Ensures-bind (λ r. r ≡ held +ℤ plan.quantity_base) (MovesLot (some lot) plan s)
      (normalise (held +ℤ plan.quantity_base)) _ (normalise_same (held +ℤ plan.quantity_base))
      λ after same. Ensures-raise_if (MovesLot (some lot) plan s) (is_neg after) _ _ λ nonneg.
        record {
          lot_moved = λ i w l. grind int_laws;
          lot_from = λ h i w l. grind (int_laws, h i w l);
          kept_movements = refl;
          kept_items = refl;
          kept_lots = refl;
          kept_lock = refl;
        }

update-IsPool :
    (pools : ℕ → CostPool) (key : ℕ) (pool : CostPool) (at : ℕ)
    → IsPool pool
    → IsPool (pools at)
    → IsPool (update pools key pool at)
update-IsPool pools key pool at new old = elim (Bool-cases (at == key)) [
  | inl e ↦ rw e new
  | inr e ↦ rw e old
]

abbrev Posts : Stock → InventoryStockMovement × Stock → Type 0
Posts s r = Moves (r.0 ∷ []) s r.1

pub post_one-Posts :
    (document : Document) (plan : PlannedMovement) (s : Stock)
    → Ensures (Posts s) (post_one document plan s)
unfolding post_one movement_of
post_one-Posts document plan s =
    let row : CostPool = s.pools plan.item_id in
    let balance : ℤ = s.balances plan.item_id plan.warehouse_id in
    Ensures-bind (Makes row.quantity row.value_minor) (Posts s)
      (make_pool row.quantity row.value_minor) _ (make_pool-Makes row.quantity row.value_minor)
      λ pool read.
        Ensures-bind (Adds pool plan) (Posts s) (valued pool plan) _ (valued-Adds pool plan)
          λ priced added.
            Ensures-bind (MovesLot plan.lot_id plan s) (Posts s) (apply_lots plan.lot_id s plan) _
              (apply_lots-MovesLot plan.lot_id plan s)
              λ with_lot moved.
                Ensures-bind (λ r. r ≡ balance +ℤ plan.quantity_base) (Posts s)
                  (normalise (balance +ℤ plan.quantity_base)) _
                  (normalise_same (balance +ℤ plan.quantity_base))
                  λ after same. record {
                    balance = λ i w. grind int_laws;
                    lot_balance = λ i w l. grind (int_laws, moved.lot_moved i w l);
                    pool_quantity = λ i. grind (int_laws, added.same_quantity, read.same_quantity);
                    pool_value = λ i. grind (int_laws, added.same_value, read.same_value);
                    pools_valid =
                        λ h i. update-IsPool s.pools plan.item_id priced.0 i added.valid (h i);
                    lots_from = moved.lot_from;
                    same_movements = moved.kept_movements;
                    same_items = moved.kept_items;
                    same_lots = moved.kept_lots;
                    same_lock = moved.kept_lock;
                  }

pub post_parts-Moves :
    (document : Document) (parts : List PlannedMovement) (s : Stock)
    → Ensures (λ r. Moves r.0 s r.1) (post_parts document parts s)
unfolding post_parts
post_parts-Moves document [] s = Moves-refl s
post_parts-Moves document (part ∷ parts) s =
    Ensures-bind (Posts s) (λ r. Moves r.0 s r.1) (post_one document part s) _
      (post_one-Posts document part s)
      λ (one : InventoryStockMovement × Stock) moved.
        Ensures-bind (λ r. Moves r.0 one.1 r.1) (λ r. Moves r.0 s r.1)
          (post_parts document parts one.1) _ (post_parts-Moves document parts one.1)
          λ (rest : List InventoryStockMovement × Stock) then_moved.
            Moves-trans (one.0 ∷ []) rest.0 s one.1 rest.1 moved then_moved
