-- ===== src/Stock/Costing/Pools.antt =====
-- The invariants that the docstring of app/domain/inventory/costing.py gives a cost pool, and that
-- each of its functions keeps them and moves the pool by what it says.
use plutus_hr_system.Prelude.{
  ◌≡◌, refl, false, not, ◌&&◌, ◌||◌, arith, ℤ, pos, negsuc, ◌+ℤ◌, ◌-ℤ◌, ◌≤ℤ◌, is_neg, is_pos,
  is_nonzero, Ensures, Ensures-bind, Ensures-skip, Ensures-raise_if,
}
use plutus_hr_system.Errors.{pool_negative, pool_without_quantity}
use plutus_hr_system.Stock.Costing.{
  CostPool, make_pool, decrease_value, apply_increase, apply_decrease,
}

pub record IsPool (pool : CostPool) : Type 0 where
  pub quantity_from : pos 0 ≤ℤ pool.quantity
  pub value_from : pos 0 ≤ℤ pool.value_minor
  pub no_orphan : pool.quantity ≡ pos 0 → pool.value_minor ≡ pos 0

pub record Makes (quantity value : ℤ) (pool : CostPool) : Type 0 where
  pub same_quantity : pool.quantity ≡ quantity
  pub same_value : pool.value_minor ≡ value
  pub valid : IsPool pool

abbrev pool_of : ℤ → ℤ → CostPool
pool_of quantity value = record { quantity = quantity; value_minor = value }

orphan_checked :
    (quantity value : ℤ)
    → (not (is_nonzero quantity) && is_nonzero value) ≡ false
    → quantity ≡ pos 0
    → value ≡ pos 0
orphan_checked (pos q) (pos v) h e = ground arith
orphan_checked (pos q) (negsuc v) h e = ground arith
orphan_checked (negsuc q) v h e = cc

sign_checked :
    (quantity value : ℤ)
    → (is_neg quantity || is_neg value) ≡ false
    → (pos 0 ≤ℤ quantity) × (pos 0 ≤ℤ value)
sign_checked (pos q) (pos v) h = (omega arith, omega arith)
sign_checked (pos q) (negsuc v) h = cc
sign_checked (negsuc q) v h = cc

pub make_pool-Makes :
    (quantity value : ℤ) → Ensures (Makes quantity value) (make_pool quantity value)
unfolding make_pool
make_pool-Makes quantity value =
    Ensures-raise_if (Makes quantity value) (is_neg quantity || is_neg value) pool_negative _
      λ signs.
        Ensures-raise_if (Makes quantity value) (not (is_nonzero quantity) && is_nonzero value)
          pool_without_quantity _
          λ orphans. record {
            same_quantity = refl;
            same_value = refl;
            valid = record {
              quantity_from = (sign_checked quantity value signs).0;
              value_from = (sign_checked quantity value signs).1;
              no_orphan = orphan_checked quantity value orphans;
            };
          }

-- What an increase and a decrease make of a pool.
pub apply_increase-Makes :
    (pool : CostPool) (quantity value : ℤ)
    → Ensures
        (Makes (pool.quantity +ℤ quantity) (pool.value_minor +ℤ value))
        (apply_increase pool quantity value)
unfolding apply_increase
apply_increase-Makes pool quantity value =
    Ensures-raise_if (Makes (pool.quantity +ℤ quantity) (pool.value_minor +ℤ value))
      (not (is_pos quantity) || is_neg value) _ _
      λ checked. make_pool-Makes (pool.quantity +ℤ quantity) (pool.value_minor +ℤ value)

abbrev pub Takes : CostPool → ℤ → CostPool × ℤ → Type 0
Takes pool quantity taken = Makes (pool.quantity -ℤ quantity) (pool.value_minor -ℤ taken.1) taken.0

pub apply_decrease-Takes :
    (pool : CostPool) (quantity : ℤ) → Ensures (Takes pool quantity) (apply_decrease pool quantity)
unfolding apply_decrease
apply_decrease-Takes pool quantity =
    Ensures-skip (Takes pool quantity) (decrease_value pool quantity) _ λ value.
      Ensures-bind (Makes (pool.quantity -ℤ quantity) (pool.value_minor -ℤ value))
        (Takes pool quantity) (make_pool (pool.quantity -ℤ quantity) (pool.value_minor -ℤ value)) _
        (make_pool-Makes (pool.quantity -ℤ quantity) (pool.value_minor -ℤ value))
        λ remaining made. made
