-- ===== src/Stock/Costing.antt =====
-- Moving weighted-average costing: app/domain/inventory/costing.py, with the quantities of
-- app/domain/inventory/quantities.py. A quantity is a whole number of ten-thousandths of the base
-- unit, which is what a NUMERIC(18, 4) column holds; a value is a number of minor units.
pub mod Pools
use plutus_hr_system.Prelude.{
  ℕ, zero, suc, ◌+◌, ◌*◌, ◌/◌, ◌%◌, ◌^◌, not, ◌&&◌, ◌||◌, ltb, ◌==◌, if◌then◌else◌, ℤ, pos,
  pos_part, neg_part, ◌+ℤ◌, ◌-ℤ◌, ltb_ℤ, eq_ℤ, is_neg, is_pos, is_nonzero, Result, ok, ◌>>=◌, ◌>>◌,
  raise_if,
}
use plutus_hr_system.Errors.{
  ValueError, pool_negative, pool_without_quantity, not_an_increase, not_a_decrease,
  insufficient_stock, quantity_too_large,
}

-- 10 ** QUANTITY_PLACES
abbrev pub quantum : ℕ
quantum = 10_000

-- `MAX_QUANTITY`, 10 ** 14 - 0.0001 base units.
abbrev pub max_quantity : ℕ
max_quantity = 999_999_999_999_999_999

-- The value of a quantity of this many ten-thousandths, whatever its sign.
abbrev pub magnitude : ℤ → ℕ
magnitude a = pos_part a + neg_part a

abbrev pub neg : ℤ → ℤ
neg a = pos 0 -ℤ a

-- `normalise`: a whole number of ten-thousandths is finite and has four places.
unfoldable pub normalise : ℤ → Result ValueError ℤ
normalise quantity =
    raise_if (ltb max_quantity (magnitude quantity)) quantity_too_large >> ok quantity

-- n / d to a whole number, half to even.
unfoldable pub half_even : ℕ → ℕ → ℕ
half_even n d =
    let whole = n / d in
    let twice = 2 * (n % d) in
    if ltb twice d
    then whole
    else if ltb d twice
    then whole + 1
    else if whole % 2 == 0
    then whole
    else whole + 1

-- The decimal module computes to the 28 significant digits of its default context. The most places
-- that leave n / d below 10 ** 28, and the digits to drop where it is not below.
unfoldable pub places : ℕ → ℕ → ℕ → ℕ
places zero n d = 0
places (suc k) n d =
    let fewer = places k n d in if ltb (n * 10 ^ suc k) (d * 10 ^ 28) then suc k else fewer

unfoldable pub dropped : ℕ → ℕ → ℕ → ℕ
dropped zero n d = 0
dropped (suc k) n d =
    let fewer = dropped k n d in if ltb n (d * 10 ^ (28 + k)) then fewer else suc k

-- A ratio of whole numbers.
pub record Ratio : Type 0 where
  pub top : ℕ
  pub bottom : ℕ

-- n / d as the context rounds it, half to even. Below 0.1 the code keeps more than 28 places, which
-- makes no difference to the whole number that it is rounded to afterwards.
unfoldable pub in_context : ℕ → ℕ → Ratio
unfolding places dropped half_even
in_context n d =
    let k = places 28 n d in
    let j = dropped 40 n d in
    if j == 0
    then record { top = half_even (n * 10 ^ k) d; bottom = 10 ^ k }
    else record { top = half_even n (d * 10 ^ j) * 10 ^ j; bottom = 1 }

-- `round_minor`
unfoldable pub round_minor : Ratio → ℕ
unfolding half_even
round_minor amount = half_even amount.top amount.bottom

-- `Decimal(value) * quantity / total`: the product is rounded, and then the quotient.
unfoldable pub share : ℕ → ℕ → ℕ → Ratio
unfolding in_context
share value quantity total =
    let product = in_context (value * quantity) quantum in
    in_context (product.top * quantum) (product.bottom * total)

pub record CostPool : Type 0 where
  pub quantity : ℤ
  pub value_minor : ℤ

-- The constructor with its `__post_init__`.
unfoldable pub make_pool : ℤ → ℤ → Result ValueError CostPool
make_pool quantity value_minor = do
  raise_if (is_neg quantity || is_neg value_minor) pool_negative
  raise_if (not (is_nonzero quantity) && is_nonzero value_minor) pool_without_quantity
  ok (record { quantity = quantity; value_minor = value_minor })

abbrev pub empty_pool : CostPool
empty_pool = record { quantity = pos 0; value_minor = pos 0 }

-- The value that stock enters at.
unfoldable pub increase_value : ℤ → ℤ → Result ValueError ℤ
unfolding in_context round_minor
increase_value quantity unit_cost_minor = do
  raise_if (not (is_pos quantity)) not_an_increase
  raise_if (is_neg unit_cost_minor) not_an_increase
  ok (pos (round_minor (in_context (pos_part quantity * pos_part unit_cost_minor) quantum)))

-- The value that stock leaves at.
unfoldable pub decrease_value : CostPool → ℤ → Result ValueError ℤ
unfolding share round_minor
decrease_value pool quantity = do
  raise_if (not (is_pos quantity)) not_a_decrease
  raise_if (ltb_ℤ pool.quantity quantity) insufficient_stock
  ok (
      if eq_ℤ quantity pool.quantity
      then pool.value_minor
      else pos (
          round_minor
            (share (pos_part pool.value_minor) (pos_part quantity) (pos_part pool.quantity))))

unfoldable pub apply_increase : CostPool → ℤ → ℤ → Result ValueError CostPool
apply_increase pool quantity value_minor = do
  raise_if (not (is_pos quantity) || is_neg value_minor) not_an_increase
  make_pool (pool.quantity +ℤ quantity) (pool.value_minor +ℤ value_minor)

unfoldable pub apply_decrease : CostPool → ℤ → Result ValueError (CostPool × ℤ)
apply_decrease pool quantity = do
  value ← decrease_value pool quantity
  remaining ← make_pool (pool.quantity -ℤ quantity) (pool.value_minor -ℤ value)
  ok (remaining, value)
