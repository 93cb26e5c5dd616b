-- ===== src/Money.antt =====
-- Money in minor units and the one rounding rule (app/domain/money.py).
pub mod Rounding
mod Tests
use Prim.Native.String.{String}
use text.Mathlib.Text.{◌==◌ as str_eq}
use plutus_hr_system.Prelude.{
  ℕ, not, Option, none, some, List, [], ◌∷◌, ◌==◌, if◌then◌else◌, ℤ, pos, ◌+ℤ◌, ◌-ℤ◌, ◌*ℤ◌, ◌//ℤ◌,
  is_neg, Result, ok, ◌>>=◌, ◌>>◌, raise_if, or_raise,
}
use plutus_hr_system.Errors.{ValueError, negative, unknown_currency, currency_mismatch}

-- `_CURRENCY_EXPONENTS`
abbrev pub currency_exponents : List (String × ℕ)
currency_exponents =
    ("NGN", 2) ∷ ("GMD", 2) ∷ ("RWF", 0) ∷ ("KES", 2) ∷ ("GHS", 2) ∷ ("XOF", 0) ∷ []

exponent_in : String → List (String × ℕ) → Option ℕ
exponent_in currency [] = none
exponent_in currency ((code, exponent) ∷ rest) =
    if str_eq code currency then some exponent else exponent_in currency rest

unfoldable pub minor_units_exponent : String → Result ValueError ℕ
unfolding exponent_in
minor_units_exponent currency =
    or_raise (exponent_in currency currency_exponents) (unknown_currency currency)

-- (amount * rate + 500_000) // 1_000_000, refused on a negative amount or rate.
unfoldable pub apply_rate_ppm : ℤ → ℤ → Result ValueError ℤ
unfolding ◌+ℤ◌ ◌*ℤ◌ ◌//ℤ◌
apply_rate_ppm amount_minor rate_ppm = do
  raise_if (is_neg amount_minor) (negative "amount_minor")
  raise_if (is_neg rate_ppm) (negative "rate_ppm")
  ok ((amount_minor *ℤ rate_ppm +ℤ pos 500_000) //ℤ 1_000_000)

pub record Money : Type 0 where
  pub amount_minor : ℤ
  pub currency : String

-- The constructor with its `__post_init__`, which raises on an unknown currency.
unfoldable pub make_money : ℤ → String → Result ValueError Money
make_money amount currency = do
  exponent ← minor_units_exponent currency
  ok (record { amount_minor = amount; currency = currency })

require_same_currency : Money → Money → Result ValueError (Unit {0})
require_same_currency a b = raise_if (not (str_eq b.currency a.currency)) currency_mismatch

-- `Money.__add__` and `Money.__sub__`
unfoldable pub add : Money → Money → Result ValueError Money
unfolding require_same_currency
add a b = require_same_currency a b >> make_money (a.amount_minor +ℤ b.amount_minor) a.currency

unfoldable pub sub : Money → Money → Result ValueError Money
unfolding require_same_currency
sub a b = require_same_currency a b >> make_money (a.amount_minor -ℤ b.amount_minor) a.currency
