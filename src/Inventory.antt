-- ===== src/Inventory.antt =====
-- The posting rules of inventory: app/domain/inventory/accounting.py.
pub mod Journal
mod Tests
use Prim.Native.String.{String}
use plutus_hr_system.Prelude.{
  not, ◌||◌, Option, List, [], ◌∷◌, if◌then◌else◌, ℤ, pos, ◌+ℤ◌, ◌-ℤ◌, is_neg, is_pos, is_nonzero,
  max_ℤ, Result, ok, ◌>>=◌, ◌>>◌, raise_if,
}
use plutus_hr_system.Errors.{ValueError, negative, not_positive, inventory_unbalanced}
use plutus_hr_system.Totals.{totals_from, sum_of}
use plutus_hr_system.Accounting.{PostingLine, plain_line}

abbrev pub inventory_account : String
inventory_account = "inventory"

abbrev pub grni_account : String
grni_account = "grni"

abbrev pub consumption_account : String
consumption_account = "inventory_consumption"

abbrev pub adjustment_account : String
adjustment_account = "inventory_adjustment"

abbrev pub opening_balance_account : String
opening_balance_account = "inventory_opening_balance"

-- An account and a signed amount, debit positive and credit negative.
abbrev pub Leg : Type 0
Leg = String × ℤ

-- The lines of the accounts whose total is not zero.
pub lines_of : Option String → List (String × ℤ) → List PostingLine
lines_of description [] = []
lines_of description ((account, amount) ∷ rest) =
    let lines = lines_of description rest in
    if is_nonzero amount
    then plain_line account (max_ℤ (pos 0) amount) (max_ℤ (pos 0) (pos 0 -ℤ amount)) description
      ∷ lines
    else lines

unfoldable pub journal_lines : List Leg → Option String → Result ValueError (List PostingLine)
journal_lines legs description = do
  let totals = totals_from legs []
  raise_if (is_nonzero (sum_of totals)) inventory_unbalanced
  ok (lines_of description totals)

unfoldable pub counter_legs : ℤ → String → List Leg
counter_legs inventory_delta_minor counter_account =
    (inventory_account, inventory_delta_minor)
    ∷ (counter_account, pos 0 -ℤ inventory_delta_minor)
    ∷ []

unfoldable pub reversal_variance_legs : ℤ → ℤ → List Leg
reversal_variance_legs actual_delta_minor mirrored_delta_minor =
    counter_legs (actual_delta_minor -ℤ mirrored_delta_minor) adjustment_account

-- `[leg for leg in legs if leg.amount_minor != 0]`
pub nonzero_legs : List Leg → List Leg
nonzero_legs [] = []
nonzero_legs ((account, amount) ∷ legs) =
    let rest = nonzero_legs legs in if is_nonzero amount then (account, amount) ∷ rest else rest

abbrev pub five_legs : ℤ → ℤ → ℤ → String → ℤ → List Leg
five_legs amount vat wht expense_account grni_cleared =
    (grni_account, grni_cleared)
    ∷ (expense_account, amount -ℤ grni_cleared)
    ∷ ("vat_receivable", vat)
    ∷ ("wht_payable", pos 0 -ℤ wht)
    ∷ ("accounts_payable", pos 0 -ℤ (amount +ℤ vat -ℤ wht))
    ∷ []

unfoldable pub bill_legs : ℤ → ℤ → ℤ → String → ℤ → Result ValueError (List Leg)
unfolding nonzero_legs
bill_legs amount vat wht expense_account grni_cleared = do
  raise_if (not (is_pos amount)) (not_positive "amount_minor")
  raise_if (is_neg vat || is_neg wht || is_neg grni_cleared) (negative "amounts")
  ok (nonzero_legs (five_legs amount vat wht expense_account grni_cleared))
