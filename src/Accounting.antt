-- ===== src/Accounting.antt =====
-- Double-entry posting rules: app/domain/accounting/posting_rules.py.
pub mod Balance
mod Tests
use Prim.Native.String.{String}
use text.Mathlib.Text.{◌==◌ as str_eq}
use plutus_hr_system.Prelude.{
  ℕ, Bool, true, false, not, ◌||◌, Option, none, some, List, [], ◌∷◌, map, ltb, ◌==◌, if◌then◌else◌,
  ℤ, pos, ◌+ℤ◌, eq_ℤ, is_neg, is_pos, Result, ok, ◌>>=◌, ◌>>◌, raise_if, length,
}
use plutus_hr_system.Errors.{
  ValueError, negative, not_positive, too_few_lines, both_or_neither_side, unbalanced,
}

pub record PostingLine : Type 0 where
  pub account : String
  pub debit_minor : ℤ
  pub credit_minor : ℤ
  pub description : Option String
  pub employee_id : Option ℕ
  pub department_id : Option ℕ
  pub pay_run_id : Option ℕ

abbrev pub same : Bool → Bool → Bool
same true b = b
same false b = not b

-- The loop of `assert_balanced` over its two running totals.
unfoldable pub check_lines : List PostingLine → ℤ → ℤ → Result ValueError (Unit {0})
check_lines [] total_debit total_credit = raise_if (not (eq_ℤ total_debit total_credit)) unbalanced
check_lines (line ∷ lines) total_debit total_credit = do
  raise_if (is_neg line.debit_minor || is_neg line.credit_minor) (negative "amounts")
  raise_if (same (is_pos line.debit_minor) (is_pos line.credit_minor)) both_or_neither_side
  check_lines lines (total_debit +ℤ line.debit_minor) (total_credit +ℤ line.credit_minor)

unfoldable pub assert_balanced : List PostingLine → Result ValueError (Unit {0})
assert_balanced lines = do
  raise_if (ltb (length lines) 2) too_few_lines
  check_lines lines (pos 0) (pos 0)

abbrev given : Option String → Option String → Option String
given (some description) kept = some description
given none kept = kept

mirror_line : Option String → PostingLine → PostingLine
mirror_line description line = record line {
  debit_minor = line.credit_minor;
  credit_minor = line.debit_minor;
  description = given description line.description;
}

unfoldable pub mirror_postings : Option String → List PostingLine → List PostingLine
unfolding mirror_line
mirror_postings description lines = map (mirror_line description) lines

abbrev pub cash_account : String
cash_account = "cash"

-- `SCHEME_PAYABLE_ACCOUNT`, without ITF on purpose.
abbrev pub scheme_payable_accounts : List (String × String)
scheme_payable_accounts =
    ("paye", "paye_payable")
    ∷ ("pension", "pension_payable")
    ∷ ("nhf", "nhf_payable")
    ∷ ("nsitf", "nsitf_payable")
    ∷ ("wht", "wht_payable")
    ∷ []

pub payable_in : String → List (String × String) → Option String
payable_in scheme [] = none
payable_in scheme ((name, account) ∷ rest) =
    if str_eq name scheme then some account else payable_in scheme rest

-- A line with no dimensions, `PostingLine(account, debit, credit, description)`.
abbrev pub plain_line : String → ℤ → ℤ → Option String → PostingLine
plain_line account debit credit description = record {
  account = account;
  debit_minor = debit;
  credit_minor = credit;
  description = description;
  employee_id = none;
  department_id = none;
  pay_run_id = none;
}

unfoldable pub build_statutory_remittance_postings :
    String → ℤ → Option String → Result ValueError (Option (List PostingLine))
build_statutory_remittance_postings scheme amount_minor description = do
  raise_if (not (is_pos amount_minor)) (not_positive "amount_minor")
  ok (elim (payable_in scheme scheme_payable_accounts) [
    | none ↦ none
    | some payable ↦ some (
        plain_line payable amount_minor (pos 0) description
        ∷ plain_line cash_account (pos 0) amount_minor description
        ∷ [])
  ])
