-- ===== src/Engine/Postings.antt =====
-- The journals of engine payslips and of payroll levies: app/compliance/engine/postings.py.
pub mod Balanced
use Prim.Native.String.{String}
use text.Mathlib.Text.{◌==◌ as str_eq}
use plutus_hr_system.Prelude.{
  Bool, true, false, not, ◌||◌, none, some, List, [], ◌∷◌, ◌++◌, ◌==◌, if◌then◌else◌, ℤ, ◌-ℤ◌,
  is_neg, is_nonzero, Result, ok, err, ◌>>=◌, ◌>>◌, raise_if,
}
use plutus_hr_system.Errors.{
  ValueError, negative, no_expense_account, not_a_levy, deductions_exceed_net,
}
use plutus_hr_system.Totals.{add_to, sum_of}
use plutus_hr_system.Payroll.Postings.{Posting, debit, credit}
use plutus_hr_system.Engine.Lines.{LineKind, StatutoryLine}
use plutus_hr_system.Engine.Calculate.{PayslipResult, is_employer_contribution}

abbrev pub gross_pay_expense : String
gross_pay_expense = "payroll_expense_gross"

abbrev pub net_pay_payable : String
net_pay_payable = "net_pay_payable"

-- The loop of `_combined`, which leaves zero amounts out.
pub combined_from : List (String × ℤ) → List (String × ℤ) → List (String × ℤ)
combined_from [] totals = totals
combined_from ((account, amount) ∷ entries) totals =
    combined_from entries (if is_nonzero amount then add_to account amount totals else totals)

unfoldable pub combined : List (String × ℤ) → List (String × ℤ)
unfolding combined_from
combined entries = combined_from entries []

-- `_expense_account`: an empty name is no account.
unfoldable pub expense_account_of : StatutoryLine → Result ValueError String
expense_account_of line = elim line.expense_account [
  | none ↦ err (no_expense_account line.code)
  | some account ↦ if str_eq account "" then err (no_expense_account line.code) else ok account
]

-- The expense of each employer contribution.
pub employer_expenses : List StatutoryLine → Result ValueError (List (String × ℤ))
unfolding expense_account_of
employer_expenses [] = ok []
employer_expenses (line ∷ lines) =
    let rest = employer_expenses lines in
    if not (is_employer_contribution line.kind) then rest else do
      account ← expense_account_of line
      expenses ← rest
      ok ((account, line.amount_minor) ∷ expenses)

abbrev pub liabilities : List StatutoryLine → List (String × ℤ)
liabilities [] = []
liabilities (line ∷ lines) = (line.liability_account, line.amount_minor) ∷ liabilities lines

pub any_negative : List (String × ℤ) → Bool
any_negative [] = false
any_negative ((account, amount) ∷ rest) = is_neg amount || any_negative rest

abbrev pub debits_of : List (String × ℤ) → List Posting
debits_of [] = []
debits_of ((account, amount) ∷ rest) = debit account amount ∷ debits_of rest

abbrev pub credits_of : List (String × ℤ) → List Posting
credits_of [] = []
credits_of ((account, amount) ∷ rest) = credit account amount ∷ credits_of rest

unfoldable pub build_payslip_postings :
    PayslipResult → List (String × ℤ) → Result ValueError (List Posting)
unfolding employer_expenses any_negative
build_payslip_postings result other_deductions = do
  raise_if (any_negative other_deductions) (negative "deduction")
  let net_pay = result.net_pay_minor -ℤ sum_of other_deductions
  raise_if (is_neg net_pay) deductions_exceed_net
  expenses ← employer_expenses result.lines
  let debits = combined ((gross_pay_expense, result.gross_minor) ∷ expenses)
  let credits =
      combined (liabilities result.lines ++ other_deductions ++ ((net_pay_payable, net_pay) ∷ []))
  ok (debits_of debits ++ credits_of credits)

abbrev is_levy : LineKind → Bool
is_levy LineKind.payroll_levy = true
is_levy LineKind.employee_contribution = false
is_levy LineKind.employer_contribution = false
is_levy LineKind.income_tax = false

pub build_levy_postings : List StatutoryLine → Result ValueError (List Posting)
unfolding expense_account_of
build_levy_postings [] = ok []
build_levy_postings (line ∷ lines) =
    let rest = build_levy_postings lines in
    do
      raise_if (not (is_levy line.kind)) (not_a_levy line.code)
      expense ← (if is_nonzero line.amount_minor then expense_account_of line else ok "")
      postings ← rest
      ok (
          if is_nonzero line.amount_minor
          then debit expense line.amount_minor
            ∷ credit line.liability_account line.amount_minor
            ∷ postings
          else postings)
