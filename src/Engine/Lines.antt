-- ===== src/Engine/Lines.antt =====
-- The inputs of the engine's calculation and one contribution's line: the first part of
-- app/compliance/engine/calculate.py.
use Prim.Native.String.{String}
use plutus_hr_system.Prelude.{
  Bool, true, not, Option, none, some, List, if◌then◌else◌, ℤ, pos, ◌-ℤ◌, is_pos, min_ℤ, max_ℤ,
  Result, ok, err, ◌>>=◌,
}
use plutus_hr_system.Errors.{ValueError, missing_employee_data, no_rate_or_amount}
use plutus_hr_system.Calendar.{Date}
use plutus_hr_system.Payroll.Statutory.{PayFrequency}
use plutus_hr_system.Engine.Rules.{
  EarningCategory, ContributionKind, Applicability, ContributionRule,
}
use plutus_hr_system.Engine.Rounding.{rate_amount}
use plutus_hr_system.Engine.DueDates.{due_date}

pub data LineKind : Type 0 where
  employee_contribution employer_contribution income_tax payroll_levy : LineKind

pub record Earning : Type 0 where
  pub category : EarningCategory
  pub amount_minor : ℤ

pub record EmployeeFacts : Type 0 where
  pub annual_rent_paid_minor : ℤ
  pub half_shares : Option ℤ
  pub is_expatriate : Option Bool

pub record YearToDate : Type 0 where
  pub taxable_earnings_minor : ℤ
  pub tax_deductions_minor : ℤ
  pub income_tax_withheld_minor : ℤ

pub record PayslipInputs : Type 0 where
  pub period_end : Date
  pub frequency : PayFrequency
  pub periods_elapsed_this_year : ℤ
  pub earnings : List Earning
  pub facts : EmployeeFacts
  pub year_to_date : YearToDate

pub record StatutoryLine : Type 0 where
  pub code : String
  pub name : String
  pub kind : LineKind
  pub authority : String
  pub base_minor : ℤ
  pub rate_ppm : Option ℤ
  pub amount_minor : ℤ
  pub liability_account : String
  pub expense_account : Option String
  pub due_date : Date
  pub source : String

-- `facts.is_expatriate is (rule.applies_to is Applicability.EXPATRIATES)`
abbrev pub matches : Bool → Applicability → Bool
matches expatriate Applicability.expatriates = expatriate
matches expatriate Applicability.local_staff = not expatriate
matches expatriate Applicability.all = not expatriate

abbrev known : Option Bool → String → Result ValueError Bool
known none name = err (missing_employee_data name)
known (some b) name = ok b

-- `_applies`
unfoldable pub applies : ContributionRule → EmployeeFacts → Result ValueError Bool
applies rule facts = elim rule.applies_to [
  | Applicability.all ↦ ok true
  | Applicability.local_staff ↦ do
    expatriate ← known facts.is_expatriate rule.name
    ok (matches expatriate rule.applies_to)
  | Applicability.expatriates ↦ do
    expatriate ← known facts.is_expatriate rule.name
    ok (matches expatriate rule.applies_to)
]

-- `min(value, limit)` and `max(value, limit)` where the limit is set.
abbrev pub at_most : ℤ → Option ℤ → ℤ
at_most value none = value
at_most value (some limit) = min_ℤ value limit

abbrev pub at_least : ℤ → Option ℤ → ℤ
at_least value none = value
at_least value (some limit) = max_ℤ value limit

-- The base that is charged: between the floor and the ceiling.
abbrev pub charged_base : ContributionRule → ℤ → ℤ
charged_base rule base_minor =
    max_ℤ (pos 0) (at_most base_minor rule.base_ceiling_minor -ℤ rule.base_floor_minor)

-- The amount within its floor, which counts only where some base is charged, and its cap.
abbrev pub limited_amount : ContributionRule → ℤ → ℤ → ℤ
limited_amount rule charged amount =
    at_most (if is_pos charged then at_least amount rule.amount_floor_minor else amount)
      rule.amount_cap_minor

-- The base charged and the amount of a contribution.
unfoldable pub contribution_amount : ContributionRule → ℤ → Result ValueError (ℤ × ℤ)
contribution_amount rule base_minor = elim rule.flat_amount_minor [
  | some amount ↦ ok (pos 0, amount)
  | none ↦ elim rule.rate_ppm [
    | none ↦ err (no_rate_or_amount rule.code)
    | some rate ↦ do
      let charged = charged_base rule base_minor
      amount ← rate_amount charged rate rule.rounding
      ok (charged, limited_amount rule charged amount)
  ]
]

abbrev pub line_kind : ContributionKind → LineKind
line_kind ContributionKind.of_employee = LineKind.employee_contribution
line_kind ContributionKind.of_employer = LineKind.employer_contribution

unfoldable pub line_of : ContributionRule → Date → ℤ × ℤ → StatutoryLine
line_of rule period_end (charged, amount) = record {
  code = rule.code;
  name = rule.name;
  kind = line_kind rule.kind;
  authority = rule.authority;
  base_minor = charged;
  rate_ppm = rule.rate_ppm;
  amount_minor = amount;
  liability_account = rule.liability_account;
  expense_account = rule.expense_account;
  due_date = due_date rule.due period_end;
  source = rule.source;
}

-- `_contribution_line`
unfoldable pub contribution_line : ContributionRule → ℤ → Date → Result ValueError StatutoryLine
contribution_line rule base_minor period_end = do
  amounts ← contribution_amount rule base_minor
  ok (line_of rule period_end amounts)
