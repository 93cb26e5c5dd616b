-- ===== src/Engine/IncomeTax.antt =====
-- The income tax of the engine: the second part of app/compliance/engine/calculate.py.
pub mod Parity
use Prim.Native.String.{String}
use text.Mathlib.Text.{◌==◌ as str_eq}
use plutus_hr_system.Prelude.{
  Option, none, some, List, [], ◌∷◌, ◌==◌, if◌then◌else◌, ℤ, pos, ◌+ℤ◌, ◌-ℤ◌, ◌*ℤ◌, ◌//ℤ◌, is_neg,
  is_pos, min_ℤ, max_ℤ, Result, ok, err, ◌>>=◌, ◌>>◌, raise_if, or_raise,
}
use plutus_hr_system.Errors.{ValueError, negative, missing_employee_data, uncapped_group}
use plutus_hr_system.Payroll.Statutory.{periods_per_year}
use plutus_hr_system.Engine.Rules.{
  TaxBand, TaxMethod, BandRounding, EmployeeFact, AnnualFactRelief, TaxCredit, DeductionCap,
  IncomeTaxRule, Rounding, fixed, family_shares, annual_rent_paid, ppm,
}
use plutus_hr_system.Engine.Rounding.{round_ratio, rate_amount}
use plutus_hr_system.Engine.DueDates.{due_date}
use plutus_hr_system.Engine.Lines.{LineKind, EmployeeFacts, PayslipInputs, StatutoryLine, at_most}

abbrev pub width_of : Option ℤ → ℤ → ℤ → ℤ
width_of none previous_ceiling remaining = remaining
width_of (some up_to) previous_ceiling remaining = up_to -ℤ previous_ceiling

abbrev pub next_ceiling : Option ℤ → ℤ → ℤ
next_ceiling none previous_ceiling = previous_ceiling
next_ceiling (some up_to) previous_ceiling = up_to

-- The loop of `band_tax`: each band's slice of the income with the band's rate.
pub band_slices : List TaxBand → ℤ → ℤ → List (ℤ × ℤ)
band_slices [] previous_ceiling remaining = []
band_slices (band ∷ bands) previous_ceiling remaining =
    let taxed = min_ℤ remaining (width_of band.up_to_minor previous_ceiling remaining) in
    let rest =
      band_slices bands (next_ceiling band.up_to_minor previous_ceiling) (remaining -ℤ taxed) in
    if is_pos remaining then (taxed, band.rate_ppm) ∷ rest else []

-- `sum(rate_amount(taxed, rate, rule.rounding) for taxed, rate in slices)`
pub sum_of_rounded : List (ℤ × ℤ) → Rounding → Result ValueError ℤ
sum_of_rounded [] rounding = ok (pos 0)
sum_of_rounded ((taxed, rate) ∷ slices) rounding = do
  amount ← rate_amount taxed rate rounding
  rest ← sum_of_rounded slices rounding
  ok (amount +ℤ rest)

abbrev pub sum_of_products : List (ℤ × ℤ) → ℤ
sum_of_products [] = pos 0
sum_of_products ((taxed, rate) ∷ slices) = taxed *ℤ rate +ℤ sum_of_products slices

unfoldable pub band_tax : ℤ → IncomeTaxRule → Result ValueError ℤ
unfolding band_slices sum_of_rounded
band_tax income_minor rule = do
  raise_if (is_neg income_minor) (negative "income_minor")
  let slices = band_slices rule.bands (pos 0) income_minor
  elim rule.band_rounding [
    | BandRounding.each_band ↦ sum_of_rounded slices rule.rounding
    | BandRounding.on_total ↦ round_ratio (sum_of_products slices) (pos ppm) rule.rounding
  ]

abbrev figure_of : EmployeeFact → EmployeeFacts → ℤ
figure_of annual_rent_paid facts = facts.annual_rent_paid_minor

unfoldable pub relief_to_date : AnnualFactRelief → PayslipInputs → Result ValueError ℤ
relief_to_date relief inputs = do
  amount ← rate_amount (figure_of relief.fact inputs.facts) relief.rate_ppm relief.rounding
  let annual = at_most amount relief.cap_minor
  let total_periods = periods_per_year inputs.frequency
  ok (annual *ℤ min_ℤ inputs.periods_elapsed_this_year (pos total_periods) //ℤ total_periods)

unfoldable pub credit_amount : TaxCredit → EmployeeFacts → Result ValueError ℤ
credit_amount (fixed credit) facts = ok credit.amount_minor
credit_amount (family_shares credit) facts = elim facts.half_shares [
  | none ↦ err (missing_employee_data "half_shares")
  | some half_shares ↦ ok (
      credit.amount_per_half_share_minor
      *ℤ max_ℤ (pos 0) (min_ℤ half_shares credit.max_half_shares -ℤ credit.base_half_shares))
]

pub reliefs_to_date : List AnnualFactRelief → PayslipInputs → Result ValueError ℤ
reliefs_to_date [] inputs = ok (pos 0)
reliefs_to_date (relief ∷ reliefs) inputs = do
  amount ← relief_to_date relief inputs
  rest ← reliefs_to_date reliefs inputs
  ok (amount +ℤ rest)

pub credits_of : List TaxCredit → EmployeeFacts → Result ValueError ℤ
credits_of [] facts = ok (pos 0)
credits_of (credit ∷ credits) facts = do
  amount ← credit_amount credit facts
  rest ← credits_of credits facts
  ok (amount +ℤ rest)

-- `caps[group]`: the dict keeps the last cap of a group, and a group without one is a KeyError.
pub cap_of : String → List DeductionCap → Option (Option ℤ)
cap_of group [] = none
cap_of group (cap ∷ caps) = elim (cap_of group caps) [
  | some found ↦ some found
  | none ↦ if str_eq cap.group group then some cap.cap_minor else none
]

unfoldable pub capped_deductions : List DeductionCap → List (String × ℤ) → Result ValueError ℤ
unfolding cap_of
capped_deductions caps [] = ok (pos 0)
capped_deductions caps ((group, amount) ∷ groups) = do
  cap ← or_raise (cap_of group caps) (uncapped_group group)
  rest ← capped_deductions caps groups
  ok (at_most amount cap +ℤ rest)

pub record IncomeTaxWorking : Type 0 where
  pub taxable_earnings_minor : ℤ
  pub deductions_minor : ℤ
  pub reliefs_minor : ℤ
  pub taxable_income_minor : ℤ
  pub tax_before_credits_minor : ℤ
  pub credits_minor : ℤ
  pub previously_withheld_minor : ℤ
  pub tax_minor : ℤ

unfoldable pub tax_line : IncomeTaxRule → ℤ → ℤ → PayslipInputs → StatutoryLine
tax_line rule taxable tax inputs = record {
  code = rule.code;
  name = rule.name;
  kind = LineKind.income_tax;
  authority = rule.authority;
  base_minor = taxable;
  rate_ppm = none;
  amount_minor = tax;
  liability_account = rule.liability_account;
  expense_account = none;
  due_date = due_date rule.due inputs.period_end;
  source = rule.source;
}

-- From the figures of the method to the tax.
unfoldable pub tax_on :
    IncomeTaxRule
    → ℤ
    → ℤ
    → ℤ
    → ℤ
    → PayslipInputs
    → Result ValueError (StatutoryLine × IncomeTaxWorking)
unfolding credits_of
tax_on rule earnings deductions reliefs previously_withheld inputs = do
  let taxable = max_ℤ (pos 0) (earnings -ℤ deductions -ℤ reliefs)
  before_credits ← band_tax taxable rule
  credits ← credits_of rule.credits inputs.facts
  let tax = max_ℤ (pos 0) (before_credits -ℤ credits -ℤ previously_withheld)
  ok (
    tax_line rule taxable tax inputs,
    record {
      taxable_earnings_minor = earnings;
      deductions_minor = deductions;
      reliefs_minor = reliefs;
      taxable_income_minor = taxable;
      tax_before_credits_minor = before_credits;
      credits_minor = credits;
      previously_withheld_minor = previously_withheld;
      tax_minor = tax;
    },
  )

-- The two methods of `_income_tax`.
unfoldable pub income_tax_by :
    TaxMethod
    → IncomeTaxRule
    → ℤ
    → ℤ
    → PayslipInputs
    → Result ValueError (StatutoryLine × IncomeTaxWorking)
unfolding reliefs_to_date
income_tax_by TaxMethod.cumulative_annual rule period_earnings period_deductions inputs = do
  let ytd = inputs.year_to_date
  reliefs ← reliefs_to_date rule.reliefs inputs
  tax_on rule (ytd.taxable_earnings_minor +ℤ period_earnings)
      (ytd.tax_deductions_minor +ℤ period_deductions) reliefs ytd.income_tax_withheld_minor inputs
income_tax_by TaxMethod.per_period rule period_earnings period_deductions inputs =
    tax_on rule period_earnings period_deductions (pos 0) (pos 0) inputs

-- `_income_tax`
unfoldable pub income_tax_of :
    IncomeTaxRule → ℤ → ℤ → PayslipInputs → Result ValueError (StatutoryLine × IncomeTaxWorking)
income_tax_of rule period_earnings period_deductions inputs =
    income_tax_by rule.method rule period_earnings period_deductions inputs
