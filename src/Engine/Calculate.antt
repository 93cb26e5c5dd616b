-- ===== src/Engine/Calculate.antt =====
-- One employee's payslip and the levies of a pay run: the last part of
-- app/compliance/engine/calculate.py, from where the rule set is found usable.
pub mod Counting
pub mod Conservation
use Prim.Native.String.{String}
use plutus_hr_system.Prelude.{
  ℕ, Bool, true, false, Option, none, some, List, [], ◌∷◌, ◌++◌, ◌==◌, if◌then◌else◌, ℤ, pos, ◌+ℤ◌,
  ◌-ℤ◌, ltb_ℤ, is_neg, Result, ok, ◌>>=◌, ◌>>◌, raise_if,
}
use plutus_hr_system.Errors.{ValueError, negative, net_pay_negative, not_at_least_one}
use plutus_hr_system.Calendar.{Date}
use plutus_hr_system.Totals.{add_to}
use plutus_hr_system.Engine.Rules.{
  EarningCategory, CategorySet, ContributionKind, ContributionRule, IncomeTaxRule, PayrollLevyRule,
  CountryRuleSet, ContributionBase, earnings_base, net_pay_base,
}
use plutus_hr_system.Engine.Rounding.{rate_amount}
use plutus_hr_system.Engine.DueDates.{due_date}
use plutus_hr_system.Engine.Lines.{
  LineKind, Earning, EmployeeFacts, YearToDate, PayslipInputs, StatutoryLine, applies,
  contribution_line,
}
use plutus_hr_system.Engine.IncomeTax.{IncomeTaxWorking, capped_deductions, income_tax_of}

abbrev pub index_of : EarningCategory → ℕ
index_of EarningCategory.basic = 0
index_of EarningCategory.housing = 1
index_of EarningCategory.transport = 2
index_of EarningCategory.fixed_allowance = 3
index_of EarningCategory.variable = 4
index_of EarningCategory.other = 5

-- `by_category[category]`
abbrev pub by_category : List Earning → EarningCategory → ℤ
by_category [] category = pos 0
by_category (e ∷ es) category =
    (if index_of e.category == index_of category then e.amount_minor else pos 0)
    +ℤ by_category es category

-- `sum(by_category[category] for category in categories)`
unfoldable pub sum_in : CategorySet → List Earning → ℤ
sum_in categories earnings =
    let part : EarningCategory → ℤ = λ c. if categories c then by_category earnings c else pos 0 in
    part EarningCategory.basic
    +ℤ part EarningCategory.housing
    +ℤ part EarningCategory.transport
    +ℤ part EarningCategory.fixed_allowance
    +ℤ part EarningCategory.variable
    +ℤ part EarningCategory.other

abbrev pub every_category : CategorySet
every_category category = true

pub record PayslipResult : Type 0 where
  pub rule_set_id : String
  pub country : String
  pub currency : String
  pub inputs : PayslipInputs
  pub gross_minor : ℤ
  pub lines : List StatutoryLine
  pub income_tax : IncomeTaxWorking
  pub net_pay_minor : ℤ
  pub year_to_date_after : YearToDate

abbrev pub comes_off_pay : LineKind → Bool
comes_off_pay LineKind.employee_contribution = true
comes_off_pay LineKind.income_tax = true
comes_off_pay LineKind.employer_contribution = false
comes_off_pay LineKind.payroll_levy = false

abbrev pub is_employer_contribution : LineKind → Bool
is_employer_contribution LineKind.employer_contribution = true
is_employer_contribution LineKind.employee_contribution = false
is_employer_contribution LineKind.income_tax = false
is_employer_contribution LineKind.payroll_levy = false

-- The sum of the amounts of the lines of some kinds.
abbrev pub sum_of_kind : (LineKind → Bool) → List StatutoryLine → ℤ
sum_of_kind test [] = pos 0
sum_of_kind test (l ∷ ls) = (if test l.kind then l.amount_minor else pos 0) +ℤ sum_of_kind test ls

abbrev pub employee_deductions_minor : PayslipResult → ℤ
employee_deductions_minor result = sum_of_kind comes_off_pay result.lines

abbrev pub employer_contributions_minor : PayslipResult → ℤ
employer_contributions_minor result = sum_of_kind is_employer_contribution result.lines

-- `_require_not_negative`
pub require_not_negative : List (ℤ × String) → Result ValueError (Unit {0})
require_not_negative [] = ok tt
require_not_negative ((value, name) ∷ values) =
    raise_if (is_neg value) (negative name) >> require_not_negative values

abbrev earning_values : List Earning → List (ℤ × String)
earning_values [] = []
earning_values (e ∷ es) = (e.amount_minor, "earnings") ∷ earning_values es

abbrev is_given_negative : Option ℤ → Bool
is_given_negative none = false
is_given_negative (some n) = is_neg n

-- The checks of the inputs.
unfoldable pub check_inputs : PayslipInputs → Result ValueError (Unit {0})
unfolding require_not_negative
check_inputs inputs = do
  let ytd = inputs.year_to_date
  require_not_negative (
      earning_values inputs.earnings
      ++ ((inputs.facts.annual_rent_paid_minor, "annual_rent_paid_minor")
          ∷ (ytd.taxable_earnings_minor, "year-to-date taxable earnings")
          ∷ (ytd.tax_deductions_minor, "year-to-date tax deductions")
          ∷ (ytd.income_tax_withheld_minor, "year-to-date income tax withheld")
          ∷ []))
  raise_if (is_given_negative inputs.facts.half_shares) (negative "half_shares")
  raise_if (ltb_ℤ inputs.periods_elapsed_this_year (pos 1))
      (not_at_least_one "periods_elapsed_this_year")

-- The variables of the loop over the contributions.
pub record OnEarnings : Type 0 where
  pub lines : List StatutoryLine
  pub employee_on_earnings : ℤ
  pub deductible_by_group : List (String × ℤ)
  pub on_net_pay : List ContributionRule

abbrev pub no_lines : OnEarnings
no_lines = record {
  lines = [];
  employee_on_earnings = pos 0;
  deductible_by_group = [];
  on_net_pay = [];
}

abbrev pub grouped : Option String → ℤ → List (String × ℤ) → List (String × ℤ)
grouped none amount groups = groups
grouped (some group) amount groups = add_to group amount groups

-- A line on earnings; an employee's is also counted, and deductible in its group.
unfoldable pub add_line : ContributionRule → StatutoryLine → OnEarnings → OnEarnings
add_line rule line before = elim rule.kind [
  | ContributionKind.of_employee ↦ record before {
    lines = before.lines ++ (line ∷ []);
    employee_on_earnings = before.employee_on_earnings +ℤ line.amount_minor;
    deductible_by_group =
        grouped rule.tax_deduction_group line.amount_minor before.deductible_by_group;
  }
  | ContributionKind.of_employer ↦ record before { lines = before.lines ++ (line ∷ []) }
]

-- One round of the loop, for a rule that applies, by its base.
unfoldable pub contribute :
    ContributionBase → ContributionRule → PayslipInputs → OnEarnings → Result ValueError OnEarnings
contribute net_pay_base rule inputs before =
    ok (record before { on_net_pay = before.on_net_pay ++ (rule ∷ []) })
contribute (earnings_base categories) rule inputs before = do
  line ← contribution_line rule (sum_in categories inputs.earnings) inputs.period_end
  ok (add_line rule line before)

pub on_earnings : List ContributionRule → PayslipInputs → OnEarnings → Result ValueError OnEarnings
on_earnings [] inputs before = ok before
on_earnings (rule ∷ rules) inputs before = do
  applied ← applies rule inputs.facts
  after ← if applied then contribute rule.base rule inputs before else ok before
  on_earnings rules inputs after

abbrev pub net_after : ContributionKind → ℤ → ℤ → ℤ
net_after ContributionKind.of_employee net_pay amount = net_pay -ℤ amount
net_after ContributionKind.of_employer net_pay amount = net_pay

-- The loop over the contributions on net pay, all on the same base.
pub on_net :
    List ContributionRule
    → Date
    → ℤ
    → List StatutoryLine
    → ℤ
    → Result ValueError (List StatutoryLine × ℤ)
on_net [] period_end base lines net_pay = ok (lines, net_pay)
on_net (rule ∷ rules) period_end base lines net_pay = do
  line ← contribution_line rule base period_end
  on_net rules period_end base (lines ++ (line ∷ []))
      (net_after rule.kind net_pay line.amount_minor)

-- The `PayslipResult(…)` call.
unfoldable pub result_of :
    CountryRuleSet → PayslipInputs → ℤ → IncomeTaxWorking → List StatutoryLine × ℤ → PayslipResult
result_of rule_set inputs period_deductions working (lines, net_pay) =
    let ytd = inputs.year_to_date in
    record {
      rule_set_id = rule_set.id;
      country = rule_set.country;
      currency = rule_set.currency;
      inputs = inputs;
      gross_minor = sum_in every_category inputs.earnings;
      lines = lines;
      income_tax = working;
      net_pay_minor = net_pay;
      year_to_date_after = record {
        taxable_earnings_minor =
            ytd.taxable_earnings_minor
            +ℤ sum_in rule_set.income_tax.taxable_categories inputs.earnings;
        tax_deductions_minor = ytd.tax_deductions_minor +ℤ period_deductions;
        income_tax_withheld_minor = ytd.income_tax_withheld_minor +ℤ working.tax_minor;
      };
    }

-- From the line of the income tax to the net pay, with its two checks.
unfoldable pub net_of :
    PayslipInputs
    → OnEarnings
    → StatutoryLine × IncomeTaxWorking
    → Result ValueError (List StatutoryLine × ℤ)
unfolding on_net
net_of inputs earned (line, working) = do
  let gross = sum_in every_category inputs.earnings
  let net_pay = gross -ℤ earned.employee_on_earnings -ℤ working.tax_minor
  raise_if (is_neg net_pay) net_pay_negative
  netted ← on_net earned.on_net_pay inputs.period_end net_pay (earned.lines ++ (line ∷ [])) net_pay
  raise_if (is_neg netted.1) net_pay_negative
  ok netted

-- `calculate_payslip` after `require_usable_for`.
unfoldable pub calculate_payslip : CountryRuleSet → PayslipInputs → Result ValueError PayslipResult
unfolding on_earnings
calculate_payslip rule_set inputs = do
  check_inputs inputs
  earned ← on_earnings rule_set.contributions inputs no_lines
  let tax_rule = rule_set.income_tax
  let period_earnings = sum_in tax_rule.taxable_categories inputs.earnings
  period_deductions ← capped_deductions tax_rule.deduction_caps earned.deductible_by_group
  taxed ← income_tax_of tax_rule period_earnings period_deductions inputs
  netted ← net_of inputs earned taxed
  ok (result_of rule_set inputs period_deductions taxed.1 netted)

-- The base of a levy: the loops over the employees and their earnings.
pub levy_base : CategorySet → List Earning → Result ValueError ℤ
levy_base categories [] = ok (pos 0)
levy_base categories (e ∷ es) = do
  raise_if (is_neg e.amount_minor) (negative "earnings")
  rest ← levy_base categories es
  ok ((if categories e.category then e.amount_minor else pos 0) +ℤ rest)

pub levy_base_of_all : CategorySet → List (List Earning) → Result ValueError ℤ
unfolding levy_base
levy_base_of_all categories [] = ok (pos 0)
levy_base_of_all categories (earnings ∷ employees) = do
  base ← levy_base categories earnings
  rest ← levy_base_of_all categories employees
  ok (base +ℤ rest)

unfoldable pub levy_line : PayrollLevyRule → Date → ℤ → ℤ → StatutoryLine
levy_line levy period_end base amount = record {
  code = levy.code;
  name = levy.name;
  kind = LineKind.payroll_levy;
  authority = levy.authority;
  base_minor = base;
  rate_ppm = some levy.rate_ppm;
  amount_minor = amount;
  liability_account = levy.liability_account;
  expense_account = some levy.expense_account;
  due_date = due_date levy.due period_end;
  source = levy.source;
}

-- The loop of `calculate_payroll_levies` over the levies of a usable rule set.
pub calculate_payroll_levies :
    List PayrollLevyRule → Date → List (List Earning) → Result ValueError (List StatutoryLine)
unfolding levy_base_of_all
calculate_payroll_levies [] period_end earnings = ok []
calculate_payroll_levies (levy ∷ levies) period_end earnings = do
  base ← levy_base_of_all levy.base_categories earnings
  amount ← rate_amount base levy.rate_ppm levy.rounding
  rest ← calculate_payroll_levies levies period_end earnings
  ok (levy_line levy period_end base amount ∷ rest)
