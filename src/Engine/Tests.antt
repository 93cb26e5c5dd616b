-- ===== src/Engine/Tests.antt =====
-- A small rule set with a pension, a levy on net pay and a tax in three bands.
use plutus_hr_system.Prelude.{
  ℕ, ◌*◌, ◌≡◌, refl, true, none, some, [], ◌∷◌, arith, pos, ◌+ℤ◌, ◌-ℤ◌, ◌*ℤ◌, ◌//ℤ◌, min_ℤ, max_ℤ,
  ok, Ensures,
}
use plutus_hr_system.Payroll.Statutory.{PayFrequency}
use plutus_hr_system.Payroll.Paye.{compute_paye_annual}
use plutus_hr_system.Engine.Rules.{
  EarningCategory, ContributionKind, Applicability, RoundingMode, TaxMethod, BandRounding,
  ContributionRule, IncomeTaxRule, CountryRuleSet, earnings_base, net_pay_base,
  due_day_of_following_month, due_working_days_after_period_end,
}
use plutus_hr_system.Engine.Rounding.{round_ratio, rate_amount}
use plutus_hr_system.Engine.Rounding.Exact.{IsWithin, rounding_of, round_ratio-IsWithin}
use plutus_hr_system.Engine.DueDates.{due_date}
use plutus_hr_system.Engine.DueDates.Working.{LandsAt, due_date-LandsAt}
use plutus_hr_system.Calendar.{IsDate, days_in_month}
use plutus_hr_system.Engine.Lines.{
  PayslipInputs, applies, contribution_line, contribution_amount, line_of,
}
use plutus_hr_system.Engine.IncomeTax.{
  band_tax, capped_deductions, income_tax_of, income_tax_by, tax_on,
}
use plutus_hr_system.Engine.IncomeTax.Parity.{as_bands, to_unit, band_tax-compute_paye_annual}
use plutus_hr_system.Engine.Calculate.{
  every_category, employer_contributions_minor, calculate_payslip, check_inputs, contribute, sum_in,
  net_of, add_line, result_of,
}
use plutus_hr_system.Engine.Calculate.Conservation.{Divides, calculate_payslip-Divides}
use plutus_hr_system.Engine.Postings.{build_payslip_postings}
use plutus_hr_system.Engine.Postings.Balanced.{IsBalancedAt, build_payslip_postings-IsBalancedAt}

abbrev pension : ContributionKind → ContributionRule
pension kind = record {
  code = "PENSION";
  name = "Pension";
  kind = kind;
  authority = "Pension fund";
  base = earnings_base every_category;
  rounding = to_unit;
  due = due_working_days_after_period_end 5;
  source = "act";
  liability_account = "pension_payable";
  expense_account = elim kind [
    | ContributionKind.of_employee ↦ none
    | ContributionKind.of_employer ↦ some "pension_expense"
  ];
  rate_ppm = some (pos 60_000);
  flat_amount_minor = none;
  base_floor_minor = pos 0;
  base_ceiling_minor = some (pos 500_000);
  amount_floor_minor = none;
  amount_cap_minor = none;
  applies_to = Applicability.all;
  tax_deduction_group = none;
}

abbrev solidarity : ContributionRule
solidarity = record (pension ContributionKind.of_employee) {
  code = "SOLIDARITY";
  base = net_pay_base;
  rate_ppm = some (pos 5_000);
  base_ceiling_minor = none;
}

abbrev tax : IncomeTaxRule
tax = record {
  code = "PAYE";
  name = "Income tax";
  authority = "Revenue";
  method = TaxMethod.per_period;
  taxable_categories = every_category;
  bands =
      record { up_to_minor = some (pos 100_000); rate_ppm = pos 0 }
      ∷ record { up_to_minor = some (pos 300_000); rate_ppm = pos 150_000 }
      ∷ record { up_to_minor = none; rate_ppm = pos 250_000 }
      ∷ [];
  band_rounding = BandRounding.each_band;
  rounding = to_unit;
  due = due_day_of_following_month 9;
  source = "act";
  liability_account = "paye_payable";
  deduction_caps = [];
  reliefs = [];
  credits = [];
}

abbrev rules : CountryRuleSet
rules = record {
  id = "XX-2026.1";
  country = "XX";
  currency = "XXX";
  effective_from = record { year = 2026; month = 1; day = 1 };
  effective_to = none;
  tax_year_start_month = 1;
  frequencies = λ f. true;
  income_tax = tax;
  contributions =
      pension ContributionKind.of_employee ∷ pension ContributionKind.of_employer ∷ solidarity ∷ [];
  payroll_levies = [];
}

abbrev month_of_pay : PayslipInputs
month_of_pay = record {
  period_end = record { year = 2026; month = 1; day = 31 };
  frequency = PayFrequency.monthly;
  periods_elapsed_this_year = pos 1;
  earnings =
      record { category = EarningCategory.basic; amount_minor = pos 400_000 }
      ∷ record { category = EarningCategory.housing; amount_minor = pos 150_001 }
      ∷ [];
  facts = record { annual_rent_paid_minor = pos 0; half_shares = none; is_expatriate = none };
  year_to_date = record {
    taxable_earnings_minor = pos 0;
    tax_deductions_minor = pos 0;
    income_tax_withheld_minor = pos 0;
  };
}

calculate_payslip-Divides_example :
    Ensures (Divides month_of_pay) (calculate_payslip rules month_of_pay)
calculate_payslip-Divides_example = calculate_payslip-Divides rules month_of_pay

build_payslip_postings-IsBalancedAt_example :
    Ensures
      (λ result.
        Ensures
          (IsBalancedAt (result.gross_minor +ℤ employer_contributions_minor result))
          (build_payslip_postings result (("union_dues_payable", pos 1_000) ∷ [])))
      (calculate_payslip rules month_of_pay)
build_payslip_postings-IsBalancedAt_example =
    build_payslip_postings-IsBalancedAt rules month_of_pay (("union_dues_payable", pos 1_000) ∷ [])

band_tax-compute_paye_annual_example :
    band_tax (pos 550_001) tax ≡ compute_paye_annual (pos 550_001) (as_bands tax.bands)
band_tax-compute_paye_annual_example =
    band_tax-compute_paye_annual tax 550_001 (record { each_band = refl; half_up = refl })
      (
        (omega arith, omega arith),
        omega arith,
        ((omega arith, omega arith), omega arith, ((omega arith, omega arith), tt, tt)),
      )

round_ratio-IsWithin_example :
    (q : ℕ) × (round_ratio (pos 1_250) (pos 10) (rounding_of RoundingMode.up 100)
      ≡ ok (pos (q * 100)))
    × IsWithin RoundingMode.up 1_250 10 100 (q * 100)
round_ratio-IsWithin_example = round_ratio-IsWithin 1_250 9 99 RoundingMode.up

-- The pay of the examples is calculated.
net_pay :
    Ensures (λ result. result.net_pay_minor ≡ pos 425_363) (calculate_payslip rules month_of_pay)
unfolding calculate_payslip check_inputs applies contribute contribution_line contribution_amount
    rate_amount max_ℤ ◌-ℤ◌ min_ℤ sum_in ◌+ℤ◌ round_ratio ◌*ℤ◌ ◌//ℤ◌ capped_deductions income_tax_of
    income_tax_by tax_on band_tax net_of line_of add_line result_of
net_pay = refl

month_end-IsDate : IsDate month_of_pay.period_end
month_end-IsDate = record {
  year_from = omega arith;
  month_from = omega arith;
  month_to = omega arith;
  day_from = omega arith;
  day_to = unfold days_in_month in omega arith;
}

due_date-LandsAt_example :
    LandsAt 5 month_of_pay.period_end
      (due_date (due_working_days_after_period_end 5) month_of_pay.period_end)
due_date-LandsAt_example = due_date-LandsAt 5 month_of_pay.period_end month_end-IsDate
