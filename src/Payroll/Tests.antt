-- ===== src/Payroll/Tests.antt =====
-- Nigeria's payroll at concrete figures: one employee in the sixth month of 2026.
use plutus_hr_system.Prelude.{
  ℕ, ◌+◌, ◌-◌, ◌/◌, ◌≤◌, ◌≡◌, refl, ap, ◌≢◌, ◌↔◌, Bool, false, none, some, List, [], ◌∷◌, arith, ℤ,
  pos, ◌+ℤ◌, ◌-ℤ◌, ◌*ℤ◌, ◌//ℤ◌, ◌≤ℤ◌, min_ℤ, max_ℤ, Result, ok, Ensures, All,
}
use plutus_hr_system.Errors.{ValueError}
use plutus_hr_system.Calendar.{Date, ordinal}
use plutus_hr_system.Money.{apply_rate_ppm}
use plutus_hr_system.Compliance.{ng_2026_1}
use plutus_hr_system.Accounting.{assert_balanced}
use plutus_hr_system.Payroll.Proration.{
  PayComponents, working_days_in_range, combine, prorate_pay_components,
}
use plutus_hr_system.Payroll.Proration.Bounds.{IsProrated, prorate_pay_components-IsProrated}
use plutus_hr_system.Payroll.Statutory.{
  monthly, periods_per_year, compute_pensionable_pay, compute_pension_employee,
  compute_pension_employer, compute_nhf, compute_rent_relief, prorate_annual_amount,
}
use plutus_hr_system.Payroll.Statutory.Prorated.{prorate_annual_amount-recognises}
use plutus_hr_system.Payroll.Paye.{
  compute_chargeable_income, compute_incremental_paye, compute_paye_annual,
}
use plutus_hr_system.Payroll.Paye.Bands.{
  tax_above, compute_paye_annual_lem, compute_paye_annual-marginal,
}
use plutus_hr_system.Payroll.Payslip.{
  PayslipInputs, PayslipComputation, deduct, taken, statutory_pay, computation_of, compute_payslip,
}
use plutus_hr_system.Payroll.Payslip.Conservation.{Divides, compute_payslip-Divides}
use plutus_hr_system.Payroll.Payslip.Total.{IsInput, LeftOf, compute_payslip-returns}
use plutus_hr_system.Payroll.Benefits.{
  BenefitCandidate, select_benefit_deductions, monthly as each_month,
}
use plutus_hr_system.Payroll.Benefits.Selection.{
  Selects, IsWorth, select_benefit_deductions-Selects,
}
use plutus_hr_system.Payroll.Settle.{settle}
use plutus_hr_system.Payroll.Settle.Total.{loan_from, benefit_from, dues_from, settle-total}
use plutus_hr_system.Payroll.GrossUp.{bisect}
use plutus_hr_system.Payroll.GrossUp.Minimal.{IsTotal, IsLeast, bisect-IsLeast}
use plutus_hr_system.Payroll.Postings.{payslip_lines}
use plutus_hr_system.Payroll.Postings.Balanced.{payslip_lines-accepted, payslip_lines-zero_gross}

abbrev june : PayslipInputs
june = record {
  basic_minor = pos 30_000_000;
  housing_minor = pos 10_000_000;
  transport_minor = pos 5_000_000;
  other_earnings_minor = pos 5_000_000;
  annual_rent_paid_minor = pos 120_000_000;
  periods_elapsed_this_year = pos 6;
  frequency = monthly;
  cumulative_gross_before_minor = pos 250_000_000;
  cumulative_pension_employee_before_minor = pos 18_000_000;
  cumulative_nhf_before_minor = pos 3_750_000;
  cumulative_paye_withheld_before_minor = pos 20_000_000;
  rules = ng_2026_1;
}

-- The payslip with no deduction.
abbrev june_statutory : PayslipComputation
june_statutory = record {
  gross_minor = pos 50_000_000;
  pensionable_pay_minor = pos 45_000_000;
  pension_employee_minor = pos 3_600_000;
  pension_employer_minor = pos 4_500_000;
  nhf_minor = pos 750_000;
  cumulative_rent_relief_minor = pos 12_000_000;
  cumulative_chargeable_income_minor = pos 261_900_000;
  paye_minor = pos 7_285_000;
  loan_deduction_minor = pos 0;
  benefit_deduction_minor = pos 0;
  union_dues_deduction_minor = pos 0;
  net_pay_minor = pos 38_365_000;
}

june_computed : compute_payslip june (pos 0) (pos 0) (pos 0) ≡ ok june_statutory
unfolding compute_payslip statutory_pay computation_of deduct taken compute_pensionable_pay
    compute_pension_employee compute_pension_employer compute_nhf compute_rent_relief
    prorate_annual_amount compute_chargeable_income compute_incremental_paye compute_paye_annual
    apply_rate_ppm ◌+ℤ◌ ◌-ℤ◌ ◌*ℤ◌ ◌//ℤ◌ min_ℤ max_ℤ
june_computed = refl

june-IsInput : IsInput june
june-IsInput = omega arith

compute_payslip-Divides_example :
    Ensures
      (Divides june (pos 5_000_000) (pos 1_000_000) (pos 200_000))
      (compute_payslip june (pos 5_000_000) (pos 1_000_000) (pos 200_000))
compute_payslip-Divides_example =
    compute_payslip-Divides june (pos 5_000_000) (pos 1_000_000) (pos 200_000)

compute_payslip-returns_example :
    (s : PayslipComputation) × (statutory_pay june ≡ ok s)
    × (((c : PayslipComputation) × (compute_payslip june
              (pos 5_000_000)
              (pos 1_000_000)
              (pos 200_000)
            ≡ ok c))
        ↔ (pos 5_000_000 +ℤ pos 1_000_000 +ℤ pos 200_000 ≤ℤ s.net_pay_minor))
    × Ensures
        (LeftOf s (pos 5_000_000) (pos 1_000_000) (pos 200_000))
        (compute_payslip june (pos 5_000_000) (pos 1_000_000) (pos 200_000))
compute_payslip-returns_example =
    compute_payslip-returns june (pos 5_000_000) (pos 1_000_000) (pos 200_000) june-IsInput
      (omega arith) (omega arith) (omega arith)

abbrev health : BenefitCandidate
health = record {
  id = 1;
  value_minor = some (pos 2_000_000);
  frequency = each_month;
  effective_date = record { year = 2026; month = 3; day = 1 };
  end_date = none;
}

abbrev gym : BenefitCandidate
gym = record {
  id = 2;
  value_minor = some (pos 40_000_000);
  frequency = each_month;
  effective_date = record { year = 2026; month = 1; day = 15 };
  end_date = none;
}

abbrev benefits : List BenefitCandidate
benefits = health ∷ gym ∷ []

benefits-IsWorth : All IsWorth benefits
benefits-IsWorth = omega arith

select_benefit_deductions-Selects_example :
    Selects benefits (pos 38_365_000) (select_benefit_deductions benefits (pos 38_365_000))
select_benefit_deductions-Selects_example =
    select_benefit_deductions-Selects benefits (pos 38_365_000) benefits-IsWorth (omega arith)

-- The earlier benefit does not fit and is skipped whole; the later one is taken.
benefits_chosen :
    select_benefit_deductions benefits (pos 38_365_000)
    ≡ (record { benefit_id = 1; value_minor = pos 2_000_000 } ∷ [], pos 2_000_000)
unfolding select_benefit_deductions ordinal ◌-ℤ◌
benefits_chosen = refl

settle-total_example :
    let loan = loan_from (pos 38_365_000) (pos 6_000_000) in
    let benefit = benefit_from (pos 38_365_000 -ℤ loan) benefits in
    let dues = dues_from (pos 38_365_000 -ℤ loan -ℤ benefit) (some (pos 250_000)) in
    (settle june (pos 6_000_000) benefits (some (pos 250_000))
      ≡ ok (taken june_statutory loan benefit dues))
    × (pos 0 ≤ℤ (taken june_statutory loan benefit dues).net_pay_minor)
settle-total_example =
    settle-total june june_statutory (pos 6_000_000) benefits (some (pos 250_000)) june_computed
      (omega arith) benefits-IsWorth (omega arith)

payslip_lines-accepted_example :
    assert_balanced (payslip_lines "payslip for 007" 7 (some 2) 1 june_statutory) ≡ ok tt
payslip_lines-accepted_example =
    payslip_lines-accepted "payslip for 007" 7 (some 2) 1 june (pos 0) (pos 0) (pos 0)
      june_statutory (omega arith) (omega arith) (omega arith) june_computed (omega arith)

-- The payslip of an employee who joins after the period ends.
abbrev nothing_earned : PayslipComputation
nothing_earned = record {
  gross_minor = pos 0;
  pensionable_pay_minor = pos 0;
  pension_employee_minor = pos 0;
  pension_employer_minor = pos 0;
  nhf_minor = pos 0;
  cumulative_rent_relief_minor = pos 0;
  cumulative_chargeable_income_minor = pos 0;
  paye_minor = pos 0;
  loan_deduction_minor = pos 0;
  benefit_deduction_minor = pos 0;
  union_dues_deduction_minor = pos 0;
  net_pay_minor = pos 0;
}

payslip_lines-zero_gross_example :
    assert_balanced (payslip_lines "payslip for 008" 8 none 1 nothing_earned) ≢ ok tt
payslip_lines-zero_gross_example =
    payslip_lines-zero_gross "payslip for 008" 8 none 1 nothing_earned refl

compute_paye_annual_lem_example :
    compute_paye_annual (pos 261_900_000) ng_2026_1.paye.bands
    ≡ ok (pos (tax_above ng_2026_1.paye.bands 0 261_900_000))
compute_paye_annual_lem_example =
    compute_paye_annual_lem ng_2026_1.paye.bands 261_900_000 (omega arith)

compute_paye_annual-marginal_example :
    (t u : ℕ) × (compute_paye_annual (pos 299_999_999) ng_2026_1.paye.bands ≡ ok (pos t))
    × (compute_paye_annual (pos (299_999_999 + 2)) ng_2026_1.paye.bands ≡ ok (pos u))
    × (t ≤ u)
    × (u ≤ t + 2)
    × (t ≤ 299_999_999)
compute_paye_annual-marginal_example =
    compute_paye_annual-marginal ng_2026_1.paye.bands 299_999_999 2 (omega arith)

prorate_annual_amount-recognises_example :
    (x y : ℕ) × (prorate_annual_amount (pos 24_000_000) (pos 11) monthly ≡ ok (pos x))
    × (prorate_annual_amount (pos 24_000_000) (pos (11 + 1)) monthly ≡ ok (pos y))
    × (x ≤ y)
    × (y ≤ 24_000_000)
    × (periods_per_year monthly ≤ 11 → x ≡ 24_000_000)
prorate_annual_amount-recognises_example = prorate_annual_amount-recognises 24_000_000 11 1 monthly

-- A tax of a quarter of the lump sum, rounded down.
abbrev after_quarter : ℤ → Result ValueError ℤ
after_quarter x = ok (x -ℤ x //ℤ 4)

abbrev after_quarter_of : ℕ → ℤ
after_quarter_of n = pos (n - n / 4)

after_quarter-IsTotal : IsTotal after_quarter after_quarter_of
unfolding ◌-ℤ◌ ◌//ℤ◌
after_quarter-IsTotal n = ap ok (ground arith)

bisect-IsLeast_example :
    (r : ℕ) × (bisect (pos 100_000) after_quarter (pos 100_000) ≡ ok (pos r))
    × IsLeast (pos 100_000) after_quarter_of r
unfolding max_ℤ
bisect-IsLeast_example =
    bisect-IsLeast (pos 100_000) after_quarter after_quarter_of after_quarter-IsTotal (pos 100_000)
      1 (λ m n h. omega arith) (omega arith) (omega arith) (omega arith) (omega arith) (omega arith)

abbrev pay_day : Date
pay_day = record { year = 2026; month = 12; day = 30 }

-- Six working days from Monday 5 January 2026, of which the employee works the last four.
abbrev monthly_pay : PayComponents
monthly_pay = record {
  basic_minor = 1_000;
  housing_minor = 600;
  transport_minor = 7;
  other_earnings_minor = 0;
}

abbrev no_holidays : ℕ → Bool
no_holidays day = false

prorate_pay_components-IsProrated_example :
    IsProrated monthly_pay none
      (prorate_pay_components 739_621 739_628 739_623 monthly_pay none none [] no_holidays)
unfolding working_days_in_range
prorate_pay_components-IsProrated_example =
    prorate_pay_components-IsProrated 739_621 739_628 739_623 monthly_pay none none [] no_holidays
      (omega arith)

-- A transport allowance of 7 that a change of the basic pay leaves as it is comes to 8 over two days.
unchanged_component_test : combine (some 7) 7 1 1 2 ≡ 8
unfolding combine
unchanged_component_test = refl

joined_late_test :
    (prorate_pay_components 739_621 739_628 739_623 monthly_pay none none []
      no_holidays).components.basic_minor
    ≡ 667
unfolding prorate_pay_components
joined_late_test = refl
