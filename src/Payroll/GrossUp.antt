-- ===== src/Payroll/GrossUp.antt =====
-- Gross-up by bisection: app/domain/payroll/gross_up.py.
pub mod Minimal
use plutus_hr_system.Prelude.{
  ℕ, zero, suc, not, if◌then◌else◌, ℤ, pos, pos_part, ◌+ℤ◌, ◌-ℤ◌, ◌*ℤ◌, ◌//ℤ◌, leb_ℤ, is_pos, max_ℤ,
  Result, ok, err, ◌>>=◌, ◌>>◌, raise_if,
}
use plutus_hr_system.Errors.{ValueError, no_bracket, package_not_positive}
use plutus_hr_system.Payroll.Payslip.{PayslipInputs, PayslipComputation, compute_payslip}

abbrev pub max_iterations : ℕ
max_iterations = 128

abbrev pub tolerance_minor : ℤ
tolerance_minor = pos 1

module _ (target : ℤ) (output_for_input : ℤ → Result ValueError ℤ) where
  -- The first loop: doubles `hi` until it reaches the target; the `else` of the loop raises.
  pub bracket : ℕ → ℤ → Result ValueError ℤ
  bracket zero hi = err no_bracket
  bracket (suc rounds) hi = do
    output ← output_for_input hi
    let rest = bracket rounds (hi *ℤ pos 2)
    if leb_ℤ target output then ok hi else rest

  -- The second loop: halves the interval until it is one minor unit wide.
  pub narrow : ℕ → ℤ → ℤ → Result ValueError ℤ
  narrow zero lo hi = ok hi
  narrow (suc rounds) lo hi = if leb_ℤ (hi -ℤ lo) tolerance_minor then ok hi else do
    let mid = (lo +ℤ hi) //ℤ 2
    output ← output_for_input mid
    let reached = leb_ℤ target output
    narrow rounds (if reached then lo else mid) (if reached then mid else hi)

  unfoldable pub bisect : ℤ → Result ValueError ℤ
  bisect upper_bound_seed = if not (is_pos target) then ok (pos 0) else do
    hi ← bracket max_iterations (max_ℤ upper_bound_seed (pos 1))
    narrow max_iterations (pos 0) hi

-- `net_of_lump_sum`: what a lump sum leaves after the tax that it alone causes.
unfoldable pub net_of_lump_sum : PayslipInputs → ℤ → ℤ → Result ValueError ℤ
net_of_lump_sum i baseline_paye lump_sum = do
  with_lump_sum ←
      compute_payslip (record i { other_earnings_minor = i.other_earnings_minor +ℤ lump_sum })
        (pos 0) (pos 0) (pos 0)
  ok (lump_sum -ℤ (with_lump_sum.paye_minor -ℤ baseline_paye))

unfoldable pub solve_lump_sum_gross_for_net : ℤ → PayslipInputs → Result ValueError ℤ
solve_lump_sum_gross_for_net target_net i = do
  baseline ← compute_payslip i (pos 0) (pos 0) (pos 0)
  bisect target_net (net_of_lump_sum i baseline.paye_minor) target_net

-- The three parts of a package scaled to a new total; transport takes what rounding leaves.
-- The divisor is positive where the division is made.
unfoldable pub scale_components_to_total : ℤ → ℤ → ℤ → ℤ → Result ValueError (ℤ × ℤ × ℤ)
scale_components_to_total basic housing transport new_total = do
  let current_total = basic +ℤ housing +ℤ transport
  raise_if (not (is_pos current_total)) package_not_positive
  let new_basic = basic *ℤ new_total //ℤ pos_part current_total
  let new_housing = housing *ℤ new_total //ℤ pos_part current_total
  ok (new_basic, new_housing, new_total -ℤ new_basic -ℤ new_housing)

-- `_computation_for_total`
unfoldable pub computation_for_total : PayslipInputs → ℤ → ℤ → Result ValueError PayslipComputation
computation_for_total i loan total = do
  scaled ← scale_components_to_total i.basic_minor i.housing_minor i.transport_minor total
  compute_payslip
      (record i { basic_minor = scaled.0; housing_minor = scaled.1; transport_minor = scaled.2 })
      loan (pos 0) (pos 0)

pub record RegularPackageGrossUpResult : Type 0 where
  pub basic_minor : ℤ
  pub housing_minor : ℤ
  pub transport_minor : ℤ
  pub computation : PayslipComputation

unfoldable pub solve_regular_package_gross_up :
    ℤ → PayslipInputs → ℤ → Result ValueError RegularPackageGrossUpResult
solve_regular_package_gross_up target_net i loan = do
  let current_total = i.basic_minor +ℤ i.housing_minor +ℤ i.transport_minor
  raise_if (not (is_pos current_total)) package_not_positive
  solved ←
      bisect target_net (λ total. computation_for_total i loan total >>= λ c. ok c.net_pay_minor)
        (max_ℤ current_total target_net)
  scaled ← scale_components_to_total i.basic_minor i.housing_minor i.transport_minor solved
  computation ← computation_for_total i loan solved
  ok (record {
    basic_minor = scaled.0;
    housing_minor = scaled.1;
    transport_minor = scaled.2;
    computation = computation;
  })
