-- ===== src/Payroll/Statutory.antt =====
-- The flat-rate schemes and reliefs: app/domain/payroll/pension.py, nhf.py, nsitf.py, itf.py, wht.py,
-- reliefs.py, frequency.py, leave.py, union_dues.py, deductions.py and tin.py.
pub mod Prorated
use Prim.Native.String.{String}
use Prim.Native.Char.{Char}
use plutus_hr_system.Prelude.{
  ℕ, Bool, true, false, ◌&&◌, Option, none, some, List, [], ◌∷◌, if◌then◌else◌, ℤ, pos, ◌+ℤ◌, ◌-ℤ◌,
  ◌*ℤ◌, ◌//ℤ◌, leb_ℤ, is_neg, min_ℤ, max_ℤ, Result, ok, err, ◌>>=◌, ◌>>◌, raise_if,
}
use plutus_hr_system.Errors.{ValueError, negative, missing_tin}
use plutus_hr_system.Money.{apply_rate_ppm}
use plutus_hr_system.Compliance.{
  BorneBy, employee, employer, PayeRule, PensionRule, NhfRule, NsitfRule, ItfRule, WhtRule,
  rate_for,
}

unfoldable pub compute_pensionable_pay : ℤ → ℤ → ℤ → Result ValueError ℤ
compute_pensionable_pay basic_minor housing_minor transport_minor = do
  raise_if (is_neg basic_minor) (negative "basic_minor")
  raise_if (is_neg housing_minor) (negative "housing_minor")
  raise_if (is_neg transport_minor) (negative "transport_minor")
  ok (basic_minor +ℤ housing_minor +ℤ transport_minor)

unfoldable pub compute_pension_employee : ℤ → PensionRule → Result ValueError ℤ
compute_pension_employee pensionable_pay_minor rule = do
  raise_if (is_neg pensionable_pay_minor) (negative "pensionable_pay_minor")
  apply_rate_ppm pensionable_pay_minor rule.employee_rate_ppm

unfoldable pub compute_pension_employer : ℤ → PensionRule → Result ValueError ℤ
compute_pension_employer pensionable_pay_minor rule = do
  raise_if (is_neg pensionable_pay_minor) (negative "pensionable_pay_minor")
  apply_rate_ppm pensionable_pay_minor rule.employer_rate_ppm

unfoldable pub compute_nhf : ℤ → NhfRule → Result ValueError ℤ
compute_nhf basic_salary_minor rule = do
  raise_if (is_neg basic_salary_minor) (negative "basic_salary_minor")
  apply_rate_ppm basic_salary_minor rule.rate_ppm

unfoldable pub compute_nsitf : ℤ → NsitfRule → Result ValueError ℤ
compute_nsitf total_monthly_payroll_minor rule = do
  raise_if (is_neg total_monthly_payroll_minor) (negative "total_monthly_payroll_minor")
  apply_rate_ppm total_monthly_payroll_minor rule.rate_ppm

unfoldable pub compute_itf : ℤ → ItfRule → Bool → Result ValueError ℤ
compute_itf annual_payroll_minor rule qualifies = do
  raise_if (is_neg annual_payroll_minor) (negative "annual_payroll_minor")
  if qualifies then apply_rate_ppm annual_payroll_minor rule.rate_ppm else ok (pos 0)

unfoldable pub compute_wht : ℤ → String → WhtRule → Result ValueError ℤ
compute_wht payment_minor category rule = do
  raise_if (is_neg payment_minor) (negative "payment_minor")
  rate ← rate_for rule category
  apply_rate_ppm payment_minor rate

unfoldable pub compute_rent_relief : ℤ → PayeRule → Result ValueError ℤ
compute_rent_relief annual_rent_paid_minor rule = do
  raise_if (is_neg annual_rent_paid_minor) (negative "annual_rent_paid_minor")
  uncapped ← apply_rate_ppm annual_rent_paid_minor rule.rent_relief_rate_ppm
  ok (min_ℤ uncapped rule.rent_relief_cap_minor)

pub data PayFrequency : Type 0 where
  monthly weekly biweekly : PayFrequency

abbrev pub periods_per_year : PayFrequency → ℕ
periods_per_year monthly = 12
periods_per_year weekly = 52
periods_per_year biweekly = 26

unfoldable pub prorate_annual_amount : ℤ → ℤ → PayFrequency → Result ValueError ℤ
prorate_annual_amount annual_amount_minor periods_elapsed frequency = do
  raise_if (is_neg annual_amount_minor) (negative "annual_amount_minor")
  raise_if (is_neg periods_elapsed) (negative "periods_elapsed")
  let total_periods = periods_per_year frequency
  ok (annual_amount_minor *ℤ min_ℤ periods_elapsed (pos total_periods) //ℤ total_periods)

unfoldable pub compute_leave_balance : ℤ → ℤ → Result ValueError ℤ
compute_leave_balance entitlement_days approved_days_taken = do
  raise_if (is_neg entitlement_days) (negative "entitlement_days")
  raise_if (is_neg approved_days_taken) (negative "approved_days_taken")
  ok (max_ℤ (pos 0) (entitlement_days -ℤ approved_days_taken))

-- The whole amount, or nothing where it does not fit.
unfoldable pub union_dues_deduction_minor : ℤ → ℤ → Result ValueError ℤ
union_dues_deduction_minor monthly_dues_minor available_net_minor = do
  raise_if (is_neg monthly_dues_minor) (negative "monthly_dues_minor")
  ok (if leb_ℤ monthly_dues_minor available_net_minor then monthly_dues_minor else pos 0)

pub record Deduction : Type 0 where
  pub label : String
  pub amount_minor : ℤ
  pub borne_by : BorneBy

abbrev is_employer : BorneBy → Bool
is_employer employer = true
is_employer _ = false

abbrev is_employee : BorneBy → Bool
is_employee employee = true
is_employee _ = false

unfoldable pub total_employee_deductions : List Deduction → ℤ
total_employee_deductions [] = pos 0
total_employee_deductions (d ∷ ds) =
    let rest = total_employee_deductions ds in
    if is_employer d.borne_by then rest else d.amount_minor +ℤ rest

unfoldable pub total_employer_costs : List Deduction → ℤ
total_employer_costs [] = pos 0
total_employer_costs (d ∷ ds) =
    let rest = total_employer_costs ds in
    if is_employee d.borne_by then rest else d.amount_minor +ℤ rest

-- `not tin or not tin.strip()`: no number, or one that is only white space.
module _ (is_space : Char → Bool) where
  unfoldable pub is_blank : String → Bool
  is_blank String.[] = true
  is_blank (String.◌∷◌ c s) = is_space c && is_blank s

  unfoldable pub ensure_tin_present : Option String → Result ValueError (Unit {0})
  unfolding is_blank
  ensure_tin_present none = err missing_tin
  ensure_tin_present (some tin) = raise_if (is_blank tin) missing_tin
