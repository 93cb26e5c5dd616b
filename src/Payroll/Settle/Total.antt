-- ===== src/Payroll/Settle/Total.antt =====
-- Where the statutory payslip can be computed, the deductions never make it fail
-- (`process_employee_payslip` of app/services/payroll.py).
use plutus_hr_system.Prelude.{
  ◌≡◌, refl, Option, none, some, List, arith, if◌then◌else◌, ℤ, pos, ◌+ℤ◌, ◌-ℤ◌, ◌≤ℤ◌, ltb_ℤ, leb_ℤ,
  int_laws, ok, All,
}
use plutus_hr_system.Payroll.Statutory.{union_dues_deduction_minor}
use plutus_hr_system.Payroll.Payslip.{
  PayslipInputs, PayslipComputation, compute_payslip, taken, deduct,
}
use plutus_hr_system.Payroll.Payslip.Conservation.{compute_payslip-Divides, IsNonneg}
use plutus_hr_system.Payroll.Payslip.Total.{deduct_fits}
use plutus_hr_system.Payroll.Benefits.{BenefitCandidate, select_benefit_deductions}
use plutus_hr_system.Payroll.Benefits.Selection.{IsWorth, select_benefit_deductions-Selects}
use plutus_hr_system.Payroll.Settle.{loan_deduction, dues_deduction, settle}

-- With no deduction the checks pass on a net pay that is not negative, and change nothing.
deduct_nothing :
    (s c : PayslipComputation)
    → deduct s (pos 0) (pos 0) (pos 0) ≡ ok c
    → IsNonneg s.net_pay_minor
      × (c ≡ taken s (pos 0) (pos 0) (pos 0))
      × (c.net_pay_minor ≡ s.net_pay_minor)
unfolding deduct taken
deduct_nothing s c e = grind int_laws

taken-taken :
    (s : PayslipComputation) (loan benefit dues : ℤ)
    → taken (taken s (pos 0) (pos 0) (pos 0)) loan benefit dues ≡ taken s loan benefit dues
unfolding taken
taken-taken s loan benefit dues =
    let same : s.net_pay_minor -ℤ pos 0 -ℤ pos 0 -ℤ pos 0 ≡ s.net_pay_minor = omega int_laws in
    rw same

compute_payslip_fits :
    (i : PayslipInputs) (c : PayslipComputation) (loan benefit dues : ℤ)
    → compute_payslip i (pos 0) (pos 0) (pos 0) ≡ ok c
    → IsNonneg loan
    → IsNonneg benefit
    → IsNonneg dues
    → loan +ℤ benefit +ℤ dues ≤ℤ c.net_pay_minor
    → compute_payslip i loan benefit dues ≡ ok (taken c loan benefit dues)
unfolding compute_payslip
compute_payslip_fits i c loan benefit dues e hl hb hd fits =
    grind (arith, deduct_nothing, deduct_fits, taken-taken)

-- What the three steps take from a net pay: the whole scheduled installment or nothing, the chosen
-- benefits, and the whole dues or nothing.
abbrev pub loan_from : ℤ → ℤ → ℤ
loan_from net scheduled = if ltb_ℤ net scheduled then pos 0 else scheduled

abbrev pub benefit_from : ℤ → List BenefitCandidate → ℤ
benefit_from available candidates = (select_benefit_deductions candidates available).1

abbrev pub dues_from : ℤ → Option ℤ → ℤ
dues_from available none = pos 0
dues_from available (some monthly_dues) =
    if leb_ℤ monthly_dues available then monthly_dues else pos 0

abbrev pub IsDues : Option ℤ → Type 0
IsDues none = Unit
IsDues (some monthly_dues) = IsNonneg monthly_dues

loan_deduction_lem :
    (i : PayslipInputs) (c : PayslipComputation) (scheduled : ℤ)
    → compute_payslip i (pos 0) (pos 0) (pos 0) ≡ ok c
    → IsNonneg c.net_pay_minor
    → IsNonneg scheduled
    → loan_deduction i scheduled ≡ ok (loan_from c.net_pay_minor scheduled)
unfolding loan_deduction
loan_deduction_lem i c scheduled e n h = ground arith

dues_deduction_lem :
    (membership : Option ℤ) (available : ℤ)
    → IsDues membership
    → dues_deduction membership available ≡ ok (dues_from available membership)
unfolding dues_deduction union_dues_deduction_minor
dues_deduction_lem none available h = refl
dues_deduction_lem (some dues) available h = ground arith

dues_from_fits :
    (membership : Option ℤ) (available : ℤ)
    → IsDues membership
    → IsNonneg available
    → IsNonneg (dues_from available membership) × (dues_from available membership ≤ℤ available)
dues_from_fits none available h a = ground arith
dues_from_fits (some dues) available h a = ground arith

module _ (i : PayslipInputs) (c : PayslipComputation) (scheduled : ℤ)
    (candidates : List BenefitCandidate) (membership : Option ℤ)
    (e : compute_payslip i (pos 0) (pos 0) (pos 0) ≡ ok c) (hs : IsNonneg scheduled)
    (hw : All IsWorth candidates) (hd : IsDues membership) where
  net-IsNonneg : IsNonneg c.net_pay_minor
  net-IsNonneg = ground (arith, e, compute_payslip-Divides i (pos 0) (pos 0) (pos 0))

  loan : ℤ
  loan = loan_from c.net_pay_minor scheduled

  loan_fits : IsNonneg loan × (loan ≤ℤ c.net_pay_minor)
  unfolding loan
  loan_fits = ground (arith, net-IsNonneg)

  benefit : ℤ
  unfolding loan
  benefit = benefit_from (c.net_pay_minor -ℤ loan) candidates

  benefit_fits : IsNonneg benefit × (benefit ≤ℤ c.net_pay_minor -ℤ loan)
  unfolding benefit
  benefit_fits =
      let sel =
        select_benefit_deductions-Selects candidates (c.net_pay_minor -ℤ loan) hw
          (omega (int_laws, loan_fits)) in
      (sel.total_nonneg, sel.covered)

  dues : ℤ
  dues = dues_from (c.net_pay_minor -ℤ loan -ℤ benefit) membership

  dues_fit : IsNonneg dues × (dues ≤ℤ c.net_pay_minor -ℤ loan -ℤ benefit)
  unfolding dues
  dues_fit =
      dues_from_fits membership (c.net_pay_minor -ℤ loan -ℤ benefit) hd
        (omega (int_laws, loan_fits, benefit_fits))

  first_pass : compute_payslip i loan (pos 0) (pos 0) ≡ ok (taken c loan (pos 0) (pos 0))
  first_pass =
      compute_payslip_fits i c loan (pos 0) (pos 0) e loan_fits.0 (omega arith) (omega arith)
        (omega (int_laws, loan_fits))

  last_pass : compute_payslip i loan benefit dues ≡ ok (taken c loan benefit dues)
  last_pass =
      compute_payslip_fits i c loan benefit dues e loan_fits.0 benefit_fits.0 dues_fit.0
        (omega (int_laws, loan_fits, benefit_fits, dues_fit))

  first_net : (taken c loan (pos 0) (pos 0)).net_pay_minor ≡ c.net_pay_minor -ℤ loan
  unfolding taken
  first_net = omega int_laws

  step_loan : loan_deduction i scheduled ≡ ok loan
  unfolding loan
  step_loan = loan_deduction_lem i c scheduled e net-IsNonneg hs

  step_benefit :
      (select_benefit_deductions candidates (taken c loan (pos 0) (pos 0)).net_pay_minor).1
      ≡ benefit
  unfolding benefit
  step_benefit = rw first_net

  step_dues :
      dues_deduction membership ((taken c loan (pos 0) (pos 0)).net_pay_minor -ℤ benefit) ≡ ok dues
  unfolding dues
  step_dues = rw first_net (dues_deduction_lem membership (c.net_pay_minor -ℤ loan -ℤ benefit) hd)

  settle_lem : settle i scheduled candidates membership ≡ ok (taken c loan benefit dues)
  unfolding settle
  settle_lem = rw (step_loan, first_pass, step_benefit, step_dues) last_pass

  left-IsNonneg : IsNonneg (taken c loan benefit dues).net_pay_minor
  unfolding taken
  left-IsNonneg = omega (int_laws, dues_fit)

  -- Where the payslip with no deduction can be computed, the deductions never make the payslip
  -- fail: the loan is the scheduled installment if the net pay covers it and else nothing, the
  -- benefits are those that the selection takes from what is left, and the dues are whole or
  -- nothing; the net pay left is not negative.
  pub settle-total :
      let loan = loan_from c.net_pay_minor scheduled in
      let benefit = benefit_from (c.net_pay_minor -ℤ loan) candidates in
      let dues = dues_from (c.net_pay_minor -ℤ loan -ℤ benefit) membership in
      (settle i scheduled candidates membership ≡ ok (taken c loan benefit dues))
      × IsNonneg (taken c loan benefit dues).net_pay_minor
  unfolding loan benefit dues
  settle-total = (settle_lem, left-IsNonneg)
