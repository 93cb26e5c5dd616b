-- ===== src/Payroll/Payslip/Conservation.antt =====
-- Where the gross pay of a payslip goes, and that no part of it is negative
-- (app/domain/payroll/payslip.py).
use plutus_hr_system.Prelude.{
  ◌≡◌, refl, false, List, arith, ℤ, pos, negsuc, ◌+ℤ◌, ◌-ℤ◌, ◌≤ℤ◌, is_neg, max_ℤ, int_laws,
  raise_if, Ensures, Ensures-bind, Ensures-skip, Ensures-raise_if,
}
use plutus_hr_system.Errors.{negative}
use plutus_hr_system.Money.{apply_rate_ppm}
use plutus_hr_system.Compliance.{PensionRule, NhfRule, Band}
use plutus_hr_system.Payroll.Statutory.{
  compute_pensionable_pay, compute_pension_employee, compute_pension_employer, compute_nhf,
}
use plutus_hr_system.Payroll.Paye.{compute_incremental_paye}
use plutus_hr_system.Payroll.Payslip.{
  PayslipInputs, PayslipComputation, deduct, statutory_pay, computation_of, taken, compute_payslip,
}

abbrev pub IsNonneg : ℤ → Type 0
IsNonneg x = pos 0 ≤ℤ x

pub apply_rate_ppm-IsNonneg : (a r : ℤ) → Ensures IsNonneg (apply_rate_ppm a r)
unfolding apply_rate_ppm
apply_rate_ppm-IsNonneg (pos a) (pos r) = omega arith
apply_rate_ppm-IsNonneg (pos a) (negsuc r) = tt
apply_rate_ppm-IsNonneg (negsuc a) r = tt

abbrev IsPensionable : ℤ → ℤ → ℤ → ℤ → Type 0
IsPensionable b h t p = IsNonneg p × (p ≡ b +ℤ h +ℤ t)

compute_pensionable_pay-IsPensionable :
    (b h t : ℤ) → Ensures (IsPensionable b h t) (compute_pensionable_pay b h t)
unfolding compute_pensionable_pay ◌+ℤ◌
compute_pensionable_pay-IsPensionable (pos b) (pos h) (pos t) = (omega arith, refl)
compute_pensionable_pay-IsPensionable (pos b) (pos h) (negsuc t) = tt
compute_pensionable_pay-IsPensionable (pos b) (negsuc h) t = tt
compute_pensionable_pay-IsPensionable (negsuc b) h t = tt

employee-IsNonneg : (p : ℤ) (r : PensionRule) → Ensures IsNonneg (compute_pension_employee p r)
unfolding compute_pension_employee
employee-IsNonneg p r = ground (arith, apply_rate_ppm-IsNonneg p r.employee_rate_ppm)

employer-IsNonneg : (p : ℤ) (r : PensionRule) → Ensures IsNonneg (compute_pension_employer p r)
unfolding compute_pension_employer
employer-IsNonneg p r = ground (arith, apply_rate_ppm-IsNonneg p r.employer_rate_ppm)

nhf-IsNonneg : (b : ℤ) (r : NhfRule) → Ensures IsNonneg (compute_nhf b r)
unfolding compute_nhf
nhf-IsNonneg b r = ground (arith, apply_rate_ppm-IsNonneg b r.rate_ppm)

paye-IsNonneg :
    (c w : ℤ) (bands : List Band) → Ensures IsNonneg (compute_incremental_paye c w bands)
unfolding compute_incremental_paye max_ℤ
paye-IsNonneg c w bands = ground arith

-- The statutory part of a payslip: what comes off the gross, and that nothing is negative.
pub record IsStatutory (i : PayslipInputs) (c : PayslipComputation) : Type 0 where
  pub pension_employee_nonneg : IsNonneg c.pension_employee_minor
  pub pension_employer_nonneg : IsNonneg c.pension_employer_minor
  pub nhf_nonneg : IsNonneg c.nhf_minor
  pub paye_nonneg : IsNonneg c.paye_minor
  pub pensionable : c.pensionable_pay_minor ≡ i.basic_minor +ℤ i.housing_minor +ℤ i.transport_minor
  pub earned : c.gross_minor ≡ c.pensionable_pay_minor +ℤ i.other_earnings_minor
  pub pensionable_nonneg : IsNonneg c.pensionable_pay_minor
  pub nothing_taken :
      (c.loan_deduction_minor ≡ pos 0)
      × (c.benefit_deduction_minor ≡ pos 0)
      × (c.union_dues_deduction_minor ≡ pos 0)
  pub splits :
      c.gross_minor ≡ c.pension_employee_minor +ℤ c.nhf_minor +ℤ c.paye_minor +ℤ c.net_pay_minor

computation_of-IsStatutory :
    (i : PayslipInputs) (p pe pr nhf relief chargeable paye : ℤ)
    → IsPensionable i.basic_minor i.housing_minor i.transport_minor p
    → IsNonneg pe
    → IsNonneg pr
    → IsNonneg nhf
    → IsNonneg paye
    → IsStatutory i (computation_of i.other_earnings_minor p pe pr nhf relief chargeable paye)
unfolding computation_of
computation_of-IsStatutory i p pe pr nhf relief chargeable paye hp hpe hpr hn hpaye = grind int_laws

pub statutory_pay-IsStatutory : (i : PayslipInputs) → Ensures (IsStatutory i) (statutory_pay i)
unfolding statutory_pay
statutory_pay-IsStatutory i = grind (
  arith, compute_pensionable_pay-IsPensionable, employee-IsNonneg, employer-IsNonneg, nhf-IsNonneg,
  paye-IsNonneg, computation_of-IsStatutory,
)

-- A payslip that is computed divides the gross exactly between the statutory lines, the three
-- deductions asked for and the net pay, and none of these is negative.
pub record Divides (i : PayslipInputs) (loan benefit dues : ℤ) (c : PayslipComputation)
    : Type 0 where
  pub loan_kept : c.loan_deduction_minor ≡ loan
  pub benefit_kept : c.benefit_deduction_minor ≡ benefit
  pub dues_kept : c.union_dues_deduction_minor ≡ dues
  pub net_nonneg : IsNonneg c.net_pay_minor
  pub paye_nonneg : IsNonneg c.paye_minor
  pub pension_nonneg : IsNonneg c.pension_employee_minor × IsNonneg c.pension_employer_minor
  pub nhf_nonneg : IsNonneg c.nhf_minor
  pub deductions_nonneg :
      IsNonneg c.loan_deduction_minor
      × IsNonneg c.benefit_deduction_minor
      × IsNonneg c.union_dues_deduction_minor
  pub earned :
      c.gross_minor
      ≡ i.basic_minor +ℤ i.housing_minor +ℤ i.transport_minor +ℤ i.other_earnings_minor
  pub divides :
      c.gross_minor
      ≡ c.pension_employee_minor +ℤ c.nhf_minor +ℤ c.paye_minor +ℤ loan +ℤ benefit +ℤ dues
        +ℤ c.net_pay_minor

taken-Divides :
    (i : PayslipInputs) (loan benefit dues : ℤ) (c : PayslipComputation)
    → IsStatutory i c
    → IsNonneg loan
    → IsNonneg benefit
    → IsNonneg dues
    → dues ≤ℤ c.net_pay_minor -ℤ loan -ℤ benefit
    → Divides i loan benefit dues (taken c loan benefit dues)
unfolding taken
taken-Divides i loan benefit dues c h hl hb hd fits = grind int_laws

deduct-Divides :
    (i : PayslipInputs) (loan benefit dues : ℤ) (c : PayslipComputation)
    → IsStatutory i c
    → IsNonneg loan
    → IsNonneg benefit
    → IsNonneg dues
    → Ensures (Divides i loan benefit dues) (deduct c loan benefit dues)
unfolding deduct
deduct-Divides i loan benefit dues c h hl hb hd =
    ground (arith, taken-Divides i loan benefit dues c h hl hb hd)

not_neg-IsNonneg : (n : ℤ) → is_neg n ≡ false → IsNonneg n
not_neg-IsNonneg n e = ground arith

-- Every payslip that the code computes divides the gross pay: the gross is the sum of the four
-- earnings; the employee's pension, NHF, PAYE, the loan, benefits and dues deductions that were asked
-- for and the net pay sum to it; and none of these seven parts is negative, nor the employer's pension.
pub compute_payslip-Divides :
    (i : PayslipInputs) (loan benefit dues : ℤ)
    → Ensures (Divides i loan benefit dues) (compute_payslip i loan benefit dues)
unfolding compute_payslip
compute_payslip-Divides i loan benefit dues =
    let q = Divides i loan benefit dues in
    Ensures-skip q (raise_if (is_neg i.other_earnings_minor) (negative "other_earnings_minor")) _
      λ checked. Ensures-raise_if q (is_neg loan) (negative "loan_deduction_minor") _ λ hl.
        Ensures-raise_if q (is_neg benefit) (negative "benefit_deduction_minor") _ λ hb.
          Ensures-raise_if q (is_neg dues) (negative "union_dues_deduction_minor") _ λ hd.
            Ensures-bind (IsStatutory i) q (statutory_pay i) _ (statutory_pay-IsStatutory i)
              λ (c : PayslipComputation) h.
                deduct-Divides i loan benefit dues c h (not_neg-IsNonneg loan hl)
                  (not_neg-IsNonneg benefit hb) (not_neg-IsNonneg dues hd)
