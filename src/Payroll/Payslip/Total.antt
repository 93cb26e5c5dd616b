-- ===== src/Payroll/Payslip/Total.antt =====
-- When `compute_payslip` of app/domain/payroll/payslip.py returns.
use plutus_hr_system.Prelude.{
  ◌*◌, ◌/◌, ◌≡◌, sym, ◌∙◌, ◌↔◌, false, arith, ℤ, pos, negsuc, pos_part, ◌+ℤ◌, ◌-ℤ◌, ◌≤ℤ◌, is_neg,
  min_ℤ, max_ℤ, min_ℤ_bounds, max_ℤ_bounds, int_laws, Result, ok, Ensures,
}
use plutus_hr_system.Errors.{ValueError}
use plutus_hr_system.Money.{apply_rate_ppm}
use plutus_hr_system.Money.Rounding.{round_ppm, apply_rate_ppm_pos}
use plutus_hr_system.Compliance.{RuleVersion, PayeRule, PensionRule, NhfRule}
use plutus_hr_system.Payroll.Statutory.{
  PayFrequency, periods_per_year, compute_pensionable_pay, compute_pension_employee,
  compute_pension_employer, compute_nhf, compute_rent_relief, prorate_annual_amount,
}
use plutus_hr_system.Payroll.Paye.{compute_chargeable_income, compute_incremental_paye}
use plutus_hr_system.Payroll.Paye.Bands.{IsTable, tax_above, compute_paye_annual_lem}
use plutus_hr_system.Payroll.Payslip.{
  PayslipInputs, PayslipComputation, deduct, taken, computation_of, statutory_pay, compute_payslip,
}
use plutus_hr_system.Payroll.Payslip.Conservation.{IsNonneg}
use plutus_hr_system.Payroll.Statutory.Prorated.{prorate_annual_amount_pos}
use Prim.Native.Nat.{min}

-- Rules that can be applied: no negative rate or cap, and a well-formed table.
pub record IsUsable (r : RuleVersion) : Type 0 where
  pub employee_rate : IsNonneg r.pension.employee_rate_ppm
  pub employer_rate : IsNonneg r.pension.employer_rate_ppm
  pub nhf_rate : IsNonneg r.nhf.rate_ppm
  pub relief_rate : IsNonneg r.paye.rent_relief_rate_ppm
  pub relief_cap : IsNonneg r.paye.rent_relief_cap_minor
  pub table : IsTable r.paye.bands 0

-- No negative amount in the inputs, and usable rules.
pub record IsInput (i : PayslipInputs) : Type 0 where
  pub basic : IsNonneg i.basic_minor
  pub housing : IsNonneg i.housing_minor
  pub transport : IsNonneg i.transport_minor
  pub other : IsNonneg i.other_earnings_minor
  pub rent : IsNonneg i.annual_rent_paid_minor
  pub periods : IsNonneg i.periods_elapsed_this_year
  pub gross_before : IsNonneg i.cumulative_gross_before_minor
  pub pension_before : IsNonneg i.cumulative_pension_employee_before_minor
  pub nhf_before : IsNonneg i.cumulative_nhf_before_minor
  pub paye_before : IsNonneg i.cumulative_paye_withheld_before_minor
  pub usable : IsUsable i.rules

-- A call that returns an amount that is not negative.
abbrev Returns : Result ValueError ℤ → Type 0
Returns m = (x : ℤ) × (m ≡ ok x) × IsNonneg x

rate-Returns : (a r : ℤ) → IsNonneg a → IsNonneg r → Returns (apply_rate_ppm a r)
rate-Returns a r h k =
    (pos (round_ppm (pos_part a) (pos_part r)), apply_rate_ppm_pos a r h k, omega arith)

not_neg : (a : ℤ) → IsNonneg a → is_neg a ≡ false
not_neg a h = ground arith

pensionable-Returns :
    (b h t : ℤ) → IsNonneg b → IsNonneg h → IsNonneg t → Returns (compute_pensionable_pay b h t)
unfolding compute_pensionable_pay
pensionable-Returns b h t hb hh ht =
    (b +ℤ h +ℤ t, rw (not_neg b hb, not_neg h hh, not_neg t ht), omega int_laws)

employee-Returns :
    (p : ℤ) (r : PensionRule)
    → IsNonneg p
    → IsNonneg r.employee_rate_ppm
    → Returns (compute_pension_employee p r)
unfolding compute_pension_employee
employee-Returns p r h k = rw (not_neg p h) (rate-Returns p r.employee_rate_ppm h k)

employer-Returns :
    (p : ℤ) (r : PensionRule)
    → IsNonneg p
    → IsNonneg r.employer_rate_ppm
    → Returns (compute_pension_employer p r)
unfolding compute_pension_employer
employer-Returns p r h k = rw (not_neg p h) (rate-Returns p r.employer_rate_ppm h k)

nhf-Returns : (b : ℤ) (r : NhfRule) → IsNonneg b → IsNonneg r.rate_ppm → Returns (compute_nhf b r)
unfolding compute_nhf
nhf-Returns b r h k = rw (not_neg b h) (rate-Returns b r.rate_ppm h k)

relief-Returns :
    (rent : ℤ) (r : PayeRule)
    → IsNonneg rent
    → IsNonneg r.rent_relief_rate_ppm
    → IsNonneg r.rent_relief_cap_minor
    → Returns (compute_rent_relief rent r)
unfolding compute_rent_relief
relief-Returns rent r h k c =
    let (x, e, hx) = rate-Returns rent r.rent_relief_rate_ppm h k in
    (
      min_ℤ x r.rent_relief_cap_minor,
      rw (not_neg rent h, e),
      omega (arith, min_ℤ_bounds x r.rent_relief_cap_minor),
    )

prorated-Returns :
    (annual periods : ℤ) (f : PayFrequency)
    → IsNonneg annual
    → IsNonneg periods
    → Returns (prorate_annual_amount annual periods f)
prorated-Returns (pos a) (pos p) f h k =
    let total = periods_per_year f in
    (pos (a * min p total / total), prorate_annual_amount_pos a p f, omega arith)
prorated-Returns (pos a) (negsuc p) f h k = absurd (omega arith)
prorated-Returns (negsuc a) p f h k = absurd (omega arith)

chargeable-Returns :
    (g p n r : ℤ)
    → IsNonneg g
    → IsNonneg p
    → IsNonneg n
    → IsNonneg r
    → Returns (compute_chargeable_income g p n r)
unfolding compute_chargeable_income
chargeable-Returns g p n r hg hp hn hr = (
  max_ℤ (pos 0) (g -ℤ p -ℤ n -ℤ r),
  rw (not_neg g hg, not_neg p hp, not_neg n hn, not_neg r hr),
  omega (arith, max_ℤ_bounds (pos 0) (g -ℤ p -ℤ n -ℤ r)),
)

incremental-Returns :
    (c w : ℤ) (r : PayeRule)
    → IsNonneg c
    → IsNonneg w
    → IsTable r.bands 0
    → Returns (compute_incremental_paye c w r.bands)
unfolding compute_incremental_paye
incremental-Returns (negsuc c) w r hc hw t = absurd (omega arith)
incremental-Returns (pos c) w r hc hw t =
    let due = pos (tax_above r.bands 0 c) in
    (
      max_ℤ (pos 0) (due -ℤ w),
      rw (not_neg w hw, compute_paye_annual_lem r.bands c t),
      omega (arith, max_ℤ_bounds (pos 0) (due -ℤ w)),
    )

add-IsNonneg : (a b : ℤ) → IsNonneg a → IsNonneg b → IsNonneg (a +ℤ b)
add-IsNonneg a b h k = omega int_laws

-- The statutory part of a payslip never raises on inputs that are not negative.
statutory_pay_returns :
    (i : PayslipInputs) → IsInput i → (s : PayslipComputation) × (statutory_pay i ≡ ok s)
unfolding statutory_pay
statutory_pay_returns i h =
    let (p, ep, hp) =
      pensionable-Returns i.basic_minor i.housing_minor i.transport_minor h.basic h.housing
        h.transport in
    let (pe, epe, hpe) = employee-Returns p i.rules.pension hp h.usable.employee_rate in
    let (pr, epr, hpr) = employer-Returns p i.rules.pension hp h.usable.employer_rate in
    let (n, en, hn) = nhf-Returns i.basic_minor i.rules.nhf h.basic h.usable.nhf_rate in
    let (rent, er, hr) =
      relief-Returns i.annual_rent_paid_minor i.rules.paye h.rent h.usable.relief_rate
        h.usable.relief_cap in
    let (relief, el, hl) =
      prorated-Returns rent i.periods_elapsed_this_year i.frequency hr h.periods in
    let (c, ec, hc) =
      chargeable-Returns (i.cumulative_gross_before_minor +ℤ (p +ℤ i.other_earnings_minor))
        (i.cumulative_pension_employee_before_minor +ℤ pe) (i.cumulative_nhf_before_minor +ℤ n)
        relief (add-IsNonneg _ _ h.gross_before (add-IsNonneg _ _ hp h.other))
        (add-IsNonneg _ _ h.pension_before hpe) (add-IsNonneg _ _ h.nhf_before hn) hl in
    let (t, et, ht) =
      incremental-Returns c i.cumulative_paye_withheld_before_minor i.rules.paye hc h.paye_before
        h.usable.table in
    (
      computation_of i.other_earnings_minor p pe pr n relief c t,
      rw (ep, epe, epr, en, er, el, ec, et),
    )

pub deduct_fits :
    (s : PayslipComputation) (loan benefit dues : ℤ)
    → IsNonneg loan
    → IsNonneg benefit
    → IsNonneg dues
    → loan +ℤ benefit +ℤ dues ≤ℤ s.net_pay_minor
    → deduct s loan benefit dues ≡ ok (taken s loan benefit dues)
unfolding deduct
deduct_fits s loan benefit dues hl hb hd fits = grind int_laws

deduct_refuses :
    (s : PayslipComputation) (loan benefit dues : ℤ) {c : PayslipComputation}
    → deduct s loan benefit dues ≡ ok c
    → loan +ℤ benefit +ℤ dues ≤ℤ s.net_pay_minor
unfolding deduct
deduct_refuses s loan benefit dues e = grind int_laws

compute_payslip_deducts :
    (i : PayslipInputs) (loan benefit dues : ℤ) (s : PayslipComputation)
    → IsNonneg i.other_earnings_minor
    → IsNonneg loan
    → IsNonneg benefit
    → IsNonneg dues
    → statutory_pay i ≡ ok s
    → compute_payslip i loan benefit dues ≡ deduct s loan benefit dues
unfolding compute_payslip
compute_payslip_deducts i loan benefit dues s ho hl hb hd e =
    rw (not_neg i.other_earnings_minor ho, not_neg loan hl, not_neg benefit hb, not_neg dues hd, e)

-- A payslip with its deductions, next to its statutory figures.
pub record LeftOf (s : PayslipComputation) (loan benefit dues : ℤ) (c : PayslipComputation)
    : Type 0 where
  pub same_gross : c.gross_minor ≡ s.gross_minor
  pub same_lines :
      (c.pension_employee_minor ≡ s.pension_employee_minor)
      × (c.nhf_minor ≡ s.nhf_minor)
      × (c.paye_minor ≡ s.paye_minor)
  pub deducted :
      (c.loan_deduction_minor ≡ loan)
      × (c.benefit_deduction_minor ≡ benefit)
      × (c.union_dues_deduction_minor ≡ dues)
  pub left : c.net_pay_minor +ℤ (loan +ℤ benefit +ℤ dues) ≡ s.net_pay_minor

deduct-LeftOf :
    (s : PayslipComputation) (loan benefit dues : ℤ)
    → Ensures (LeftOf s loan benefit dues) (deduct s loan benefit dues)
unfolding deduct taken
deduct-LeftOf s loan benefit dues = grind int_laws

-- On inputs that are not negative and usable rules, the statutory figures are always computed, and
-- the payslip with its deductions is returned exactly when they fit in the net pay. A payslip that is
-- returned has the gross, the pension, the NHF and the PAYE of the statutory figures, the deductions
-- asked for, and as its net pay what they leave of the statutory one.
pub compute_payslip-returns :
    (i : PayslipInputs) (loan benefit dues : ℤ)
    → IsInput i
    → IsNonneg loan
    → IsNonneg benefit
    → IsNonneg dues
    → (s : PayslipComputation) × (statutory_pay i ≡ ok s)
      × (((c : PayslipComputation) × (compute_payslip i loan benefit dues ≡ ok c))
          ↔ (loan +ℤ benefit +ℤ dues ≤ℤ s.net_pay_minor))
      × Ensures (LeftOf s loan benefit dues) (compute_payslip i loan benefit dues)
compute_payslip-returns i loan benefit dues h hl hb hd =
    let (s, e) = statutory_pay_returns i h in
    let deducts = compute_payslip_deducts i loan benefit dues s h.other hl hb hd e in
    (
      s,
      e,
      (
        λ r. deduct_refuses s loan benefit dues (sym deducts ∙ r.1),
        λ fits.
            (taken s loan benefit dues, deducts ∙ deduct_fits s loan benefit dues hl hb hd fits),
      ),
      rw deducts (deduct-LeftOf s loan benefit dues),
    )
