-- ===== src/Payroll/Paye.antt =====
-- Progressive income tax: app/domain/payroll/paye.py.
pub mod Bands
use plutus_hr_system.Prelude.{
  not, Option, none, some, List, [], ◌∷◌, if◌then◌else◌, ℤ, pos, ◌+ℤ◌, ◌-ℤ◌, is_neg, is_pos,
  is_nonzero, min_ℤ, max_ℤ, Result, ok, ◌>>=◌, ◌>>◌, raise_if,
}
use plutus_hr_system.Errors.{ValueError, negative}
use plutus_hr_system.Money.{apply_rate_ppm}
use plutus_hr_system.Compliance.{Band}

unfoldable pub compute_chargeable_income : ℤ → ℤ → ℤ → ℤ → Result ValueError ℤ
compute_chargeable_income annual_gross_minor pension_employee_minor nhf_minor rent_relief_minor = do
  raise_if (is_neg annual_gross_minor) (negative "annual_gross_minor")
  raise_if (is_neg pension_employee_minor) (negative "pension_employee_minor")
  raise_if (is_neg nhf_minor) (negative "nhf_minor")
  raise_if (is_neg rent_relief_minor) (negative "rent_relief_minor")
  ok (
      max_ℤ (pos 0)
        (annual_gross_minor -ℤ pension_employee_minor -ℤ nhf_minor -ℤ rent_relief_minor))

abbrev pub band_width : Option ℤ → ℤ → ℤ → ℤ
band_width none previous_ceiling remaining = remaining
band_width (some up_to) previous_ceiling remaining = up_to -ℤ previous_ceiling

abbrev pub ceiling_after : Option ℤ → ℤ → ℤ
ceiling_after none previous_ceiling = previous_ceiling
ceiling_after (some up_to) previous_ceiling = up_to

-- The `for` loop of `compute_paye_annual` over its three variables; both `break`s return the tax.
pub band_loop : List Band → ℤ → ℤ → ℤ → Result ValueError ℤ
band_loop [] previous_ceiling remaining tax_minor = ok tax_minor
band_loop (band ∷ bands) previous_ceiling remaining tax_minor =
    let taxable_in_band =
      min_ℤ remaining (band_width band.up_to_minor previous_ceiling remaining) in
    if not (is_pos taxable_in_band) then ok tax_minor else do
      amount ← apply_rate_ppm taxable_in_band band.rate_ppm
      let left = remaining -ℤ taxable_in_band
      let more =
          band_loop bands (ceiling_after band.up_to_minor previous_ceiling) left
            (tax_minor +ℤ amount)
      if is_pos left then more else ok (tax_minor +ℤ amount)

unfoldable pub compute_paye_annual : ℤ → List Band → Result ValueError ℤ
unfolding band_loop
compute_paye_annual chargeable_income_minor bands = do
  raise_if (is_neg chargeable_income_minor) (negative "chargeable_income_minor")
  if is_nonzero chargeable_income_minor
      then band_loop bands (pos 0) chargeable_income_minor (pos 0)
      else ok (pos 0)

unfoldable pub compute_incremental_paye : ℤ → ℤ → List Band → Result ValueError ℤ
compute_incremental_paye cumulative_chargeable_income_minor previously_withheld_minor bands = do
  raise_if (is_neg previously_withheld_minor) (negative "previously_withheld_minor")
  total_due ← compute_paye_annual cumulative_chargeable_income_minor bands
  ok (max_ℤ (pos 0) (total_due -ℤ previously_withheld_minor))
