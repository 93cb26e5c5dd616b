-- ===== src/Engine/IncomeTax/Parity.antt =====
-- The engine's progressive tax (`band_tax` of app/compliance/engine/calculate.py) against Nigeria's
-- own (`compute_paye_annual` of app/domain/payroll/paye.py).
use plutus_hr_system.Prelude.{
  ℕ, ◌+◌, ◌-◌, ◌≡◌, refl, sym, ap, ◌∙◌, inl, inr, List, [], ◌∷◌, arith, Option-cases, ℤ, pos,
  pos_part, ◌+ℤ◌, ◌-ℤ◌, min_ℤ, ok,
}
use plutus_hr_system.Compliance.{Band}
use plutus_hr_system.Payroll.Paye.{compute_paye_annual}
use plutus_hr_system.Payroll.Paye.Bands.{
  IsTable, tax_above, tax_above_none, compute_paye_annual_lem,
}
use plutus_hr_system.Engine.Rules.{TaxBand, BandRounding, RoundingMode, Rounding, IncomeTaxRule}
use plutus_hr_system.Engine.Rounding.Exact.{rounding_of, rate_amount_pos}
use plutus_hr_system.Engine.IncomeTax.{band_slices, sum_of_rounded, band_tax}

-- A band of the engine as one of Nigeria's.
abbrev pub as_bands : List TaxBand → List Band
as_bands [] = []
as_bands (b ∷ bs) = record { up_to_minor = b.up_to_minor; rate_ppm = b.rate_ppm } ∷ as_bands bs

abbrev pub to_unit : Rounding
to_unit = rounding_of RoundingMode.half_up 1

sum_done :
    (bs : List TaxBand) (floor : ℤ)
    → sum_of_rounded (band_slices bs floor (pos 0)) to_unit ≡ ok (pos 0)
unfolding band_slices sum_of_rounded
sum_done [] floor = refl
sum_done (b ∷ bs) floor = refl

band_slices-tax :
    (bs : List TaxBand) (floor remaining : ℕ)
    → IsTable (as_bands bs) floor
    → sum_of_rounded (band_slices bs (pos floor) (pos remaining)) to_unit
      ≡ ok (pos (tax_above (as_bands bs) floor (floor + remaining)))
unfolding band_slices sum_of_rounded min_ℤ ◌-ℤ◌ ◌+ℤ◌
band_slices-tax [] floor remaining t = refl
band_slices-tax (b ∷ bs) floor remaining t = elim (Option-cases b.up_to_minor) [
  | inl e ↦ ground (
    arith,
    e,
    rate_amount_pos (pos remaining) b.rate_ppm,
    sum_done bs (pos floor),
    tax_above_none (as_bands (b ∷ bs)) floor (floor + remaining),
  )
  | inr (u, e) ↦ ground (
    arith,
    e,
    rate_amount_pos (min_ℤ (pos remaining) (u -ℤ pos floor)) b.rate_ppm,
    tax_above_none (as_bands bs) (pos_part u) (floor + remaining),
    sum_done bs u,
    band_slices-tax bs (pos_part u) (remaining - (pos_part u - floor)),
  )
]

-- Whatever else the rule says, with each band rounded half up to the minor unit.
pub record RoundsBands (rule : IncomeTaxRule) : Type 0 where
  pub each_band : rule.band_rounding ≡ BandRounding.each_band
  pub half_up : rule.rounding ≡ to_unit

band_tax_eq :
    (rule : IncomeTaxRule) (income : ℕ)
    → RoundsBands rule
    → band_tax (pos income) rule
      ≡ sum_of_rounded (band_slices rule.bands (pos 0) (pos income)) to_unit
unfolding band_tax
band_tax_eq rule income h = simp (h.each_band, h.half_up)

-- On a well-formed table, with each band's tax rounded half up to the minor unit, the engine's band
-- tax of an income is what Nigeria's own code computes on the same bands.
pub band_tax-compute_paye_annual :
    (rule : IncomeTaxRule) (income : ℕ)
    → RoundsBands rule
    → IsTable (as_bands rule.bands) 0
    → band_tax (pos income) rule ≡ compute_paye_annual (pos income) (as_bands rule.bands)
band_tax-compute_paye_annual rule income h t =
    let whole : 0 + income ≡ income = omega arith in
    band_tax_eq rule income h
    ∙ band_slices-tax rule.bands 0 income t
    ∙ ap (λ (n : ℕ). ok (pos (tax_above (as_bands rule.bands) 0 n))) whole
    ∙ sym (compute_paye_annual_lem (as_bands rule.bands) income t)
