-- ===== src/Payroll/Paye/Bands.antt =====
-- The band table as an independent description, and what the loop of app/domain/payroll/paye.py
-- computes on it.
use plutus_hr_system.Prelude.{
  ℕ, ◌+◌, ◌-◌, ◌≤◌, ◌≡◌, refl, ap, inl, inr, Option, none, some, List, [], ◌∷◌, arith, Option-cases,
  ℤ, pos, pos_part, ◌+ℤ◌, ◌-ℤ◌, ◌≤ℤ◌, ◌<ℤ◌, min_ℤ, ok,
}
use Prim.Native.Nat.{min, max}
use plutus_hr_system.Money.Rounding.{
  round_ppm, apply_rate_ppm_pos, round_ppm_mono, round_ppm_lipschitz,
}
use plutus_hr_system.Compliance.{Band}
use plutus_hr_system.Payroll.Paye.{band_loop, compute_paye_annual}

-- A band's rate lies between 0 and 100%, and the ceilings rise strictly from `floor`.
abbrev pub IsRate : ℤ → Type 0
IsRate r = (pos 0 ≤ℤ r) × (r ≤ℤ pos 1_000_000)

abbrev pub IsCeiling : Option ℤ → ℕ → Type 0
IsCeiling none floor = Unit
IsCeiling (some u) floor = pos floor <ℤ u

abbrev pub top : Option ℤ → ℕ → ℕ
top none floor = floor
top (some u) floor = pos_part u

abbrev pub IsTable : List Band → ℕ → Type 0
IsTable [] floor = Unit
IsTable (b ∷ bs) floor =
    IsRate b.rate_ppm × IsCeiling b.up_to_minor floor × IsTable bs (top b.up_to_minor floor)

-- The part of an income between a floor and a ceiling.
abbrev pub slice : Option ℤ → ℕ → ℕ → ℕ
slice none floor income = income - floor
slice (some u) floor income = min income (pos_part u) - floor

-- After an open band nothing is left to tax.
abbrev pub tax_above : List Band → ℕ → ℕ → ℕ
tax_above [] floor income = 0
tax_above (b ∷ bs) floor income =
    let rest : ℕ = elim b.up_to_minor [ none ↦ 0 | some u ↦ tax_above bs (pos_part u) income ] in
    round_ppm (slice b.up_to_minor floor income) (pos_part b.rate_ppm) + rest

pub tax_above_none :
    (bs : List Band) (floor income : ℕ)
    → IsTable bs floor
    → income ≤ floor
    → tax_above bs floor income ≡ 0
tax_above_none [] floor income t h = refl
tax_above_none (b ∷ bs) floor income t h = elim (Option-cases b.up_to_minor) [
  | inl e ↦ ground (arith, e)
  | inr (u, e) ↦ ground (arith, e, tax_above_none bs (pos_part u) income)
]

band_loop-tax :
    (bs : List Band) (floor remaining tax : ℕ)
    → IsTable bs floor
    → band_loop bs (pos floor) (pos remaining) (pos tax)
      ≡ ok (pos (tax + tax_above bs floor (floor + remaining)))
unfolding band_loop min_ℤ ◌-ℤ◌ ◌+ℤ◌
band_loop-tax [] floor remaining tax t = ap (λ (n : ℕ). ok (pos n)) (omega arith)
band_loop-tax (b ∷ bs) floor remaining tax t = elim (Option-cases b.up_to_minor) [
  | inl e ↦ ground (arith, e, apply_rate_ppm_pos (pos remaining) b.rate_ppm)
  | inr (u, e) ↦ ground (
    arith,
    e,
    apply_rate_ppm_pos (min_ℤ (pos remaining) (u -ℤ pos floor)) b.rate_ppm,
    tax_above_none bs (pos_part u) (floor + remaining),
    band_loop-tax bs (pos_part u) (remaining - (pos_part u - floor))
        (tax + round_ppm (pos_part u - floor) (pos_part b.rate_ppm)),
  )
]

-- On a well-formed table the tax of an income is the sum, over the bands, of each band's rate on
-- the slice of the income within it; the code raises nothing.
pub compute_paye_annual_lem :
    (bands : List Band) (income : ℕ)
    → IsTable bands 0
    → compute_paye_annual (pos income) bands ≡ ok (pos (tax_above bands 0 income))
unfolding compute_paye_annual
compute_paye_annual_lem bands income t =
    ground (arith, band_loop-tax bands 0 income 0, tax_above_none bands 0 income)

tax_above_mono :
    (bs : List Band) (floor a b : ℕ) → a ≤ b → tax_above bs floor a ≤ tax_above bs floor b
tax_above_mono [] floor a b h = omega arith
tax_above_mono (band ∷ bs) floor a b h = elim (Option-cases band.up_to_minor) [
  | inl e ↦ ground (arith, e, round_ppm_mono (a - floor) (b - floor) (pos_part band.rate_ppm))
  | inr (u, e) ↦ ground (
    arith,
    e,
    round_ppm_mono (min a (pos_part u) - floor) (min b (pos_part u) - floor)
        (pos_part band.rate_ppm),
    tax_above_mono bs (pos_part u) a b,
  )
]

tax_above_lipschitz :
    (bs : List Band) (floor a b : ℕ)
    → IsTable bs floor
    → a ≤ b
    → tax_above bs floor b + max a floor ≤ tax_above bs floor a + max b floor
tax_above_lipschitz [] floor a b t h = omega arith
tax_above_lipschitz (band ∷ bs) floor a b t h = elim (Option-cases band.up_to_minor) [
  | inl e ↦ ground (
    arith,
    e,
    round_ppm_lipschitz (a - floor) ((b - floor) - (a - floor)) (pos_part band.rate_ppm),
  )
  | inr (u, e) ↦ ground (
    arith,
    e,
    round_ppm_lipschitz (min a (pos_part u) - floor)
        ((min b (pos_part u) - floor) - (min a (pos_part u) - floor)) (pos_part band.rate_ppm),
    tax_above_lipschitz bs (pos_part u) a b,
  )
]

-- More income is never less tax, and an extra minor unit of income is at most one of tax.
pub tax_marginal :
    (bands : List Band) (a d : ℕ)
    → IsTable bands 0
    → (tax_above bands 0 a ≤ tax_above bands 0 (a + d))
      × (tax_above bands 0 (a + d) ≤ tax_above bands 0 a + d)
tax_marginal bands a d t =
    ground (arith, tax_above_mono bands 0 a (a + d), tax_above_lipschitz bands 0 a (a + d))

pub tax-le-income : (bands : List Band) (a : ℕ) → IsTable bands 0 → tax_above bands 0 a ≤ a
tax-le-income bands a t = ground (arith, tax_marginal bands 0 a t, tax_above_none bands 0 0)

-- On a well-formed table the code taxes two incomes without raising, and the tax of the larger is
-- at least the tax of the smaller and exceeds it by no more than the incomes differ.
pub compute_paye_annual-marginal :
    (bands : List Band) (a d : ℕ)
    → IsTable bands 0
    → (t u : ℕ) × (compute_paye_annual (pos a) bands ≡ ok (pos t))
      × (compute_paye_annual (pos (a + d)) bands ≡ ok (pos u))
      × (t ≤ u)
      × (u ≤ t + d)
      × (t ≤ a)
compute_paye_annual-marginal bands a d t = (
  tax_above bands 0 a,
  tax_above bands 0 (a + d),
  compute_paye_annual_lem bands a t,
  compute_paye_annual_lem bands (a + d) t,
  (tax_marginal bands a d t).0,
  (tax_marginal bands a d t).1,
  tax-le-income bands a t,
)
