-- ===== src/Engine/Rules.antt =====
-- The data of a country's rule set: app/compliance/engine/rules.py. A frozenset of categories is its
-- test of membership. The approval record and the cited sources, which no calculation reads, are
-- left out.
use Prim.Native.String.{String}
use plutus_hr_system.Prelude.{ℕ, Bool, Option, List, ℤ}
use plutus_hr_system.Calendar.{Date}
use plutus_hr_system.Payroll.Statutory.{PayFrequency}

abbrev pub ppm : ℕ
ppm = 1_000_000

pub data EarningCategory : Type 0 where
  basic housing transport fixed_allowance variable other : EarningCategory

abbrev pub CategorySet : Type 0
CategorySet = EarningCategory → Bool

pub data ContributionKind : Type 0 where
  of_employee of_employer : ContributionKind

pub data Applicability : Type 0 where
  all local_staff expatriates : Applicability

pub data RoundingMode : Type 0 where
  half_up down up : RoundingMode

pub data TaxMethod : Type 0 where
  per_period cumulative_annual : TaxMethod

pub data BandRounding : Type 0 where
  each_band on_total : BandRounding

pub data EmployeeFact : Type 0 where
  annual_rent_paid : EmployeeFact

pub record Rounding : Type 0 where
  pub mode : RoundingMode
  pub increment_minor : ℤ

-- The three due rules, each with its days.
pub data DueRule : Type 0 where
  due_day_of_following_month : ℕ → DueRule
  due_days_after_period_end : ℕ → DueRule
  due_working_days_after_period_end : ℕ → DueRule

pub data ContributionBase : Type 0 where
  earnings_base : CategorySet → ContributionBase
  net_pay_base : ContributionBase

pub record ContributionRule : Type 0 where
  pub code : String
  pub name : String
  pub kind : ContributionKind
  pub authority : String
  pub base : ContributionBase
  pub rounding : Rounding
  pub due : DueRule
  pub source : String
  pub liability_account : String
  pub expense_account : Option String
  pub rate_ppm : Option ℤ
  pub flat_amount_minor : Option ℤ
  pub base_floor_minor : ℤ
  pub base_ceiling_minor : Option ℤ
  pub amount_floor_minor : Option ℤ
  pub amount_cap_minor : Option ℤ
  pub applies_to : Applicability
  pub tax_deduction_group : Option String

pub record TaxBand : Type 0 where
  pub up_to_minor : Option ℤ
  pub rate_ppm : ℤ

pub record DeductionCap : Type 0 where
  pub group : String
  pub cap_minor : Option ℤ

pub record AnnualFactRelief : Type 0 where
  pub code : String
  pub fact : EmployeeFact
  pub rate_ppm : ℤ
  pub cap_minor : Option ℤ
  pub rounding : Rounding
  pub source : String

pub record FixedCredit : Type 0 where
  pub code : String
  pub amount_minor : ℤ
  pub source : String

pub record FamilySharesCredit : Type 0 where
  pub code : String
  pub amount_per_half_share_minor : ℤ
  pub base_half_shares : ℤ
  pub max_half_shares : ℤ
  pub source : String

pub data TaxCredit : Type 0 where
  fixed : FixedCredit → TaxCredit
  family_shares : FamilySharesCredit → TaxCredit

pub record IncomeTaxRule : Type 0 where
  pub code : String
  pub name : String
  pub authority : String
  pub method : TaxMethod
  pub taxable_categories : CategorySet
  pub bands : List TaxBand
  pub band_rounding : BandRounding
  pub rounding : Rounding
  pub due : DueRule
  pub source : String
  pub liability_account : String
  pub deduction_caps : List DeductionCap
  pub reliefs : List AnnualFactRelief
  pub credits : List TaxCredit

pub record PayrollLevyRule : Type 0 where
  pub code : String
  pub name : String
  pub authority : String
  pub base_categories : CategorySet
  pub rate_ppm : ℤ
  pub rounding : Rounding
  pub due : DueRule
  pub source : String
  pub liability_account : String
  pub expense_account : String

pub record CountryRuleSet : Type 0 where
  pub id : String
  pub country : String
  pub currency : String
  pub effective_from : Date
  pub effective_to : Option Date
  pub tax_year_start_month : ℕ
  pub frequencies : PayFrequency → Bool
  pub income_tax : IncomeTaxRule
  pub contributions : List ContributionRule
  pub payroll_levies : List PayrollLevyRule
