-- ===== src/Compliance.antt =====
-- The versioned Nigerian rules (app/compliance/models.py) and the 2026 rule version
-- (app/compliance/versions/ng_2026_1.py). Identifiers, authorities and effective dates, which no
-- calculation reads, are left out.
use Prim.Native.String.{String}
use text.Mathlib.Text.{◌==◌ as str_eq}
use plutus_hr_system.Prelude.{
  ℕ, Option, none, some, List, [], ◌∷◌, if◌then◌else◌, ℤ, pos, Result, ok, err,
}
use plutus_hr_system.Errors.{ValueError, unknown_wht_category}

pub data BorneBy : Type 0 where
  employee employer both : BorneBy

pub record Band : Type 0 where
  pub up_to_minor : Option ℤ
  pub rate_ppm : ℤ

pub record PayeRule : Type 0 where
  pub bands : List Band
  pub tax_free_threshold_minor : ℤ
  pub rent_relief_rate_ppm : ℤ
  pub rent_relief_cap_minor : ℤ
  pub due_day_of_following_month : ℕ

pub record PensionRule : Type 0 where
  pub employee_rate_ppm : ℤ
  pub employer_rate_ppm : ℤ
  pub due_working_days_after_payment : ℤ

pub record NhfRule : Type 0 where
  pub rate_ppm : ℤ
  pub due_days_after_payment : ℕ

pub record NsitfRule : Type 0 where
  pub rate_ppm : ℤ
  pub due_day_of_following_month : ℕ

pub record ItfRule : Type 0 where
  pub rate_ppm : ℤ
  pub due_month : ℕ
  pub due_day : ℕ

pub record WhtCategoryRule : Type 0 where
  pub category : String
  pub rate_ppm : ℤ

pub record WhtRule : Type 0 where
  pub categories : List WhtCategoryRule
  pub due_day_of_following_month : ℕ

pub record RuleVersion : Type 0 where
  pub paye : PayeRule
  pub pension : PensionRule
  pub nhf : NhfRule
  pub nsitf : NsitfRule
  pub itf : ItfRule
  pub wht : WhtRule

-- The loop of `WhtRule.rate_for`: the first entry of the category.
rate_in : String → List WhtCategoryRule → Result ValueError ℤ
rate_in category [] = err (unknown_wht_category category)
rate_in category (entry ∷ rest) =
    if str_eq entry.category category then ok entry.rate_ppm else rate_in category rest

unfoldable pub rate_for : WhtRule → String → Result ValueError ℤ
unfolding rate_in
rate_for rule category = rate_in category rule.categories

-- `NG_2026_1`
abbrev pub ng_2026_1 : RuleVersion
ng_2026_1 = record {
  paye = record {
    bands =
        record { up_to_minor = some (pos 80_000_000); rate_ppm = pos 0 }
        ∷ record { up_to_minor = some (pos 300_000_000); rate_ppm = pos 150_000 }
        ∷ record { up_to_minor = some (pos 1_200_000_000); rate_ppm = pos 180_000 }
        ∷ record { up_to_minor = some (pos 2_500_000_000); rate_ppm = pos 210_000 }
        ∷ record { up_to_minor = some (pos 5_000_000_000); rate_ppm = pos 230_000 }
        ∷ record { up_to_minor = none; rate_ppm = pos 250_000 }
        ∷ [];
    tax_free_threshold_minor = pos 80_000_000;
    rent_relief_rate_ppm = pos 200_000;
    rent_relief_cap_minor = pos 50_000_000;
    due_day_of_following_month = 10;
  };
  pension = record {
    employee_rate_ppm = pos 80_000;
    employer_rate_ppm = pos 100_000;
    due_working_days_after_payment = pos 7;
  };
  nhf = record { rate_ppm = pos 25_000; due_days_after_payment = 30 };
  nsitf = record { rate_ppm = pos 10_000; due_day_of_following_month = 16 };
  itf = record { rate_ppm = pos 10_000; due_month = 4; due_day = 1 };
  wht = record {
    categories =
        record { category = "goods"; rate_ppm = pos 50_000 }
        ∷ record { category = "services"; rate_ppm = pos 100_000 }
        ∷ [];
    due_day_of_following_month = 21;
  };
}
