-- ===== src/Assets/Rows.antt =====
-- The rows of app/models/fixed_asset.py, with the ledger that their writers post to.
use plutus_hr_system.Prelude.{ℕ, Bool, true, false, Option, List, ℤ, ◌-ℤ◌}
use plutus_hr_system.Ledger.{Ledger}

pub data FixedAssetStatus : Type 0 where
  active disposed : FixedAssetStatus

abbrev pub is_active : FixedAssetStatus → Bool
is_active FixedAssetStatus.active = true
is_active FixedAssetStatus.disposed = false

pub data FixedAssetCategory : Type 0 where
  laptop phone vehicle furniture other : FixedAssetCategory

pub data AssetAssignmentStatus : Type 0 where
  available assigned maintenance : AssetAssignmentStatus

pub record FixedAsset : Type 0 where
  pub id : ℕ
  pub cost_minor : ℤ
  pub salvage_value_minor : ℤ
  pub useful_life_months : ℤ
  pub accumulated_depreciation_minor : ℤ
  pub status : FixedAssetStatus
  pub disposal_proceeds_minor : Option ℤ
  pub category : Option FixedAssetCategory
  pub assignment_status : Option AssetAssignmentStatus
  pub assigned_employee_id : Option ℕ

abbrev pub book_value_minor : FixedAsset → ℤ
book_value_minor asset = asset.cost_minor -ℤ asset.accumulated_depreciation_minor

-- The assets of one organisation and its ledger.
pub record Register : Type 0 where
  pub assets : List FixedAsset
  pub ledger : Ledger
