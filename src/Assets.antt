-- ===== src/Assets.antt =====
-- Fixed assets: app/services/fixed_assets.py. The rows of assignments, transfers and revaluations, which
-- no operation on the books reads, are left out. An asset is found by its id.
pub mod Rows
pub mod Posted
pub mod Books
pub mod Kept
pub mod Reached
pub mod Drift
mod Tests
use Prim.Native.String.{String}
use plutus_hr_system.Prelude.{
  ℕ, Bool, true, false, not, ◌&&◌, Option, none, some, List, [], ◌∷◌, ◌++◌, if◌then◌else◌, ℤ, pos,
  pos_part, ◌+ℤ◌, ◌-ℤ◌, ◌//ℤ◌, ltb_ℤ, leb_ℤ, is_neg, is_pos, is_nonzero, min_ℤ, Result, ok, err,
  ◌>>=◌, ◌>>◌, raise_if, or_raise,
}
use plutus_hr_system.Errors.{
  ValueError, negative, not_positive, row_not_found, salvage_not_below_cost, assignee_required,
  depreciation_not_opening, depreciation_too_large, asset_not_available, asset_not_active,
  fully_depreciated, same_value,
}
use plutus_hr_system.Calendar.{Date}
use plutus_hr_system.Accounting.{PostingLine}
use plutus_hr_system.Ledger.{Source, Ledger, account_state, is_known, post_journal}
use plutus_hr_system.Ledger.Manual.{post_manual_journal_entry}
use plutus_hr_system.Tables.{find_row, change_row}
use plutus_hr_system.Assets.Rows.{
  FixedAssetStatus, is_active, FixedAssetCategory, AssetAssignmentStatus, FixedAsset,
  book_value_minor, Register,
}

abbrev pub debit : String → ℤ → PostingLine
debit account amount = record {
  account = account;
  debit_minor = amount;
  credit_minor = pos 0;
  description = none;
  employee_id = none;
  department_id = none;
  pay_run_id = none;
}

abbrev pub credit : String → ℤ → PostingLine
credit account amount = record {
  account = account;
  debit_minor = pos 0;
  credit_minor = amount;
  description = none;
  employee_id = none;
  department_id = none;
  pay_run_id = none;
}

-- `_REQUIRES_ASSIGNEE`
abbrev pub requires_assignee : Option FixedAssetCategory → Bool
requires_assignee (some FixedAssetCategory.laptop) = true
requires_assignee (some FixedAssetCategory.phone) = true
requires_assignee (some FixedAssetCategory.vehicle) = true
requires_assignee _ = false

abbrev pub is_given {ℓ} : {A : Type ℓ} → Option A → Bool
is_given none = false
is_given (some _) = true

-- `assign_fixed_asset`
unfoldable pub assign_fixed_asset : ℕ → FixedAsset → Result ValueError FixedAsset
assign_fixed_asset employee asset = elim asset.assignment_status [
  | none ↦ err asset_not_available
  | some status ↦ elim status [
    | AssetAssignmentStatus.available ↦ ok (record asset {
      assignment_status = some AssetAssignmentStatus.assigned;
      assigned_employee_id = some employee;
    })
    | AssetAssignmentStatus.assigned ↦ err asset_not_available
    | AssetAssignmentStatus.maintenance ↦ err asset_not_available
  ]
]

abbrev pub assigned_to : Option ℕ → FixedAsset → Result ValueError FixedAsset
assigned_to none asset = ok asset
assigned_to (some employee) asset = assign_fixed_asset employee asset

-- What is entered of a new asset.
pub record AssetCreate : Type 0 where
  pub cost_minor : ℤ
  pub salvage_value_minor : ℤ
  pub useful_life_months : ℤ
  pub category : Option FixedAssetCategory
  pub assigned_employee_id : Option ℕ
  pub opening_balance : Bool
  pub opening_accumulated_depreciation_minor : ℤ
  pub cash_account_code : String

unfoldable pub check_asset : AssetCreate → Result ValueError (Unit {0})
check_asset body = do
  raise_if (not (is_pos body.cost_minor)) (not_positive "cost_minor")
  raise_if (is_neg body.salvage_value_minor) (negative "salvage_value_minor")
  raise_if (leb_ℤ body.cost_minor body.salvage_value_minor) salvage_not_below_cost
  raise_if (not (is_pos body.useful_life_months)) (not_positive "useful_life_months")
  raise_if (requires_assignee body.category && not (is_given body.assigned_employee_id))
      assignee_required
  let built_up = body.opening_accumulated_depreciation_minor
  raise_if (is_neg built_up) (negative "opening_accumulated_depreciation_minor")
  raise_if (is_pos built_up && not body.opening_balance) depreciation_not_opening
  raise_if (ltb_ℤ (body.cost_minor -ℤ body.salvage_value_minor) built_up) depreciation_too_large

abbrev pub new_asset : ℕ → AssetCreate → FixedAsset
new_asset id body = record {
  id = id;
  cost_minor = body.cost_minor;
  salvage_value_minor = body.salvage_value_minor;
  useful_life_months = body.useful_life_months;
  accumulated_depreciation_minor = body.opening_accumulated_depreciation_minor;
  status = FixedAssetStatus.active;
  disposal_proceeds_minor = none;
  category = body.category;
  assignment_status = if is_given body.category then some AssetAssignmentStatus.available else none;
  assigned_employee_id = none;
}

abbrev pub purchase_lines : AssetCreate → List PostingLine
purchase_lines body =
    debit "fixed_assets" body.cost_minor ∷ credit body.cash_account_code body.cost_minor ∷ []

-- A line with nothing on it is left out.
abbrev pub credit_if_pos : String → ℤ → List PostingLine
credit_if_pos account amount = if is_pos amount then credit account amount ∷ [] else []

abbrev pub debit_if_pos : String → ℤ → List PostingLine
debit_if_pos account amount = if is_pos amount then debit account amount ∷ [] else []

abbrev pub opening_lines : AssetCreate → List PostingLine
opening_lines body =
    let built_up = body.opening_accumulated_depreciation_minor in
    debit "fixed_assets" body.cost_minor ∷ credit_if_pos "accumulated_depreciation" built_up
    ++ credit_if_pos "opening_balance_equity" (body.cost_minor -ℤ built_up)

-- `seed_opening_balance_equity_account`
abbrev pub with_opening_account : Ledger → Ledger
with_opening_account ledger =
    if is_known (account_state "opening_balance_equity" ledger.chart)
    then ledger
    else record ledger { chart = ("opening_balance_equity", true) ∷ ledger.chart }

abbrev pub opening_source : ℕ → Source
opening_source id = record {
  source_type = "opening_balance";
  source_id = some id;
  source_event = "fixed_asset.opening_balance";
}

-- The journal of a purchase, or of an asset that was owned before.
unfoldable pub post_acquisition : ℕ → AssetCreate → Date → Ledger → Result ValueError Ledger
post_acquisition id body today ledger =
    if body.opening_balance
    then post_journal (with_opening_account ledger) today (opening_source id) true
        (opening_lines body)
    else post_manual_journal_entry ledger today (purchase_lines body)

unfoldable pub register_fixed_asset : ℕ → AssetCreate → Date → Register → Result ValueError Register
register_fixed_asset id body today books = do
  check_asset body
  ledger ← post_acquisition id body today books.ledger
  asset ← assigned_to body.assigned_employee_id (new_asset id body)
  ok (record { assets = asset ∷ books.assets; ledger = ledger })

abbrev pub id_of : FixedAsset → ℕ
id_of asset = asset.id

abbrev pub depreciation_lines : ℤ → List PostingLine
depreciation_lines amount =
    debit "depreciation_expense" amount ∷ credit "accumulated_depreciation" amount ∷ []

abbrev pub depreciation_source : ℕ → String → Source
depreciation_source id event = record {
  source_type = "fixed_asset";
  source_id = some id;
  source_event = event;
}

abbrev pub remaining_minor : FixedAsset → ℤ
remaining_minor asset =
    asset.cost_minor -ℤ asset.salvage_value_minor -ℤ asset.accumulated_depreciation_minor

-- The amount of one month.
abbrev pub monthly_amount : FixedAsset → ℤ
monthly_amount asset =
    (asset.cost_minor -ℤ asset.salvage_value_minor) //ℤ pos_part asset.useful_life_months

abbrev pub depreciated_by : ℤ → FixedAsset → FixedAsset
depreciated_by amount asset = record asset {
  accumulated_depreciation_minor = asset.accumulated_depreciation_minor +ℤ amount;
}

-- `event` is asset.depreciated with the number of the period, which the query for the asset's earlier
-- journals counts.
unfoldable pub record_depreciation : ℕ → String → Date → Register → Result ValueError Register
record_depreciation id event today books = do
  asset ← or_raise (find_row id_of id books.assets) row_not_found
  raise_if (not (is_active asset.status)) asset_not_active
  raise_if (not (is_pos (remaining_minor asset))) fully_depreciated
  let amount = min_ℤ (monthly_amount asset) (remaining_minor asset)
  ledger ←
      post_journal books.ledger today (depreciation_source id event) true
        (depreciation_lines amount)
  ok (record { assets = change_row id_of id (depreciated_by amount) books.assets; ledger = ledger })

-- The gain or the loss balances the entry.
abbrev pub gain_or_loss : ℤ → List PostingLine
gain_or_loss shortfall =
    if is_pos shortfall
    then debit "disposal_gain_loss" shortfall ∷ []
    else credit_if_pos "disposal_gain_loss" (pos 0 -ℤ shortfall)

abbrev pub disposal_lines : FixedAsset → ℤ → String → List PostingLine
disposal_lines asset proceeds cash =
    credit "fixed_assets" asset.cost_minor
      ∷ debit_if_pos "accumulated_depreciation" asset.accumulated_depreciation_minor
    ++ debit_if_pos cash proceeds
    ++ gain_or_loss (book_value_minor asset -ℤ proceeds)

abbrev pub disposed_for : ℤ → FixedAsset → FixedAsset
disposed_for proceeds asset = record asset {
  status = FixedAssetStatus.disposed;
  disposal_proceeds_minor = some proceeds;
  assignment_status = none;
  assigned_employee_id = none;
}

unfoldable pub dispose_fixed_asset : ℕ → ℤ → String → Date → Register → Result ValueError Register
dispose_fixed_asset id proceeds cash today books = do
  asset ← or_raise (find_row id_of id books.assets) row_not_found
  raise_if (not (is_active asset.status)) asset_not_active
  raise_if (is_neg proceeds) (negative "proceeds_minor")
  ledger ← post_manual_journal_entry books.ledger today (disposal_lines asset proceeds cash)
  ok (record { assets = change_row id_of id (disposed_for proceeds) books.assets; ledger = ledger })

abbrev pub revaluation_lines : ℤ → List PostingLine
revaluation_lines difference =
    if is_pos difference
    then debit "fixed_assets" difference ∷ credit "revaluation_surplus" difference ∷ []
    else debit "revaluation_loss" (pos 0 -ℤ difference)
      ∷ credit "fixed_assets" (pos 0 -ℤ difference)
      ∷ []

abbrev pub revalued_at : ℤ → FixedAsset → FixedAsset
revalued_at value asset = record asset {
  cost_minor = value;
  accumulated_depreciation_minor = pos 0;
}

unfoldable pub revalue_fixed_asset : ℕ → ℤ → Date → Register → Result ValueError Register
revalue_fixed_asset id new_value today books = do
  asset ← or_raise (find_row id_of id books.assets) row_not_found
  raise_if (not (is_active asset.status)) asset_not_active
  raise_if (not (is_pos new_value)) (not_positive "new_value_minor")
  let difference = new_value -ℤ book_value_minor asset
  raise_if (not (is_nonzero difference)) same_value
  ledger ← post_manual_journal_entry books.ledger today (revaluation_lines difference)
  ok (record { assets = change_row id_of id (revalued_at new_value) books.assets; ledger = ledger })
