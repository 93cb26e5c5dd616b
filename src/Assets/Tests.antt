-- ===== src/Assets/Tests.antt =====
-- Fixed assets on concrete books.
use Prim.Native.String.{String}
use plutus_hr_system.Prelude.{
  ◌≡◌, refl, Bool, true, none, List, [], ◌∷◌, pos, negsuc, ◌+ℤ◌, ◌-ℤ◌, ◌//ℤ◌, min_ℤ, Result, ok,
  err, ◌>>=◌, Ensures,
}
use plutus_hr_system.Calendar.{Date}
use plutus_hr_system.Accounting.{assert_balanced, check_lines}
use plutus_hr_system.Ledger.{
  Ledger, require_open_period, account_state, require_active_accounts, is_posted, written,
  post_journal,
}
use plutus_hr_system.Ledger.Totals.{total_on}
use plutus_hr_system.Ledger.Manual.{check_manual_lines, post_manual_journal_entry}
use plutus_hr_system.Tables.{find_row, change_row}
use plutus_hr_system.Assets.Rows.{Register}
use plutus_hr_system.Assets.{
  AssetCreate, new_asset, check_asset, post_acquisition, register_fixed_asset, record_depreciation,
  dispose_fixed_asset, revalue_fixed_asset,
}
use plutus_hr_system.Assets.Books.{IsBooked}
use plutus_hr_system.Assets.Drift.{Drifts, revalue_fixed_asset-Drifts}
use plutus_hr_system.Assets.Reached.{opened, registered, depreciated, Reached-IsBooked}

abbrev today : Date
today = record { year = 2026; month = 7; day = 1 }

abbrev chart : List (String × Bool)
chart =
    ("fixed_assets", true)
    ∷ ("accumulated_depreciation", true)
    ∷ ("depreciation_expense", true)
    ∷ ("cash", true)
    ∷ ("revaluation_surplus", true)
    ∷ ("disposal_gain_loss", true)
    ∷ []

abbrev empty_ledger : Ledger
empty_ledger = record { journals = []; chart = chart; lock_date = none }

abbrev empty_books : Register
empty_books = record { assets = []; ledger = empty_ledger }

-- A van of 1000 with 400 built up before.
abbrev van : AssetCreate
van = record {
  cost_minor = pos 1000;
  salvage_value_minor = pos 100;
  useful_life_months = pos 10;
  category = none;
  assigned_employee_id = none;
  opening_balance = true;
  opening_accumulated_depreciation_minor = pos 400;
  cash_account_code = "cash";
}

abbrev value_or {ℓ} : {E : Type 0} {A : Type ℓ} → A → Result E A → A
value_or default (ok a) = a
value_or default (err _) = default

abbrev with_van : Register
with_van = value_or empty_books (register_fixed_asset 1 van today empty_books)

abbrev after_a_month : Register
after_a_month = value_or empty_books (record_depreciation 1 "asset.depreciated:1" today with_van)

van_registered : register_fixed_asset 1 van today empty_books ≡ ok with_van
unfolding register_fixed_asset check_asset post_acquisition post_journal assert_balanced check_lines
    require_open_period account_state require_active_accounts is_posted written ◌+ℤ◌ ◌-ℤ◌
van_registered = refl

month_recorded : record_depreciation 1 "asset.depreciated:1" today with_van ≡ ok after_a_month
unfolding record_depreciation find_row change_row register_fixed_asset check_asset post_acquisition
    post_journal assert_balanced check_lines require_open_period account_state
    require_active_accounts is_posted written ◌+ℤ◌ ◌-ℤ◌ ◌//ℤ◌ min_ℤ
month_recorded = refl

Reached-IsBooked_example : IsBooked empty_ledger after_a_month
Reached-IsBooked_example = Reached-IsBooked empty_ledger after_a_month (
    depreciated 1 "asset.depreciated:1" today with_van after_a_month
      (registered 1 van today empty_books with_van (refl, refl) opened van_registered)
      month_recorded)

-- The van, revalued and then disposed of, leaves what had built up on both accounts.
revalued_disposal_test :
    (let end = value_or empty_books (
        revalue_fixed_asset 1 (pos 900) today with_van
        >>= dispose_fixed_asset 1 (pos 0) "cash" today) in
      total_on "fixed_assets" end.ledger.journals
      ∷ total_on "accumulated_depreciation" end.ledger.journals
      ∷ [])
    ≡ pos 400 ∷ negsuc 399 ∷ []
unfolding revalue_fixed_asset dispose_fixed_asset post_manual_journal_entry check_manual_lines
    find_row change_row register_fixed_asset check_asset post_acquisition post_journal
    assert_balanced check_lines require_open_period account_state require_active_accounts is_posted
    written ◌+ℤ◌ ◌-ℤ◌
revalued_disposal_test = refl

revalue_fixed_asset-Drifts_example :
    Ensures (Drifts (pos 400) with_van) (revalue_fixed_asset 1 (pos 900) today with_van)
unfolding find_row register_fixed_asset check_asset post_acquisition post_journal assert_balanced
    check_lines require_open_period account_state require_active_accounts is_posted written ◌+ℤ◌
    ◌-ℤ◌
revalue_fixed_asset-Drifts_example =
    revalue_fixed_asset-Drifts 1 (pos 900) today with_van (new_asset 1 van) refl
