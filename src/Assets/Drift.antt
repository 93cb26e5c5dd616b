-- ===== src/Assets/Drift.antt =====
-- What a revaluation of app/services/fixed_assets.py does to each of the two accounts.
use plutus_hr_system.Prelude.{
  ℕ, ◌≡◌, true, not, some, arith, ℤ, pos, ◌+ℤ◌, ◌-ℤ◌, is_pos, is_nonzero, int_laws, raise_if,
  Ensures, Ensures-bind, Ensures-skip, Ensures-raise_if,
}
use plutus_hr_system.Errors.{not_positive, asset_not_active, same_value}
use plutus_hr_system.Calendar.{Date}
use plutus_hr_system.Accounting.Balance.{effect}
use plutus_hr_system.Ledger.{Ledger}
use plutus_hr_system.Ledger.Totals.{total_on, Writes}
use plutus_hr_system.Ledger.Manual.{post_manual_journal_entry, post_manual_journal_entry-Writes}
use plutus_hr_system.Tables.{total_where, find_row, total_where-change_row}
use plutus_hr_system.Assets.Rows.{is_active, FixedAsset, book_value_minor, Register}
use plutus_hr_system.Assets.{id_of, revaluation_lines, revalued_at, revalue_fixed_asset}
use plutus_hr_system.Assets.Books.{is_carried}

abbrev cost_of : FixedAsset → ℤ
cost_of asset = asset.cost_minor

abbrev depreciation_of : FixedAsset → ℤ
depreciation_of asset = asset.accumulated_depreciation_minor

-- What the fixed assets account has beyond the costs of the active assets, and the accumulated
-- depreciation account beyond their depreciation, which it holds as a credit.
abbrev pub beyond_costs : Register → ℤ
beyond_costs books =
    total_on "fixed_assets" books.ledger.journals -ℤ total_where is_carried cost_of books.assets

abbrev pub beyond_depreciation : Register → ℤ
beyond_depreciation books =
    total_on "accumulated_depreciation" books.ledger.journals
    +ℤ total_where is_carried depreciation_of books.assets

abbrev pub Drifts : ℤ → Register → Register → Type 0
Drifts amount books next =
    (beyond_costs next ≡ beyond_costs books +ℤ amount)
    × (beyond_depreciation next ≡ beyond_depreciation books -ℤ amount)

revalued_costs :
    (difference : ℤ) → effect "fixed_assets" (revaluation_lines difference) ≡ difference
revalued_costs difference = grind int_laws

revalued_depreciation :
    (difference : ℤ) → effect "accumulated_depreciation" (revaluation_lines difference) ≡ pos 0
revalued_depreciation difference = grind int_laws

-- A revaluation takes the asset's accumulated depreciation off its row, but not off the ledger: if it
-- does not raise, the fixed assets account is by that amount further above the costs of the active
-- assets than before, and the accumulated depreciation account by as much further from their depreciation.
pub revalue_fixed_asset-Drifts :
    (id : ℕ) (new_value : ℤ) (today : Date) (books : Register) (asset : FixedAsset)
    → find_row id_of id books.assets ≡ some asset
    → Ensures
        (Drifts asset.accumulated_depreciation_minor books)
        (revalue_fixed_asset id new_value today books)
unfolding revalue_fixed_asset
revalue_fixed_asset-Drifts id new_value today books asset found =
    let Q : Register → Type 0 = Drifts asset.accumulated_depreciation_minor books in
    let difference = new_value -ℤ book_value_minor asset in
    rw found (
      Ensures-raise_if Q (not (is_active asset.status)) asset_not_active _ λ active.
        let on_books : is_active asset.status ≡ true = ground arith in
        Ensures-skip Q (raise_if (not (is_pos new_value)) (not_positive "new_value_minor")) _
          λ value_pos.
            Ensures-skip Q (raise_if (not (is_nonzero difference)) same_value) _ λ differs.
              Ensures-bind (Writes (revaluation_lines difference) books.ledger) Q
                (post_manual_journal_entry books.ledger today (revaluation_lines difference)) _
                (post_manual_journal_entry-Writes books.ledger today (revaluation_lines difference))
                λ (next : Ledger) w. (
                  rw
                      (
                        w.on_account "fixed_assets",
                        revalued_costs difference,
                        total_where-change_row id_of id (revalued_at new_value) is_carried cost_of
                            asset books.assets found,
                        on_books,
                      )
                      (omega int_laws),
                  rw
                      (
                        w.on_account "accumulated_depreciation",
                        revalued_depreciation difference,
                        total_where-change_row id_of id (revalued_at new_value) is_carried
                            depreciation_of asset books.assets found,
                        on_books,
                      )
                      (omega int_laws),
                ))
