-- ===== src/Assets/Kept.antt =====
-- What the operations of app/services/fixed_assets.py keep between the register and the ledger.
use Prim.Native.String.{String}
use plutus_hr_system.Prelude.{
  ℕ, ◌≡◌, refl, ◌∙◌, inl, true, not, Option, none, some, arith, ℤ, ◌+ℤ◌, ◌-ℤ◌, is_neg, is_pos,
  is_nonzero, min_ℤ, int_laws, raise_if, or_raise, Ensures, Ensures-bind, or_raise-some,
  Ensures-skip, Ensures-raise_if,
}
use plutus_hr_system.Errors.{
  negative, not_positive, row_not_found, asset_not_active, fully_depreciated, same_value,
}
use plutus_hr_system.Calendar.{Date}
use plutus_hr_system.Ledger.{Ledger, post_journal}
use plutus_hr_system.Ledger.Totals.{Writes, post_journal-Writes}
use plutus_hr_system.Ledger.Manual.{post_manual_journal_entry, post_manual_journal_entry-Writes}
use plutus_hr_system.Tables.{total_where, find_row, share, All-change_found, All-find_row}
use plutus_hr_system.Assets.Rows.{
  is_active, AssetAssignmentStatus, FixedAsset, book_value_minor, Register,
}
use plutus_hr_system.Assets.{
  assign_fixed_asset, assigned_to, AssetCreate, check_asset, new_asset, post_acquisition,
  register_fixed_asset, id_of, depreciation_lines, depreciation_source, remaining_minor,
  monthly_amount, depreciated_by, record_depreciation, disposal_lines, disposed_for,
  dispose_fixed_asset, revaluation_lines, revalued_at, revalue_fixed_asset,
}
use plutus_hr_system.Assets.Posted.{
  carried_on, IsElsewhere, Writes-carried, carried-depreciation_lines, carried-revaluation_lines,
  carried-disposal_lines, post_acquisition-carried,
}
use plutus_hr_system.Assets.Books.{
  is_carried, book_value, IsAsset, IsBooked, changed_agrees, amount_bounds, depreciated-IsAsset,
  check_asset-IsAsset,
}

-- Who an asset is given to changes nothing of what it is worth.
record SameWorth (asset given_out : FixedAsset) : Type 0 where
  still_asset : IsAsset asset → IsAsset given_out
  same_share : share is_carried book_value given_out ≡ share is_carried book_value asset

assign-SameWorth :
    (employee : ℕ) (asset : FixedAsset) (status : Option AssetAssignmentStatus)
    → asset.assignment_status ≡ status
    → Ensures (SameWorth asset) (assign_fixed_asset employee asset)
unfolding assign_fixed_asset
assign-SameWorth employee asset none e = rw e tt
assign-SameWorth employee asset (some AssetAssignmentStatus.available) e = rw e (record {
  still_asset = λ v. record {
    cost_from = v.cost_from;
    salvage_from = v.salvage_from;
    depreciation_from = v.depreciation_from;
    above_salvage = v.above_salvage;
  };
  same_share = refl;
})
assign-SameWorth employee asset (some AssetAssignmentStatus.assigned) e = rw e tt
assign-SameWorth employee asset (some AssetAssignmentStatus.maintenance) e = rw e tt

assigned_to-SameWorth :
    (employee : Option ℕ) (asset : FixedAsset)
    → Ensures (SameWorth asset) (assigned_to employee asset)
assigned_to-SameWorth none asset = record { still_asset = λ v. v; same_share = refl }
assigned_to-SameWorth (some employee) asset =
    assign-SameWorth employee asset asset.assignment_status refl

module _ (base : Ledger) where
  pub register_fixed_asset-IsBooked :
      (id : ℕ) (body : AssetCreate) (today : Date) (books : Register)
      → IsElsewhere body.cash_account_code
      → IsBooked base books
      → Ensures (IsBooked base) (register_fixed_asset id body today books)
  unfolding register_fixed_asset total_where
  register_fixed_asset-IsBooked id body today books cash b =
      Ensures-bind _ (IsBooked base) (check_asset body) _ (check_asset-IsAsset id body)
        λ u (valid, opening).
          Ensures-bind
            (λ (next : Ledger).
              carried_on next
              ≡ carried_on books.ledger
                +ℤ (body.cost_minor -ℤ body.opening_accumulated_depreciation_minor))
            (IsBooked base) (post_acquisition id body today books.ledger) _
            (post_acquisition-carried id body today books.ledger cash valid.depreciation_from
              opening)
            λ (next : Ledger) moved.
              Ensures-bind (SameWorth (new_asset id body)) (IsBooked base)
                (assigned_to body.assigned_employee_id (new_asset id body)) _
                (assigned_to-SameWorth body.assigned_employee_id (new_asset id body))
                λ (asset : FixedAsset) same. record {
                  valid = (same.still_asset valid, b.valid);
                  agrees = rw (same.same_share, moved, b.agrees) (omega int_laws);
                }

  pub record_depreciation-IsBooked :
      (id : ℕ) (event : String) (today : Date) (books : Register)
      → IsBooked base books
      → Ensures (IsBooked base) (record_depreciation id event today books)
  unfolding record_depreciation
  record_depreciation-IsBooked id event today books b =
      Ensures-bind (λ r. find_row id_of id books.assets ≡ some r) (IsBooked base)
        (or_raise (find_row id_of id books.assets) row_not_found) _
        (or_raise-some (find_row id_of id books.assets) row_not_found)
        λ (asset : FixedAsset) found.
          let amount = min_ℤ (monthly_amount asset) (remaining_minor asset) in
          let v : IsAsset asset = All-find_row IsAsset id_of id asset books.assets found b.valid in
          Ensures-raise_if (IsBooked base) (not (is_active asset.status)) asset_not_active _
            λ active.
              Ensures-raise_if (IsBooked base) (not (is_pos (remaining_minor asset)))
                fully_depreciated _
                λ remains.
                  let bounds = amount_bounds asset v (ground arith) in
                  let on_books : is_active asset.status ≡ true = ground arith in
                  Ensures-bind (Writes (depreciation_lines amount) books.ledger) (IsBooked base)
                    (post_journal books.ledger today (depreciation_source id event) true
                      (depreciation_lines amount))
                    _
                    (post_journal-Writes books.ledger today (depreciation_source id event) true
                      (depreciation_lines amount))
                    λ (next : Ledger) w. record {
                      valid =
                          All-change_found IsAsset id_of id (depreciated_by amount) asset
                            books.assets found
                            (depreciated-IsAsset asset amount v bounds.0 bounds.1) b.valid;
                      agrees =
                          changed_agrees base id asset (depreciated_by amount) books next b found (
                            Writes-carried w
                            ∙ rw (carried-depreciation_lines amount, on_books) (omega int_laws));
                    }

  pub dispose_fixed_asset-IsBooked :
      (id : ℕ) (proceeds : ℤ) (cash : String) (today : Date) (books : Register)
      → IsElsewhere cash
      → IsBooked base books
      → Ensures (IsBooked base) (dispose_fixed_asset id proceeds cash today books)
  unfolding dispose_fixed_asset
  dispose_fixed_asset-IsBooked id proceeds cash today books h b =
      Ensures-bind (λ r. find_row id_of id books.assets ≡ some r) (IsBooked base)
        (or_raise (find_row id_of id books.assets) row_not_found) _
        (or_raise-some (find_row id_of id books.assets) row_not_found)
        λ (asset : FixedAsset) found.
          let v : IsAsset asset = All-find_row IsAsset id_of id asset books.assets found b.valid in
          Ensures-raise_if (IsBooked base) (not (is_active asset.status)) asset_not_active _
            λ active.
              let on_books : is_active asset.status ≡ true = ground arith in
              Ensures-skip (IsBooked base) (raise_if (is_neg proceeds) (negative "proceeds_minor"))
                _
                λ from.
                  Ensures-bind (Writes (disposal_lines asset proceeds cash) books.ledger)
                    (IsBooked base)
                    (post_manual_journal_entry books.ledger today
                      (disposal_lines asset proceeds cash))
                    _
                    (post_manual_journal_entry-Writes books.ledger today
                      (disposal_lines asset proceeds cash))
                    λ (next : Ledger) w. record {
                      valid =
                          All-change_found IsAsset id_of id (disposed_for proceeds) asset
                            books.assets found
                            (record {
                              cost_from = v.cost_from;
                              salvage_from = v.salvage_from;
                              depreciation_from = v.depreciation_from;
                              above_salvage = v.above_salvage;
                            })
                            b.valid;
                      agrees =
                          changed_agrees base id asset (disposed_for proceeds) books next b found (
                            Writes-carried w
                            ∙ rw
                                (
                                  carried-disposal_lines asset proceeds cash h v.depreciation_from,
                                  on_books,
                                )
                                (omega int_laws));
                    }

  pub revalue_fixed_asset-IsBooked :
      (id : ℕ) (new_value : ℤ) (today : Date) (books : Register)
      → IsBooked base books
      → Ensures (IsBooked base) (revalue_fixed_asset id new_value today books)
  unfolding revalue_fixed_asset
  revalue_fixed_asset-IsBooked id new_value today books b =
      Ensures-bind (λ r. find_row id_of id books.assets ≡ some r) (IsBooked base)
        (or_raise (find_row id_of id books.assets) row_not_found) _
        (or_raise-some (find_row id_of id books.assets) row_not_found)
        λ (asset : FixedAsset) found.
          let difference = new_value -ℤ book_value_minor asset in
          let v : IsAsset asset = All-find_row IsAsset id_of id asset books.assets found b.valid in
          Ensures-raise_if (IsBooked base) (not (is_active asset.status)) asset_not_active _
            λ active.
              let on_books : is_active asset.status ≡ true = ground arith in
              Ensures-raise_if (IsBooked base) (not (is_pos new_value))
                (not_positive "new_value_minor") _
                λ value_pos.
                  Ensures-skip (IsBooked base) (raise_if (not (is_nonzero difference)) same_value) _
                    λ differs.
                      Ensures-bind (Writes (revaluation_lines difference) books.ledger)
                        (IsBooked base)
                        (post_manual_journal_entry books.ledger today
                          (revaluation_lines difference))
                        _
                        (post_manual_journal_entry-Writes books.ledger today
                          (revaluation_lines difference))
                        λ (next : Ledger) w. record {
                          valid =
                              All-change_found IsAsset id_of id (revalued_at new_value) asset
                                books.assets found
                                (record {
                                  cost_from = ground arith;
                                  salvage_from = v.salvage_from;
                                  depreciation_from = omega int_laws;
                                  above_salvage = inl refl;
                                })
                                b.valid;
                          agrees =
                              changed_agrees base id asset (revalued_at new_value) books next b
                                found
                                (Writes-carried w
                                  ∙ rw (carried-revaluation_lines difference, on_books)
                                      (omega int_laws));
                        }
