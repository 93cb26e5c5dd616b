-- ===== src/Assets/Books.antt =====
-- The register of app/services/fixed_assets.py against the ledger.
use plutus_hr_system.Prelude.{
  ℕ, ◌≡◌, refl, ◌⊎◌, inr, Bool, true, false, not, ◌&&◌, some, arith, ℤ, pos, negsuc, pos_part, ◌+ℤ◌,
  ◌-ℤ◌, ◌//ℤ◌, ◌≤ℤ◌, leb_ℤ, is_neg, is_pos, min_ℤ, int_laws, int_bounds, raise_if, Ensures,
  Ensures-skip, Ensures-raise_if, All,
}
use plutus_hr_system.Errors.{
  ValueError, negative, not_positive, salvage_not_below_cost, assignee_required,
  depreciation_not_opening, depreciation_too_large,
}
use plutus_hr_system.Ledger.{Ledger}
use plutus_hr_system.Tables.{total_where, find_row, change_row, share, total_where-change_row}
use plutus_hr_system.Assets.Rows.{is_active, FixedAsset, book_value_minor, Register}
use plutus_hr_system.Assets.{
  requires_assignee, is_given, AssetCreate, check_asset, new_asset, id_of, remaining_minor,
  monthly_amount, depreciated_by,
}
use plutus_hr_system.Assets.Posted.{carried_on}

abbrev pub is_carried : FixedAsset → Bool
is_carried asset = is_active asset.status

abbrev pub book_value : FixedAsset → ℤ
book_value asset = book_value_minor asset

-- Depreciation stays between nothing and what takes the asset to its salvage value.
pub record IsAsset (asset : FixedAsset) : Type 0 where
  pub cost_from : is_pos asset.cost_minor ≡ true
  pub salvage_from : pos 0 ≤ℤ asset.salvage_value_minor
  pub depreciation_from : pos 0 ≤ℤ asset.accumulated_depreciation_minor
  pub above_salvage :
      (asset.accumulated_depreciation_minor ≡ pos 0)
      ⊎ ((asset.accumulated_depreciation_minor +ℤ asset.salvage_value_minor) ≤ℤ asset.cost_minor)

-- The two accounts have moved, since a base ledger, by the book values of the active assets.
pub record IsBooked (base : Ledger) (books : Register) : Type 0 where
  pub valid : All IsAsset books.assets
  pub agrees :
      carried_on books.ledger ≡ carried_on base +ℤ total_where is_carried book_value books.assets

-- A row that is found changes, and the two accounts by as much as its share.
pub changed_agrees :
    (base : Ledger) (id : ℕ) (asset : FixedAsset) (f : FixedAsset → FixedAsset) (books : Register)
    (next : Ledger)
    → IsBooked base books
    → find_row id_of id books.assets ≡ some asset
    → carried_on next
      ≡ carried_on books.ledger
        +ℤ (share is_carried book_value (f asset) -ℤ share is_carried book_value asset)
    → carried_on next
      ≡ carried_on base +ℤ total_where is_carried book_value (change_row id_of id f books.assets)
changed_agrees base id asset f books next b found e =
    rw
      (
        total_where-change_row id_of id f is_carried book_value asset books.assets found,
        e,
        b.agrees,
      )
      (omega int_laws)

month_from :
    (depreciable : ℤ) (months : ℕ) → pos 0 ≤ℤ depreciable → pos 0 ≤ℤ (depreciable //ℤ months)
unfolding ◌//ℤ◌
month_from (pos a) months h = omega int_laws
month_from (negsuc a) months h = absurd (grind int_laws)

-- The amount of a month is from nothing to what remains.
pub amount_bounds :
    (asset : FixedAsset)
    → IsAsset asset
    → is_pos (remaining_minor asset) ≡ true
    → (pos 0 ≤ℤ min_ℤ (monthly_amount asset) (remaining_minor asset))
      × (min_ℤ (monthly_amount asset) (remaining_minor asset) ≤ℤ remaining_minor asset)
amount_bounds asset v e =
    let monthly =
      month_from (asset.cost_minor -ℤ asset.salvage_value_minor) (pos_part asset.useful_life_months)
        (let k = v.depreciation_from in grind int_laws) in
    grind int_bounds

pub depreciated-IsAsset :
    (asset : FixedAsset) (amount : ℤ)
    → IsAsset asset
    → pos 0 ≤ℤ amount
    → amount ≤ℤ remaining_minor asset
    → IsAsset (depreciated_by amount asset)
depreciated-IsAsset asset amount v from to = record {
  cost_from = v.cost_from;
  salvage_from = v.salvage_from;
  depreciation_from = let k = v.depreciation_from in grind int_laws;
  above_salvage = inr (grind int_laws);
}

last_check :
    (Q : Unit {0} → Type 0) (test : Bool) (e : ValueError)
    → (test ≡ false → Q tt)
    → Ensures Q (raise_if test e)
last_check Q true e k = tt
last_check Q false e k = k refl

-- What a new asset is, and that none bought has built up depreciation.
pub check_asset-IsAsset :
    (id : ℕ) (body : AssetCreate)
    → Ensures
        (λ u.
          IsAsset (new_asset id body)
          × ((is_pos body.opening_accumulated_depreciation_minor && not body.opening_balance)
              ≡ false))
        (check_asset body)
unfolding check_asset
check_asset-IsAsset id body =
    let Q : Unit {0} → Type 0 = λ u.
      IsAsset (new_asset id body)
      × ((is_pos body.opening_accumulated_depreciation_minor && not body.opening_balance)
          ≡ false) in
    let built_up = body.opening_accumulated_depreciation_minor in
    Ensures-raise_if Q (not (is_pos body.cost_minor)) (not_positive "cost_minor") _ λ cost.
      Ensures-raise_if Q (is_neg body.salvage_value_minor) (negative "salvage_value_minor") _
        λ salvage.
          Ensures-skip Q
            (raise_if (leb_ℤ body.cost_minor body.salvage_value_minor) salvage_not_below_cost) _
            λ below.
              Ensures-skip Q
                (raise_if (not (is_pos body.useful_life_months))
                  (not_positive "useful_life_months"))
                _
                λ life.
                  Ensures-skip Q
                    (raise_if
                      (requires_assignee body.category && not (is_given body.assigned_employee_id))
                      assignee_required)
                    _
                    λ assignee.
                      Ensures-raise_if Q (is_neg built_up)
                        (negative "opening_accumulated_depreciation_minor") _
                        λ from.
                          Ensures-raise_if Q (is_pos built_up && not body.opening_balance)
                            depreciation_not_opening _
                            λ opening. last_check Q _ depreciation_too_large λ within. (
                              record {
                                cost_from = ground arith;
                                salvage_from = grind int_laws;
                                depreciation_from = grind int_laws;
                                above_salvage = inr (grind int_laws);
                              },
                              opening,
                            )
