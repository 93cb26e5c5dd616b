-- ===== src/Assets/Reached.antt =====
-- The books that the operations of app/services/fixed_assets.py lead to.
use Prim.Native.String.{String}
use plutus_hr_system.Prelude.{ℕ, ◌≡◌, ◌∙◌, [], ℤ, int_laws, ok, Ensures-ok}
use plutus_hr_system.Calendar.{Date}
use plutus_hr_system.Ledger.{Ledger}
use plutus_hr_system.Tables.{total_where}
use plutus_hr_system.Assets.Rows.{Register}
use plutus_hr_system.Assets.{
  AssetCreate, register_fixed_asset, record_depreciation, dispose_fixed_asset, revalue_fixed_asset,
}
use plutus_hr_system.Assets.Posted.{carried_on, IsElsewhere}
use plutus_hr_system.Assets.Books.{IsBooked}
use plutus_hr_system.Assets.Kept.{
  register_fixed_asset-IsBooked, record_depreciation-IsBooked, dispose_fixed_asset-IsBooked,
  revalue_fixed_asset-IsBooked,
}

-- The operations on a register that starts empty on a ledger. Money comes from and goes to accounts that
-- carry no assets, and what else is posted leaves the sum of the two accounts alone.
pub data Reached (base : Ledger) : Register → Type 0 where
  opened : Reached base (record { assets = []; ledger = base })
  registered :
      (id : ℕ) (body : AssetCreate) (today : Date) (books next : Register)
      → IsElsewhere body.cash_account_code
      → Reached base books
      → register_fixed_asset id body today books ≡ ok next
      → Reached base next
  depreciated :
      (id : ℕ) (event : String) (today : Date) (books next : Register)
      → Reached base books
      → record_depreciation id event today books ≡ ok next
      → Reached base next
  disposed :
      (id : ℕ) (proceeds : ℤ) (cash : String) (today : Date) (books next : Register)
      → IsElsewhere cash
      → Reached base books
      → dispose_fixed_asset id proceeds cash today books ≡ ok next
      → Reached base next
  revalued :
      (id : ℕ) (new_value : ℤ) (today : Date) (books next : Register)
      → Reached base books
      → revalue_fixed_asset id new_value today books ≡ ok next
      → Reached base next
  posted_elsewhere :
      (books : Register) (ledger : Ledger)
      → Reached base books
      → carried_on ledger ≡ carried_on books.ledger
      → Reached base (record books { ledger = ledger })

-- In every register that the operations lead to, the ledger's fixed assets and accumulated depreciation
-- together have moved by exactly the book values of the active assets, and every asset has a positive
-- cost and a depreciation from nothing up to what takes it to its salvage value.
pub Reached-IsBooked : (base : Ledger) (books : Register) → Reached base books → IsBooked base books
unfolding total_where
Reached-IsBooked base _ opened = record { valid = tt; agrees = omega int_laws }
Reached-IsBooked base _ (registered id body today books next h r returned) =
    Ensures-ok (IsBooked base) _ returned
      (register_fixed_asset-IsBooked base id body today books h (Reached-IsBooked base books r))
Reached-IsBooked base _ (depreciated id event today books next r returned) =
    Ensures-ok (IsBooked base) _ returned
      (record_depreciation-IsBooked base id event today books (Reached-IsBooked base books r))
Reached-IsBooked base _ (disposed id proceeds cash today books next h r returned) =
    Ensures-ok (IsBooked base) _ returned (
      dispose_fixed_asset-IsBooked base id proceeds cash today books h
        (Reached-IsBooked base books r))
Reached-IsBooked base _ (revalued id new_value today books next r returned) =
    Ensures-ok (IsBooked base) _ returned
      (revalue_fixed_asset-IsBooked base id new_value today books (Reached-IsBooked base books r))
Reached-IsBooked base _ (posted_elsewhere books ledger r same) =
    let b = Reached-IsBooked base books r in record { valid = b.valid; agrees = same ∙ b.agrees }
