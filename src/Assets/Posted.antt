-- ===== src/Assets/Posted.antt =====
-- What the journals of app/services/fixed_assets.py leave on the two accounts that carry an asset.
use Prim.Native.String.{String}
use text.Mathlib.Text.{◌==◌ as str_eq}
use plutus_hr_system.Prelude.{
  ℕ, ◌≡◌, refl, ◌∙◌, inl, inr, Bool, true, false, not, ◌&&◌, List, [], ◌∷◌, ◌++◌, Bool-cases, ℤ,
  pos, ◌+ℤ◌, ◌-ℤ◌, ◌≤ℤ◌, is_pos, int_laws, Ensures, Ensures-weaken,
}
use plutus_hr_system.Calendar.{Date}
use plutus_hr_system.Accounting.{PostingLine}
use plutus_hr_system.Accounting.Balance.{effect}
use plutus_hr_system.Ledger.{Ledger, account_state, is_known, post_journal}
use plutus_hr_system.Ledger.Totals.{total_on, Writes, post_journal-Writes}
use plutus_hr_system.Ledger.Manual.{post_manual_journal_entry, post_manual_journal_entry-Writes}
use plutus_hr_system.Assets.Rows.{FixedAsset, book_value_minor}
use plutus_hr_system.Assets.{
  debit, credit, credit_if_pos, debit_if_pos, gain_or_loss, AssetCreate, purchase_lines,
  opening_lines, with_opening_account, opening_source, post_acquisition, depreciation_lines,
  disposal_lines, revaluation_lines,
}

-- The cost of the assets less their depreciation, as lines and as the ledger have it.
abbrev pub carried : List PostingLine → ℤ
carried lines = effect "fixed_assets" lines +ℤ effect "accumulated_depreciation" lines

abbrev pub carried_on : Ledger → ℤ
carried_on ledger =
    total_on "fixed_assets" ledger.journals +ℤ total_on "accumulated_depreciation" ledger.journals

-- An account that carries no assets.
abbrev pub IsElsewhere : String → Type 0
IsElsewhere account =
    (str_eq account "fixed_assets" ≡ false) × (str_eq account "accumulated_depreciation" ≡ false)

pub Writes-carried :
    {lines : List PostingLine} {ledger next : Ledger}
    → Writes lines ledger next
    → carried_on next ≡ carried_on ledger +ℤ carried lines
Writes-carried w =
    rw (w.on_account "fixed_assets", w.on_account "accumulated_depreciation") (omega int_laws)

pub carried-depreciation_lines :
    (amount : ℤ) → carried (depreciation_lines amount) ≡ pos 0 -ℤ amount
carried-depreciation_lines amount = omega int_laws

pub carried-revaluation_lines :
    (difference : ℤ) → carried (revaluation_lines difference) ≡ difference
carried-revaluation_lines difference = grind int_laws

effect-append :
    (account : String) (xs ys : List PostingLine)
    → effect account (xs ++ ys) ≡ effect account xs +ℤ effect account ys
effect-append account [] ys = omega int_laws
effect-append account (x ∷ xs) ys = rw (effect-append account xs ys) (omega int_laws)

carried-append : (xs ys : List PostingLine) → carried (xs ++ ys) ≡ carried xs +ℤ carried ys
carried-append xs ys =
    rw (effect-append "fixed_assets" xs ys, effect-append "accumulated_depreciation" xs ys)
      (omega int_laws)

carried-credit_if_pos :
    (account : String) (amount : ℤ)
    → IsElsewhere account
    → carried (credit_if_pos account amount) ≡ pos 0
carried-credit_if_pos account amount h = elim (Bool-cases (is_pos amount)) [
  | inl e ↦ rw (e, h.0, h.1) (omega int_laws)
  | inr e ↦ rw e (omega int_laws)
]

carried-debit_if_pos :
    (account : String) (amount : ℤ)
    → IsElsewhere account
    → carried (debit_if_pos account amount) ≡ pos 0
carried-debit_if_pos account amount h = elim (Bool-cases (is_pos amount)) [
  | inl e ↦ rw (e, h.0, h.1) (omega int_laws)
  | inr e ↦ rw e (omega int_laws)
]

carried-gain_or_loss : (shortfall : ℤ) → carried (gain_or_loss shortfall) ≡ pos 0
carried-gain_or_loss shortfall = elim (Bool-cases (is_pos shortfall)) [
  | inl e ↦ rw e (omega int_laws)
  | inr e ↦ rw e (carried-credit_if_pos "disposal_gain_loss" (pos 0 -ℤ shortfall) (refl, refl))
]

built_up_debit :
    (amount : ℤ)
    → pos 0 ≤ℤ amount
    → carried (debit_if_pos "accumulated_depreciation" amount) ≡ amount
built_up_debit amount from = elim (Bool-cases (is_pos amount)) [
  | inl e ↦ rw e (omega int_laws)
  | inr e ↦ rw e (grind int_laws)
]

built_up_credit :
    (amount : ℤ)
    → pos 0 ≤ℤ amount
    → carried (credit_if_pos "accumulated_depreciation" amount) ≡ pos 0 -ℤ amount
built_up_credit amount from = elim (Bool-cases (is_pos amount)) [
  | inl e ↦ rw e (omega int_laws)
  | inr e ↦ rw e (grind int_laws)
]

pub carried-disposal_lines :
    (asset : FixedAsset) (proceeds : ℤ) (cash : String)
    → IsElsewhere cash
    → pos 0 ≤ℤ asset.accumulated_depreciation_minor
    → carried (disposal_lines asset proceeds cash) ≡ pos 0 -ℤ book_value_minor asset
carried-disposal_lines asset proceeds cash h from =
    let accumulated = asset.accumulated_depreciation_minor in
    let rest = gain_or_loss (book_value_minor asset -ℤ proceeds) in
    let all : carried (disposal_lines asset proceeds cash)
        ≡ carried (credit "fixed_assets" asset.cost_minor ∷ []) +ℤ (accumulated +ℤ pos 0 +ℤ pos 0) =
      carried-append (credit "fixed_assets" asset.cost_minor ∷ [])
        (debit_if_pos "accumulated_depreciation" accumulated ++ debit_if_pos cash proceeds ++ rest)
      ∙ rw
          (
            carried-append
                (debit_if_pos "accumulated_depreciation" accumulated ++ debit_if_pos cash proceeds)
                rest,
            carried-append (debit_if_pos "accumulated_depreciation" accumulated)
                (debit_if_pos cash proceeds),
            built_up_debit accumulated from,
            carried-debit_if_pos cash proceeds h,
            carried-gain_or_loss (book_value_minor asset -ℤ proceeds),
          )
          refl in
    all ∙ omega int_laws

pub carried-purchase_lines :
    (body : AssetCreate)
    → IsElsewhere body.cash_account_code
    → carried (purchase_lines body) ≡ body.cost_minor
carried-purchase_lines body h = rw (h.0, h.1) (omega int_laws)

pub carried-opening_lines :
    (body : AssetCreate)
    → pos 0 ≤ℤ body.opening_accumulated_depreciation_minor
    → carried (opening_lines body) ≡ body.cost_minor -ℤ body.opening_accumulated_depreciation_minor
carried-opening_lines body from =
    let built_up = body.opening_accumulated_depreciation_minor in
    let rest = credit_if_pos "opening_balance_equity" (body.cost_minor -ℤ built_up) in
    carried-append (debit "fixed_assets" body.cost_minor ∷ [])
      (credit_if_pos "accumulated_depreciation" built_up ++ rest)
    ∙ rw
        (
          carried-append (credit_if_pos "accumulated_depreciation" built_up) rest,
          built_up_credit built_up from,
          carried-credit_if_pos "opening_balance_equity" (body.cost_minor -ℤ built_up) (refl, refl),
        )
        (omega int_laws)

with_opening_account-carried :
    (ledger : Ledger) → carried_on (with_opening_account ledger) ≡ carried_on ledger
with_opening_account-carried ledger =
    elim (Bool-cases (is_known (account_state "opening_balance_equity" ledger.chart))) [
      | inl e ↦ rw e refl
      | inr e ↦ rw e refl
    ]

nothing_built_up :
    (built_up : ℤ) (opening : Bool)
    → pos 0 ≤ℤ built_up
    → (is_pos built_up && not opening) ≡ false
    → opening ≡ false
    → built_up ≡ pos 0
nothing_built_up built_up opening from checked e = grind int_laws

-- An acquisition puts the cost less what had built up on the two accounts.
pub post_acquisition-carried :
    (id : ℕ) (body : AssetCreate) (today : Date) (ledger : Ledger)
    → IsElsewhere body.cash_account_code
    → pos 0 ≤ℤ body.opening_accumulated_depreciation_minor
    → (is_pos body.opening_accumulated_depreciation_minor && not body.opening_balance) ≡ false
    → Ensures
        (λ (next : Ledger).
          carried_on next
          ≡ carried_on ledger +ℤ (body.cost_minor -ℤ body.opening_accumulated_depreciation_minor))
        (post_acquisition id body today ledger)
unfolding post_acquisition
post_acquisition-carried id body today ledger h from opening =
    let built_up = body.opening_accumulated_depreciation_minor in
    let Q : Ledger → Type 0 =
      λ next. carried_on next ≡ carried_on ledger +ℤ (body.cost_minor -ℤ built_up) in
    elim (Bool-cases body.opening_balance) [
      | inl e ↦ rw e (
          Ensures-weaken (Writes (opening_lines body) (with_opening_account ledger)) Q
            (post_journal (with_opening_account ledger) today (opening_source id) true
              (opening_lines body))
            (post_journal-Writes (with_opening_account ledger) today (opening_source id) true
              (opening_lines body))
            λ next w.
              Writes-carried w
              ∙ rw (with_opening_account-carried ledger, carried-opening_lines body from) refl)
      | inr e ↦ rw e (
          Ensures-weaken (Writes (purchase_lines body) ledger) Q
            (post_manual_journal_entry ledger today (purchase_lines body))
            (post_manual_journal_entry-Writes ledger today (purchase_lines body))
            λ next w.
              let unbuilt = nothing_built_up built_up body.opening_balance from opening e in
              Writes-carried w ∙ rw (carried-purchase_lines body h, unbuilt) (omega int_laws))
    ]
