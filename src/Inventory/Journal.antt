-- ===== src/Inventory/Journal.antt =====
-- What the journals of app/domain/inventory/accounting.py leave on each account, and that the ledger
-- takes them.
use Prim.Native.String.{String}
use text.Mathlib.Text.{◌==◌ as str_eq}
use plutus_hr_system.Prelude.{
  ◌≡◌, refl, ◌∙◌, ◌≢◌, ◌⊎◌, inl, inr, true, false, Option, List, [], ◌∷◌, arith, ltb, Bool-cases, ℤ,
  pos, negsuc, ◌-ℤ◌, ◌≤ℤ◌, ◌<ℤ◌, is_nonzero, max_ℤ, int_laws, int_bounds, ok, err, All,
}
use plutus_hr_system.Errors.{inventory_unbalanced}
use plutus_hr_system.Totals.{totals_from, sum_of, amount_on, totals_from-sum, totals_from-amount_on}
use plutus_hr_system.Accounting.{PostingLine, plain_line, assert_balanced}
use plutus_hr_system.Accounting.Balance.{
  IsOneSided, total_debit, total_credit, effect, assert_balanced_iff,
}
use plutus_hr_system.Inventory.{Leg, lines_of, journal_lines, nonzero_legs, five_legs, bill_legs}

abbrev side_line : Option String → String → ℤ → PostingLine
side_line description account amount =
    plain_line account (max_ℤ (pos 0) amount) (max_ℤ (pos 0) (pos 0 -ℤ amount)) description

side_line-IsOneSided :
    (description : Option String) (account : String) (amount : ℤ)
    → is_nonzero amount ≡ true
    → IsOneSided (side_line description account amount)
unfolding max_ℤ ◌-ℤ◌
side_line-IsOneSided description account amount h = ground arith

side_line-total : (amount : ℤ) → max_ℤ (pos 0) amount -ℤ max_ℤ (pos 0) (pos 0 -ℤ amount) ≡ amount
side_line-total amount = grind int_bounds

is_zero : (amount : ℤ) → is_nonzero amount ≡ false → amount ≡ pos 0
is_zero amount h = ground arith

lines_of-IsOneSided :
    (description : Option String) (totals : List (String × ℤ))
    → All IsOneSided (lines_of description totals)
unfolding lines_of
lines_of-IsOneSided description [] = tt
lines_of-IsOneSided description ((account, amount) ∷ rest) = elim (Bool-cases (is_nonzero amount)) [
  | inl e ↦
      rw e (side_line-IsOneSided description account amount e, lines_of-IsOneSided description rest)
  | inr e ↦ rw e (lines_of-IsOneSided description rest)
]

lines_of-totals :
    (description : Option String) (totals : List (String × ℤ))
    → total_debit (lines_of description totals) -ℤ total_credit (lines_of description totals)
      ≡ sum_of totals
unfolding lines_of
lines_of-totals description [] = omega int_laws
lines_of-totals description ((account, amount) ∷ rest) = elim (Bool-cases (is_nonzero amount)) [
  | inl e ↦ rw e (grind (int_laws, side_line-total amount, lines_of-totals description rest))
  | inr e ↦ rw e (grind (int_laws, is_zero amount e, lines_of-totals description rest))
]

lines_of-effect :
    (description : Option String) (totals : List (String × ℤ)) (at : String)
    → effect at (lines_of description totals) ≡ amount_on at totals
unfolding lines_of
lines_of-effect description [] at = refl
lines_of-effect description ((account, amount) ∷ rest) at = elim (Bool-cases (is_nonzero amount)) [
  | inl e ↦ rw (e, side_line-total amount, lines_of-effect description rest at) refl
  | inr e ↦ elim (Bool-cases (str_eq account at)) [
    | inl k ↦ rw (e, k, is_zero amount e) (grind (int_laws, lines_of-effect description rest at))
    | inr k ↦ rw (e, k) (grind (int_laws, lines_of-effect description rest at))
  ]
]

nonzero_of : (amount : ℤ) → is_nonzero amount ≡ true → amount ≢ pos 0
nonzero_of amount h e = ground arith

equal_of : (a b : ℤ) → a -ℤ b ≡ pos 0 → a ≡ b
equal_of a b e = grind int_laws

-- Lines whose totals agree are none, or an entry: a line alone is on one side.
balanced_lines :
    (ls : List PostingLine)
    → All IsOneSided ls
    → total_debit ls -ℤ total_credit ls ≡ pos 0
    → (ls ≡ []) ⊎ (assert_balanced ls ≡ ok tt)
balanced_lines [] h e = inl refl
balanced_lines (l ∷ []) h e = absurd (grind int_laws)
balanced_lines (l ∷ m ∷ ls) h e = inr (
    (assert_balanced_iff (l ∷ m ∷ ls)).1
      (record { two_lines = omega arith; one_sided = h; balanced = equal_of _ _ e }))

-- What the code returns for balanced legs: no line where everything nets to zero, and otherwise an
-- entry, with the net of the legs on every account.
pub record Nets (description : Option String) (legs : List Leg) : Type 0 where
  pub lines : List PostingLine
  pub returns : journal_lines legs description ≡ ok lines
  pub accepted : (lines ≡ []) ⊎ (assert_balanced lines ≡ ok tt)
  pub netted : (at : String) → effect at lines ≡ amount_on at legs

totals_sum : (legs : List Leg) → sum_of (totals_from legs []) ≡ sum_of legs
totals_sum legs = grind (int_laws, totals_from-sum legs [])

totals_amount :
    (legs : List Leg) (at : String) → amount_on at (totals_from legs []) ≡ amount_on at legs
totals_amount legs at = grind (int_laws, totals_from-amount_on legs [] at)

journal_lines-Nets :
    (description : Option String) (legs : List Leg) → sum_of legs ≡ pos 0 → Nets description legs
journal_lines-Nets description legs h =
    let totals = totals_from legs [] in
    let zeroed : sum_of totals ≡ pos 0 = totals_sum legs ∙ h in
    record {
      lines = lines_of description totals;
      returns = unfold journal_lines in rw zeroed refl;
      accepted =
          balanced_lines (lines_of description totals) (lines_of-IsOneSided description totals)
            (lines_of-totals description totals ∙ zeroed);
      netted = λ at. lines_of-effect description totals at ∙ totals_amount legs at;
    }

journal_lines-refuses :
    (description : Option String) (legs : List Leg)
    → is_nonzero (sum_of legs) ≡ true
    → journal_lines legs description ≡ err inventory_unbalanced
unfolding journal_lines
journal_lines-refuses description legs h = rw (totals_sum legs, h) refl

-- On legs that sum to zero the code returns lines: none, or lines that `assert_balanced` accepts,
-- and on every account they leave the net of its legs. On any other legs it raises.
pub journal_lines_lem :
    (description : Option String) (legs : List Leg)
    → ((sum_of legs ≡ pos 0) × Nets description legs)
      ⊎ ((sum_of legs ≢ pos 0) × (journal_lines legs description ≡ err inventory_unbalanced))
journal_lines_lem description legs = elim (Bool-cases (is_nonzero (sum_of legs))) [
  | inl e ↦ inr (nonzero_of (sum_of legs) e, journal_lines-refuses description legs e)
  | inr e ↦ let h = is_zero (sum_of legs) e in inl (h, journal_lines-Nets description legs h)
]

nonzero_legs-sum : (legs : List Leg) → sum_of (nonzero_legs legs) ≡ sum_of legs
unfolding nonzero_legs
nonzero_legs-sum [] = refl
nonzero_legs-sum ((account, amount) ∷ legs) = elim (Bool-cases (is_nonzero amount)) [
  | inl e ↦ rw e (grind (int_laws, nonzero_legs-sum legs))
  | inr e ↦ rw e (grind (int_laws, is_zero amount e, nonzero_legs-sum legs))
]

nonzero_legs-amount_on :
    (legs : List Leg) (at : String) → amount_on at (nonzero_legs legs) ≡ amount_on at legs
unfolding nonzero_legs
nonzero_legs-amount_on [] at = refl
nonzero_legs-amount_on ((account, amount) ∷ legs) at = elim (Bool-cases (is_nonzero amount)) [
  | inl e ↦ rw (e, nonzero_legs-amount_on legs at) refl
  | inr e ↦ elim (Bool-cases (str_eq account at)) [
    | inl k ↦ rw (e, k, is_zero amount e) (grind (int_laws, nonzero_legs-amount_on legs at))
    | inr k ↦ rw (e, k) (grind (int_laws, nonzero_legs-amount_on legs at))
  ]
]

bill_returns :
    (amount vat wht : ℤ) (expense : String) (grni : ℤ)
    → pos 0 <ℤ amount
    → pos 0 ≤ℤ vat
    → pos 0 ≤ℤ wht
    → pos 0 ≤ℤ grni
    → bill_legs amount vat wht expense grni
      ≡ ok (nonzero_legs (five_legs amount vat wht expense grni))
unfolding bill_legs
bill_returns (pos a) (pos v) (pos w) expense (pos g) ha hv hw hg =
    let positive : ltb 0 a ≡ true = ground arith in rw positive refl
bill_returns (negsuc a) vat wht expense grni ha hv hw hg = absurd (omega arith)
bill_returns (pos a) (negsuc v) wht expense grni ha hv hw hg = absurd (omega arith)
bill_returns (pos a) (pos v) (negsuc w) expense grni ha hv hw hg = absurd (omega arith)
bill_returns (pos a) (pos v) (pos w) expense (negsuc g) ha hv hw hg = absurd (omega arith)

five_legs-sum :
    (amount vat wht : ℤ) (expense : String) (grni : ℤ)
    → sum_of (five_legs amount vat wht expense grni) ≡ pos 0
five_legs-sum amount vat wht expense grni = omega int_laws

-- A vendor bill with a positive amount and no negative part has a journal, whatever its expense
-- account and the amount that clears the goods receipt, above the bill's or not: the lines are none
-- or accepted by `assert_balanced`, and leave on every account what its five legs put there.
pub bill_legs-posts :
    (description : Option String) (amount vat wht : ℤ) (expense : String) (grni : ℤ)
    → pos 0 <ℤ amount
    → pos 0 ≤ℤ vat
    → pos 0 ≤ℤ wht
    → pos 0 ≤ℤ grni
    → (legs : List Leg) × (bill_legs amount vat wht expense grni ≡ ok legs)
      × Nets description legs
      × ((at : String) → amount_on at legs ≡ amount_on at (five_legs amount vat wht expense grni))
bill_legs-posts description amount vat wht expense grni ha hv hw hg =
    let five = five_legs amount vat wht expense grni in
    (
      nonzero_legs five,
      bill_returns amount vat wht expense grni ha hv hw hg,
      journal_lines-Nets description (nonzero_legs five)
          (nonzero_legs-sum five ∙ five_legs-sum amount vat wht expense grni),
      nonzero_legs-amount_on five,
    )
