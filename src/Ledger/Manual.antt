-- ===== src/Ledger/Manual.antt =====
-- Manual journal entries: post_manual_journal_entry of app/services/general_ledger.py. Their lines have
-- no header; the journal that holds them here has a source without an id, which no query for one finds.
use plutus_hr_system.Prelude.{
  refl, not, ◌||◌, none, List, [], ◌∷◌, ltb, ℤ, pos, ◌+ℤ◌, eq_ℤ, is_neg, is_pos, Result, ok, ◌>>◌,
  raise_if, Ensures, Ensures-skip, Ensures-raise_if, length,
}
use plutus_hr_system.Errors.{
  ValueError, negative, too_few_lines, both_or_neither_side, unbalanced, unknown_account,
}
use plutus_hr_system.Calendar.{Date}
use plutus_hr_system.Accounting.{PostingLine, same}
use plutus_hr_system.Ledger.{Source, Ledger, require_open_period, account_state, is_known, written}
use plutus_hr_system.Ledger.Totals.{Writes}

-- The loop over the lines and its two running totals.
unfoldable pub check_manual_lines : Ledger → List PostingLine → ℤ → ℤ → Result ValueError (Unit {0})
check_manual_lines ledger [] total_debit total_credit =
    raise_if (not (eq_ℤ total_debit total_credit)) unbalanced
check_manual_lines ledger (line ∷ lines) total_debit total_credit = do
  raise_if (not (is_known (account_state line.account ledger.chart))) (unknown_account line.account)
  raise_if (is_neg line.debit_minor || is_neg line.credit_minor) (negative "amounts")
  raise_if (same (is_pos line.debit_minor) (is_pos line.credit_minor)) both_or_neither_side
  check_manual_lines ledger lines (total_debit +ℤ line.debit_minor)
      (total_credit +ℤ line.credit_minor)

abbrev pub no_header : Source
no_header = record { source_type = "manual"; source_id = none; source_event = "manual" }

unfoldable pub post_manual_journal_entry :
    Ledger → Date → List PostingLine → Result ValueError Ledger
post_manual_journal_entry ledger today lines = do
  raise_if (ltb (length lines) 2) too_few_lines
  require_open_period ledger today
  check_manual_lines ledger lines (pos 0) (pos 0)
  ok (written ledger today no_header none lines)

pub post_manual_journal_entry-Writes :
    (ledger : Ledger) (today : Date) (lines : List PostingLine)
    → Ensures (Writes lines ledger) (post_manual_journal_entry ledger today lines)
unfolding post_manual_journal_entry written
post_manual_journal_entry-Writes ledger today lines =
    let Q = Writes lines ledger in
    Ensures-raise_if Q (ltb (length lines) 2) too_few_lines _ λ enough.
      Ensures-skip Q (require_open_period ledger today) _ λ open_period.
        Ensures-skip Q (check_manual_lines ledger lines (pos 0) (pos 0)) _
          λ balanced. record { on_account = λ account. refl }
