-- ===== src/Ledger/Tests.antt =====
-- A remittance that is posted and reversed.
use plutus_hr_system.Prelude.{◌≡◌, refl, true, false, none, some, List, [], ◌∷◌, pos, ◌+ℤ◌, ok}
use plutus_hr_system.Calendar.{Date}
use plutus_hr_system.Accounting.{
  PostingLine, plain_line, cash_account, assert_balanced, mirror_postings, check_lines,
}
use plutus_hr_system.Ledger.{
  Source, Ledger, Journal, require_open_period, written, post_journal, reverse_journal,
  reversal_source, find_journal, is_reversed,
}
use plutus_hr_system.Ledger.Sound.{
  IsSound, opened, posted, reversed, Reached-IsSound, reverse_journal-returns,
}

abbrev posted_on : Date
posted_on = record { year = 2026; month = 3; day = 5 }

abbrev remitted : Source
remitted = record {
  source_type = "statutory_remittance";
  source_id = some 7;
  source_event = "liability.remitted";
}

abbrev paid_lines : List PostingLine
paid_lines =
    plain_line "paye_payable" (pos 500) (pos 0) none
    ∷ plain_line cash_account (pos 0) (pos 500) none
    ∷ []

abbrev empty_books : Ledger
empty_books = record {
  journals = [];
  chart = ("paye_payable", true) ∷ ("cash", true) ∷ [];
  lock_date = none;
}

abbrev after_posting : Ledger
after_posting = record empty_books {
  journals =
      record {
        id = 0;
        entry_date = posted_on;
        source = remitted;
        reversal_of_id = none;
        lines = paid_lines;
      }
      ∷ [];
}

abbrev after_reversal : Ledger
after_reversal = record after_posting {
  journals =
      record {
        id = 1;
        entry_date = posted_on;
        source = reversal_source;
        reversal_of_id = some 0;
        lines =
            plain_line "paye_payable" (pos 0) (pos 500) none
            ∷ plain_line cash_account (pos 500) (pos 0) none
            ∷ [];
      }
      ∷ after_posting.journals;
}

posting : post_journal empty_books posted_on remitted true paid_lines ≡ ok after_posting
unfolding post_journal require_open_period written assert_balanced check_lines ◌+ℤ◌
posting = refl

reversing : reverse_journal after_posting 0 posted_on true none ≡ ok after_reversal
unfolding reverse_journal require_open_period written assert_balanced check_lines mirror_postings
    ◌+ℤ◌
reversing = refl

Reached-IsSound_example : IsSound after_reversal
Reached-IsSound_example = Reached-IsSound after_reversal (
    reversed after_posting 0 posted_on true none after_reversal
      (posted empty_books posted_on remitted true paid_lines after_posting
        (opened (("paye_payable", true) ∷ ("cash", true) ∷ []) none) posting)
      reversing)

abbrev first_journal : Journal
first_journal = record {
  id = 0;
  entry_date = posted_on;
  source = remitted;
  reversal_of_id = none;
  lines = paid_lines;
}

books_open : require_open_period after_posting posted_on ≡ ok tt
unfolding require_open_period
books_open = refl

not_reversed : is_reversed 0 after_posting.journals ≡ false
unfolding is_reversed
not_reversed = refl

found : find_journal 0 after_posting.journals ≡ some first_journal
unfolding find_journal
found = refl

reverse_journal-returns_example :
    reverse_journal after_posting 0 posted_on true (some "wrong month")
    ≡ ok (
        written after_posting posted_on reversal_source
          (some 0)
          (mirror_postings (some "wrong month") paid_lines))
reverse_journal-returns_example =
    reverse_journal-returns after_posting 0 posted_on (some "wrong month") first_journal
      (posted empty_books posted_on remitted true paid_lines after_posting
        (opened (("paye_payable", true) ∷ ("cash", true) ∷ []) none) posting)
      books_open found refl not_reversed
