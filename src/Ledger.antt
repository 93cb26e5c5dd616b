-- ===== src/Ledger.antt =====
-- The journals of one organisation and their writers: app/services/posting.py. A journal is its
-- header with its lines; journals that pre-date headers, descriptions and references are left out.
pub mod Sound
pub mod Found
pub mod Growth
pub mod Totals
pub mod Manual
mod Tests
use Prim.Native.String.{String}
use text.Mathlib.Text.{◌==◌ as str_eq}
use plutus_hr_system.Prelude.{
  ℕ, Bool, true, false, not, ◌&&◌, ◌||◌, Option, none, some, List, [], ◌∷◌, ◌==◌, if◌then◌else◌,
  Result, ok, ◌>>=◌, ◌>>◌, raise_if, or_raise, length,
}
use plutus_hr_system.Errors.{
  ValueError, period_locked, unknown_account, inactive_account, already_posted, reason_required,
  journal_not_found, reversal_of_reversal, already_reversed,
}
use plutus_hr_system.Calendar.{Date, not_after}
use plutus_hr_system.Accounting.{PostingLine, assert_balanced, mirror_postings}

-- What a journal is posted for: the type of its source, the source and the event.
pub record Source : Type 0 where
  pub source_type : String
  pub source_id : Option ℕ
  pub source_event : String

pub record Journal : Type 0 where
  pub id : ℕ
  pub entry_date : Date
  pub source : Source
  pub reversal_of_id : Option ℕ
  pub lines : List PostingLine

-- The newest journal stands first. An account of the chart has its code and whether it is active.
pub record Ledger : Type 0 where
  pub journals : List Journal
  pub chart : List (String × Bool)
  pub lock_date : Option Date

abbrev locked : Option Date → Date → Bool
locked none entry_date = false
locked (some locked_to) entry_date = not_after entry_date locked_to

unfoldable pub require_open_period : Ledger → Date → Result ValueError (Unit {0})
require_open_period ledger entry_date = raise_if (locked ledger.lock_date entry_date) period_locked

unfoldable pub account_state : String → List (String × Bool) → Option Bool
account_state code [] = none
account_state code ((name, is_active) ∷ chart) =
    if str_eq name code then some is_active else account_state code chart

abbrev pub is_known : Option Bool → Bool
is_known none = false
is_known (some is_active) = true

-- `_require_active_accounts`. The code goes through the accounts in alphabetical order, which changes
-- only which of several faults it names.
unfoldable pub require_active_accounts :
    List (String × Bool) → List PostingLine → Result ValueError (Unit {0})
unfolding account_state
require_active_accounts chart [] = ok tt
require_active_accounts chart (line ∷ lines) = do
  is_active ← or_raise (account_state line.account chart) (unknown_account line.account)
  raise_if (not is_active) (inactive_account line.account)
  require_active_accounts chart lines

abbrev pub same_id : Option ℕ → ℕ → Bool
same_id none id = false
same_id (some a) id = a == id

-- The query for a journal of the same source, event and type.
unfoldable pub is_posted : Source → ℕ → List Journal → Bool
is_posted source source_id [] = false
is_posted source source_id (j ∷ js) =
    (str_eq j.source.source_type source.source_type
      && same_id j.source.source_id source_id
      && str_eq j.source.source_event source.source_event)
    || is_posted source source_id js

abbrev pub posted_before : Source → List Journal → Bool
posted_before source js = elim source.source_id [ none ↦ false | some id ↦ is_posted source id js ]

-- A new journal, with an identifier of its own.
unfoldable pub written : Ledger → Date → Source → Option ℕ → List PostingLine → Ledger
written ledger entry_date source reversal_of_id lines = record ledger {
  journals =
      record {
        id = length ledger.journals;
        entry_date = entry_date;
        source = source;
        reversal_of_id = reversal_of_id;
        lines = lines;
      }
      ∷ ledger.journals;
}

unfoldable pub post_journal :
    Ledger → Date → Source → Bool → List PostingLine → Result ValueError Ledger
unfolding require_active_accounts is_posted
post_journal ledger entry_date source validate_chart lines = do
  assert_balanced lines
  require_open_period ledger entry_date
  if validate_chart then require_active_accounts ledger.chart lines else ok tt
  raise_if (posted_before source ledger.journals) already_posted
  ok (written ledger entry_date source none lines)

unfoldable pub find_journal : ℕ → List Journal → Option Journal
find_journal id [] = none
find_journal id (j ∷ js) = if j.id == id then some j else find_journal id js

-- The query for a journal that reverses this one.
unfoldable pub is_reversed : ℕ → List Journal → Bool
is_reversed id [] = false
is_reversed id (j ∷ js) = same_id j.reversal_of_id id || is_reversed id js

abbrev pub is_given : Option ℕ → Bool
is_given none = false
is_given (some a) = true

abbrev pub reversal_source : Source
reversal_source = record {
  source_type = "reversal";
  source_id = none;
  source_event = "journal.reversed";
}

-- `given_reason` is whether the reason is more than blanks.
unfoldable pub reverse_journal : Ledger → ℕ → Date → Bool → Option String → Result ValueError Ledger
unfolding find_journal is_reversed
reverse_journal ledger journal_id reversal_date given_reason description = do
  raise_if (not given_reason) reason_required
  require_open_period ledger reversal_date
  original ← or_raise (find_journal journal_id ledger.journals) journal_not_found
  raise_if (is_given original.reversal_of_id) reversal_of_reversal
  raise_if (is_reversed original.id ledger.journals) already_reversed
  let mirrored = mirror_postings description original.lines
  assert_balanced mirrored
  ok (written ledger reversal_date reversal_source (some original.id) mirrored)
