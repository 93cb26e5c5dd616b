-- ===== src/Ledger/Totals.antt =====
-- What the journals of app/services/posting.py leave on an account.
use Prim.Native.String.{String}
use plutus_hr_system.Prelude.{
  ◌≡◌, refl, Bool, List, [], ◌∷◌, ◌++◌, if◌then◌else◌, ℤ, pos, ◌+ℤ◌, int_laws, ok, Ensures,
  Ensures-skip, Ensures-raise_if,
}
use plutus_hr_system.Calendar.{Date}
use plutus_hr_system.Accounting.{PostingLine, assert_balanced}
use plutus_hr_system.Accounting.Balance.{effect}
use plutus_hr_system.Ledger.{
  Source, Journal, Ledger, require_open_period, require_active_accounts, posted_before, written,
  post_journal,
}

-- What all journals leave on an account.
abbrev pub total_on : String → List Journal → ℤ
total_on account [] = pos 0
total_on account (j ∷ js) = effect account j.lines +ℤ total_on account js

pub total_on-append :
    (account : String) (js ks : List Journal)
    → total_on account (js ++ ks) ≡ total_on account js +ℤ total_on account ks
total_on-append account [] ks = omega int_laws
total_on-append account (j ∷ js) ks = rw (total_on-append account js ks) (omega int_laws)

-- A journal of these lines has been written, and nothing else is on any account.
pub record Writes (lines : List PostingLine) (ledger next : Ledger) : Type 0 where
  pub on_account :
      (account : String)
      → total_on account next.journals ≡ effect account lines +ℤ total_on account ledger.journals

pub post_journal-Writes :
    (ledger : Ledger) (on : Date) (source : Source) (validate : Bool) (lines : List PostingLine)
    → Ensures (Writes lines ledger) (post_journal ledger on source validate lines)
unfolding post_journal written
post_journal-Writes ledger on source validate lines =
    let Q : Ledger → Type 0 = Writes lines ledger in
    Ensures-skip Q (assert_balanced lines) _ λ balanced.
      Ensures-skip Q (require_open_period ledger on) _ λ open_period.
        Ensures-skip Q (if validate then require_active_accounts ledger.chart lines else ok tt) _
          λ active.
            Ensures-raise_if Q (posted_before source ledger.journals) _ _
              λ new. record { on_account = λ account. refl }
