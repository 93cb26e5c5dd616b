-- ===== src/Lifecycle/Undone.antt =====
-- The books as they were before a run (app/services/pay_run_lifecycle.py): what a reversal restores of
-- rows that the run has not touched.
use Prim.Native.String.{String}
use plutus_hr_system.Prelude.{
  ℕ, ◌≡◌, refl, ◌∙◌, ◌⊎◌, inl, inr, true, false, Option, none, some, List, [], ◌∷◌, arith, ◌==◌, ℤ,
  ◌+ℤ◌, is_pos, int_laws, All,
}
use plutus_hr_system.Loans.{is_active}
use plutus_hr_system.Ledger.Growth.{Extends, Growth}
use plutus_hr_system.Ledger.Totals.{total_on}
use plutus_hr_system.Ledger.{Journal}
use plutus_hr_system.Ledger.Sound.{IsSound}
use plutus_hr_system.Lifecycle.Rows.{
  PayRunStatus, Overtime, StatutoryLiability, Loan, LoanRepayment, Books, is_of_run, counts, repaid,
  outstanding,
}
use plutus_hr_system.Lifecycle.Reverse.{
  has_line, drop_pending, restore, is_affected, is_paid_off, reopened, reopen_loans,
}
use plutus_hr_system.Lifecycle.Reverse.Journals.{other_total}
use plutus_hr_system.Lifecycle.Keeps.{Tracks, none_left, next_loan}

-- The run is new to the books: no row is of it, and the ledger is a sound one.
pub record IsNew (run : ℕ) (b : Books) : Type 0 where
  pub no_overtime : All (λ (e : Overtime). is_of_run e.pay_run_id run ≡ false) b.overtime
  pub no_encashment : All (λ (e : Overtime). is_of_run e.pay_run_id run ≡ false) b.encashments
  pub no_liability :
      All (λ (l : StatutoryLiability). is_of_run l.pay_run_id run ≡ false) b.liabilities
  pub no_repayment : All (λ (r : LoanRepayment). is_of_run r.pay_run_id run ≡ false) b.repayments
  pub no_line : All (λ (j : Journal). has_line run j.lines ≡ false) b.ledger.journals
  pub ledger_sound : IsSound b.ledger

pub restore_new :
    (run : ℕ) (entries : List Overtime)
    → All (λ (e : Overtime). is_of_run e.pay_run_id run ≡ false) entries
    → restore run entries ≡ entries
unfolding restore
restore_new run [] h = refl
restore_new run (e ∷ es) h = rw (h.0, restore_new run es h.1) refl

pub drop_new :
    (run : ℕ) (ls : List StatutoryLiability)
    → All (λ (l : StatutoryLiability). is_of_run l.pay_run_id run ≡ false) ls
    → drop_pending run ls ≡ ls
unfolding drop_pending
drop_new run [] h = refl
drop_new run (l ∷ ls) h = rw (h.0, drop_new run ls h.1) refl

pub others_new :
    (account : String) (run : ℕ) (js : List Journal)
    → All (λ (j : Journal). has_line run j.lines ≡ false) js
    → other_total account run js ≡ total_on account js
others_new account run [] h = refl
others_new account run (j ∷ js) h = rw (h.0, others_new account run js h.1) refl

-- Repayments of other runs count as those runs' statuses say.
counts_new :
    (run : ℕ) (of_run : Option ℕ) (s t : ℕ → Option PayRunStatus)
    → ((id : ℕ) → (id == run) ≡ false → s id ≡ t id)
    → is_of_run of_run run ≡ false
    → counts s of_run ≡ counts t of_run
counts_new run none s t same h = refl
counts_new run (some id) s t same h = rw (same id h) refl

pub repaid_new :
    (run loan : ℕ) (s t : ℕ → Option PayRunStatus) (rs : List LoanRepayment)
    → ((id : ℕ) → (id == run) ≡ false → s id ≡ t id)
    → All (λ (r : LoanRepayment). is_of_run r.pay_run_id run ≡ false) rs
    → repaid s loan rs ≡ repaid t loan rs
unfolding repaid
repaid_new run loan s t [] same h = refl
repaid_new run loan s t (r ∷ rs) same h =
    rw (repaid_new run loan s t rs same h.1, counts_new run r.pay_run_id s t same h.0) refl

-- A loan that was active and not paid off before is active again.
pub data Reactivated (b : Books) : List Loan → List Loan → Type 0 where
  no_loans : Reactivated b [] []
  next_restored :
      {old new : Loan} {olds news : List Loan}
      → new.id ≡ old.id
      → new.total_repayable_minor ≡ old.total_repayable_minor
      → (is_active old.status ≡ true
          → is_pos (outstanding b old) ≡ true
          → is_active new.status ≡ true)
      → Reactivated b olds news
      → Reactivated b (old ∷ olds) (new ∷ news)

-- What is still in the books, of the rows that are only added, and of other runs.
pub record Stays (run : ℕ) (b d : Books) : Type 0 where
  pub payslips_kept : Extends b.payslips d.payslips
  pub repayments_kept : Extends b.repayments d.repayments
  pub ledger_kept : Growth b.ledger d.ledger
  pub other_statuses : (id : ℕ) → (id == run) ≡ false → d.statuses id ≡ b.statuses id
  pub other_lockers : (id : ℕ) → (id == run) ≡ false → d.locked_by id ≡ b.locked_by id
  pub disbursers : d.disbursed_by ≡ b.disbursed_by

-- The books once more as they were before the run was locked.
pub record IsUndone (run : ℕ) (b d : Books) : Type 0 where
  pub overtime_restored : d.overtime ≡ b.overtime
  pub encashments_restored : d.encashments ≡ b.encashments
  pub liabilities_restored : d.liabilities ≡ b.liabilities
  pub balances_restored : (loan : Loan) → outstanding d loan ≡ outstanding b loan
  pub loans_restored : Reactivated b b.loans d.loans
  pub accounts_restored :
      (account : String) → total_on account d.ledger.journals ≡ total_on account b.ledger.journals
  pub ledger_still_sound : IsSound d.ledger
  pub stays : Stays run b d
  pub run_reversed : d.statuses run ≡ some PayRunStatus.reversed

reopened_id : (u : Books) (run : ℕ) (loan : Loan) → (reopened u run loan).id ≡ loan.id
reopened_id u run loan = ground arith

reopened_total :
    (u : Books) (run : ℕ) (loan : Loan)
    → (reopened u run loan).total_repayable_minor ≡ loan.total_repayable_minor
reopened_total u run loan = ground arith

same_outstanding :
    (b : Books) (old new : Loan)
    → new.id ≡ old.id
    → new.total_repayable_minor ≡ old.total_repayable_minor
    → outstanding b new ≡ outstanding b old
unfolding outstanding
same_outstanding b old new e f = rw (e, f) refl

reopened_active :
    (run : ℕ) (b u : Books) (old new : Loan)
    → new.id ≡ old.id
    → new.total_repayable_minor ≡ old.total_repayable_minor
    → outstanding u new ≡ outstanding b new
    → (is_active new.status ≡ true)
      ⊎ ((is_paid_off new.status ≡ true) × (is_affected run new.id u.repayments ≡ true))
    → is_pos (outstanding b old) ≡ true
    → is_active (reopened u run new).status ≡ true
reopened_active run b u old new e f same (inl active) owed = ground arith
reopened_active run b u old new e f same (inr (off, affected)) owed =
    let again : is_pos (outstanding u new) ≡ true =
      rw (same, same_outstanding b old new e f) owed in
    ground arith

pub reopen-Reactivated :
    (run : ℕ) (b u : Books) {olds news : List Loan}
    → ((loan : Loan) → outstanding u loan ≡ outstanding b loan)
    → Tracks run u.repayments olds news
    → Reactivated b olds (reopen_loans u run news)
unfolding reopen_loans
reopen-Reactivated run b u same none_left = no_loans
reopen-Reactivated run b u same (next_loan {old = old} {new = new} e f g t) =
    next_restored (reopened_id u run new ∙ e) (reopened_total u run new ∙ f)
      (λ was owed. reopened_active run b u old new e f (same new) (g was) owed)
      (reopen-Reactivated run b u same t)

pub taken_back :
    (after reversed total others before : ℤ)
    → after +ℤ reversed ≡ total
    → total ≡ others +ℤ reversed
    → others ≡ before
    → after ≡ before
taken_back after reversed total others before e f g = grind int_laws
