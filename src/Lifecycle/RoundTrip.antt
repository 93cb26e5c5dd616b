-- ===== src/Lifecycle/RoundTrip.antt =====
-- Locking a pay run and reversing it: lock_pay_run, then reverse_pay_run, of
-- app/services/pay_run_lifecycle.py.
use plutus_hr_system.Prelude.{
  ℕ, ◌≡◌, refl, ap, ◌∙◌, Bool, not, ◌&&◌, some, List, ==_iff, ℤ, ◌-ℤ◌, Result, ◌>>=◌, raise_if,
  Ensures, Ensures-bind, Ensures-both, Ensures-skip,
}
use plutus_hr_system.Errors.{ValueError, run_not_locked, liabilities_acted_on}
use plutus_hr_system.Calendar.{Date}
use plutus_hr_system.Ledger.{Journal, Ledger}
use plutus_hr_system.Ledger.Growth.{Growth, Growth-trans}
use plutus_hr_system.Ledger.Sound.{IsSound}
use plutus_hr_system.Ledger.Found.{all_in}
use plutus_hr_system.Lifecycle.Rows.{
  PayRunStatus, is_locked, PayRun, Payslip, Books, repaid, outstanding,
}
use plutus_hr_system.Lifecycle.Lock.{Calculated, has_status, lock_pay_run}
use plutus_hr_system.Lifecycle.Reverse.{
  acted_on, journals_of, reverse_journals, reopen_loans, reversed_books, reverse_pay_run,
}
use plutus_hr_system.Lifecycle.Reverse.Journals.{
  journals_of-total, journals_of-AreIn, Undoes, reverse_journals-Undoes, reverse_journals-Growth,
}
use plutus_hr_system.Lifecycle.Keeps.{Tracks-refl, Keeps}
use plutus_hr_system.Lifecycle.Undone.{
  IsNew, IsUndone, drop_new, others_new, reopen-Reactivated, repaid_new, restore_new, taken_back,
}
use plutus_hr_system.Lifecycle.Locked.{lock_pay_run-Keeps}

module _ (run : PayRun) (calculate : Books → ℕ → Result ValueError Calculated)
    (schemes : List Payslip → List ℤ × ℤ) where
  -- What a reversal makes of books that a lock has left.
  reversed-IsUndone :
      (b c : Books) (ledger : Ledger)
      → IsNew run.id b
      → Keeps run.id b c
      → Undoes (journals_of run.id c.ledger.journals) c.ledger ledger
      → Growth c.ledger ledger
      → IsUndone run.id b (record (reversed_books run ledger c) {
        loans = reopen_loans (reversed_books run ledger c) run.id c.loans;
      })
  unfolding outstanding
  reversed-IsUndone b c ledger new kept undone growth =
      let u : Books = reversed_books run ledger c in
      let is_reversed_now : u.statuses run.id ≡ some PayRunStatus.reversed =
        rw ((==_iff run.id run.id).1 refl) refl in
      let same_repaid : (loan : ℕ)
          → repaid u.statuses loan c.repayments ≡ repaid b.statuses loan b.repayments =
        λ loan.
          kept.repaid_kept u.statuses (rw is_reversed_now refl) loan
          ∙ repaid_new run.id loan u.statuses b.statuses b.repayments
              (λ id other. rw other (kept.statuses_kept id other)) new.no_repayment in
      record {
        overtime_restored = kept.overtime_kept ∙ restore_new run.id b.overtime new.no_overtime;
        encashments_restored =
            kept.encashments_kept ∙ restore_new run.id b.encashments new.no_encashment;
        liabilities_restored =
            kept.liabilities_kept ∙ drop_new run.id b.liabilities new.no_liability;
        balances_restored = λ loan. ap (λ r. loan.total_repayable_minor -ℤ r) (same_repaid loan.id);
        loans_restored =
            reopen-Reactivated run.id b u
              (λ loan. ap (λ r. loan.total_repayable_minor -ℤ r) (same_repaid loan.id))
              (kept.loans_tracked b.loans (Tracks-refl run.id b.repayments b.loans));
        accounts_restored = λ account.
            taken_back _ _ _ _ _ (undone.undone account)
              (journals_of-total account run.id c.ledger.journals)
              (kept.others_kept account ∙ others_new account run.id b.ledger.journals new.no_line);
        ledger_still_sound = undone.still_sound;
        stays = record {
          payslips_kept = kept.grows.payslips_kept;
          repayments_kept = kept.grows.repayments_kept;
          ledger_kept = Growth-trans b.ledger c.ledger ledger kept.grows.ledger_kept growth;
          other_statuses = λ id other. rw other (kept.statuses_kept id other);
          other_lockers = kept.lockers_kept;
          disbursers = kept.disbursers_kept;
        };
        run_reversed = is_reversed_now;
      }

  reverse_pay_run-IsUndone :
      (b c : Books) (acknowledged : Bool) (today : Date)
      → IsNew run.id b
      → Keeps run.id b c
      → Ensures (IsUndone run.id b) (reverse_pay_run run acknowledged today c)
  unfolding reverse_pay_run
  reverse_pay_run-IsUndone b c acknowledged today new kept =
      let js : List Journal = journals_of run.id c.ledger.journals in
      let sound : IsSound c.ledger = kept.sound_kept new.ledger_sound in
      Ensures-skip (IsUndone run.id b)
        (raise_if (not (has_status is_locked (c.statuses run.id))) run_not_locked) _
        λ locked.
          Ensures-skip (IsUndone run.id b)
            (raise_if (acted_on run.id c.liabilities && not acknowledged) liabilities_acted_on) _
            λ free.
              Ensures-bind (λ next. Undoes js c.ledger next × Growth c.ledger next)
                (IsUndone run.id b) (reverse_journals js today c.ledger) _
                (Ensures-both (Undoes js c.ledger) (Growth c.ledger)
                  (λ next. Undoes js c.ledger next × Growth c.ledger next)
                  (reverse_journals js today c.ledger)
                  (reverse_journals-Undoes js today c.ledger sound (
                    journals_of-AreIn run.id c.ledger.journals c.ledger.journals
                      (all_in c.ledger.journals sound)))
                  (reverse_journals-Growth js today c.ledger)
                  (λ next undone growth. (undone, growth)))
                λ (ledger : Ledger) (undone, growth).
                  reversed-IsUndone b c ledger new kept undone growth

  -- Locking a run that is new to the books and then reversing it, where neither raises: the overtime
  -- entries, the encashments and the liabilities are what they were; the loans are the same by their
  -- identifiers and amounts, every loan has the outstanding balance that it had, and one that was
  -- active with something outstanding is active; and every account has the total that it had. The
  -- ledger is sound, under the same chart and lock date, and its journals are those from before with
  -- new ones in front, as are the payslips and the repayments. The run is reversed, and the status and
  -- the locker of every other run and all disbursers are what they were.
  pub lock-reverse-IsUndone :
      (account : ℕ) (acknowledged : Bool) (today : Date) (b : Books)
      → IsNew run.id b
      → Ensures
          (IsUndone run.id b)
          (lock_pay_run run account calculate schemes b >>= reverse_pay_run run acknowledged today)
  lock-reverse-IsUndone account acknowledged today b new =
      Ensures-bind (Keeps run.id b) (IsUndone run.id b)
        (lock_pay_run run account calculate schemes b) (reverse_pay_run run acknowledged today)
        (lock_pay_run-Keeps run calculate schemes account b)
        λ c kept. reverse_pay_run-IsUndone b c acknowledged today new kept
