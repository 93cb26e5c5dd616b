-- ===== src/Lifecycle/Locked.antt =====
-- What lock_pay_run of app/services/pay_run_lifecycle.py leaves alone of the books.
use plutus_hr_system.Prelude.{
  ℕ, refl, inl, inr, false, not, some, List, [], ◌∷◌, arith, if◌then◌else◌, Bool-cases, ℤ,
  is_nonzero, Result, ok, Ensures, Ensures-bind, Ensures-weaken, Ensures-raise_if,
}
use plutus_hr_system.Errors.{ValueError, run_not_validated}
use plutus_hr_system.Ledger.{Ledger, post_journal}
use plutus_hr_system.Ledger.Growth.{Extends-refl, Growth-refl}
use plutus_hr_system.Lifecycle.Rows.{PayRunStatus, PayRun, Payslip, Books, update}
use plutus_hr_system.Lifecycle.Lock.{
  Calculated, process_all, add_liabilities, accrual_lines, nsitf_source, is_empty, run_pay_run,
  has_status, is_validated, lock_pay_run,
}
use plutus_hr_system.Lifecycle.Keeps.{Keeps, Keeps-trans}
use plutus_hr_system.Lifecycle.Effects.{
  Adds, post_journal-Adds, process_all-Keeps, drop_pending-append,
}

abbrev accrue : PayRun → ℤ → Books → Result ValueError Ledger
accrue run nsitf_amount b =
    if is_nonzero nsitf_amount
    then post_journal b.ledger run.period_end (nsitf_source run.id) false
        (accrual_lines run.id nsitf_amount)
    else ok b.ledger

accrue-Adds :
    (run : PayRun) (nsitf_amount : ℤ) (b : Books)
    → Ensures (Adds run.id b.ledger) (accrue run nsitf_amount b)
accrue-Adds run nsitf_amount b = elim (Bool-cases (is_nonzero nsitf_amount)) [
  | inl e ↦ rw e (
      post_journal-Adds run.id b.ledger run.period_end (nsitf_source run.id) false
        (accrual_lines run.id nsitf_amount) (ground arith))
  | inr e ↦ rw e (record {
    growth = Growth-refl b.ledger;
    sound_after = λ h. h;
    others_after = λ account. refl;
  })
]

add_liabilities-Keeps :
    (run : PayRun) (amounts : List ℤ) (nsitf_amount : ℤ) (b : Books)
    → Ensures (Keeps run.id b) (add_liabilities run amounts nsitf_amount b)
unfolding add_liabilities
add_liabilities-Keeps run amounts nsitf_amount b =
    Ensures-bind (Adds run.id b.ledger) (Keeps run.id b) (accrue run nsitf_amount b) _
      (accrue-Adds run nsitf_amount b)
      λ next added. record {
        overtime_kept = refl;
        encashments_kept = refl;
        liabilities_kept = drop_pending-append run.id _ b.liabilities;
        repaid_kept = λ s e loan. refl;
        loans_tracked = λ olds t. t;
        statuses_kept = λ id e. refl;
        lockers_kept = λ id e. refl;
        disbursers_kept = refl;
        grows = record {
          payslips_kept = Extends-refl b.payslips;
          repayments_kept = Extends-refl b.repayments;
          ledger_kept = added.growth;
        };
        sound_kept = added.sound_after;
        others_kept = added.others_after;
      }

marked-Keeps :
    (run : ℕ) (b c : Books) (status : PayRunStatus)
    → Keeps run b c
    → Keeps run b (record c { statuses = update c.statuses run (some status) })
marked-Keeps run b c status k = record {
  overtime_kept = k.overtime_kept;
  encashments_kept = k.encashments_kept;
  liabilities_kept = k.liabilities_kept;
  repaid_kept = k.repaid_kept;
  loans_tracked = k.loans_tracked;
  statuses_kept = λ id e. rw e (k.statuses_kept id e);
  lockers_kept = k.lockers_kept;
  disbursers_kept = k.disbursers_kept;
  grows = record {
    payslips_kept = k.grows.payslips_kept;
    repayments_kept = k.grows.repayments_kept;
    ledger_kept = k.grows.ledger_kept;
  };
  sound_kept = k.sound_kept;
  others_kept = k.others_kept;
}

locker_set :
    (run : ℕ) (b c : Books) (account : ℕ)
    → Keeps run b c
    → Keeps run b (record c { locked_by = update c.locked_by run (some account) })
locker_set run b c account k = record {
  overtime_kept = k.overtime_kept;
  encashments_kept = k.encashments_kept;
  liabilities_kept = k.liabilities_kept;
  repaid_kept = k.repaid_kept;
  loans_tracked = k.loans_tracked;
  statuses_kept = k.statuses_kept;
  lockers_kept = λ id e. rw e (k.lockers_kept id e);
  disbursers_kept = k.disbursers_kept;
  grows = record {
    payslips_kept = k.grows.payslips_kept;
    repayments_kept = k.grows.repayments_kept;
    ledger_kept = k.grows.ledger_kept;
  };
  sound_kept = k.sound_kept;
  others_kept = k.others_kept;
}

module _ (run : PayRun) (calculate : Books → ℕ → Result ValueError Calculated)
    (schemes : List Payslip → List ℤ × ℤ) where
  with_schemes :
      (b c : Books) (employees : List ℕ)
      → Keeps run.id b c
      → Ensures (Keeps run.id b) (
          if is_empty employees
          then ok c
          else add_liabilities run (schemes c.payslips).0 (schemes c.payslips).1 c)
  with_schemes b c [] kept = kept
  with_schemes b c (_ ∷ _) kept =
      Ensures-weaken (Keeps run.id c) (Keeps run.id b)
        (add_liabilities run (schemes c.payslips).0 (schemes c.payslips).1 c)
        (add_liabilities-Keeps run (schemes c.payslips).0 (schemes c.payslips).1 c)
        λ d later. Keeps-trans run.id b c d kept later

  run_pay_run-Keeps : (b : Books) → Ensures (Keeps run.id b) (run_pay_run run calculate schemes b)
  unfolding run_pay_run
  run_pay_run-Keeps b =
      Ensures-bind (Keeps run.id b) (Keeps run.id b) (process_all run run.employee_ids calculate b)
        _ (process_all-Keeps run run.employee_ids calculate b)
        λ (c : Books) kept.
          with_schemes b
            (record c { statuses = update c.statuses run.id (some PayRunStatus.locked) })
            run.employee_ids (marked-Keeps run.id b c PayRunStatus.locked kept)

  pub lock_pay_run-Keeps :
      (account : ℕ) (b : Books)
      → Ensures (Keeps run.id b) (lock_pay_run run account calculate schemes b)
  unfolding lock_pay_run
  lock_pay_run-Keeps account b =
      Ensures-raise_if (Keeps run.id b) (not (has_status is_validated (b.statuses run.id)))
        run_not_validated _
        λ validated.
          Ensures-bind (Keeps run.id b) (Keeps run.id b) (run_pay_run run calculate schemes b) _
            (run_pay_run-Keeps b) λ c kept. locker_set run.id b c account kept
