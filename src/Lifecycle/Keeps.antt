-- ===== src/Lifecycle/Keeps.antt =====
-- What the recording of a payslip's effects (_record_period_effects of app/services/payroll.py) leaves
-- alone: what a later reversal of the run reads past the rows that it wrote.
use Prim.Native.String.{String}
use plutus_hr_system.Prelude.{
  ℕ, ◌≡◌, refl, ◌∙◌, ◌⊎◌, inl, inr, Bool, true, false, Option, none, some, List, [], ◌∷◌, arith,
  ◌==◌, if◌then◌else◌, Bool-cases, ℤ, ◌-ℤ◌, is_pos, int_laws,
}
use plutus_hr_system.Loans.{LoanStatus, is_active}
use plutus_hr_system.Ledger.Sound.{IsSound}
use plutus_hr_system.Ledger.Growth.{
  Extends, Extends-refl, Extends-trans, Extends-cons, Growth, Growth-refl, Growth-trans,
}
use plutus_hr_system.Lifecycle.Rows.{
  PayRunStatus, OvertimeStatus, Overtime, Loan, LoanRepayment, Books, status_is_reversed, repaid,
  outstanding,
}
use plutus_hr_system.Lifecycle.Lock.{
  is_due, paid_in, mark_paid, active_loan, set_loan_status, record_loan, record_period_effects,
}
use plutus_hr_system.Lifecycle.Reverse.{restore, drop_pending, is_affected, is_paid_off}
use plutus_hr_system.Lifecycle.Reverse.Journals.{other_total}

-- An entry that a run picks up is, restored, the entry that it was.
restored_due :
    (run : ℕ) (entry : Overtime) (employee : ℕ)
    → is_due employee entry ≡ true
    → record (paid_in run entry) { status = OvertimeStatus.approved; pay_run_id = none } ≡ entry
restored_due run entry employee due = ground arith

restore-mark_paid :
    (run employee : ℕ) (entries : List Overtime)
    → restore run (mark_paid run employee entries) ≡ restore run entries
unfolding restore mark_paid
restore-mark_paid run employee [] = refl
restore-mark_paid run employee (entry ∷ entries) =
    ground (arith, restore-mark_paid run employee entries)

-- The loans of the books before and now: a loan that was active is active, or was paid off by a
-- repayment of the run.
pub data Tracks (run : ℕ) (rs : List LoanRepayment) : List Loan → List Loan → Type 0 where
  none_left : Tracks run rs [] []
  next_loan :
      {old new : Loan} {olds news : List Loan}
      → new.id ≡ old.id
      → new.total_repayable_minor ≡ old.total_repayable_minor
      → (is_active old.status ≡ true
          → (is_active new.status ≡ true)
            ⊎ ((is_paid_off new.status ≡ true) × (is_affected run new.id rs ≡ true)))
      → Tracks run rs olds news
      → Tracks run rs (old ∷ olds) (new ∷ news)

pub Tracks-refl :
    (run : ℕ) (rs : List LoanRepayment) (loans : List Loan) → Tracks run rs loans loans
Tracks-refl run rs [] = none_left
Tracks-refl run rs (loan ∷ loans) = next_loan refl refl (λ e. inl e) (Tracks-refl run rs loans)

-- A repayment of the run, and the end of the loan that it is of.
still_tracked :
    (run id : ℕ) (amount : ℤ) (rs : List LoanRepayment) {olds news : List Loan}
    → Tracks run rs olds news
    → Tracks run
        (record { loan_id = id; pay_run_id = some run; amount_minor = amount } ∷ rs)
        olds
        news
unfolding is_affected
still_tracked run id amount rs none_left = none_left
still_tracked run id amount rs (next_loan e f g t) =
    next_loan e f (λ was. let before = g was in grind arith) (still_tracked run id amount rs t)

ended_tracked :
    (run id : ℕ) (amount : ℤ) (rs : List LoanRepayment) {olds news : List Loan}
    → Tracks run rs olds news
    → Tracks run
        (record { loan_id = id; pay_run_id = some run; amount_minor = amount } ∷ rs)
        olds
        (set_loan_status id LoanStatus.paid_off news)
unfolding is_affected set_loan_status
ended_tracked run id amount rs none_left = none_left
ended_tracked run id amount rs (next_loan e f g t) =
    next_loan (ground arith) (ground arith) (λ was. let before = g was in grind arith)
      (ended_tracked run id amount rs t)

-- Payslips, repayments and journals are only added, and the rest of the ledger stays.
pub record Grows (b c : Books) : Type 0 where
  pub payslips_kept : Extends b.payslips c.payslips
  pub repayments_kept : Extends b.repayments c.repayments
  pub ledger_kept : Growth b.ledger c.ledger

pub Grows-refl : (b : Books) → Grows b b
Grows-refl b = record {
  payslips_kept = Extends-refl b.payslips;
  repayments_kept = Extends-refl b.repayments;
  ledger_kept = Growth-refl b.ledger;
}

pub Grows-trans : (b c d : Books) → Grows b c → Grows c d → Grows b d
Grows-trans b c d g h = record {
  payslips_kept = Extends-trans g.payslips_kept h.payslips_kept;
  repayments_kept = Extends-trans g.repayments_kept h.repayments_kept;
  ledger_kept = Growth-trans b.ledger c.ledger d.ledger g.ledger_kept h.ledger_kept;
}

-- What is the same of the books, but for the rows of the run.
pub record Keeps (run : ℕ) (b c : Books) : Type 0 where
  pub overtime_kept : restore run c.overtime ≡ restore run b.overtime
  pub encashments_kept : restore run c.encashments ≡ restore run b.encashments
  pub liabilities_kept : drop_pending run c.liabilities ≡ drop_pending run b.liabilities
  pub repaid_kept :
      (statuses : ℕ → Option PayRunStatus)
      → status_is_reversed (statuses run) ≡ true
      → (loan : ℕ) → repaid statuses loan c.repayments ≡ repaid statuses loan b.repayments
  pub loans_tracked :
      (olds : List Loan)
      → Tracks run b.repayments olds b.loans
      → Tracks run c.repayments olds c.loans
  pub statuses_kept : (id : ℕ) → (id == run) ≡ false → c.statuses id ≡ b.statuses id
  pub lockers_kept : (id : ℕ) → (id == run) ≡ false → c.locked_by id ≡ b.locked_by id
  pub disbursers_kept : c.disbursed_by ≡ b.disbursed_by
  pub grows : Grows b c
  pub sound_kept : IsSound b.ledger → IsSound c.ledger
  pub others_kept :
      (account : String)
      → other_total account run c.ledger.journals ≡ other_total account run b.ledger.journals

pub Keeps-refl : (run : ℕ) (b : Books) → Keeps run b b
Keeps-refl run b = record {
  overtime_kept = refl;
  encashments_kept = refl;
  liabilities_kept = refl;
  repaid_kept = λ s e loan. refl;
  loans_tracked = λ olds t. t;
  statuses_kept = λ id e. refl;
  lockers_kept = λ id e. refl;
  disbursers_kept = refl;
  grows = Grows-refl b;
  sound_kept = λ h. h;
  others_kept = λ account. refl;
}

pub Keeps-trans : (run : ℕ) (b c d : Books) → Keeps run b c → Keeps run c d → Keeps run b d
Keeps-trans run b c d k l = record {
  overtime_kept = l.overtime_kept ∙ k.overtime_kept;
  encashments_kept = l.encashments_kept ∙ k.encashments_kept;
  liabilities_kept = l.liabilities_kept ∙ k.liabilities_kept;
  repaid_kept = λ s e loan. l.repaid_kept s e loan ∙ k.repaid_kept s e loan;
  loans_tracked = λ olds t. l.loans_tracked olds (k.loans_tracked olds t);
  statuses_kept = λ id e. l.statuses_kept id e ∙ k.statuses_kept id e;
  lockers_kept = λ id e. l.lockers_kept id e ∙ k.lockers_kept id e;
  disbursers_kept = l.disbursers_kept ∙ k.disbursers_kept;
  grows = Grows-trans b c d k.grows l.grows;
  sound_kept = λ h. l.sound_kept (k.sound_kept h);
  others_kept = λ account. l.others_kept account ∙ k.others_kept account;
}

not_counted :
    (statuses : ℕ → Option PayRunStatus) (run id loan : ℕ) (amount : ℤ) (rs : List LoanRepayment)
    → status_is_reversed (statuses run) ≡ true
    → repaid statuses loan
        (record { loan_id = id; pay_run_id = some run; amount_minor = amount } ∷ rs)
      ≡ repaid statuses loan rs
unfolding repaid
not_counted statuses run id loan amount rs e = rw e (grind int_laws)

tracked_end :
    (run id : ℕ) (amount : ℤ) (rs : List LoanRepayment) (more : Bool) {olds news : List Loan}
    → Tracks run rs olds news
    → Tracks run
        (record { loan_id = id; pay_run_id = some run; amount_minor = amount } ∷ rs)
        olds
        (if more then news else set_loan_status id LoanStatus.paid_off news)
tracked_end run id amount rs true t = still_tracked run id amount rs t
tracked_end run id amount rs false t = ended_tracked run id amount rs t

record_loan-Keeps :
    (run : ℕ) (loan : Option Loan) (deduction : ℤ) (b : Books)
    → Keeps run b (record_loan run loan deduction b)
unfolding record_loan
record_loan-Keeps run none deduction b = Keeps-refl run b
record_loan-Keeps run (some loan) deduction b = elim (Bool-cases (is_pos deduction)) [
  | inl e ↦ rw e (record {
    overtime_kept = refl;
    encashments_kept = refl;
    liabilities_kept = refl;
    repaid_kept = λ s r id. not_counted s run loan.id id deduction b.repayments r;
    loans_tracked = λ olds t.
        tracked_end run loan.id deduction b.repayments (is_pos (outstanding b loan -ℤ deduction)) t;
    statuses_kept = λ id k. refl;
    lockers_kept = λ id k. refl;
    disbursers_kept = refl;
    grows = record {
      payslips_kept = Extends-refl b.payslips;
      repayments_kept = Extends-cons _ b.repayments;
      ledger_kept = Growth-refl b.ledger;
    };
    sound_kept = λ h. h;
    others_kept = λ account. refl;
  })
  | inr e ↦ rw e (Keeps-refl run b)
]

pub effects-Keeps :
    (run employee : ℕ) (deduction : ℤ) (b : Books)
    → Keeps run b (record_period_effects run employee deduction b)
unfolding record_period_effects
effects-Keeps run employee deduction b =
    Keeps-trans run b
      (record b {
        overtime = mark_paid run employee b.overtime;
        encashments = mark_paid run employee b.encashments;
      })
      _
      (record {
        overtime_kept = restore-mark_paid run employee b.overtime;
        encashments_kept = restore-mark_paid run employee b.encashments;
        liabilities_kept = refl;
        repaid_kept = λ s r id. refl;
        loans_tracked = λ olds t. t;
        statuses_kept = λ id k. refl;
        lockers_kept = λ id k. refl;
        disbursers_kept = refl;
        grows = record {
          payslips_kept = Extends-refl b.payslips;
          repayments_kept = Extends-refl b.repayments;
          ledger_kept = Growth-refl b.ledger;
        };
        sound_kept = λ h. h;
        others_kept = λ account. refl;
      })
      (record_loan-Keeps run (active_loan employee b.loans) deduction _)
