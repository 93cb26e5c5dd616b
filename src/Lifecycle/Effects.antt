-- ===== src/Lifecycle/Effects.antt =====
-- What locking a pay run (run_pay_run of app/services/payroll.py) leaves alone: all that a later
-- reversal reads past the rows that it wrote.
use Prim.Native.String.{String}
use plutus_hr_system.Prelude.{
  ℕ, ◌≡◌, refl, Bool, true, false, Option, none, some, List, [], ◌∷◌, ◌++◌, map, arith,
  if◌then◌else◌, ==_iff, ℤ, int_laws, Result, ok, Ensures, Ensures-bind, Ensures-both,
  Ensures-weaken, Ensures-skip, Ensures-raise_if, Ensures-ok, Ensures-self, length,
}
use plutus_hr_system.Errors.{ValueError}
use plutus_hr_system.Calendar.{Date}
use plutus_hr_system.Accounting.{PostingLine, assert_balanced}
use plutus_hr_system.Ledger.{
  Source, Ledger, require_open_period, require_active_accounts, posted_before, written,
  post_journal,
}
use plutus_hr_system.Ledger.Growth.{Extends, Extends-cons, Growth, post_journal-Growth}
use plutus_hr_system.Ledger.Sound.{IsSound, post_journal-IsSound}
use plutus_hr_system.Lifecycle.Rows.{PayRun, StatutoryLiability, Loan, Payslip, Books}
use plutus_hr_system.Lifecycle.Lock.{
  mark_paid, active_loan, record_loan, record_period_effects, Calculated, payslip_source, of_run,
  process_employee_payslip, process_all, pending_liability,
}
use plutus_hr_system.Lifecycle.Reverse.{has_line, drop_pending}
use plutus_hr_system.Lifecycle.Reverse.Journals.{other_total}
use plutus_hr_system.Lifecycle.Keeps.{Keeps, Keeps-refl, Keeps-trans, effects-Keeps}

-- A journal with a line of the run is no other journal.
pub record Adds (run : ℕ) (ledger next : Ledger) : Type 0 where
  pub growth : Growth ledger next
  pub sound_after : IsSound ledger → IsSound next
  pub others_after :
      (account : String)
      → other_total account run next.journals ≡ other_total account run ledger.journals

others_of_run :
    (run : ℕ) (ledger : Ledger) (on : Date) (source : Source) (validate : Bool)
    (lines : List PostingLine)
    → has_line run lines ≡ true
    → Ensures
        (λ (next : Ledger).
          (account : String)
          → other_total account run next.journals ≡ other_total account run ledger.journals)
        (post_journal ledger on source validate lines)
unfolding post_journal written
others_of_run run ledger on source validate lines e =
    let Q : Ledger → Type 0 = λ next.
      (account : String)
      → other_total account run next.journals ≡ other_total account run ledger.journals in
    Ensures-skip Q (assert_balanced lines) _ λ balanced.
      Ensures-skip Q (require_open_period ledger on) _ λ open_period.
        Ensures-skip Q (if validate then require_active_accounts ledger.chart lines else ok tt) _
          λ active.
            Ensures-raise_if Q (posted_before source ledger.journals) _ _
              λ new account. rw e (omega int_laws)

pub post_journal-Adds :
    (run : ℕ) (ledger : Ledger) (on : Date) (source : Source) (validate : Bool)
    (lines : List PostingLine)
    → has_line run lines ≡ true
    → Ensures (Adds run ledger) (post_journal ledger on source validate lines)
post_journal-Adds run ledger on source validate lines e =
    let m : Result ValueError Ledger = post_journal ledger on source validate lines in
    Ensures-both (λ next. m ≡ ok next)
      (λ (next : Ledger).
        (account : String)
        → other_total account run next.journals ≡ other_total account run ledger.journals)
      (Adds run ledger) m (Ensures-self m) (others_of_run run ledger on source validate lines e)
      λ next returned others. record {
        growth =
            Ensures-ok (Growth ledger) m returned
              (post_journal-Growth ledger on source validate lines);
        sound_after = λ h.
            Ensures-ok IsSound m returned (post_journal-IsSound ledger on source validate lines h);
        others_after = others;
      }

-- A journal of no lines is refused, and any other of the calculation's has a line of the run.
calculated-Adds :
    (run : ℕ) (ledger : Ledger) (on : Date) (source : Source) (validate : Bool)
    (lines : List PostingLine)
    → Ensures (Adds run ledger) (post_journal ledger on source validate (map (of_run run) lines))
calculated-Adds run ledger on source validate [] = unfold post_journal assert_balanced in tt
calculated-Adds run ledger on source validate (line ∷ lines) =
    post_journal-Adds run ledger on source validate (map (of_run run) (line ∷ lines)) (ground arith)

with_ledger :
    (run : ℕ) (b c : Books) (payslips : List Payslip) (next : Ledger)
    → Keeps run b c
    → c.ledger ≡ b.ledger
    → Adds run b.ledger next
    → Extends b.payslips payslips
    → Keeps run b (record c { payslips = payslips; ledger = next })
with_ledger run b c payslips next k e a ps = record {
  overtime_kept = k.overtime_kept;
  encashments_kept = k.encashments_kept;
  liabilities_kept = k.liabilities_kept;
  repaid_kept = k.repaid_kept;
  loans_tracked = k.loans_tracked;
  statuses_kept = k.statuses_kept;
  lockers_kept = k.lockers_kept;
  disbursers_kept = k.disbursers_kept;
  grows = record {
    payslips_kept = ps;
    repayments_kept = k.grows.repayments_kept;
    ledger_kept = a.growth;
  };
  sound_kept = a.sound_after;
  others_kept = a.others_after;
}

loan_ledger :
    (run : ℕ) (loan : Option Loan) (deduction : ℤ) (b : Books)
    → (record_loan run loan deduction b).ledger ≡ b.ledger
unfolding record_loan
loan_ledger run none deduction b = refl
loan_ledger run (some loan) deduction b = ground arith

effects_ledger :
    (run employee : ℕ) (deduction : ℤ) (b : Books)
    → (record_period_effects run employee deduction b).ledger ≡ b.ledger
unfolding record_period_effects
effects_ledger run employee deduction b =
    loan_ledger run (active_loan employee b.loans) deduction (record b {
      overtime = mark_paid run employee b.overtime;
      encashments = mark_paid run employee b.encashments;
    })

process_employee_payslip-Keeps :
    (run : PayRun) (employee : ℕ) (calculation : Result ValueError Calculated) (b : Books)
    → Ensures (Keeps run.id b) (process_employee_payslip run employee calculation b)
unfolding process_employee_payslip
process_employee_payslip-Keeps run employee calculation b =
    Ensures-skip (Keeps run.id b) calculation _ λ (calculated : Calculated).
      let effected : Books =
        record_period_effects run.id employee calculated.loan_deduction_minor b in
      Ensures-bind (Adds run.id b.ledger) (Keeps run.id b)
        (post_journal b.ledger run.period_end (payslip_source (length b.payslips)) false
          (map (of_run run.id) calculated.lines))
        _
        (calculated-Adds run.id b.ledger run.period_end (payslip_source (length b.payslips)) false
          calculated.lines)
        λ next added.
          with_ledger run.id b effected _ next
            (effects-Keeps run.id employee calculated.loan_deduction_minor b)
            (effects_ledger run.id employee calculated.loan_deduction_minor b) added
            (Extends-cons _ b.payslips)

pub process_all-Keeps :
    (run : PayRun) (employees : List ℕ) (calculate : Books → ℕ → Result ValueError Calculated)
    (b : Books)
    → Ensures (Keeps run.id b) (process_all run employees calculate b)
unfolding process_all
process_all-Keeps run [] calculate b = Keeps-refl run.id b
process_all-Keeps run (employee ∷ employees) calculate b =
    Ensures-bind (Keeps run.id b) (Keeps run.id b)
      (process_employee_payslip run employee (calculate b employee) b) _
      (process_employee_payslip-Keeps run employee (calculate b employee) b)
      λ (c : Books) kept.
        Ensures-weaken (Keeps run.id c) (Keeps run.id b) (process_all run employees calculate c)
          (process_all-Keeps run employees calculate c)
          λ d later. Keeps-trans run.id b c d kept later

pub drop_pending-append :
    (run : ℕ) (amounts : List ℤ) (ls : List StatutoryLiability)
    → drop_pending run (ls ++ map (pending_liability run) amounts) ≡ drop_pending run ls
unfolding drop_pending
drop_pending-append run [] [] = refl
drop_pending-append run (a ∷ amounts) [] =
    rw ((==_iff run run).1 refl) (drop_pending-append run amounts [])
drop_pending-append run amounts (l ∷ ls) = rw (drop_pending-append run amounts ls) refl
