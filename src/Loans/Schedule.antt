-- ===== src/Loans/Schedule.antt =====
-- How a loan of app/services/loans.py is paid back, run after run.
use plutus_hr_system.Prelude.{
  ℕ, suc, ◌+◌, ◌-◌, ◌*◌, ◌/◌, ◌%◌, ◌<◌, ◌≡◌, refl, ap, ◌∙◌, true, none, [], arith, ltb,
  if◌then◌else◌, ℤ, pos, ◌+ℤ◌, ◌*ℤ◌, ◌//ℤ◌, Result, ok, replicate,
}
use Prim.Native.Nat.{min}
use plutus_hr_system.Errors.{ValueError}
use plutus_hr_system.Calendar.{Date}
use plutus_hr_system.Payroll.Statutory.{PayFrequency, periods_per_year}
use plutus_hr_system.Loans.Installments.{installments_eq, first_lem}
use plutus_hr_system.Loans.{
  Loan, LoanStatus, add_to_last, outstanding_loan_balance, repay_runs, request_loan,
  check_loan_eligibility, first_or_zero, apply_flat_interest_minor,
}
use plutus_hr_system.Loans.Runs.{Repaid, repay_runs-Repaid, take_away}

flat_interest :
    (p r : ℕ) → apply_flat_interest_minor (pos p) (pos r) ≡ ok (pos (p + p * r / 10_000))
unfolding apply_flat_interest_minor ◌+ℤ◌ ◌*ℤ◌ ◌//ℤ◌
flat_interest p r = refl

-- The total of a loan, with its flat interest.
abbrev pub total_of : ℕ → ℕ → ℕ
total_of principal rate_bps = principal + principal * rate_bps / 10_000

-- The loan that is granted.
abbrev pub loan_of : ℕ → ℕ → Date → ℕ → Loan
loan_of p n start r =
    let t = total_of p r in
    record {
      principal_minor = pos p;
      interest_rate_bps = pos r;
      total_repayable_minor = pos t;
      num_installments = pos (suc n);
      installment_minor =
          first_or_zero (add_to_last (pos (t % suc n)) (replicate (suc n) (pos (t / suc n))));
      start_date = start;
      status = LoanStatus.active;
      repayments = [];
    }

-- The test of eligibility that a request makes.
abbrev pub eligibility : Date → ℤ → PayFrequency → ℕ → Date → Result ValueError (Unit {0})
eligibility joined period_pay frequency p start =
    check_loan_eligibility joined start (pos p)
      (period_pay *ℤ pos (periods_per_year frequency) //ℤ 12)

granted_lem :
    (joined : Date) (period_pay : ℤ) (frequency : PayFrequency) (p n : ℕ) (start : Date) (r : ℕ)
    → eligibility joined period_pay frequency p start ≡ ok tt
    → request_loan none joined period_pay frequency (pos p) (pos (suc n)) start (pos r)
      ≡ ok (loan_of p n start r)
unfolding request_loan
granted_lem joined period_pay frequency p n start r eligible =
    rw (eligible, flat_interest p r, installments_eq (total_of p r) n) refl

loan_of-Repaid :
    (p n : ℕ) (start : Date) (r : ℕ)
    → 0 < p
    → Repaid (total_of p r) (total_of p r / suc n) 0 (loan_of p n start r)
loan_of-Repaid p n start r h =
    let t = total_of p r in
    let owed : ltb 0 t ≡ true = ground arith in
    record {
      installment = first_lem t n;
      outstanding = unfold outstanding_loan_balance in take_away t 0 (omega arith);
      status = rw owed refl;
    }

-- The state of a granted loan after `runs` pay runs.
pub record PaidBack (runs total base : ℕ) (loan : Loan) : Type 0 where
  pub after : Loan
  pub returns : repay_runs runs loan ≡ ok after
  pub outstanding : outstanding_loan_balance after ≡ pos (total - runs * base)
  pub status :
      after.status ≡ (if ltb (runs * base) total then LoanStatus.active else LoanStatus.paid_off)

paid_back :
    (runs total base : ℕ) (loan : Loan) → Repaid total base 0 loan → PaidBack runs total base loan
paid_back runs total base loan h =
    let k = repay_runs-Repaid runs total base loan h in
    let left : total - min total (runs * base) ≡ total - runs * base = omega arith in
    record {
      after = k.after;
      returns = k.returns;
      outstanding = k.repaid.outstanding ∙ ap (λ (n : ℕ). pos n) left;
      status = k.repaid.status ∙ ground arith;
    }

-- A loan of a positive principal to an eligible employee with no active loan is granted, and each pay
-- run that covers its installment pays it back: after any number of runs the total less so many installments is left, and the loan is
-- paid off once they reach the total.
pub request_loan-PaidBack :
    (runs : ℕ) (joined : Date) (period_pay : ℤ) (frequency : PayFrequency) (p n : ℕ) (start : Date)
    (r : ℕ)
    → 0 < p
    → eligibility joined period_pay frequency p start ≡ ok tt
    → (loan : Loan) × (request_loan none joined period_pay frequency
          (pos p)
          (pos (suc n))
          start
          (pos r)
        ≡ ok loan)
      × PaidBack runs (total_of p r) (total_of p r / suc n) loan
request_loan-PaidBack runs joined period_pay frequency p n start r h eligible = (
  loan_of p n start r,
  granted_lem joined period_pay frequency p n start r eligible,
  paid_back runs (total_of p r) (total_of p r / suc n) _ (loan_of-Repaid p n start r h),
)

-- The state of a loan after as many runs as it has installments.
pub record Leftover (runs total : ℕ) (loan : Loan) : Type 0 where
  pub after : Loan
  pub returns : repay_runs runs loan ≡ ok after
  pub outstanding : outstanding_loan_balance after ≡ pos (total % runs)
  pub status :
      after.status ≡ (if ltb 0 (total % runs) then LoanStatus.active else LoanStatus.paid_off)

leftover :
    (n total : ℕ) (loan : Loan) → Repaid total (total / suc n) 0 loan → Leftover (suc n) total loan
leftover n total loan h =
    let k = paid_back (suc n) total (total / suc n) loan h in
    let whole : suc n * (total / suc n) + total % suc n ≡ total = grind arith in
    let left : total - suc n * (total / suc n) ≡ total % suc n = omega (arith, whole) in
    let same : ltb (suc n * (total / suc n)) total ≡ ltb 0 (total % suc n) =
      ground (arith, whole) in
    record {
      after = k.after;
      returns = k.returns;
      outstanding = k.outstanding ∙ ap (λ (m : ℕ). pos m) left;
      status = k.status ∙ ap (λ b. if b then LoanStatus.active else LoanStatus.paid_off) same;
    }

-- A loan of a positive principal to an eligible employee with no active loan is granted, and after
-- as many covering runs as it has installments the remainder of its total by their number is left;
-- the loan is still active unless that is nothing.
pub request_loan-Leftover :
    (joined : Date) (period_pay : ℤ) (frequency : PayFrequency) (p n : ℕ) (start : Date) (r : ℕ)
    → 0 < p
    → eligibility joined period_pay frequency p start ≡ ok tt
    → (loan : Loan) × (request_loan none joined period_pay frequency
          (pos p)
          (pos (suc n))
          start
          (pos r)
        ≡ ok loan)
      × Leftover (suc n) (total_of p r) loan
request_loan-Leftover joined period_pay frequency p n start r h eligible = (
  loan_of p n start r,
  granted_lem joined period_pay frequency p n start r eligible,
  leftover n (total_of p r) _ (loan_of-Repaid p n start r h),
)
