-- ===== src/Loans/Runs.antt =====
-- What one pay run, and several after each other, take off a loan (app/services/payroll.py).
use plutus_hr_system.Prelude.{
  ℕ, zero, suc, ◌+◌, ◌-◌, ◌*◌, ◌≤◌, ◌<◌, ◌≡◌, refl, sym, ap, ◌∙◌, subst, inl, inr, true, false, ◌∷◌,
  arith, ltb, if◌then◌else◌, Bool-cases, ℤ, pos, ◌-ℤ◌, min_ℤ, int_laws, ok,
}
use Prim.Native.Nat.{min}
use plutus_hr_system.Loans.{
  Loan, LoanStatus, next_installment_amount, outstanding_loan_balance, scheduled_loan_minor,
  record_repayment, repay, repay_runs,
}

-- A loan of `total` with the installment `base`, of which `paid` is paid back.
pub record Repaid (total base paid : ℕ) (loan : Loan) : Type 0 where
  pub installment : loan.installment_minor ≡ pos base
  pub outstanding : outstanding_loan_balance loan ≡ pos (total - paid)
  pub status : loan.status ≡ (if ltb paid total then LoanStatus.active else LoanStatus.paid_off)

next_installment :
    (left base : ℕ) → next_installment_amount (pos left) (pos base) ≡ ok (pos (min left base))
unfolding next_installment_amount min_ℤ
next_installment left base = ground arith

scheduled_lem :
    (total base paid : ℕ) (loan : Loan)
    → Repaid total base paid loan
    → paid < total
    → scheduled_loan_minor loan false ≡ ok (pos (min (total - paid) base))
unfolding scheduled_loan_minor
scheduled_lem total base paid loan h lt =
    let owed : ltb 0 (total - paid) ≡ true = ground arith in
    rw (h.outstanding, h.installment, owed) (next_installment (total - paid) base)

abbrev with_repayment : Loan → ℤ → LoanStatus → Loan
with_repayment loan deduction status = record loan {
  status = status;
  repayments = record { amount_minor = deduction; run_reversed = false } ∷ loan.repayments;
}

with_repayment_outstanding :
    (loan : Loan) (d : ℤ) (status : LoanStatus)
    → outstanding_loan_balance (with_repayment loan d status) ≡ outstanding_loan_balance loan -ℤ d
unfolding outstanding_loan_balance
with_repayment_outstanding loan d status = omega int_laws

pub take_away : (left d : ℕ) → d ≤ left → pos left -ℤ pos d ≡ pos (left - d)
take_away left d h = grind int_laws

record_nothing :
    (total base paid : ℕ) (loan : Loan)
    → Repaid total base paid loan
    → Repaid total base (paid + 0) (record_repayment loan (pos 0))
unfolding record_repayment
record_nothing total base paid loan h =
    let same : paid + 0 ≡ paid = omega arith in subst (λ x. Repaid total base x loan) (sym same) h

record_some :
    (total base paid d : ℕ) (loan : Loan)
    → Repaid total base paid loan
    → paid < total
    → 0 < d
    → d ≤ total - paid
    → Repaid total base (paid + d) (record_repayment loan (pos d))
unfolding record_repayment
record_some total base paid d loan h lt positive le =
    let some_taken : ltb 0 d ≡ true = ground arith in
    let left : outstanding_loan_balance loan -ℤ pos d ≡ pos (total - (paid + d)) =
      rw h.outstanding (take_away (total - paid) d le ∙ ap (λ (n : ℕ). pos n) (omega arith)) in
    rw (some_taken, left)
      (record {
        installment = h.installment;
        outstanding = with_repayment_outstanding loan (pos d) _ ∙ left;
        status = ground arith;
      })

record_lem :
    (total base paid d : ℕ) (loan : Loan)
    → Repaid total base paid loan
    → paid < total
    → d ≤ total - paid
    → Repaid total base (paid + d) (record_repayment loan (pos d))
record_lem total base paid zero loan h lt le = record_nothing total base paid loan h
record_lem total base paid (suc d) loan h lt le =
    record_some total base paid (suc d) loan h lt (omega arith) le

-- One run: the installment, or all that is left.
pub record Repays (total base paid : ℕ) (loan : Loan) : Type 0 where
  pub after : Loan
  pub returns : repay loan ≡ ok after
  pub repaid : Repaid total base (min total (paid + base)) after

repay_pays :
    (loan : Loan) (d : ℤ)
    → loan.status ≡ LoanStatus.active
    → scheduled_loan_minor loan false ≡ ok d
    → repay loan ≡ ok (record_repayment loan d)
unfolding repay
repay_pays loan d status scheduled = simp (status, scheduled)

repay_active :
    (total base paid : ℕ) (loan : Loan)
    → Repaid total base paid loan
    → paid < total
    → Repays total base paid loan
repay_active total base paid loan h lt =
    let active : ltb paid total ≡ true = ground arith in
    let status : loan.status ≡ LoanStatus.active = rw active at h.status in
    let d = min (total - paid) base in
    let sum : paid + d ≡ min total (paid + base) = omega arith in
    record {
      after = record_repayment loan (pos d);
      returns = repay_pays loan (pos d) status (scheduled_lem total base paid loan h lt);
      repaid =
          subst (λ x. Repaid total base x (record_repayment loan (pos d))) sum
            (record_lem total base paid d loan h lt (omega arith));
    }

repay_done :
    (total base paid : ℕ) (loan : Loan)
    → Repaid total base paid loan
    → total ≡ paid
    → Repays total base paid loan
repay_done total base paid loan h e =
    let done : ltb paid total ≡ false = ground arith in
    let status : loan.status ≡ LoanStatus.paid_off = rw done at h.status in
    let sum : paid ≡ min total (paid + base) = omega arith in
    record {
      after = loan;
      returns = unfold repay in rw status refl;
      repaid = subst (λ x. Repaid total base x loan) sum h;
    }

repay_lem :
    (total base paid : ℕ) (loan : Loan)
    → Repaid total base paid loan
    → paid ≤ total
    → Repays total base paid loan
repay_lem total base paid loan h le = elim (Bool-cases (ltb paid total)) [
  | inl e ↦ repay_active total base paid loan h (ground arith)
  | inr e ↦ repay_done total base paid loan h (ground arith)
]

-- What the loan owes after a number of runs, each of which covers the installment.
pub record After (runs total base : ℕ) (loan : Loan) : Type 0 where
  pub after : Loan
  pub returns : repay_runs runs loan ≡ ok after
  pub repaid : Repaid total base (min total (runs * base)) after

pub repay_runs-Repaid :
    (runs total base : ℕ) (loan : Loan) → Repaid total base 0 loan → After runs total base loan
unfolding repay_runs
repay_runs-Repaid zero total base loan h =
    let none_paid : 0 ≡ min total (0 * base) = omega arith in
    record {
      after = loan;
      returns = refl;
      repaid = subst (λ x. Repaid total base x loan) none_paid h;
    }
repay_runs-Repaid (suc runs) total base loan h =
    let before = repay_runs-Repaid runs total base loan h in
    let next =
      repay_lem total base (min total (runs * base)) before.after before.repaid (omega arith) in
    let sum : min total (min total (runs * base) + base) ≡ min total (suc runs * base) =
      grind arith in
    record {
      after = next.after;
      returns = rw before.returns next.returns;
      repaid = subst (λ x. Repaid total base x next.after) sum next.repaid;
    }
