-- ===== src/Payroll/Postings/Balanced.antt =====
-- When the journal of a payslip is accepted: app/domain/payroll/postings.py against
-- app/domain/accounting/posting_rules.py.
use Prim.Native.String.{String}
use plutus_hr_system.Prelude.{
  ℕ, ◌≤◌, ◌≡◌, refl, sym, ap, ◌∙◌, subst, ◌≢◌, inl, inr, false, Option, List, [], ◌∷◌, map, arith,
  Bool-cases, ℤ, pos, ◌+ℤ◌, ◌<ℤ◌, is_nonzero, int_laws, ok, Ensures-ok, length, All,
}
use plutus_hr_system.Accounting.{PostingLine, assert_balanced}
use plutus_hr_system.Accounting.Balance.{
  IsEntry, IsOneSided, total_debit, total_credit, assert_balanced_iff,
}
use plutus_hr_system.Payroll.Payslip.{PayslipInputs, PayslipComputation, compute_payslip}
use plutus_hr_system.Payroll.Payslip.Conservation.{Divides, IsNonneg, compute_payslip-Divides}
use plutus_hr_system.Payroll.Postings.{
  Posting, append_if, debit, credit, build_payslip_postings, payslip_line, payslip_lines,
}

zero_of : (amount : ℤ) → is_nonzero amount ≡ false → amount ≡ pos 0
zero_of amount e = ground arith

zero_add : (a : ℤ) → pos 0 +ℤ a ≡ a
zero_add a = omega int_laws

module _ (description : String) (employee : ℕ) (department : Option ℕ) (run : ℕ) where
  abbrev lines_of : List Posting → List PostingLine
  lines_of = map (payslip_line description employee department run)

  -- A list of postings with well-formed lines, and its totals.
  abbrev Totals : List Posting → ℤ → ℤ → Type 0
  Totals ps d c =
      All IsOneSided (lines_of ps)
      × (total_debit (lines_of ps) ≡ d)
      × (total_credit (lines_of ps) ≡ c)

  debit_line :
      (amount : ℤ) (account : String) (ps : List Posting) {d c : ℤ}
      → pos 0 <ℤ amount
      → Totals ps d c
      → Totals (debit account amount ∷ ps) (amount +ℤ d) c
  unfolding payslip_line
  debit_line amount account ps h (sided, ed, ec) =
      ((inl (h, refl), sided), ap (λ (x : ℤ). amount +ℤ x) ed, zero_add _ ∙ ec)

  credit_line :
      (amount : ℤ) (account : String) (ps : List Posting) {d c : ℤ}
      → pos 0 <ℤ amount
      → Totals ps d c
      → Totals (credit account amount ∷ ps) d (amount +ℤ c)
  unfolding payslip_line
  credit_line amount account ps h (sided, ed, ec) =
      ((inr (refl, h), sided), zero_add _ ∙ ed, ap (λ (x : ℤ). amount +ℤ x) ec)

  debit_if :
      (amount : ℤ) (account : String) (ps : List Posting) (d c : ℤ)
      → IsNonneg amount
      → Totals ps d c
      → Totals (append_if amount (debit account amount) ps) (amount +ℤ d) c
  unfolding append_if
  debit_if amount account ps d c h t = elim (Bool-cases (is_nonzero amount)) [
    | inl e ↦ rw e (debit_line amount account ps (ground arith) t)
    | inr e ↦ rw (e, zero_of amount e, zero_add d) t
  ]

  credit_if :
      (amount : ℤ) (account : String) (ps : List Posting) (d c : ℤ)
      → IsNonneg amount
      → Totals ps d c
      → Totals (append_if amount (credit account amount) ps) d (amount +ℤ c)
  unfolding append_if
  credit_if amount account ps d c h t = elim (Bool-cases (is_nonzero amount)) [
    | inl e ↦ rw e (credit_line amount account ps (ground arith) t)
    | inr e ↦ rw (e, zero_of amount e, zero_add c) t
  ]

  -- The totals of a payslip's journal, line by line.
  abbrev debits_of : PayslipComputation → ℤ
  debits_of c = c.gross_minor +ℤ (c.pension_employer_minor +ℤ pos 0)

  abbrev credits_of : PayslipComputation → ℤ
  credits_of c =
      c.paye_minor
      +ℤ (c.pension_employee_minor
          +ℤ c.pension_employer_minor
          +ℤ (c.nhf_minor
              +ℤ (c.loan_deduction_minor
                  +ℤ (c.benefit_deduction_minor
                      +ℤ (c.union_dues_deduction_minor +ℤ (c.net_pay_minor +ℤ pos 0))))))

  payslip-Totals :
      (i : PayslipInputs) (loan benefit dues : ℤ) (c : PayslipComputation)
      → IsNonneg loan
      → IsNonneg benefit
      → IsNonneg dues
      → pos 0 <ℤ c.gross_minor
      → Divides i loan benefit dues c
      → Totals (build_payslip_postings c) (debits_of c) (credits_of c)
  unfolding build_payslip_postings
  payslip-Totals i loan benefit dues c hl hb hd hg h = debit_line _ _ _ hg (
      debit_if _ _ _ _ _ h.pension_nonneg.1 (
        credit_if _ _ _ _ _ h.paye_nonneg (
          credit_if _ _ _ _ _ (omega (int_laws, h.pension_nonneg)) (
            credit_if _ _ _ _ _ h.nhf_nonneg (
              credit_if _ _ _ _ _ (rw h.loan_kept hl) (
                credit_if _ _ _ _ _ (rw h.benefit_kept hb) (
                  credit_if _ _ _ _ _ (rw h.dues_kept hd)
                    (credit_if _ _ _ _ _ h.net_nonneg (tt, refl, refl)))))))))

  two_lines_of :
      (l : PostingLine) (ls : List PostingLine)
      → l.credit_minor ≡ pos 0
      → pos 0 <ℤ total_credit (l ∷ ls)
      → 2 ≤ length (l ∷ ls)
  two_lines_of l [] e h = absurd (grind (int_laws, e))
  two_lines_of l (k ∷ ls) e h = omega arith

  totals_equal :
      (i : PayslipInputs) (loan benefit dues : ℤ) (c : PayslipComputation)
      → Divides i loan benefit dues c
      → debits_of c ≡ credits_of c
  totals_equal i loan benefit dues c h =
      rw (h.divides, h.loan_kept, h.benefit_kept, h.dues_kept) (omega int_laws)

  payslip-IsEntry :
      (i : PayslipInputs) (loan benefit dues : ℤ) (c : PayslipComputation)
      → pos 0 <ℤ c.gross_minor
      → Divides i loan benefit dues c
      → Totals (build_payslip_postings c) (debits_of c) (credits_of c)
      → IsEntry (payslip_lines description employee department run c)
  unfolding payslip_lines build_payslip_postings payslip_line
  payslip-IsEntry i loan benefit dues c hg h (sided, ed, ec) =
      let equal = totals_equal i loan benefit dues c h in
      let some_debit : pos 0 <ℤ debits_of c = omega (int_laws, h.pension_nonneg) in
      let some_credit : pos 0 <ℤ total_credit (lines_of (build_payslip_postings c)) =
        subst (λ (x : ℤ). pos 0 <ℤ x) (equal ∙ sym ec) some_debit in
      record {
        two_lines =
            two_lines_of
              (payslip_line description employee department run
                (debit "payroll_expense_gross" c.gross_minor))
              _ refl some_credit;
        one_sided = sided;
        balanced = ed ∙ equal ∙ sym ec;
      }

  -- The journal of every computed payslip with some gross pay is accepted: its lines are
  -- well-formed and its debits equal its credits.
  pub payslip_lines-accepted :
      (i : PayslipInputs) (loan benefit dues : ℤ) (c : PayslipComputation)
      → IsNonneg loan
      → IsNonneg benefit
      → IsNonneg dues
      → compute_payslip i loan benefit dues ≡ ok c
      → pos 0 <ℤ c.gross_minor
      → assert_balanced (payslip_lines description employee department run c) ≡ ok tt
  payslip_lines-accepted i loan benefit dues c hl hb hd e hg =
      let h =
        Ensures-ok (Divides i loan benefit dues) _ e
          (compute_payslip-Divides i loan benefit dues) in
      (assert_balanced_iff _).1 (
        payslip-IsEntry i loan benefit dues c hg h
          (payslip-Totals i loan benefit dues c hl hb hd hg h))

  -- A payslip with no gross pay has no journal that is accepted: its first line is empty on both
  -- sides.
  pub payslip_lines-zero_gross :
      (c : PayslipComputation)
      → c.gross_minor ≡ pos 0
      → assert_balanced (payslip_lines description employee department run c) ≢ ok tt
  unfolding payslip_lines build_payslip_postings payslip_line
  payslip_lines-zero_gross c z e =
      let entry = (assert_balanced_iff (payslip_lines description employee department run c)).0 e in
      ground (arith, entry.one_sided, z)
