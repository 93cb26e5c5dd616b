-- ===== src/Engine/Postings/Balanced.antt =====
-- The totals of the journals of app/compliance/engine/postings.py.
use Prim.Native.String.{String}
use plutus_hr_system.Prelude.{
  ◌≡◌, refl, ap, ◌∙◌, subst, inl, inr, false, List, [], ◌∷◌, ◌++◌, arith, Bool-cases, ℤ, pos, ◌+ℤ◌,
  ◌-ℤ◌, is_neg, is_nonzero, int_laws, Ensures, Ensures-bind, Ensures-skip, Ensures-raise_if,
  Ensures-ok, Result-cases,
}
use plutus_hr_system.Totals.{add_to, sum_of, add_to-sum}
use plutus_hr_system.Payroll.Postings.{Posting}
use plutus_hr_system.Engine.Rules.{CountryRuleSet}
use plutus_hr_system.Engine.Lines.{PayslipInputs, StatutoryLine}
use plutus_hr_system.Engine.Calculate.{
  PayslipResult, sum_of_kind, is_employer_contribution, employer_contributions_minor,
  calculate_payslip,
}
use plutus_hr_system.Engine.Calculate.Counting.{every_kind}
use plutus_hr_system.Engine.Calculate.Conservation.{Divides, calculate_payslip-Divides}
use plutus_hr_system.Engine.Postings.{
  combined_from, combined, employer_expenses, expense_account_of, liabilities, any_negative,
  debits_of, credits_of, build_payslip_postings, gross_pay_expense, net_pay_payable,
}

abbrev pub posted_debit : List Posting → ℤ
posted_debit [] = pos 0
posted_debit (p ∷ ps) = p.debit_minor +ℤ posted_debit ps

abbrev pub posted_credit : List Posting → ℤ
posted_credit [] = pos 0
posted_credit (p ∷ ps) = p.credit_minor +ℤ posted_credit ps

posted-append :
    (ps qs : List Posting)
    → (posted_debit (ps ++ qs) ≡ posted_debit ps +ℤ posted_debit qs)
      × (posted_credit (ps ++ qs) ≡ posted_credit ps +ℤ posted_credit qs)
posted-append [] qs = (omega int_laws, omega int_laws)
posted-append (p ∷ ps) qs =
    let (d, c) = posted-append ps qs in (rw d (omega int_laws), rw c (omega int_laws))

posted-debits_of :
    (es : List (String × ℤ))
    → (posted_debit (debits_of es) ≡ sum_of es) × (posted_credit (debits_of es) ≡ pos 0)
posted-debits_of [] = (refl, refl)
posted-debits_of ((account, amount) ∷ es) =
    let (d, c) = posted-debits_of es in (rw d refl, rw c (omega int_laws))

posted-credits_of :
    (es : List (String × ℤ))
    → (posted_credit (credits_of es) ≡ sum_of es) × (posted_debit (credits_of es) ≡ pos 0)
posted-credits_of [] = (refl, refl)
posted-credits_of ((account, amount) ∷ es) =
    let (c, d) = posted-credits_of es in (rw c refl, rw d (omega int_laws))

sum_of-append : (es fs : List (String × ℤ)) → sum_of (es ++ fs) ≡ sum_of es +ℤ sum_of fs
sum_of-append [] fs = omega int_laws
sum_of-append ((account, amount) ∷ es) fs = rw (sum_of-append es fs) (omega int_laws)

zero_of : (amount : ℤ) → is_nonzero amount ≡ false → amount ≡ pos 0
zero_of amount e = ground arith

combined_from-sum :
    (es totals : List (String × ℤ)) → sum_of (combined_from es totals) ≡ sum_of totals +ℤ sum_of es
unfolding combined_from
combined_from-sum [] totals = omega int_laws
combined_from-sum ((account, amount) ∷ es) totals = elim (Bool-cases (is_nonzero amount)) [
  | inl e ↦ rw e (
      combined_from-sum es (add_to account amount totals)
      ∙ grind (int_laws, add_to-sum account amount totals))
  | inr e ↦ rw e (combined_from-sum es totals ∙ grind (int_laws, zero_of amount e))
]

combined-sum : (es : List (String × ℤ)) → sum_of (combined es) ≡ sum_of es
unfolding combined
combined-sum es = combined_from-sum es [] ∙ omega int_laws

liabilities-sum : (ls : List StatutoryLine) → sum_of (liabilities ls) ≡ sum_of_kind every_kind ls
liabilities-sum [] = refl
liabilities-sum (l ∷ ls) = ap (λ x. l.amount_minor +ℤ x) (liabilities-sum ls)

-- Entries that sum to a total.
abbrev SumsTo : ℤ → List (String × ℤ) → Type 0
SumsTo total es = sum_of es ≡ total

zero_add : (a : ℤ) → a ≡ pos 0 +ℤ a
zero_add a = omega int_laws

employer_expenses-SumsTo :
    (ls : List StatutoryLine)
    → Ensures (SumsTo (sum_of_kind is_employer_contribution ls)) (employer_expenses ls)
unfolding employer_expenses
employer_expenses-SumsTo [] = refl
employer_expenses-SumsTo (l ∷ ls) =
    let rest = sum_of_kind is_employer_contribution ls in
    elim (Bool-cases (is_employer_contribution l.kind)) [
      | inl e ↦ rw e (
          Ensures-skip (SumsTo (l.amount_minor +ℤ rest)) (expense_account_of l) _ (λ account.
            Ensures-bind (SumsTo rest) (SumsTo (l.amount_minor +ℤ rest)) (employer_expenses ls) _
              (employer_expenses-SumsTo ls) (λ es h. ap (λ x. l.amount_minor +ℤ x) h)))
      | inr e ↦ rw e (
          subst (λ x. Ensures (SumsTo x) (employer_expenses ls)) (zero_add rest)
            (employer_expenses-SumsTo ls))
    ]

-- A journal whose debits and credits are both the given total.
abbrev pub IsBalancedAt : ℤ → List Posting → Type 0
IsBalancedAt total ps = (posted_debit ps ≡ total) × (posted_credit ps ≡ total)

journal_totals :
    (debits credits : List (String × ℤ)) (total : ℤ)
    → sum_of debits ≡ total
    → sum_of credits ≡ total
    → IsBalancedAt total (debits_of (combined debits) ++ credits_of (combined credits))
journal_totals debits credits total hd hc =
    let ds = debits_of (combined debits) in
    let cs = credits_of (combined credits) in
    let (split_debit, split_credit) = posted-append ds cs in
    let (dd, dc) = posted-debits_of (combined debits) in
    let (credited, cd) = posted-credits_of (combined credits) in
    (
      split_debit ∙ grind (int_laws, dd, cd, hd, combined-sum debits),
      split_credit ∙ grind (int_laws, dc, credited, hc, combined-sum credits),
    )

credit_total :
    (inputs : PayslipInputs) (result : PayslipResult) (others : List (String × ℤ))
    → Divides inputs result
    → sum_of (
        liabilities result.lines
        ++ others
        ++ ((net_pay_payable, result.net_pay_minor -ℤ sum_of others) ∷ []))
      ≡ result.gross_minor +ℤ employer_contributions_minor result
credit_total inputs result others h =
    let last : List (String × ℤ) = (net_pay_payable, result.net_pay_minor -ℤ sum_of others) ∷ [] in
    rw
      (
        sum_of-append (liabilities result.lines ++ others) last,
        sum_of-append (liabilities result.lines) others,
        liabilities-sum result.lines,
        h.split,
        h.divides,
      )
      (omega int_laws)

build-IsBalancedAt :
    (inputs : PayslipInputs) (result : PayslipResult) (others : List (String × ℤ))
    → Divides inputs result
    → Ensures
        (IsBalancedAt (result.gross_minor +ℤ employer_contributions_minor result))
        (build_payslip_postings result others)
unfolding build_payslip_postings
build-IsBalancedAt inputs result others h =
    let q = IsBalancedAt (result.gross_minor +ℤ employer_contributions_minor result) in
    Ensures-raise_if q (any_negative others) _ _ (λ fine.
      Ensures-raise_if q (is_neg (result.net_pay_minor -ℤ sum_of others)) _ _ (λ covered.
        Ensures-bind (SumsTo (employer_contributions_minor result)) q
          (employer_expenses result.lines) _ (employer_expenses-SumsTo result.lines)
          (λ expenses e.
            journal_totals ((gross_pay_expense, result.gross_minor) ∷ expenses) _ _
              (ap (λ x. result.gross_minor +ℤ x) e) (credit_total inputs result others h))))

-- The journal that the code builds for a payslip that the engine calculated, after any deductions it
-- accepts, has debits and credits that both equal the gross pay with the employer's contributions.
pub build_payslip_postings-IsBalancedAt :
    (rule_set : CountryRuleSet) (inputs : PayslipInputs) (others : List (String × ℤ))
    → Ensures
        (λ result.
          Ensures
            (IsBalancedAt (result.gross_minor +ℤ employer_contributions_minor result))
            (build_payslip_postings result others))
        (calculate_payslip rule_set inputs)
build_payslip_postings-IsBalancedAt rule_set inputs others =
    elim (Result-cases (calculate_payslip rule_set inputs)) [
      | inl (result, e) ↦
          let divides =
            Ensures-ok (Divides inputs) _ e (calculate_payslip-Divides rule_set inputs) in
          rw e (build-IsBalancedAt inputs result others divides)
      | inr (error, e) ↦ rw e tt
    ]
