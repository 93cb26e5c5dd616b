-- ===== src/Engine/Calculate/Counting.antt =====
-- How a line more changes what the lines of app/compliance/engine/calculate.py sum to.
use mathlib.Core.List.{append_assoc}
use plutus_hr_system.Prelude.{
  ◌≡◌, refl, ap, ◌∙◌, ◌⊎◌, inl, inr, Bool, true, List, [], ◌∷◌, ◌++◌, ℤ, ◌+ℤ◌, int_laws, Ensures,
  Ensures-skip, All, All-append,
}
use plutus_hr_system.Calendar.{Date}
use plutus_hr_system.Engine.Rules.{ContributionKind, ContributionRule}
use plutus_hr_system.Engine.Lines.{
  LineKind, StatutoryLine, line_kind, line_of, contribution_line, contribution_amount,
}
use plutus_hr_system.Engine.Calculate.{
  OnEarnings, sum_of_kind, comes_off_pay, is_employer_contribution, add_line,
}

pub sum_of_kind-append :
    (test : LineKind → Bool) (ls ms : List StatutoryLine)
    → sum_of_kind test (ls ++ ms) ≡ sum_of_kind test ls +ℤ sum_of_kind test ms
sum_of_kind-append test [] ms = omega int_laws
sum_of_kind-append test (l ∷ ls) ms = rw (sum_of_kind-append test ls ms) (omega int_laws)

abbrev pub every_kind : LineKind → Bool
every_kind kind = true

-- Each line is taken from the employee or paid by the employer.
abbrev pub IsSplit : List StatutoryLine → Type 0
IsSplit ls =
    sum_of_kind every_kind ls
    ≡ sum_of_kind comes_off_pay ls +ℤ sum_of_kind is_employer_contribution ls

-- A line of the employee or of the employer.
abbrev pub IsContribution : StatutoryLine → Type 0
IsContribution line =
    (line.kind ≡ LineKind.employee_contribution) ⊎ (line.kind ≡ LineKind.employer_contribution)

-- One line is the income tax, of this amount, and every other line is a contribution.
pub record IsLaidOut (tax_minor : ℤ) (lines : List StatutoryLine) : Type 0 where
  pub before : List StatutoryLine
  pub tax : StatutoryLine
  pub after : List StatutoryLine
  pub in_lines : lines ≡ before ++ (tax ∷ after)
  pub is_tax : tax.kind ≡ LineKind.income_tax
  pub tax_amount : tax.amount_minor ≡ tax_minor
  pub contributions_before : All IsContribution before
  pub contributions_after : All IsContribution after

-- The lines so far count what has been taken from the employee.
abbrev pub IsCounted : OnEarnings → Type 0
IsCounted p =
    (sum_of_kind comes_off_pay p.lines ≡ p.employee_on_earnings)
    × IsSplit p.lines
    × All IsContribution p.lines

pub contribution_line-kind :
    (rule : ContributionRule) (base : ℤ) (on : Date)
    → Ensures (λ line. line.kind ≡ line_kind rule.kind) (contribution_line rule base on)
unfolding contribution_line line_of
contribution_line-kind rule base on = Ensures-skip _ (contribution_amount rule base) _ (λ _. refl)

pub kind_cases :
    (k : ContributionKind) → (k ≡ ContributionKind.of_employee) ⊎ (k ≡ ContributionKind.of_employer)
kind_cases ContributionKind.of_employee = inl refl
kind_cases ContributionKind.of_employer = inr refl

pub line_kind-IsContribution :
    (kind : ContributionKind) (line : StatutoryLine)
    → line.kind ≡ line_kind kind
    → IsContribution line
line_kind-IsContribution ContributionKind.of_employee line e = inl e
line_kind-IsContribution ContributionKind.of_employer line e = inr e

pub tax-IsLaidOut :
    (tax_minor : ℤ) (lines : List StatutoryLine) (line : StatutoryLine)
    → All IsContribution lines
    → line.kind ≡ LineKind.income_tax
    → line.amount_minor ≡ tax_minor
    → IsLaidOut tax_minor (lines ++ (line ∷ []))
tax-IsLaidOut tax_minor lines line h kind amount = record {
  before = lines;
  tax = line;
  after = [];
  in_lines = refl;
  is_tax = kind;
  tax_amount = amount;
  contributions_before = h;
  contributions_after = tt;
}

pub more-IsLaidOut :
    (tax_minor : ℤ) (lines : List StatutoryLine) (line : StatutoryLine)
    → IsContribution line
    → IsLaidOut tax_minor lines
    → IsLaidOut tax_minor (lines ++ (line ∷ []))
more-IsLaidOut tax_minor lines line c h = record {
  before = h.before;
  tax = h.tax;
  after = h.after ++ (line ∷ []);
  in_lines =
      ap (λ ls. ls ++ (line ∷ [])) h.in_lines ∙ append_assoc h.before (h.tax ∷ h.after) (line ∷ []);
  is_tax = h.is_tax;
  tax_amount = h.tax_amount;
  contributions_before = h.contributions_before;
  contributions_after = All-append IsContribution h.after (line ∷ []) h.contributions_after (c, tt);
}

-- One more line of an employee, of an employer.
pub more_taken :
    (ls : List StatutoryLine) (line : StatutoryLine)
    → line.kind ≡ LineKind.employee_contribution
    → sum_of_kind comes_off_pay (ls ++ (line ∷ []))
      ≡ sum_of_kind comes_off_pay ls +ℤ line.amount_minor
more_taken ls line e = rw (sum_of_kind-append comes_off_pay ls (line ∷ []), e) (omega int_laws)

pub more_paid :
    (ls : List StatutoryLine) (line : StatutoryLine)
    → line.kind ≡ LineKind.employer_contribution
    → sum_of_kind comes_off_pay (ls ++ (line ∷ [])) ≡ sum_of_kind comes_off_pay ls
more_paid ls line e = rw (sum_of_kind-append comes_off_pay ls (line ∷ []), e) (omega int_laws)

pub more_tax :
    (ls : List StatutoryLine) (line : StatutoryLine)
    → line.kind ≡ LineKind.income_tax
    → sum_of_kind comes_off_pay (ls ++ (line ∷ []))
      ≡ sum_of_kind comes_off_pay ls +ℤ line.amount_minor
more_tax ls line e = rw (sum_of_kind-append comes_off_pay ls (line ∷ []), e) (omega int_laws)

pub more-IsSplit :
    (ls : List StatutoryLine) (line : StatutoryLine)
    → IsSplit (line ∷ [])
    → IsSplit ls
    → IsSplit (ls ++ (line ∷ []))
more-IsSplit ls line e h =
    rw
      (
        sum_of_kind-append every_kind ls (line ∷ []),
        sum_of_kind-append comes_off_pay ls (line ∷ []),
        sum_of_kind-append is_employer_contribution ls (line ∷ []),
        e,
        h,
      )
      (omega int_laws)

pub contribution-IsSplit :
    (kind : ContributionKind) (line : StatutoryLine)
    → line.kind ≡ line_kind kind
    → IsSplit (line ∷ [])
contribution-IsSplit ContributionKind.of_employee line e = rw e (omega int_laws)
contribution-IsSplit ContributionKind.of_employer line e = rw e (omega int_laws)

pub tax-IsSplit : (line : StatutoryLine) → line.kind ≡ LineKind.income_tax → IsSplit (line ∷ [])
tax-IsSplit line e = rw e (omega int_laws)

pub add_line-IsSplit :
    (rule : ContributionRule) (line : StatutoryLine) (p : OnEarnings)
    → line.kind ≡ line_kind rule.kind
    → IsSplit p.lines
    → IsSplit (add_line rule line p).lines
unfolding add_line
add_line-IsSplit rule line p e h =
    let more = more-IsSplit p.lines line (contribution-IsSplit rule.kind line e) h in
    elim (kind_cases rule.kind) [ inl k ↦ rw k more | inr k ↦ rw k more ]

pub add_line-contributions :
    (rule : ContributionRule) (line : StatutoryLine) (p : OnEarnings)
    → line.kind ≡ line_kind rule.kind
    → All IsContribution p.lines
    → All IsContribution (add_line rule line p).lines
unfolding add_line
add_line-contributions rule line p e h =
    let more =
      All-append IsContribution p.lines (line ∷ []) h
        (line_kind-IsContribution rule.kind line e, tt) in
    elim (kind_cases rule.kind) [ inl k ↦ rw k more | inr k ↦ rw k more ]

pub add_line_counts :
    (rule : ContributionRule) (line : StatutoryLine) (p : OnEarnings)
    → line.kind ≡ line_kind rule.kind
    → sum_of_kind comes_off_pay p.lines ≡ p.employee_on_earnings
    → sum_of_kind comes_off_pay (add_line rule line p).lines
      ≡ (add_line rule line p).employee_on_earnings
unfolding add_line
add_line_counts rule line p e h = elim (kind_cases rule.kind) [
  | inl k ↦
      let taken : line.kind ≡ LineKind.employee_contribution = e ∙ ap line_kind k in
      rw k (more_taken p.lines line taken ∙ ap (λ x. x +ℤ line.amount_minor) h)
  | inr k ↦
      let paid : line.kind ≡ LineKind.employer_contribution = e ∙ ap line_kind k in
      rw k (more_paid p.lines line paid ∙ h)
]

pub add_line-IsCounted :
    (rule : ContributionRule) (line : StatutoryLine) (p : OnEarnings)
    → line.kind ≡ line_kind rule.kind
    → IsCounted p
    → IsCounted (add_line rule line p)
add_line-IsCounted rule line p e h = (
  add_line_counts rule line p e h.0,
  add_line-IsSplit rule line p e h.1,
  add_line-contributions rule line p e h.2,
)
