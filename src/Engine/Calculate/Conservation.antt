-- ===== src/Engine/Calculate/Conservation.antt =====
-- What a payslip of app/compliance/engine/calculate.py adds up to.
use plutus_hr_system.Prelude.{
  ◌≡◌, refl, sym, ap, ◌∙◌, inl, inr, false, List, [], ◌∷◌, ◌++◌, arith, Bool-cases, ℤ, pos, negsuc,
  ◌+ℤ◌, ◌-ℤ◌, ◌≤ℤ◌, is_neg, int_laws, ok, ◌>>◌, raise_if, Ensures, Ensures-bind, Ensures-skip,
}
use plutus_hr_system.Errors.{net_pay_negative}
use plutus_hr_system.Calendar.{Date}
use plutus_hr_system.Engine.Rules.{
  EarningCategory, ContributionKind, ContributionRule, ContributionBase, TaxMethod, IncomeTaxRule,
  CountryRuleSet, net_pay_base, earnings_base,
}
use plutus_hr_system.Engine.Lines.{
  LineKind, Earning, PayslipInputs, StatutoryLine, line_kind, applies, contribution_line,
}
use plutus_hr_system.Engine.IncomeTax.{
  IncomeTaxWorking, capped_deductions, income_tax_of, income_tax_by, tax_on, tax_line, band_tax,
  credits_of, reliefs_to_date,
}
use plutus_hr_system.Engine.Calculate.{
  OnEarnings, PayslipResult, sum_in, every_category, sum_of_kind, comes_off_pay,
  employee_deductions_minor, no_lines, contribute, on_earnings, on_net, net_after, net_of,
  result_of, check_inputs, calculate_payslip,
}
use plutus_hr_system.Engine.Calculate.Counting.{
  IsSplit, IsLaidOut, line_kind-IsContribution, tax-IsLaidOut, more-IsLaidOut, IsCounted,
  contribution_line-kind, more_taken, more_paid, more_tax, more-IsSplit, contribution-IsSplit,
  tax-IsSplit, add_line-IsCounted,
}

-- The sum of the earnings, in their order.
abbrev pub total_earned : List Earning → ℤ
total_earned [] = pos 0
total_earned (e ∷ es) = e.amount_minor +ℤ total_earned es

once :
    (c : EarningCategory) (amount : ℤ) (es : List Earning)
    → sum_in every_category (record { category = c; amount_minor = amount } ∷ es)
      ≡ amount +ℤ sum_in every_category es
unfolding sum_in
once EarningCategory.basic amount es = omega int_laws
once EarningCategory.housing amount es = omega int_laws
once EarningCategory.transport amount es = omega int_laws
once EarningCategory.fixed_allowance amount es = omega int_laws
once EarningCategory.variable amount es = omega int_laws
once EarningCategory.other amount es = omega int_laws

-- Each earning is in one category.
sum_in_every : (es : List Earning) → sum_in every_category es ≡ total_earned es
sum_in_every [] = unfold sum_in in omega int_laws
sum_in_every (e ∷ es) =
    once e.category e.amount_minor es ∙ ap (λ x. e.amount_minor +ℤ x) (sum_in_every es)

contribute-IsCounted :
    (base : ContributionBase) (rule : ContributionRule) (inputs : PayslipInputs) (p : OnEarnings)
    → IsCounted p
    → Ensures IsCounted (contribute base rule inputs p)
unfolding contribute
contribute-IsCounted net_pay_base rule inputs p h = h
contribute-IsCounted (earnings_base categories) rule inputs p h =
    Ensures-bind _ IsCounted _ _
      (contribution_line-kind rule (sum_in categories inputs.earnings) inputs.period_end)
      (λ line e. add_line-IsCounted rule line p e h)

on_earnings-IsCounted :
    (rules : List ContributionRule) (inputs : PayslipInputs) (p : OnEarnings)
    → IsCounted p
    → Ensures IsCounted (on_earnings rules inputs p)
unfolding on_earnings
on_earnings-IsCounted [] inputs p h = h
on_earnings-IsCounted (rule ∷ rules) inputs p h =
    Ensures-skip IsCounted (applies rule inputs.facts) _ (λ applied.
      Ensures-bind IsCounted IsCounted _ _
        (elim (Bool-cases applied) [
          | inl a ↦ rw a (contribute-IsCounted rule.base rule inputs p h)
          | inr a ↦ rw a h
        ])
        (λ after k. on_earnings-IsCounted rules inputs after k))

-- The income tax is the amount of its line.
IsTaxed : StatutoryLine × IncomeTaxWorking → Type 0
IsTaxed (line, working) =
    (line.kind ≡ LineKind.income_tax) × (line.amount_minor ≡ working.tax_minor)

tax_on-IsTaxed :
    (rule : IncomeTaxRule) (earnings deductions reliefs withheld : ℤ) (inputs : PayslipInputs)
    → Ensures IsTaxed (tax_on rule earnings deductions reliefs withheld inputs)
unfolding tax_on tax_line IsTaxed
tax_on-IsTaxed rule earnings deductions reliefs withheld inputs =
    Ensures-skip IsTaxed (band_tax _ rule) _ (λ before.
      Ensures-skip IsTaxed (credits_of rule.credits inputs.facts) _ (λ credits. (refl, refl)))

income_tax_by-IsTaxed :
    (method : TaxMethod) (rule : IncomeTaxRule) (earnings deductions : ℤ) (inputs : PayslipInputs)
    → Ensures IsTaxed (income_tax_by method rule earnings deductions inputs)
unfolding income_tax_by
income_tax_by-IsTaxed TaxMethod.per_period rule earnings deductions inputs =
    tax_on-IsTaxed rule earnings deductions (pos 0) (pos 0) inputs
income_tax_by-IsTaxed TaxMethod.cumulative_annual rule earnings deductions inputs =
    Ensures-skip IsTaxed (reliefs_to_date rule.reliefs inputs) _
      (λ reliefs. tax_on-IsTaxed rule _ _ reliefs _ inputs)

-- What the contributions on net pay take is taken off it.
IsNetted : ℤ → ℤ → List StatutoryLine × ℤ → Type 0
IsNetted gross tax (lines, net) =
    (sum_of_kind comes_off_pay lines +ℤ net ≡ gross) × IsSplit lines × IsLaidOut tax lines

more_netted :
    (kind : ContributionKind) (lines : List StatutoryLine) (line : StatutoryLine) (net : ℤ)
    → line.kind ≡ line_kind kind
    → sum_of_kind comes_off_pay (lines ++ (line ∷ [])) +ℤ net_after kind net line.amount_minor
      ≡ sum_of_kind comes_off_pay lines +ℤ net
more_netted ContributionKind.of_employee lines line net e =
    grind (int_laws, more_taken lines line e)
more_netted ContributionKind.of_employer lines line net e =
    ap (λ x. x +ℤ net) (more_paid lines line e)

on_net-IsNetted :
    (rules : List ContributionRule) (on : Date) (base : ℤ) (lines : List StatutoryLine)
    (net gross tax : ℤ)
    → sum_of_kind comes_off_pay lines +ℤ net ≡ gross
    → IsSplit lines
    → IsLaidOut tax lines
    → Ensures (IsNetted gross tax) (on_net rules on base lines net)
unfolding on_net IsNetted
on_net-IsNetted [] on base lines net gross tax h k o = (h, k, o)
on_net-IsNetted (rule ∷ rules) on base lines net gross tax h k o =
    Ensures-bind _ (IsNetted gross tax) (contribution_line rule base on) _
      (contribution_line-kind rule base on)
      (λ (line : StatutoryLine) e.
        on_net-IsNetted rules on base (lines ++ (line ∷ []))
          (net_after rule.kind net line.amount_minor) gross tax
          (more_netted rule.kind lines line net e ∙ h)
          (more-IsSplit lines line (contribution-IsSplit rule.kind line e) k)
          (more-IsLaidOut tax lines line (line_kind-IsContribution rule.kind line e) o))

not_negative : (n : ℤ) → is_neg n ≡ false → pos 0 ≤ℤ n
not_negative (pos n) h = omega arith
not_negative (negsuc n) h = cc

-- The net pay with the lines, and its sign.
IsNet : ℤ → ℤ → List StatutoryLine × ℤ → Type 0
IsNet gross tax (lines, net) =
    (sum_of_kind comes_off_pay lines +ℤ net ≡ gross)
    × IsSplit lines
    × IsLaidOut tax lines
    × (pos 0 ≤ℤ net)

IsNet-checked :
    (gross tax : ℤ) (netted : List StatutoryLine × ℤ)
    → IsNetted gross tax netted
    → Ensures (IsNet gross tax) (raise_if (is_neg netted.1) net_pay_negative >> ok netted)
unfolding IsNetted IsNet
IsNet-checked gross tax (lines, net) h = elim (Bool-cases (is_neg net)) [
  | inl n ↦ rw n tt
  | inr n ↦ rw n (h.0, h.1, h.2, not_negative net n)
]

net_of-IsNet :
    (inputs : PayslipInputs) (earned : OnEarnings) (taxed : StatutoryLine × IncomeTaxWorking)
    → IsCounted earned
    → IsTaxed taxed
    → Ensures
        (IsNet (sum_in every_category inputs.earnings) taxed.1.tax_minor)
        (net_of inputs earned taxed)
unfolding net_of IsTaxed
net_of-IsNet inputs earned (line, working) counted (kind, amount) =
    let gross = sum_in every_category inputs.earnings in
    let net = gross -ℤ earned.employee_on_earnings -ℤ working.tax_minor in
    let start : sum_of_kind comes_off_pay (earned.lines ++ (line ∷ [])) +ℤ net ≡ gross =
      rw (more_tax earned.lines line kind, counted.0, amount) (omega int_laws) in
    elim (Bool-cases (is_neg net)) [
      | inl n ↦ rw n tt
      | inr n ↦ rw n (
          Ensures-bind (IsNetted gross working.tax_minor) (IsNet gross working.tax_minor) _ _
            (on_net-IsNetted earned.on_net_pay inputs.period_end net (earned.lines ++ (line ∷ []))
              net gross working.tax_minor start
              (more-IsSplit earned.lines line (tax-IsSplit line kind) counted.1)
              (tax-IsLaidOut working.tax_minor earned.lines line counted.2 kind amount))
            (λ netted h. IsNet-checked gross working.tax_minor netted h))
    ]

-- A payslip of the engine divides the gross pay.
pub record Divides (inputs : PayslipInputs) (result : PayslipResult) : Type 0 where
  pub earned : result.gross_minor ≡ total_earned inputs.earnings
  pub divides : result.gross_minor ≡ employee_deductions_minor result +ℤ result.net_pay_minor
  pub net_nonneg : pos 0 ≤ℤ result.net_pay_minor
  pub split : IsSplit result.lines
  pub laid_out : IsLaidOut result.income_tax.tax_minor result.lines

result_of-Divides :
    (rule_set : CountryRuleSet) (inputs : PayslipInputs) (deductions : ℤ)
    (working : IncomeTaxWorking) (netted : List StatutoryLine × ℤ)
    → IsNet (sum_in every_category inputs.earnings) working.tax_minor netted
    → Divides inputs (result_of rule_set inputs deductions working netted)
unfolding result_of IsNet
result_of-Divides rule_set inputs deductions working (lines, net) (total, split, laid_out, sign) =
    record {
      earned = sum_in_every inputs.earnings;
      divides = sym total;
      net_nonneg = sign;
      split = split;
      laid_out = laid_out;
    }

-- Every payslip that the engine calculates, whatever the rule set, divides the gross pay exactly:
-- the gross is the sum of the earnings, and the employee's contributions, the income tax and the net
-- pay, which is not negative, sum to it. One line is the income tax, at the amount of its working, and
-- every other line is a contribution of the employee or of the employer.
pub calculate_payslip-Divides :
    (rule_set : CountryRuleSet) (inputs : PayslipInputs)
    → Ensures (Divides inputs) (calculate_payslip rule_set inputs)
unfolding calculate_payslip income_tax_of
calculate_payslip-Divides rule_set inputs =
    let q = Divides inputs in
    Ensures-skip q (check_inputs inputs) _ (λ checked.
      Ensures-bind IsCounted q _ _
        (on_earnings-IsCounted rule_set.contributions inputs no_lines (refl, omega int_laws, tt))
        (λ earned counted. Ensures-skip q (capped_deductions _ _) _ (λ deductions.
          Ensures-bind IsTaxed q _ _
            (income_tax_by-IsTaxed rule_set.income_tax.method rule_set.income_tax _ _ inputs)
            (λ taxed tax.
              Ensures-bind (IsNet (sum_in every_category inputs.earnings) taxed.1.tax_minor) q _ _
                (net_of-IsNet inputs earned taxed counted tax)
                (λ netted h. result_of-Divides rule_set inputs deductions taxed.1 netted h)))))
