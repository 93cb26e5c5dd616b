-- ===== src/Payroll/Proration/Bounds.antt =====
-- What proration (app/domain/payroll/proration.py) pays: no more than the full pay, all of it where
-- every working day is credited, and nothing where none is.
use plutus_hr_system.Prelude.{
  ℕ, ◌+◌, ◌-◌, ◌≤◌, ◌<◌, ◌≡◌, refl, subst, inl, inr, Bool, false, Option, none, some, List, arith,
  ltb, ◌==◌, Bool-cases,
}
use plutus_hr_system.Payroll.Proration.{
  working_days, working_days_in_range, PayComponents, ProrationResult, credit, combine, of_prior,
  each_component, later_of, prorate_pay_components,
}
use plutus_hr_system.Payroll.Proration.Parts.{
  IsPart, combine-IsPart, credit-le, credit-none, working_days-suffix,
}

-- What a component is of a pay, and of the prior pay if there is one.
abbrev pub Pays :
    PayComponents → Option PayComponents → ProrationResult → (PayComponents → ℕ) → Type 0
Pays current prior r field =
    IsPart (field current) (of_prior field prior) r.credited_working_days r.total_working_days
      (field r.components)

-- The result of the proration of a period that has working days.
pub record IsProrated (current : PayComponents) (prior : Option PayComponents) (r : ProrationResult)
    : Type 0 where
  pub credited_within : r.credited_working_days ≤ r.total_working_days
  pub basic : Pays current prior r (λ c. c.basic_minor)
  pub housing : Pays current prior r (λ c. c.housing_minor)
  pub transport : Pays current prior r (λ c. c.transport_minor)
  pub other_earnings : Pays current prior r (λ c. c.other_earnings_minor)

abbrev prorated_by : PayComponents → Option PayComponents → ℕ → ℕ → ℕ → ProrationResult
prorated_by current prior now before total = record {
  components =
      each_component (λ field. combine (of_prior field prior) (field current) now before total);
  total_working_days = total;
  credited_working_days = now + before;
}

no_prior :
    (field : PayComponents → ℕ) (prior : Option PayComponents)
    → of_prior field prior ≡ none
    → prior ≡ none
no_prior field none e = refl
no_prior field (some prior) e = cc

-- The days from the start of the tenure are days of the period.
credited_le :
    (period_start period_end hire_date : ℕ) (prior : Option PayComponents) (change : Option ℕ)
    (leave : List (ℕ × ℕ)) (holidays : ℕ → Bool)
    → ltb period_end (later_of period_start hire_date) ≡ false
    → (credit holidays leave prior change
          (period_end + 1 - later_of period_start hire_date)
          (later_of period_start hire_date)).0
        + (credit holidays leave prior change
            (period_end + 1 - later_of period_start hire_date)
            (later_of period_start hire_date)).1
      ≤ working_days_in_range period_start period_end holidays
unfolding working_days_in_range
credited_le period_start period_end hire_date prior change leave holidays started =
    let start = later_of period_start hire_date in
    let rounds = period_end + 1 - start in
    let skipped = start - period_start in
    let at : period_start + skipped ≡ start = ground arith in
    let long : skipped + rounds ≡ period_end + 1 - period_start = ground arith in
    let in_period : ltb period_end period_start ≡ false = ground arith in
    let credited = credit-le holidays leave prior change rounds start in
    let suffix : working_days holidays rounds start
        ≤ working_days holidays (period_end + 1 - period_start) period_start =
      subst (λ n. working_days holidays rounds start ≤ working_days holidays n period_start) long
        (subst
          (λ d.
            working_days holidays rounds d ≤ working_days holidays (skipped + rounds) period_start)
          at (working_days-suffix holidays skipped rounds period_start)) in
    rw in_period (omega arith)

prorated_by-IsProrated :
    (current : PayComponents) (prior : Option PayComponents) (now before total : ℕ)
    → 0 < total
    → now + before ≤ total
    → (prior ≡ none → before ≡ 0)
    → IsProrated current prior (prorated_by current prior now before total)
prorated_by-IsProrated current prior now before total p h k =
    let part = λ (field : PayComponents → ℕ).
      combine-IsPart (of_prior field prior) (field current) now before total p h
        (λ e. k (no_prior field prior e)) in
    record {
      credited_within = h;
      basic = part (λ c. c.basic_minor);
      housing = part (λ c. c.housing_minor);
      transport = part (λ c. c.transport_minor);
      other_earnings = part (λ c. c.other_earnings_minor);
    }

-- Nothing is owed for a period that ends before the employee starts.
unpaid-IsProrated :
    (current : PayComponents) (prior : Option PayComponents) (total : ℕ)
    → 0 < total
    → IsProrated current prior (record {
      components = each_component (λ field. 0);
      total_working_days = total;
      credited_working_days = 0;
    })
unpaid-IsProrated current prior total p =
    let part : (c : ℕ) (o : Option ℕ) → IsPart c o 0 total 0 = λ c o. record {
      within = λ e. omega arith;
      within_changed = λ b most e c' d. omega arith;
      whole = λ e all. absurd (omega arith);
      nothing = λ e. refl;
    } in
    record {
      credited_within = omega arith;
      basic = part _ _;
      housing = part _ _;
      transport = part _ _;
      other_earnings = part _ _;
    }

-- Proration over a period with working days credits no more of them than there are, and pays of each
-- component: nothing where no day is credited; without a change of pay, no more than the full amount,
-- and exactly it where every working day is credited; and with a change, at most one minor unit more
-- than the greater of the two amounts.
pub prorate_pay_components-IsProrated :
    (period_start period_end hire_date : ℕ) (current : PayComponents) (prior : Option PayComponents)
    (change : Option ℕ) (leave : List (ℕ × ℕ)) (holidays : ℕ → Bool)
    → 0 < working_days_in_range period_start period_end holidays
    → IsProrated current prior (
        prorate_pay_components period_start period_end hire_date current prior change leave
          holidays)
unfolding prorate_pay_components
prorate_pay_components-IsProrated period_start period_end hire_date current prior change leave
      holidays p =
    let total = working_days_in_range period_start period_end holidays in
    let start = later_of period_start hire_date in
    elim (Bool-cases (ltb period_end start)) [
      | inl after ↦ rw after (unpaid-IsProrated current prior total p)
      | inr started ↦
          let some_days : (total == 0) ≡ false = ground arith in
          rw (started, some_days)
            (prorated_by-IsProrated current prior
              (credit holidays leave prior change (period_end + 1 - start) start).0
              (credit holidays leave prior change (period_end + 1 - start) start).1 total p
              (credited_le period_start period_end hire_date prior change leave holidays started)
              (λ e. rw e (credit-none holidays leave change (period_end + 1 - start) start)))
    ]
