-- ===== src/Payroll/Benefits/Selection.antt =====
-- What `select_benefit_deductions` of app/domain/payroll/benefits.py chooses.
use mathlib.Core.List.{Memᴰ}
use plutus_hr_system.Prelude.{
  ◌≡◌, refl, sym, subst, ◌⊎◌, inl, inr, true, false, List, [], ◌∷◌, arith, leb, Bool-cases, leb→le,
  ℤ, pos, ◌+ℤ◌, ◌-ℤ◌, ◌≤ℤ◌, ◌<ℤ◌, leb_ℤ, int_laws, All,
}
use plutus_hr_system.Calendar.{ordinal}
use plutus_hr_system.Payroll.Benefits.{
  BenefitCandidate, BenefitDeduction, insert_by_date, sort_by_date, value_or_zero, select_loop,
  select_benefit_deductions,
}

abbrev pub values : List BenefitDeduction → ℤ
values [] = pos 0
values (d ∷ ds) = d.value_minor +ℤ values ds

abbrev pub deduction_of : BenefitCandidate → BenefitDeduction
deduction_of b = record { benefit_id = b.id; value_minor = value_or_zero b.value_minor }

-- A benefit is worth nothing or something, never less.
abbrev pub IsWorth : BenefitCandidate → Type 0
IsWorth b = pos 0 ≤ℤ value_or_zero b.value_minor

-- Applied whole, or too large for what remains at the end.
abbrev pub IsSettled : List BenefitDeduction → ℤ → BenefitCandidate → Type 0
IsSettled applied left b = Memᴰ (deduction_of b) applied ⊎ (left <ℤ value_or_zero b.value_minor)

select_loop-sum :
    (bs : List BenefitCandidate) (remaining : ℤ)
    → values (select_loop bs remaining).0 +ℤ (select_loop bs remaining).1 ≡ remaining
unfolding select_loop
select_loop-sum [] remaining = omega int_laws
select_loop-sum (b ∷ bs) remaining =
    let value = value_or_zero b.value_minor in
    elim (Bool-cases (leb_ℤ value remaining)) [
      | inl fits ↦ rw fits (grind (int_laws, select_loop-sum bs (remaining -ℤ value)))
      | inr over ↦ rw over (select_loop-sum bs remaining)
    ]

select_loop-nonneg :
    (bs : List BenefitCandidate) (remaining : ℤ)
    → All IsWorth bs
    → pos 0 ≤ℤ remaining
    → (pos 0 ≤ℤ (select_loop bs remaining).1) × ((select_loop bs remaining).1 ≤ℤ remaining)
unfolding select_loop
select_loop-nonneg [] remaining w h = omega arith
select_loop-nonneg (b ∷ bs) remaining w h =
    let value = value_or_zero b.value_minor in
    elim (Bool-cases (leb_ℤ value remaining)) [
      | inl fits ↦
          rw fits (grind (int_laws, select_loop-nonneg bs (remaining -ℤ value) w.1, leb→le))
      | inr over ↦ rw over (select_loop-nonneg bs remaining w.1 h)
    ]

IsSettled-cons :
    (d : BenefitDeduction) (applied : List BenefitDeduction) (left : ℤ) (bs : List BenefitCandidate)
    → All (IsSettled applied left) bs
    → All (IsSettled (d ∷ applied) left) bs
IsSettled-cons d applied left [] h = tt
IsSettled-cons d applied left (b ∷ bs) (inl m, h) =
    (inl (Memᴰ.tail m), IsSettled-cons d applied left bs h)
IsSettled-cons d applied left (b ∷ bs) (inr o, h) = (inr o, IsSettled-cons d applied left bs h)

select_take :
    (b : BenefitCandidate) (bs : List BenefitCandidate) (remaining : ℤ)
    → leb_ℤ (value_or_zero b.value_minor) remaining ≡ true
    → select_loop (b ∷ bs) remaining ≡ (
      deduction_of b ∷ (select_loop bs (remaining -ℤ value_or_zero b.value_minor)).0,
      (select_loop bs (remaining -ℤ value_or_zero b.value_minor)).1,
    )
unfolding select_loop
select_take b bs remaining fits = rw fits

select_skip :
    (b : BenefitCandidate) (bs : List BenefitCandidate) (remaining : ℤ)
    → leb_ℤ (value_or_zero b.value_minor) remaining ≡ false
    → select_loop (b ∷ bs) remaining ≡ select_loop bs remaining
unfolding select_loop
select_skip b bs remaining over = rw over

select_loop-IsSettled :
    (bs : List BenefitCandidate) (remaining : ℤ)
    → All IsWorth bs
    → pos 0 ≤ℤ remaining
    → All (IsSettled (select_loop bs remaining).0 (select_loop bs remaining).1) bs
select_loop-IsSettled [] remaining w h = tt
select_loop-IsSettled (b ∷ bs) remaining w h =
    let value = value_or_zero b.value_minor in
    elim (Bool-cases (leb_ℤ value remaining)) [
      | inl fits ↦
          let (applied, left) = select_loop bs (remaining -ℤ value) in
          subst (λ (p : List BenefitDeduction × ℤ). All (IsSettled p.0 p.1) (b ∷ bs))
            (sym (select_take b bs remaining fits))
            (
              inl (Memᴰ.head refl),
              IsSettled-cons (deduction_of b) applied left bs
                  (select_loop-IsSettled bs (remaining -ℤ value) w.1 (grind (int_laws, leb→le))),
            )
      | inr over ↦
          subst (λ (p : List BenefitDeduction × ℤ). All (IsSettled p.0 p.1) (b ∷ bs))
            (sym (select_skip b bs remaining over))
            (
              inr (ground (arith, over, select_loop-nonneg bs remaining w.1 h)),
              select_loop-IsSettled bs remaining w.1 h,
            )
    ]

insert_by_date-All {κ} :
    (P : BenefitCandidate → Type κ) (b : BenefitCandidate) (cs : List BenefitCandidate)
    → P b
    → All P cs
    → All P (insert_by_date b cs)
unfolding insert_by_date
insert_by_date-All P b [] p h = (p, tt)
insert_by_date-All P b (c ∷ cs) p h =
    elim (Bool-cases (leb (ordinal b.effective_date) (ordinal c.effective_date))) [
      | inl e ↦ rw e (p, h)
      | inr e ↦ rw e (h.0, insert_by_date-All P b cs p h.1)
    ]

sort_by_date-All {κ} :
    (P : BenefitCandidate → Type κ) (bs : List BenefitCandidate)
    → All P bs
    → All P (sort_by_date bs)
unfolding sort_by_date
sort_by_date-All P [] h = tt
sort_by_date-All P (b ∷ bs) h =
    insert_by_date-All P b (sort_by_date bs) h.0 (sort_by_date-All P bs h.1)

insert_by_date-All_inv {κ} :
    (P : BenefitCandidate → Type κ) (b : BenefitCandidate) (cs : List BenefitCandidate)
    → All P (insert_by_date b cs)
    → P b × All P cs
unfolding insert_by_date
insert_by_date-All_inv P b [] h = h
insert_by_date-All_inv P b (c ∷ cs) h =
    elim (Bool-cases (leb (ordinal b.effective_date) (ordinal c.effective_date))) [
      | inl e ↦ rw e at h
      | inr e ↦
          let k : P c × All P (insert_by_date b cs) = rw e at h in
          let (p, rest) = insert_by_date-All_inv P b cs k.1 in (p, (k.0, rest))
    ]

sort_by_date-All_inv {κ} :
    (P : BenefitCandidate → Type κ) (bs : List BenefitCandidate)
    → All P (sort_by_date bs)
    → All P bs
unfolding sort_by_date
sort_by_date-All_inv P [] h = tt
sort_by_date-All_inv P (b ∷ bs) h =
    let (p, rest) = insert_by_date-All_inv P b (sort_by_date bs) h in
    (p, sort_by_date-All_inv P bs rest)

-- The three laws of the selection: what is applied adds up to the total returned and never passes
-- the money at hand, and a benefit that is not applied is larger than all that is left at the end.
pub record Selects (benefits : List BenefitCandidate) (available : ℤ)
    (result : List BenefitDeduction × ℤ) : Type 0 where
  pub total : values result.0 ≡ result.1
  pub total_nonneg : pos 0 ≤ℤ result.1
  pub covered : result.1 ≤ℤ available
  pub settled : All (IsSettled result.0 (available -ℤ result.1)) benefits

-- On benefits with an amount that is not negative and a budget that is not negative, the amounts
-- selected sum to the total returned, the total is within the budget, and every benefit is
-- settled: selected with its own amount, or larger than the budget that is left at the end.
pub select_benefit_deductions-Selects :
    (benefits : List BenefitCandidate) (available : ℤ)
    → All IsWorth benefits
    → pos 0 ≤ℤ available
    → Selects benefits available (select_benefit_deductions benefits available)
unfolding select_benefit_deductions
select_benefit_deductions-Selects benefits available w h =
    let sorted = sort_by_date benefits in
    let ws = sort_by_date-All IsWorth benefits w in
    let (applied, left) = select_loop sorted available in
    let unspent : available -ℤ (available -ℤ left) ≡ left = omega int_laws in
    record {
      total = grind (int_laws, select_loop-sum sorted available);
      total_nonneg = omega (int_laws, select_loop-nonneg sorted available ws h);
      covered = omega (int_laws, select_loop-nonneg sorted available ws h);
      settled =
          subst (λ (x : ℤ). All (IsSettled applied x) benefits) (sym unspent)
            (sort_by_date-All_inv _ benefits (select_loop-IsSettled sorted available ws h));
    }
