-- ===== src/Payroll/Proration/Parts.antt =====
-- What proration (app/domain/payroll/proration.py) credits, and what it pays of one component.
use native.Mathlib.Nat.{mul-le-mul_left, le_of_mul-le-mul_left}
use plutus_hr_system.Prelude.{
  ℕ, zero, suc, ◌+◌, ◌*◌, ◌/◌, ◌≤◌, ◌<◌, ◌≡◌, refl, Bool, Option, none, some, List, arith,
}
use plutus_hr_system.Payroll.Proration.{working_days, scaled, PayComponents, credit, combine}

-- A part of a range has no more working days than the range.
pub working_days-suffix :
    (holidays : ℕ → Bool) (skipped rounds day : ℕ)
    → working_days holidays rounds (day + skipped) ≤ working_days holidays (skipped + rounds) day
unfolding working_days
working_days-suffix holidays zero rounds day =
    let same : day + 0 ≡ day = omega arith in
    let all : 0 + rounds ≡ rounds = omega arith in rw (same, all) (omega arith)
working_days-suffix holidays (suc skipped) rounds day =
    let later : day + suc skipped ≡ day + 1 + skipped = omega arith in
    let longer : suc skipped + rounds ≡ suc (skipped + rounds) = omega arith in
    rw (later, longer) (omega (arith, working_days-suffix holidays skipped rounds (day + 1)))

-- What is credited are working days.
pub credit-le :
    (holidays : ℕ → Bool) (leave : List (ℕ × ℕ)) (prior : Option PayComponents) (change : Option ℕ)
    (rounds day : ℕ)
    → (credit holidays leave prior change rounds day).0
        + (credit holidays leave prior change rounds day).1
      ≤ working_days holidays rounds day
unfolding credit working_days
credit-le holidays leave prior change zero day = omega arith
credit-le holidays leave prior change (suc rounds) day =
    ground (arith, credit-le holidays leave prior change rounds (day + 1))

scaled_bounds :
    (amount credited total : ℕ)
    → 0 < total
    → credited ≤ total
    → (scaled amount credited total ≤ amount)
      × (scaled amount total total ≡ amount)
      × (scaled amount 0 total ≡ 0)
unfolding scaled
scaled_bounds amount credited total p h = (grind arith, grind arith, grind arith)

scaled_twice :
    (current prior now before total most : ℕ)
    → 0 < total
    → now + before ≤ total
    → current ≤ most
    → prior ≤ most
    → scaled current now total + scaled prior before total ≤ most + 1
unfolding scaled
scaled_twice current prior now before total most p h c d =
    let x = (current * now + total / 2) / total in
    let y = (prior * before + total / 2) / total in
    let a : now * current ≤ now * most = mul-le-mul_left now c in
    let b : before * prior ≤ before * most = mul-le-mul_left before d in
    let all : most * (now + before) ≤ most * total = mul-le-mul_left most h in
    let u : total * x ≤ current * now + total / 2 = grind arith in
    let v : total * y ≤ prior * before + total / 2 = grind arith in
    let w : total * (x + y) ≤ total * (most + 1) = omega arith in le_of_mul-le-mul_left w p

-- What a component of the pay comes to, by its current and prior amounts.
pub record IsPart (current : ℕ) (prior : Option ℕ) (credited total paid : ℕ) : Type 0 where
  pub within : prior ≡ none → paid ≤ current
  pub within_changed :
      (before most : ℕ) → prior ≡ some before → current ≤ most → before ≤ most → paid ≤ most + 1
  pub whole : prior ≡ none → credited ≡ total → paid ≡ current
  pub nothing : credited ≡ 0 → paid ≡ 0

changed :
    (b b' current now before total most : ℕ)
    → 0 < total
    → now + before ≤ total
    → some b ≡ some b'
    → current ≤ most
    → b' ≤ most
    → combine (some b) current now before total ≤ most + 1
unfolding combine
changed b b' current now before total most p h e c d =
    let fits : b ≤ most = grind arith in
    let both = scaled_twice current b now before total most p h c fits in
    let one = (scaled_bounds current now total p (omega arith)).0 in ground arith

pub combine-IsPart :
    (prior : Option ℕ) (current now before total : ℕ)
    → 0 < total
    → now + before ≤ total
    → (prior ≡ none → before ≡ 0)
    → IsPart current prior (now + before) total (combine prior current now before total)
unfolding combine
combine-IsPart none current now before total p h k =
    let none_before : before ≡ 0 = k refl in
    record {
      within = λ e. (scaled_bounds current now total p (omega arith)).0;
      within_changed = λ b m e. cc;
      whole = λ e all.
          let same : now ≡ total = omega arith in
          rw same (scaled_bounds current total total p (omega arith)).1;
      nothing = λ e.
          let same : now ≡ 0 = omega arith in
          rw same (scaled_bounds current 0 total p (omega arith)).2;
    }
combine-IsPart (some b) current now before total p h k = record {
  within = λ e. cc;
  within_changed = λ b' most e c d. changed b b' current now before total most p h e c d;
  whole = λ e. cc;
  nothing = λ e.
      let no_now : now ≡ 0 = omega arith in
      let no_before : before ≡ 0 = omega arith in
      rw (no_now, no_before) (scaled_bounds current 0 total p (omega arith)).2;
}

pub credit-none :
    (holidays : ℕ → Bool) (leave : List (ℕ × ℕ)) (change : Option ℕ) (rounds day : ℕ)
    → (credit holidays leave none change rounds day).1 ≡ 0
unfolding credit
credit-none holidays leave change zero day = refl
credit-none holidays leave change (suc rounds) day =
    ground (arith, credit-none holidays leave change rounds (day + 1))
