-- ===== src/Engine/DueDates/Working.antt =====
-- Where the working-day loop of app/compliance/engine/due_dates.py ends.
use plutus_hr_system.Prelude.{
  ℕ, zero, suc, ◌+◌, ◌*◌, ◌%◌, ◌≤◌, ◌<◌, ◌≡◌, refl, sym, ap, ◌∙◌, subst, ◌⊎◌, inl, inr, Bool, true,
  false, arith, ltb, ◌==◌, if◌then◌else◌, Bool-cases,
}
use plutus_hr_system.Calendar.{Date, IsDate, next_day, add_days, weekday}
use plutus_hr_system.Calendar.Ordinal.{ordinal-next_day}
use plutus_hr_system.Engine.Rules.{due_working_days_after_period_end}
use plutus_hr_system.Engine.DueDates.{skip_weekends, due_date}

weekday-next_day : (d : Date) → IsDate d → weekday (next_day d) ≡ (weekday d + 1) % 7
unfolding weekday
weekday-next_day d h = let step = (ordinal-next_day d h).0 in grind arith

weekday_lt : (d : Date) → weekday d < 7
unfolding weekday
weekday_lt d = grind arith

abbrev pub is_working : Date → Bool
is_working d = ltb (weekday d) 5

-- The working days among the next `k` days.
abbrev pub working_after : ℕ → Date → ℕ
working_after zero d = 0
working_after (suc k) d = (if is_working (next_day d) then 1 else 0) + working_after k (next_day d)

-- The rounds to the next working day from a weekday, and to the last of some.
abbrev rounds_to : ℕ → ℕ
rounds_to w = if w == 4 then 3 else if w == 5 then 2 else 1

abbrev rounds_for : ℕ → ℕ → ℕ
rounds_for zero w = 0
rounds_for (suc r) w = r * 3 + rounds_to w

-- The end of the loop: a number of days on, with as many working days passed as were asked for,
-- and on a working day.
pub record LandsAt (r : ℕ) (d result : Date) : Type 0 where
  pub days : ℕ
  pub lands : result ≡ add_days days d
  pub passed : working_after days d ≡ r
  pub last : ((r ≡ 0) × (days ≡ 0)) ⊎ (is_working result ≡ true)

no_days : (d : Date) → add_days 0 d ≡ d
unfolding add_days
no_days d = refl

lands_on :
    (r : ℕ) (d result : Date)
    → is_working (next_day d) ≡ true
    → LandsAt r (next_day d) result
    → LandsAt (suc r) d result
lands_on r d result w h = record {
  days = suc h.days;
  lands = unfold add_days in h.lands;
  passed = rw (w, h.passed) (omega arith);
  last = elim h.last [
    | inr e ↦ inr e
    | inl e ↦
        let here : result ≡ next_day d =
          h.lands ∙ ap (λ (n : ℕ). add_days n (next_day d)) e.1 ∙ no_days (next_day d) in
        inr (subst (λ (x : Date). is_working x ≡ true) (sym here) w)
  ];
}

lands_over :
    (r : ℕ) (d result : Date)
    → is_working (next_day d) ≡ false
    → LandsAt (suc r) (next_day d) result
    → LandsAt (suc r) d result
lands_over r d result w h = record {
  days = suc h.days;
  lands = unfold add_days in h.lands;
  passed = rw (w, h.passed) (omega arith);
  last = elim h.last [ inl e ↦ absurd (omega (arith, e.0)) | inr e ↦ inr e ];
}

-- The rounds that are left after one more day.
rounds_on :
    (r w v f : ℕ)
    → v ≡ (w + 1) % 7
    → w < 7
    → ltb v 5 ≡ true
    → rounds_for (suc r) w ≤ suc f
    → rounds_for r v ≤ f
rounds_on zero w v f e h k n = omega arith
rounds_on (suc r) w v f e h k n = ground arith

rounds_over :
    (r w v f : ℕ)
    → v ≡ (w + 1) % 7
    → w < 7
    → ltb v 5 ≡ false
    → rounds_for (suc r) w ≤ suc f
    → rounds_for (suc r) v ≤ f
rounds_over r w v f e h k n = ground arith

done : (f : ℕ) (d : Date) → skip_weekends f 0 d ≡ d
unfolding skip_weekends
done zero d = refl
done (suc f) d = refl

goes_on :
    (f r : ℕ) (d : Date)
    → is_working (next_day d) ≡ true
    → skip_weekends (suc f) (suc r) d ≡ skip_weekends f r (next_day d)
unfolding skip_weekends
goes_on f r d w = rw w refl

goes_over :
    (f r : ℕ) (d : Date)
    → is_working (next_day d) ≡ false
    → skip_weekends (suc f) (suc r) d ≡ skip_weekends f (suc r) (next_day d)
unfolding skip_weekends
goes_over f r d w = rw w refl

enough : (r w : ℕ) → rounds_for r w ≤ r * 3
enough zero w = omega arith
enough (suc r) w = ground arith

loop_lands :
    (f r : ℕ) (d : Date)
    → IsDate d
    → rounds_for r (weekday d) ≤ f
    → LandsAt r d (skip_weekends f r d)
loop_lands f zero d h n = record {
  days = 0;
  lands = done f d ∙ sym (no_days d);
  passed = refl;
  last = inl (refl, refl);
}
loop_lands zero (suc r) d h n = absurd (ground arith)
loop_lands (suc f) (suc r) d h n =
    let v = weekday-next_day d h in
    let next = (ordinal-next_day d h).1 in
    elim (Bool-cases (is_working (next_day d))) [
      | inl w ↦ lands_on r d _ w (
          subst (λ x. LandsAt r (next_day d) x) (sym (goes_on f r d w))
            (loop_lands f r (next_day d) next
              (rounds_on r (weekday d) (weekday (next_day d)) f v (weekday_lt d) w n)))
      | inr w ↦ lands_over r d _ w (
          subst (λ x. LandsAt (suc r) (next_day d) x) (sym (goes_over f r d w))
            (loop_lands f (suc r) (next_day d) next
              (rounds_over r (weekday d) (weekday (next_day d)) f v (weekday_lt d) w n)))
    ]

-- From a valid date, a line due some working days after the period's end is due on a working day
-- with exactly so many working days from the next day up to it, and at the period's end for none;
-- the rounds that the loop is given are enough.
pub due_date-LandsAt :
    (days : ℕ) (period_end : Date)
    → IsDate period_end
    → LandsAt days period_end (due_date (due_working_days_after_period_end days) period_end)
unfolding due_date
due_date-LandsAt days period_end h =
    loop_lands (days * 3) days period_end h (enough days (weekday period_end))
