-- ===== src/Payroll/Statutory/Prorated.antt =====
-- How an annual amount is recognised through the year: `prorate_annual_amount` of
-- app/domain/payroll/frequency.py.
use Prim.Native.Nat.{min}
use plutus_hr_system.Prelude.{ℕ, ◌+◌, ◌*◌, ◌/◌, ◌≤◌, ◌≡◌, refl, arith, pos, ◌*ℤ◌, ◌//ℤ◌, min_ℤ, ok}
use plutus_hr_system.Payroll.Statutory.{
  PayFrequency, monthly, weekly, biweekly, periods_per_year, prorate_annual_amount,
}

min_ℤ_pos : (a b : ℕ) → min_ℤ (pos a) (pos b) ≡ pos (min a b)
unfolding min_ℤ
min_ℤ_pos a b = ground arith

recognised : (a m n : ℕ) → pos a *ℤ pos m //ℤ n ≡ pos (a * m / n)
unfolding ◌*ℤ◌ ◌//ℤ◌
recognised a m n = refl

pub prorate_annual_amount_pos :
    (a p : ℕ) (f : PayFrequency)
    → prorate_annual_amount (pos a) (pos p) f
      ≡ ok (pos (a * min p (periods_per_year f) / periods_per_year f))
unfolding prorate_annual_amount
prorate_annual_amount_pos a p f =
    let total = periods_per_year f in rw (min_ℤ_pos p total, recognised a (min p total) total)

share_mono :
    (a p q : ℕ) (f : PayFrequency)
    → p ≤ q
    → a * min p (periods_per_year f) / periods_per_year f
      ≤ a * min q (periods_per_year f) / periods_per_year f
share_mono a p q monthly h = grind arith
share_mono a p q weekly h = grind arith
share_mono a p q biweekly h = grind arith

share_full :
    (a p : ℕ) (f : PayFrequency)
    → periods_per_year f ≤ p
    → a * min p (periods_per_year f) / periods_per_year f ≡ a
share_full a p monthly h = grind arith
share_full a p weekly h = grind arith
share_full a p biweekly h = grind arith

share_le : (a p : ℕ) (f : PayFrequency) → a * min p (periods_per_year f) / periods_per_year f ≤ a
share_le a p f =
    let total = periods_per_year f in
    omega
      (arith, share_mono a p (p + total) f (omega arith), share_full a (p + total) f (omega arith))

-- An annual amount is recognised without raising; what is recognised rises from period to period,
-- never passes the annual amount, and is the whole of it from the last period of the year on.
pub prorate_annual_amount-recognises :
    (a p d : ℕ) (f : PayFrequency)
    → (x y : ℕ) × (prorate_annual_amount (pos a) (pos p) f ≡ ok (pos x))
      × (prorate_annual_amount (pos a) (pos (p + d)) f ≡ ok (pos y))
      × (x ≤ y)
      × (y ≤ a)
      × (periods_per_year f ≤ p → x ≡ a)
prorate_annual_amount-recognises a p d f =
    let total = periods_per_year f in
    (
      a * min p total / total,
      a * min (p + d) total / total,
      prorate_annual_amount_pos a p f,
      prorate_annual_amount_pos a (p + d) f,
      share_mono a p (p + d) f (omega arith),
      share_le a (p + d) f,
      share_full a p f,
    )
