-- ===== src/Money/Rounding.antt =====
-- What `apply_rate_ppm` of app/domain/money.py promises: its domain, its rounding, and that it rises
-- with the amount by at most the amount.
use plutus_hr_system.Prelude.{
  ℕ, ◌+◌, ◌*◌, ◌/◌, ◌≤◌, ◌<◌, ◌≡◌, refl, arith, ℤ, pos, negsuc, pos_part, ◌≤ℤ◌, ok,
}
use plutus_hr_system.Money.{apply_rate_ppm}

-- Round-half-up on whole numbers, the specification of the code's formula.
abbrev pub round_ppm : ℕ → ℕ → ℕ
round_ppm a r = (a * r + 500_000) / 1_000_000

pub apply_rate_ppm_pos :
    (a r : ℤ)
    → pos 0 ≤ℤ a
    → pos 0 ≤ℤ r
    → apply_rate_ppm a r ≡ ok (pos (round_ppm (pos_part a) (pos_part r)))
unfolding apply_rate_ppm
apply_rate_ppm_pos (pos a) (pos r) h k = refl
apply_rate_ppm_pos (pos a) (negsuc r) h k = absurd (omega arith)
apply_rate_ppm_pos (negsuc a) r h k = absurd (omega arith)

pub round_ppm_mono : (a b r : ℕ) → a ≤ b → round_ppm a r ≤ round_ppm b r
round_ppm_mono a b r h = grind arith

pub round_ppm_lipschitz : (a d r : ℕ) → r ≤ 1_000_000 → round_ppm (a + d) r ≤ round_ppm a r + d
round_ppm_lipschitz a d r h = grind arith

pub round_ppm_le : (a r : ℕ) → r ≤ 1_000_000 → round_ppm a r ≤ a
round_ppm_le a r h = grind arith

-- On an amount and a rate that are not negative the code returns the exact product over 10^6 rounded
-- half up: within half a unit of it, and up at an exact half.
pub apply_rate_ppm-half_up :
    (a r : ℕ)
    → (n : ℕ) × (apply_rate_ppm (pos a) (pos r) ≡ ok (pos n))
      × (a * r < n * 1_000_000 + 500_000)
      × (n * 1_000_000 ≤ a * r + 500_000)
apply_rate_ppm-half_up a r = (
  round_ppm a r,
  apply_rate_ppm_pos (pos a) (pos r) (omega arith) (omega arith),
  omega arith,
  omega arith,
)
