-- ===== src/Money/Tests.antt =====
-- The rounding rule at an exact half.
use plutus_hr_system.Prelude.{ℕ, ◌+◌, ◌*◌, ◌≤◌, ◌<◌, ◌≡◌, refl, pos, ok}
use plutus_hr_system.Money.{apply_rate_ppm}
use plutus_hr_system.Money.Rounding.{apply_rate_ppm-half_up}

apply_rate_ppm-half_up_example :
    (n : ℕ) × (apply_rate_ppm (pos 5) (pos 100_000) ≡ ok (pos n))
    × (5 * 100_000 < n * 1_000_000 + 500_000)
    × (n * 1_000_000 ≤ 5 * 100_000 + 500_000)
apply_rate_ppm-half_up_example = apply_rate_ppm-half_up 5 100_000

half_up : apply_rate_ppm (pos 5) (pos 100_000) ≡ ok (pos 1)
unfolding apply_rate_ppm
half_up = refl
