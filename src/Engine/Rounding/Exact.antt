-- ===== src/Engine/Rounding/Exact.antt =====
-- What `round_ratio` of app/compliance/engine/rounding.py returns, by its mode.
use plutus_hr_system.Prelude.{
  ℕ, suc, ◌+◌, ◌*◌, ◌/◌, ◌%◌, ◌≤◌, ◌<◌, ◌≡◌, refl, ap, ◌∙◌, true, arith, ltb, leb, if◌then◌else◌, ℤ,
  pos, negsuc, pos_part, ◌+ℤ◌, ◌*ℤ◌, ◌//ℤ◌, ◌≤ℤ◌, int_laws, ok,
}
use plutus_hr_system.Money.Rounding.{round_ppm}
use plutus_hr_system.Engine.Rules.{RoundingMode, Rounding}
use plutus_hr_system.Engine.Rounding.{rounded, remainder_of, round_ratio, rate_amount}

-- The number of increments of the result.
abbrev pub increments : RoundingMode → ℕ → ℕ → ℕ
increments RoundingMode.up n unit = if ltb 0 (n % unit) then n / unit + 1 else n / unit
increments RoundingMode.half_up n unit =
    if leb unit (2 * (n % unit)) then n / unit + 1 else n / unit
increments RoundingMode.down n unit = n / unit

remainder_lem : (n unit : ℕ) → 0 < unit → remainder_of (pos n) unit ≡ pos (n % unit)
unfolding ◌//ℤ◌ ◌*ℤ◌
remainder_lem n unit h = grind int_laws

rounded_lem :
    (mode : RoundingMode) (n unit : ℕ)
    → rounded mode (pos (n / unit)) (pos (n % unit)) (pos unit) ≡ pos (increments mode n unit)
unfolding ◌+ℤ◌ ◌*ℤ◌
rounded_lem RoundingMode.up n unit = ground arith
rounded_lem RoundingMode.half_up n unit = ground arith
rounded_lem RoundingMode.down n unit = refl

abbrev pub rounding_of : RoundingMode → ℕ → Rounding
rounding_of mode increment = record { mode = mode; increment_minor = pos increment }

pub round_ratio_eq :
    (n d i : ℕ) (mode : RoundingMode)
    → round_ratio (pos n) (pos (suc d)) (rounding_of mode (suc i))
      ≡ ok (pos (increments mode n (suc d * suc i) * suc i))
unfolding round_ratio ◌//ℤ◌ ◌*ℤ◌
round_ratio_eq n d i mode =
    let unit = suc d * suc i in
    let positive : ltb 0 (suc d) ≡ true = ground arith in
    rw (positive, remainder_lem n unit (grind arith), rounded_lem mode n unit) refl

-- How far from n/d the result r may be, in each mode: half an increment either way, or less than an
-- increment below, or above.
abbrev pub IsWithin : RoundingMode → ℕ → ℕ → ℕ → ℕ → Type 0
IsWithin RoundingMode.half_up n d i r =
    (2 * n < 2 * (r * d) + d * i) × (2 * (r * d) ≤ 2 * n + d * i)
IsWithin RoundingMode.down n d i r = (r * d ≤ n) × (n < r * d + d * i)
IsWithin RoundingMode.up n d i r = (n ≤ r * d) × (r * d < n + d * i)

-- The same bounds on the number of increments.
increments-IsWithin :
    (mode : RoundingMode) (n unit : ℕ) → 0 < unit → IsWithin mode n unit 1 (increments mode n unit)
increments-IsWithin RoundingMode.half_up n unit h = grind arith
increments-IsWithin RoundingMode.down n unit h = grind arith
increments-IsWithin RoundingMode.up n unit h = grind arith

IsWithin-scaled :
    (mode : RoundingMode) (n d i q : ℕ) → IsWithin mode n (d * i) 1 q → IsWithin mode n d i (q * i)
IsWithin-scaled RoundingMode.half_up n d i q h = grind arith
IsWithin-scaled RoundingMode.down n d i q h = grind arith
IsWithin-scaled RoundingMode.up n d i q h = grind arith

-- On a numerator that is not negative, a positive denominator and an increment of at least 1 the
-- code returns a whole multiple of the increment: the nearest to the exact quotient, up at a tie,
-- or the last not above it, or the first not below it, by the mode.
pub round_ratio-IsWithin :
    (n d i : ℕ) (mode : RoundingMode)
    → (q : ℕ) × (round_ratio (pos n) (pos (suc d)) (rounding_of mode (suc i))
        ≡ ok (pos (q * suc i)))
      × IsWithin mode n (suc d) (suc i) (q * suc i)
round_ratio-IsWithin n d i mode =
    let q = increments mode n (suc d * suc i) in
    (
      q,
      round_ratio_eq n d i mode,
      IsWithin-scaled mode n (suc d) (suc i) q
          (increments-IsWithin mode n (suc d * suc i) (grind arith)),
    )

half_one : (q : ℕ) → q * 1 ≡ q
half_one q = omega arith

half_up_ppm : (n : ℕ) → increments RoundingMode.half_up n 1_000_000 ≡ (n + 500_000) / 1_000_000
half_up_ppm n = ground arith

-- With rounding half up to the minor unit `rate_amount` is the rule of app/domain/money.py.
pub rate_amount_eq :
    (a r : ℕ)
    → rate_amount (pos a) (pos r) (rounding_of RoundingMode.half_up 1) ≡ ok (pos (round_ppm a r))
unfolding rate_amount ◌*ℤ◌
rate_amount_eq a r =
    let whole : increments RoundingMode.half_up (a * r) (1_000_000 * 1) * 1 ≡ round_ppm a r =
      half_one (increments RoundingMode.half_up (a * r) 1_000_000) ∙ half_up_ppm (a * r) in
    round_ratio_eq (a * r) 999_999 0 RoundingMode.half_up ∙ ap (λ (k : ℕ). ok (pos k)) whole

pub rate_amount_pos :
    (a r : ℤ)
    → pos 0 ≤ℤ a
    → pos 0 ≤ℤ r
    → rate_amount a r (rounding_of RoundingMode.half_up 1)
      ≡ ok (pos (round_ppm (pos_part a) (pos_part r)))
rate_amount_pos (pos a) (pos r) h k = rate_amount_eq a r
rate_amount_pos (pos a) (negsuc r) h k = absurd (omega arith)
rate_amount_pos (negsuc a) r h k = absurd (omega arith)
