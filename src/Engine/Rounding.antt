-- ===== src/Engine/Rounding.antt =====
-- Exact rounding: app/compliance/engine/rounding.py. The divisor is positive where the division is
-- made: a well-formed rule set has a rounding increment of at least 1.
pub mod Exact
use plutus_hr_system.Prelude.{
  ℕ, not, if◌then◌else◌, ℤ, pos, pos_part, ◌+ℤ◌, ◌-ℤ◌, ◌*ℤ◌, ◌//ℤ◌, leb_ℤ, is_neg, is_pos, Result,
  ok, ◌>>=◌, ◌>>◌, raise_if,
}
use plutus_hr_system.Errors.{ValueError, negative, not_positive}
use plutus_hr_system.Engine.Rules.{RoundingMode, Rounding, ppm}

-- The remainder of Python's `divmod` at a positive divisor.
abbrev pub remainder_of : ℤ → ℕ → ℤ
remainder_of a n = a -ℤ a //ℤ n *ℤ pos n

-- `whole += …` by the rounding mode.
abbrev pub rounded : RoundingMode → ℤ → ℤ → ℤ → ℤ
rounded RoundingMode.up whole remainder unit = if is_pos remainder then whole +ℤ pos 1 else whole
rounded RoundingMode.half_up whole remainder unit =
    if leb_ℤ unit (pos 2 *ℤ remainder) then whole +ℤ pos 1 else whole
rounded RoundingMode.down whole remainder unit = whole

unfoldable pub round_ratio : ℤ → ℤ → Rounding → Result ValueError ℤ
round_ratio numerator denominator rounding = do
  raise_if (is_neg numerator) (negative "numerator")
  raise_if (not (is_pos denominator)) (not_positive "denominator")
  let unit = denominator *ℤ rounding.increment_minor
  let whole = numerator //ℤ pos_part unit
  let remainder = remainder_of numerator (pos_part unit)
  ok (rounded rounding.mode whole remainder unit *ℤ rounding.increment_minor)

unfoldable pub rate_amount : ℤ → ℤ → Rounding → Result ValueError ℤ
rate_amount base_minor rate_ppm rounding = do
  raise_if (is_neg base_minor) (negative "base_minor")
  round_ratio (base_minor *ℤ rate_ppm) (pos ppm) rounding
