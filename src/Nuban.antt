-- ===== src/Nuban.antt =====
-- The check digit of Nigerian bank account numbers: app/domain/nuban.py. A text is the list of its
-- characters, each a decimal digit or some other character.
pub mod Detects
mod Tests
use plutus_hr_system.Prelude.{
  ℕ, zero, suc, ◌+◌, ◌-◌, ◌*◌, ◌%◌, Bool, true, false, not, ◌&&◌, ◌||◌, List, [], ◌∷◌, ◌++◌, ltb,
  ◌==◌, if◌then◌else◌, Result, ok, ◌>>=◌, ◌>>◌, raise_if, length,
}
use plutus_hr_system.Errors.{ValueError, malformed_digits}

pub data Character : Type 0 where
  digit : ℕ → Character
  other : Character

-- `str.isdigit` on the decimal digits; the model's digits are below 10.
abbrev pub all_digits : List Character → Bool
all_digits [] = true
all_digits (digit n ∷ cs) = ltb n 10 && all_digits cs
all_digits (other ∷ cs) = false

-- `int(d)`
abbrev pub value_of : Character → ℕ
value_of (digit n) = n
value_of other = 0

-- `_WEIGHTS`
abbrev pub weights : List ℕ
weights = 3 ∷ 7 ∷ 3 ∷ 3 ∷ 7 ∷ 3 ∷ 3 ∷ 7 ∷ 3 ∷ 3 ∷ 7 ∷ 3 ∷ []

-- `sum(digit * weight for digit, weight in zip(digits, _WEIGHTS))`
abbrev pub weighted : List Character → List ℕ → ℕ
weighted [] ws = 0
weighted (c ∷ cs) [] = 0
weighted (c ∷ cs) (w ∷ ws) = value_of c * w + weighted cs ws

unfoldable pub compute_check_digit : List Character → List Character → Result ValueError ℕ
compute_check_digit bank_code account_serial = do
  raise_if (not (length bank_code == 3) || not (all_digits bank_code))
      (malformed_digits "bank_code")
  raise_if (not (length account_serial == 9) || not (all_digits account_serial))
      (malformed_digits "account_serial")
  let total = weighted (bank_code ++ account_serial) weights
  ok ((10 - total % 10) % 10)

abbrev pub take : ℕ → List Character → List Character
take zero cs = []
take (suc n) [] = []
take (suc n) (c ∷ cs) = c ∷ take n cs

-- `account_number[n]`, on a text that is long enough.
abbrev pub char_at : ℕ → List Character → Character
char_at n [] = other
char_at zero (c ∷ cs) = c
char_at (suc n) (c ∷ cs) = char_at n cs

unfoldable pub is_valid_nuban : List Character → List Character → Result ValueError Bool
is_valid_nuban bank_code account_number =
    if not (length account_number == 10) || not (all_digits account_number) then ok false else do
      check_digit ← compute_check_digit bank_code (take 9 account_number)
      ok (check_digit == value_of (char_at 9 account_number))
