-- ===== src/Nuban/Tests.antt =====
-- The worked example of the central bank: bank 011, number 0000014579.
use plutus_hr_system.Prelude.{ℕ, ◌≡◌, refl, ◌≢◌, true, List, [], ◌∷◌, arith, ok}
use plutus_hr_system.Nuban.{Character, digit, compute_check_digit, is_valid_nuban}
use plutus_hr_system.Nuban.Detects.{DifferAtOne, here, there, is_valid_nuban-detects}

abbrev bank_011 : List Character
bank_011 = digit 0 ∷ digit 1 ∷ digit 1 ∷ []

abbrev tail_of : ℕ → List Character
tail_of n = digit n ∷ digit 4 ∷ digit 5 ∷ digit 7 ∷ digit 9 ∷ []

abbrev number_with : ℕ → List Character
number_with n = digit 0 ∷ digit 0 ∷ digit 0 ∷ digit 0 ∷ digit 0 ∷ tail_of n

example_is_valid : is_valid_nuban bank_011 (number_with 1) ≡ ok true
unfolding is_valid_nuban compute_check_digit
example_is_valid = refl

one_digit : DifferAtOne (number_with 1) (number_with 8)
one_digit = there _ _ _ (
    there _ _ _ (
      there _ _ _ (
        there _ _ _
          (there _ _ _ (here 1 8 _ (omega arith) (omega arith) (λ e. absurd (omega (arith, e))))))))

is_valid_nuban-detects_example : is_valid_nuban bank_011 (number_with 8) ≢ ok true
is_valid_nuban-detects_example =
    is_valid_nuban-detects bank_011 (number_with 1) (number_with 8) one_digit example_is_valid
