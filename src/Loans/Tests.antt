-- ===== src/Loans/Tests.antt =====
-- A loan of 1,000.00 over three months at 5% flat.
use plutus_hr_system.Prelude.{
  ◌+◌, ◌/◌, ◌≡◌, refl, none, List, arith, ℤ, pos, ◌-ℤ◌, ◌*ℤ◌, ◌//ℤ◌, sum_ℤ, ok, length, All,
}
use plutus_hr_system.Calendar.{Date, ordinal}
use plutus_hr_system.Payroll.Statutory.{PayFrequency}
use plutus_hr_system.Loans.{Loan, compute_equal_installments, request_loan, check_loan_eligibility}
use plutus_hr_system.Loans.Installments.{IsBetween, compute_equal_installments_lem}
use plutus_hr_system.Loans.Schedule.{
  PaidBack, Leftover, total_of, eligibility, request_loan-PaidBack, request_loan-Leftover,
}

abbrev joined_on : Date
joined_on = record { year = 2024; month = 1; day = 15 }

abbrev start_on : Date
start_on = record { year = 2026; month = 3; day = 1 }

compute_equal_installments_lem_example :
    (xs : List ℤ) × (compute_equal_installments (pos 100) (pos 3) ≡ ok xs)
    × (length xs ≡ 3)
    × (sum_ℤ xs ≡ pos 100)
    × All (IsBetween (100 / 3) (100 / 3 + 2)) xs
compute_equal_installments_lem_example = compute_equal_installments_lem 100 2

eligible : eligibility joined_on (pos 500_000) PayFrequency.monthly 100_000 start_on ≡ ok tt
unfolding check_loan_eligibility ordinal ◌-ℤ◌ ◌*ℤ◌ ◌//ℤ◌
eligible = refl

request_loan-PaidBack_example :
    (loan : Loan) × (request_loan none joined_on
        (pos 500_000)
        PayFrequency.monthly
        (pos 100_000)
        (pos 3)
        start_on
        (pos 500)
      ≡ ok loan)
    × PaidBack 2 (total_of 100_000 500) (total_of 100_000 500 / 3) loan
request_loan-PaidBack_example =
    request_loan-PaidBack 2 joined_on (pos 500_000) PayFrequency.monthly 100_000 2 start_on 500
      (omega arith) eligible

request_loan-Leftover_example :
    (loan : Loan) × (request_loan none joined_on
        (pos 500_000)
        PayFrequency.monthly
        (pos 100_000)
        (pos 4)
        start_on
        (pos 501)
      ≡ ok loan)
    × Leftover 4 (total_of 100_000 501) loan
request_loan-Leftover_example =
    request_loan-Leftover joined_on (pos 500_000) PayFrequency.monthly 100_000 3 start_on 501
      (omega arith) eligible
