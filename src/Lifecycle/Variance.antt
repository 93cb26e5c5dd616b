-- ===== src/Lifecycle/Variance.antt =====
-- Validating a pay run, with the detection of what looks surprising next to the last locked run:
-- validate_pay_run and _detect_variance of app/services/pay_run_lifecycle.py.
use plutus_hr_system.Prelude.{
  ℕ, ◌+◌, ◌*◌, Bool, true, false, not, ◌&&◌, ◌||◌, Option, none, some, List, [], ◌∷◌, ◌++◌, leb,
  ◌==◌, if◌then◌else◌, ℤ, pos_part, neg_part, ◌-ℤ◌, is_nonzero, Result, ok, ◌>>=◌, ◌>>◌, raise_if,
}
use plutus_hr_system.Errors.{
  ValueError, run_not_draft, employee_without_tin, variance_not_acknowledged,
}
use plutus_hr_system.Lifecycle.Rows.{PayRunStatus, PayRun, Books, update}
use plutus_hr_system.Lifecycle.Lock.{has_status}

-- An employee, by whether the TIN is more than blanks, and whether the employee is active.
pub record Employee : Type 0 where
  pub id : ℕ
  pub has_tin : Bool
  pub is_active : Bool

pub data PayRunVarianceFlag : Type 0 where
  -- The employee, the previous gross and the new one.
  gross_swing : ℕ → ℤ → ℤ → PayRunVarianceFlag
  employee_missing : ℕ → PayRunVarianceFlag

-- abs((new - previous) / previous) >= 0.30. The float quotient of two integers is the rounded exact one,
-- so that the comparison is exact for amounts below 2 ** 50.
abbrev pub swings : ℤ → ℤ → Bool
swings previous new =
    let change = new -ℤ previous in
    leb (3 * (pos_part previous + neg_part previous)) (10 * (pos_part change + neg_part change))

unfoldable pub previous_gross : ℕ → List (ℕ × ℤ) → Option ℤ
previous_gross employee [] = none
previous_gross employee ((id, gross) ∷ rest) =
    if id == employee then some gross else previous_gross employee rest

-- The flags of the employees of the run, each simulated where there is a previous gross to compare.
unfoldable pub swing_flags :
    List (ℕ × ℤ)
    → (ℕ → Result ValueError ℤ)
    → List Employee
    → Result ValueError (List PayRunVarianceFlag)
swing_flags previous simulated [] = ok []
swing_flags previous simulated (employee ∷ employees) =
    let rest = swing_flags previous simulated employees in
    let compared : ℤ → Result ValueError (List PayRunVarianceFlag) = λ old. (do
      new ← simulated employee.id
      flags ← rest
      ok (if swings old new then gross_swing employee.id old new ∷ flags else flags)) in
    elim (previous_gross employee.id previous) [
      | none ↦ rest
      | some old ↦ if is_nonzero old then compared old else rest
    ]

unfoldable pub is_among : ℕ → List Employee → Bool
is_among id [] = false
is_among id (employee ∷ employees) = employee.id == id || is_among id employees

-- The flags of those who were paid last time, are active and are not in the run.
unfoldable pub missing_flags : List (ℕ × ℤ) → (ℕ → Bool) → List Employee → List PayRunVarianceFlag
missing_flags [] active employees = []
missing_flags ((id, gross) ∷ previous) active employees =
    let rest = missing_flags previous active employees in
    if not (is_among id employees) && active id then employee_missing id ∷ rest else rest

-- `_detect_variance`; `none` is no previous locked run.
unfoldable pub detect_variance :
    Option (List (ℕ × ℤ))
    → (ℕ → Result ValueError ℤ)
    → (ℕ → Bool)
    → List Employee
    → Result ValueError (List PayRunVarianceFlag)
detect_variance none simulated active employees = ok []
detect_variance (some previous) simulated active employees = do
  flags ← swing_flags previous simulated employees
  ok (flags ++ missing_flags previous active employees)

unfoldable pub check_tins : List Employee → Result ValueError (Unit {0})
check_tins [] = ok tt
check_tins (employee ∷ employees) = do
  raise_if (not employee.has_tin) employee_without_tin
  check_tins employees

abbrev pub is_draft : PayRunStatus → Bool
is_draft PayRunStatus.draft = true
is_draft _ = false

-- The flags that are stored, and whether they were acknowledged, outlive the error that names them.
pub record Validation : Type 0 where
  pub flags : List PayRunVarianceFlag
  pub acknowledged : Bool
  pub outcome : Result ValueError Books

abbrev pub is_none : List PayRunVarianceFlag → Bool
is_none [] = true
is_none (_ ∷ _) = false

unfoldable pub validated_with : PayRun → Bool → Books → List PayRunVarianceFlag → Validation
validated_with run override books flags = record {
  flags = flags;
  acknowledged = override;
  outcome =
      raise_if (not override && not (is_none flags)) variance_not_acknowledged
      >> ok
          (record books { statuses = update books.statuses run.id (some PayRunStatus.validated) });
}

-- `rules` is what the check of the country's approved rules raises or lets through, and `employees` the
-- rows of the run's employees. An error before the flags leaves them to the caller's rollback.
unfoldable pub validate_pay_run :
    PayRun
    → Bool
    → Result ValueError (Unit {0})
    → Option (List (ℕ × ℤ))
    → (ℕ → Result ValueError ℤ)
    → (ℕ → Bool)
    → List Employee
    → Books
    → Result ValueError Validation
validate_pay_run run override rules previous simulated active employees books = do
  raise_if (not (has_status is_draft (books.statuses run.id))) run_not_draft
  rules
  check_tins employees
  flags ← detect_variance previous simulated active employees
  ok (validated_with run override books flags)
