-- ===== src/Loans/Installments.antt =====
-- `compute_equal_installments` of app/domain/payroll/loans.py: what it divides and how.
use plutus_hr_system.Prelude.{
  ℕ, zero, suc, ◌+◌, ◌*◌, ◌/◌, ◌%◌, ◌≤◌, ◌≡◌, refl, ap, ◌∙◌, true, List, [], ◌∷◌, arith, ltb, ℤ,
  pos, ◌+ℤ◌, ◌-ℤ◌, ◌*ℤ◌, ◌//ℤ◌, ◌≤ℤ◌, int_laws, sum_ℤ, ok, length, replicate, All, length-replicate,
}
use plutus_hr_system.Loans.{compute_equal_installments, add_to_last, first_or_zero}

remainder : (t n : ℕ) → pos t -ℤ pos (t / suc n) *ℤ pos (suc n) ≡ pos (t % suc n)
unfolding ◌*ℤ◌
remainder t n = grind int_laws

pub installments_eq :
    (t n : ℕ)
    → compute_equal_installments (pos t) (pos (suc n))
      ≡ ok (add_to_last (pos (t % suc n)) (replicate (suc n) (pos (t / suc n))))
unfolding compute_equal_installments ◌//ℤ◌
installments_eq t n =
    let positive : ltb 0 (suc n) ≡ true = ground arith in
    rw positive
      (ap (λ (r : ℤ). ok (add_to_last r (replicate (suc n) (pos (t / suc n))))) (remainder t n))

-- The first of them, also where it is the last.
pub first_lem :
    (t n : ℕ)
    → first_or_zero (add_to_last (pos (t % suc n)) (replicate (suc n) (pos (t / suc n))))
      ≡ pos (t / suc n)
unfolding add_to_last ◌+ℤ◌
first_lem t zero = ap (λ (k : ℕ). pos k) (omega arith)
first_lem t (suc n) = refl

add_to_last-length : (r : ℤ) (xs : List ℤ) → length (add_to_last r xs) ≡ length xs
unfolding add_to_last
add_to_last-length r [] = refl
add_to_last-length r (x ∷ []) = refl
add_to_last-length r (x ∷ y ∷ ys) = ap suc (add_to_last-length r (y ∷ ys))

add_to_last-sum : (r x : ℤ) (xs : List ℤ) → sum_ℤ (add_to_last r (x ∷ xs)) ≡ sum_ℤ (x ∷ xs) +ℤ r
unfolding add_to_last
add_to_last-sum r x [] = omega int_laws
add_to_last-sum r x (y ∷ ys) = rw (add_to_last-sum r y ys) (omega int_laws)

replicate-sum : (n b : ℕ) → sum_ℤ (replicate n (pos b)) ≡ pos (n * b)
replicate-sum zero b = ap (λ (k : ℕ). pos k) (omega arith)
replicate-sum (suc n) b =
    rw (replicate-sum n b) (unfold ◌+ℤ◌ in ap (λ (k : ℕ). pos k) (grind arith))

abbrev pub IsBetween : ℕ → ℕ → ℤ → Type 0
IsBetween low high x = (pos low ≤ℤ x) × (x ≤ℤ pos high)

add_to_last-IsBetween :
    (r m b n : ℕ)
    → r ≤ m
    → All (IsBetween b (b + m)) (add_to_last (pos r) (replicate (suc n) (pos b)))
unfolding add_to_last ◌+ℤ◌
add_to_last-IsBetween r m b zero h = ((omega arith, omega arith), tt)
add_to_last-IsBetween r m b (suc n) h =
    ((omega arith, omega arith), add_to_last-IsBetween r m b n h)

-- An amount that is not negative, over one period or more, is divided into as many installments as
-- there are periods. They sum to the amount, and each is at least the quotient rounded down and
-- above it by less than the number of periods.
pub compute_equal_installments_lem :
    (t n : ℕ)
    → (xs : List ℤ) × (compute_equal_installments (pos t) (pos (suc n)) ≡ ok xs)
      × (length xs ≡ suc n)
      × (sum_ℤ xs ≡ pos t)
      × All (IsBetween (t / suc n) (t / suc n + n)) xs
compute_equal_installments_lem t n =
    let base = t / suc n in
    let rest = t % suc n in
    let equal = replicate (suc n) (pos base) in
    let whole : suc n * base + rest ≡ t = grind arith in
    let total : sum_ℤ equal +ℤ pos rest ≡ pos t =
      rw (replicate-sum (suc n) base) (unfold ◌+ℤ◌ in ap (λ (k : ℕ). pos k) whole) in
    (
      add_to_last (pos rest) equal,
      installments_eq t n,
      add_to_last-length (pos rest) equal ∙ length-replicate (suc n) (pos base),
      add_to_last-sum (pos rest) (pos base) (replicate n (pos base)) ∙ total,
      add_to_last-IsBetween rest n base n (grind arith),
    )
