-- ===== src/Nuban/Detects.antt =====
-- Which mistyped account numbers the check digit of app/domain/nuban.py detects.
use plutus_hr_system.Prelude.{
  ℕ, zero, suc, ◌+◌, ◌-◌, ◌*◌, ◌%◌, ◌≤◌, ◌<◌, ◌≡◌, refl, sym, ap, ◌∙◌, ◌≢◌, ◌⊎◌, inl, inr, Bool,
  true, not, ◌||◌, List, [], ◌∷◌, ◌++◌, arith, ◌==◌, Bool-cases, Result, ok, length, All,
  length-append,
}
use plutus_hr_system.Errors.{ValueError}
use plutus_hr_system.Nuban.{
  Character, digit, other, all_digits, value_of, weights, weighted, take, char_at,
  compute_check_digit, is_valid_nuban,
}

-- Digits below 10 that differ at exactly one place.
pub data DifferAtOne : List Character → List Character → Type 0 where
  here :
      (m n : ℕ) (cs : List Character)
      → m < 10
      → n < 10
      → m ≢ n
      → DifferAtOne (digit m ∷ cs) (digit n ∷ cs)
  there :
      (c : Character) (cs ds : List Character) → DifferAtOne cs ds → DifferAtOne (c ∷ cs) (c ∷ ds)

-- Weights that are prime to 10.
abbrev IsPrimeTo10 : ℕ → Type 0
IsPrimeTo10 w = (w ≡ 1) ⊎ ((w ≡ 3) ⊎ (w ≡ 7))

first_differs :
    (m n w a : ℕ)
    → m < 10
    → n < 10
    → m ≢ n
    → IsPrimeTo10 w
    → (m * w + a) % 10 ≡ (n * w + a) % 10
    → ⊥
first_differs m n w a hm hn d p e = grind arith

later_differ : (x a b : ℕ) → (x + a) % 10 ≡ (x + b) % 10 → a % 10 ≡ b % 10
later_differ x a b e = grind arith

weighted-DifferAtOne :
    (cs ds : List Character) (ws : List ℕ)
    → DifferAtOne cs ds
    → length cs ≤ length ws
    → All IsPrimeTo10 ws
    → weighted cs ws % 10 ≡ weighted ds ws % 10
    → ⊥
weighted-DifferAtOne _ _ [] (here m n cs hm hn d) l p e = absurd (omega arith)
weighted-DifferAtOne _ _ (w ∷ ws) (here m n cs hm hn d) l p e =
    first_differs m n w (weighted cs ws) hm hn d p.0 e
weighted-DifferAtOne _ _ [] (there c cs ds h) l p e = absurd (omega arith)
weighted-DifferAtOne _ _ (w ∷ ws) (there c cs ds h) l p e =
    weighted-DifferAtOne cs ds ws h (omega arith) p.1
      (later_differ (value_of c * w) (weighted cs ws) (weighted ds ws) e)

split_last :
    (n : ℕ) (cs : List Character) → length cs ≡ suc n → cs ≡ take n cs ++ (char_at n cs ∷ [])
split_last n [] e = absurd (omega (arith, e))
split_last zero (c ∷ []) e = refl
split_last zero (c ∷ d ∷ cs) e = absurd (omega (arith, e))
split_last (suc n) (c ∷ cs) e = ap (λ x. c ∷ x) (split_last n cs (omega (arith, e)))

append_assoc : (xs ys zs : List Character) → xs ++ ys ++ zs ≡ xs ++ (ys ++ zs)
append_assoc [] ys zs = refl
append_assoc (x ∷ xs) ys zs = ap (λ l. x ∷ l) (append_assoc xs ys zs)

weighted-append :
    (cs : List Character) (ws : List ℕ) (c : Character)
    → length cs ≡ length ws
    → weighted (cs ++ (c ∷ [])) (ws ++ (1 ∷ [])) ≡ weighted cs ws + value_of c
weighted-append [] [] c e = omega arith
weighted-append [] (w ∷ ws) c e = absurd (omega (arith, e))
weighted-append (d ∷ cs) [] c e = absurd (omega (arith, e))
weighted-append (d ∷ cs) (w ∷ ws) c e =
    rw (weighted-append cs ws c (omega (arith, e))) (omega arith)

take-length : (n : ℕ) (cs : List Character) → n ≤ length cs → length (take n cs) ≡ n
take-length zero cs h = refl
take-length (suc n) [] h = absurd (omega arith)
take-length (suc n) (c ∷ cs) h = ap suc (take-length n cs (omega arith))

digit_at : (n : ℕ) (cs : List Character) → all_digits cs ≡ true → value_of (char_at n cs) < 10
digit_at n [] e = omega arith
digit_at n (other ∷ cs) e = cc
digit_at zero (digit d ∷ cs) e = ground arith
digit_at (suc n) (digit d ∷ cs) e = digit_at n cs (ground arith)

-- The weights with the check digit's own.
abbrev all_weights : List ℕ
all_weights = weights ++ (1 ∷ [])

all_weights-IsPrimeTo10 : All IsPrimeTo10 all_weights
all_weights-IsPrimeTo10 =
    let three : IsPrimeTo10 3 = inr (inl refl) in
    let seven : IsPrimeTo10 7 = inr (inr refl) in
    let check : All IsPrimeTo10 (1 ∷ []) = (inl refl, tt) in
    let last : All IsPrimeTo10 (3 ∷ 7 ∷ 3 ∷ 1 ∷ []) = (three, (seven, (three, check))) in
    let half : All IsPrimeTo10 (3 ∷ 7 ∷ 3 ∷ 3 ∷ 7 ∷ 3 ∷ 1 ∷ []) = (three, (seven, (three, last))) in
    (three, (seven, (three, (three, (seven, (three, half))))))

-- A number that is found valid has a weighted sum, its check digit included, that 10 divides.
record HasSum (bank number : List Character) : Type 0 where
  bank_length : length bank ≡ 3
  number_length : length number ≡ 10
  sum : weighted (bank ++ number) all_weights % 10 ≡ 0

checked_sum :
    (bank number : List Character)
    → length bank ≡ 3
    → length number ≡ 10
    → all_digits number ≡ true
    → ((10 - weighted (bank ++ take 9 number) weights % 10) % 10 == value_of (char_at 9 number))
      ≡ true
    → weighted (bank ++ number) all_weights % 10 ≡ 0
checked_sum bank number hb hn digits e =
    let nine = take 9 number in
    let last = char_at 9 number in
    let twelve : length (bank ++ nine) ≡ 12 =
      length-append bank nine ∙ omega (arith, hb, take-length 9 number) in
    let whole : bank ++ number ≡ bank ++ nine ++ (last ∷ []) =
      ap (λ x. bank ++ x) (split_last 9 number hn) ∙ sym (append_assoc bank nine (last ∷ [])) in
    let below = digit_at 9 number digits in
    rw (whole, weighted-append (bank ++ nine) weights last twelve) (ground arith)

ok_inj : {a b : Bool} → Path (Result ValueError Bool) (ok a) (ok b) → a ≡ b
ok_inj e = cc

valid_sum :
    (bank number : List Character) → is_valid_nuban bank number ≡ ok true → HasSum bank number
unfolding is_valid_nuban compute_check_digit
valid_sum bank number e = elim (Bool-cases (not (length number == 10) || not (all_digits number))) [
  | inl b ↦ cc (rw b at e)
  | inr b ↦
      let number_length : length number ≡ 10 = ground arith in
      let digits : all_digits number ≡ true = ground arith in
      elim (Bool-cases (not (length bank == 3) || not (all_digits bank))) [
        | inl c ↦ cc (rw (b, c) at e)
        | inr c ↦
            let bank_length : length bank ≡ 3 = ground arith in
            elim (Bool-cases
              (not (length (take 9 number) == 9) || not (all_digits (take 9 number)))) [
                | inl s ↦ cc (rw (b, c, s) at e)
                | inr s ↦ record {
                  bank_length = bank_length;
                  number_length = number_length;
                  sum =
                      checked_sum bank number bank_length number_length digits
                        (ok_inj (rw (b, c, s) at e));
                }
              ]
      ]
]

differ_after :
    (bank cs ds : List Character) → DifferAtOne cs ds → DifferAtOne (bank ++ cs) (bank ++ ds)
differ_after [] cs ds h = h
differ_after (b ∷ bank) cs ds h = there b (bank ++ cs) (bank ++ ds) (differ_after bank cs ds h)

-- An account number that is found valid is not found valid any more once any one of its ten digits
-- is changed, the check digit included.
pub is_valid_nuban-detects :
    (bank number mistyped : List Character)
    → DifferAtOne number mistyped
    → is_valid_nuban bank number ≡ ok true
    → is_valid_nuban bank mistyped ≢ ok true
is_valid_nuban-detects bank number mistyped h valid both =
    let right = valid_sum bank number valid in
    let wrong = valid_sum bank mistyped both in
    let fits : length (bank ++ number) ≤ length all_weights =
      omega (arith, length-append bank number, right.bank_length, right.number_length) in
    weighted-DifferAtOne (bank ++ number) (bank ++ mistyped) all_weights
      (differ_after bank number mistyped h) fits all_weights-IsPrimeTo10 (right.sum ∙ sym wrong.sum)
