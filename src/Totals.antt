-- ===== src/Totals.antt =====
-- The running totals that the posting rules keep by account, a Python dict updated by
-- `totals[account] = totals.get(account, 0) + amount` in the order of first use.
use Prim.Native.String.{String}
use text.Mathlib.Text.{◌==◌ as str_eq}
use text.Mathlib.TextEquality.{eq_iff}
use plutus_hr_system.Prelude.{
  ◌≡◌, inl, inr, List, [], ◌∷◌, if◌then◌else◌, Bool-cases, ℤ, pos, ◌+ℤ◌, int_laws,
}

pub add_to : String → ℤ → List (String × ℤ) → List (String × ℤ)
add_to account amount [] = (account, pos 0 +ℤ amount) ∷ []
add_to account amount ((name, total) ∷ rest) =
    if str_eq name account
    then (name, total +ℤ amount) ∷ rest
    else (name, total) ∷ add_to account amount rest

-- All entries in turn, as the loop adds them.
unfoldable pub totals_from : List (String × ℤ) → List (String × ℤ) → List (String × ℤ)
unfolding add_to
totals_from [] totals = totals
totals_from ((account, amount) ∷ entries) totals =
    totals_from entries (add_to account amount totals)

-- `sum(totals.values())`
abbrev pub sum_of : List (String × ℤ) → ℤ
sum_of [] = pos 0
sum_of ((name, total) ∷ rest) = total +ℤ sum_of rest

-- What entries put on one account.
abbrev pub amount_on : String → List (String × ℤ) → ℤ
amount_on account [] = pos 0
amount_on account ((name, amount) ∷ rest) =
    (if str_eq name account then amount else pos 0) +ℤ amount_on account rest

pub add_to-sum :
    (account : String) (amount : ℤ) (totals : List (String × ℤ))
    → sum_of (add_to account amount totals) ≡ sum_of totals +ℤ amount
unfolding add_to
add_to-sum account amount [] = omega int_laws
add_to-sum account amount ((name, total) ∷ rest) = elim (Bool-cases (str_eq name account)) [
  | inl e ↦ rw e (omega int_laws)
  | inr e ↦ rw (e, add_to-sum account amount rest) (omega int_laws)
]

pub add_to-amount_on :
    (account : String) (amount : ℤ) (totals : List (String × ℤ)) (at : String)
    → amount_on at (add_to account amount totals)
      ≡ amount_on at totals +ℤ (if str_eq account at then amount else pos 0)
unfolding add_to
add_to-amount_on account amount [] at = elim (Bool-cases (str_eq account at)) [
  | inl e ↦ rw e (omega int_laws)
  | inr e ↦ rw e (omega int_laws)
]
add_to-amount_on account amount ((name, total) ∷ rest) at =
    elim (Bool-cases (str_eq name account)) [
      | inl e ↦
          let same : name ≡ account = (eq_iff name account).0 e in
          elim (Bool-cases (str_eq account at)) [
            | inl k ↦ rw (e, same, k) (omega int_laws)
            | inr k ↦ rw (e, same, k) (omega int_laws)
          ]
      | inr e ↦ rw (e, add_to-amount_on account amount rest at) (omega int_laws)
    ]

pub totals_from-sum :
    (entries totals : List (String × ℤ))
    → sum_of (totals_from entries totals) ≡ sum_of totals +ℤ sum_of entries
unfolding totals_from
totals_from-sum [] totals = omega int_laws
totals_from-sum ((account, amount) ∷ entries) totals = grind (
  int_laws,
  totals_from-sum entries (add_to account amount totals),
  add_to-sum account amount totals,
)

pub totals_from-amount_on :
    (entries totals : List (String × ℤ)) (at : String)
    → amount_on at (totals_from entries totals) ≡ amount_on at totals +ℤ amount_on at entries
unfolding totals_from
totals_from-amount_on [] totals at = omega int_laws
totals_from-amount_on ((account, amount) ∷ entries) totals at = grind (
  int_laws,
  totals_from-amount_on entries (add_to account amount totals) at,
  add_to-amount_on account amount totals at,
)
