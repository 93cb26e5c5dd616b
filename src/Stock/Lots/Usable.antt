-- ===== src/Stock/Lots/Usable.antt =====
-- The lots that a decrease may use, described apart from `_LotStock.allocate` of
-- app/services/inventory_posting.py: those with something in them, and where expired lots are skipped
-- those that have not expired; and the order in which they are to be tried.
use plutus_hr_system.Prelude.{
  ◌<◌, ◌≡◌, ◌⊎◌, inl, inr, Bool, true, ◌&&◌, Option, none, some, List, [], ◌∷◌, arith, ltb, leb,
  ◌==◌, if◌then◌else◌, Bool-cases, ℤ, pos, ◌+ℤ◌, is_pos, All,
}
use plutus_hr_system.Calendar.{Date, ordinal}
use plutus_hr_system.Stock.Rows.{InventoryLot, PlannedMovement, Stock}
use plutus_hr_system.Stock.Lots.{text_leb, older, sooner, goes_first, candidates}
use plutus_hr_system.Stock.Lots.Candidates.{Entries, InOrder, candidates-InOrder}

-- A lot may be used up to its expiry date, and always without one.
abbrev pub in_date : Date → InventoryLot → Bool
in_date on lot = elim lot.expiry_date [
  | none ↦ true
  | some expiry ↦ leb (ordinal on) (ordinal expiry)
]

abbrev pub may_use : PlannedMovement → Date → InventoryLot × ℤ → Bool
may_use plan on entry = if plan.skip_expired then in_date on entry.0 else true

abbrev pub usable_among : Stock → PlannedMovement → Date → List InventoryLot → Entries
usable_among s plan on [] = []
usable_among s plan on (lot ∷ lots) =
    let amount = s.lot_balances plan.item_id plan.warehouse_id lot.id in
    let rest = usable_among s plan on lots in
    if is_pos amount && may_use plan on (lot, amount) then (lot, amount) ∷ rest else rest

-- The lots of the item in the warehouse that may be used, with what they hold.
abbrev pub usable : Stock → PlannedMovement → Date → Entries
usable s plan on = usable_among s plan on s.lots

-- What some lots hold together.
abbrev pub holding : Entries → ℤ
holding [] = pos 0
holding (entry ∷ rest) = entry.1 +ℤ holding rest

-- The earlier expiry by the ordinals, and a lot with an expiry before one without.
abbrev pub ExpiresFirst : Option Date → Option Date → Type 0 → Type 0
ExpiresFirst none none Tie = Tie
ExpiresFirst none (some b) Tie = ⊥
ExpiresFirst (some a) none Tie = Unit
ExpiresFirst (some a) (some b) Tie = (ordinal a < ordinal b) ⊎ ((ordinal a ≡ ordinal b) × Tie)

abbrev pub IsOlder : InventoryLot → InventoryLot → Type 0
IsOlder a b =
    (a.created_at < b.created_at)
    ⊎ ((a.created_at ≡ b.created_at) × (text_leb a.lot_number b.lot_number ≡ true))

-- Which of two lots is tried first: by expiry, then by creation time, then by number.
abbrev pub Precedes : InventoryLot → InventoryLot → Type 0
Precedes a b = ExpiresFirst a.expiry_date b.expiry_date (IsOlder a b)

abbrev pub IsFefo : Entries → Type 0
IsFefo [] = Unit
IsFefo (a ∷ rest) = All (λ b. Precedes a.0 b.0) rest × IsFefo rest

older-IsOlder : (a b : InventoryLot) → older a b ≡ true → IsOlder a b
unfolding older
older-IsOlder a b h = elim (Bool-cases (a.created_at == b.created_at)) [
  | inl e ↦ let k = rw e at h in inr (grind arith, k)
  | inr e ↦ let k = rw e at h in inl (grind arith)
]

sooner-ExpiresFirst :
    (a b : Option Date) (r : Bool) (Tie : Type 0)
    → (r ≡ true → Tie)
    → sooner a b r ≡ true
    → ExpiresFirst a b Tie
sooner-ExpiresFirst none none r Tie f h = f h
sooner-ExpiresFirst none (some b) r Tie f h = absurd cc
sooner-ExpiresFirst (some a) none r Tie f h = tt
sooner-ExpiresFirst (some a) (some b) r Tie f h = elim (Bool-cases (ltb (ordinal a) (ordinal b))) [
  | inl e ↦ inl (grind arith)
  | inr e ↦ elim (Bool-cases (ltb (ordinal b) (ordinal a))) [
    | inl k ↦ absurd (grind arith)
    | inr k ↦ inr (grind arith, f (rw (e, k) at h))
  ]
]

goes_first-Precedes : (a b : InventoryLot) → goes_first a b ≡ true → Precedes a b
unfolding goes_first
goes_first-Precedes a b =
    sooner-ExpiresFirst a.expiry_date b.expiry_date (older a b) (IsOlder a b) (older-IsOlder a b)

All-Precedes :
    (a : InventoryLot) (lots : Entries)
    → All (λ b. goes_first a b.0 ≡ true) lots
    → All (λ b. Precedes a b.0) lots
All-Precedes a [] h = tt
All-Precedes a (b ∷ lots) h = (goes_first-Precedes a b.0 h.0, All-Precedes a lots h.1)

InOrder-IsFefo : (lots : Entries) → InOrder lots → IsFefo lots
InOrder-IsFefo [] h = tt
InOrder-IsFefo (a ∷ lots) h = (All-Precedes a.0 lots h.0, InOrder-IsFefo lots h.1)

pub candidates-IsFefo :
    (s : Stock) (plan : PlannedMovement) (on : Date) → IsFefo (candidates s plan on)
candidates-IsFefo s plan on = InOrder-IsFefo _ (candidates-InOrder s plan on)
