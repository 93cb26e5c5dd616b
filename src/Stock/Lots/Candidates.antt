-- ===== src/Stock/Lots/Candidates.antt =====
-- The lots that `_LotStock.allocate` of app/services/inventory_posting.py tries: they have something in
-- them, and stand in the order of the sort key.
use plutus_hr_system.Prelude.{
  ℕ, ◌≡◌, refl, inl, inr, Bool, true, false, Option, none, some, List, [], ◌∷◌, arith, Bool-cases,
  ℤ, is_pos, All,
}
use plutus_hr_system.Calendar.{Date}
use plutus_hr_system.Stock.Rows.{InventoryLot, PlannedMovement, Stock}
use plutus_hr_system.Stock.Lots.{
  text_leb, older, sooner, goes_first, held_lots, insert_lot, sort_lots, expired_by, fresh_lots,
  candidates,
}

-- The lots that are tried have something in them.
abbrev pub HasStock : InventoryLot × ℤ → Type 0
HasStock entry = is_pos entry.1 ≡ true

held_lots-HasStock : (held : ℕ → ℤ) (lots : List InventoryLot) → All HasStock (held_lots held lots)
unfolding held_lots
held_lots-HasStock held [] = tt
held_lots-HasStock held (lot ∷ lots) = elim (Bool-cases (is_pos (held lot.id))) [
  | inl some_held ↦ rw some_held (some_held, held_lots-HasStock held lots)
  | inr none_held ↦ rw none_held (held_lots-HasStock held lots)
]

pub insert_lot-All :
    (P : InventoryLot × ℤ → Type 0) (entry : InventoryLot × ℤ) (lots : List (InventoryLot × ℤ))
    → P entry
    → All P lots
    → All P (insert_lot entry lots)
unfolding insert_lot
insert_lot-All P entry [] p h = (p, tt)
insert_lot-All P entry (first ∷ rest) p h = elim (Bool-cases (goes_first entry.0 first.0)) [
  | inl e ↦ rw e (p, h)
  | inr e ↦ rw e (h.0, insert_lot-All P entry rest p h.1)
]

pub sort_lots-All :
    (P : InventoryLot × ℤ → Type 0) (lots : List (InventoryLot × ℤ))
    → All P lots
    → All P (sort_lots lots)
unfolding sort_lots
sort_lots-All P [] h = tt
sort_lots-All P (entry ∷ rest) h =
    insert_lot-All P entry (sort_lots rest) h.0 (sort_lots-All P rest h.1)

pub fresh_lots-All :
    (P : InventoryLot × ℤ → Type 0) (on : Date) (lots : List (InventoryLot × ℤ))
    → All P lots
    → All P (fresh_lots on lots)
unfolding fresh_lots
fresh_lots-All P on [] h = tt
fresh_lots-All P on ((lot, held) ∷ rest) h = elim (Bool-cases (expired_by on lot)) [
  | inl e ↦ rw e (fresh_lots-All P on rest h.1)
  | inr e ↦ rw e (h.0, fresh_lots-All P on rest h.1)
]

pub candidates-HasStock :
    (s : Stock) (plan : PlannedMovement) (on : Date) → All HasStock (candidates s plan on)
unfolding candidates
candidates-HasStock s plan on =
    let held : ℕ → ℤ = s.lot_balances plan.item_id plan.warehouse_id in
    let sorted : List (InventoryLot × ℤ) = sort_lots (held_lots held s.lots) in
    let all : All HasStock sorted = sort_lots-All HasStock _ (held_lots-HasStock held s.lots) in
    elim (Bool-cases plan.skip_expired) [
      | inl e ↦ simp e (fresh_lots-All HasStock on sorted all)
      | inr e ↦ simp e all
    ]

abbrev pub Entries : Type 0
Entries = List (InventoryLot × ℤ)

-- No lot stands before one that goes before it.
abbrev pub InOrder : Entries → Type 0
InOrder [] = Unit
InOrder (a ∷ rest) = All (λ b. goes_first a.0 b.0 ≡ true) rest × InOrder rest

text_leb_total : (a b : List ℕ) → text_leb a b ≡ false → text_leb b a ≡ true
unfolding text_leb
text_leb_total [] b h = cc
text_leb_total (x ∷ a) [] h = refl
text_leb_total (x ∷ a) (y ∷ b) h = ground (arith, text_leb_total a b)

text_leb_trans : (a b c : List ℕ) → text_leb a b ≡ true → text_leb b c ≡ true → text_leb a c ≡ true
unfolding text_leb
text_leb_trans [] b c h k = refl
text_leb_trans (x ∷ a) [] c h k = cc
text_leb_trans (x ∷ a) (y ∷ b) [] h k = cc
text_leb_trans (x ∷ a) (y ∷ b) (z ∷ c) h k = ground (arith, text_leb_trans a b c)

older_total : (a b : InventoryLot) → older a b ≡ false → older b a ≡ true
unfolding older
older_total a b h = ground (arith, text_leb_total a.lot_number b.lot_number)

older_trans : (a b c : InventoryLot) → older a b ≡ true → older b c ≡ true → older a c ≡ true
unfolding older
older_trans a b c h k = ground (arith, text_leb_trans a.lot_number b.lot_number c.lot_number)

sooner_total :
    (a b : Option Date) (r q : Bool)
    → (r ≡ false → q ≡ true)
    → sooner a b r ≡ false
    → sooner b a q ≡ true
sooner_total none none r q f h = f h
sooner_total none (some b) r q f h = refl
sooner_total (some a) none r q f h = cc
sooner_total (some a) (some b) r q f h = grind arith

sooner_trans :
    (a b c : Option Date) (r q p : Bool)
    → (r ≡ true → q ≡ true → p ≡ true)
    → sooner a b r ≡ true
    → sooner b c q ≡ true
    → sooner a c p ≡ true
sooner_trans none none none r q p f h k = f h k
sooner_trans none none (some c) r q p f h k = cc
sooner_trans none (some b) c r q p f h k = cc
sooner_trans (some a) b none r q p f h k = refl
sooner_trans (some a) none (some c) r q p f h k = cc
sooner_trans (some a) (some b) (some c) r q p f h k = grind arith

goes_first_total : (a b : InventoryLot) → goes_first a b ≡ false → goes_first b a ≡ true
unfolding goes_first
goes_first_total a b =
    sooner_total a.expiry_date b.expiry_date (older a b) (older b a) (older_total a b)

goes_first_trans :
    (a b c : InventoryLot) → goes_first a b ≡ true → goes_first b c ≡ true → goes_first a c ≡ true
unfolding goes_first
goes_first_trans a b c =
    sooner_trans a.expiry_date b.expiry_date c.expiry_date (older a b) (older b c) (older a c)
      (older_trans a b c)

abbrev After : InventoryLot → InventoryLot × ℤ → Type 0
After a b = goes_first a b.0 ≡ true

All-After :
    (a b : InventoryLot) (lots : Entries)
    → goes_first a b ≡ true
    → All (After b) lots
    → All (After a) lots
All-After a b [] e h = tt
All-After a b (c ∷ lots) e h = (goes_first_trans a b c.0 e h.0, All-After a b lots e h.1)

insert_lot-InOrder :
    (entry : InventoryLot × ℤ) (lots : Entries) → InOrder lots → InOrder (insert_lot entry lots)
unfolding insert_lot
insert_lot-InOrder entry [] h = (tt, tt)
insert_lot-InOrder entry (first ∷ rest) h = elim (Bool-cases (goes_first entry.0 first.0)) [
  | inl e ↦ rw e ((e, All-After entry.0 first.0 rest e h.0), h)
  | inr e ↦ rw e (
    insert_lot-All (After first.0) entry rest (goes_first_total entry.0 first.0 e) h.0,
    insert_lot-InOrder entry rest h.1,
  )
]

sort_lots-InOrder : (lots : Entries) → InOrder (sort_lots lots)
unfolding sort_lots
sort_lots-InOrder [] = tt
sort_lots-InOrder (entry ∷ rest) =
    insert_lot-InOrder entry (sort_lots rest) (sort_lots-InOrder rest)

fresh_lots-InOrder : (on : Date) (lots : Entries) → InOrder lots → InOrder (fresh_lots on lots)
unfolding fresh_lots
fresh_lots-InOrder on [] h = tt
fresh_lots-InOrder on ((lot, held) ∷ rest) h = elim (Bool-cases (expired_by on lot)) [
  | inl e ↦ rw e (fresh_lots-InOrder on rest h.1)
  | inr e ↦ rw e (fresh_lots-All (After lot) on rest h.0, fresh_lots-InOrder on rest h.1)
]

pub candidates-InOrder :
    (s : Stock) (plan : PlannedMovement) (on : Date) → InOrder (candidates s plan on)
unfolding candidates
candidates-InOrder s plan on =
    let sorted : Entries =
      sort_lots (held_lots (s.lot_balances plan.item_id plan.warehouse_id) s.lots) in
    elim (Bool-cases plan.skip_expired) [
      | inl e ↦ simp e (fresh_lots-InOrder on sorted (sort_lots-InOrder _))
      | inr e ↦ simp e (sort_lots-InOrder _)
    ]
