-- ===== src/Stock/Lots/Fefo.antt =====
-- A decrease that names no lot (`_LotStock.allocate`, app/services/inventory_posting.py) is taken
-- first-expiry-first-out from the lots that may be used, and refused when these do not hold enough.
use mathlib.Core.List.{Perm}
use plutus_hr_system.Prelude.{
  ◌≡◌, refl, sym, subst, inl, inr, true, false, some, List, [], ◌∷◌, arith, Bool-cases, ℤ, pos,
  ◌-ℤ◌, ◌≤ℤ◌, ◌<ℤ◌, leb_ℤ, is_neg, is_pos, min_ℤ, min_ℤ_cases, int_laws, Result, ok, err, ◌>>◌,
  raise_if, All,
}
use plutus_hr_system.Errors.{ValueError, insufficient_stock}
use plutus_hr_system.Calendar.{Date}
use plutus_hr_system.Stock.Costing.{neg}
use plutus_hr_system.Stock.Rows.{InventoryLot, PlannedMovement, Stock}
use plutus_hr_system.Stock.Lots.{take_from, candidates, allocate}
use plutus_hr_system.Stock.Lots.Candidates.{Entries, HasStock, candidates-HasStock}
use plutus_hr_system.Stock.Lots.Usable.{usable, holding, IsFefo, candidates-IsFefo}
use plutus_hr_system.Stock.Lots.Tried.{candidates-usable, holding-candidates}

abbrev pub part_of : PlannedMovement → InventoryLot → ℤ → PlannedMovement
part_of plan lot quantity = record plan { quantity_base = neg quantity; lot_id = some lot.id }

-- Lots taken in their order: each wholly, but for the last, from which no more is taken than it holds.
pub data TakenInOrder (plan : PlannedMovement) : ℤ → Entries → List PlannedMovement → Type 0 where
  enough : (lots : Entries) → TakenInOrder plan (pos 0) lots []
  last_of :
      (wanted held : ℤ) (lot : InventoryLot) (rest : Entries)
      → pos 0 <ℤ wanted
      → wanted ≤ℤ held
      → TakenInOrder plan wanted ((lot, held) ∷ rest) (part_of plan lot wanted ∷ [])
  all_of :
      (wanted held left : ℤ) (lot : InventoryLot) (rest : Entries) (parts : List PlannedMovement)
      → held ≤ℤ wanted
      → left ≡ wanted -ℤ held
      → TakenInOrder plan left rest parts
      → TakenInOrder plan wanted ((lot, held) ∷ rest) (part_of plan lot held ∷ parts)

-- Where the lots hold what is wanted nothing is left wanted, and otherwise something is.
record Settles (plan : PlannedMovement) (wanted : ℤ) (lots : Entries) (r : List PlannedMovement × ℤ)
    : Type 0 where
  covered : wanted ≤ℤ holding lots → (r.1 ≡ pos 0) × TakenInOrder plan wanted lots r.0
  short : holding lots <ℤ wanted → pos 0 <ℤ r.1

take_from_zero :
    (plan : PlannedMovement) (lots : Entries) → take_from plan (pos 0) lots ≡ ([], pos 0)
unfolding take_from
take_from_zero plan [] = refl
take_from_zero plan ((lot, held) ∷ rest) = refl

holding_from : (lots : Entries) → All HasStock lots → pos 0 ≤ℤ holding lots
holding_from [] h = omega arith
holding_from (entry ∷ rest) h = grind (int_laws, holding_from rest h.1)

sub_self : (a : ℤ) → a -ℤ a ≡ pos 0
sub_self a = omega int_laws

-- The first lot has all that is wanted.
settle_last :
    (plan : PlannedMovement) (wanted held : ℤ) (lot : InventoryLot) (rest : Entries)
    → pos 0 <ℤ wanted
    → wanted ≤ℤ held
    → All HasStock rest
    → Settles plan wanted ((lot, held) ∷ rest) (part_of plan lot wanted ∷ [], pos 0)
settle_last plan wanted held lot rest some_wanted fits h = record {
  covered = λ c. (refl, last_of wanted held lot rest some_wanted fits);
  short = λ k. absurd (grind (int_laws, holding_from rest h));
}

-- It is taken wholly, and the rest goes on.
settle_all :
    (plan : PlannedMovement) (wanted held : ℤ) (lot : InventoryLot) (rest : Entries)
    (after : List PlannedMovement × ℤ)
    → held ≤ℤ wanted
    → Settles plan (wanted -ℤ held) rest after
    → Settles plan wanted ((lot, held) ∷ rest) (part_of plan lot held ∷ after.0, after.1)
settle_all plan wanted held lot rest after fits ih = record {
  covered = λ c.
      let (none_left, taken) = ih.covered (grind int_laws) in
      (none_left, all_of wanted held (wanted -ℤ held) lot rest after.0 fits refl taken);
  short = λ k. ih.short (grind int_laws);
}

settle_none :
    (plan : PlannedMovement) (wanted : ℤ) (lots : Entries)
    → wanted ≡ pos 0
    → All HasStock lots
    → Settles plan wanted lots ([], wanted)
settle_none plan wanted lots e h = record {
  covered = λ c. (e, subst (λ w. TakenInOrder plan w lots []) (sym e) (enough lots));
  short = λ k. absurd (grind (int_laws, holding_from lots h));
}

take_from_none : (plan : PlannedMovement) (wanted : ℤ) → take_from plan wanted [] ≡ ([], wanted)
unfolding take_from
take_from_none plan wanted = refl

take_from_stop :
    (plan : PlannedMovement) (wanted : ℤ) (entry : InventoryLot × ℤ) (rest : Entries)
    → leb_ℤ wanted (pos 0) ≡ true
    → take_from plan wanted (entry ∷ rest) ≡ ([], wanted)
unfolding take_from
take_from_stop plan wanted (lot, held) rest e = rw e refl

abbrev then_from : PlannedMovement → ℤ → InventoryLot → ℤ → Entries → List PlannedMovement × ℤ
then_from plan wanted lot take rest =
    let after = take_from plan (wanted -ℤ take) rest in (part_of plan lot take ∷ after.0, after.1)

take_from_more :
    (plan : PlannedMovement) (wanted held : ℤ) (lot : InventoryLot) (rest : Entries)
    → leb_ℤ wanted (pos 0) ≡ false
    → take_from plan wanted ((lot, held) ∷ rest)
      ≡ then_from plan wanted lot (min_ℤ held wanted) rest
unfolding take_from
take_from_more plan wanted held lot rest e = rw e refl

take_from-Settles :
    (plan : PlannedMovement) (wanted : ℤ) (lots : Entries)
    → pos 0 ≤ℤ wanted
    → All HasStock lots
    → Settles plan wanted lots (take_from plan wanted lots)
take_from-Settles plan wanted [] from h = rw (take_from_none plan wanted) (record {
  covered = λ c.
      let e : wanted ≡ pos 0 = grind int_laws in
      (e, subst (λ w. TakenInOrder plan w [] []) (sym e) (enough []));
  short = λ k. k;
})
take_from-Settles plan wanted ((lot, held) ∷ rest) from h =
    elim (Bool-cases (leb_ℤ wanted (pos 0))) [
      | inl stop ↦
          rw (take_from_stop plan wanted (lot, held) rest stop)
            (settle_none plan wanted ((lot, held) ∷ rest) (grind int_laws) h)
      | inr more ↦
          rw (take_from_more plan wanted held lot rest more) (elim (min_ℤ_cases held wanted) [
            | inl (e, fits) ↦ rw e (
                settle_all plan wanted held lot rest (take_from plan (wanted -ℤ held) rest) fits
                  (take_from-Settles plan (wanted -ℤ held) rest (grind int_laws) h.1))
            | inr (e, fits) ↦
                rw (e, sub_self wanted, take_from_zero plan rest)
                  (settle_last plan wanted held lot rest (grind int_laws) fits h.1)
          ])
    ]

-- What `allocate` returns or raises: the lots of the item in the warehouse that may be used, in the
-- order in which they are to be tried, and what is taken from them.
pub record Allocates (s : Stock) (plan : PlannedMovement) (on : Date)
    (r : Result ValueError (List PlannedMovement)) : Type 0 where
  pub tried : Entries
  pub tried_lots : Perm tried (usable s plan on)
  pub tried_order : IsFefo tried
  pub covered :
      neg plan.quantity_base ≤ℤ holding (usable s plan on)
      → (parts : List PlannedMovement) × (r ≡ ok parts)
        × TakenInOrder plan (neg plan.quantity_base) tried parts
  pub short : holding (usable s plan on) <ℤ neg plan.quantity_base → r ≡ err insufficient_stock

allocated :
    (s : Stock) (plan : PlannedMovement) (on : Date) (r : List PlannedMovement × ℤ)
    → Settles plan (neg plan.quantity_base) (candidates s plan on) r
    → Allocates s plan on (raise_if (is_pos r.1) insufficient_stock >> ok r.0)
allocated s plan on r t =
    let same = holding-candidates s plan on in
    record {
      tried = candidates s plan on;
      tried_lots = candidates-usable s plan on;
      tried_order = candidates-IsFefo s plan on;
      covered = λ c. let (e, taken) = t.covered (rw same c) in (r.0, rw e refl, taken);
      short =
          λ k. let more : is_pos r.1 ≡ true = grind (int_laws, t.short (rw same k)) in rw more refl;
    }

-- A decrease that names no lot may use the lots of the item that hold something in the warehouse, and
-- where expired lots are skipped of those only the ones whose expiry is the posting date or later, or
-- that have none. Where these together hold what is wanted it is split over them: they are taken in an
-- order by expiry, earliest first and those without an expiry last, then by creation time, then by
-- lot number, each wholly but for the last, and no more than is wanted in all. Where they hold less,
-- it is refused.
pub allocate-Allocates :
    (s : Stock) (plan : PlannedMovement) (on : Date)
    → is_neg plan.quantity_base ≡ true
    → Allocates s plan on (allocate s plan on)
unfolding allocate
allocate-Allocates s plan on down =
    allocated s plan on (take_from plan (neg plan.quantity_base) (candidates s plan on)) (
      take_from-Settles plan (neg plan.quantity_base) (candidates s plan on) (grind int_laws)
        (candidates-HasStock s plan on))
