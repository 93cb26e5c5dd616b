-- ===== src/Stock/Posting/Parts.antt =====
-- The parts of a plan (`allocate` and its use in `post_movements`,
-- app/services/inventory_posting.py) add up to the plan, each on its item, in its warehouse and, for
-- an item that tracks lots, from a lot.
use plutus_hr_system.Prelude.{
  ℕ, ◌≡◌, refl, inl, inr, Bool, true, false, ◌&&◌, List, [], ◌∷◌, arith, ◌==◌, if◌then◌else◌,
  Bool-cases, ℤ, pos, ◌+ℤ◌, ◌-ℤ◌, ◌≤ℤ◌, leb_ℤ, is_neg, is_pos, min_ℤ, int_laws, int_bounds, ok,
  Ensures, Ensures-raise_if, All,
}
use plutus_hr_system.Errors.{insufficient_stock}
use plutus_hr_system.Calendar.{Date}
use plutus_hr_system.Stock.Costing.{neg}
use plutus_hr_system.Stock.Rows.{InventoryLot, PlannedMovement, Stock}
use plutus_hr_system.Stock.Lots.{take_from, candidates, allocate}
use plutus_hr_system.Stock.Lots.Candidates.{HasStock, candidates-HasStock}
use plutus_hr_system.Stock.Posting.{parts_of, is_given}
use plutus_hr_system.Stock.Posting.Carries.{planned_at, planned_of}

pub record IsPart (tracked : Bool) (plan part : PlannedMovement) : Type 0 where
  pub part_item : part.item_id ≡ plan.item_id
  pub part_warehouse : part.warehouse_id ≡ plan.warehouse_id
  pub part_lot : is_given part.lot_id ≡ tracked
  pub part_down : is_neg plan.quantity_base ≡ true → is_neg part.quantity_base ≡ true

abbrev total_of : List PlannedMovement → ℤ
total_of [] = pos 0
total_of (part ∷ parts) = part.quantity_base +ℤ total_of parts

pub record Splits (tracked : Bool) (plan : PlannedMovement) (parts : List PlannedMovement)
    : Type 0 where
  pub all_parts : All (IsPart tracked plan) parts
  pub total : total_of parts ≡ plan.quantity_base
  pub whole_part : is_given plan.lot_id ≡ tracked → parts ≡ plan ∷ []

-- What the loop takes and what it leaves wanted make up what was wanted.
record Takes (plan : PlannedMovement) (wanted : ℤ) (r : List PlannedMovement × ℤ) : Type 0 where
  taken_parts : All (IsPart true plan) r.0
  taken_total : r.1 ≡ wanted +ℤ total_of r.0
  left_from : pos 0 ≤ℤ wanted → pos 0 ≤ℤ r.1

takes_out :
    (held wanted : ℤ)
    → is_pos held ≡ true
    → leb_ℤ wanted (pos 0) ≡ false
    → is_neg (neg (min_ℤ held wanted)) ≡ true
takes_out held wanted h k = grind int_bounds

took :
    (wanted take left total : ℤ)
    → left ≡ wanted -ℤ take +ℤ total
    → left ≡ wanted +ℤ (neg take +ℤ total)
took wanted take left total e = rw e (omega int_laws)

take_from-Takes :
    (plan : PlannedMovement) (wanted : ℤ) (lots : List (InventoryLot × ℤ))
    → All HasStock lots
    → Takes plan wanted (take_from plan wanted lots)
unfolding take_from
take_from-Takes plan wanted [] h = record {
  taken_parts = tt;
  taken_total = omega int_laws;
  left_from = λ h. h;
}
take_from-Takes plan wanted ((lot, held) ∷ rest) h =
    let take : ℤ = min_ℤ held wanted in
    let ih = take_from-Takes plan (wanted -ℤ take) rest h.1 in
    elim (Bool-cases (leb_ℤ wanted (pos 0))) [
      | inl stop ↦
          rw stop (record { taken_parts = tt; taken_total = omega int_laws; left_from = λ h. h })
      | inr more ↦ rw more (record {
        taken_parts = (
          record {
            part_item = refl;
            part_warehouse = refl;
            part_lot = refl;
            part_down = λ down. takes_out held wanted h.0 more;
          },
          ih.taken_parts,
        );
        taken_total = took wanted take _ _ ih.taken_total;
        left_from = λ h. ih.left_from (omega int_bounds);
      })
    ]

settled :
    (q left total : ℤ)
    → left ≡ neg q +ℤ total
    → (pos 0 ≤ℤ neg q → pos 0 ≤ℤ left)
    → is_pos q ≡ false
    → is_pos left ≡ false
    → total ≡ q
settled q left total e h nonpos none_left =
    let from : pos 0 ≤ℤ left = h (grind int_laws) in grind int_laws

allocate-Splits :
    (s : Stock) (plan : PlannedMovement) (on : Date)
    → is_given plan.lot_id ≡ false
    → is_pos plan.quantity_base ≡ false
    → Ensures (Splits true plan) (allocate s plan on)
unfolding allocate
allocate-Splits s plan on unnamed nonpos =
    let r : List PlannedMovement × ℤ =
      take_from plan (neg plan.quantity_base) (candidates s plan on) in
    let t : Takes plan (neg plan.quantity_base) r =
      take_from-Takes plan (neg plan.quantity_base) (candidates s plan on)
        (candidates-HasStock s plan on) in
    Ensures-raise_if (Splits true plan) (is_pos r.1) insufficient_stock (ok r.0) λ enough. record {
      all_parts = t.taken_parts;
      total = settled plan.quantity_base r.1 (total_of r.0) t.taken_total t.left_from nonpos enough;
      whole_part = λ same. cc;
    }

-- `_check_lot_rule` let the plan through.
abbrev pub KeepsLotRule : Bool → PlannedMovement → Type 0
KeepsLotRule tracked plan =
    (tracked ≡ false → is_given plan.lot_id ≡ false)
    × (tracked ≡ true → is_given plan.lot_id ≡ false → is_pos plan.quantity_base ≡ false)

one_part :
    (tracked : Bool) (plan : PlannedMovement)
    → is_given plan.lot_id ≡ tracked
    → Splits tracked plan (plan ∷ [])
one_part tracked plan lot = record {
  all_parts = (
    record { part_item = refl; part_warehouse = refl; part_lot = lot; part_down = λ down. down },
    tt,
  );
  total = omega int_laws;
  whole_part = λ same. refl;
}

pub parts_of-Splits :
    (tracked : Bool) (s : Stock) (plan : PlannedMovement) (on : Date)
    → KeepsLotRule tracked plan
    → Ensures (Splits tracked plan) (parts_of tracked s plan on)
unfolding parts_of
parts_of-Splits false s plan on rule = one_part false plan (rule.0 refl)
parts_of-Splits true s plan on rule = elim (Bool-cases (is_given plan.lot_id)) [
  | inl given ↦ rw given (one_part true plan given)
  | inr none_given ↦ rw none_given (allocate-Splits s plan on none_given (rule.1 refl none_given))
]

parts_at :
    (tracked : Bool) (plan : PlannedMovement) (parts : List PlannedMovement) (item warehouse : ℕ)
    → All (IsPart tracked plan) parts
    → planned_at item warehouse parts
      ≡ (if plan.item_id == item && plan.warehouse_id == warehouse then total_of parts else pos 0)
parts_at tracked plan [] item warehouse h = ground arith
parts_at tracked plan (part ∷ parts) item warehouse h =
    rw (h.0.part_item, h.0.part_warehouse, parts_at tracked plan parts item warehouse h.1)
      (grind int_laws)

-- Parts move at each item and warehouse what their plan says.
pub Splits-planned_at :
    (tracked : Bool) (plan : PlannedMovement) (parts : List PlannedMovement) (item warehouse : ℕ)
    → Splits tracked plan parts
    → planned_at item warehouse parts ≡ planned_at item warehouse (plan ∷ [])
Splits-planned_at tracked plan parts item warehouse s =
    rw (parts_at tracked plan parts item warehouse s.all_parts, s.total) (grind int_laws)

parts_of_item :
    (tracked : Bool) (plan : PlannedMovement) (parts : List PlannedMovement) (item : ℕ)
    → All (IsPart tracked plan) parts
    → planned_of item parts ≡ (if plan.item_id == item then total_of parts else pos 0)
parts_of_item tracked plan [] item h = ground arith
parts_of_item tracked plan (part ∷ parts) item h =
    rw (h.0.part_item, parts_of_item tracked plan parts item h.1) (grind int_laws)

pub Splits-planned_of :
    (tracked : Bool) (plan : PlannedMovement) (parts : List PlannedMovement) (item : ℕ)
    → Splits tracked plan parts
    → planned_of item parts ≡ planned_of item (plan ∷ [])
Splits-planned_of tracked plan parts item s =
    rw (parts_of_item tracked plan parts item s.all_parts, s.total) (grind int_laws)
