-- ===== src/Stock/Posting/Rounds.antt =====
-- What the rounds of `post_movements` (app/services/inventory_posting.py) do: each moves what its plan says.
use plutus_hr_system.Prelude.{
  ℕ, ◌≡◌, refl, sym, ◌∙◌, subst, Bool, true, false, ◌&&◌, List, [], ◌∷◌, ◌++◌, ℤ, pos, ◌+ℤ◌, ◌≤ℤ◌,
  ltb_ℤ, is_neg, int_laws, Ensures, Ensures-bind, Ensures-both, Ensures-raise_if, All, All-append,
}
use plutus_hr_system.Errors.{insufficient_stock}
use plutus_hr_system.Stock.Costing.{neg}
use plutus_hr_system.Stock.Rows.{PlannedMovement, InventoryStockMovement, Stock}
use plutus_hr_system.Stock.Sums.{sum_where, at_pair, of_item, quantity_of, sum_where-append}
use plutus_hr_system.Stock.Posting.{Document, post_parts, parts_of, post_plan, post_plans, is_given}
use plutus_hr_system.Stock.Posting.Moves.{Moves, Moves-refl, Moves-trans, post_parts-Moves}
use plutus_hr_system.Stock.Posting.Carries.{
  CarriesAll, done, next, post_parts-CarriesAll, planned_at, CarriesAll-planned_at, planned_of,
  CarriesAll-planned_of,
}
use plutus_hr_system.Stock.Posting.Parts.{
  IsPart, Splits, KeepsLotRule, parts_of-Splits, Splits-planned_at, Splits-planned_of,
}

-- Every movement of an item that tracks lots names a lot, and no other does.
abbrev pub LotsNamed : (ℕ → Bool) → List InventoryStockMovement → Type 0
LotsNamed tracks = All (λ m. is_given m.lot_id ≡ tracks m.item_id)

-- Plans that name a lot exactly where their item tracks lots are posted whole.
abbrev pub AsRuled : (ℕ → Bool) → List PlannedMovement → Type 0
AsRuled tracks = All (λ plan. is_given plan.lot_id ≡ tracks plan.item_id)

abbrev pub IsDecrease : PlannedMovement → Type 0
IsDecrease plan = is_neg plan.quantity_base ≡ true

abbrev pub TakesOut : InventoryStockMovement → Type 0
TakesOut m = is_neg m.quantity_base ≡ true

-- What one round does: it moves the projections, by what the plan says, naming lots as the item asks,
-- and leaves the balances from zero.
pub record Round (plans : List PlannedMovement) (s : Stock)
    (r : List InventoryStockMovement × Stock) : Type 0 where
  pub moves : Moves r.0 s r.1
  pub planned :
      (item warehouse : ℕ)
      → sum_where (at_pair item warehouse) quantity_of r.0 ≡ planned_at item warehouse plans
  pub planned_items : (item : ℕ) → sum_where (of_item item) quantity_of r.0 ≡ planned_of item plans
  pub named : LotsNamed s.track_lots r.0
  pub balances_from :
      ((item warehouse : ℕ) → pos 0 ≤ℤ s.balances item warehouse)
      → (item warehouse : ℕ) → pos 0 ≤ℤ r.1.balances item warehouse
  pub whole : AsRuled s.track_lots plans → CarriesAll plans r.0
  pub outgoing : All IsDecrease plans → All TakesOut r.0

parts-LotsNamed :
    (tracks : ℕ → Bool) (plan : PlannedMovement) {parts : List PlannedMovement}
    {ms : List InventoryStockMovement}
    → All (IsPart (tracks plan.item_id) plan) parts
    → CarriesAll parts ms
    → LotsNamed tracks ms
parts-LotsNamed tracks plan h done = tt
parts-LotsNamed tracks plan h (next c cs) = (
  rw (c.same_item, c.same_lot, h.0.part_item, h.0.part_lot) refl,
  parts-LotsNamed tracks plan h.1 cs,
)

parts-TakesOut :
    (tracked : Bool) (plan : PlannedMovement) {parts : List PlannedMovement}
    {ms : List InventoryStockMovement}
    → IsDecrease plan
    → All (IsPart tracked plan) parts
    → CarriesAll parts ms
    → All TakesOut ms
parts-TakesOut tracked plan down h done = tt
parts-TakesOut tracked plan down h (next c cs) =
    (rw c.same_quantity (h.0.part_down down), parts-TakesOut tracked plan down h.1 cs)

-- A balance that covers the plan is not left negative.
covered :
    (plan : PlannedMovement) (s : Stock) (after : ℤ) (item warehouse : ℕ)
    → (is_neg plan.quantity_base
        && ltb_ℤ (s.balances plan.item_id plan.warehouse_id) (neg plan.quantity_base))
      ≡ false
    → pos 0 ≤ℤ s.balances item warehouse
    → after ≡ s.balances item warehouse +ℤ planned_at item warehouse (plan ∷ [])
    → pos 0 ≤ℤ after
covered plan s after item warehouse enough from e = grind int_laws

post_plan-Round :
    (document : Document) (plan : PlannedMovement) (s : Stock)
    → KeepsLotRule (s.track_lots plan.item_id) plan
    → Ensures (Round (plan ∷ []) s) (post_plan document plan s)
unfolding post_plan
post_plan-Round document plan s rule =
    let tracked : Bool = s.track_lots plan.item_id in
    Ensures-raise_if (Round (plan ∷ []) s)
      (is_neg plan.quantity_base
        && ltb_ℤ (s.balances plan.item_id plan.warehouse_id) (neg plan.quantity_base))
      insufficient_stock _
      λ enough.
        Ensures-bind (Splits tracked plan) (Round (plan ∷ []) s)
          (parts_of tracked s plan document.entry_date) _
          (parts_of-Splits tracked s plan document.entry_date rule)
          λ parts split.
            Ensures-both (λ r. Moves r.0 s r.1) (λ r. CarriesAll parts r.0) (Round (plan ∷ []) s)
              (post_parts document parts s) (post_parts-Moves document parts s)
              (post_parts-CarriesAll document parts s)
              λ (r : List InventoryStockMovement × Stock) moved carried.
                let as_planned : (item warehouse : ℕ)
                    → sum_where (at_pair item warehouse) quantity_of r.0
                      ≡ planned_at item warehouse (plan ∷ []) =
                  λ i w.
                    CarriesAll-planned_at i w carried
                    ∙ Splits-planned_at tracked plan parts i w split in
                record {
                  moves = moved;
                  planned = as_planned;
                  planned_items = λ i.
                      CarriesAll-planned_of i carried
                      ∙ Splits-planned_of tracked plan parts i split;
                  named = parts-LotsNamed s.track_lots plan split.all_parts carried;
                  whole =
                      λ ruled. subst (λ ps. CarriesAll ps r.0) (split.whole_part ruled.0) carried;
                  outgoing = λ down. parts-TakesOut tracked plan down.0 split.all_parts carried;
                  balances_from = λ h i w.
                      covered plan s (r.1.balances i w) i w enough (h i w)
                        (rw (← as_planned i w) (moved.balance i w));
                }

CarriesAll-append :
    {plans qs : List PlannedMovement} {ms ns : List InventoryStockMovement}
    → CarriesAll plans ms
    → CarriesAll qs ns
    → CarriesAll (plans ++ qs) (ms ++ ns)
CarriesAll-append done ds = ds
CarriesAll-append (next c cs) ds = next c (CarriesAll-append cs ds)

planned_more :
    (item warehouse : ℕ) (plan : PlannedMovement) (plans : List PlannedMovement) (a b : ℤ)
    → a ≡ planned_at item warehouse (plan ∷ [])
    → b ≡ planned_at item warehouse plans
    → a +ℤ b ≡ planned_at item warehouse (plan ∷ plans)
planned_more item warehouse plan plans a b e f = rw (e, f) (omega int_laws)

items_more :
    (item : ℕ) (plan : PlannedMovement) (plans : List PlannedMovement) (a b : ℤ)
    → a ≡ planned_of item (plan ∷ [])
    → b ≡ planned_of item plans
    → a +ℤ b ≡ planned_of item (plan ∷ plans)
items_more item plan plans a b e f = rw (e, f) (omega int_laws)

then_rounds :
    (plan : PlannedMovement) (plans : List PlannedMovement) (s : Stock)
    (one rest : List InventoryStockMovement × Stock)
    → Round (plan ∷ []) s one
    → Round plans one.1 rest
    → Round (plan ∷ plans) s (one.0 ++ rest.0, rest.1)
then_rounds plan plans s one rest a b = record {
  moves = Moves-trans one.0 rest.0 s one.1 rest.1 a.moves b.moves;
  planned = λ i w.
      sum_where-append (at_pair i w) quantity_of one.0 rest.0
      ∙ planned_more i w plan plans _ _ (a.planned i w) (b.planned i w);
  planned_items = λ i.
      sum_where-append (of_item i) quantity_of one.0 rest.0
      ∙ items_more i plan plans _ _ (a.planned_items i) (b.planned_items i);
  named =
      All-append _ one.0 rest.0 a.named
        (subst (λ tracks. LotsNamed tracks rest.0) a.moves.same_items b.named);
  balances_from = λ h. b.balances_from (a.balances_from h);
  whole = λ ruled.
      CarriesAll-append (a.whole (ruled.0, tt))
        (b.whole (subst (λ tracks. AsRuled tracks plans) (sym a.moves.same_items) ruled.1));
  outgoing = λ down. All-append TakesOut one.0 rest.0 (a.outgoing (down.0, tt)) (b.outgoing down.1);
}

abbrev pub KeepRules : (ℕ → Bool) → List PlannedMovement → Type 0
KeepRules tracks = All (λ plan. KeepsLotRule (tracks plan.item_id) plan)

pub post_plans-Round :
    (document : Document) (plans : List PlannedMovement) (s : Stock)
    → KeepRules s.track_lots plans
    → Ensures (Round plans s) (post_plans document plans s)
unfolding post_plans
post_plans-Round document [] s h = record {
  moves = Moves-refl s;
  planned = λ i w. refl;
  planned_items = λ i. refl;
  named = tt;
  balances_from = λ h. h;
  whole = λ ruled. done;
  outgoing = λ down. tt;
}
post_plans-Round document (plan ∷ plans) s h =
    Ensures-bind (Round (plan ∷ []) s) (Round (plan ∷ plans) s) (post_plan document plan s) _
      (post_plan-Round document plan s h.0)
      λ (one : List InventoryStockMovement × Stock) first.
        Ensures-bind (Round plans one.1) (Round (plan ∷ plans) s) (post_plans document plans one.1)
          _
          (post_plans-Round document plans one.1
            (subst (λ tracks. KeepRules tracks plans) (sym first.moves.same_items) h.1))
          λ (rest : List InventoryStockMovement × Stock) later.
            then_rounds plan plans s one rest first later
