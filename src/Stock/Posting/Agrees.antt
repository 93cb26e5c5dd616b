-- ===== src/Stock/Posting/Agrees.antt =====
-- `post_movements` of app/services/inventory_posting.py against the stock ledger: the projections are
-- what the ledger adds up to, nothing is negative, and a posting moves what was planned.
use mathlib.Core.List.{reverse, reverse-cons, append_assoc}
use plutus_hr_system.Prelude.{
  ℕ, ◌≡◌, refl, sym, ◌∙◌, subst, Bool, not, ◌&&◌, ◌||◌, List, [], ◌∷◌, ◌++◌, arith, ℤ, pos, ◌+ℤ◌,
  ◌≤ℤ◌, is_pos, int_laws, ok, raise_if, Ensures, Ensures-bind, Ensures-weaken, Ensures-skip,
  Ensures-raise_if, All,
}
use plutus_hr_system.Errors.{nothing_to_post, period_locked, already_posted, lot_not_named}
use plutus_hr_system.Stock.Costing.Pools.{IsPool}
use plutus_hr_system.Stock.Rows.{PlannedMovement, InventoryStockMovement, Stock}
use plutus_hr_system.Stock.Sums.{sum_where, at_pair, at_lot, of_item, quantity_of, value_of}
use plutus_hr_system.Stock.Posting.{
  Document, check_plans, check_lot_rule, check_lot_rules, post_plans, is_given, is_recorded,
  names_reversal, flush, is_locked, is_empty, post_movements,
}
use plutus_hr_system.Stock.Posting.Carries.{CarriesAll, planned_at, planned_of}
use plutus_hr_system.Stock.Posting.Parts.{KeepsLotRule}
use plutus_hr_system.Stock.Posting.Rounds.{
  AsRuled, IsDecrease, KeepRules, LotsNamed, Round, TakesOut, post_plans-Round,
}

check_lot_rule-KeepsLotRule :
    (tracked : Bool) (plan : PlannedMovement)
    → Ensures (λ u. KeepsLotRule tracked plan) (check_lot_rule tracked plan)
unfolding check_lot_rule
check_lot_rule-KeepsLotRule tracked plan =
    Ensures-raise_if (λ u. KeepsLotRule tracked plan) _ _ _
      λ untracked.
        Ensures-raise_if (λ u. KeepsLotRule tracked plan)
          (tracked && is_pos plan.quantity_base && not (is_given plan.lot_id)) lot_not_named (ok tt)
          λ unnamed. (λ e. ground arith, λ e k. ground arith)

check_lot_rules-KeepRules :
    (s : Stock) (plans : List PlannedMovement)
    → Ensures (λ u. KeepRules s.track_lots plans) (check_lot_rules s plans)
unfolding check_lot_rules
check_lot_rules-KeepRules s [] = tt
check_lot_rules-KeepRules s (plan ∷ plans) =
    Ensures-bind (λ u. KeepsLotRule (s.track_lots plan.item_id) plan)
      (λ u. KeepRules s.track_lots (plan ∷ plans)) (check_lot_rule (s.track_lots plan.item_id) plan)
      _ (check_lot_rule-KeepsLotRule (s.track_lots plan.item_id) plan)
      λ u keeps.
        Ensures-weaken (λ u. KeepRules s.track_lots plans)
          (λ u. KeepRules s.track_lots (plan ∷ plans)) (check_lot_rules s plans)
          (check_lot_rules-KeepRules s plans) λ u rest. (keeps, rest)

-- What flushing does to a sum over the ledger, and that the new rows are in it, the last first.
record Flushes (ms ledger after : List InventoryStockMovement) : Type 0 where
  summed :
      (test : InventoryStockMovement → Bool) (amount : InventoryStockMovement → ℤ)
      → sum_where test amount after ≡ sum_where test amount ledger +ℤ sum_where test amount ms
  in_ledger : after ≡ reverse ms ++ ledger

flush-Flushes :
    (ms ledger : List InventoryStockMovement) → Ensures (Flushes ms ledger) (flush ms ledger)
unfolding flush
flush-Flushes [] ledger = record { summed = λ t a. omega int_laws; in_ledger = refl }
flush-Flushes (m ∷ ms) ledger =
    Ensures-raise_if (Flushes (m ∷ ms) ledger) (is_recorded m ledger || not (names_reversal m))
      already_posted _
      λ fresh.
        Ensures-weaken (Flushes ms (m ∷ ledger)) (Flushes (m ∷ ms) ledger) (flush ms (m ∷ ledger))
          (flush-Flushes ms (m ∷ ledger))
          λ after f. record {
            summed = λ t a. rw (f.summed t a) (omega int_laws);
            in_ledger = f.in_ledger ∙ rw (reverse-cons m ms, append_assoc) refl;
          }

-- The projections are what the ledger adds up to, nothing in them is negative, every pool keeps the
-- costing's invariants, and lots are named as the items ask.
pub record IsStock (s : Stock) : Type 0 where
  pub balances_agree :
      (item warehouse : ℕ)
      → s.balances item warehouse ≡ sum_where (at_pair item warehouse) quantity_of s.movements
  pub lots_agree :
      (item warehouse lot : ℕ)
      → s.lot_balances item warehouse lot
        ≡ sum_where (at_lot item warehouse lot) quantity_of s.movements
  pub quantities_agree :
      (item : ℕ) → (s.pools item).quantity ≡ sum_where (of_item item) quantity_of s.movements
  pub values_agree :
      (item : ℕ) → (s.pools item).value_minor ≡ sum_where (of_item item) value_of s.movements
  pub lots_named : LotsNamed s.track_lots s.movements
  pub balances_from : (item warehouse : ℕ) → pos 0 ≤ℤ s.balances item warehouse
  pub lots_from : (item warehouse lot : ℕ) → pos 0 ≤ℤ s.lot_balances item warehouse lot
  pub pools_valid : (item : ℕ) → IsPool (s.pools item)

-- What a posting of plans onto a stock has done.
pub record Posted (plans : List PlannedMovement) (s : Stock)
    (r : List InventoryStockMovement × Stock) : Type 0 where
  pub stock : IsStock r.1
  pub appended : r.1.movements ≡ reverse r.0 ++ s.movements
  pub moved :
      (item warehouse : ℕ)
      → r.1.balances item warehouse ≡ s.balances item warehouse +ℤ planned_at item warehouse plans
  pub as_planned :
      (item warehouse : ℕ)
      → sum_where (at_pair item warehouse) quantity_of r.0 ≡ planned_at item warehouse plans
  pub items_planned : (item : ℕ) → sum_where (of_item item) quantity_of r.0 ≡ planned_of item plans
  pub pool_quantity :
      (item : ℕ)
      → (r.1.pools item).quantity
        ≡ (s.pools item).quantity +ℤ sum_where (of_item item) quantity_of r.0
  pub pool_value :
      (item : ℕ)
      → (r.1.pools item).value_minor
        ≡ (s.pools item).value_minor +ℤ sum_where (of_item item) value_of r.0
  pub new_named : LotsNamed s.track_lots r.0
  pub posted_whole : AsRuled s.track_lots plans → CarriesAll plans r.0
  pub posted_out : All IsDecrease plans → All TakesOut r.0
  pub items_kept : r.1.track_lots ≡ s.track_lots

agreed :
    (test : InventoryStockMovement → Bool) (amount : InventoryStockMovement → ℤ)
    (ms ledger after : List InventoryStockMovement) (old new : ℤ)
    → Flushes ms ledger after
    → old ≡ sum_where test amount ledger
    → new ≡ old +ℤ sum_where test amount ms
    → new ≡ sum_where test amount after
agreed test amount ms ledger after old new f e g = rw (f.summed test amount, ← e) g

named_after :
    (tracks : ℕ → Bool) (ms ledger : List InventoryStockMovement)
    → LotsNamed tracks ms
    → LotsNamed tracks ledger
    → LotsNamed tracks (reverse ms ++ ledger)
named_after tracks [] ledger h k = k
named_after tracks (m ∷ ms) ledger h k =
    rw (reverse-cons m ms, append_assoc) (named_after tracks ms (m ∷ ledger) h.1 (h.0, k))

posted :
    (plans : List PlannedMovement) (s : Stock) (r : List InventoryStockMovement × Stock)
    (after : List InventoryStockMovement)
    → IsStock s
    → Round plans s r
    → Flushes r.0 r.1.movements after
    → Posted plans s (r.0, record r.1 { movements = after })
posted plans s r after h round f =
    let g : Flushes r.0 s.movements after =
      subst (λ ledger. Flushes r.0 ledger after) round.moves.same_movements f in
    record {
      stock = record {
        balances_agree = λ i w.
            agreed (at_pair i w) quantity_of r.0 s.movements after _ _ g (h.balances_agree i w)
              (round.moves.balance i w);
        lots_agree = λ i w l.
            agreed (at_lot i w l) quantity_of r.0 s.movements after _ _ g (h.lots_agree i w l)
              (round.moves.lot_balance i w l);
        quantities_agree = λ i.
            agreed (of_item i) quantity_of r.0 s.movements after _ _ g (h.quantities_agree i)
              (round.moves.pool_quantity i);
        values_agree = λ i.
            agreed (of_item i) value_of r.0 s.movements after _ _ g (h.values_agree i)
              (round.moves.pool_value i);
        lots_named =
            rw (g.in_ledger, round.moves.same_items)
              (named_after s.track_lots r.0 s.movements round.named h.lots_named);
        balances_from = round.balances_from h.balances_from;
        lots_from = round.moves.lots_from h.lots_from;
        pools_valid = round.moves.pools_valid h.pools_valid;
      };
      appended = g.in_ledger;
      moved = λ i w. rw (← round.planned i w) (round.moves.balance i w);
      as_planned = round.planned;
      items_planned = round.planned_items;
      pool_quantity = round.moves.pool_quantity;
      pool_value = round.moves.pool_value;
      new_named = round.named;
      posted_whole = round.whole;
      posted_out = round.outgoing;
      items_kept = round.moves.same_items;
    }

-- A posting onto a stock that agrees with its ledger leaves, if it does not raise, a stock that agrees
-- with its ledger: the new movements stand in front of the old, every balance by warehouse, by lot and
-- by cost pool is what the movements add up to, none is negative, each pool has no value without
-- quantity, a movement names a lot exactly where its item tracks lots, and each balance has moved by
-- exactly what was planned for its item and warehouse.
pub post_movements-Posted :
    (document : Document) (plans : List PlannedMovement) (s : Stock)
    → IsStock s
    → Ensures (Posted plans s) (post_movements document plans s)
unfolding post_movements
post_movements-Posted document plans s h =
    Ensures-skip (Posted plans s) (raise_if (is_empty plans) nothing_to_post) _ λ a.
      Ensures-skip (Posted plans s)
        (raise_if (is_locked s.lock_date document.entry_date) period_locked) _
        λ b. Ensures-skip (Posted plans s) (check_plans plans) _ λ c.
          Ensures-bind (λ u. KeepRules s.track_lots plans) (Posted plans s)
            (check_lot_rules s plans) _ (check_lot_rules-KeepRules s plans)
            λ u keeps.
              Ensures-bind (Round plans s) (Posted plans s) (post_plans document plans s) _
                (post_plans-Round document plans s keeps)
                λ (r : List InventoryStockMovement × Stock) round.
                  Ensures-bind (Flushes r.0 s.movements) (Posted plans s) (flush r.0 s.movements) _
                    (flush-Flushes r.0 s.movements)
                    λ after f. posted plans s r after h round (
                      subst (λ ledger. Flushes r.0 ledger after) (sym round.moves.same_movements) f)
