-- ===== src/Stock/Transfers/Neutral.antt =====
-- A transfer's pair of postings (`_move_pairs`, app/services/inventory_transfers.py) moves stock and
-- no value.
use plutus_hr_system.Prelude.{
  ℕ, ◌≡◌, refl, sym, ◌∙◌, subst, Bool, some, List, [], ◌∷◌, map, ◌==◌, if◌then◌else◌, ℤ, pos, ◌+ℤ◌,
  int_laws, Ensures, Ensures-bind, All,
}
use plutus_hr_system.Stock.Costing.{neg}
use plutus_hr_system.Stock.Rows.{PlannedMovement, InventoryStockMovement, Stock}
use plutus_hr_system.Stock.Sums.{sum_where, of_item, quantity_of, value_of}
use plutus_hr_system.Stock.Posting.{Document, post_movements}
use plutus_hr_system.Stock.Posting.Carries.{CarriesAll, done, next, planned_at, planned_of}
use plutus_hr_system.Stock.Posting.Rounds.{LotsNamed, AsRuled, IsDecrease, TakesOut}
use plutus_hr_system.Stock.Posting.Agrees.{IsStock, Posted, post_movements-Posted}
use plutus_hr_system.Stock.Transfers.{incoming, move_pairs}

-- What came in is the opposite of what went out, in quantity and in value.
opposite_quantities :
    (item destination : ℕ) (outs : List InventoryStockMovement) {ins : List InventoryStockMovement}
    → CarriesAll (map (incoming destination) outs) ins
    → sum_where (of_item item) quantity_of ins ≡ neg (sum_where (of_item item) quantity_of outs)
opposite_quantities item destination [] done = omega int_laws
opposite_quantities item destination (out ∷ outs) (next c cs) =
    rw (c.same_item, c.same_quantity, opposite_quantities item destination outs cs) (grind int_laws)

some_inj : {a b : ℤ} → some a ≡ some b → a ≡ b
some_inj e = cc

opposite_values :
    (item destination : ℕ) (outs : List InventoryStockMovement) {ins : List InventoryStockMovement}
    → All TakesOut outs
    → CarriesAll (map (incoming destination) outs) ins
    → sum_where (of_item item) value_of ins ≡ neg (sum_where (of_item item) value_of outs)
opposite_values item destination [] down done = omega int_laws
opposite_values item destination (out ∷ outs) down (next {m = m} c cs) =
    let e : neg out.value_minor ≡ m.value_minor =
      some_inj (c.given_value (grind (int_laws, down.0))) in
    rw (c.same_item, ← e, opposite_values item destination outs down.1 cs) (grind int_laws)

planned_in :
    (item warehouse destination : ℕ) (outs : List InventoryStockMovement)
    → planned_at item warehouse (map (incoming destination) outs) ≡ (
        if destination == warehouse then neg (sum_where (of_item item) quantity_of outs) else pos 0)
planned_in item warehouse destination [] = grind int_laws
planned_in item warehouse destination (out ∷ outs) =
    rw (planned_in item warehouse destination outs) (grind int_laws)

named_whole :
    (tracks : ℕ → Bool) (destination : ℕ) (outs : List InventoryStockMovement)
    → LotsNamed tracks outs
    → AsRuled tracks (map (incoming destination) outs)
named_whole tracks destination [] h = tt
named_whole tracks destination (out ∷ outs) h = (h.0, named_whole tracks destination outs h.1)

-- The transfer's stock: the pools are as they were, and what left comes in at the destination.
pub record Transfers (outs : List PlannedMovement) (destination : ℕ) (s t : Stock) : Type 0 where
  pub stock : IsStock t
  pub same_pool_quantity : (item : ℕ) → (t.pools item).quantity ≡ (s.pools item).quantity
  pub same_pool_value : (item : ℕ) → (t.pools item).value_minor ≡ (s.pools item).value_minor
  pub moved :
      (item warehouse : ℕ)
      → t.balances item warehouse
        ≡ s.balances item warehouse
          +ℤ planned_at item warehouse outs
          +ℤ (if destination == warehouse then neg (planned_of item outs) else pos 0)

cancels : (a b c x y : ℤ) → b ≡ a +ℤ x → c ≡ b +ℤ y → y ≡ neg x → c ≡ a
cancels a b c x y e f g = rw (f, e, g) (omega int_laws)

received :
    (outs : List PlannedMovement) (destination : ℕ) (s : Stock)
    (sent final : List InventoryStockMovement × Stock)
    → All IsDecrease outs
    → Posted outs s sent
    → Posted (map (incoming destination) sent.0) sent.1 final
    → Transfers outs destination s final.1
received outs destination s sent final down out in_ =
    let whole : CarriesAll (map (incoming destination) sent.0) final.0 = in_.posted_whole (
      subst (λ tracks. AsRuled tracks (map (incoming destination) sent.0)) (sym out.items_kept)
        (named_whole s.track_lots destination sent.0 out.new_named)) in
    record {
      stock = in_.stock;
      same_pool_quantity = λ i.
          cancels _ _ _ _ _ (out.pool_quantity i) (in_.pool_quantity i)
            (opposite_quantities i destination sent.0 whole);
      same_pool_value = λ i.
          cancels _ _ _ _ _ (out.pool_value i) (in_.pool_value i)
            (opposite_values i destination sent.0 (out.posted_out down) whole);
      moved = λ i w.
          in_.moved i w
          ∙ rw (out.moved i w, planned_in i w destination sent.0, out.items_planned i) refl;
    }

-- A transfer's move of stock that takes out of warehouses never changes an item's quantity or value in
-- its cost pool: what leaves each warehouse as planned comes in at the destination, at the value that
-- it left with, and the stock still agrees with its ledger.
pub move_pairs-Transfers :
    (document : Document) (outs : List PlannedMovement) (destination : ℕ) (s : Stock)
    → IsStock s
    → All IsDecrease outs
    → Ensures (Transfers outs destination s) (move_pairs document outs destination s)
unfolding move_pairs
move_pairs-Transfers document outs destination s h down =
    Ensures-bind (Posted outs s) (Transfers outs destination s) (post_movements document outs s) _
      (post_movements-Posted document outs s h)
      λ (sent : List InventoryStockMovement × Stock) out.
        Ensures-bind (Posted (map (incoming destination) sent.0) sent.1)
          (Transfers outs destination s)
          (post_movements document (map (incoming destination) sent.0) sent.1) _
          (post_movements-Posted document (map (incoming destination) sent.0) sent.1 out.stock)
          λ (final : List InventoryStockMovement × Stock) in_.
            received outs destination s sent final down out in_
