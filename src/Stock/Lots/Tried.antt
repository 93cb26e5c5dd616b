-- ===== src/Stock/Lots/Tried.antt =====
-- The lots that `_LotStock.allocate` of app/services/inventory_posting.py tries are a permutation of
-- those that may be used.
use mathlib.Core.List.{Permᴰ, Perm}
use mathlib.Core.List.Permᴰ
use plutus_hr_system.Prelude.{
  ◌≡◌, refl, sym, ap, ◌∙◌, subst, inl, inr, Bool, true, false, not, Option, none, some, List, [],
  ◌∷◌, arith, leb, if◌then◌else◌, Bool-cases, ℤ, is_pos, int_laws,
}
use plutus_hr_system.Calendar.{Date, ordinal, before}
use plutus_hr_system.Stock.Rows.{InventoryLot, PlannedMovement, Stock}
use plutus_hr_system.Stock.Lots.{
  goes_first, held_lots, insert_lot, sort_lots, expired_by, fresh_lots, candidates,
}
use plutus_hr_system.Stock.Lots.Candidates.{Entries}
use plutus_hr_system.Stock.Lots.Usable.{in_date, may_use, usable_among, usable, holding}

-- The lots that pass a test, in their order.
abbrev keep : (InventoryLot × ℤ → Bool) → Entries → Entries
keep p [] = []
keep p (entry ∷ rest) = if p entry then entry ∷ keep p rest else keep p rest

keep-cons :
    (p : InventoryLot × ℤ → Bool) (entry : InventoryLot × ℤ) (lots others : Entries)
    → Permᴰ (keep p lots) (keep p others)
    → Permᴰ (keep p (entry ∷ lots)) (keep p (entry ∷ others))
keep-cons p entry lots others h = elim (Bool-cases (p entry)) [
  | inl e ↦ rw e (Permᴰ.cons refl h)
  | inr e ↦ rw e h
]

keep-swap :
    (p : InventoryLot × ℤ → Bool) (a b : InventoryLot × ℤ) (lots : Entries)
    → Permᴰ (keep p (a ∷ b ∷ lots)) (keep p (b ∷ a ∷ lots))
keep-swap p a b lots = elim (Bool-cases (p a)) [
  | inl e ↦ elim (Bool-cases (p b)) [
    | inl k ↦ rw (e, k) (Permᴰ.swap refl refl)
    | inr k ↦ rw (e, k) (Permᴰ.refl _)
  ]
  | inr e ↦ elim (Bool-cases (p b)) [
    | inl k ↦ rw (e, k) (Permᴰ.refl _)
    | inr k ↦ rw (e, k) (Permᴰ.refl _)
  ]
]

keep-insert_lot :
    (p : InventoryLot × ℤ → Bool) (entry : InventoryLot × ℤ) (lots : Entries)
    → Permᴰ (keep p (insert_lot entry lots)) (keep p (entry ∷ lots))
unfolding insert_lot
keep-insert_lot p entry [] = Permᴰ.refl _
keep-insert_lot p entry (first ∷ rest) = elim (Bool-cases (goes_first entry.0 first.0)) [
  | inl e ↦ rw e (Permᴰ.refl _)
  | inr e ↦ rw e (
      Permᴰ.trans
        (keep-cons p first (insert_lot entry rest) (entry ∷ rest) (keep-insert_lot p entry rest))
        (keep-swap p first entry rest))
]

keep-sort_lots :
    (p : InventoryLot × ℤ → Bool) (lots : Entries) → Permᴰ (keep p (sort_lots lots)) (keep p lots)
unfolding sort_lots
keep-sort_lots p [] = Permᴰ.nil
keep-sort_lots p (entry ∷ rest) =
    Permᴰ.trans (keep-insert_lot p entry (sort_lots rest))
      (keep-cons p entry (sort_lots rest) rest (keep-sort_lots p rest))

keep_all : (lots : Entries) → keep (λ entry. true) lots ≡ lots
keep_all [] = refl
keep_all (entry ∷ rest) = ap (λ ls. entry ∷ ls) (keep_all rest)

in_date-expired_by : (on : Date) (lot : InventoryLot) → in_date on lot ≡ not (expired_by on lot)
in_date-expired_by on lot = by_expiry lot.expiry_date
  where
    by_expiry :
        (expiry : Option Date)
        → elim expiry [ none ↦ true | some day ↦ leb (ordinal on) (ordinal day) ]
          ≡ not (elim expiry [ none ↦ false | some day ↦ before day on ])
    by_expiry none = refl
    by_expiry (some day) = grind arith

fresh_lots-keep :
    (on : Date) (lots : Entries) → fresh_lots on lots ≡ keep (λ entry. in_date on entry.0) lots
unfolding fresh_lots
fresh_lots-keep on [] = refl
fresh_lots-keep on (entry ∷ rest) =
    let rest_kept = fresh_lots-keep on rest in
    elim (Bool-cases (expired_by on entry.0)) [
      | inl e ↦ rw (in_date-expired_by on entry.0, e) rest_kept
      | inr e ↦ rw (in_date-expired_by on entry.0, e) (ap (λ ls. entry ∷ ls) rest_kept)
    ]

held_lots-usable :
    (s : Stock) (plan : PlannedMovement) (on : Date) (lots : List InventoryLot)
    → keep (may_use plan on) (held_lots (s.lot_balances plan.item_id plan.warehouse_id) lots)
      ≡ usable_among s plan on lots
unfolding held_lots
held_lots-usable s plan on [] = refl
held_lots-usable s plan on (lot ∷ lots) =
    let amount = s.lot_balances plan.item_id plan.warehouse_id lot.id in
    let rest = held_lots-usable s plan on lots in
    elim (Bool-cases (is_pos amount)) [
      | inl e ↦ elim (Bool-cases (may_use plan on (lot, amount))) [
        | inl k ↦ rw (e, k) (ap (λ ls. (lot, amount) ∷ ls) rest)
        | inr k ↦ rw (e, k) rest
      ]
      | inr e ↦ rw e rest
    ]

candidates-keep :
    (s : Stock) (plan : PlannedMovement) (on : Date)
    → candidates s plan on
      ≡ keep
          (may_use plan on)
          (sort_lots (held_lots (s.lot_balances plan.item_id plan.warehouse_id) s.lots))
unfolding candidates
candidates-keep s plan on = elim (Bool-cases plan.skip_expired) [
  | inl e ↦ rw e (fresh_lots-keep on _)
  | inr e ↦ rw e (sym (keep_all _))
]

candidates_lem :
    (s : Stock) (plan : PlannedMovement) (on : Date)
    → Permᴰ (candidates s plan on) (usable s plan on)
candidates_lem s plan on =
    let held : Entries = held_lots (s.lot_balances plan.item_id plan.warehouse_id) s.lots in
    subst (λ ls. Permᴰ ls (usable s plan on)) (sym (candidates-keep s plan on))
      (subst (λ ls. Permᴰ (keep (may_use plan on) (sort_lots held)) ls)
        (held_lots-usable s plan on s.lots) (keep-sort_lots (may_use plan on) held))

pub candidates-usable :
    (s : Stock) (plan : PlannedMovement) (on : Date)
    → Perm (candidates s plan on) (usable s plan on)
candidates-usable s plan on = ∣ candidates_lem s plan on ∣₁

holding-Perm : {lots others : Entries} → Permᴰ lots others → holding lots ≡ holding others
holding-Perm Permᴰ.nil = refl
holding-Perm (Permᴰ.cons e p) = let rest = holding-Perm p in rw (e, rest) refl
holding-Perm (Permᴰ.swap e f) = rw (e, f) (omega int_laws)
holding-Perm (Permᴰ.trans p q) = holding-Perm p ∙ holding-Perm q

-- Tried or as they stand, the lots hold the same.
pub holding-candidates :
    (s : Stock) (plan : PlannedMovement) (on : Date)
    → holding (candidates s plan on) ≡ holding (usable s plan on)
holding-candidates s plan on = holding-Perm (candidates_lem s plan on)
