-- ===== src/Inventory/Tests.antt =====
-- A bill of 1,000.00 that clears 900.00 of a goods receipt.
use plutus_hr_system.Prelude.{◌≡◌, ◌≢◌, ◌⊎◌, some, List, arith, pos, ok, err}
use Prim.Native.String.{String}
use plutus_hr_system.Errors.{inventory_unbalanced}
use plutus_hr_system.Totals.{sum_of, amount_on}
use plutus_hr_system.Inventory.{Leg, journal_lines, bill_legs, five_legs}
use plutus_hr_system.Inventory.Journal.{Nets, journal_lines_lem, bill_legs-posts}

abbrev bill_journal_legs : List Leg
bill_journal_legs =
    five_legs (pos 100_000) (pos 7_500) (pos 5_000) "inventory_consumption" (pos 90_000)

journal_lines_lem_example :
    ((sum_of bill_journal_legs ≡ pos 0) × Nets (some "bill") bill_journal_legs)
    ⊎ ((sum_of bill_journal_legs ≢ pos 0)
        × (journal_lines bill_journal_legs (some "bill") ≡ err inventory_unbalanced))
journal_lines_lem_example = journal_lines_lem (some "bill") bill_journal_legs

bill_legs-posts_example :
    (legs : List Leg) × (bill_legs
        (pos 100_000)
        (pos 7_500)
        (pos 5_000)
        "inventory_consumption"
        (pos 90_000)
      ≡ ok legs)
    × Nets (some "bill") legs
    × ((at : String) → amount_on at legs ≡ amount_on at bill_journal_legs)
bill_legs-posts_example =
    bill_legs-posts (some "bill") (pos 100_000) (pos 7_500) (pos 5_000) "inventory_consumption"
      (pos 90_000) (omega arith) (omega arith) (omega arith) (omega arith)
