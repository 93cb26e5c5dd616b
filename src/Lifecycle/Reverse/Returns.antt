-- ===== src/Lifecycle/Reverse/Returns.antt =====
-- When a pay run can be reversed (reverse_pay_run of app/services/pay_run_lifecycle.py).
use Prim.Native.String.{String}
use plutus_hr_system.Prelude.{
  ℕ, ◌≡◌, refl, ap, ◌∙◌, inl, inr, Bool, true, false, not, ◌&&◌, Option, some, List, [], ◌∷◌, ◌++◌,
  arith, ◌==◌, Bool-cases, ok, ◌>>=◌, Ensures-ok, length, All, All-append,
}
use plutus_hr_system.Calendar.{Date}
use plutus_hr_system.Accounting.{mirror_postings}
use plutus_hr_system.Ledger.{
  Journal, Ledger, require_open_period, written, is_reversed, is_given, reversal_source,
  reverse_journal,
}
use plutus_hr_system.Ledger.Sound.{
  IsHistory, IsSound, reverse_journal-IsSound, reverse_journal-written,
}
use plutus_hr_system.Ledger.Found.{AreIn, found_below, in_newer, all_in}
use plutus_hr_system.Lifecycle.Rows.{is_locked, PayRun, Books}
use plutus_hr_system.Lifecycle.Lock.{has_status}
use plutus_hr_system.Lifecycle.Reverse.{
  acted_on, has_line, journals_of, reverse_journals, reopen_loans, reversed_books, reverse_pay_run,
}
use plutus_hr_system.Lifecycle.Reverse.Journals.{journals_of-AreIn}

-- A journal that is no reversal and is not reversed.
abbrev pub IsOpen : List Journal → Journal → Type 0
IsOpen ledger j = (is_given j.reversal_of_id ≡ false) × (is_reversed j.id ledger ≡ false)

abbrev AreApart : List Journal → Type 0
AreApart [] = Unit
AreApart (j ∷ js) = All (λ (k : Journal). (j.id == k.id) ≡ false) js × AreApart js

still-IsOpen :
    (j : Journal) (new : Journal) (ledger js : List Journal)
    → new.reversal_of_id ≡ some j.id
    → All (λ (k : Journal). (j.id == k.id) ≡ false) js
    → All (IsOpen ledger) js
    → All (IsOpen (new ∷ ledger)) js
unfolding is_reversed
still-IsOpen j new ledger [] e apart h = tt
still-IsOpen j new ledger (k ∷ js) e apart h =
    ((h.0.0, rw (e, apart.0, h.0.1) refl), still-IsOpen j new ledger js e apart.1 h.1)

reverse_journals-returns :
    (js : List Journal) (on : Date) (ledger : Ledger)
    → IsSound ledger
    → require_open_period ledger on ≡ ok tt
    → AreIn ledger.journals js
    → All (IsOpen ledger.journals) js
    → AreApart js
    → (after : Ledger) × (reverse_journals js on ledger ≡ ok after)
unfolding reverse_journals written
reverse_journals-returns [] on ledger h o found unreversed apart = (ledger, refl)
reverse_journals-returns (j ∷ js) on ledger h o found unreversed apart =
    let reason : Option String = some "reversal of pay run" in
    let next : Ledger =
      written ledger on reversal_source (some j.id) (mirror_postings reason j.lines) in
    let one : reverse_journal ledger j.id on true reason ≡ ok next =
      reverse_journal-written ledger j.id on reason j h o found.0 unreversed.0.0 unreversed.0.1 in
    let sound : IsSound next =
      Ensures-ok IsSound (reverse_journal ledger j.id on true reason) one
        (reverse_journal-IsSound ledger j.id on true reason h) in
    let (after, rest) =
      reverse_journals-returns js on next sound (unfold require_open_period in o)
        (in_newer _ ledger.journals js refl h found.1)
        (still-IsOpen j _ ledger.journals js refl apart.0 unreversed.1) apart.1 in
    (after, ap (λ m. m >>= reverse_journals js on) one ∙ rest)

apart_snoc :
    (js : List Journal) (j : Journal)
    → AreApart js
    → All (λ (k : Journal). (k.id == j.id) ≡ false) js
    → AreApart (js ++ j ∷ [])
apart_snoc [] j apart h = (tt, tt)
apart_snoc (k ∷ js) j apart h =
    (All-append _ js (j ∷ []) apart.0 (h.0, tt), apart_snoc js j apart.1 h.1)

apart_none : (js : List Journal) → AreApart js → AreApart (js ++ [])
apart_none [] apart = tt
apart_none (k ∷ js) apart = (All-append _ js [] apart.0 tt, apart_none js apart.1)

-- The journals that are in an older ledger have other identifiers than a newer one.
older_apart :
    (j : Journal) (ledger js : List Journal)
    → j.id ≡ length ledger
    → IsHistory ledger
    → AreIn ledger js
    → All (λ (k : Journal). (k.id == j.id) ≡ false) js
older_apart j ledger [] e h found = tt
older_apart j ledger (k ∷ js) e h found =
    let below = found_below k.id ledger k found.0 h in
    (ground arith, older_apart j ledger js e h found.1)

journals_of-AreApart : (run : ℕ) (js : List Journal) → IsHistory js → AreApart (journals_of run js)
unfolding journals_of
journals_of-AreApart run [] h = tt
journals_of-AreApart run (j ∷ js) h = elim (Bool-cases (has_line run j.lines)) [
  | inl e ↦ rw e (
      apart_snoc (journals_of run js) j (journals_of-AreApart run js h.4) (
        older_apart j js (journals_of run js) h.1 h.4
          (journals_of-AreIn run js js (all_in js h.4))))
  | inr e ↦ rw e (apart_none (journals_of run js) (journals_of-AreApart run js h.4))
]

journals_of-IsOpen :
    (run : ℕ) (ledger js : List Journal)
    → All (λ (j : Journal). has_line run j.lines ≡ true → IsOpen ledger j) js
    → All (IsOpen ledger) (journals_of run js)
unfolding journals_of
journals_of-IsOpen run ledger [] h = tt
journals_of-IsOpen run ledger (j ∷ js) h = elim (Bool-cases (has_line run j.lines)) [
  | inl e ↦ rw e (
      All-append (IsOpen ledger) (journals_of run js) (j ∷ [])
        (journals_of-IsOpen run ledger js h.1) (h.0 e, tt))
  | inr e ↦
      rw e (
        All-append (IsOpen ledger) (journals_of run js) [] (journals_of-IsOpen run ledger js h.1)
          tt)
]

-- A locked run is reversed whatever else is in the books, if the period is open, the ledger is sound, the
-- liabilities that were filed or remitted are acknowledged, and no journal with a line of the run is a
-- reversal or reversed: none of the reversals is refused.
pub reverse_pay_run-returns :
    (run : PayRun) (acknowledged : Bool) (today : Date) (books : Books)
    → has_status is_locked (books.statuses run.id) ≡ true
    → (acted_on run.id books.liabilities && not acknowledged) ≡ false
    → IsSound books.ledger
    → require_open_period books.ledger today ≡ ok tt
    → All
        (λ (j : Journal). has_line run.id j.lines ≡ true → IsOpen books.ledger.journals j)
        books.ledger.journals
    → (after : Books) × (reverse_pay_run run acknowledged today books ≡ ok after)
unfolding reverse_pay_run
reverse_pay_run-returns run acknowledged today books locked free sound o h =
    let js = books.ledger.journals in
    let (ledger, returned) =
      reverse_journals-returns (journals_of run.id js) today books.ledger sound o
        (journals_of-AreIn run.id js js (all_in js sound)) (journals_of-IsOpen run.id js js h)
        (journals_of-AreApart run.id js sound) in
    let undone = reversed_books run ledger books in
    (
      record undone { loans = reopen_loans undone run.id undone.loans },
      rw (locked, free, returned) refl,
    )
