-- ===== src/Lifecycle/Reverse/Journals.antt =====
-- What reversing the journals of a run leaves on the accounts (reverse_pay_run of
-- app/services/pay_run_lifecycle.py).
use Prim.Native.String.{String}
use plutus_hr_system.Prelude.{
  ℕ, ◌≡◌, sym, ap, subst, inl, inr, true, some, List, [], ◌∷◌, if◌then◌else◌, Bool-cases, ℤ, pos,
  ◌+ℤ◌, int_laws, Result, Ensures, Ensures-bind, Ensures-both, Ensures-weaken, All-append,
}
use plutus_hr_system.Errors.{ValueError}
use plutus_hr_system.Calendar.{Date}
use plutus_hr_system.Accounting.Balance.{effect}
use plutus_hr_system.Ledger.{Journal, Ledger, reverse_journal}
use plutus_hr_system.Ledger.Sound.{IsSound, reverse_journal-IsSound}
use plutus_hr_system.Ledger.Growth.{Growth, Growth-refl, Growth-trans, reverse_journal-Growth}
use plutus_hr_system.Ledger.Totals.{total_on, total_on-append}
use plutus_hr_system.Ledger.Found.{AreIn, in_newer, TakesBack, reverse_journal-TakesBack}
use plutus_hr_system.Lifecycle.Reverse.{has_line, journals_of, reverse_journals}

-- What the journals with no line of the run leave on an account.
abbrev pub other_total : String → ℕ → List Journal → ℤ
other_total account run [] = pos 0
other_total account run (j ∷ js) =
    (if has_line run j.lines then pos 0 else effect account j.lines) +ℤ other_total account run js

pub journals_of-total :
    (account : String) (run : ℕ) (js : List Journal)
    → total_on account js ≡ other_total account run js +ℤ total_on account (journals_of run js)
unfolding journals_of
journals_of-total account run [] = omega int_laws
journals_of-total account run (j ∷ js) = elim (Bool-cases (has_line run j.lines)) [
  | inl e ↦
      rw
        (e, total_on-append account (journals_of run js) (j ∷ []), journals_of-total account run js)
        (omega int_laws)
  | inr e ↦
      rw (e, total_on-append account (journals_of run js) [], journals_of-total account run js)
        (omega int_laws)
]

pub journals_of-AreIn :
    (run : ℕ) (ledger js : List Journal) → AreIn ledger js → AreIn ledger (journals_of run js)
unfolding journals_of
journals_of-AreIn run ledger [] h = tt
journals_of-AreIn run ledger (j ∷ js) h = elim (Bool-cases (has_line run j.lines)) [
  | inl e ↦
      rw e
        (All-append _ (journals_of run js) (j ∷ []) (journals_of-AreIn run ledger js h.1) (h.0, tt))
  | inr e ↦ rw e (All-append _ (journals_of run js) [] (journals_of-AreIn run ledger js h.1) tt)
]

-- What the reversed journals put on an account is off it again, and the ledger is still sound.
pub record Undoes (reversed : List Journal) (ledger after : Ledger) : Type 0 where
  pub still_sound : IsSound after
  pub undone :
      (account : String)
      → total_on account after.journals +ℤ total_on account reversed
        ≡ total_on account ledger.journals

one_less :
    (total after later j js r : ℤ)
    → after ≡ r +ℤ total
    → j +ℤ r ≡ pos 0
    → later +ℤ js ≡ after
    → later +ℤ (j +ℤ js) ≡ total
one_less total after later j js r e f g = grind int_laws

pub reverse_journals-Undoes :
    (js : List Journal) (on : Date) (ledger : Ledger)
    → IsSound ledger
    → AreIn ledger.journals js
    → Ensures (Undoes js ledger) (reverse_journals js on ledger)
unfolding reverse_journals
reverse_journals-Undoes [] on ledger h all = record {
  still_sound = h;
  undone = λ account. omega int_laws;
}
reverse_journals-Undoes (j ∷ js) on ledger h all =
    let one : Result ValueError Ledger =
      reverse_journal ledger j.id on true (some "reversal of pay run") in
    Ensures-bind (λ next. IsSound next × TakesBack j ledger next) (Undoes (j ∷ js) ledger) one _
      (Ensures-both IsSound (TakesBack j ledger) (λ next. IsSound next × TakesBack j ledger next)
        one (reverse_journal-IsSound ledger j.id on true (some "reversal of pay run") h)
        (reverse_journal-TakesBack ledger j on true (some "reversal of pay run") h all.0)
        (λ next sound back. (sound, back)))
      λ (next : Ledger) (sound, back).
        Ensures-weaken (Undoes js next) (Undoes (j ∷ js) ledger) (reverse_journals js on next)
          (reverse_journals-Undoes js on next sound (
            subst (λ ks. AreIn ks js) (sym back.in_front)
              (in_newer back.reversal ledger.journals js back.new_id h all.1)))
          λ after rest. record {
            still_sound = rest.still_sound;
            undone = λ account.
                one_less (total_on account ledger.journals) (total_on account next.journals)
                  (total_on account after.journals) (effect account j.lines) (total_on account js)
                  (effect account back.reversal.lines) (ap (total_on account) back.in_front)
                  (back.takes_back account) (rest.undone account);
          }

pub reverse_journals-Growth :
    (js : List Journal) (on : Date) (ledger : Ledger)
    → Ensures (Growth ledger) (reverse_journals js on ledger)
unfolding reverse_journals
reverse_journals-Growth [] on ledger = Growth-refl ledger
reverse_journals-Growth (j ∷ js) on ledger =
    Ensures-bind (Growth ledger) (Growth ledger)
      (reverse_journal ledger j.id on true (some "reversal of pay run")) _
      (reverse_journal-Growth ledger j.id on true (some "reversal of pay run"))
      λ (next : Ledger) growth.
        Ensures-weaken (Growth next) (Growth ledger) (reverse_journals js on next)
          (reverse_journals-Growth js on next)
          λ after later. Growth-trans ledger next after growth later
