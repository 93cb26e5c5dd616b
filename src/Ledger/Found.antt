-- ===== src/Ledger/Found.antt =====
-- Journals found by their identifiers in the ledgers of app/services/posting.py, and what a reversal
-- adds to the accounts.
use Prim.Native.String.{String}
use plutus_hr_system.Prelude.{
  ℕ, ◌<◌, ◌≡◌, refl, sym, ◌∙◌, subst, inl, inr, Bool, not, Option, some, List, [], ◌∷◌, arith, ◌==◌,
  Bool-cases, pos, ◌+ℤ◌, Ensures, Ensures-bind, or_raise-some, Ensures-skip, Ensures-raise_if,
  length, All,
}
use plutus_hr_system.Errors.{journal_not_found}
use plutus_hr_system.Calendar.{Date}
use plutus_hr_system.Accounting.{assert_balanced, mirror_postings}
use plutus_hr_system.Accounting.Balance.{effect, mirror_postings-undoes}
use plutus_hr_system.Ledger.{
  Journal, Ledger, require_open_period, written, find_journal, is_given, is_reversed,
  reversal_source, reverse_journal,
}
use plutus_hr_system.Ledger.Sound.{IsHistory, IsSound, found_id}

-- The journals are in a ledger, each found by its identifier.
abbrev pub AreIn : List Journal → List Journal → Type 0
AreIn ledger = All (λ (j : Journal). find_journal j.id ledger ≡ some j)

pub found_below :
    (id : ℕ) (js : List Journal) (j : Journal)
    → find_journal id js ≡ some j
    → IsHistory js
    → id < length js
unfolding find_journal
found_below id [] j e h = cc
found_below id (k ∷ js) j e h = elim (Bool-cases (k.id == id)) [
  | inl b ↦ grind (arith, h.1)
  | inr b ↦
      let later : find_journal id js ≡ some j = rw b at e in
      grind (arith, found_below id js j later h.4)
]

-- A newer journal, with an identifier of its own, hides no older one.
still_found :
    (id : ℕ) (k : Journal) (js : List Journal) (j : Journal)
    → k.id ≡ length js
    → IsHistory js
    → find_journal id js ≡ some j
    → find_journal id (k ∷ js) ≡ some j
unfolding find_journal
still_found id k js j e h f = let below : id < length js = found_below id js j f h in ground (arith)

pub in_newer :
    (k : Journal) (js ks : List Journal)
    → k.id ≡ length js
    → IsHistory js
    → AreIn js ks
    → AreIn (k ∷ js) ks
in_newer k js [] e h all = tt
in_newer k js (j ∷ ks) e h all = (still_found j.id k js j e h all.0, in_newer k js ks e h all.1)

-- Every journal of a ledger is in it.
pub all_in : (js : List Journal) → IsHistory js → AreIn js js
unfolding find_journal
all_in [] h = tt
all_in (k ∷ js) h = (grind arith, in_newer k js js h.1 h.4 (all_in js h.4))

-- A reversal of a journal that is in the ledger puts one journal in front, which takes back what that
-- journal put on every account.
pub record TakesBack (j : Journal) (ledger after : Ledger) : Type 0 where
  pub reversal : Journal
  pub in_front : after.journals ≡ reversal ∷ ledger.journals
  pub new_id : reversal.id ≡ length ledger.journals
  pub takes_back :
      (account : String) → effect account j.lines +ℤ effect account reversal.lines ≡ pos 0

some_same : {a b : Journal} → some a ≡ some b → a ≡ b
some_same e = cc

pub reverse_journal-TakesBack :
    (ledger : Ledger) (j : Journal) (on : Date) (given_reason : Bool) (description : Option String)
    → IsSound ledger
    → find_journal j.id ledger.journals ≡ some j
    → Ensures (TakesBack j ledger) (reverse_journal ledger j.id on given_reason description)
unfolding reverse_journal written
reverse_journal-TakesBack ledger j on given_reason description h found =
    Ensures-raise_if (TakesBack j ledger) (not given_reason) _ _ λ given.
      Ensures-skip (TakesBack j ledger) (require_open_period ledger on) _ λ open_period.
        Ensures-bind (λ k. find_journal j.id ledger.journals ≡ some k) (TakesBack j ledger) _ _
          (or_raise-some (find_journal j.id ledger.journals) journal_not_found)
          λ (k : Journal) e.
            Ensures-raise_if (TakesBack j ledger) (is_given k.reversal_of_id) _ _ λ n.
              Ensures-raise_if (TakesBack j ledger) (is_reversed k.id ledger.journals) _ _ λ r.
                Ensures-skip (TakesBack j ledger)
                  (assert_balanced (mirror_postings description k.lines)) _
                  λ balanced. record {
                    reversal = record {
                      id = length ledger.journals;
                      entry_date = on;
                      source = reversal_source;
                      reversal_of_id = some k.id;
                      lines = mirror_postings description k.lines;
                    };
                    in_front = refl;
                    new_id = refl;
                    takes_back = λ account.
                        subst
                          (λ (x : Journal).
                            effect account x.lines
                              +ℤ effect account (mirror_postings description k.lines)
                            ≡ pos 0)
                          (some_same (sym e ∙ found))
                          (mirror_postings-undoes description k.lines account
                            (found_id j.id ledger.journals k e h).0).1;
                  }
