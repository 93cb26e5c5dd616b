-- ===== src/Ledger/Growth.antt =====
-- The ledger only grows (app/services/posting.py): a journal that is posted or reversed is written in
-- front of the others, which stay, under the same chart and lock date.
use Prim.Native.String.{String}
use mathlib.Core.List.{append_assoc}
use plutus_hr_system.Prelude.{
  ℕ, ◌≡◌, refl, sym, ap, ◌∙◌, Bool, not, Option, none, some, List, [], ◌∷◌, ◌++◌, if◌then◌else◌, ok,
  or_raise, Ensures, Ensures-skip, Ensures-raise_if,
}
use plutus_hr_system.Calendar.{Date}
use plutus_hr_system.Accounting.{PostingLine, assert_balanced, mirror_postings}
use plutus_hr_system.Errors.{journal_not_found}
use plutus_hr_system.Ledger.{
  Source, Journal, Ledger, require_open_period, require_active_accounts, posted_before, is_given,
  is_reversed, find_journal, written, post_journal, reverse_journal,
}

-- All that was in the list is still in it, after what is new.
abbrev pub Extends {ℓ} : {A : Type ℓ} → List A → List A → Type ℓ
Extends {A = A} before after = (new : List A) × (after ≡ new ++ before)

module _ {ℓ} {A : Type ℓ} where
  pub Extends-refl : (xs : List A) → Extends xs xs
  Extends-refl xs = ([], refl)

  pub Extends-trans : {xs ys zs : List A} → Extends xs ys → Extends ys zs → Extends xs zs
  Extends-trans {xs = xs} (new, e) (later, f) =
      (later ++ new, f ∙ ap (λ ls. later ++ ls) e ∙ sym (append_assoc later new xs))

  pub Extends-cons : (x : A) (xs : List A) → Extends xs (x ∷ xs)
  Extends-cons x xs = (x ∷ [], refl)

pub record Growth (before after : Ledger) : Type 0 where
  pub journals_kept : Extends before.journals after.journals
  pub chart_kept : after.chart ≡ before.chart
  pub lock_date_kept : after.lock_date ≡ before.lock_date

pub Growth-refl : (ledger : Ledger) → Growth ledger ledger
Growth-refl ledger = record {
  journals_kept = Extends-refl ledger.journals;
  chart_kept = refl;
  lock_date_kept = refl;
}

pub Growth-trans : (a b c : Ledger) → Growth a b → Growth b c → Growth a c
Growth-trans a b c g h = record {
  journals_kept = Extends-trans g.journals_kept h.journals_kept;
  chart_kept = h.chart_kept ∙ g.chart_kept;
  lock_date_kept = h.lock_date_kept ∙ g.lock_date_kept;
}

written-Growth :
    (ledger : Ledger) (on : Date) (source : Source) (reversal_of_id : Option ℕ)
    (lines : List PostingLine)
    → Growth ledger (written ledger on source reversal_of_id lines)
unfolding written
written-Growth ledger on source reversal_of_id lines = record {
  journals_kept = Extends-cons _ ledger.journals;
  chart_kept = refl;
  lock_date_kept = refl;
}

pub post_journal-Growth :
    (ledger : Ledger) (on : Date) (source : Source) (validate : Bool) (lines : List PostingLine)
    → Ensures (Growth ledger) (post_journal ledger on source validate lines)
unfolding post_journal
post_journal-Growth ledger on source validate lines =
    Ensures-skip (Growth ledger) (assert_balanced lines) _ λ balanced.
      Ensures-skip (Growth ledger) (require_open_period ledger on) _ λ open_period.
        Ensures-skip (Growth ledger)
          (if validate then require_active_accounts ledger.chart lines else ok tt) _
          λ active.
            Ensures-raise_if (Growth ledger) (posted_before source ledger.journals) _ _
              λ new. written-Growth ledger on source none lines

pub reverse_journal-Growth :
    (ledger : Ledger) (id : ℕ) (on : Date) (given_reason : Bool) (description : Option String)
    → Ensures (Growth ledger) (reverse_journal ledger id on given_reason description)
unfolding reverse_journal
reverse_journal-Growth ledger id on given_reason description =
    Ensures-raise_if (Growth ledger) (not given_reason) _ _ λ given.
      Ensures-skip (Growth ledger) (require_open_period ledger on) _ λ open_period.
        Ensures-skip (Growth ledger) (or_raise (find_journal id ledger.journals) journal_not_found)
          _
          λ (k : Journal). Ensures-raise_if (Growth ledger) (is_given k.reversal_of_id) _ _ λ n.
            Ensures-raise_if (Growth ledger) (is_reversed k.id ledger.journals) _ _ λ r.
              Ensures-skip (Growth ledger) (assert_balanced (mirror_postings description k.lines)) _
                λ balanced. written-Growth ledger on _ (some k.id) _
