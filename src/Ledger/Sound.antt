-- ===== src/Ledger/Sound.antt =====
-- What holds of every ledger that the writers of app/services/posting.py leave.
use Prim.Native.String.{String}
use plutus_hr_system.Prelude.{
  ℕ, ◌≡◌, refl, sym, subst, inl, inr, Bool, true, false, not, Option, none, some, List, [], ◌∷◌,
  arith, ◌==◌, if◌then◌else◌, Bool-cases, pos, ◌+ℤ◌, ok, Ensures, Ensures-bind, or_raise-some,
  Ensures-skip, Ensures-raise_if, Ensures-ok, Ensures-self, length,
}
use plutus_hr_system.Errors.{journal_not_found}
use plutus_hr_system.Calendar.{Date}
use plutus_hr_system.Accounting.{PostingLine, assert_balanced, mirror_postings}
use plutus_hr_system.Accounting.Balance.{
  IsEntry, effect, assert_balanced_iff, mirror_postings-undoes,
}
use plutus_hr_system.Ledger.{
  Source, Journal, Ledger, require_open_period, require_active_accounts, posted_before, written,
  post_journal, find_journal, is_reversed, is_given, reversal_source, reverse_journal,
}

-- A reversal is of an earlier journal that is no reversal and was not reversed before, and takes
-- back on every account what that journal put there.
pub record Reverses (id : ℕ) (lines : List PostingLine) (earlier : List Journal) : Type 0 where
  pub original : Journal
  pub found : find_journal id earlier ≡ some original
  pub not_reversal : is_given original.reversal_of_id ≡ false
  pub first : is_reversed original.id earlier ≡ false
  pub undoes : (account : String) → effect account original.lines +ℤ effect account lines ≡ pos 0

abbrev pub IsReversal : Option ℕ → List PostingLine → List Journal → Type 0
IsReversal none lines earlier = Unit
IsReversal (some id) lines earlier = Reverses id lines earlier

-- Every journal is an entry, has an identifier of its own, is for a source event that no earlier
-- journal is for, and, where it is a reversal, reverses an earlier journal for the first time.
abbrev pub IsHistory : List Journal → Type 0
IsHistory [] = Unit
IsHistory (j ∷ js) =
    IsEntry j.lines
    × (j.id ≡ length js)
    × (posted_before j.source js ≡ false)
    × IsReversal j.reversal_of_id j.lines js
    × IsHistory js

abbrev pub IsSound : Ledger → Type 0
IsSound ledger = IsHistory ledger.journals

pub post_journal-IsSound :
    (ledger : Ledger) (on : Date) (source : Source) (validate : Bool) (lines : List PostingLine)
    → IsSound ledger
    → Ensures IsSound (post_journal ledger on source validate lines)
unfolding post_journal written
post_journal-IsSound ledger on source validate lines h =
    Ensures-bind (λ u. assert_balanced lines ≡ ok u) IsSound (assert_balanced lines) _
      (Ensures-self (assert_balanced lines))
      (λ checked balanced. Ensures-skip IsSound (require_open_period ledger on) _ (λ open_period.
        Ensures-skip IsSound
          (if validate then require_active_accounts ledger.chart lines else ok tt) _
          (λ active.
            Ensures-raise_if IsSound (posted_before source ledger.journals) _ _
              (λ new. ((assert_balanced_iff lines).0 balanced, refl, new, tt, h)))))

some_inj : {a b : Journal} → some a ≡ some b → a ≡ b
some_inj e = cc

-- The identifiers of the journals are all below their number, so that one is found by its own.
pub found_id :
    (id : ℕ) (js : List Journal) (j : Journal)
    → find_journal id js ≡ some j
    → IsHistory js
    → IsEntry j.lines × (j.id ≡ id)
unfolding find_journal
found_id id [] j e h = cc
found_id id (k ∷ js) j e h = elim (Bool-cases (k.id == id)) [
  | inl b ↦
      let same : k ≡ j = some_inj (rw b at e) in
      (
        subst (λ (x : Journal). IsEntry x.lines) same h.0,
        subst (λ (x : Journal). x.id ≡ id) same (ground arith),
      )
  | inr b ↦ let later : find_journal id js ≡ some j = rw b at e in found_id id js j later h.4
]

reversal_of :
    (id : ℕ) (js : List Journal) (j : Journal) (description : Option String)
    → IsHistory js
    → find_journal id js ≡ some j
    → is_given j.reversal_of_id ≡ false
    → is_reversed j.id js ≡ false
    → IsEntry (mirror_postings description j.lines)
      × Reverses j.id (mirror_postings description j.lines) js
reversal_of id js j description h e n r =
    let (entry, same) = found_id id js j e h in
    (
      (mirror_postings-undoes description j.lines "" entry).0,
      record {
        original = j;
        found = subst (λ (n : ℕ). find_journal n js ≡ some j) (sym same) e;
        not_reversal = n;
        first = r;
        undoes = λ account. (mirror_postings-undoes description j.lines account entry).1;
      },
    )

pub reverse_journal-IsSound :
    (ledger : Ledger) (id : ℕ) (on : Date) (given_reason : Bool) (description : Option String)
    → IsSound ledger
    → Ensures IsSound (reverse_journal ledger id on given_reason description)
unfolding reverse_journal written
reverse_journal-IsSound ledger id on given_reason description h =
    let js = ledger.journals in
    Ensures-raise_if IsSound (not given_reason) _ _ (λ given.
      Ensures-skip IsSound (require_open_period ledger on) _ (λ open_period.
        Ensures-bind (λ j. find_journal id js ≡ some j) IsSound _ _
          (or_raise-some (find_journal id js) journal_not_found)
          (λ (j : Journal) e. Ensures-raise_if IsSound (is_given j.reversal_of_id) _ _ (λ n.
            Ensures-raise_if IsSound (is_reversed j.id js) _ _ (λ r.
              Ensures-skip IsSound (assert_balanced (mirror_postings description j.lines)) _
                (λ balanced.
                  let (entry, reverses) = reversal_of id js j description h e n r in
                  (entry, refl, refl, reverses, h)))))))

-- The ledgers that the writers lead to from an empty one, whatever the chart and the lock date are
-- changed to in between.
pub data Reached : Ledger → Type 0 where
  opened :
      (chart : List (String × Bool)) (lock_date : Option Date)
      → Reached (record { journals = []; chart = chart; lock_date = lock_date })
  configured :
      (ledger : Ledger) (chart : List (String × Bool)) (lock_date : Option Date)
      → Reached ledger
      → Reached (record { journals = ledger.journals; chart = chart; lock_date = lock_date })
  posted :
      (ledger : Ledger) (on : Date) (source : Source) (validate : Bool) (lines : List PostingLine)
      (next : Ledger)
      → Reached ledger
      → post_journal ledger on source validate lines ≡ ok next
      → Reached next
  reversed :
      (ledger : Ledger) (id : ℕ) (on : Date) (given_reason : Bool) (description : Option String)
      (next : Ledger)
      → Reached ledger
      → reverse_journal ledger id on given_reason description ≡ ok next
      → Reached next

-- In every ledger that postings and reversals lead to, each journal is a balanced entry with an
-- identifier of its own, no two are for one event of one source, and each reversal is of an earlier
-- journal that is no reversal, the first of it, and takes back on every account what it put there.
pub Reached-IsSound : (ledger : Ledger) → Reached ledger → IsSound ledger
Reached-IsSound _ (opened chart lock_date) = tt
Reached-IsSound _ (configured ledger chart lock_date reached) = Reached-IsSound ledger reached
Reached-IsSound _ (posted ledger on source validate lines next reached e) =
    Ensures-ok IsSound _ e
      (post_journal-IsSound ledger on source validate lines (Reached-IsSound ledger reached))
Reached-IsSound _ (reversed ledger id on given_reason description next reached e) =
    Ensures-ok IsSound _ e (
      reverse_journal-IsSound ledger id on given_reason description
        (Reached-IsSound ledger reached))

mirror_balanced :
    (id : ℕ) (js : List Journal) (j : Journal) (description : Option String)
    → IsHistory js
    → find_journal id js ≡ some j
    → assert_balanced (mirror_postings description j.lines) ≡ ok tt
mirror_balanced id js j description h e =
    (assert_balanced_iff (mirror_postings description j.lines)).1
      (mirror_postings-undoes description j.lines "" (found_id id js j e h).0).0

-- A reversal in a sound ledger: the balance of the mirror is no obstacle.
pub reverse_journal-written :
    (ledger : Ledger) (id : ℕ) (on : Date) (description : Option String) (j : Journal)
    → IsSound ledger
    → require_open_period ledger on ≡ ok tt
    → find_journal id ledger.journals ≡ some j
    → is_given j.reversal_of_id ≡ false
    → is_reversed j.id ledger.journals ≡ false
    → reverse_journal ledger id on true description
      ≡ ok (written ledger on reversal_source (some j.id) (mirror_postings description j.lines))
unfolding reverse_journal
reverse_journal-written ledger id on description j sound o e n r =
    let balanced = mirror_balanced id ledger.journals j description sound e in
    simp (o, e, n, r, balanced)

-- In a ledger that postings and reversals lead to, a journal that is no reversal and not reversed is
-- reversed, with a reason in an open period, by its mirror: the check of the balance never refuses.
pub reverse_journal-returns :
    (ledger : Ledger) (id : ℕ) (on : Date) (description : Option String) (j : Journal)
    → Reached ledger
    → require_open_period ledger on ≡ ok tt
    → find_journal id ledger.journals ≡ some j
    → is_given j.reversal_of_id ≡ false
    → is_reversed j.id ledger.journals ≡ false
    → reverse_journal ledger id on true description
      ≡ ok (written ledger on reversal_source (some j.id) (mirror_postings description j.lines))
reverse_journal-returns ledger id on description j reached =
    reverse_journal-written ledger id on description j (Reached-IsSound ledger reached)
