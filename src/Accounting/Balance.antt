-- ===== src/Accounting/Balance.antt =====
-- Which entries `assert_balanced` of app/domain/accounting/posting_rules.py accepts, and what
-- mirroring one does.
use Prim.Native.String.{String}
use text.Mathlib.Text.{◌==◌ as str_eq}
use plutus_hr_system.Prelude.{
  suc, ◌≤◌, ◌≡◌, refl, sym, ap, ◌∙◌, ◌↔◌, ◌⊎◌, inl, inr, Bool, false, ◌||◌, Option, List, [], ◌∷◌,
  arith, ltb, if◌then◌else◌, Bool-cases, ℤ, pos, ◌+ℤ◌, ◌-ℤ◌, ◌<ℤ◌, is_neg, is_pos, int_laws,
  +ℤ_assoc, ok, length, All,
}
use plutus_hr_system.Accounting.{PostingLine, same, check_lines, assert_balanced, mirror_postings}

abbrev pub total_debit : List PostingLine → ℤ
total_debit [] = pos 0
total_debit (l ∷ ls) = l.debit_minor +ℤ total_debit ls

abbrev pub total_credit : List PostingLine → ℤ
total_credit [] = pos 0
total_credit (l ∷ ls) = l.credit_minor +ℤ total_credit ls

-- Exactly one side is positive, and the other is zero.
abbrev pub IsOneSided : PostingLine → Type 0
IsOneSided l =
    ((pos 0 <ℤ l.debit_minor) × (l.credit_minor ≡ pos 0))
    ⊎ ((l.debit_minor ≡ pos 0) × (pos 0 <ℤ l.credit_minor))

pub record IsEntry (lines : List PostingLine) : Type 0 where
  pub two_lines : 2 ≤ length lines
  pub one_sided : All IsOneSided lines
  pub balanced : total_debit lines ≡ total_credit lines

-- The two tests that a line passes are those of `IsOneSided`.
abbrev has_negative : PostingLine → Bool
has_negative l = is_neg l.debit_minor || is_neg l.credit_minor

abbrev has_same : PostingLine → Bool
has_same l = same (is_pos l.debit_minor) (is_pos l.credit_minor)

line_accepted : (l : PostingLine) → IsOneSided l → (has_negative l ≡ false) × (has_same l ≡ false)
line_accepted l h = ground arith

line_sound : (l : PostingLine) → has_negative l ≡ false → has_same l ≡ false → IsOneSided l
line_sound l n s = ground arith

check_lines_step :
    (l : PostingLine) (ls : List PostingLine) (d c : ℤ)
    → has_negative l ≡ false
    → has_same l ≡ false
    → check_lines (l ∷ ls) d c ≡ check_lines ls (d +ℤ l.debit_minor) (c +ℤ l.credit_minor)
unfolding check_lines
check_lines_step l ls d c n s = rw (n, s)

check_lines_inv :
    (l : PostingLine) (ls : List PostingLine) (d c : ℤ)
    → check_lines (l ∷ ls) d c ≡ ok tt
    → (has_negative l ≡ false) × (has_same l ≡ false)
unfolding check_lines
check_lines_inv l ls d c e = elim (Bool-cases (has_negative l)) [
  | inl n ↦ cc (rw n at e)
  | inr n ↦ elim (Bool-cases (has_same l)) [ inl s ↦ cc (rw (n, s) at e) | inr s ↦ (n, s) ]
]

add_zero : (a : ℤ) → a +ℤ pos 0 ≡ a
add_zero a = omega int_laws

zero_add : (a : ℤ) → pos 0 +ℤ a ≡ a
zero_add a = omega int_laws

check_lines-accepts :
    (ls : List PostingLine) (d c : ℤ)
    → All IsOneSided ls
    → d +ℤ total_debit ls ≡ c +ℤ total_credit ls
    → check_lines ls d c ≡ ok tt
check_lines-accepts [] d c h e =
    let equal : d ≡ c = sym (add_zero d) ∙ e ∙ add_zero c in unfold check_lines in ground arith
check_lines-accepts (l ∷ ls) d c h e =
    let (n, s) = line_accepted l h.0 in
    check_lines_step l ls d c n s
    ∙ check_lines-accepts ls (d +ℤ l.debit_minor) (c +ℤ l.credit_minor) h.1 (
        +ℤ_assoc d l.debit_minor (total_debit ls)
        ∙ e
        ∙ sym (+ℤ_assoc c l.credit_minor (total_credit ls)))

check_lines_sound :
    (ls : List PostingLine) (d c : ℤ)
    → check_lines ls d c ≡ ok tt
    → All IsOneSided ls × (d +ℤ total_debit ls ≡ c +ℤ total_credit ls)
check_lines_sound [] d c e = (tt, unfold check_lines in grind int_laws)
check_lines_sound (l ∷ ls) d c e =
    let (n, s) = check_lines_inv l ls d c e in
    let (sided, totals) =
      check_lines_sound ls (d +ℤ l.debit_minor) (c +ℤ l.credit_minor)
        (sym (check_lines_step l ls d c n s) ∙ e) in
    (
      (line_sound l n s, sided),
      sym (+ℤ_assoc d l.debit_minor (total_debit ls))
          ∙ totals
          ∙ +ℤ_assoc c l.credit_minor (total_credit ls),
    )

assert_balanced-IsEntry : (lines : List PostingLine) → assert_balanced lines ≡ ok tt → IsEntry lines
unfolding assert_balanced
assert_balanced-IsEntry lines e = elim (Bool-cases (ltb (length lines) 2)) [
  | inl few ↦ cc (rw few at e)
  | inr enough ↦
      let (sided, totals) = check_lines_sound lines (pos 0) (pos 0) (rw enough at e) in
      record {
        two_lines = ground arith;
        one_sided = sided;
        balanced = sym (zero_add (total_debit lines)) ∙ totals ∙ zero_add (total_credit lines);
      }
]

IsEntry-assert_balanced : (lines : List PostingLine) → IsEntry lines → assert_balanced lines ≡ ok tt
unfolding assert_balanced
IsEntry-assert_balanced lines h =
    let enough : ltb (length lines) 2 ≡ false = ground arith in
    rw enough (
      check_lines-accepts lines (pos 0) (pos 0) h.one_sided (ap (λ (x : ℤ). pos 0 +ℤ x) h.balanced))

-- `assert_balanced` accepts exactly the entries: two lines or more, each with one positive side and
-- the other zero, and equal totals.
pub assert_balanced_iff :
    (lines : List PostingLine) → (assert_balanced lines ≡ ok tt) ↔ IsEntry lines
assert_balanced_iff lines = (assert_balanced-IsEntry lines, IsEntry-assert_balanced lines)

mirror-length :
    (description : Option String) (ls : List PostingLine)
    → length (mirror_postings description ls) ≡ length ls
unfolding mirror_postings
mirror-length description [] = refl
mirror-length description (l ∷ ls) = ap suc (mirror-length description ls)

mirror-totals :
    (description : Option String) (ls : List PostingLine)
    → (total_debit (mirror_postings description ls) ≡ total_credit ls)
      × (total_credit (mirror_postings description ls) ≡ total_debit ls)
unfolding mirror_postings
mirror-totals description [] = (refl, refl)
mirror-totals description (l ∷ ls) = let (d, c) = mirror-totals description ls in (rw d, rw c)

mirror-IsOneSided :
    (description : Option String) (ls : List PostingLine)
    → All IsOneSided ls
    → All IsOneSided (mirror_postings description ls)
unfolding mirror_postings
mirror-IsOneSided description [] h = tt
mirror-IsOneSided description (l ∷ ls) h = (
  elim h.0 [ inl e ↦ inr (e.1, e.0) | inr e ↦ inl (e.1, e.0) ],
  mirror-IsOneSided description ls h.1,
)

-- What a journal leaves on one account: its debits less its credits.
abbrev pub effect : String → List PostingLine → ℤ
effect account [] = pos 0
effect account (l ∷ ls) =
    (if str_eq l.account account then l.debit_minor -ℤ l.credit_minor else pos 0)
    +ℤ effect account ls

mirror-effect :
    (description : Option String) (ls : List PostingLine) (account : String)
    → effect account ls +ℤ effect account (mirror_postings description ls) ≡ pos 0
unfolding mirror_postings
mirror-effect description [] account = omega int_laws
mirror-effect description (l ∷ ls) account = elim (Bool-cases (str_eq l.account account)) [
  | inl e ↦ rw e (grind (int_laws, mirror-effect description ls account))
  | inr e ↦ rw e (grind (int_laws, mirror-effect description ls account))
]

mirror-IsEntry :
    (description : Option String) (lines : List PostingLine)
    → IsEntry lines
    → IsEntry (mirror_postings description lines)
mirror-IsEntry description lines h =
    let (d, c) = mirror-totals description lines in
    record {
      two_lines = rw (mirror-length description lines) h.two_lines;
      one_sided = mirror-IsOneSided description lines h.one_sided;
      balanced = d ∙ sym h.balanced ∙ sym c;
    }

-- The mirror of an entry is an entry, and after both every account is back where it was.
pub mirror_postings-undoes :
    (description : Option String) (lines : List PostingLine) (account : String)
    → IsEntry lines
    → IsEntry (mirror_postings description lines)
      × (effect account lines +ℤ effect account (mirror_postings description lines) ≡ pos 0)
mirror_postings-undoes description lines account h =
    (mirror-IsEntry description lines h, mirror-effect description lines account)
