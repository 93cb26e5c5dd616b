-- ===== src/Accounting/Tests.antt =====
-- A remittance, its mirror, and what is refused.
use plutus_hr_system.Prelude.{
  ◌≡◌, refl, ◌↔◌, inl, inr, none, some, List, [], ◌∷◌, arith, pos, ◌+ℤ◌, int_laws, ok,
}
use plutus_hr_system.Accounting.{
  PostingLine, plain_line, cash_account, assert_balanced, mirror_postings,
}
use plutus_hr_system.Accounting.Balance.{
  IsEntry, effect, assert_balanced_iff, mirror_postings-undoes,
}

abbrev remittance : List PostingLine
remittance =
    plain_line "paye_payable" (pos 7_285_000) (pos 0) none
    ∷ plain_line cash_account (pos 0) (pos 7_285_000) none
    ∷ []

remittance-IsEntry : IsEntry remittance
remittance-IsEntry = record {
  two_lines = omega arith;
  one_sided = (inl (omega arith, refl), (inr (refl, omega arith), tt));
  balanced = omega int_laws;
}

assert_balanced_iff_example : (assert_balanced remittance ≡ ok tt) ↔ IsEntry remittance
assert_balanced_iff_example = assert_balanced_iff remittance

mirror_postings-undoes_example :
    IsEntry (mirror_postings (some "reversal") remittance)
    × (effect cash_account remittance
          +ℤ effect cash_account (mirror_postings (some "reversal") remittance)
        ≡ pos 0)
mirror_postings-undoes_example =
    mirror_postings-undoes (some "reversal") remittance cash_account remittance-IsEntry
