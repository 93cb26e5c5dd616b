-- ===== src/Payroll/Benefits.antt =====
-- Non-statutory benefits: app/domain/payroll/benefits.py.
pub mod Selection
use plutus_hr_system.Prelude.{
  ℕ, Bool, true, false, not, ◌&&◌, Option, none, some, List, [], ◌∷◌, ◌==◌, if◌then◌else◌, ℤ, pos,
  ◌-ℤ◌, leb_ℤ, is_pos,
}
use plutus_hr_system.Calendar.{Date, before, not_after}

pub data BenefitFrequency : Type 0 where
  one_time monthly annual : BenefitFrequency

pub record BenefitCandidate : Type 0 where
  pub id : ℕ
  pub value_minor : Option ℤ
  pub frequency : BenefitFrequency
  pub effective_date : Date
  pub end_date : Option Date

pub record BenefitDeduction : Type 0 where
  pub benefit_id : ℕ
  pub value_minor : ℤ

abbrev has_value : Option ℤ → Bool
has_value none = false
has_value (some value) = is_pos value

abbrev ended_before : Option Date → Date → Bool
ended_before none start = false
ended_before (some end_date) start = before end_date start

recurs : BenefitFrequency → BenefitCandidate → Date → Date → Bool
recurs one_time benefit period_start period_end =
    not_after period_start benefit.effective_date && not_after benefit.effective_date period_end
recurs annual benefit period_start period_end = benefit.effective_date.month == period_end.month
recurs monthly benefit period_start period_end = true

unfoldable pub is_benefit_active_this_period : BenefitCandidate → Date → Date → Bool
unfolding recurs
is_benefit_active_this_period benefit period_start period_end =
    if not (has_value benefit.value_minor)
    then false
    else if before period_end benefit.effective_date
    then false
    else if ended_before benefit.end_date period_start
    then false
    else recurs benefit.frequency benefit period_start period_end

-- `sorted(benefits, key=lambda b: b.effective_date)`, which keeps equal dates in their order.
pub insert_by_date : BenefitCandidate → List BenefitCandidate → List BenefitCandidate
insert_by_date b [] = b ∷ []
insert_by_date b (c ∷ cs) =
    if not_after b.effective_date c.effective_date then b ∷ c ∷ cs else c ∷ insert_by_date b cs

pub sort_by_date : List BenefitCandidate → List BenefitCandidate
unfolding insert_by_date
sort_by_date [] = []
sort_by_date (b ∷ bs) = insert_by_date b (sort_by_date bs)

-- `benefit.value_minor or 0`
abbrev pub value_or_zero : Option ℤ → ℤ
value_or_zero none = pos 0
value_or_zero (some value) = value

-- The loop of `select_benefit_deductions`: the deductions applied and what remains.
pub select_loop : List BenefitCandidate → ℤ → List BenefitDeduction × ℤ
select_loop [] remaining = ([], remaining)
select_loop (b ∷ bs) remaining =
    let value = value_or_zero b.value_minor in
    let fits = leb_ℤ value remaining in
    let (applied, left) = select_loop bs (if fits then remaining -ℤ value else remaining) in
    (if fits then record { benefit_id = b.id; value_minor = value } ∷ applied else applied, left)

unfoldable pub select_benefit_deductions : List BenefitCandidate → ℤ → List BenefitDeduction × ℤ
unfolding sort_by_date select_loop
select_benefit_deductions benefits available_net_minor =
    let (applied, remaining) = select_loop (sort_by_date benefits) available_net_minor in
    (applied, available_net_minor -ℤ remaining)
