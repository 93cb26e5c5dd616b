-- ===== src/Approvals/Tests.antt =====
-- An expense that needs the requester's manager and then one named person.
use plutus_hr_system.Prelude.{◌≡◌, refl, true, false, none, some, List, [], ◌∷◌, arith, ok}
use plutus_hr_system.Approvals.{
  Role, EligibilityType, Directory, Claims, Instance, InstanceStatus, StepInput, WorkflowStep,
  new_instance, number_from, is_eligible_approver, eligible_by, by_relation, related, default_gate,
  find_employee, advance, decide,
}
use plutus_hr_system.Approvals.Trail.{IsTrail, submitted, decided, Reached-IsTrail}
use plutus_hr_system.Approvals.Fallback.{approved_row, decide_past_the_steps}

abbrev company : Directory
company = record {
  employees =
      record { id = 1; account_id = some 10; manager_id = none; department_id = none }
      ∷ record { id = 2; account_id = some 20; manager_id = some 1; department_id = none }
      ∷ [];
  departments = [];
}

abbrev by_manager : StepInput
by_manager = record {
  eligibility_type = EligibilityType.direct_manager;
  eligible_role = none;
  eligible_account_id = none;
}

abbrev by_director : StepInput
by_director = record {
  eligibility_type = EligibilityType.specific_person;
  eligible_role = none;
  eligible_account_id = some 30;
}

abbrev workflow : List WorkflowStep
workflow =
    record {
      step_order = 1;
      eligibility_type = EligibilityType.direct_manager;
      eligible_role = none;
      eligible_account_id = none;
    }
    ∷ record {
      step_order = 2;
      eligibility_type = EligibilityType.specific_person;
      eligible_role = none;
      eligible_account_id = some 30;
    }
    ∷ []

abbrev the_manager : Claims
the_manager = record { account_id = 10; role = Role.manager }

abbrev the_accountant : Claims
the_accountant = record { account_id = 40; role = Role.accountant }

abbrev at_second_step : Instance
at_second_step = record {
  status = InstanceStatus.pending;
  current_step = 2;
  requester_id = some 2;
  decisions = record { step_order = 1; approves = true; decided_by = the_manager } ∷ [];
}

manager_approves :
    decide company workflow the_manager (some (new_instance (some 2))) (some 2) true
    ≡ ok (at_second_step, false)
unfolding decide is_eligible_approver eligible_by by_relation related advance find_employee
manager_approves = refl

Reached-IsTrail_example : IsTrail company workflow (some 2) at_second_step
Reached-IsTrail_example = Reached-IsTrail company workflow (some 2) at_second_step (
    decided (new_instance (some 2)) the_manager true (at_second_step, false) submitted
      manager_approves)

accountant_passes : default_gate company the_accountant (some 2) ≡ true
unfolding default_gate
accountant_passes = refl

decide_past_the_steps_example :
    decide company
      (number_from 1 (by_director ∷ []))
      the_accountant
      (some at_second_step)
      (some 2)
      true
    ≡ ok (approved_row at_second_step the_accountant, true)
decide_past_the_steps_example =
    decide_past_the_steps company the_accountant at_second_step (some 2) by_director [] refl
      (omega arith) accountant_passes
