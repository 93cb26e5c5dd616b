-- ===== src/Approvals.antt =====
-- Approval workflows: app/services/approvals.py, on the rows of one organisation and one type of
-- request. Comments and times of decisions, which nothing reads, are left out.
pub mod Trail
pub mod Fallback
mod Tests
use plutus_hr_system.Prelude.{
  ℕ, suc, ◌+◌, Bool, true, false, not, ◌&&◌, ◌||◌, Option, none, some, List, [], ◌∷◌, leb, ◌==◌,
  if◌then◌else◌, Result, ok, ◌>>=◌, ◌>>◌, raise_if, length,
}

pub data Role : Type 0 where
  admin payroll_manager accountant hr_manager manager department_manager auditor employee : Role

abbrev pub role_index : Role → ℕ
role_index Role.admin = 0
role_index Role.payroll_manager = 1
role_index Role.accountant = 2
role_index Role.hr_manager = 3
role_index Role.manager = 4
role_index Role.department_manager = 5
role_index Role.auditor = 6
role_index Role.employee = 7

abbrev pub same_role : Role → Role → Bool
same_role a b = role_index a == role_index b

pub data EligibilityType : Type 0 where
  of_role direct_manager department_head specific_person : EligibilityType

pub record WorkflowStep : Type 0 where
  pub step_order : ℕ
  pub eligibility_type : EligibilityType
  pub eligible_role : Option Role
  pub eligible_account_id : Option ℕ

pub record Claims : Type 0 where
  pub account_id : ℕ
  pub role : Role

pub record Employee : Type 0 where
  pub id : ℕ
  pub account_id : Option ℕ
  pub manager_id : Option ℕ
  pub department_id : Option ℕ

pub record Department : Type 0 where
  pub id : ℕ
  pub manager_id : Option ℕ

-- The rows that eligibility is resolved against.
pub record Directory : Type 0 where
  pub employees : List Employee
  pub departments : List Department

-- `==` of an identifier that may be missing with one that is there.
abbrev pub is_id : Option ℕ → ℕ → Bool
is_id none id = false
is_id (some a) id = a == id

pub find_employee : (Employee → Bool) → List Employee → Option Employee
find_employee test [] = none
find_employee test (e ∷ es) = if test e then some e else find_employee test es

pub find_department : ℕ → List Department → Option Department
find_department id [] = none
find_department id (d ∷ ds) = if d.id == id then some d else find_department id ds

-- `_resolve_employee_for_account` and `db.get(Employee, id)`
abbrev pub employee_for_account : Directory → ℕ → Option Employee
employee_for_account directory account_id =
    find_employee (λ e. is_id e.account_id account_id) directory.employees

abbrev pub employee_by_id : Directory → ℕ → Option Employee
employee_by_id directory id = find_employee (λ e. e.id == id) directory.employees

-- The gate where no step is configured.
unfoldable pub default_gate : Directory → Claims → Option ℕ → Bool
default_gate directory claims requester_id =
    if same_role claims.role Role.admin
      || same_role claims.role Role.payroll_manager
      || same_role claims.role Role.accountant
    then true
    else if not (same_role claims.role Role.manager)
    then false
    else elim requester_id [
      | none ↦ false
      | some id ↦ elim (employee_for_account directory claims.account_id) [
        | none ↦ false
        | some boss ↦ elim (employee_by_id directory id) [
          | none ↦ false
          | some requester ↦ is_id requester.manager_id boss.id
        ]
      ]
    ]

abbrev heads : Directory → Option ℕ → ℕ → Bool
heads directory none decider_id = false
heads directory (some department_id) decider_id =
    elim (find_department department_id directory.departments) [
      | none ↦ false
      | some department ↦ is_id department.manager_id decider_id
    ]

-- The relation of the requester and the decider that a step asks for.
unfoldable pub related : Directory → EligibilityType → Employee → Employee → Bool
related directory EligibilityType.direct_manager requester decider =
    is_id requester.manager_id decider.id
related directory EligibilityType.department_head requester decider =
    heads directory requester.department_id decider.id
related directory EligibilityType.of_role requester decider = false
related directory EligibilityType.specific_person requester decider = false

unfoldable pub by_relation : Directory → EligibilityType → Claims → Option ℕ → Bool
by_relation directory kind claims none = false
by_relation directory kind claims (some requester_id) =
    elim (employee_by_id directory requester_id) [
      | none ↦ false
      | some requester ↦ elim (employee_for_account directory claims.account_id) [
        | none ↦ false
        | some decider ↦ related directory kind requester decider
      ]
    ]

abbrev role_is : Option Role → Role → Bool
role_is none role = false
role_is (some eligible) role = same_role role eligible

-- The branches on the type of a step's eligibility.
unfoldable pub eligible_by : Directory → EligibilityType → WorkflowStep → Claims → Option ℕ → Bool
eligible_by directory EligibilityType.of_role step claims requester_id =
    role_is step.eligible_role claims.role
eligible_by directory EligibilityType.specific_person step claims requester_id =
    is_id step.eligible_account_id claims.account_id
eligible_by directory EligibilityType.direct_manager step claims requester_id =
    by_relation directory EligibilityType.direct_manager claims requester_id
eligible_by directory EligibilityType.department_head step claims requester_id =
    by_relation directory EligibilityType.department_head claims requester_id

unfoldable pub is_eligible_approver : Directory → Option WorkflowStep → Claims → Option ℕ → Bool
is_eligible_approver directory none claims requester_id = default_gate directory claims requester_id
is_eligible_approver directory (some step) claims requester_id =
    eligible_by directory step.eligibility_type step claims requester_id

pub data InstanceStatus : Type 0 where
  pending approved rejected : InstanceStatus

pub record Decision : Type 0 where
  pub step_order : ℕ
  pub approves : Bool
  pub decided_by : Claims

-- A request's instance with its trail of decisions, the last first.
pub record Instance : Type 0 where
  pub status : InstanceStatus
  pub current_step : ℕ
  pub requester_id : Option ℕ
  pub decisions : List Decision

pub data ApprovalError : Type 0 where
  not_pending not_authorised no_requester_for_step employee_role_step : ApprovalError

abbrev pub is_pending : InstanceStatus → Bool
is_pending InstanceStatus.pending = true
is_pending InstanceStatus.approved = false
is_pending InstanceStatus.rejected = false

abbrev pub new_instance : Option ℕ → Instance
new_instance requester_id = record {
  status = InstanceStatus.pending;
  current_step = 1;
  requester_id = requester_id;
  decisions = [];
}

abbrev pub get_or_create_instance : Option Instance → Option ℕ → Instance
get_or_create_instance none requester_id = new_instance requester_id
get_or_create_instance (some instance_row) requester_id = instance_row

-- `next((s for s in steps if s.step_order == current), None)`
pub step_at : ℕ → List WorkflowStep → Option WorkflowStep
step_at current [] = none
step_at current (s ∷ steps) = if s.step_order == current then some s else step_at current steps

abbrev pub total_steps : List WorkflowStep → ℕ
total_steps [] = 1
total_steps (s ∷ steps) = length (s ∷ steps)

-- The instance with the decision in its trail, in its next state, and whether that is final.
unfoldable pub advance : List WorkflowStep → Claims → Bool → Instance → Instance × Bool
advance steps claims approve row =
    let decision : Decision = record {
      step_order = row.current_step;
      approves = approve;
      decided_by = claims;
    } in
    let decided = record row { decisions = decision ∷ row.decisions } in
    if not approve
    then (record decided { status = InstanceStatus.rejected }, true)
    else if leb (total_steps steps) row.current_step
    then (record decided { status = InstanceStatus.approved }, true)
    else (record decided { current_step = row.current_step + 1 }, false)

unfoldable pub decide :
    Directory
    → List WorkflowStep
    → Claims
    → Option Instance
    → Option ℕ
    → Bool
    → Result ApprovalError (Instance × Bool)
unfolding step_at
decide directory steps claims found requester_id approve = do
  let row = get_or_create_instance found requester_id
  raise_if (not (is_pending row.status)) not_pending
  raise_if
      (not (is_eligible_approver directory (step_at row.current_step steps) claims requester_id))
      not_authorised
  ok (advance steps claims approve row)

pub data RequestType : Type 0 where
  leave_request expense bill purchase_order stock_adjustment stock_issue stock_transfer stocktake :
      RequestType

-- `REQUESTERLESS_REQUEST_TYPES`
abbrev pub requesterless : RequestType → Bool
requesterless RequestType.bill = true
requesterless RequestType.purchase_order = true
requesterless RequestType.stock_adjustment = true
requesterless RequestType.stock_transfer = true
requesterless RequestType.stocktake = true
requesterless RequestType.leave_request = false
requesterless RequestType.expense = false
requesterless RequestType.stock_issue = false

-- `_MANAGER_RELATIONSHIP_TYPES`
abbrev pub needs_requester : EligibilityType → Bool
needs_requester EligibilityType.direct_manager = true
needs_requester EligibilityType.department_head = true
needs_requester EligibilityType.of_role = false
needs_requester EligibilityType.specific_person = false

abbrev is_role_type : EligibilityType → Bool
is_role_type EligibilityType.of_role = true
is_role_type EligibilityType.direct_manager = false
is_role_type EligibilityType.department_head = false
is_role_type EligibilityType.specific_person = false

pub record StepInput : Type 0 where
  pub eligibility_type : EligibilityType
  pub eligible_role : Option Role
  pub eligible_account_id : Option ℕ

pub check_steps : RequestType → List StepInput → Result ApprovalError (Unit {0})
check_steps request_type [] = ok tt
check_steps request_type (s ∷ steps) = do
  raise_if (needs_requester s.eligibility_type && requesterless request_type) no_requester_for_step
  raise_if (is_role_type s.eligibility_type && role_is s.eligible_role Role.employee)
      employee_role_step
  check_steps request_type steps

-- `enumerate(steps, start=…)`
pub number_from : ℕ → List StepInput → List WorkflowStep
number_from order [] = []
number_from order (s ∷ steps) =
    record {
      step_order = order;
      eligibility_type = s.eligibility_type;
      eligible_role = s.eligible_role;
      eligible_account_id = s.eligible_account_id;
    }
    ∷ number_from (suc order) steps

unfoldable pub replace_workflow_steps :
    RequestType → List StepInput → Result ApprovalError (List WorkflowStep)
unfolding check_steps number_from
replace_workflow_steps request_type steps =
    check_steps request_type steps >> ok (number_from 1 steps)
