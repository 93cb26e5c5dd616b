-- ===== src/Permissions.antt =====
-- The permissions of memberships: app/domain/permissions.py and app/services/permissions.py. The
-- overrides of a membership are its rows, in the order that they were made.
pub mod Overrides
mod Tests
use Prim.Native.String.{String}
use text.Mathlib.Text.{◌==◌ as str_eq}
use plutus_hr_system.Prelude.{
  ℕ, Bool, false, ◌||◌, Option, none, some, List, [], ◌∷◌, ◌==◌, if◌then◌else◌,
}

pub data Permission : Type 0 where
  employees_view employees_manage payroll_run payroll_approve accounting_manage recruitment_manage
        performance_manage reports_view settings_manage inventory_view inventory_manage
        inventory_adjust inventory_valuation inventory_purchase inventory_approve inventory_receive
        inventory_issue inventory_transfer inventory_request analytics_view analytics_workforce_view
        analytics_payroll_view analytics_attendance_view analytics_leave_view
        analytics_recruitment_view analytics_performance_view analytics_compliance_view
        analytics_financial_view analytics_reports_export :
      Permission

-- The place in the enumeration, by which two are told apart.
unfoldable pub place : Permission → ℕ
place employees_view = 0
place employees_manage = 1
place payroll_run = 2
place payroll_approve = 3
place accounting_manage = 4
place recruitment_manage = 5
place performance_manage = 6
place reports_view = 7
place settings_manage = 8
place inventory_view = 9
place inventory_manage = 10
place inventory_adjust = 11
place inventory_valuation = 12
place inventory_purchase = 13
place inventory_approve = 14
place inventory_receive = 15
place inventory_issue = 16
place inventory_transfer = 17
place inventory_request = 18
place analytics_view = 19
place analytics_workforce_view = 20
place analytics_payroll_view = 21
place analytics_attendance_view = 22
place analytics_leave_view = 23
place analytics_recruitment_view = 24
place analytics_performance_view = 25
place analytics_compliance_view = 26
place analytics_financial_view = 27
place analytics_reports_export = 28

abbrev pub all_permissions : List Permission
all_permissions =
    employees_view ∷ employees_manage ∷ payroll_run ∷ payroll_approve ∷ accounting_manage
    ∷ recruitment_manage ∷ performance_manage ∷ reports_view ∷ settings_manage ∷ inventory_view
    ∷ inventory_manage ∷ inventory_adjust ∷ inventory_valuation ∷ inventory_purchase
    ∷ inventory_approve ∷ inventory_receive ∷ inventory_issue ∷ inventory_transfer
    ∷ inventory_request ∷ analytics_view ∷ analytics_workforce_view ∷ analytics_payroll_view
    ∷ analytics_attendance_view ∷ analytics_leave_view ∷ analytics_recruitment_view
    ∷ analytics_performance_view ∷ analytics_compliance_view ∷ analytics_financial_view
    ∷ analytics_reports_export ∷ []

abbrev pub payroll_manager_permissions : List Permission
payroll_manager_permissions =
    employees_view ∷ employees_manage ∷ payroll_run ∷ payroll_approve ∷ accounting_manage
    ∷ reports_view ∷ inventory_view ∷ inventory_manage ∷ inventory_adjust ∷ inventory_valuation
    ∷ inventory_purchase ∷ inventory_approve ∷ inventory_receive ∷ inventory_issue
    ∷ inventory_transfer ∷ inventory_request ∷ analytics_view ∷ analytics_workforce_view
    ∷ analytics_payroll_view ∷ analytics_attendance_view ∷ analytics_leave_view
    ∷ analytics_recruitment_view ∷ analytics_performance_view ∷ analytics_compliance_view
    ∷ analytics_financial_view ∷ analytics_reports_export ∷ []

abbrev pub hr_manager_permissions : List Permission
hr_manager_permissions =
    employees_view ∷ employees_manage ∷ reports_view ∷ analytics_view ∷ analytics_workforce_view
    ∷ analytics_attendance_view ∷ analytics_leave_view ∷ analytics_reports_export ∷ []

abbrev pub manager_permissions : List Permission
manager_permissions = employees_view ∷ performance_manage ∷ []

abbrev pub department_manager_permissions : List Permission
department_manager_permissions =
    employees_view ∷ inventory_request ∷ analytics_view ∷ analytics_workforce_view
    ∷ analytics_leave_view ∷ []

abbrev pub auditor_permissions : List Permission
auditor_permissions =
    reports_view ∷ inventory_view ∷ inventory_valuation ∷ analytics_view ∷ analytics_workforce_view
    ∷ analytics_payroll_view ∷ analytics_attendance_view ∷ analytics_leave_view
    ∷ analytics_recruitment_view ∷ analytics_performance_view ∷ analytics_compliance_view
    ∷ analytics_reports_export ∷ []

-- `DEFAULT_ROLE_PERMISSIONS`, by the role's value.
abbrev pub default_role_permissions : List (String × List Permission)
default_role_permissions =
    ("admin", all_permissions)
    ∷ ("payroll_manager", payroll_manager_permissions)
    ∷ ("accountant", payroll_manager_permissions)
    ∷ ("hr_manager", hr_manager_permissions)
    ∷ ("manager", manager_permissions)
    ∷ ("department_manager", department_manager_permissions)
    ∷ ("auditor", auditor_permissions)
    ∷ ("employee", [])
    ∷ []

-- `DEFAULT_ROLE_PERMISSIONS.get(role, frozenset())`
unfoldable pub defaults_in : String → List (String × List Permission) → List Permission
defaults_in role [] = []
defaults_in role ((name, permissions) ∷ rest) =
    if str_eq name role then permissions else defaults_in role rest

abbrev pub same_permission : Permission → Permission → Bool
same_permission a b = place a == place b

-- `permission in permissions`; a set is a list, in which an element may stand twice.
unfoldable pub holds : Permission → List Permission → Bool
holds permission [] = false
holds permission (p ∷ ps) = same_permission p permission || holds permission ps

unfoldable pub discard : Permission → List Permission → List Permission
discard permission [] = []
discard permission (p ∷ ps) =
    let rest = discard permission ps in if same_permission p permission then rest else p ∷ rest

-- A row of `MembershipPermissionOverride`.
abbrev pub Override : Type 0
Override = Permission × Bool

-- The loop over the overrides.
unfoldable pub layered : List Override → List Permission → List Permission
unfolding discard
layered [] base = base
layered ((permission, granted) ∷ overrides) base =
    layered overrides (if granted then permission ∷ base else discard permission base)

unfoldable pub resolve_permissions : String → List Override → List Permission
unfolding defaults_in layered
resolve_permissions role overrides = layered overrides (defaults_in role default_role_permissions)

-- The existing row is changed, or a new one is added.
unfoldable pub set_permission_override : Permission → Bool → List Override → List Override
set_permission_override permission granted [] = (permission, granted) ∷ []
set_permission_override permission granted ((p, g) ∷ rows) =
    if same_permission p permission
    then (p, granted) ∷ rows
    else (p, g) ∷ set_permission_override permission granted rows

unfoldable pub clear_permission_override : Permission → List Override → List Override
clear_permission_override permission [] = []
clear_permission_override permission ((p, g) ∷ rows) =
    if same_permission p permission
    then rows
    else (p, g) ∷ clear_permission_override permission rows

unfoldable pub effective_permissions : String → List Override → List Permission
unfolding resolve_permissions
effective_permissions role rows = resolve_permissions role rows

-- `account_has_permission`, by the role of the account's membership, if it has one, and its rows.
unfoldable pub account_has_permission : Option String → List Override → Permission → Bool
unfolding holds effective_permissions
account_has_permission none rows permission = false
account_has_permission (some role) rows permission =
    holds permission (effective_permissions role rows)
