-- ===== src/Permissions/Tests.antt =====
-- An auditor who may not see reports but may run payroll.
use plutus_hr_system.Prelude.{◌≡◌, refl, true, false, some, List, [], ◌∷◌, map}
use plutus_hr_system.Permissions.{
  reports_view, payroll_run, inventory_view, place, Override, account_has_permission,
}
use plutus_hr_system.Permissions.Overrides.{AreUnique, Overrides, permission_override-Overrides}

abbrev rows : List Override
rows = (reports_view, false) ∷ (payroll_run, true) ∷ []

rows-AreUnique : AreUnique rows
unfolding place
rows-AreUnique = (refl, (refl, tt))

permission_override-Overrides_example : Overrides "auditor" reports_view rows
permission_override-Overrides_example =
    permission_override-Overrides "auditor" reports_view rows rows-AreUnique

auditor_test :
    map
      (account_has_permission (some "auditor") rows)
      (reports_view ∷ payroll_run ∷ inventory_view ∷ [])
    ≡ false ∷ true ∷ true ∷ []
unfolding account_has_permission place
auditor_test = refl
