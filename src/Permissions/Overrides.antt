-- ===== src/Permissions/Overrides.antt =====
-- Overrides over the defaults of a role (app/services/permissions.py): the last word on a permission
-- that was overridden, and no word on the others.
use Prim.Native.String.{String}
use plutus_hr_system.Prelude.{
  ◌≡◌, refl, sym, ◌∙◌, inl, inr, Bool, true, false, not, ◌&&◌, Option, none, some, List, [], ◌∷◌,
  arith, if◌then◌else◌, Bool-cases,
}
use plutus_hr_system.Permissions.{
  Permission, place, same_permission, default_role_permissions, defaults_in, holds, discard,
  Override, layered, resolve_permissions, set_permission_override, clear_permission_override,
  effective_permissions, account_has_permission,
}

-- The override of a permission, if there is one.
abbrev pub overridden : Permission → List Override → Option Bool
overridden permission [] = none
overridden permission ((p, g) ∷ rows) =
    if same_permission p permission then some g else overridden permission rows

-- One row at most for each permission, as `uq_membership_permission` has it.
abbrev pub AreUnique : List Override → Type 0
AreUnique [] = Unit
AreUnique ((p, g) ∷ rows) = (overridden p rows ≡ none) × AreUnique rows

overridden_same :
    (p q : Permission) (rows : List Override)
    → place p ≡ place q
    → overridden p rows ≡ overridden q rows
overridden_same p q [] e = refl
overridden_same p q ((x, g) ∷ rows) e = ground (arith, overridden_same p q rows e)

holds-discard :
    (q p : Permission) (ps : List Permission)
    → holds q (discard p ps) ≡ (not (same_permission p q) && holds q ps)
unfolding holds discard
holds-discard q p [] = ground arith
holds-discard q p (x ∷ ps) = ground (arith, holds-discard q p ps)

abbrev pub or_default : Option Bool → Bool → Bool
or_default none default = default
or_default (some granted) default = granted

-- One override: its word counts, since no later one is of the same permission.
last_word :
    (q p : Permission) (g : Bool) (base : List Permission) (later : Option Bool)
    → (place p ≡ place q → later ≡ none)
    → or_default later (holds q (if g then p ∷ base else discard p base))
      ≡ or_default (if same_permission p q then some g else later) (holds q base)
unfolding holds
last_word q p true base later h = grind arith
last_word q p false base later h = grind (arith, holds-discard q p base)

layered-holds :
    (q : Permission) (rows : List Override) (base : List Permission)
    → AreUnique rows
    → holds q (layered rows base) ≡ or_default (overridden q rows) (holds q base)
unfolding layered
layered-holds q [] base u = refl
layered-holds q ((p, g) ∷ rows) base u =
    layered-holds q rows (if g then p ∷ base else discard p base) u.1
    ∙ last_word q p g base (overridden q rows) (λ e. sym (overridden_same p q rows e) ∙ u.0)

set-overridden :
    (p q : Permission) (g : Bool) (rows : List Override)
    → overridden q (set_permission_override p g rows)
      ≡ (if same_permission p q then some g else overridden q rows)
unfolding set_permission_override
set-overridden p q g [] = refl
set-overridden p q g ((x, h) ∷ rows) = ground (arith, set-overridden p q g rows)

clear-overridden :
    (p q : Permission) (rows : List Override)
    → AreUnique rows
    → overridden q (clear_permission_override p rows)
      ≡ (if same_permission p q then none else overridden q rows)
unfolding clear_permission_override
clear-overridden p q [] u = ground arith
clear-overridden p q ((x, h) ∷ rows) u =
    grind (arith, clear-overridden p q rows u.1, overridden_same x q rows, u.0)

-- What an override does to the effective permissions of a membership whose rows are one for each
-- permission: set, it decides that permission and no other, in rows that are again one for each;
-- cleared, the role's default decides that permission, and the others are as they were.
pub record Overrides (role : String) (p : Permission) (rows : List Override) : Type 0 where
  pub set_decides :
      (g : Bool) (q : Permission)
      → account_has_permission (some role) (set_permission_override p g rows) q
        ≡ (if same_permission p q then g else account_has_permission (some role) rows q)
  pub clear_restores :
      (q : Permission)
      → account_has_permission (some role) (clear_permission_override p rows) q ≡ (
          if same_permission p q
          then holds q (defaults_in role default_role_permissions)
          else account_has_permission (some role) rows q)
  pub set_unique : (g : Bool) → AreUnique (set_permission_override p g rows)
  pub clear_unique : AreUnique (clear_permission_override p rows)

other_unset :
    (p x : Permission) (g : Bool) (rows : List Override)
    → same_permission x p ≡ false
    → overridden x rows ≡ none
    → overridden x (set_permission_override p g rows) ≡ none
other_unset p x g rows e u = rw (set-overridden p x g rows, u) (ground arith)

other_uncleared :
    (p x : Permission) (rows : List Override)
    → AreUnique rows
    → overridden x rows ≡ none
    → overridden x (clear_permission_override p rows) ≡ none
other_uncleared p x rows u e = rw (clear-overridden p x rows u, e) (ground arith)

set-AreUnique :
    (p : Permission) (g : Bool) (rows : List Override)
    → AreUnique rows
    → AreUnique (set_permission_override p g rows)
unfolding set_permission_override
set-AreUnique p g [] u = (refl, tt)
set-AreUnique p g ((x, h) ∷ rows) u = elim (Bool-cases (same_permission x p)) [
  | inl e ↦ rw e u
  | inr e ↦ rw e (other_unset p x g rows e u.0, set-AreUnique p g rows u.1)
]

clear-AreUnique :
    (p : Permission) (rows : List Override)
    → AreUnique rows
    → AreUnique (clear_permission_override p rows)
unfolding clear_permission_override
clear-AreUnique p [] u = tt
clear-AreUnique p ((x, h) ∷ rows) u = elim (Bool-cases (same_permission x p)) [
  | inl e ↦ rw e u.1
  | inr e ↦ rw e (other_uncleared p x rows u.1 u.0, clear-AreUnique p rows u.1)
]

effective :
    (role : String) (rows : List Override) (q : Permission)
    → AreUnique rows
    → account_has_permission (some role) rows q
      ≡ or_default (overridden q rows) (holds q (defaults_in role default_role_permissions))
unfolding account_has_permission effective_permissions resolve_permissions
effective role rows q u = layered-holds q rows (defaults_in role default_role_permissions) u

-- In the permissions of a membership that has one override at most for each permission, an override
-- that is set decides its permission and no other, and the rows are again one for each; one that is
-- cleared leaves its permission to the role's default, and the others as they were.
pub permission_override-Overrides :
    (role : String) (p : Permission) (rows : List Override) → AreUnique rows → Overrides role p rows
permission_override-Overrides role p rows u = record {
  set_decides = λ g q.
      rw
        (
          effective role (set_permission_override p g rows) q (set-AreUnique p g rows u),
          effective role rows q u,
          set-overridden p q g rows,
        )
        (ground arith);
  clear_restores = λ q.
      rw
        (
          effective role (clear_permission_override p rows) q (clear-AreUnique p rows u),
          effective role rows q u,
          clear-overridden p q rows u,
        )
        (ground arith);
  set_unique = λ g. set-AreUnique p g rows u;
  clear_unique = clear-AreUnique p rows u;
}
