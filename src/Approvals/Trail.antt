-- ===== src/Approvals/Trail.antt =====
-- What the trail of decisions of app/services/approvals.py holds, under one configuration.
use plutus_hr_system.Prelude.{
  ℕ, suc, ◌+◌, ◌≤◌, ◌≡◌, refl, sym, subst, inl, inr, Bool, true, false, Option, some, List, [], ◌∷◌,
  arith, leb, Bool-cases, ok, length, All,
}
use plutus_hr_system.Approvals.{
  Directory, WorkflowStep, Claims, InstanceStatus, Decision, Instance, is_pending, new_instance,
  step_at, total_steps, is_eligible_approver, advance, decide,
}

-- The instances that decisions on a submitted request lead to.
pub data Reached (directory : Directory) (steps : List WorkflowStep) (requester_id : Option ℕ)
    : Instance → Type 0 where
  submitted : Reached directory steps requester_id (new_instance requester_id)
  decided :
      (row : Instance) (claims : Claims) (approve : Bool) (next : Instance × Bool)
      → Reached directory steps requester_id row
      → decide directory steps claims (some row) requester_id approve ≡ ok next
      → Reached directory steps requester_id next.0

abbrev pub Approves : Decision → Type 0
Approves d = d.approves ≡ true

-- The decisions are on the steps 1, 2, …, in this order; the last one stands first.
abbrev pub IsNumbered : List Decision → Type 0
IsNumbered [] = Unit
IsNumbered (d ∷ ds) = (d.step_order ≡ suc (length ds)) × IsNumbered ds

-- What the trail of a status is: pending with fewer approvals than steps, approved with one of each
-- step, rejected by the last decision.
abbrev pub IsOf : List WorkflowStep → InstanceStatus → ℕ → List Decision → Type 0
IsOf steps InstanceStatus.pending current ds =
    (current ≡ suc (length ds)) × (current ≤ total_steps steps) × All Approves ds
IsOf steps InstanceStatus.approved current ds = (length ds ≡ total_steps steps) × All Approves ds
IsOf steps InstanceStatus.rejected current [] = ⊥
IsOf steps InstanceStatus.rejected current (d ∷ ds) = (d.approves ≡ false) × All Approves ds

pending_status : (s : InstanceStatus) → is_pending s ≡ true → s ≡ InstanceStatus.pending
pending_status InstanceStatus.pending e = refl
pending_status InstanceStatus.approved e = cc
pending_status InstanceStatus.rejected e = cc

one_step : (steps : List WorkflowStep) → 1 ≤ total_steps steps
one_step [] = omega arith
one_step (s ∷ steps) = omega arith

-- An approval of the last step, and of one before it.
approved_last :
    (steps : List WorkflowStep) (current : ℕ) (ds : List Decision) (d : Decision)
    → IsOf steps InstanceStatus.pending current ds
    → leb (total_steps steps) current ≡ true
    → Approves d
    → IsOf steps InstanceStatus.approved current (d ∷ ds)
approved_last steps current ds d (at, within, all_approve) last e = (ground arith, (e, all_approve))

approved_before :
    (steps : List WorkflowStep) (current : ℕ) (ds : List Decision) (d : Decision)
    → IsOf steps InstanceStatus.pending current ds
    → leb (total_steps steps) current ≡ false
    → Approves d
    → IsOf steps InstanceStatus.pending (current + 1) (d ∷ ds)
approved_before steps current ds d (at, within, all_approve) more e =
    (ground arith, ground arith, (e, all_approve))

module _ (directory : Directory) (steps : List WorkflowStep) (requester_id : Option ℕ) where
  -- The decision was made by someone who may decide its step.
  abbrev pub IsEntitled : Decision → Type 0
  IsEntitled d =
      is_eligible_approver directory (step_at d.step_order steps) d.decided_by requester_id ≡ true

  pub record IsTrail (row : Instance) : Type 0 where
    pub numbered : IsNumbered row.decisions
    pub entitled : All IsEntitled row.decisions
    pub of_status : IsOf steps row.status row.current_step row.decisions

  decide_inv :
      (row : Instance) (claims : Claims) (approve : Bool) (next : Instance × Bool)
      → decide directory steps claims (some row) requester_id approve ≡ ok next
      → (is_pending row.status ≡ true)
        × (is_eligible_approver directory (step_at row.current_step steps) claims requester_id
            ≡ true)
        × (advance steps claims approve row ≡ next)
  unfolding decide
  decide_inv row claims approve next h = elim (Bool-cases (is_pending row.status)) [
    | inr p ↦ cc (simp p at h)
    | inl p ↦
        elim (Bool-cases
          (is_eligible_approver directory (step_at row.current_step steps) claims requester_id)) [
            | inr e ↦ cc (simp (p, e) at h)
            | inl e ↦ (p, e, cc (simp (p, e) at h))
          ]
  ]

  pending-IsOf :
      (row : Instance)
      → is_pending row.status ≡ true
      → IsTrail row
      → IsOf steps InstanceStatus.pending row.current_step row.decisions
  pending-IsOf row p h =
      subst (λ s. IsOf steps s row.current_step row.decisions) (pending_status row.status p)
        h.of_status

  submitted-IsTrail : IsTrail (new_instance requester_id)
  submitted-IsTrail = record {
    numbered = tt;
    entitled = tt;
    of_status = (refl, one_step steps, tt);
  }

  advance-IsTrail :
      (row : Instance) (claims : Claims) (approve : Bool)
      → is_pending row.status ≡ true
      → is_eligible_approver directory (step_at row.current_step steps) claims requester_id ≡ true
      → IsTrail row
      → IsTrail (advance steps claims approve row).0
  unfolding advance
  advance-IsTrail row claims approve p e h =
      let of_pending = pending-IsOf row p h in
      let ds = row.decisions in
      let decision : Decision = record {
        step_order = row.current_step;
        approves = approve;
        decided_by = claims;
      } in
      let approval : Decision = record {
        step_order = row.current_step;
        approves = true;
        decided_by = claims;
      } in
      let numbered : IsNumbered (decision ∷ ds) = (of_pending.0, h.numbered) in
      let entitled : All IsEntitled (decision ∷ ds) = (e, h.entitled) in
      let status = sym (pending_status row.status p) in
      elim (Bool-cases approve) [
        | inr a ↦
            rw a (record {
              numbered = numbered;
              entitled = entitled;
              of_status = (refl, of_pending.2);
            })
        | inl a ↦ elim (Bool-cases (leb (total_steps steps) row.current_step)) [
          | inl l ↦
              rw (a, l)
                (record {
                  numbered = numbered;
                  entitled = entitled;
                  of_status = approved_last steps row.current_step ds approval of_pending l refl;
                })
          | inr l ↦
              rw (a, l)
                (record {
                  numbered = numbered;
                  entitled = entitled;
                  of_status =
                      subst (λ s. IsOf steps s (row.current_step + 1) (approval ∷ ds)) status
                        (approved_before steps row.current_step ds approval of_pending l refl);
                })
        ]
      ]

  -- Under one configuration of the workflow, every instance that decisions on a submitted request
  -- lead to has a trail of decisions on the steps 1, 2, …, each by someone who may decide its step:
  -- all approvals and fewer than the steps while it is pending, exactly one approval of every step
  -- when it is approved, and approvals before one last refusal when it is rejected.
  pub Reached-IsTrail : (row : Instance) → Reached directory steps requester_id row → IsTrail row
  Reached-IsTrail _ submitted = submitted-IsTrail
  Reached-IsTrail _ (decided row claims approve next reached h) =
      let (p, e, moved) = decide_inv row claims approve next h in
      subst (λ (x : Instance × Bool). IsTrail x.0) moved
        (advance-IsTrail row claims approve p e (Reached-IsTrail row reached))
