-- ===== src/Approvals/Fallback.antt =====
-- What becomes of a pending request in app/services/approvals.py when its workflow is replaced by
-- one with fewer steps.
use plutus_hr_system.Prelude.{
  ℕ, suc, ◌+◌, ◌≤◌, ◌<◌, ◌≡◌, refl, ap, ◌∙◌, Bool, true, false, Option, none, some, List, [], ◌∷◌,
  arith, leb, ◌==◌, ok, length,
}
use plutus_hr_system.Approvals.{
  Directory, WorkflowStep, Claims, InstanceStatus, is_pending, Instance, StepInput, number_from,
  step_at, total_steps, is_eligible_approver, default_gate, advance, decide,
}

number_from-length :
    (order : ℕ) (inputs : List StepInput) → length (number_from order inputs) ≡ length inputs
unfolding number_from
number_from-length order [] = refl
number_from-length order (s ∷ inputs) = ap suc (number_from-length (suc order) inputs)

-- The numbered steps have no step from `order + length` on.
step_at_past :
    (order current : ℕ) (inputs : List StepInput)
    → order + length inputs ≤ current
    → step_at current (number_from order inputs) ≡ none
unfolding step_at number_from
step_at_past order current [] h = refl
step_at_past order current (s ∷ inputs) h =
    let other : (order == current) ≡ false = ground arith in
    rw other (step_at_past (suc order) current inputs (omega arith))

total_steps-number_from :
    (s : StepInput) (inputs : List StepInput)
    → total_steps (number_from 1 (s ∷ inputs)) ≡ length (s ∷ inputs)
unfolding number_from
total_steps-number_from s inputs = ap suc (number_from-length 2 inputs)

decide_allowed :
    (directory : Directory) (steps : List WorkflowStep) (claims : Claims) (row : Instance)
    (requester_id : Option ℕ) (approve : Bool)
    → is_pending row.status ≡ true
    → is_eligible_approver directory (step_at row.current_step steps) claims requester_id ≡ true
    → decide directory steps claims (some row) requester_id approve
      ≡ ok (advance steps claims approve row)
unfolding decide
decide_allowed directory steps claims row requester_id approve p e = simp (p, e)

abbrev pub approved_row : Instance → Claims → Instance
approved_row row claims = record row {
  status = InstanceStatus.approved;
  decisions =
      record { step_order = row.current_step; approves = true; decided_by = claims }
      ∷ row.decisions;
}

advance_last :
    (steps : List WorkflowStep) (claims : Claims) (row : Instance)
    → leb (total_steps steps) row.current_step ≡ true
    → advance steps claims true row ≡ (approved_row row claims, true)
unfolding advance
advance_last steps claims row l = simp l

-- Where a workflow is configured, but with fewer steps than the one that a pending request has
-- reached, whoever passes the gate for organisations without a workflow approves the request
-- finally, though no configured step names them.
pub decide_past_the_steps :
    (directory : Directory) (claims : Claims) (row : Instance) (requester_id : Option ℕ)
    (s : StepInput) (inputs : List StepInput)
    → is_pending row.status ≡ true
    → length (s ∷ inputs) < row.current_step
    → default_gate directory claims requester_id ≡ true
    → decide directory (number_from 1 (s ∷ inputs)) claims (some row) requester_id true
      ≡ ok (approved_row row claims, true)
decide_past_the_steps directory claims row requester_id s inputs p h gate =
    let steps = number_from 1 (s ∷ inputs) in
    let missing = step_at_past 1 row.current_step (s ∷ inputs) (omega (arith, h)) in
    let gated : is_eligible_approver directory (step_at row.current_step steps) claims requester_id
        ≡ true =
      unfold is_eligible_approver in rw missing gate in
    let last : leb (total_steps steps) row.current_step ≡ true =
      rw (total_steps-number_from s inputs) (ground arith) in
    decide_allowed directory steps claims row requester_id true p gated
    ∙ ap (λ (x : Instance × Bool). ok x) (advance_last steps claims row last)
