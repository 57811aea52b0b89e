-- ===== src/Policy/Validate/Valid.antt =====
-- coordination/policy.py: a plan that passed `MinimalPlanValidator.validate`, against its input.

use blackboard_coordination.Base.{
  ◌≤◌, String, ◌≡◌, refl, ap, ◌∙◌, true, List, [], ◌∷◌, ◌++◌, member, All, arith, eq_iff, ◌<◌,
}
use blackboard_coordination.Base.Int.{eq_ℤ_iff}
use blackboard_coordination.Python.Result.{Result, ok}
use blackboard_coordination.Python.Result.Laws.{>>=-eq-ok}
use blackboard_coordination.Python.Value.{Builtins, index, to_str}
use blackboard_coordination.Policy.Data.{
  AssignmentPlanSnapshot, CandidateAssignmentPlan, GroupPlanningInput, Violation,
  PlanValidationResult, valid_plan,
}
use blackboard_coordination.Policy.Violations.{
  count, slot_ids, candidate_slots, candidate_devices, header_violations, shape_violations,
  all_assignment_violations,
}
use blackboard_coordination.Policy.Violations.Counts.{
  IsShaped, shape_violations-IsShaped, ++-nil, count-member,
}
use blackboard_coordination.Policy.Validate.{
  by_slot, Built, built, stopped, build, plan_of, unless_any, build_plan, validate, evidence_refs,
}
use blackboard_coordination.Policy.Validate.Made.{
  snapshot_slots, AllMade, build-AllMade, snapshot_devices, snapshot_slots-eq, IsPermitted,
  count-by_slot, All-IsPermitted,
}

module _ ⦃py : Builtins⦄ where
  -- A plan for the candidate: the candidate is for the current task revision, epoch and input;
  -- each slot of the task has one assignment, no other slot has any, no device has two; and every
  -- assignment is of the current epoch, and a slot of the task permits it (`IsPermitted`).
  pub record IsValid (c : CandidateAssignmentPlan) (input : GroupPlanningInput)
      (p : AssignmentPlanSnapshot) : Type 0 where
    pub revision : c.task_revision ≡ input.task_revision
    pub epoch : c.coordination_epoch ≡ input.coordination_epoch
    pub fingerprint : c.input_fingerprint ≡ input.input_fingerprint
    pub one_owner :
        (u : String)
        → member u (slot_ids input.role_slots) ≡ true
        → count u (snapshot_slots p.assignments) ≡ 1
    pub no_unknown :
        (u : String)
        → 0 < count u (snapshot_slots p.assignments)
        → member u (slot_ids input.role_slots) ≡ true
    pub one_slot : (d : String) → count d (snapshot_devices p.assignments) ≤ 1
    pub permitted :
        All
          (λ a. IsPermitted input.role_slots a × (a.assignment_epoch ≡ input.coordination_epoch))
          p.assignments

  header-fresh :
      (c : CandidateAssignmentPlan) (input : GroupPlanningInput) (task_id : String)
      → header_violations c input task_id ≡ []
      → (c.task_revision ≡ input.task_revision)
        × (c.coordination_epoch ≡ input.coordination_epoch)
        × (c.input_fingerprint ≡ input.input_fingerprint)
  unfolding header_violations
  header-fresh c input task_id h = ground (
    arith,
    eq_ℤ_iff c.task_revision input.task_revision,
    eq_ℤ_iff c.coordination_epoch input.coordination_epoch,
    eq_iff c.input_fingerprint input.input_fingerprint,
  )

  unless_any-valid :
      (vs : List Violation) (k : Result PlanValidationResult) (p : AssignmentPlanSnapshot)
      → unless_any vs k ≡ ok (valid_plan p)
      → (vs ≡ []) × (k ≡ ok (valid_plan p))
  unless_any-valid [] k p h = (refl, h)
  unless_any-valid (v ∷ vs) k p h = cc

  plan_of-built :
      (input : GroupPlanningInput) (task_id : String) (r : Built) (p : AssignmentPlanSnapshot)
      → plan_of input task_id r ≡ ok (valid_plan p)
      → r ≡ built p.assignments
  unfolding plan_of
  plan_of-built input task_id (stopped v) p h = cc
  plan_of-built input task_id (built made) p h =
      let (refs, at, q) = >>=-eq-ok (evidence_refs input.evidence_view) _ h in ground arith

  made-IsValid :
      (c : CandidateAssignmentPlan) (input : GroupPlanningInput) (p : AssignmentPlanSnapshot)
      (task_id : String)
      → header_violations c input task_id ≡ []
      → IsShaped (slot_ids input.role_slots) (candidate_slots c) (candidate_devices c)
      → AllMade input.role_slots input.coordination_epoch (by_slot c.assignments) p.assignments
      → IsValid c input p
  made-IsValid c input p task_id header shape made =
      let (revision, epoch, fingerprint) = header-fresh c input task_id header in
      let (slots, devices) =
        snapshot_slots-eq input.role_slots input.coordination_epoch (by_slot c.assignments)
          p.assignments made in
      record {
        revision = revision;
        epoch = epoch;
        fingerprint = fingerprint;
        one_owner =
            λ u m. ap (count u) slots ∙ (count-by_slot u c.assignments).0 ∙ shape.one_owner u m;
        no_unknown = λ u n. shape.no_unknown u (
            count-member u (candidate_slots c)
              (rw (ap (count u) slots, (count-by_slot u c.assignments).0) at n));
        one_slot =
            λ d. rw (ap (count d) devices ∙ (count-by_slot d c.assignments).1) (shape.one_slot d);
        permitted =
            All-IsPermitted input.role_slots input.coordination_epoch (by_slot c.assignments)
              p.assignments made;
      }

  -- A plan that the validator passes is valid (`IsValid`): its candidate is for the task revision,
  -- the epoch and the fingerprint of the input; each slot of the task has one assignment, no other
  -- slot has any, and no device has two; and each assignment is of the input's epoch and has the id,
  -- the action, the allowed actions and the completion rule of a slot of the input, whose action's
  -- verb is one of its allowed actions and whose completion rule is of the kind `receipt_success`.
  pub validate-IsValid :
      (c : CandidateAssignmentPlan) (input : GroupPlanningInput) (p : AssignmentPlanSnapshot)
      → validate c input ≡ ok (valid_plan p)
      → IsValid c input p
  unfolding validate build_plan
  validate-IsValid c input p h =
      let (v, at, h₁) = >>=-eq-ok (index input.task "task_id") _ h in
      let task_id = to_str v in
      let (owners, checked, h₂) =
        >>=-eq-ok (all_assignment_violations input task_id c.assignments) _ h₁ in
      let header = header_violations c input task_id in
      let shape = shape_violations c input.role_slots in
      let (none_found, made) =
        unless_any-valid (header ++ shape ++ owners) (build_plan c input task_id) p h₂ in
      let (shaped, no_owner) = ++-nil (header ++ shape) owners none_found in
      let (fresh, in_shape) = ++-nil header shape shaped in
      let (r, built_r, q) = >>=-eq-ok (build input task_id (by_slot c.assignments)) _ made in
      made-IsValid c input p task_id fresh (shape_violations-IsShaped c input.role_slots in_shape) (
        build-AllMade input task_id (by_slot c.assignments) p.assignments
          (built_r ∙ ap ok (plan_of-built input task_id r p q)))
