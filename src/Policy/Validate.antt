-- ===== src/Policy/Validate.antt =====
-- coordination/policy.py: `MinimalPlanValidator.validate`.
pub mod Made
pub mod Valid
use Prim.Native.String.{◌++◌ as text_append, compare}
use text.Mathlib.Text.{is_lt}
use blackboard_coordination.Base.{
  String, not, Option, none, some, List, [], ◌∷◌, ◌++◌, member, if◌then◌else◌, ◌⊎◌, inl, inr,
}
use blackboard_coordination.Base.Int.{ℤ}
use blackboard_coordination.Base.Dict.{lookup}
use blackboard_coordination.Python.Result.{Result, ok, raised, key_error, ◌>>=◌}
use blackboard_coordination.Python.Value.{Builtins, null, str, get_or, index, to_str, py_eq}
use blackboard_coordination.Policy.Data.{
  RoleSlot, AssignmentSnapshot, CandidateAssignment, CandidateAssignmentPlan, GroupPlanningInput,
  Violation, PlanValidationResult, valid_plan, invalid_plan,
}
use blackboard_coordination.Policy.Space.{evidence_refs}
use blackboard_coordination.Policy.Violations.{
  owned, slot_map, slot_verb, header_violations, shape_violations, all_assignment_violations,
}

insert_assignment : CandidateAssignment → List CandidateAssignment → List CandidateAssignment
insert_assignment a [] = a ∷ []
insert_assignment a (b ∷ bs) =
    if is_lt (compare b.slot_id a.slot_id) then b ∷ insert_assignment a bs else a ∷ b ∷ bs

-- `sorted(candidate.assignments, key=lambda item: item.slot_id)`
unfoldable pub by_slot : List CandidateAssignment → List CandidateAssignment
unfolding insert_assignment
by_slot [] = []
by_slot (a ∷ rest) = insert_assignment a (by_slot rest)

-- The snapshots built so far, or the violation that stops the loop.
pub data Built : Type 0 where
  built : List AssignmentSnapshot → Built
  stopped : Violation → Built

module _ ⦃py : Builtins⦄ where
  abbrev snapshot_of : String → ℤ → RoleSlot → CandidateAssignment → AssignmentSnapshot
  snapshot_of task_id epoch slot a = record {
    assignment_id = text_append task_id (text_append ":" slot.slot_id);
    slot_id = slot.slot_id;
    device_id = a.device_id;
    supporting_bid_event_id = a.supporting_bid_event_id;
    assignment_epoch = epoch;
    allowed_actions = slot.allowed_actions;
    action_template = slot.action_template;
    completion_rule = slot.completion_rule;
  }

  -- One round of the loop that builds the plan: the violation that stops it, or a snapshot.
  build_one :
      String → ℤ → CandidateAssignment → Option RoleSlot → Result (Violation ⊎ AssignmentSnapshot)
  build_one task_id epoch a none = raised key_error
  build_one task_id epoch a (some slot) =
      if not (member (slot_verb slot) slot.allowed_actions)
      then ok (inl (owned "ACTION_NOT_ALLOWED" a))
      else if not (py_eq (get_or slot.completion_rule "kind" null) (str "receipt_success"))
      then ok (inl (owned "UNSUPPORTED_COMPLETION_RULE" a))
      else ok (inr (snapshot_of task_id epoch slot a))

  abbrev prepend : AssignmentSnapshot → Built → Built
  prepend s (built snapshots) = built (s ∷ snapshots)
  prepend s (stopped v) = stopped v

  unfoldable pub build : GroupPlanningInput → String → List CandidateAssignment → Result Built
  unfolding build_one
  build input task_id [] = ok (built [])
  build input task_id (a ∷ rest) =
      let later = build input task_id rest in
      do
        round ←
            build_one task_id input.coordination_epoch a
              (lookup a.slot_id (slot_map [] input.role_slots))
        elim round [ inl v ↦ ok (stopped v) | inr s ↦ do others ← later; ok (prepend s others) ]

  plan_of : GroupPlanningInput → String → Built → Result PlanValidationResult
  plan_of input task_id (stopped v) = ok (invalid_plan (v ∷ []))
  plan_of input task_id (built snapshots) = do
    refs ← evidence_refs input.evidence_view
    ok (
        valid_plan (record {
          task_id = task_id;
          task_revision = input.task_revision;
          coordination_epoch = input.coordination_epoch;
          plan_id = text_append "plan:" (
              text_append task_id (
                text_append ":" (
                  text_append (py.int_text input.task_revision)
                    (text_append ":" (py.int_text input.coordination_epoch)))));
          assignments = snapshots;
          committed_by = "coordinator";
          input_evidence_refs = refs;
          input_fingerprint = input.input_fingerprint;
        }))

  abbrev unless_any : List Violation → Result PlanValidationResult → Result PlanValidationResult
  unless_any [] k = k
  unless_any (v ∷ vs) k = ok (invalid_plan (v ∷ vs))

  -- The plan is built once there are no violations.
  build_plan : CandidateAssignmentPlan → GroupPlanningInput → String → Result PlanValidationResult
  unfolding plan_of
  build_plan candidate input task_id = do
    result ← build input task_id (by_slot candidate.assignments)
    plan_of input task_id result

  -- `MinimalPlanValidator.validate`
  unfoldable pub validate :
      CandidateAssignmentPlan → GroupPlanningInput → Result PlanValidationResult
  unfolding build_plan
  validate candidate input = do
    v ← index input.task "task_id"
    let task_id = to_str v
    owners ← all_assignment_violations input task_id candidate.assignments
    unless_any
        (header_violations candidate input task_id
          ++ shape_violations candidate input.role_slots
          ++ owners)
        (build_plan candidate input task_id)
