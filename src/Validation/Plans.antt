-- ===== src/Validation/Plans.antt =====
-- blackboard/validation.py: an assignment plan, a replan and the terminal events.
use blackboard_coordination.Base.{String, Bool, not, none, [], ◌∷◌}
use blackboard_coordination.Base.Int.{pos, ◌+ℤ◌}
use blackboard_coordination.Python.Result.{
  Result, Check, ok, raised, type_error, pass, reject, reject_if, require, recode, ◌and_then◌,
  ◌>>=◌,
}
use blackboard_coordination.Python.Value.{
  Fields, Value, int, dict, list, null, get_or, index, py_eq,
}
use blackboard_coordination.Validation.Required.{
  code_of, is_bool, is_str, is_dict, is_string_list, required_int, required_list, required_number,
  required_nonempty_string, if_present, each, each_item,
}

unfoldable pub validate_assignment : Value → Check
validate_assignment (dict assignment) =
    each
      (λ name.
        recode (required_nonempty_string assignment name)
          (code_of "assignment_" (code_of name "_REQUIRED")))
      ("assignment_id" ∷ "slot_id" ∷ "device_id" ∷ "supporting_bid_event_id" ∷ [])
    and_then recode (required_int assignment "assignment_epoch" (pos 1)) "ASSIGNMENT_EPOCH_INVALID"
    and_then reject_if (not (is_string_list (get_or assignment "allowed_actions" null)))
        "ASSIGNMENT_ALLOWED_ACTIONS_INVALID"
    and_then each
        (λ name.
          reject_if (not (is_dict (get_or assignment name null)))
            (code_of "assignment_" (code_of name "_INVALID")))
        ("action_template" ∷ "completion_rule" ∷ [])
validate_assignment _ = reject "ASSIGNMENT_TYPE_INVALID"

-- `assignment[name]`, of an item that passed `_validate_assignment`
abbrev pub index_value : Value → String → Result Value
index_value (dict d) name = index d name
index_value _ name = raised type_error

-- `a[name] == b[name']`
abbrev pub same_field : Value → String → Value → String → Result Bool
same_field a name b name' = do x ← index_value a name; y ← index_value b name'; ok (py_eq x y)

validate_plan_item : Fields → Value → Check
validate_plan_item content assignment =
    validate_assignment assignment
    and_then require (same_field assignment "assignment_epoch" (dict content) "coordination_epoch")
        "EPOCH_RELATION_INVALID"

validate_assignments : Fields → Value → Check
unfolding validate_plan_item
validate_assignments content (list assignments) = each_item (validate_plan_item content) assignments
validate_assignments content _ = pass

unfoldable pub validate_task_assigned : Fields → Check
unfolding validate_assignments
validate_task_assigned content =
    required_int content "coordination_epoch" (pos 1)
    and_then required_nonempty_string content "plan_id"
    and_then required_list content "assignments"
    and_then validate_assignments content (get_or content "assignments" null)
    and_then each
        (λ name.
          if_present content name (λ v. reject_if (not (is_str v)) (code_of name "_TYPE_INVALID")))
        ("committed_by" ∷ "input_fingerprint" ∷ [])
    and_then if_present content "input_evidence_refs"
        (λ v. reject_if (not (is_string_list v)) "INPUT_EVIDENCE_REFS_INVALID")

-- `v + 1`, of a number
abbrev plus_one : Value → Result Value
plus_one (int n) = ok (int (n +ℤ pos 1))
plus_one _ = raised type_error

epoch_follows : Fields → Result Bool
epoch_follows content = do
  to ← index content "to_epoch"
  from ← index content "from_epoch"
  next ← plus_one from
  ok (py_eq to next)

unfoldable pub validate_task_replan : Fields → Check
unfolding epoch_follows
validate_task_replan content =
    required_int content "from_epoch" (pos 0)
    and_then required_int content "to_epoch" (pos 1)
    and_then require (epoch_follows content) "EPOCH_RELATION_INVALID"
    and_then required_nonempty_string content "cause_event_id"
    and_then reject_if (not (is_string_list (get_or content "evidence_refs" null)))
        "EVIDENCE_REFS_INVALID"

unfoldable pub validate_task_done : Fields → Check
validate_task_done content =
    required_int content "coordination_epoch" (pos 1)
    and_then required_nonempty_string content "plan_id"
    and_then each
        (λ name.
          reject_if (not (is_string_list (get_or content name null))) (code_of name "_INVALID"))
        ("completed_assignment_ids" ∷ "completion_evidence" ∷ [])
    and_then required_number content "completed_at" none

unfoldable pub validate_task_failed : Fields → Check
validate_task_failed content =
    required_int content "coordination_epoch" (pos 0)
    and_then each (required_nonempty_string content) ("reason_code" ∷ "failed_component" ∷ [])
    and_then reject_if (not (is_string_list (get_or content "related_event_ids" null)))
        "RELATED_EVENT_IDS_INVALID"
    and_then reject_if (not (is_bool (get_or content "retryable" null))) "RETRYABLE_TYPE_INVALID"
    and_then required_number content "failed_at" none
