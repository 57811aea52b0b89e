-- ===== src/Validation/Actions.antt =====
-- blackboard/validation.py: an action's intent, its safety intercept, its receipt, and the
-- completion of an assignment.
use blackboard_coordination.Base.{Bool, false, not, none, some, [], ◌∷◌}
use blackboard_coordination.Base.Int.{ℤ, pos, eq_ℤ}
use blackboard_coordination.Python.Result.{
  Result, Check, ok, reject_if, require, recode, ◌and_then◌, ◌>>=◌,
}
use blackboard_coordination.Python.Value.{
  Fields, Value, int, dict, null, get_or, index, in_set, zero_float, one_float, float_lt,
}
use blackboard_coordination.Validation.Required.{
  is_bool, is_dict, is_string_list, number_of, required_int, required_number,
  required_nonempty_string, each,
}
use blackboard_coordination.Validation.Plans.{same_field}

epochs_agree : Fields → Check
epochs_agree content =
    require (same_field (dict content) "assignment_epoch" (dict content) "coordination_epoch")
      "EPOCH_RELATION_INVALID"

unfoldable pub validate_action_context : Fields → Check
unfolding epochs_agree
validate_action_context content =
    required_int content "coordination_epoch" (pos 1)
    and_then required_int content "assignment_epoch" (pos 1)
    and_then each (required_nonempty_string content)
        ("plan_id" ∷ "assignment_id" ∷ "intent_id" ∷ "device_id" ∷ [])
    and_then epochs_agree content

-- `value == n and type(value) is int`
abbrev is_exactly : ℤ → Value → Bool
is_exactly n (int m) = eq_ℤ m n
is_exactly n _ = false

unfoldable pub validate_action_intent : Fields → Check
unfolding validate_action_context
validate_action_intent content =
    validate_action_context content
    and_then each (required_nonempty_string content) ("verb" ∷ "intent_fingerprint" ∷ [])
    and_then reject_if (not (is_dict (get_or content "params" null))) "PARAMS_TYPE_INVALID"
    and_then reject_if (not (is_bool (get_or content "reversible" null))) "REVERSIBLE_TYPE_INVALID"
    and_then reject_if (not (is_exactly (pos 0) (get_or content "step" null))) "STEP_UNSUPPORTED"
    and_then reject_if (not (is_exactly (pos 1) (get_or content "attempt" null)))
        "ATTEMPT_UNSUPPORTED"

unfoldable pub validate_safety_intercept : Fields → Check
unfolding validate_action_context
validate_safety_intercept content =
    validate_action_context content
    and_then require (in_set (get_or content "check_phase" null) ("pre" ∷ "post" ∷ []))
        "CHECK_PHASE_INVALID"
    and_then require (in_set (get_or content "risk_level" null) ("R0" ∷ "R1" ∷ "R2" ∷ []))
        "RISK_LEVEL_INVALID"
    and_then required_nonempty_string content "reason_code"

unfoldable pub validate_receipt : Fields → Check
unfolding validate_action_context
validate_receipt content =
    validate_action_context content
    and_then required_nonempty_string content "receipt_id"
    and_then recode (required_int content "attempt" (pos 1)) "ATTEMPT_INVALID"
    and_then reject_if (not (is_bool (get_or content "success" null))) "SUCCESS_TYPE_INVALID"
    and_then require
        (in_set (get_or content "outcome_certainty" null) ("confirmed" ∷ "unknown" ∷ []))
        "OUTCOME_CERTAINTY_INVALID"
    and_then reject_if (not (is_dict (get_or content "result" null))) "RESULT_TYPE_INVALID"
    and_then required_number content "duration_s" (some zero_float)
    and_then reject_if (not (is_bool (get_or content "post_check_allowed" null)))
        "POST_CHECK_ALLOWED_TYPE_INVALID"

progress_at_most_one : Fields → Result Bool
progress_at_most_one content = do
  v ← index content "final_progress"
  x ← number_of v
  ok (not (float_lt one_float x))

unfoldable pub validate_assignment_completed : Fields → Check
unfolding epochs_agree progress_at_most_one
validate_assignment_completed content =
    each (λ name. required_int content name (pos 1))
      ("coordination_epoch" ∷ "assignment_epoch" ∷ [])
    and_then each (required_nonempty_string content)
        ("plan_id" ∷ "assignment_id" ∷ "device_id" ∷ "receipt_id" ∷ [])
    and_then epochs_agree content
    and_then reject_if (not (is_string_list (get_or content "completion_evidence" null)))
        "COMPLETION_EVIDENCE_INVALID"
    and_then required_number content "final_progress" (some zero_float)
    and_then require (progress_at_most_one content) "FINAL_PROGRESS_OUT_OF_RANGE"
    and_then required_number content "completed_at" none
