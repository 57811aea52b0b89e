-- ===== src/Validation/Common.antt =====
-- The fields that every payload has to respect, and `validate_event_contract` up to its dispatch.
use blackboard_coordination.Base.{
  String, Bool, not, ◌||◌, none, some, List, [], ◌∷◌, member, any, if◌then◌else◌,
}
use blackboard_coordination.Base.Int.{ℤ, pos, eq_ℤ}
use blackboard_coordination.Python.Result.{Check, pass, reject, reject_if, ◌and_then◌}
use blackboard_coordination.Python.Value.{
  Fields, Value, int, get, has, null, get_or, zero_float, py_eq,
}
use blackboard_coordination.Validation.Required.{
  is_nonempty_string, number_at_least, required_int, required_nonempty_string, if_present, each,
}

abbrev pub v2_only_event_types : List String
v2_only_event_types =
    "bid_round_opened" ∷ "assignment_completed" ∷ "task_failed" ∷ "action_intent" ∷ []

abbrev pub v2_task_scoped_types : List String
v2_task_scoped_types =
    "task_posted" ∷ "bid_round_opened" ∷ "bid" ∷ "task_assigned" ∷ "assignment_completed"
    ∷ "task_replan" ∷ "task_done" ∷ "task_failed" ∷ "clue" ∷ "action_intent" ∷ "receipt"
    ∷ "safety_intercept" ∷ []

abbrev pub v2_marker_fields : List String
v2_marker_fields =
    "task_revision" ∷ "coordination_epoch" ∷ "bid_round" ∷ "role_slots" ∷ "slots" ∷ "offers"
    ∷ "assignments" ∷ "plan_id" ∷ "assignment_id" ∷ "assignment_epoch" ∷ "completed_assignment_ids"
    ∷ "evidence_refs" ∷ "receipt_id" ∷ "from_epoch" ∷ "to_epoch" ∷ "intent_fingerprint"
    ∷ "outcome_certainty" ∷ "signal_id" ∷ "operation" ∷ "scope_type" ∷ []

-- `content.get("schema_version") == 2`
unfoldable pub is_v2_content : Fields → Bool
is_v2_content content = py_eq (get_or content "schema_version" null) (int (pos 2))

abbrev integer_fields : List (String × ℤ)
integer_fields =
    ("task_revision", pos 1)
    ∷ ("coordination_epoch", pos 0)
    ∷ ("assignment_epoch", pos 1)
    ∷ ("bid_round", pos 1)
    ∷ ("step", pos 0)
    ∷ ("attempt", pos 1)
    ∷ ("from_epoch", pos 0)
    ∷ ("to_epoch", pos 1)
    ∷ []

abbrev number_fields : List String
number_fields =
    "deadline" ∷ "expires_at" ∷ "completed_at" ∷ "failed_at" ∷ "duration_s" ∷ "final_progress" ∷ []

-- An int in a payload, when it is there.
unfoldable pub present_int : Fields → String × ℤ → Check
present_int content (name, minimum) = elim (get content name) [
  | none ↦ pass
  | some _ ↦ required_int content name minimum
]

unfoldable pub present_number : Fields → String → Check
present_number content name =
    if_present content name (λ v. number_at_least v (some zero_float) name)

unfoldable pub validate_present_common_fields : Fields → Check
unfolding present_int present_number
validate_present_common_fields content =
    if_present content "task_id" (λ v. reject_if (not (is_nonempty_string v)) "TASK_ID_INVALID")
    and_then each (present_int content) integer_fields
    and_then each (present_number content) number_fields

-- The tests of a payload with no `schema_version`.
unfoldable pub validate_v1 : String → Fields → Check
validate_v1 kind content =
    reject_if (member kind v2_only_event_types || any (has content) v2_marker_fields)
      "SCHEMA_VERSION_REQUIRED"

-- The tests of its `schema_version`.
unfoldable pub validate_schema_version : Value → Check
validate_schema_version (int n) = reject_if (not (eq_ℤ n (pos 2))) "SCHEMA_VERSION_UNSUPPORTED"
validate_schema_version _ = reject "SCHEMA_VERSION_INVALID"

unfoldable pub validate_task_scope : String → Fields → Check
validate_task_scope kind content =
    if member kind v2_task_scoped_types
    then required_nonempty_string content "task_id"
      and_then required_int content "task_revision" (pos 1)
    else pass
