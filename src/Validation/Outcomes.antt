-- ===== src/Validation/Outcomes.antt =====
-- blackboard/validation.py: clues, emergency stops, and `validate_event_contract` with its
-- dispatch on the type of the event.
use blackboard_coordination.Base.{
  String, not, ◌&&◌, ◌||◌, none, some, List, [], ◌∷◌, member, ◌==◌, if◌then◌else◌,
}
use blackboard_coordination.Python.Result.{Check, ok, pass, reject_if, require, ◌and_then◌, ◌>>=◌}
use blackboard_coordination.Python.Value.{Fields, str, null, get, get_or, has, index, in_set, py_eq}
use blackboard_coordination.Contracts.{event_types}
use blackboard_coordination.Validation.Required.{
  is_finite_number, is_nonempty_string, required_nonempty_string, if_present,
}
use blackboard_coordination.Validation.Common.{
  validate_present_common_fields, validate_v1, validate_schema_version, validate_task_scope,
}
use blackboard_coordination.Validation.Rounds.{
  validate_task_posted, validate_bid_round, validate_bid,
}
use blackboard_coordination.Validation.Plans.{
  validate_task_assigned, validate_task_replan, validate_task_done, validate_task_failed,
}
use blackboard_coordination.Validation.Actions.{
  validate_action_intent, validate_safety_intercept, validate_receipt,
  validate_assignment_completed,
}

unfoldable pub validate_clue : Fields → Check
validate_clue content =
    reject_if
      (not (is_nonempty_string (get_or content "clue_id" null))
        && not (is_nonempty_string (get_or content "dedupe_key" null)))
      "CLUE_ID_REQUIRED"
    and_then if_present content "expires_at"
        (λ v. require (is_finite_number v) "EXPIRES_AT_TYPE_INVALID")

validate_scope : Fields → Check
validate_scope content =
    require
      (do
        scope ← index content "scope_type"
        ok (
            not (py_eq scope (str "device"))
            || is_nonempty_string (get_or content "scope_id" null)))
      "ESTOP_SCOPE_ID_REQUIRED"

unfoldable pub validate_estop : Fields → Check
unfolding validate_scope
validate_estop content =
    required_nonempty_string content "signal_id"
    and_then require (in_set (get_or content "operation" null) ("stop" ∷ "clear" ∷ []))
        "ESTOP_OPERATION_INVALID"
    and_then require (in_set (get_or content "scope_type" null) ("all" ∷ "device" ∷ []))
        "ESTOP_SCOPE_TYPE_INVALID"
    and_then validate_scope content
    and_then reject_if (has content "task_id" && not (has content "task_revision"))
        "TASK_REVISION_REQUIRED"

-- `_V2_VALIDATORS`
abbrev pub v2_validators : List (String × (Fields → Check))
v2_validators =
    ("task_posted", validate_task_posted)
    ∷ ("bid_round_opened", validate_bid_round)
    ∷ ("bid", validate_bid)
    ∷ ("task_assigned", validate_task_assigned)
    ∷ ("action_intent", validate_action_intent)
    ∷ ("safety_intercept", validate_safety_intercept)
    ∷ ("receipt", validate_receipt)
    ∷ ("assignment_completed", validate_assignment_completed)
    ∷ ("clue", validate_clue)
    ∷ ("task_replan", validate_task_replan)
    ∷ ("estop", validate_estop)
    ∷ ("task_done", validate_task_done)
    ∷ ("task_failed", validate_task_failed)
    ∷ []

abbrev pub lookup_validator : String → List (String × (Fields → Check)) → Fields → Check
lookup_validator kind [] content = pass
lookup_validator kind ((k, validator) ∷ rest) content =
    if k == kind then validator content else lookup_validator kind rest content

-- `validator = _V2_VALIDATORS.get(type_value)`, and its call
unfoldable pub validate_v2_payload : String → Fields → Check
validate_v2_payload kind content = lookup_validator kind v2_validators content

unfoldable pub validate_versioned : String → Fields → Check
validate_versioned kind content = elim (get content "schema_version") [
  | none ↦ validate_v1 kind content
  | some version ↦
      validate_schema_version version
      and_then validate_task_scope kind content
      and_then validate_v2_payload kind content
]

unfoldable pub validate_event_contract : String → Fields → Check
unfolding validate_versioned
validate_event_contract kind content =
    reject_if (not (member kind event_types)) "EVENT_TYPE_UNKNOWN"
    and_then validate_present_common_fields content
    and_then validate_versioned kind content
