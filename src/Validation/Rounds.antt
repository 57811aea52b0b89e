-- ===== src/Validation/Rounds.antt =====
-- blackboard/validation.py: a posted task, a bid round and its bids.
use blackboard_coordination.Base.{
  String, Bool, true, false, not, ◌&&◌, none, List, [], ◌∷◌, ◌++◌, any, subset, if◌then◌else◌,
}
use blackboard_coordination.Base.Int.{pos}
use blackboard_coordination.Python.Result.{
  Result, Check, ok, pass, reject, reject_if, require, recode, ◌and_then◌, ◌>>=◌,
}
use blackboard_coordination.Python.Value.{
  Fields, Value, dict, list, null, get_or, keys, index, in_set, zero_float, one_float, float_le,
}
use blackboard_coordination.Validation.Required.{
  code_of, is_bool, is_str, is_dict, is_finite_number, is_string_list, number_of, required_int,
  required_list, required_number, required_nonempty_string, if_present, each, each_item,
}

validate_role_slot : Value → Check
validate_role_slot (dict slot) =
    recode (required_nonempty_string slot "slot_id") "ROLE_SLOT_ID_REQUIRED"
    and_then each
        (λ name. if_present slot name (λ v.
          reject_if (not (is_string_list v)) (code_of "role_slot_" (code_of name "_INVALID"))))
        ("required_capability_ids" ∷ "allowed_actions" ∷ [])
    and_then each
        (λ name.
          if_present slot name
            (λ v. reject_if (not (is_dict v)) (code_of "role_slot_" (code_of name "_INVALID"))))
        ("action_template" ∷ "completion_rule" ∷ [])
validate_role_slot _ = reject "ROLE_SLOT_TYPE_INVALID"

validate_role_slots : Value → Fields → Check
validate_role_slots (list slots) content =
    if_present content "requirement" (λ v. reject_if (not (is_dict v)) "REQUIREMENT_TYPE_INVALID")
    and_then each_item validate_role_slot slots
validate_role_slots _ content = reject "ROLE_SLOTS_TYPE_INVALID"

unfoldable pub validate_task_posted : Fields → Check
unfolding validate_role_slot validate_role_slots
validate_task_posted content =
    if_present content "role_slots" (λ slots. validate_role_slots slots content)

unfoldable pub validate_bid_round : Fields → Check
validate_bid_round content =
    required_int content "coordination_epoch" (pos 1)
    and_then required_int content "bid_round" (pos 1)
    and_then reject_if (not (is_string_list (get_or content "slots" null))) "SLOTS_TYPE_INVALID"
    and_then required_number content "deadline" none

abbrev bid_metric_bool_fields : List String
bid_metric_bool_fields =
    "capability_match" ∷ "online" ∷ "healthy" ∷ "idle" ∷ "space_constraints_satisfied"
    ∷ "execution_available" ∷ []

abbrev bid_metric_number_fields : List String
bid_metric_number_fields = "battery_margin" ∷ "endurance_margin_s" ∷ "reliability" ∷ []

abbrev bid_metric_fields : List String
bid_metric_fields = bid_metric_bool_fields ++ bid_metric_number_fields ++ "distance_m" ∷ []

-- `set(d) == set(names)`
abbrev pub has_exactly : Fields → List String → Bool
has_exactly d names = subset (keys d) names && subset names (keys d)

-- `any(not _is_finite_number(metrics[name]) for name in names)`, negated
finite_metrics : Fields → List String → Result Bool
finite_metrics metrics [] = ok true
finite_metrics metrics (name ∷ names) = do
  v ← index metrics name
  b ← is_finite_number v
  if b then finite_metrics metrics names else ok false

validate_distance : Value → Check
validate_distance null = pass
validate_distance v = require (is_finite_number v) "BID_DISTANCE_INVALID"

unit_interval : Value → Result Bool
unit_interval v = do x ← number_of v; ok (float_le zero_float x && float_le x one_float)

validate_metrics : Value → Check
unfolding finite_metrics validate_distance unit_interval
validate_metrics (dict metrics) =
    reject_if (not (has_exactly metrics bid_metric_fields)) "BID_METRICS_FIELDS_INVALID"
    and_then reject_if
        (any (λ name. not (is_bool (get_or metrics name null))) bid_metric_bool_fields)
        "BID_METRICS_BOOL_INVALID"
    and_then require (finite_metrics metrics bid_metric_number_fields) "BID_METRICS_NUMBER_INVALID"
    and_then validate_distance (get_or metrics "distance_m" null)
    and_then require (unit_interval (get_or metrics "reliability" null))
        "BID_RELIABILITY_OUT_OF_RANGE"
validate_metrics _ = reject "BID_METRICS_FIELDS_INVALID"

validate_offer : Value → Check
unfolding validate_metrics
validate_offer (dict offer) =
    recode (required_nonempty_string offer "slot_id") "BID_OFFER_SLOT_ID_REQUIRED"
    and_then require (in_set (get_or offer "decision" null) ("accept" ∷ "reject" ∷ []))
        "BID_OFFER_DECISION_INVALID"
    and_then validate_metrics (get_or offer "metrics" null)
    and_then if_present offer "reason_codes"
        (λ v. reject_if (not (is_string_list v)) "BID_REASON_CODES_INVALID")
validate_offer _ = reject "BID_OFFER_TYPE_INVALID"

unfoldable pub validate_proposal : Value → Check
unfolding unit_interval
validate_proposal (dict proposal) =
    reject_if
      (not (
        has_exactly proposal (
          "preferred_slot_ids" ∷ "cooperation_summary" ∷ "risk_notes" ∷ "evidence_refs"
          ∷ "confidence" ∷ "context_fingerprint" ∷ [])))
      "BID_PROPOSAL_FIELDS_INVALID"
    and_then each
        (λ name.
          reject_if (not (is_string_list (get_or proposal name null))) "BID_PROPOSAL_LIST_INVALID")
        ("preferred_slot_ids" ∷ "risk_notes" ∷ "evidence_refs" ∷ [])
    and_then each
        (λ name. reject_if (not (is_str (get_or proposal name null))) "BID_PROPOSAL_STRING_INVALID")
        ("cooperation_summary" ∷ "context_fingerprint" ∷ [])
    and_then require (is_finite_number (get_or proposal "confidence" null))
        "BID_PROPOSAL_CONFIDENCE_INVALID"
    and_then require (unit_interval (get_or proposal "confidence" null))
        "BID_PROPOSAL_CONFIDENCE_OUT_OF_RANGE"
validate_proposal _ = reject "BID_PROPOSAL_FIELDS_INVALID"

validate_offers : Value → Check
unfolding validate_offer
validate_offers (list offers) = each_item validate_offer offers
validate_offers _ = pass

validate_optional_proposal : Value → Check
unfolding validate_proposal
validate_optional_proposal null = pass
validate_optional_proposal v = validate_proposal v

unfoldable pub validate_bid : Fields → Check
unfolding validate_offers validate_optional_proposal
validate_bid content =
    each (λ name. required_int content name (pos 1)) ("coordination_epoch" ∷ "bid_round" ∷ [])
    and_then required_nonempty_string content "device_id"
    and_then required_list content "offers"
    and_then required_number content "expires_at" none
    and_then validate_offers (get_or content "offers" null)
    and_then validate_optional_proposal (get_or content "proposal" null)
