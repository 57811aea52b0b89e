-- ===== src/Examples/Policy.antt =====
-- The bids, the matching and the plan validator, for a task of two slots and two devices.
use blackboard_coordination.View.Match.{iterate, text_field, to_dict, pair_of, dict_of_pairs}
use blackboard_coordination.Base.Dict.{insert, lookup, sort_texts}
use blackboard_coordination.Policy.Space.{
  evidence_refs, offer_for_slot, space_constraints_satisfied,
}
use blackboard_coordination.Base.{
  ◌≤◌, String, ◌≡◌, refl, Bool, true, false, ◌↔◌, none, some, List, [], ◌∷◌, ◌==◌, arith, eq_iff,
  if◌then◌else◌, All, any, map, ◌⊎◌,
}
use blackboard_coordination.Base.Int.{pos, negsuc}
use blackboard_coordination.Python.Result.{ok, raised, key_error}
use blackboard_coordination.Python.Value.{
  Float, Fields, finite, float_lt, zero_float, one_float, str, empty, entry, float_limit,
  float_of_int, py_eq, to_float, to_int, to_str, Value, index,
}
use blackboard_coordination.Policy.Data.{
  RoleSlot, AgentPublicSnapshot, ExecutionAvailability, BidMetrics, BidOffer, BidPayload, BidRecord,
  CandidateAssignment, CandidateAssignmentPlan, AssignmentSnapshot, AssignmentPlanSnapshot,
  GroupPlanningInput, valid_plan, eligible,
}
use blackboard_coordination.Policy.Violations.{
  count, slot_ids, shape_violations, state_violations, all_assignment_violations,
  assignment_violations, bid_map, distinct, header_violations, owner_violations, slot_map,
  slot_violations, snapshot_map,
}
use blackboard_coordination.Policy.Validate.{validate, build, by_slot}
use blackboard_coordination.Policy.Validate.Valid.{IsValid, validate-IsValid}
use blackboard_coordination.Policy.Bids.{
  Arithmetic, EligibilityBidEngine, Round, evaluate_slot, make_bid, distance_to_task,
  evaluate_slots, reasons,
}
use blackboard_coordination.Policy.Bids.Agreement.{evaluate_slot-state_violations}
use blackboard_coordination.Policy.Bids.Reasons.{evaluate_slot-decision, make_bid-offers, is_number}
use blackboard_coordination.Policy.Matching.{
  deterministic_maximum_matching, plan, accepted, all_edges, assignments_of, augment, chosen_at,
  edge_map, invert, match_slots, sort_edges, sort_slots, take_over, try_edges,
}
use blackboard_coordination.Policy.Matching.Total.{plan_total, Planned}
use blackboard_coordination.Policy.Matching.Plan.{backs}
use blackboard_coordination.Policy.Matching.Correct.{deterministic_maximum_matching_correct}
use blackboard_coordination.Examples.Data.{plain_builtins}

-- A subtraction that keeps only the sign of the difference.
abbrev sign_of_difference : Float → Float → Float
sign_of_difference x y = if float_lt x y then finite (negsuc 0) 0 else zero_float

instance abbrev pub plain_arithmetic : Arithmetic
plain_arithmetic = record {
  minus = sign_of_difference;
  square = λ x. ok x;
  total = λ xs. zero_float;
  root = λ x. x;
}

below_zero : (b : Bool) → float_lt (if b then finite (negsuc 0) 0 else zero_float) zero_float ≡ b
below_zero true = refl
below_zero false = refl

minus_ordered : (x y : Float) → float_lt (plain_arithmetic.minus x y) zero_float ≡ float_lt x y
minus_ordered x y = below_zero (float_lt x y)

abbrev slot : String → RoleSlot
slot name = record {
  slot_id = name;
  required_capability_ids = str "see" ∷ [];
  exclusive = true;
  allowed_actions = "inspect" ∷ [];
  action_template = entry "verb" (str "inspect") empty;
  completion_rule = entry "kind" (str "receipt_success") empty;
}

abbrev pub device : String → AgentPublicSnapshot
device name = record {
  device_id = name;
  device_type = "uav";
  online = true;
  healthy = true;
  busy = false;
  busy_task_id = none;
  battery = one_float;
  endurance_s = one_float;
  position = none;
  capabilities = "see" ∷ [];
  action_verbs = "inspect" ∷ [];
  width_cm = none;
  success_rate = one_float;
  state_updated_at = zero_float;
}

abbrev metrics : BidMetrics
metrics = record {
  capability_match = true;
  online = true;
  healthy = true;
  idle = true;
  battery_margin = zero_float;
  endurance_margin_s = zero_float;
  space_constraints_satisfied = true;
  execution_available = true;
  distance_m = none;
  reliability = one_float;
}

abbrev offer : String → BidOffer
offer name = record { slot_id = name; decision = "accept"; metrics = metrics; reason_codes = [] }

abbrev bid : String → String → List BidOffer → BidRecord
bid id name offers = record {
  event_id = id;
  event_version = pos 1;
  event_ts = zero_float;
  payload = record {
    task_id = "t";
    task_revision = pos 1;
    coordination_epoch = pos 0;
    bid_round = pos 1;
    device_id = name;
    offers = offers;
    proposal = none;
    expires_at = one_float;
  };
}

abbrev task : Fields
task = entry "task_id" (str "t") empty

-- Device `a` takes either slot, device `b` the first only.
abbrev planning : GroupPlanningInput
planning = record {
  task = task;
  role_slots = slot "s1" ∷ slot "s2" ∷ [];
  bids = bid "ba" "a" (offer "s1" ∷ offer "s2" ∷ []) ∷ bid "bb" "b" (offer "s1" ∷ []) ∷ [];
  agent_snapshots = device "a" ∷ device "b" ∷ [];
  evidence_view = none;
  task_revision = pos 1;
  coordination_epoch = pos 0;
  input_fingerprint = "f";
}

abbrev taken : String → String → String → CandidateAssignment
taken slot_id device_id id = record {
  slot_id = slot_id;
  device_id = device_id;
  supporting_bid_event_id = id;
}

-- The search moves the first slot from `a` to `b`.
abbrev matched : CandidateAssignmentPlan
matched = record {
  task_id = "t";
  task_revision = pos 1;
  coordination_epoch = pos 0;
  assignments = taken "s1" "b" "bb" ∷ taken "s2" "a" "ba" ∷ [];
  rationale_summary = "deterministic maximum matching fallback";
  input_fingerprint = "f";
}

two_once : (u a b : String) → (a == b) ≡ false → count u (a ∷ b ∷ []) ≤ 1
unfolding count
two_once u a b h = ground (arith, eq_iff a u, eq_iff b u, eq_iff a b)

slots_distinct : (u : String) → count u (slot_ids planning.role_slots) ≤ 1
slots_distinct u = two_once u "s1" "s2" refl

found : deterministic_maximum_matching planning ≡ some (ok (some matched))
unfolding sort_texts lookup insert py_eq float_limit float_of_int to_str to_int to_float iterate
    text_field eligible offer_for_slot space_constraints_satisfied evidence_refs count distinct
    slot_map bid_map snapshot_map header_violations shape_violations slot_violations
    owner_violations state_violations assignment_violations all_assignment_violations by_slot build
    validate accepted sort_edges edge_map chosen_at take_over try_edges augment match_slots invert
    assignments_of sort_slots all_edges deterministic_maximum_matching plan distance_to_task reasons
    evaluate_slot evaluate_slots make_bid
found = refl

deterministic_maximum_matching_correct_example :
    (shape_violations matched planning.role_slots ≡ [])
    × All
        (λ (c : CandidateAssignment).
          any (backs c.slot_id (c.device_id, c.supporting_bid_event_id)) planning.bids ≡ true)
        matched.assignments
deterministic_maximum_matching_correct_example =
    deterministic_maximum_matching_correct planning matched slots_distinct found

plan_total_example :
    ((v : Value) × (index task "task_id" ≡ ok v)
      × ((p : CandidateAssignmentPlan) × Planned planning v p))
    ⊎ ((index task "task_id" ≡ raised key_error) × (plan planning ≡ some (raised key_error)))
plan_total_example = plan_total planning

abbrev snapshot : String → String → String → AssignmentSnapshot
snapshot slot_id device_id id = record {
  assignment_id = if slot_id == "s1" then "t:s1" else "t:s2";
  slot_id = slot_id;
  device_id = device_id;
  supporting_bid_event_id = id;
  assignment_epoch = pos 0;
  allowed_actions = "inspect" ∷ [];
  action_template = entry "verb" (str "inspect") empty;
  completion_rule = entry "kind" (str "receipt_success") empty;
}

abbrev committed : AssignmentPlanSnapshot
committed = record {
  task_id = "t";
  task_revision = pos 1;
  coordination_epoch = pos 0;
  plan_id = "plan:t:0:0";
  assignments = snapshot "s1" "b" "bb" ∷ snapshot "s2" "a" "ba" ∷ [];
  committed_by = "coordinator";
  input_evidence_refs = [];
  input_fingerprint = "f";
}

validated : validate matched planning ≡ ok (valid_plan committed)
unfolding sort_texts lookup insert py_eq float_limit float_of_int to_str to_int to_float iterate
    text_field eligible offer_for_slot space_constraints_satisfied evidence_refs count distinct
    slot_map bid_map snapshot_map header_violations shape_violations slot_violations
    owner_violations state_violations assignment_violations all_assignment_violations by_slot build
    validate accepted sort_edges edge_map chosen_at take_over try_edges augment match_slots invert
    assignments_of sort_slots all_edges deterministic_maximum_matching plan distance_to_task reasons
    evaluate_slot evaluate_slots make_bid
validated = refl

validate-IsValid_example : IsValid matched planning committed
validate-IsValid_example = validate-IsValid matched planning committed validated

abbrev pub engine : EligibilityBidEngine
engine = record { agent_state_ttl_s = one_float; execution_availability_ttl_s = one_float }

abbrev channel : ExecutionAvailability
channel = record { device_id = "a"; verb = "inspect"; available = true; checked_at = zero_float }

abbrev made : BidOffer
made = record { slot_id = "s1"; decision = "accept"; metrics = metrics; reason_codes = [] }

evaluated : evaluate_slot engine task (slot "s1") (device "a") (channel ∷ []) one_float ≡ ok made
unfolding to_dict pair_of dict_of_pairs sort_texts lookup insert py_eq float_limit float_of_int
    to_str to_int to_float iterate text_field eligible offer_for_slot space_constraints_satisfied
    evidence_refs count distinct slot_map bid_map snapshot_map header_violations shape_violations
    slot_violations owner_violations state_violations assignment_violations
    all_assignment_violations by_slot build validate accepted sort_edges edge_map chosen_at
    take_over try_edges augment match_slots invert assignments_of sort_slots all_edges
    deterministic_maximum_matching plan distance_to_task reasons evaluate_slot evaluate_slots
    make_bid
evaluated = refl

evaluate_slot-decision_example : (made.decision ≡ "accept") ↔ (made.reason_codes ≡ [])
unfolding is_number
evaluate_slot-decision_example =
    evaluate_slot-decision engine task (slot "s1") (device "a") (channel ∷ []) one_float made
      evaluated refl refl

evaluate_slot-state_violations_example :
    state_violations planning "t" (taken "s1" "a" "ba") (some (slot "s1")) (some (device "a"))
    ≡ ok []
evaluate_slot-state_violations_example =
    evaluate_slot-state_violations engine planning (slot "s1") (device "a") (channel ∷ []) one_float
      made (taken "s1" "a" "ba") "t" empty minus_ordered refl refl evaluated refl

abbrev round : Round
round = record {
  task_revision = pos 1;
  coordination_epoch = pos 0;
  bid_round = pos 1;
  deadline = one_float;
}

abbrev payload : BidPayload
payload = record {
  task_id = "t";
  task_revision = pos 1;
  coordination_epoch = pos 0;
  bid_round = pos 1;
  device_id = "a";
  offers = made ∷ [];
  proposal = none;
  expires_at = one_float;
}

bid_made :
    make_bid engine task (slot "s1" ∷ []) (device "a") (channel ∷ []) round one_float none
    ≡ ok payload
unfolding to_dict pair_of dict_of_pairs sort_texts lookup insert py_eq float_limit float_of_int
    to_str to_int to_float iterate text_field eligible offer_for_slot space_constraints_satisfied
    evidence_refs count distinct slot_map bid_map snapshot_map header_violations shape_violations
    slot_violations owner_violations state_violations assignment_violations
    all_assignment_violations by_slot build validate accepted sort_edges edge_map chosen_at
    take_over try_edges augment match_slots invert assignments_of sort_slots all_edges
    deterministic_maximum_matching plan distance_to_task reasons evaluate_slot evaluate_slots
    make_bid
bid_made = refl

make_bid-offers_example :
    map (λ (o : BidOffer). o.slot_id) payload.offers ≡ slot_ids (slot "s1" ∷ [])
make_bid-offers_example =
    make_bid-offers engine task (slot "s1" ∷ []) (device "a") (channel ∷ []) round one_float none
      payload bid_made
