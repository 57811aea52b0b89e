-- ===== src/Policy/Bids.antt =====
-- coordination/policy.py: `EligibilityBidEngine`, the offers of a device.
pub mod Reasons
pub mod Agreement
use blackboard_coordination.Base.{
  String, Bool, true, false, not, ◌&&◌, ◌||◌, Option, none, some, List, [], ◌∷◌, ◌++◌, ◌==◌, all,
  member, find_first, if◌then◌else◌,
}
use blackboard_coordination.Base.Int.{ℤ}
use blackboard_coordination.Python.Result.{Result, ok, raised, attribute_error, ◌>>=◌}
use blackboard_coordination.Python.Value.{
  Builtins, Value, Float, Fields, null, str, list, nil, dict, empty, get_or, index, to_str,
  to_float, truthy, py_eq, float_lt, float_le, zero_float, one_float,
}
use blackboard_coordination.View.Match.{as_dict, to_dict}
use blackboard_coordination.Policy.Data.{
  RoleSlot, AgentPublicSnapshot, ExecutionAvailability, BidMetrics, BidOffer, BidPayload,
  CollaborationProposal, eligible,
}
use blackboard_coordination.Policy.Space.{space_constraints_satisfied}
use blackboard_coordination.Policy.Violations.{slot_verb, minimum, has_capability}

-- The arithmetic of doubles, which rounds: `x - y`, `x ** 2` (an `OverflowError` where it is too
-- large), `sum`, and `math.sqrt`.
pub record Arithmetic : Type 0 where
  pub minus : Float → Float → Float
  pub square : Float → Result Float
  pub total : List Float → Float
  pub root : Float → Float

-- The fields of `EligibilityBidEngine`.
pub record EligibilityBidEngine : Type 0 where
  pub agent_state_ttl_s : Float
  pub execution_availability_ttl_s : Float

-- `if b: reasons.append(code)`
abbrev reason : Bool → String → List String
reason true code = code ∷ []
reason false code = []

-- `max(0.0, min(1.0, x))`
clamp : Float → Float
clamp x =
    let low = if float_lt x one_float then x else one_float in
    if float_lt zero_float low then low else zero_float

module _ ⦃py : Builtins⦄ ⦃fp : Arithmetic⦄ where
  -- The square of a difference, or `None` where a coordinate is missing.
  axis : Value → Value → Result (Option Float)
  axis null right = ok none
  axis left null = ok none
  axis left right = do
    l ← to_float left
    r ← to_float right
    s ← fp.square (fp.minus l r)
    ok (some s)

  abbrev coordinate : Fields → Fields → String → Result (Option Float)
  coordinate position area name = axis (get_or position name null) (get_or area name null)

  abbrev or_nothing : Option Float → List Float
  or_nothing none = []
  or_nothing (some s) = s ∷ []

  -- The loop over the coordinates: without `x_m` or `y_m` there is no distance.
  distance_between : Fields → Fields → Result (Option Float)
  unfolding axis
  distance_between position area = do
    x ← coordinate position area "x_m"
    elim x [
      | none ↦ ok none
      | some a ↦ (do
        y ← coordinate position area "y_m"
        elim y [
          | none ↦ ok none
          | some b ↦ (do
            z ← coordinate position area "z_m"
            ok (some (fp.root (fp.total (a ∷ b ∷ or_nothing z)))))
        ])
    ]

  abbrev other_frames : Fields → Fields → Bool
  other_frames position area =
      let left = get_or position "coordinate_system" null in
      let right = get_or area "coordinate_system" null in
      truthy left && truthy right && not (py_eq left right)

  -- `_distance_to_task`
  unfoldable pub distance_to_task : Option Fields → Value → Result (Option Float)
  unfolding distance_between
  distance_to_task none area = ok none
  distance_to_task (some position) area =
      if not (truthy (dict position)) || not (truthy area) then ok none else (do
        there ← as_dict area
        if other_frames position there then ok none else distance_between position there)

  -- `busy_task_id == task.get("task_id")`
  abbrev same_task : Option String → Value → Bool
  same_task none v = py_eq null v
  same_task (some t) v = py_eq (str t) v

  abbrev idle_for : Fields → AgentPublicSnapshot → Bool
  idle_for task snapshot =
      not snapshot.busy || same_task snapshot.busy_task_id (get_or task "task_id" null)

  -- The first availability of the device and the verb.
  abbrev availability_of :
      AgentPublicSnapshot → String → List ExecutionAvailability → Option ExecutionAvailability
  availability_of snapshot verb availabilities =
      find_first
        (λ (a : ExecutionAvailability). a.device_id == snapshot.device_id && a.verb == verb)
        availabilities

  abbrev is_available : EligibilityBidEngine → Float → Option ExecutionAvailability → Bool
  is_available engine now none = false
  is_available engine now (some a) =
      a.available && float_le (fp.minus now a.checked_at) engine.execution_availability_ttl_s

  abbrev is_fresh : EligibilityBidEngine → Float → AgentPublicSnapshot → Bool
  is_fresh engine now snapshot =
      float_le (fp.minus now snapshot.state_updated_at) engine.agent_state_ttl_s

  -- The metrics, once all that can raise has been read.
  metrics_of :
      EligibilityBidEngine
      → Fields
      → RoleSlot
      → AgentPublicSnapshot
      → List ExecutionAvailability
      → Float
      → Float × Float
      → Bool
      → Option Float
      → BidMetrics
  unfolding clamp
  metrics_of engine task slot snapshot availabilities now (min_battery, min_endurance) fits
        distance =
      record {
        capability_match = all (has_capability snapshot) slot.required_capability_ids;
        online = snapshot.online && is_fresh engine now snapshot;
        healthy = snapshot.healthy;
        idle = idle_for task snapshot;
        battery_margin = fp.minus snapshot.battery min_battery;
        endurance_margin_s = fp.minus snapshot.endurance_s min_endurance;
        space_constraints_satisfied = fits;
        execution_available =
            member (slot_verb slot) snapshot.action_verbs
            && is_available engine now (availability_of snapshot (slot_verb slot) availabilities);
        distance_m = distance;
        reliability = clamp snapshot.success_rate;
      }

  -- `reasons`: `state_fresh` and `action_supported` choose among two codes.
  unfoldable pub reasons : BidMetrics → Bool → Bool → Bool → List String
  reasons m state_fresh online action_supported =
      reason (not m.capability_match) "CAPABILITY_MISMATCH"
      ++ (if not state_fresh then "STALE_AGENT_STATE" ∷ [] else reason (not online) "AGENT_OFFLINE")
      ++ reason (not m.healthy) "AGENT_UNHEALTHY"
      ++ reason (not m.idle) "AGENT_BUSY"
      ++ reason (float_lt m.battery_margin zero_float) "BATTERY_BELOW_MINIMUM"
      ++ reason (float_lt m.endurance_margin_s zero_float) "ENDURANCE_BELOW_MINIMUM"
      ++ reason (not m.space_constraints_satisfied) "SPACE_CONSTRAINT_UNSATISFIED"
      ++ (if m.execution_available
          then []
          else if not action_supported
          then "ACTION_VERB_UNSUPPORTED" ∷ []
          else "EXECUTION_CHANNEL_UNAVAILABLE" ∷ [])

  abbrev offer_of :
      EligibilityBidEngine → RoleSlot → AgentPublicSnapshot → Float → BidMetrics → BidOffer
  offer_of engine slot snapshot now m = record {
    slot_id = slot.slot_id;
    decision = if eligible m then "accept" else "reject";
    metrics = m;
    reason_codes =
        reasons m (is_fresh engine now snapshot) snapshot.online
          (member (slot_verb slot) snapshot.action_verbs);
  }

  -- `EligibilityBidEngine.evaluate_slot`
  unfoldable pub evaluate_slot :
      EligibilityBidEngine
      → Fields
      → RoleSlot
      → AgentPublicSnapshot
      → List ExecutionAvailability
      → Float
      → Result BidOffer
  unfolding metrics_of
  evaluate_slot engine task slot snapshot availabilities now = do
    requirement ← to_dict (get_or task "requirement" (dict empty))
    min_battery ← minimum requirement "min_battery"
    min_endurance ← minimum requirement "min_endurance_s"
    fits ← space_constraints_satisfied (get_or requirement "space_constraints" (list nil)) snapshot
    distance ← distance_to_task snapshot.position (get_or task "area" null)
    ok (
        offer_of engine slot snapshot now (
          metrics_of engine task slot snapshot availabilities now (min_battery, min_endurance) fits
            distance))

  unfoldable pub evaluate_slots :
      EligibilityBidEngine
      → Fields
      → List RoleSlot
      → AgentPublicSnapshot
      → List ExecutionAvailability
      → Float
      → Result (List BidOffer)
  evaluate_slots engine task [] snapshot availabilities now = ok []
  evaluate_slots engine task (slot ∷ slots) snapshot availabilities now = do
    o ← evaluate_slot engine task slot snapshot availabilities now
    rest ← evaluate_slots engine task slots snapshot availabilities now
    ok (o ∷ rest)

  -- The numbers of a round, as `make_bid` takes them.
  pub record Round : Type 0 where
    pub task_revision : ℤ
    pub coordination_epoch : ℤ
    pub bid_round : ℤ
    pub deadline : Float

  -- `EligibilityBidEngine.make_bid`
  unfoldable pub make_bid :
      EligibilityBidEngine
      → Fields
      → List RoleSlot
      → AgentPublicSnapshot
      → List ExecutionAvailability
      → Round
      → Float
      → Option CollaborationProposal
      → Result BidPayload
  make_bid engine task slots snapshot availabilities round now proposal = do
    offers ← evaluate_slots engine task slots snapshot availabilities now
    task_id ← index task "task_id"
    ok (record {
      task_id = to_str task_id;
      task_revision = round.task_revision;
      coordination_epoch = round.coordination_epoch;
      bid_round = round.bid_round;
      device_id = snapshot.device_id;
      offers = offers;
      proposal = proposal;
      expires_at = round.deadline;
    })
