-- ===== src/Policy/Violations.antt =====
-- coordination/policy.py: what `MinimalPlanValidator.validate` collects before it builds a plan.
pub mod Counts
use blackboard_coordination.Base.{
  ℕ, ◌+◌, String, Bool, true, false, not, ◌&&◌, ◌||◌, Option, none, some, List, [], ◌∷◌, ◌++◌, ◌==◌,
  map, member, all, keep, nat_eq, ltb, if◌then◌else◌, any,
}
use blackboard_coordination.Base.Int.{eq_ℤ}
use blackboard_coordination.Base.Dict.{Assoc, lookup, insert, sort_texts}
use blackboard_coordination.Python.Result.{Result, ok, ◌>>=◌}
use blackboard_coordination.Python.Value.{
  Builtins, Float, Fields, list, nil, dict, empty, float, zero_float, get_or, to_float, float_lt,
  Value, py_eq, str,
}
use blackboard_coordination.View.Match.{as_dict, text_field}
use blackboard_coordination.Policy.Data.{
  RoleSlot, AgentPublicSnapshot, BidOffer, BidRecord, CandidateAssignment, CandidateAssignmentPlan,
  GroupPlanningInput, Violation, eligible,
}
use blackboard_coordination.Policy.Space.{offer_for_slot, space_constraints_satisfied}

-- `xs.count(s)`
unfoldable pub count : String → List String → ℕ
count s [] = 0
count s (x ∷ xs) = (if x == s then 1 else 0) + count s xs

-- `set(xs)`, as a list
unfoldable pub distinct : List String → List String
distinct [] = []
distinct (x ∷ xs) = let rest = distinct xs in if member x xs then rest else x ∷ rest

abbrev pub plain : String → Violation
plain code = record { code = code; slot_id = none; device_id = none }

abbrev pub on_slot : String → String → Violation
on_slot code slot_id = record { code = code; slot_id = some slot_id; device_id = none }

abbrev pub on_device : String → String → Violation
on_device code device_id = record { code = code; slot_id = none; device_id = some device_id }

abbrev pub owned : String → CandidateAssignment → Violation
owned code a = record { code = code; slot_id = some a.slot_id; device_id = some a.device_id }

-- `if b: violations.append(v)`
abbrev pub when : Bool → Violation → List Violation
when true v = v ∷ []
when false v = []

abbrev pub candidate_slots : CandidateAssignmentPlan → List String
candidate_slots c = map (λ (a : CandidateAssignment). a.slot_id) c.assignments

abbrev pub candidate_devices : CandidateAssignmentPlan → List String
candidate_devices c = map (λ (a : CandidateAssignment). a.device_id) c.assignments

abbrev pub slot_ids : List RoleSlot → List String
slot_ids slots = map (λ (s : RoleSlot). s.slot_id) slots

-- `{slot.slot_id: slot for slot in role_slots}`
unfoldable pub slot_map : Assoc RoleSlot → List RoleSlot → Assoc RoleSlot
slot_map m [] = m
slot_map m (s ∷ ss) = slot_map (insert s.slot_id s m) ss

unfoldable pub bid_map : Assoc BidRecord → List BidRecord → Assoc BidRecord
bid_map m [] = m
bid_map m (b ∷ bs) = bid_map (insert b.event_id b m) bs

unfoldable pub snapshot_map :
    Assoc AgentPublicSnapshot → List AgentPublicSnapshot → Assoc AgentPublicSnapshot
snapshot_map m [] = m
snapshot_map m (s ∷ ss) = snapshot_map (insert s.device_id s m) ss

-- The comparisons with the planning input.
unfoldable pub header_violations :
    CandidateAssignmentPlan → GroupPlanningInput → String → List Violation
header_violations c input task_id =
    when (not (c.task_id == task_id)) (plain "TASK_ID_MISMATCH")
    ++ when (not (eq_ℤ c.task_revision input.task_revision)) (plain "TASK_REVISION_MISMATCH")
    ++ when (not (eq_ℤ c.coordination_epoch input.coordination_epoch))
        (plain "COORDINATION_EPOCH_MISMATCH")
    ++ when (not (c.input_fingerprint == input.input_fingerprint))
        (plain "INPUT_FINGERPRINT_MISMATCH")

pub owner_counts : List String → List String → List Violation
owner_counts candidates [] = []
owner_counts candidates (slot_id ∷ slots) =
    when (not (nat_eq (count slot_id candidates) 1)) (on_slot "SLOT_OWNER_COUNT_INVALID" slot_id)
    ++ owner_counts candidates slots

pub device_counts : List String → List String → List Violation
device_counts devices [] = []
device_counts devices (device_id ∷ rest) =
    when (ltb 1 (count device_id devices)) (on_device "DEVICE_ASSIGNED_MULTIPLE_SLOTS" device_id)
    ++ device_counts devices rest

-- One owner to every slot, no unknown slot, one slot to every device.
unfoldable pub shape_violations : CandidateAssignmentPlan → List RoleSlot → List Violation
unfolding owner_counts device_counts
shape_violations c slots =
    let known = distinct (slot_ids slots) in
    owner_counts (candidate_slots c) (sort_texts known)
    ++ map (on_slot "UNKNOWN_SLOT")
        (sort_texts (keep (λ s. not (member s known)) (distinct (candidate_slots c))))
    ++ device_counts (candidate_devices c) (sort_texts (distinct (candidate_devices c)))

abbrev offer_accepted : Option BidOffer → Bool
offer_accepted none = false
offer_accepted (some o) = o.decision == "accept" && eligible o.metrics

abbrev pub other_task : Option String → String → Bool
other_task none task_id = true
other_task (some t) task_id = not (t == task_id)

-- `capability in snapshot.capabilities`
abbrev pub has_capability : AgentPublicSnapshot → Value → Bool
has_capability snapshot capability = any (λ c. py_eq (str c) capability) snapshot.capabilities

module _ ⦃py : Builtins⦄ where
  -- `enum_value(slot.action_template.get("verb", ""))`
  abbrev pub slot_verb : RoleSlot → String
  slot_verb slot = text_field slot.action_template "verb"

  -- `float(requirement.get(name, 0.0))`
  abbrev pub minimum : Fields → String → Result Float
  minimum requirement name = to_float (get_or requirement name (float zero_float))

  unfoldable pub slot_violations :
      CandidateAssignment → AgentPublicSnapshot → Option RoleSlot → List Violation
  slot_violations a snapshot none = []
  slot_violations a snapshot (some slot) =
      when (not (all (has_capability snapshot) slot.required_capability_ids))
        (owned "OWNER_CAPABILITY_STALE" a)
      ++ when (not (member (slot_verb slot) snapshot.action_verbs))
          (owned "OWNER_ACTION_VERB_STALE" a)

  -- The checks of an owner whose public state is available.
  unfoldable pub owner_violations :
      GroupPlanningInput
      → String
      → CandidateAssignment
      → Option RoleSlot
      → AgentPublicSnapshot
      → Result (List Violation)
  unfolding slot_violations
  owner_violations input task_id a slot snapshot = do
    requirement ← as_dict (get_or input.task "requirement" (dict empty))
    min_battery ← minimum requirement "min_battery"
    min_endurance ← minimum requirement "min_endurance_s"
    fits ← space_constraints_satisfied (get_or requirement "space_constraints" (list nil)) snapshot
    ok (
        slot_violations a snapshot slot
        ++ when (snapshot.busy && other_task snapshot.busy_task_id task_id) (owned "OWNER_BUSY" a)
        ++ when (float_lt snapshot.battery min_battery) (owned "OWNER_BATTERY_STALE" a)
        ++ when (float_lt snapshot.endurance_s min_endurance) (owned "OWNER_ENDURANCE_STALE" a)
        ++ when (not fits) (owned "OWNER_SPACE_CONSTRAINT_STALE" a))

  unfoldable pub state_violations :
      GroupPlanningInput
      → String
      → CandidateAssignment
      → Option RoleSlot
      → Option AgentPublicSnapshot
      → Result (List Violation)
  state_violations input task_id a slot none = ok (owned "OWNER_NO_LONGER_ELIGIBLE" a ∷ [])
  state_violations input task_id a slot (some snapshot) =
      if not snapshot.online || not snapshot.healthy
      then ok (owned "OWNER_NO_LONGER_ELIGIBLE" a ∷ [])
      else owner_violations input task_id a slot snapshot

  supported_violations :
      GroupPlanningInput → String → CandidateAssignment → Option BidRecord → Result (List Violation)
  unfolding state_violations
  supported_violations input task_id a none = ok (owned "SUPPORTING_BID_INVALID" a ∷ [])
  supported_violations input task_id a (some bid) =
      if not (bid.payload.device_id == a.device_id)
      then ok (owned "SUPPORTING_BID_INVALID" a ∷ [])
      else (do
        state ←
            state_violations input task_id a (lookup a.slot_id (slot_map [] input.role_slots))
              (lookup a.device_id (snapshot_map [] input.agent_snapshots))
        ok (
            when (not (offer_accepted (offer_for_slot bid a.slot_id)))
              (owned "OWNER_DID_NOT_ACCEPT_SLOT" a)
            ++ state))

  -- The body of the loop over the candidate's assignments.
  unfoldable pub assignment_violations :
      GroupPlanningInput → String → CandidateAssignment → Result (List Violation)
  unfolding supported_violations
  assignment_violations input task_id a =
      supported_violations input task_id a
        (lookup a.supporting_bid_event_id (bid_map [] input.bids))

  unfoldable pub all_assignment_violations :
      GroupPlanningInput → String → List CandidateAssignment → Result (List Violation)
  all_assignment_violations input task_id [] = ok []
  all_assignment_violations input task_id (a ∷ rest_of) = do
    first ← assignment_violations input task_id a
    rest ← all_assignment_violations input task_id rest_of
    ok (first ++ rest)
