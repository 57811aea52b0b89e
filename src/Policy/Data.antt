-- ===== src/Policy/Data.antt =====
-- The data of coordination/models.py that the bids and the plans read and write. Fields that no
-- modelled code reads are left out of `AgentPublicSnapshot` and `GroupPlanningInput`.
use blackboard_coordination.Base.{String, Bool, ◌&&◌, Option, List}
use blackboard_coordination.Base.Int.{ℤ}
use blackboard_coordination.Python.Value.{Float, Fields, float_le, zero_float, Value}

pub record RoleSlot : Type 0 where
  pub slot_id : String
  pub required_capability_ids : List Value
  pub exclusive : Bool
  pub allowed_actions : List String
  pub action_template : Fields
  pub completion_rule : Fields

pub record AgentPublicSnapshot : Type 0 where
  pub device_id : String
  pub device_type : String
  pub online : Bool
  pub healthy : Bool
  pub busy : Bool
  pub busy_task_id : Option String
  pub battery : Float
  pub endurance_s : Float
  pub position : Option Fields
  pub capabilities : List String
  pub action_verbs : List String
  pub width_cm : Option Float
  pub success_rate : Float
  pub state_updated_at : Float

pub record ExecutionAvailability : Type 0 where
  pub device_id : String
  pub verb : String
  pub available : Bool
  pub checked_at : Float

pub record BidMetrics : Type 0 where
  pub capability_match : Bool
  pub online : Bool
  pub healthy : Bool
  pub idle : Bool
  pub battery_margin : Float
  pub endurance_margin_s : Float
  pub space_constraints_satisfied : Bool
  pub execution_available : Bool
  pub distance_m : Option Float
  pub reliability : Float

-- The property `BidMetrics.eligible`.
unfoldable pub eligible : BidMetrics → Bool
eligible m =
    m.capability_match
    && m.online
    && m.healthy
    && m.idle
    && float_le zero_float m.battery_margin
    && float_le zero_float m.endurance_margin_s
    && m.space_constraints_satisfied
    && m.execution_available

pub record BidOffer : Type 0 where
  pub slot_id : String
  pub decision : String
  pub metrics : BidMetrics
  pub reason_codes : List String

pub record CollaborationProposal : Type 0 where
  pub preferred_slot_ids : List String
  pub cooperation_summary : String
  pub risk_notes : List String
  pub evidence_refs : List String
  pub confidence : Float
  pub context_fingerprint : String

pub record BidPayload : Type 0 where
  pub task_id : String
  pub task_revision : ℤ
  pub coordination_epoch : ℤ
  pub bid_round : ℤ
  pub device_id : String
  pub offers : List BidOffer
  pub proposal : Option CollaborationProposal
  pub expires_at : Float

pub record BidRecord : Type 0 where
  pub event_id : String
  pub event_version : ℤ
  pub event_ts : Float
  pub payload : BidPayload

pub record AssignmentSnapshot : Type 0 where
  pub assignment_id : String
  pub slot_id : String
  pub device_id : String
  pub supporting_bid_event_id : String
  pub assignment_epoch : ℤ
  pub allowed_actions : List String
  pub action_template : Fields
  pub completion_rule : Fields

pub record AssignmentPlanSnapshot : Type 0 where
  pub task_id : String
  pub task_revision : ℤ
  pub coordination_epoch : ℤ
  pub plan_id : String
  pub assignments : List AssignmentSnapshot
  pub committed_by : String
  pub input_evidence_refs : List String
  pub input_fingerprint : String

pub record CandidateAssignment : Type 0 where
  pub slot_id : String
  pub device_id : String
  pub supporting_bid_event_id : String

pub record CandidateAssignmentPlan : Type 0 where
  pub task_id : String
  pub task_revision : ℤ
  pub coordination_epoch : ℤ
  pub assignments : List CandidateAssignment
  pub rationale_summary : String
  pub input_fingerprint : String

pub record GroupPlanningInput : Type 0 where
  pub task : Fields
  pub role_slots : List RoleSlot
  pub bids : List BidRecord
  pub agent_snapshots : List AgentPublicSnapshot
  pub evidence_view : Option Fields
  pub task_revision : ℤ
  pub coordination_epoch : ℤ
  pub input_fingerprint : String

-- The message is a text for people, fixed by the code, and left out.
pub record Violation : Type 0 where
  pub code : String
  pub slot_id : Option String
  pub device_id : Option String

pub data PlanValidationResult : Type 0 where
  valid_plan : AssignmentPlanSnapshot → PlanValidationResult
  invalid_plan : List Violation → PlanValidationResult
