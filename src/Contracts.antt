-- ===== src/Contracts.antt =====
-- contracts/blackboard_event.py: the event schema, the ledgers and the verdict of an append.
-- Enumerations of texts (`class EventType(str, Enum)`) are held as the texts that `_value` and
-- `enum_value` read from them, since the program also takes bare texts in their place.
use blackboard_coordination.Base.{ℕ, String, Bool, true, false, Option, List, [], ◌∷◌}
use blackboard_coordination.Python.Value.{Float, Fields}

abbrev pub event_types : List String
event_types =
    "task_posted" ∷ "bid_round_opened" ∷ "task_assigned" ∷ "assignment_completed" ∷ "task_done"
    ∷ "task_failed" ∷ "task_replan" ∷ "bid" ∷ "claim" ∷ "yield" ∷ "handoff" ∷ "ask_help" ∷ "clue"
    ∷ "fusion" ∷ "auth_point" ∷ "auth_decision" ∷ "action_intent" ∷ "receipt" ∷ "safety_intercept"
    ∷ "estop" ∷ "skill_registered" ∷ []

abbrev pub ledgers : List String
ledgers = "task" ∷ "evidence" ∷ "receipt" ∷ "human" ∷ []

pub data AppendStatus : Type 0 where
  appended duplicate_same rejected key_conflict terminal_conflict : AppendStatus

pub record AppendResult : Type 0 where
  pub status : AppendStatus
  pub offset : Option ℕ
  pub version : Option ℕ
  pub event_id : String
  pub existing_event_id : Option String
  pub reason_code : Option String

-- The property `AppendResult.accepted`.
abbrev pub accepted : AppendResult → Bool
accepted r = elim r.status [ appended ↦ true | duplicate_same ↦ true | _ ↦ false ]

-- The fields have the types that the dataclass declares. `kind` is the field `type`, `origin` the
-- field `source`. A payload is a dict with text keys and JSON values.
pub record Event : Type 0 where
  pub id : String
  pub kind : String
  pub ledger : String
  pub content : Fields
  pub origin : String
  pub ts : Float
  pub confidence : Option Float
  pub ttl : Option Float
  pub version : ℕ
  pub idempotency_key : Option String
  pub extra : Fields
  pub trace_carrier : List (String × String)

pub record StoredEvent : Type 0 where
  pub offset : ℕ
  pub event : Event
