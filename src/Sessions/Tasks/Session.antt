-- ===== src/Sessions/Tasks/Session.antt =====
-- coordination/models.py and coordination/file_session_store.py: a task session, as the JSON value
-- that `to_json_value` makes of it and as `load_session` reads it. Enumeration members are their
-- texts.
pub mod Roundtrip
use blackboard_coordination.Base.{
  String, Bool, true, false, Option, none, some, List, [], ◌∷◌, member, map, if◌then◌else◌,
}
use blackboard_coordination.Base.Int.{ℤ, pos}
use blackboard_coordination.Python.Result.{Result, ok, raised, value_error, ◌>>=◌}
use blackboard_coordination.Python.Value.{
  Builtins, Value, Items, Fields, null, int, str, list, nil, cons, dict, empty, entry, get_or,
  index, to_str, to_int,
}
use blackboard_coordination.View.Match.{as_dict, iterate, text_field, int_field}
use blackboard_coordination.Policy.Data.{AssignmentSnapshot}
use blackboard_coordination.Sessions.Codec.{optional, optional_text}
use blackboard_coordination.View.Match.{to_dict}

-- `TaskSessionState`
abbrev pub session_states : List String
session_states = "observed" ∷ "bidding" ∷ "standby" ∷ "active" ∷ "done" ∷ "failed" ∷ []

-- `IntentState`
abbrev pub intent_states : List String
intent_states =
    "proposed" ∷ "dispatching" ∷ "dispatched" ∷ "succeeded" ∷ "failed" ∷ "safety_blocked"
    ∷ "dispatch_unknown" ∷ []

pub record IntentSession : Type 0 where
  pub intent_id : String
  pub state : String
  pub intent_fingerprint : String
  pub receipt_id : Option String

pub record TaskSession : Type 0 where
  pub task_id : String
  pub task_revision : ℤ
  pub coordination_epoch : ℤ
  pub state : String
  pub assignment : Option AssignmentSnapshot
  pub current_intent : Option IntentSession
  pub last_receipt_id : Option String
  pub session_version : ℤ

-- `TaskSession.observed`
unfoldable pub observed : String → ℤ → TaskSession
observed task_id task_revision = record {
  task_id = task_id;
  task_revision = task_revision;
  coordination_epoch = pos 0;
  state = "observed";
  assignment = none;
  current_intent = none;
  last_receipt_id = none;
  session_version = pos 1;
}

abbrev pub texts_json : List String → Items
texts_json [] = nil
texts_json (s ∷ ss) = cons (str s) (texts_json ss)

abbrev pub assignment_json : AssignmentSnapshot → Value
assignment_json a = dict (
    entry "assignment_id" (str a.assignment_id) (
      entry "slot_id" (str a.slot_id) (
        entry "device_id" (str a.device_id) (
          entry "supporting_bid_event_id" (str a.supporting_bid_event_id) (
            entry "assignment_epoch" (int a.assignment_epoch) (
              entry "allowed_actions" (list (texts_json a.allowed_actions)) (
                entry "action_template" (dict a.action_template)
                  (entry "completion_rule" (dict a.completion_rule) empty))))))))

abbrev pub intent_json : IntentSession → Value
intent_json i = dict (
    entry "intent_id" (str i.intent_id) (
      entry "state" (str i.state) (
        entry "intent_fingerprint" (str i.intent_fingerprint)
          (entry "receipt_id" (optional str i.receipt_id) empty))))

abbrev session_fields : TaskSession → Fields
session_fields s = entry "task_id" (str s.task_id) (
    entry "task_revision" (int s.task_revision) (
      entry "coordination_epoch" (int s.coordination_epoch) (
        entry "state" (str s.state) (
          entry "assignment" (optional assignment_json s.assignment) (
            entry "current_intent" (optional intent_json s.current_intent) (
              entry "last_receipt_id" (optional str s.last_receipt_id)
                (entry "session_version" (int s.session_version) empty)))))))

-- `to_json_value(session)`
unfoldable pub session_to_json : TaskSession → Value
session_to_json s = dict (session_fields s)

-- `TaskSessionState(text)`, `IntentState(text)`
unfoldable pub to_state : List String → String → Result String
to_state states s = if member s states then ok s else raised value_error

module _ ⦃py : Builtins⦄ where
  -- `AssignmentSnapshot.from_dict`
  unfoldable pub assignment_from_dict : Fields → Result AssignmentSnapshot
  assignment_from_dict value = do
    assignment_epoch ← int_field value "assignment_epoch" (pos 0)
    actions ← iterate (get_or value "allowed_actions" (list nil))
    action_template ← to_dict (get_or value "action_template" (dict empty))
    completion_rule ← to_dict (get_or value "completion_rule" (dict empty))
    ok (record {
      assignment_id = text_field value "assignment_id";
      slot_id = text_field value "slot_id";
      device_id = text_field value "device_id";
      supporting_bid_event_id = text_field value "supporting_bid_event_id";
      assignment_epoch = assignment_epoch;
      allowed_actions = map to_str actions;
      action_template = action_template;
      completion_rule = completion_rule;
    })

  -- `AssignmentSnapshot.from_dict(v) if isinstance(v, dict) else None`
  abbrev pub optional_assignment : Value → Result (Option AssignmentSnapshot)
  optional_assignment (dict value) = do a ← assignment_from_dict value; ok (some a)
  optional_assignment _ = ok none

  unfoldable pub intent_from_dict : Fields → Result IntentSession
  intent_from_dict value = do
    intent_id ← index value "intent_id"
    state_text ← index value "state"
    state ← to_state intent_states (to_str state_text)
    intent_fingerprint ← index value "intent_fingerprint"
    receipt_id ← optional_text (get_or value "receipt_id" null)
    ok (record {
      intent_id = to_str intent_id;
      state = state;
      intent_fingerprint = to_str intent_fingerprint;
      receipt_id = receipt_id;
    })

  abbrev pub optional_intent : Value → Result (Option IntentSession)
  optional_intent (dict value) = do i ← intent_from_dict value; ok (some i)
  optional_intent _ = ok none

  -- `load_session`, once the file is read
  unfoldable pub session_from_json : Value → Result TaskSession
  session_from_json v = do
    value ← as_dict v
    task_id ← index value "task_id"
    revision_value ← index value "task_revision"
    task_revision ← to_int revision_value
    epoch_value ← index value "coordination_epoch"
    coordination_epoch ← to_int epoch_value
    state_text ← index value "state"
    state ← to_state session_states (to_str state_text)
    assignment ← optional_assignment (get_or value "assignment" null)
    current_intent ← optional_intent (get_or value "current_intent" null)
    last_receipt_id ← optional_text (get_or value "last_receipt_id" null)
    session_version ← int_field value "session_version" (pos 1)
    ok (record {
      task_id = to_str task_id;
      task_revision = task_revision;
      coordination_epoch = coordination_epoch;
      state = state;
      assignment = assignment;
      current_intent = current_intent;
      last_receipt_id = last_receipt_id;
      session_version = session_version;
    })
