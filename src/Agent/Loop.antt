-- ===== src/Agent/Loop.antt =====
-- coordination/agent_loop.py: `PureAgentLoop`, complete input in, session and effects out.
use blackboard_coordination.Base.{
  String, Bool, true, false, not, ◌&&◌, ◌||◌, Option, none, some, List, [], ◌∷◌, ◌==◌, member,
  if◌then◌else◌,
}
use blackboard_coordination.Base.Int.{ℤ, pos, negsuc, ◌+ℤ◌, eq_ℤ}
use blackboard_coordination.Python.Result.{Result, ok, ◌>>=◌}
use blackboard_coordination.Python.Value.{
  Builtins, Value, Fields, Float, null, bool, str, empty, get_or, index, to_int, py_eq,
}
use blackboard_coordination.View.Match.{text_field, int_field}
use blackboard_coordination.Contracts.{Event}
use blackboard_coordination.Policy.Data.{
  AgentPublicSnapshot, ExecutionAvailability, CollaborationProposal, AssignmentSnapshot,
}
use blackboard_coordination.Python.Value.{put}
use blackboard_coordination.Sessions.Tasks.Session.{TaskSession, IntentSession}
use blackboard_coordination.Agent.Intents.{SubmitActionIntentPayload}

-- `LoopInput`, without the fields that the loop does not read. `skill_references` is their JSON
-- value.
pub record LoopInput : Type 0 where
  pub event : Event
  pub now : Float
  pub session : TaskSession
  pub task_view : Option Fields
  pub agent_snapshot : AgentPublicSnapshot
  pub execution_availability : List ExecutionAvailability
  pub skill_references : Value
  pub local_proposal : Option CollaborationProposal

-- `EffectKind` with its payload
pub data Effect : Type 0 where
  append_blackboard_event : Event → Effect
  submit_action_intent : SubmitActionIntentPayload → Effect
  cleanup_task_session : String → Effect

pub record StepResult : Type 0 where
  pub effects : List Effect
  pub session_after : TaskSession
  pub consume_input : Bool

abbrev pub no_effect : TaskSession → Bool → StepResult
no_effect s consumed = record { effects = []; session_after = s; consume_input = consumed }

-- `session.session_version += 1`
abbrev pub bumped : TaskSession → TaskSession
bumped s = record s { session_version = s.session_version +ℤ pos 1 }

abbrev with_state : String → TaskSession → TaskSession
with_state state s = record s { state = state }

abbrev with_intent : Option IntentSession → TaskSession → TaskSession
with_intent i s = record s { current_intent = i }

abbrev pub or_no_view : Option Fields → Fields
or_no_view none = empty
or_no_view (some view) = view

-- The states from which a replayed assignment dispatches nothing.
abbrev pub settled_states : List String
settled_states =
    "dispatching" ∷ "dispatched" ∷ "succeeded" ∷ "failed" ∷ "safety_blocked" ∷ "dispatch_unknown"
    ∷ []

-- The session already holds the intent, and has gone on from proposing it.
unfoldable pub is_replayed : Option IntentSession → String → Bool
is_replayed none intent_id = false
is_replayed (some i) intent_id = i.intent_id == intent_id && member i.state settled_states

abbrev pub proposed : SubmitActionIntentPayload → IntentSession
proposed submit = record {
  intent_id = submit.intent.intent_id;
  state = "proposed";
  intent_fingerprint = submit.intent_fingerprint;
  receipt_id = none;
}

-- `submit.intent.extra["skill_references"] = ...`
abbrev pub with_references : Value → SubmitActionIntentPayload → SubmitActionIntentPayload
with_references references submit = record submit {
  intent = record submit.intent { extra = put "skill_references" references submit.intent.extra };
}

-- The end of `_on_task_assigned`, for an assignment of this device.
unfoldable pub take_assignment :
    Value → TaskSession → AssignmentSnapshot → SubmitActionIntentPayload → StepResult
take_assignment references s a submit =
    let active = record s { state = "active"; assignment = some a } in
    if is_replayed s.current_intent submit.intent.intent_id then no_effect active true else record {
      effects = submit_action_intent (with_references references submit) ∷ [];
      session_after = with_intent (some (proposed submit)) active;
      consume_input = true;
    }

-- Whether the event is about the intent of the session.
abbrev is_about : Fields → IntentSession → Bool
is_about content i = py_eq (get_or content "intent_id" null) (str i.intent_id)

abbrev or_missing : String → Option String
or_missing s = if s == "" then none else some s

abbrev is_true : Value → Bool
is_true (bool b) = b
is_true _ = false

-- A receipt that confirms the action.
abbrev pub confirms : Fields → Bool
confirms content =
    is_true (get_or content "success" null)
    && py_eq (get_or content "outcome_certainty" null) (str "confirmed")
    && is_true (get_or content "post_check_allowed" null)

module _ ⦃py : Builtins⦄ where
  unfoldable pub after_intent : Fields → TaskSession → Option IntentSession → StepResult
  after_intent content s none = no_effect s true
  after_intent content s (some i) =
      if is_about content i && i.state == "proposed"
      then no_effect (bumped (with_intent (some (record i { state = "dispatched" })) s)) true
      else no_effect s true

  -- `_on_action_intent`
  unfoldable pub on_action_intent : Fields → TaskSession → StepResult
  on_action_intent content s = after_intent content s s.current_intent

  -- The state of the intent after its receipt.
  abbrev outcome_state : Fields → String
  outcome_state content =
      if confirms content
      then "succeeded"
      else if py_eq (get_or content "outcome_certainty" null) (str "unknown")
      then "dispatch_unknown"
      else "failed"

  abbrev receive : Fields → TaskSession → IntentSession → TaskSession
  receive content s i =
      let receipt_id = or_missing (text_field content "receipt_id") in
      record s {
        current_intent = some (record i { state = outcome_state content; receipt_id = receipt_id });
        last_receipt_id = receipt_id;
        state = if confirms content then s.state else "failed";
      }

  unfoldable pub after_receipt : Fields → TaskSession → Option IntentSession → StepResult
  after_receipt content s none = no_effect s true
  after_receipt content s (some i) =
      if is_about content i then no_effect (bumped (receive content s i)) true else no_effect s true

  -- `_on_receipt`
  unfoldable pub on_receipt : Fields → TaskSession → StepResult
  on_receipt content s = after_receipt content s s.current_intent

  unfoldable pub after_intercept : Fields → TaskSession → Option IntentSession → StepResult
  after_intercept content s none = no_effect s true
  after_intercept content s (some i) =
      if is_about content i
      then no_effect
          (bumped
            (with_state "failed" (with_intent (some (record i { state = "safety_blocked" })) s)))
          true
      else no_effect s true

  -- `_on_safety_intercept`
  unfoldable pub on_safety_intercept : Fields → TaskSession → StepResult
  on_safety_intercept content s = after_intercept content s s.current_intent

  unfoldable pub after_completion : Fields → TaskSession → Option AssignmentSnapshot → StepResult
  after_completion content s none = no_effect s true
  after_completion content s (some a) =
      if py_eq (get_or content "assignment_id" null) (str a.assignment_id)
      then no_effect (bumped (with_state "done" s)) true
      else no_effect s true

  -- `_on_assignment_completed`
  unfoldable pub on_assignment_completed : Fields → TaskSession → StepResult
  on_assignment_completed content s = after_completion content s s.assignment

  abbrev moved_on : TaskSession → ℤ → TaskSession
  moved_on s to_epoch = record s {
    coordination_epoch = to_epoch;
    state = "observed";
    assignment = none;
    current_intent = none;
    last_receipt_id = none;
  }

  -- `_on_task_replan` of the loop
  unfoldable pub on_replan : Fields → TaskSession → Result StepResult
  on_replan content s = do
    from_epoch ← int_field content "from_epoch" (negsuc 0)
    if not (eq_ℤ from_epoch s.coordination_epoch) then ok (no_effect s true) else (do
      v ← index content "to_epoch"
      to_epoch ← to_int v
      ok (no_effect (bumped (moved_on s to_epoch)) true))

  -- `_on_task_done` and `_on_task_failed`, which differ in the state.
  unfoldable pub on_end : String → TaskSession → StepResult
  on_end state s = record {
    effects = cleanup_task_session s.task_id ∷ [];
    session_after = bumped (with_state state s);
    consume_input = true;
  }

  unfoldable pub on_estop : String → Fields → TaskSession → StepResult
  on_estop device_id content s =
      let scope_type = get_or content "scope_type" null in
      let affected =
        py_eq scope_type (str "all")
        || py_eq scope_type (str "device")
          && py_eq (get_or content "scope_id" null) (str device_id) in
      if py_eq (get_or content "operation" null) (str "stop") && affected
      then no_effect (bumped (with_state "failed" s)) true
      else no_effect s true
