-- ===== src/Examples/Agent.antt =====
-- An agent that takes on an assignment.
use blackboard_coordination.View.Match.{to_dict}
use blackboard_coordination.Sessions.Outbox.{is_none}
use blackboard_coordination.View.Match.{int_field, iterate, text_field}
use blackboard_coordination.Base.Dict.{insert, lookup}
use blackboard_coordination.Agent.Assigned.{all_current, compare_plan, follow_plan, on_assigned}
use blackboard_coordination.Base.{◌≡◌, refl, true, ◌⊎◌, none, some, [], ◌∷◌, member}
use blackboard_coordination.Base.Int.{pos}
use blackboard_coordination.Python.Result.{ok}
use blackboard_coordination.Python.Value.{
  Value, Fields, int, str, list, nil, cons, dict, empty, entry, one_float, float_limit,
  float_of_int, py_eq, to_float, to_int, to_str,
}
use blackboard_coordination.Contracts.{Event}
use blackboard_coordination.Policy.Data.{AssignmentSnapshot}
use blackboard_coordination.Sessions.Files.{Files, read_json, same_path}
use blackboard_coordination.Sessions.Tasks.{session_path, save_session}
use blackboard_coordination.Sessions.Tasks.Session.{
  TaskSession, observed, session_to_json, assignment_from_dict, IntentSession, intent_states,
}
use blackboard_coordination.Agent.Intents.{
  JsonText, SubmitActionIntentPayload, action_candidate, build_submit_payload, fingerprint,
  intent_id_of,
}
use blackboard_coordination.Agent.Loop.{
  LoopInput, StepResult, is_replayed, proposed, submit_action_intent, take_assignment,
}
use blackboard_coordination.Agent.Step.{agent_step}
use blackboard_coordination.Agent.Laws.{agent_step-Submits, agent_step-save_session}
use blackboard_coordination.Examples.Data.{plain_builtins, event, v2}
use blackboard_coordination.Examples.Policy.{plain_arithmetic, device, engine}
use blackboard_coordination.Examples.Sessions.{plain_digest}

-- Every value has one text.
instance abbrev plain_json : JsonText
plain_json = record { canonical_json = λ v. "j" }

abbrev assignments : Value
assignments = list (
    cons
      (dict (
        entry "assignment_id" (str "a") (
          entry "slot_id" (str "s") (
            entry "device_id" (str "d") (
              entry "supporting_bid_event_id" (str "b") (
                entry "assignment_epoch" (int (pos 1)) (
                  entry "allowed_actions" (list (cons (str "stop") nil)) (
                    entry "action_template" (dict (entry "verb" (str "stop") empty))
                      (entry "completion_rule" (dict empty) empty)))))))))
      nil)

abbrev assigned_event : Event
assigned_event = event "e1" "task_assigned" "task" (
    v2 (
      entry "coordination_epoch" (int (pos 0))
        (entry "plan_id" (str "p") (entry "assignments" assignments empty))))

abbrev view : Fields
view = entry "task_revision" (int (pos 1)) (
    entry "coordination_epoch" (int (pos 0)) (
      entry "current_plan"
        (dict (entry "plan_id" (str "p") (entry "assignments" assignments empty))) empty))

abbrev submitted : SubmitActionIntentPayload
submitted = record {
  intent = record {
    intent_id = "intent:t:0:0:a:0:0:0";
    device_id = "d";
    verb = "stop";
    params = empty;
    reversible = true;
    task_id = some "t";
    extra = entry "task_revision" (int (pos 1)) (
        entry "coordination_epoch" (int (pos 0)) (
          entry "plan_id" (str "p") (
            entry "assignment_id" (str "a") (
              entry "assignment_epoch" (int (pos 1)) (
                entry "step" (int (pos 0)) (
                  entry "attempt" (int (pos 1)) (
                    entry "intent_fingerprint" (str "sha256:j")
                      (entry "skill_references" (list nil) empty))))))));
  };
  task_revision = pos 1;
  coordination_epoch = pos 0;
  plan_id = "p";
  assignment_id = "a";
  assignment_epoch = pos 1;
  step = pos 0;
  attempt = pos 1;
  intent_fingerprint = "sha256:j";
}

-- The session holds the intent already, still proposed.
abbrev before : TaskSession
before = record (observed "t" (pos 1)) { current_intent = some (proposed submitted) }

abbrev input : LoopInput
input = record {
  event = assigned_event;
  now = one_float;
  session = before;
  task_view = some view;
  agent_snapshot = device "d";
  execution_availability = [];
  skill_references = list nil;
  local_proposal = none;
}

abbrev snapshot : AssignmentSnapshot
snapshot = record {
  assignment_id = "a";
  slot_id = "s";
  device_id = "d";
  supporting_bid_event_id = "b";
  assignment_epoch = pos 1;
  allowed_actions = "stop" ∷ [];
  action_template = entry "verb" (str "stop") empty;
  completion_rule = empty;
}

abbrev after : StepResult
after = record {
  effects = submit_action_intent submitted ∷ [];
  session_after = record before {
    state = "active";
    assignment = some snapshot;
    current_intent = some (proposed submitted);
    session_version = pos 2;
  };
  consume_input = true;
}

stepped : agent_step "d" engine input ≡ ok after
unfolding lookup insert py_eq float_limit float_of_int to_str to_int to_float iterate text_field
    int_field same_path read_json to_dict is_none observed session_to_json assignment_from_dict
    fingerprint intent_id_of action_candidate build_submit_payload is_replayed take_assignment
    all_current follow_plan compare_plan on_assigned agent_step
stepped = refl

agent_step-Submits_example :
    (after.session_after.current_intent ≡ some (proposed submitted))
    × ((i : IntentSession)
        → before.current_intent ≡ some i
        → i.intent_id ≡ submitted.intent.intent_id
        → member i.state intent_states ≡ true
        → i.state ≡ "proposed")
agent_step-Submits_example = agent_step-Submits "d" engine input after submitted stepped refl

abbrev store : Files
store = (session_path "t", session_to_json before) ∷ []

stored : read_json (session_path "t") store ≡ session_to_json before
unfolding lookup insert py_eq float_limit float_of_int to_str to_int to_float iterate text_field
    int_field same_path read_json to_dict is_none observed session_to_json assignment_from_dict
    fingerprint intent_id_of action_candidate build_submit_payload is_replayed take_assignment
    all_current follow_plan compare_plan on_assigned agent_step
stored = refl

agent_step-save_session_example :
    (after.session_after ≡ before)
    ⊎ ((gs : Files) × (save_session after.session_after store ≡ ok gs))
unfolding observed
agent_step-save_session_example =
    agent_step-save_session "d" engine input after store stepped stored
