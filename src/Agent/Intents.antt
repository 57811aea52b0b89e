-- ===== src/Agent/Intents.antt =====
-- coordination/action_executor.py: `DeterministicActionPolicy`, and coordination/models.py: the
-- payload of an intent and the events that an agent makes.
use Prim.Native.String.{◌++◌ as text_append}
use blackboard_coordination.Base.{
  String, Bool, true, not, none, some, List, [], ◌∷◌, member, if◌then◌else◌,
}
use blackboard_coordination.Base.Int.{ℤ, pos}
use blackboard_coordination.Python.Result.{Result, ok, raised, value_error, ◌>>=◌}
use blackboard_coordination.Python.Value.{
  Builtins, Value, Items, Fields, bool, int, float, str, list, nil, cons, dict, empty, entry,
  zero_float, get_or, truthy,
}
use blackboard_coordination.View.Match.{text_field}
use blackboard_coordination.Contracts.{Event}
use blackboard_coordination.Policy.Data.{
  AssignmentSnapshot, BidMetrics, BidOffer, BidPayload, CollaborationProposal,
}
use blackboard_coordination.Safety.Gate.{ActionIntent}
use blackboard_coordination.Sessions.Codec.{optional}
use blackboard_coordination.View.Match.{to_dict}
use blackboard_coordination.Sessions.Outbox.{Digest}
use blackboard_coordination.Sessions.Tasks.Session.{texts_json}

-- `canonical_json`: the text that `json.dumps` makes of a value.
pub record JsonText : Type 0 where
  pub canonical_json : Value → String

-- `ActionVerb`
abbrev pub action_verbs : List String
action_verbs =
    "move_to" ∷ "follow" ∷ "hover" ∷ "pick_place" ∷ "return_home" ∷ "stop" ∷ "formation" ∷ []

pub record ActionCandidate : Type 0 where
  pub verb : String
  pub params : Fields
  pub reversible : Bool
  pub expected_observation : Fields
  pub reason_codes : List String

pub record SubmitActionIntentPayload : Type 0 where
  pub intent : ActionIntent
  pub task_revision : ℤ
  pub coordination_epoch : ℤ
  pub plan_id : String
  pub assignment_id : String
  pub assignment_epoch : ℤ
  pub step : ℤ
  pub attempt : ℤ
  pub intent_fingerprint : String

-- The texts of an f-string, one after the other.
abbrev pub joined : List String → String
joined [] = ""
joined (s ∷ ss) = text_append s (joined ss)

module _ ⦃py : Builtins⦄ where
  -- `DeterministicActionPolicy.candidate`
  unfoldable pub action_candidate : AssignmentSnapshot → Result ActionCandidate
  action_candidate a =
      let verb = text_field a.action_template "verb" in
      if not (member verb a.allowed_actions)
      then raised value_error
      else if not (member verb action_verbs)
      then raised value_error
      else (do
        params ← to_dict (get_or a.action_template "params" (dict empty))
        expected ← to_dict (get_or a.action_template "expected_observation" (dict empty))
        ok (record {
          verb = verb;
          params = params;
          reversible = truthy (get_or a.action_template "reversible" (bool true));
          expected_observation = expected;
          reason_codes = "ASSIGNMENT_ACTION_TEMPLATE" ∷ [];
        }))

  -- `intent_id`, of step 0 and attempt 1
  unfoldable pub intent_id_of : String → ℤ → ℤ → AssignmentSnapshot → String
  intent_id_of task_id task_revision coordination_epoch a = joined (
      "intent:"
      ∷ task_id
      ∷ ":"
      ∷ py.int_text task_revision
      ∷ ":"
      ∷ py.int_text coordination_epoch
      ∷ ":"
      ∷ a.assignment_id
      ∷ ":"
      ∷ py.int_text a.assignment_epoch
      ∷ ":"
      ∷ py.int_text (pos 0)
      ∷ ":"
      ∷ py.int_text (pos 1)
      ∷ [])

  module _ ⦃hash : Digest⦄ ⦃json : JsonText⦄ where
    -- `fingerprint`
    unfoldable pub fingerprint : Fields → String
    fingerprint value = text_append "sha256:" (hash.safe_key (json.canonical_json (dict value)))

    -- `base`
    abbrev intent_base : String → ℤ → ℤ → String → AssignmentSnapshot → ActionCandidate → Fields
    intent_base task_id task_revision coordination_epoch plan_id a c =
        entry "intent_id" (str (intent_id_of task_id task_revision coordination_epoch a)) (
          entry "task_id" (str task_id) (
            entry "task_revision" (int task_revision) (
              entry "coordination_epoch" (int coordination_epoch) (
                entry "plan_id" (str plan_id) (
                  entry "assignment_id" (str a.assignment_id) (
                    entry "assignment_epoch" (int a.assignment_epoch) (
                      entry "device_id" (str a.device_id) (
                        entry "verb" (str c.verb) (
                          entry "params" (dict c.params) (
                            entry "reversible" (bool c.reversible) (
                              entry "step" (int (pos 0))
                                (entry "attempt" (int (pos 1)) empty))))))))))))

    -- `DeterministicActionPolicy.build_submit_payload`
    unfoldable pub build_submit_payload :
        String → ℤ → ℤ → String → AssignmentSnapshot → Result SubmitActionIntentPayload
    build_submit_payload task_id task_revision coordination_epoch plan_id a = do
      c ← action_candidate a
      let mark = fingerprint (intent_base task_id task_revision coordination_epoch plan_id a c)
      ok (record {
        intent = record {
          intent_id = intent_id_of task_id task_revision coordination_epoch a;
          device_id = a.device_id;
          verb = c.verb;
          params = c.params;
          reversible = c.reversible;
          task_id = some task_id;
          extra = entry "task_revision" (int task_revision) (
              entry "coordination_epoch" (int coordination_epoch) (
                entry "plan_id" (str plan_id) (
                  entry "assignment_id" (str a.assignment_id) (
                    entry "assignment_epoch" (int a.assignment_epoch) (
                      entry "step" (int (pos 0)) (
                        entry "attempt" (int (pos 1))
                          (entry "intent_fingerprint" (str mark) empty)))))));
        };
        task_revision = task_revision;
        coordination_epoch = coordination_epoch;
        plan_id = plan_id;
        assignment_id = a.assignment_id;
        assignment_epoch = a.assignment_epoch;
        step = pos 0;
        attempt = pos 1;
        intent_fingerprint = mark;
      })

-- `to_json_value` of a bid
abbrev metrics_json : BidMetrics → Value
metrics_json m = dict (
    entry "capability_match" (bool m.capability_match) (
      entry "online" (bool m.online) (
        entry "healthy" (bool m.healthy) (
          entry "idle" (bool m.idle) (
            entry "battery_margin" (float m.battery_margin) (
              entry "endurance_margin_s" (float m.endurance_margin_s) (
                entry "space_constraints_satisfied" (bool m.space_constraints_satisfied) (
                  entry "execution_available" (bool m.execution_available) (
                    entry "distance_m" (optional float m.distance_m)
                      (entry "reliability" (float m.reliability) empty))))))))))

abbrev offers_json : List BidOffer → Items
offers_json [] = nil
offers_json (o ∷ os) =
    cons
      (dict (
        entry "slot_id" (str o.slot_id) (
          entry "decision" (str o.decision) (
            entry "metrics" (metrics_json o.metrics)
              (entry "reason_codes" (list (texts_json o.reason_codes)) empty)))))
      (offers_json os)

abbrev proposal_json : CollaborationProposal → Value
proposal_json p = dict (
    entry "preferred_slot_ids" (list (texts_json p.preferred_slot_ids)) (
      entry "cooperation_summary" (str p.cooperation_summary) (
        entry "risk_notes" (list (texts_json p.risk_notes)) (
          entry "evidence_refs" (list (texts_json p.evidence_refs)) (
            entry "confidence" (float p.confidence)
              (entry "context_fingerprint" (str p.context_fingerprint) empty))))))

unfoldable pub bid_json : BidPayload → Fields
bid_json b = entry "task_id" (str b.task_id) (
    entry "task_revision" (int b.task_revision) (
      entry "coordination_epoch" (int b.coordination_epoch) (
        entry "bid_round" (int b.bid_round) (
          entry "device_id" (str b.device_id) (
            entry "offers" (list (offers_json b.offers)) (
              entry "proposal" (optional proposal_json b.proposal) (
                entry "expires_at" (float b.expires_at)
                  (entry "schema_version" (int (pos 2)) empty))))))))

module _ ⦃hash : Digest⦄ where
  -- `make_blackboard_event`, with the id that `deterministic_event_id` makes of the key
  unfoldable pub make_blackboard_event : String → String → Fields → String → String → Event
  make_blackboard_event kind ledger content origin idempotency_key = record {
    id = text_append "event:" (hash.safe_key idempotency_key);
    kind = kind;
    ledger = ledger;
    content = content;
    origin = origin;
    ts = zero_float;
    confidence = none;
    ttl = none;
    version = 0;
    idempotency_key = some idempotency_key;
    extra = empty;
    trace_carrier = [];
  }
