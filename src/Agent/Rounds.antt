-- ===== src/Agent/Rounds.antt =====
-- coordination/agent_loop.py: the answer to a bid round.
use blackboard_coordination.Base.{
  String, true, false, not, Option, none, some, List, [], ◌∷◌, map, if◌then◌else◌,
}
use blackboard_coordination.Base.Int.{pos, eq_ℤ}
use blackboard_coordination.Base.Dict.{Assoc, lookup}
use blackboard_coordination.Python.Result.{Result, ok, ◌>>=◌}
use blackboard_coordination.Python.Value.{
  Builtins, Value, Fields, null, bool, float, list, nil, dict, empty, zero_float, get_or, index,
  to_int, to_float, to_str, truthy, float_lt,
}
use blackboard_coordination.View.Match.{as_dict, iterate, text_field, int_field}
use blackboard_coordination.Policy.Data.{RoleSlot, BidPayload}
use blackboard_coordination.Policy.Violations.{slot_map}
use blackboard_coordination.Policy.Bids.{Arithmetic, EligibilityBidEngine, make_bid}
use blackboard_coordination.View.Match.{to_dict}
use blackboard_coordination.Sessions.Outbox.{Digest, is_none}
use blackboard_coordination.Sessions.Tasks.Session.{TaskSession}
use blackboard_coordination.Agent.Intents.{bid_json, make_blackboard_event, joined}
use blackboard_coordination.Agent.Loop.{
  LoopInput, StepResult, append_blackboard_event, no_effect, bumped,
}

module _ ⦃py : Builtins⦄ where
  -- `RoleSlot.from_dict`
  unfoldable pub role_slot_from_dict : Value → Result RoleSlot
  role_slot_from_dict v = do
    value ← as_dict v
    required ← iterate (get_or value "required_capability_ids" (list nil))
    actions ← iterate (get_or value "allowed_actions" (list nil))
    action_template ← to_dict (get_or value "action_template" (dict empty))
    completion_rule ← to_dict (get_or value "completion_rule" (dict empty))
    ok (record {
      slot_id = text_field value "slot_id";
      required_capability_ids = required;
      exclusive = truthy (get_or value "exclusive" (bool true));
      allowed_actions = map to_str actions;
      action_template = action_template;
      completion_rule = completion_rule;
    })

  abbrev pub role_slots_of : List Value → Result (List RoleSlot)
  role_slots_of [] = ok []
  role_slots_of (v ∷ vs) = do s ← role_slot_from_dict v; rest ← role_slots_of vs; ok (s ∷ rest)

  -- `[slots_by_id[slot_id] for slot_id in requested_ids]`, or none where one is missing
  abbrev pub requested_slots : Assoc RoleSlot → List String → Option (List RoleSlot)
  requested_slots slots [] = some []
  requested_slots slots (slot_id ∷ ids) = elim (lookup slot_id slots) [
    | none ↦ none
    | some s ↦ elim (requested_slots slots ids) [ none ↦ none | some rest ↦ some (s ∷ rest) ]
  ]

  -- No slot is requested, or one that the task does not have.
  abbrev pub wanted : Assoc RoleSlot → List String → Option (List RoleSlot)
  wanted slots [] = none
  wanted slots (slot_id ∷ ids) = requested_slots slots (slot_id ∷ ids)

  module _ ⦃hash : Digest⦄ where
    -- The session once the bid is made.
    abbrev pub bidding : TaskSession → BidPayload → TaskSession
    bidding s b = bumped (record s {
      task_revision = b.task_revision;
      coordination_epoch = b.coordination_epoch;
      state = "standby";
    })

    abbrev bid_key : String → BidPayload → String
    bid_key device_id b = joined (
        "bid:"
        ∷ b.task_id
        ∷ ":"
        ∷ py.int_text b.task_revision
        ∷ ":"
        ∷ py.int_text b.coordination_epoch
        ∷ ":"
        ∷ py.int_text b.bid_round
        ∷ ":"
        ∷ device_id
        ∷ [])

    module _ ⦃fp : Arithmetic⦄ where
      -- The bid, once the slots are known.
      unfoldable pub place_bid :
          String
          → EligibilityBidEngine
          → LoopInput
          → Fields
          → Option (List RoleSlot)
          → Result StepResult
      place_bid device_id engine input task none = ok (no_effect input.session true)
      place_bid device_id engine input task (some role_slots) = do
        let content = input.event.content
        revision_value ← index content "task_revision"
        task_revision ← to_int revision_value
        epoch_value ← index content "coordination_epoch"
        coordination_epoch ← to_int epoch_value
        bid_round ← int_field content "bid_round" (pos 1)
        deadline_value ← index content "deadline"
        deadline ← to_float deadline_value
        payload ←
            make_bid engine task role_slots input.agent_snapshot input.execution_availability
              (record {
                task_revision = task_revision;
                coordination_epoch = coordination_epoch;
                bid_round = bid_round;
                deadline = deadline;
              })
              input.now input.local_proposal
        ok (record {
          effects =
              append_blackboard_event (
                make_blackboard_event "bid" "task" (bid_json payload) device_id
                  (bid_key device_id payload))
              ∷ [];
          session_after = bidding input.session payload;
          consume_input = true;
        })

      -- What follows the first check of a round: the view is there.
      unfoldable pub answer_round :
          String → EligibilityBidEngine → LoopInput → Fields → Result StepResult
      answer_round device_id engine input view =
          let content = input.event.content in
          let s = input.session in
          if not (is_none (get_or view "terminal_event_id" null))
          then ok (no_effect s true)
          else (do
            revision ← int_field content "task_revision" (pos 0)
            view_revision ← int_field view "task_revision" (pos 0)
            if not (eq_ℤ revision view_revision) then ok (no_effect s true) else (do
              deadline ← to_float (get_or content "deadline" (float zero_float))
              if float_lt deadline input.now then ok (no_effect s true) else (do
                task ← to_dict (get_or view "task" (dict empty))
                slot_values ← iterate (get_or task "role_slots" (list nil))
                slots ← role_slots_of slot_values
                ids ← iterate (get_or content "slots" (list nil))
                place_bid device_id engine input task
                    (wanted (slot_map [] slots) (map to_str ids)))))

      unfoldable pub round_with :
          String → EligibilityBidEngine → LoopInput → Option Fields → Result StepResult
      round_with device_id engine input none = ok (no_effect input.session false)
      round_with device_id engine input (some view) = answer_round device_id engine input view

      -- `_on_bid_round_opened` of the loop
      unfoldable pub on_round_opened : String → EligibilityBidEngine → LoopInput → Result StepResult
      on_round_opened device_id engine input = round_with device_id engine input input.task_view
