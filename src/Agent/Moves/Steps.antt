-- ===== src/Agent/Moves/Steps.antt =====
-- How each handler of the agent, and the step, moves the session.
use blackboard_coordination.Base.{
  String, refl, true, false, Option, none, some, List, [], ◌==◌, find_first, map, inr,
}
use blackboard_coordination.Base.Int.{ℤ, pos, negsuc}
use blackboard_coordination.Python.Value.{
  Builtins, Value, Fields, null, dict, empty, float, list, nil, zero_float, get_or, index, to_int,
  to_str, to_float,
}
use blackboard_coordination.View.Match.{iterate, int_field}
use blackboard_coordination.Policy.Data.{RoleSlot, AssignmentSnapshot}
use blackboard_coordination.Policy.Violations.{slot_map}
use blackboard_coordination.Policy.Bids.{Arithmetic, EligibilityBidEngine, make_bid}
use blackboard_coordination.View.Match.{to_dict}
use blackboard_coordination.Sessions.Outbox.{Digest}
use blackboard_coordination.Sessions.Tasks.Session.{TaskSession}
use blackboard_coordination.Agent.Intents.{JsonText, build_submit_payload}
use blackboard_coordination.Agent.Loop.{
  LoopInput, take_assignment, on_action_intent, on_receipt, on_safety_intercept,
  on_assignment_completed, on_replan, or_no_view,
}
use blackboard_coordination.Agent.Rounds.{
  place_bid, answer_round, on_round_opened, role_slots_of, wanted, round_with,
}
use blackboard_coordination.Agent.Assigned.{
  follow_plan, compare_plan, on_assigned, assignments_from, all_current, assignments_by_id,
  following,
}
use blackboard_coordination.Agent.Step.{agent_step}
use blackboard_coordination.Agent.Moves.{
  Gives, Gives-ok, Gives-bind, Gives-if, Gives-stays, Gives-advances, take_assignment-Moves,
  after_intent-Moves, after_receipt-Moves, after_intercept-Moves, after_completion-Moves,
  on_estop-Moves, on_end-Moves,
}

module _ ⦃py : Builtins⦄ where
  on_replan-Gives : (content : Fields) (s : TaskSession) → Gives s (on_replan content s)
  unfolding on_replan
  on_replan-Gives content s =
      Gives-bind s (int_field content "from_epoch" (negsuc 0)) _ (λ from_epoch.
        Gives-if s _ _ _ (Gives-stays s true) (
          Gives-bind s (index content "to_epoch") _
            (λ v. Gives-bind s (to_int v) _ (λ to_epoch. Gives-advances s _ refl refl))))

  module _ ⦃hash : Digest⦄ ⦃json : JsonText⦄ where
    follow_plan-Gives :
        (references : Value) (content : Fields) (revision epoch : ℤ) (s : TaskSession)
        (a : Option AssignmentSnapshot)
        → Gives s (follow_plan references content revision epoch s a)
    unfolding follow_plan
    follow_plan-Gives references content revision epoch s none =
        Gives-advances s
          (record s {
            task_revision = revision;
            coordination_epoch = epoch;
            state = "standby";
            assignment = none;
            current_intent = none;
          })
          refl refl
    follow_plan-Gives references content revision epoch s (some a) =
        Gives-bind s (index content "task_id") _ (λ task_id.
          Gives-bind s (index content "task_revision") _ (λ revision_value.
            Gives-bind s (to_int revision_value) _ (λ task_revision.
              Gives-bind s (index content "coordination_epoch") _ (λ epoch_value.
                Gives-bind s (to_int epoch_value) _ (λ coordination_epoch.
                  Gives-bind s (index content "plan_id") _ (λ plan_id.
                    Gives-bind s
                      (build_submit_payload (to_str task_id) task_revision coordination_epoch
                        (to_str plan_id) a)
                      _
                      (λ submit.
                        Gives-ok s
                          (take_assignment references (following revision epoch s) a submit)
                          (take_assignment-Moves references s revision epoch a submit))))))))

    compare_plan-Gives :
        (device_id : String) (references : Value) (content : Fields) (revision epoch : ℤ)
        (s : TaskSession) (plan : Value)
        → Gives s (compare_plan device_id references content revision epoch s plan)
    unfolding compare_plan
    compare_plan-Gives device_id references content revision epoch s (dict plan) =
        Gives-if s _ _ _ (Gives-stays s true) (
          Gives-bind s (iterate (get_or content "assignments" (list nil))) _ (λ values.
            Gives-bind s (assignments_from values) _ (λ assignments.
              Gives-bind s (iterate (get_or plan "assignments" (list nil))) _ (λ current.
                Gives-bind s (all_current (assignments_by_id [] current) assignments) _ (λ b.
                  Gives-if s _ _ _ (Gives-stays s true) (
                    follow_plan-Gives references content revision epoch s (
                      find_first (λ (a : AssignmentSnapshot). a.device_id == device_id)
                        assignments)))))))
    compare_plan-Gives device_id references content revision epoch s _ = Gives-stays s true

    on_assigned-Gives :
        (device_id : String) (input : LoopInput) → Gives input.session (on_assigned device_id input)
    unfolding on_assigned
    on_assigned-Gives device_id input =
        let s = input.session in
        let view = or_no_view input.task_view in
        let content = input.event.content in
        Gives-if s _ _ _ (Gives-stays s false) (
          Gives-if s _ _ _ (Gives-stays s true) (
            Gives-if s _ _ _ (Gives-stays s false) (
              Gives-bind s (int_field content "task_revision" (pos 0)) _ (λ revision.
                Gives-bind s (int_field content "coordination_epoch" (pos 0)) _ (λ epoch.
                  Gives-bind s (int_field view "task_revision" (pos 0)) _ (λ view_revision.
                    Gives-if s _ _ _ (Gives-stays s true) (
                      Gives-bind s (int_field view "coordination_epoch" (pos 0)) _ (λ view_epoch.
                        Gives-if s _ _ _ (Gives-stays s true) (
                          compare_plan-Gives device_id input.skill_references content revision epoch
                            s (get_or view "current_plan" null))))))))))

    module _ ⦃fp : Arithmetic⦄ where
      place_bid-Gives :
          (device_id : String) (engine : EligibilityBidEngine) (input : LoopInput) (task : Fields)
          (slots : Option (List RoleSlot))
          → Gives input.session (place_bid device_id engine input task slots)
      unfolding place_bid
      place_bid-Gives device_id engine input task none = Gives-stays input.session true
      place_bid-Gives device_id engine input task (some slots) =
          let s = input.session in
          let content = input.event.content in
          Gives-bind s (index content "task_revision") _ (λ revision_value.
            Gives-bind s (to_int revision_value) _ (λ task_revision.
              Gives-bind s (index content "coordination_epoch") _ (λ epoch_value.
                Gives-bind s (to_int epoch_value) _ (λ coordination_epoch.
                  Gives-bind s (int_field content "bid_round" (pos 1)) _ (λ bid_round.
                    Gives-bind s (index content "deadline") _ (λ deadline_value.
                      Gives-bind s (to_float deadline_value) _ (λ deadline.
                        Gives-bind s
                          (make_bid engine task slots input.agent_snapshot
                            input.execution_availability
                            (record {
                              task_revision = task_revision;
                              coordination_epoch = coordination_epoch;
                              bid_round = bid_round;
                              deadline = deadline;
                            })
                            input.now input.local_proposal)
                          _
                          (λ payload. Gives-ok s _ (record {
                            version = inr refl;
                            task = refl;
                            submits = λ p h. cc;
                          })))))))))

      answer_round-Gives :
          (device_id : String) (engine : EligibilityBidEngine) (input : LoopInput) (view : Fields)
          → Gives input.session (answer_round device_id engine input view)
      unfolding answer_round
      answer_round-Gives device_id engine input view =
          let s = input.session in
          let content = input.event.content in
          Gives-if s _ _ _ (Gives-stays s true) (
            Gives-bind s (int_field content "task_revision" (pos 0)) _ (λ revision.
              Gives-bind s (int_field view "task_revision" (pos 0)) _ (λ view_revision.
                Gives-if s _ _ _ (Gives-stays s true) (
                  Gives-bind s (to_float (get_or content "deadline" (float zero_float))) _
                    (λ deadline. Gives-if s _ _ _ (Gives-stays s true) (
                      Gives-bind s (to_dict (get_or view "task" (dict empty))) _ (λ task.
                        Gives-bind s (iterate (get_or task "role_slots" (list nil))) _
                          (λ slot_values. Gives-bind s (role_slots_of slot_values) _ (λ slots.
                            Gives-bind s (iterate (get_or content "slots" (list nil))) _ (λ ids.
                              place_bid-Gives device_id engine input task
                                (wanted (slot_map [] slots) (map to_str ids))))))))))))

      round_with-Gives :
          (device_id : String) (engine : EligibilityBidEngine) (input : LoopInput)
          (view : Option Fields)
          → Gives input.session (round_with device_id engine input view)
      unfolding round_with
      round_with-Gives device_id engine input none = Gives-stays input.session false
      round_with-Gives device_id engine input (some view) =
          answer_round-Gives device_id engine input view

      pub agent_step-Gives :
          (device_id : String) (engine : EligibilityBidEngine) (input : LoopInput)
          → Gives input.session (agent_step device_id engine input)
      unfolding agent_step on_round_opened on_action_intent on_receipt on_safety_intercept
          on_assignment_completed
      agent_step-Gives device_id engine input =
          let s = input.session in
          let content = input.event.content in
          Gives-if s _ _ _ (round_with-Gives device_id engine input input.task_view) (
            Gives-if s _ _ _ (on_assigned-Gives device_id input) (
              Gives-if s _ _ _ (Gives-ok s _ (after_intent-Moves content s s.current_intent)) (
                Gives-if s _ _ _ (Gives-ok s _ (after_receipt-Moves content s s.current_intent)) (
                  Gives-if s _ _ _ (Gives-ok s _ (after_intercept-Moves content s s.current_intent))
                    (Gives-if s _ _ _ (Gives-ok s _ (after_completion-Moves content s s.assignment))
                      (Gives-if s _ _ _ (on_replan-Gives content s) (
                        Gives-if s _ _ _ (Gives-ok s _ (on_end-Moves "done" s)) (
                          Gives-if s _ _ _ (Gives-ok s _ (on_end-Moves "failed" s)) (
                            Gives-if s _ _ _ (Gives-ok s _ (on_estop-Moves device_id content s))
                              (Gives-stays s true))))))))))
