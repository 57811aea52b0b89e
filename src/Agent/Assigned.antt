-- ===== src/Agent/Assigned.antt =====
-- coordination/agent_loop.py: what an agent does with a committed plan.
use blackboard_coordination.Base.{
  String, Bool, true, false, not, ◌||◌, Option, none, some, List, [], ◌∷◌, ◌==◌, find_first,
  if◌then◌else◌,
}
use blackboard_coordination.Base.Int.{ℤ, pos, eq_ℤ, ltb_ℤ}
use blackboard_coordination.Base.Dict.{Assoc, lookup, insert}
use blackboard_coordination.Python.Result.{Result, ok, ◌>>=◌}
use blackboard_coordination.Python.Value.{
  Builtins, Value, Fields, null, list, nil, dict, get_or, index, to_int, to_str, truthy,
}
use blackboard_coordination.View.Match.{as_dict, iterate, text_field, int_field}
use blackboard_coordination.Policy.Data.{AssignmentSnapshot}
use blackboard_coordination.Sessions.Outbox.{Digest, is_none}
use blackboard_coordination.Sessions.Tasks.Session.{TaskSession, assignment_from_dict}
use blackboard_coordination.Agent.Intents.{JsonText, build_submit_payload}
use blackboard_coordination.Agent.Loop.{
  LoopInput, StepResult, no_effect, bumped, take_assignment, or_no_view,
}

module _ ⦃py : Builtins⦄ where
  -- The assignments of a plan, by id; `if isinstance(value, dict)`.
  abbrev pub assignments_by_id : Assoc Fields → List Value → Assoc Fields
  assignments_by_id m [] = m
  assignments_by_id m (dict value ∷ vs) =
      assignments_by_id (insert (text_field value "assignment_id") value m) vs
  assignments_by_id m (_ ∷ vs) = assignments_by_id m vs

  abbrev pub assignments_from : List Value → Result (List AssignmentSnapshot)
  assignments_from [] = ok []
  assignments_from (v ∷ vs) = do
    value ← as_dict v
    a ← assignment_from_dict value
    rest ← assignments_from vs
    ok (a ∷ rest)

  abbrev pub is_current : Option Fields → AssignmentSnapshot → Result Bool
  is_current none a = ok false
  is_current (some current) a =
      if not (text_field current "device_id" == a.device_id) then ok false else (do
        epoch ← int_field current "assignment_epoch" (pos 0)
        ok (eq_ℤ epoch a.assignment_epoch))

  -- The loop that compares the assignments with the current plan.
  unfoldable pub all_current : Assoc Fields → List AssignmentSnapshot → Result Bool
  all_current plan [] = ok true
  all_current plan (a ∷ rest_of) =
      let rest = all_current plan rest_of in
      do b ← is_current (lookup a.assignment_id plan) a; if b then rest else ok false

  -- The first line of the assignment's branch: the session follows the plan.
  abbrev pub following : ℤ → ℤ → TaskSession → TaskSession
  following revision epoch s =
      bumped (record s { task_revision = revision; coordination_epoch = epoch })

  abbrev pub standing_by : TaskSession → TaskSession
  standing_by s = record s { state = "standby"; assignment = none; current_intent = none }

  module _ ⦃hash : Digest⦄ ⦃json : JsonText⦄ where
    -- The session follows the plan, and takes on the assignment of this device if there is one.
    unfoldable pub follow_plan :
        Value → Fields → ℤ → ℤ → TaskSession → Option AssignmentSnapshot → Result StepResult
    follow_plan references content revision epoch s none =
        ok (no_effect (standing_by (following revision epoch s)) true)
    follow_plan references content revision epoch s (some a) = do
      task_id ← index content "task_id"
      revision_value ← index content "task_revision"
      task_revision ← to_int revision_value
      epoch_value ← index content "coordination_epoch"
      coordination_epoch ← to_int epoch_value
      plan_id ← index content "plan_id"
      submit ←
          build_submit_payload (to_str task_id) task_revision coordination_epoch (to_str plan_id) a
      ok (take_assignment references (following revision epoch s) a submit)

    -- The comparison of the event with the current plan of the task.
    unfoldable pub compare_plan :
        String → Value → Fields → ℤ → ℤ → TaskSession → Value → Result StepResult
    compare_plan device_id references content revision epoch s (dict plan) =
        if not (text_field content "plan_id" == text_field plan "plan_id")
        then ok (no_effect s true)
        else (do
          values ← iterate (get_or content "assignments" (list nil))
          assignments ← assignments_from values
          current ← iterate (get_or plan "assignments" (list nil))
          b ← all_current (assignments_by_id [] current) assignments
          if not b
              then ok (no_effect s true)
              else follow_plan references content revision epoch s
                  (find_first (λ (a : AssignmentSnapshot). a.device_id == device_id) assignments))
    compare_plan device_id references content revision epoch s _ = ok (no_effect s true)

    -- `_on_task_assigned` of the loop
    unfoldable pub on_assigned : String → LoopInput → Result StepResult
    on_assigned device_id input =
        let view = or_no_view input.task_view in
        let content = input.event.content in
        let s = input.session in
        if not (truthy (dict view))
        then ok (no_effect s false)
        else if not (is_none (get_or view "terminal_event_id" null))
        then ok (no_effect s true)
        else if truthy (get_or view "replan_pending" null)
        then ok (no_effect s false)
        else (do
          revision ← int_field content "task_revision" (pos 0)
          epoch ← int_field content "coordination_epoch" (pos 0)
          view_revision ← int_field view "task_revision" (pos 0)
          if not (eq_ℤ revision view_revision) then ok (no_effect s true) else (do
            view_epoch ← int_field view "coordination_epoch" (pos 0)
            if not (eq_ℤ epoch view_epoch) || ltb_ℤ epoch s.coordination_epoch
                then ok (no_effect s true)
                else compare_plan device_id input.skill_references content revision epoch s
                    (get_or view "current_plan" null)))
