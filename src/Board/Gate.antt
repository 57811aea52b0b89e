-- ===== src/Board/Gate.antt =====
-- blackboard/board.py: `_validate_v2_transition_locked`, which lets an event that changes the
-- state of a task in only if it fits the state folded from the committed events.
pub mod Laws
pub mod Passed
pub mod Progress
pub mod Assigned
use blackboard_coordination.Base.{
  String, Bool, true, false, not, ◌&&◌, ◌||◌, Option, none, some, List, [], ◌∷◌, ◌==◌, member,
  subset, any, length, if◌then◌else◌,
}
use blackboard_coordination.Base.Int.{ℤ, pos, negsuc, eq_ℤ, ltb_ℤ, ◌+ℤ◌}
use blackboard_coordination.Python.Result.{
  Result, ok, raised, Check, pass, reject, reject_if, ◌and_then◌, ◌>>=◌,
}
use blackboard_coordination.Python.Value.{Builtins, Fields, null, get_or, index, to_int, py_eq}
use blackboard_coordination.Contracts.{Event}
use blackboard_coordination.Validation.Common.{is_v2_content}
use blackboard_coordination.View.Match.{text_field, int_field, or_empty, is_filled}
use blackboard_coordination.View.Task.{
  in_texts, text_set, plan_assignments, assignment_ids, find_assignment,
}
use blackboard_coordination.View.Fold.{TaskView, task_coordination_view}

abbrev pub state_gated_v2_types : List String
state_gated_v2_types =
    "task_posted" ∷ "bid_round_opened" ∷ "task_assigned" ∷ "action_intent" ∷ "task_replan"
    ∷ "task_done" ∷ "task_failed" ∷ []

abbrev pub legacy_state_types : List String
legacy_state_types = "task_assigned" ∷ "safety_intercept" ∷ "task_done" ∷ []

abbrev pub has_event : Option Event → Bool
has_event none = false
has_event (some e) = true

module _ ⦃py : Builtins⦄ where
  -- `int(content[name])`
  abbrev pub int_at : Fields → String → Result ℤ
  int_at content name = do v ← index content name; to_int v

  -- `if int(content[name]) != n: return code`
  abbrev pub int_is : Fields → String → ℤ → String → Check
  int_is content name n code = do m ← int_at content name; reject_if (not (eq_ℤ m n)) code

  -- `set(content[name])`, of a list of texts
  abbrev pub texts_at : Fields → String → Result (List String)
  texts_at content name = do v ← index content name; text_set content name

  -- `not current_plan or content["plan_id"] != current_plan.get("plan_id")`
  abbrev pub other_plan : Fields → Fields → Result Bool
  other_plan content plan =
      if is_filled plan
      then (do v ← index content "plan_id"; ok (not (py_eq v (get_or plan "plan_id" null))))
      else ok true

  abbrev pub reject_when : Result Bool → String → Check
  reject_when (ok b) code = reject_if b code
  reject_when (raised e) code = raised e

  assignment_check : Fields → Option Fields → Check
  assignment_check content none = reject "ASSIGNMENT_CONTEXT_MISMATCH"
  assignment_check content (some assignment) = do
    declared ← int_at content "assignment_epoch"
    planned ← int_field assignment "assignment_epoch" (negsuc 0)
    reject_if (not (eq_ℤ declared planned)) "ASSIGNMENT_CONTEXT_MISMATCH"

  -- `_validate_plan_context`
  unfoldable pub validate_plan_context : Fields → ℤ → Fields → Check
  unfolding assignment_check
  validate_plan_context content current_epoch plan =
      int_is content "coordination_epoch" current_epoch "COORDINATION_EPOCH_MISMATCH"
      and_then reject_when (other_plan content plan) "PLAN_CONTEXT_MISMATCH"
      and_then (do
        assignments ← plan_assignments plan
        assignment ← find_assignment (text_field content "assignment_id") assignments
        assignment_check content assignment)

  -- `existing` posts the task, at whatever revision.
  posts : String → Event → Bool
  posts task_id existing =
      existing.kind == "task_posted" && text_field existing.content "task_id" == task_id

  -- The gate of an event that is not v2.
  unfoldable pub gate_legacy : List Event → Event → Check
  unfolding posts
  gate_legacy events e =
      let task_id = text_field e.content "task_id" in
      if not (member e.kind legacy_state_types)
      then pass
      else reject_if
          (not (task_id == "")
            && any (λ existing. posts task_id existing && is_v2_content existing.content) events)
          "SCHEMA_VERSION_REQUIRED"

  unfoldable pub gate_posted : List Event → String → ℤ → Check
  unfolding posts
  gate_posted [] task_id task_revision = pass
  gate_posted (existing ∷ events) task_id task_revision =
      let rest = gate_posted events task_id task_revision in
      if posts task_id existing
      then (do
        r ← int_field existing.content "task_revision" (pos 1)
        if eq_ℤ r task_revision then reject "TASK_REVISION_ALREADY_POSTED" else rest)
      else rest

  round_advances : Fields → Fields → ℤ → Check
  round_advances content active epoch = do
    active_epoch ← int_field active "coordination_epoch" (pos 0)
    active_number ← int_field active "bid_round" (pos 0)
    if eq_ℤ epoch active_epoch
        then (do
          n ← int_at content "bid_round"
          reject_if (not (ltb_ℤ active_number n)) "BID_ROUND_NOT_ADVANCING")
        else pass

  unfoldable pub gate_bid_round : Fields → TaskView → Check
  unfolding round_advances
  gate_bid_round content view =
      let current = view.coordination_epoch in
      let active = or_empty view.active_bid_round in
      int_is content "coordination_epoch" (if eq_ℤ current (pos 0) then pos 1 else current)
        "COORDINATION_EPOCH_MISMATCH"
      and_then reject_if (is_filled (or_empty view.current_plan)) "TASK_PLAN_ALREADY_COMMITTED"
      and_then (do
        epoch ← int_at content "coordination_epoch"
        if is_filled active then round_advances content active epoch else pass)

  unfoldable pub gate_assigned : Fields → TaskView → Check
  gate_assigned content view =
      int_is content "coordination_epoch" view.coordination_epoch "COORDINATION_EPOCH_MISMATCH"
      and_then reject_if (not (is_filled (or_empty view.active_bid_round))) "BID_ROUND_NOT_ACTIVE"
      and_then reject_if (is_filled (or_empty view.current_plan)) "TASK_PLAN_ALREADY_COMMITTED"

  unfoldable pub gate_replan : Fields → TaskView → Check
  gate_replan content view =
      let pending = view.pending_replan_cause_ids in
      int_is content "from_epoch" view.coordination_epoch "COORDINATION_EPOCH_MISMATCH"
      and_then int_is content "to_epoch" (view.coordination_epoch +ℤ pos 1) "EPOCH_RELATION_INVALID"
      and_then (do
        cause ← index content "cause_event_id"
        reject_if (not (in_texts cause pending)) "REPLAN_CAUSE_NOT_PENDING")
      and_then (do
        refs ← texts_at content "evidence_refs"
        reject_if (not (subset refs pending)) "REPLAN_EVIDENCE_NOT_PENDING")

  abbrev pub none_left : List String → Bool
  none_left [] = true
  none_left (x ∷ xs) = false

  unfoldable pub gate_done : Fields → TaskView → Check
  gate_done content view =
      let plan = or_empty view.current_plan in
      let completed = view.completed_assignment_ids in
      int_is content "coordination_epoch" view.coordination_epoch "COORDINATION_EPOCH_MISMATCH"
      and_then reject_when (other_plan content plan) "TASK_DONE_PLAN_MISMATCH"
      and_then (do
        assignments ← plan_assignments plan
        expected ← assignment_ids assignments
        declared ← texts_at content "completed_assignment_ids"
        reject_if
            (none_left expected
              || not (subset expected completed)
              || not (subset declared completed && subset completed declared))
            "TASK_DONE_COMPLETION_INCOMPLETE")

  -- The chain of `if event_type == ...`, with the task's view at hand.
  unfoldable pub gate_by_type : Event → TaskView → Check
  gate_by_type e view =
      if e.kind == "bid_round_opened"
      then gate_bid_round e.content view
      else if e.kind == "task_assigned"
      then gate_assigned e.content view
      else if e.kind == "action_intent"
      then validate_plan_context e.content view.coordination_epoch (or_empty view.current_plan)
      else if e.kind == "task_replan"
      then gate_replan e.content view
      else if e.kind == "task_done"
      then gate_done e.content view
      else if e.kind == "task_failed"
      then int_is e.content "coordination_epoch" view.coordination_epoch
          "COORDINATION_EPOCH_MISMATCH"
      else pass

  unfoldable pub gate_view : Event → TaskView → Check
  gate_view e view =
      reject_if (not (is_filled view.task)) "TASK_REVISION_NOT_FOUND"
      and_then reject_if (has_event view.terminal_event) "TASK_ALREADY_TERMINAL"
      and_then gate_by_type e view

  gate_v2 : List Event → Event → Check
  gate_v2 events e = do
    let task_id = text_field e.content "task_id"
    task_revision ← int_field e.content "task_revision" (pos 1)
    if e.kind == "task_posted" then gate_posted events task_id task_revision else (do
      view ← task_coordination_view events task_id task_revision (length events)
      gate_view e view)

  -- `_validate_v2_transition_locked`
  unfoldable pub validate_v2_transition : List Event → Event → Check
  unfolding gate_v2
  validate_v2_transition events e =
      if not (is_v2_content e.content)
      then gate_legacy events e
      else if not (member e.kind state_gated_v2_types)
      then pass
      else gate_v2 events e
