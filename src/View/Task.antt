-- ===== src/View/Task.antt =====
-- blackboard/view.py: the steps of `_task_coordination_view`, one for each type of event.
use blackboard_coordination.Base.{
  String, Bool, true, false, not, ◌&&◌, ◌||◌, Option, none, some, List, [], ◌∷◌, ◌++◌, ◌==◌,
  if◌then◌else◌, member, subset, keep,
}
use blackboard_coordination.Base.Int.{ℤ, pos, negsuc, eq_ℤ, ltb_ℤ, ◌+ℤ◌}
use blackboard_coordination.Python.Result.{Result, ok, ◌>>=◌}
use blackboard_coordination.Python.Value.{
  Builtins, Value, Fields, null, str, list, nil, get_or, truthy, to_str, py_eq, empty,
}
use blackboard_coordination.Contracts.{Event}
use blackboard_coordination.Validation.Common.{is_v2_content}
use blackboard_coordination.View.Match.{
  iterate, as_dict, or_empty, is_filled, text_field, int_field,
}

pub data TaskStatus : Type 0 where
  unknown posted bidding assigned running replanning done failed : TaskStatus

-- The local variables of the loop: the entries of `view` that change, `completed` and `pending`.
-- `terminal` is the event that the five `terminal_*` entries are read from.
pub record TaskState : Type 0 where
  pub task : Fields
  pub status : TaskStatus
  pub coordination_epoch : ℤ
  pub active_bid_round : Option Fields
  pub current_plan : Option Fields
  pub completed : List String
  pub pending : List String
  pub terminal : Option Event

abbrev pub initial : TaskState
initial = record {
  task = empty;
  status = unknown;
  coordination_epoch = pos 0;
  active_bid_round = none;
  current_plan = none;
  completed = [];
  pending = [];
  terminal = none;
}

-- `[item for item in pending if item not in consumed]`
abbrev pub without : List String → List String → List String
without consumed pending = keep (λ s. not (member s consumed)) pending

-- `cause in pending`: only a text equals a text.
abbrev pub in_texts : Value → List String → Bool
in_texts (str s) texts = member s texts
in_texts _ texts = false

abbrev expected_epoch : ℤ → ℤ
expected_epoch current = if eq_ℤ current (pos 0) then pos 1 else current

abbrev pub same_plan : Fields → Fields → Bool
same_plan a b = py_eq (get_or a "plan_id" null) (get_or b "plan_id" null)

unfoldable pub on_task_posted : TaskState → Event → TaskState
on_task_posted s event =
    if is_filled s.task then s else record s { task = event.content; status = posted }

unfoldable pub on_task_terminal : TaskState → Event → TaskState
on_task_terminal s event = record s {
  terminal = some event;
  active_bid_round = none;
  status = if event.kind == "task_done" then done else failed;
  pending = [];
}

unfoldable pub on_clue : TaskState → Event → TaskState
on_clue s event =
    if member event.id s.pending then s else record s { pending = s.pending ++ event.id ∷ [] }

module _ ⦃py : Builtins⦄ where
  unfoldable pub on_bid_round_opened : TaskState → Event → Result TaskState
  on_bid_round_opened s event = do
    epoch ← int_field event.content "coordination_epoch" (pos 0)
    round_number ← int_field event.content "bid_round" (pos 1)
    active_round ← int_field (or_empty s.active_bid_round) "bid_round" (pos 0)
    ok (
        if eq_ℤ epoch (expected_epoch s.coordination_epoch)
          && not (is_filled (or_empty s.current_plan))
          && ltb_ℤ active_round round_number
        then record s {
          coordination_epoch = epoch;
          active_bid_round = some event.content;
          status = bidding;
        }
        else s)

  -- `{str(item) for item in content.get(name, [])}`
  unfoldable pub text_set : Fields → String → Result (List String)
  text_set content name = do values ← iterate (get_or content name (list nil)); ok (texts values)
    where
      texts : List Value → List String
      texts [] = []
      texts (v ∷ vs) = to_str v ∷ texts vs

  unfoldable pub commit_plan : TaskState → Event → ℤ → Result TaskState
  commit_plan s event epoch = do
    consumed ← text_set event.content "input_evidence_refs"
    ok (record s {
      completed = if same_plan (or_empty s.current_plan) event.content then s.completed else [];
      coordination_epoch = epoch;
      current_plan = some event.content;
      active_bid_round = none;
      status = assigned;
      pending = without consumed s.pending;
    })

  unfoldable pub on_task_assigned : TaskState → Event → Result TaskState
  unfolding commit_plan
  on_task_assigned s event = do
    epoch ← int_field event.content "coordination_epoch" (pos 0)
    let previous_plan = or_empty s.current_plan
    if not (eq_ℤ epoch s.coordination_epoch)
        then ok s
        else if is_v2_content event.content && not (is_filled (or_empty s.active_bid_round))
        then ok s
        else if is_filled previous_plan && not (same_plan previous_plan event.content)
        then ok s
        else commit_plan s event epoch

  unfoldable pub on_action_intent : TaskState → Event → Result TaskState
  on_action_intent s event =
      if same_plan event.content (or_empty s.current_plan)
      then (do
        epoch ← int_field event.content "coordination_epoch" (negsuc 0)
        ok (if eq_ℤ epoch s.coordination_epoch then record s { status = running } else s))
      else ok s

  -- `next((item for item in assignments if str(item.get("assignment_id", "")) == id), None)`
  unfoldable pub find_assignment : String → List Value → Result (Option Fields)
  find_assignment assignment_id [] = ok none
  find_assignment assignment_id (v ∷ vs) =
      let rest = find_assignment assignment_id vs in
      do
        item ← as_dict v
        if text_field item "assignment_id" == assignment_id then ok (some item) else rest

  -- `plan.get("assignments", [])`
  abbrev pub plan_assignments : Fields → Result (List Value)
  plan_assignments plan = iterate (get_or plan "assignments" (list nil))

  complete : TaskState → String → TaskState
  complete s assignment_id =
      if not (assignment_id == "") && not (member assignment_id s.completed)
      then record s { completed = s.completed ++ assignment_id ∷ [] }
      else s

  complete_in : TaskState → Event → Option Fields → Result TaskState
  unfolding complete
  complete_in s event none = ok s
  complete_in s event (some assignment) = do
    declared ← int_field event.content "assignment_epoch" (negsuc 0)
    planned ← int_field assignment "assignment_epoch" (negsuc 1)
    ok (if eq_ℤ declared planned then complete s (text_field event.content "assignment_id") else s)

  complete_plan : TaskState → Event → Fields → Result TaskState
  unfolding complete_in
  complete_plan s event plan = do
    epoch ← int_field event.content "coordination_epoch" (negsuc 0)
    plan_epoch ← int_field plan "coordination_epoch" (negsuc 1)
    if not (eq_ℤ epoch plan_epoch) then ok s else (do
      assignments ← plan_assignments plan
      assignment ← find_assignment (text_field event.content "assignment_id") assignments
      complete_in s event assignment)

  unfoldable pub on_assignment_completed : TaskState → Event → Result TaskState
  unfolding complete_plan
  on_assignment_completed s event = elim s.current_plan [
    | none ↦ ok s
    | some plan ↦ if same_plan event.content plan then complete_plan s event plan else ok s
  ]

  -- `consumed`, with the cause added when there is one
  abbrev pub with_cause : Value → List String → List String
  with_cause cause consumed = if truthy cause then to_str cause ∷ consumed else consumed

  unfoldable pub on_task_replan : TaskState → Event → Result TaskState
  on_task_replan s event = do
    from_epoch ← int_field event.content "from_epoch" (negsuc 0)
    to_epoch ← int_field event.content "to_epoch" (negsuc 0)
    if not (eq_ℤ from_epoch s.coordination_epoch) || not (eq_ℤ to_epoch (from_epoch +ℤ pos 1))
        then ok s
        else (do
          refs ← text_set event.content "evidence_refs"
          let cause = get_or event.content "cause_event_id" null
          let consumed = with_cause cause refs
          ok (
              if in_texts cause s.pending && subset consumed s.pending
              then record s {
                pending = without consumed s.pending;
                coordination_epoch = to_epoch;
                active_bid_round = none;
                current_plan = none;
                completed = [];
                status = replanning;
              }
              else s))

  -- `{str(item.get("assignment_id", "")) for item in assignments if item.get("assignment_id")}`
  unfoldable pub assignment_ids : List Value → Result (List String)
  assignment_ids [] = ok []
  assignment_ids (v ∷ vs) = do
    item ← as_dict v
    rest ← assignment_ids vs
    ok (
        if truthy (get_or item "assignment_id" null)
        then text_field item "assignment_id" ∷ rest
        else rest)

  abbrev pub is_nil : List String → Bool
  is_nil [] = true
  is_nil (x ∷ xs) = false

  -- Whether a v2 `task_done` ends the task.
  unfoldable pub done_is_due : TaskState → Event → Result Bool
  done_is_due s event = do
    let plan = or_empty s.current_plan
    assignments ← plan_assignments plan
    expected ← assignment_ids assignments
    ok (
        is_filled plan
        && same_plan event.content plan
        && not (is_nil expected)
        && subset expected s.completed)

  unfoldable pub on_terminal : TaskState → Event → Result TaskState
  on_terminal s event =
      if is_v2_content event.content
      then (do
        epoch ← int_field event.content "coordination_epoch" (negsuc 0)
        if not (eq_ℤ epoch s.coordination_epoch)
            then ok s
            else if event.kind == "task_done"
            then (do due ← done_is_due s event; ok (if due then on_task_terminal s event else s))
            else ok (on_task_terminal s event))
      else ok (on_task_terminal s event)

  -- The chain of `if event_type == ...`, for an event of the task.
  unfoldable pub apply_event : TaskState → Event → Result TaskState
  apply_event s event =
      if event.kind == "task_posted"
      then ok (on_task_posted s event)
      else if event.kind == "bid_round_opened"
      then on_bid_round_opened s event
      else if event.kind == "task_assigned"
      then on_task_assigned s event
      else if event.kind == "action_intent"
      then on_action_intent s event
      else if event.kind == "assignment_completed"
      then on_assignment_completed s event
      else if event.kind == "clue"
      then ok (on_clue s event)
      else if event.kind == "task_replan"
      then on_task_replan s event
      else if event.kind == "task_done" || event.kind == "task_failed"
      then on_terminal s event
      else ok s
