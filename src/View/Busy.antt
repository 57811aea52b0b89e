-- ===== src/View/Busy.antt =====
-- blackboard/view.py: `_active_assignment_map`, which task keeps each device busy.
use blackboard_coordination.Base.{String, none, some, List, [], ◌∷◌, ◌==◌, if◌then◌else◌}
use blackboard_coordination.Base.Int.{ℤ}
use blackboard_coordination.Base.Dict.{Assoc, lookup, insert, by_key}
use blackboard_coordination.Python.Result.{Result, ok, ◌>>=◌}
use blackboard_coordination.Python.Value.{Builtins, Value}
use blackboard_coordination.Contracts.{Event}
use blackboard_coordination.View.Match.{note_posted, text_field, or_empty, as_dict}
use blackboard_coordination.View.Task.{TaskState, plan_assignments}
use blackboard_coordination.View.Fold.{task_state}

-- `busy.setdefault(device_id, task_id)`
abbrev setdefault : String → String → Assoc String → Assoc String
setdefault k v m = elim (lookup k m) [ none ↦ insert k v m | some _ ↦ m ]

module _ ⦃py : Builtins⦄ where
  unfoldable pub latest_revisions : Assoc ℤ → List Event → Result (Assoc ℤ)
  latest_revisions latest [] = ok latest
  latest_revisions latest (event ∷ events) = do
    latest' ← note_posted latest event
    latest_revisions latest' events

  unfoldable pub mark_busy : String → Assoc String → List Value → Result (Assoc String)
  mark_busy task_id busy [] = ok busy
  mark_busy task_id busy (v ∷ vs) = do
    assignment ← as_dict v
    let device_id = text_field assignment "device_id"
    mark_busy task_id (if device_id == "" then busy else setdefault device_id task_id busy) vs

  busy_in : String → Assoc String → TaskState → Result (Assoc String)
  busy_in task_id busy s = elim s.terminal [
    | some _ ↦ ok busy
    | none ↦ do
      assignments ← plan_assignments (or_empty s.current_plan)
      mark_busy task_id busy assignments
  ]

  unfoldable pub busy_tasks : List Event → Assoc String → Assoc ℤ → Result (Assoc String)
  unfolding busy_in
  busy_tasks events busy [] = ok busy
  busy_tasks events busy ((task_id, revision) ∷ tasks) = do
    s ← task_state events task_id revision
    busy' ← busy_in task_id busy s
    busy_tasks events busy' tasks

  -- `_active_assignment_map`
  unfoldable pub active_assignment_map : List Event → Result (Assoc String)
  active_assignment_map events = do
    latest ← latest_revisions [] events
    busy_tasks events [] (by_key latest)
