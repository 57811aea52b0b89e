-- ===== src/View/Fold.antt =====
-- blackboard/view.py: the loop of `_task_coordination_view`, the view that it returns, and
-- `_terminal_view`.
pub mod Snoc
use blackboard_coordination.Base.{
  ℕ, String, Bool, true, false, not, ◌&&◌, Option, none, some, List, [], ◌∷◌, ◌==◌, if◌then◌else◌,
}
use blackboard_coordination.Base.Int.{ℤ, eq_ℤ}
use blackboard_coordination.Base.Dict.{sort_texts}
use blackboard_coordination.Python.Result.{Result, ok, ◌>>=◌}
use blackboard_coordination.Python.Value.{Builtins, Fields, has}
use blackboard_coordination.Contracts.{Event}
use blackboard_coordination.View.Match.{text_field, matches_task, effective_task_revisions}
use blackboard_coordination.View.Task.{TaskState, TaskStatus, done, failed, initial, apply_event}

pub record TaskView : Type 0 where
  pub task_id : String
  pub task_revision : ℤ
  pub task : Fields
  pub status : TaskStatus
  pub coordination_epoch : ℤ
  pub active_bid_round : Option Fields
  pub current_plan : Option Fields
  pub completed_assignment_ids : List String
  pub terminal_event : Option Event
  pub pending_replan_cause_ids : List String
  pub replan_pending : Bool
  pub view_version : ℕ

abbrev is_none {ℓ} : {A : Type ℓ} → Option A → Bool
is_none none = true
is_none (some a) = false

abbrev any_pending : List String → Bool
any_pending [] = false
any_pending (x ∷ xs) = true

-- What is returned after the loop.
unfoldable pub publish : String → ℤ → ℕ → TaskState → TaskView
publish task_id task_revision watermark s = record {
  task_id = task_id;
  task_revision = task_revision;
  task = s.task;
  status = s.status;
  coordination_epoch = s.coordination_epoch;
  active_bid_round = s.active_bid_round;
  current_plan = s.current_plan;
  completed_assignment_ids = sort_texts s.completed;
  terminal_event = s.terminal;
  pending_replan_cause_ids = s.pending;
  replan_pending = any_pending s.pending && is_none s.terminal;
  view_version = watermark;
}

pub record TerminalView : Type 0 where
  pub task_id : String
  pub task_revision : ℤ
  pub status : Option TaskStatus
  pub terminal_event : Option Event
  pub view_version : ℕ

module _ ⦃py : Builtins⦄ where
  -- Whether the event at hand, with its effective revision, is one of the task's.
  unfoldable pub belongs : String → ℤ → Event → ℤ → Result Bool
  belongs task_id task_revision event effective =
      if event.kind == "clue" && not (has event.content "task_revision")
      then ok (text_field event.content "task_id" == task_id && eq_ℤ effective task_revision)
      else matches_task event task_id task_revision

  -- The first terminal freezes the task.
  unfoldable pub task_step : String → ℤ → TaskState → Event → ℤ → Result TaskState
  task_step task_id task_revision s event effective = do
    matches ← belongs task_id task_revision event effective
    if matches && is_none s.terminal then apply_event s event else ok s

  -- The loop, over the events and their effective revisions.
  unfoldable pub fold_task : String → ℤ → TaskState → List Event → List ℤ → Result TaskState
  fold_task task_id task_revision s (event ∷ events) (r ∷ rs) = do
    s' ← task_step task_id task_revision s event r
    fold_task task_id task_revision s' events rs
  fold_task task_id task_revision s _ _ = ok s

  unfoldable pub task_state : List Event → String → ℤ → Result TaskState
  task_state events task_id task_revision = do
    revisions ← effective_task_revisions [] events
    fold_task task_id task_revision initial events revisions

  -- `_task_coordination_view`
  unfoldable pub task_coordination_view : List Event → String → ℤ → ℕ → Result TaskView
  task_coordination_view events task_id task_revision watermark = do
    s ← task_state events task_id task_revision
    ok (publish task_id task_revision watermark s)

  terminal_status : Option Event → Option TaskStatus
  terminal_status none = none
  terminal_status (some event) = some (if event.kind == "task_done" then done else failed)

  -- `_terminal_view`
  unfoldable pub terminal_view : List Event → String → ℤ → ℕ → Result TerminalView
  unfolding terminal_status
  terminal_view events task_id task_revision watermark = do
    view ← task_coordination_view events task_id task_revision watermark
    ok (record {
      task_id = task_id;
      task_revision = task_revision;
      status = terminal_status view.terminal_event;
      terminal_event = view.terminal_event;
      view_version = watermark;
    })
