-- ===== src/Examples/Poison.antt =====
-- A legacy event that the fold cannot read, and what the board then does.
use blackboard_coordination.Python.Value.{py_eq, to_int, to_str}
use blackboard_coordination.Validation.Common.{is_v2_content}
use blackboard_coordination.View.Match.{int_field, revision, text_field}
use blackboard_coordination.Base.{◌≡◌, refl, ◌≢◌, List, [], ◌∷◌, true}
use blackboard_coordination.Base.Int.{pos}
use blackboard_coordination.Python.Result.{ok}
use blackboard_coordination.Examples.Data.{
  plain_builtins, posted, poison, appended_by, board_of, clock,
}
use blackboard_coordination.Examples.History.{poisoned_events, bare, bare_refused}
use blackboard_coordination.Contracts.{Event, appended}
use blackboard_coordination.Board.Poison.{IsPoison, task_state-poisoned, append-poisoned}
use blackboard_coordination.Board.State.{Board, new_board}
use blackboard_coordination.View.Fold.{task_state}
use blackboard_coordination.Board.Gate.Passed.{is_checked}
use blackboard_coordination.Board.Append.{committed_at}
use blackboard_coordination.View.Task.{initial}

abbrev first : Event
first = committed_at (clock 3) poison new_board

first-IsPoison : IsPoison "t" first
unfolding is_v2_content py_eq text_field int_field revision to_str to_int
first-IsPoison = record {
  kind = refl;
  legacy = refl;
  task = refl;
  first_revision = refl;
  no_epoch = refl;
  number = pos 7;
  refs = refl;
}

abbrev poisoned : Board
poisoned = board_of 3 (poison ∷ posted ∷ []) new_board

abbrev others : List Event
others = committed_at (clock 3) posted (board_of 3 (poison ∷ []) new_board) ∷ []

task_state-poisoned_example : task_state (first ∷ others) "t" (pos 1) ≢ ok initial
task_state-poisoned_example = task_state-poisoned others initial first-IsPoison

is_checked-bare : is_checked bare ≡ true
is_checked-bare = refl

of_task : text_field bare.content "task_id" ≡ "t"
unfolding text_field to_str
of_task = refl

of_revision : int_field bare.content "task_revision" (pos 1) ≡ ok (pos 1)
unfolding int_field to_int
of_revision = refl

is_v2_bare : is_v2_content bare.content ≡ true
unfolding is_v2_content py_eq
is_v2_bare = refl

append-poisoned_example : (appended_by 3 poisoned bare).result.status ≢ appended
append-poisoned_example =
    append-poisoned others (clock 3) poisoned bare (appended_by 3 poisoned bare) first-IsPoison
      poisoned_events is_v2_bare is_checked-bare of_task of_revision bare_refused
