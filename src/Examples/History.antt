-- ===== src/Examples/History.antt =====
-- Three streams that a board commits: a task that fails, one that is planned anew, one that is
-- done; and a legacy event that no fold can read.
use blackboard_coordination.Validation.Outcomes.{
  validate_clue, validate_event_contract, validate_v2_payload, validate_versioned,
}
use blackboard_coordination.Validation.Rounds.{validate_bid_round, validate_task_posted}
use blackboard_coordination.Validation.Actions.{validate_assignment_completed}
use blackboard_coordination.Validation.Plans.{
  validate_assignment, validate_task_assigned, validate_task_done, validate_task_failed,
  validate_task_replan,
}
use blackboard_coordination.Validation.Common.{
  is_v2_content, present_int, present_number, validate_present_common_fields,
  validate_schema_version, validate_task_scope, validate_v1,
}
use blackboard_coordination.Validation.Required.{
  is_finite_number, is_nonempty_string, is_string_list, number_at_least, required_int,
  required_list, required_nonempty_string, required_number,
}
use blackboard_coordination.Python.Json.{insert_key, same_text, sort_keys}
use blackboard_coordination.Base.Dict.{insert, lookup, remove, sort_texts}
use blackboard_coordination.Python.Text.{has_text, is_space, upper}
use blackboard_coordination.Board.Gate.{
  gate_assigned, gate_bid_round, gate_by_type, gate_done, gate_legacy, gate_posted, gate_replan,
  gate_view, validate_plan_context, validate_v2_transition,
}
use blackboard_coordination.Python.Value.{
  empty, float_limit, float_of_int, py_eq, to_float, to_int, to_str,
}
use blackboard_coordination.View.Match.{
  effective_revision, effective_task_revisions, int_field, iterate, matches_task, note_posted,
  revision, text_field,
}
use blackboard_coordination.Board.Contract.{
  canonical_event, same_event, terminal_key, validate_envelope, validate_event,
}
use blackboard_coordination.View.Fold.{
  belongs, fold_task, publish, task_coordination_view, task_state, task_step,
}
use blackboard_coordination.View.Task.{
  apply_event, assignment_ids, commit_plan, done_is_due, find_assignment, on_assignment_completed,
  on_bid_round_opened, on_clue, on_task_assigned, on_task_posted, on_task_replan, on_task_terminal,
  on_terminal, text_set,
}
use blackboard_coordination.Base.{get_elem?, some, ◌≡◌, refl, ℕ, List, [], ◌∷◌}
use blackboard_coordination.Python.Result.{ok}
use blackboard_coordination.Contracts.{Event, appended}
use blackboard_coordination.Board.State.{
  Board, new_board, rejection, result_for_existing, terminal_at,
}
use blackboard_coordination.Board.Append.{
  committed_at, append, commit, deliver, find_existing, stamp_caller, Outcome,
}
use blackboard_coordination.Examples.Data.{
  event, v2, plain_builtins, clock, posted, failed, appended_by, clue, replan, round, plan,
  completed, done, poison, board_of,
}
use blackboard_coordination.Board.History.Steps.{Reach, next, appends, here}

-- The append at the time `n` does not raise, and commits its event.
abbrev pub Commits : ℕ → Board → Event → Type 0
Commits n b e =
    (append (clock n) b e ≡ ok (appended_by n b e)) × ((appended_by n b e).result.status ≡ appended)

abbrev pub AllCommit : ℕ → Board → List Event → Type 0
AllCommit n b [] = Unit
AllCommit n b (e ∷ es) = Commits n b e × AllCommit n (appended_by n b e).board es

pub AllCommit-Reach :
    {a : Board} (n : ℕ) (b : Board) (es : List Event)
    → Reach a b
    → AllCommit n b es
    → Reach a (board_of n es b)
AllCommit-Reach n b [] r all = r
AllCommit-Reach n b (e ∷ es) r ((ran, status), all) =
    AllCommit-Reach n (appended_by n b e).board es
      (next r (appends (clock n) e (appended_by n b e) ran)) all

pub failing : AllCommit 3 new_board (posted ∷ failed ∷ [])
unfolding sort_texts lookup insert remove insert_key sort_keys same_text py_eq float_limit
    float_of_int to_str to_int to_float is_space has_text upper stamp_caller deliver commit
    find_existing append validate_plan_context gate_legacy gate_posted gate_bid_round gate_assigned
    gate_replan gate_done gate_by_type gate_view validate_v2_transition terminal_at
    result_for_existing rejection canonical_event same_event validate_envelope terminal_key
    validate_event validate_assignment_completed validate_assignment validate_task_assigned
    validate_task_replan validate_task_done validate_task_failed validate_clue validate_v2_payload
    validate_versioned validate_event_contract validate_task_posted validate_bid_round is_v2_content
    present_int present_number validate_present_common_fields validate_v1 validate_schema_version
    validate_task_scope is_finite_number is_nonempty_string is_string_list required_nonempty_string
    required_int number_at_least required_number required_list iterate text_field int_field revision
    matches_task note_posted effective_revision effective_task_revisions on_task_posted
    on_task_terminal on_clue on_bid_round_opened text_set commit_plan on_task_assigned
    find_assignment on_assignment_completed on_task_replan assignment_ids done_is_due on_terminal
    apply_event publish belongs task_step fold_task task_state task_coordination_view
failing = ((refl, refl), ((refl, refl), tt))

pub replanning : AllCommit 3 new_board (posted ∷ clue ∷ replan ∷ [])
unfolding sort_texts lookup insert remove insert_key sort_keys same_text py_eq float_limit
    float_of_int to_str to_int to_float is_space has_text upper stamp_caller deliver commit
    find_existing append validate_plan_context gate_legacy gate_posted gate_bid_round gate_assigned
    gate_replan gate_done gate_by_type gate_view validate_v2_transition terminal_at
    result_for_existing rejection canonical_event same_event validate_envelope terminal_key
    validate_event validate_assignment_completed validate_assignment validate_task_assigned
    validate_task_replan validate_task_done validate_task_failed validate_clue validate_v2_payload
    validate_versioned validate_event_contract validate_task_posted validate_bid_round is_v2_content
    present_int present_number validate_present_common_fields validate_v1 validate_schema_version
    validate_task_scope is_finite_number is_nonempty_string is_string_list required_nonempty_string
    required_int number_at_least required_number required_list iterate text_field int_field revision
    matches_task note_posted effective_revision effective_task_revisions on_task_posted
    on_task_terminal on_clue on_bid_round_opened text_set commit_plan on_task_assigned
    find_assignment on_assignment_completed on_task_replan assignment_ids done_is_due on_terminal
    apply_event publish belongs task_step fold_task task_state task_coordination_view
replanning = ((refl, refl), ((refl, refl), ((refl, refl), tt)))

pub finishing : AllCommit 3 new_board (posted ∷ round ∷ plan ∷ completed ∷ done ∷ [])
unfolding sort_texts lookup insert remove insert_key sort_keys same_text py_eq float_limit
    float_of_int to_str to_int to_float is_space has_text upper stamp_caller deliver commit
    find_existing append validate_plan_context gate_legacy gate_posted gate_bid_round gate_assigned
    gate_replan gate_done gate_by_type gate_view validate_v2_transition terminal_at
    result_for_existing rejection canonical_event same_event validate_envelope terminal_key
    validate_event validate_assignment_completed validate_assignment validate_task_assigned
    validate_task_replan validate_task_done validate_task_failed validate_clue validate_v2_payload
    validate_versioned validate_event_contract validate_task_posted validate_bid_round is_v2_content
    present_int present_number validate_present_common_fields validate_v1 validate_schema_version
    validate_task_scope is_finite_number is_nonempty_string is_string_list required_nonempty_string
    required_int number_at_least required_number required_list iterate text_field int_field revision
    matches_task note_posted effective_revision effective_task_revisions on_task_posted
    on_task_terminal on_clue on_bid_round_opened text_set commit_plan on_task_assigned
    find_assignment on_assignment_completed on_task_replan assignment_ids done_is_due on_terminal
    apply_event publish belongs task_step fold_task task_state task_coordination_view
finishing = ((refl, refl), ((refl, refl), ((refl, refl), ((refl, refl), ((refl, refl), tt)))))

pub poisoning : AllCommit 3 new_board (poison ∷ posted ∷ [])
unfolding sort_texts lookup insert remove insert_key sort_keys same_text py_eq float_limit
    float_of_int to_str to_int to_float is_space has_text upper stamp_caller deliver commit
    find_existing append validate_plan_context gate_legacy gate_posted gate_bid_round gate_assigned
    gate_replan gate_done gate_by_type gate_view validate_v2_transition terminal_at
    result_for_existing rejection canonical_event same_event validate_envelope terminal_key
    validate_event validate_assignment_completed validate_assignment validate_task_assigned
    validate_task_replan validate_task_done validate_task_failed validate_clue validate_v2_payload
    validate_versioned validate_event_contract validate_task_posted validate_bid_round is_v2_content
    present_int present_number validate_present_common_fields validate_v1 validate_schema_version
    validate_task_scope is_finite_number is_nonempty_string is_string_list required_nonempty_string
    required_int number_at_least required_number required_list iterate text_field int_field revision
    matches_task note_posted effective_revision effective_task_revisions on_task_posted
    on_task_terminal on_clue on_bid_round_opened text_set commit_plan on_task_assigned
    find_assignment on_assignment_completed on_task_replan assignment_ids done_is_due on_terminal
    apply_event publish belongs task_step fold_task task_state task_coordination_view
poisoning = ((refl, refl), ((refl, refl), tt))

abbrev pub before_failed : Board
before_failed = board_of 3 (posted ∷ []) new_board

abbrev pub ended : Board
ended = board_of 3 (posted ∷ failed ∷ []) new_board

pub posted_first : get_elem? before_failed.events 0 ≡ some (committed_at (clock 3) posted new_board)
unfolding sort_texts lookup insert remove insert_key sort_keys same_text py_eq float_limit
    float_of_int to_str to_int to_float is_space has_text upper stamp_caller deliver commit
    find_existing append validate_plan_context gate_legacy gate_posted gate_bid_round gate_assigned
    gate_replan gate_done gate_by_type gate_view validate_v2_transition terminal_at
    result_for_existing rejection canonical_event same_event validate_envelope terminal_key
    validate_event validate_assignment_completed validate_assignment validate_task_assigned
    validate_task_replan validate_task_done validate_task_failed validate_clue validate_v2_payload
    validate_versioned validate_event_contract validate_task_posted validate_bid_round is_v2_content
    present_int present_number validate_present_common_fields validate_v1 validate_schema_version
    validate_task_scope is_finite_number is_nonempty_string is_string_list required_nonempty_string
    required_int number_at_least required_number required_list iterate text_field int_field revision
    matches_task note_posted effective_revision effective_task_revisions on_task_posted
    on_task_terminal on_clue on_bid_round_opened text_set commit_plan on_task_assigned
    find_assignment on_assignment_completed on_task_replan assignment_ids done_is_due on_terminal
    apply_event publish belongs task_step fold_task task_state task_coordination_view
posted_first = refl

-- What stands in the stream of the task that fails.
pub ended_events :
    ended.events
    ≡ committed_at (clock 3) posted new_board ∷ committed_at (clock 3) failed before_failed ∷ []
unfolding sort_texts lookup insert remove insert_key sort_keys same_text py_eq float_limit
    float_of_int to_str to_int to_float is_space has_text upper stamp_caller deliver commit
    find_existing append validate_plan_context gate_legacy gate_posted gate_bid_round gate_assigned
    gate_replan gate_done gate_by_type gate_view validate_v2_transition terminal_at
    result_for_existing rejection canonical_event same_event validate_envelope terminal_key
    validate_event validate_assignment_completed validate_assignment validate_task_assigned
    validate_task_replan validate_task_done validate_task_failed validate_clue validate_v2_payload
    validate_versioned validate_event_contract validate_task_posted validate_bid_round is_v2_content
    present_int present_number validate_present_common_fields validate_v1 validate_schema_version
    validate_task_scope is_finite_number is_nonempty_string is_string_list required_nonempty_string
    required_int number_at_least required_number required_list iterate text_field int_field revision
    matches_task note_posted effective_revision effective_task_revisions on_task_posted
    on_task_terminal on_clue on_bid_round_opened text_set commit_plan on_task_assigned
    find_assignment on_assignment_completed on_task_replan assignment_ids done_is_due on_terminal
    apply_event publish belongs task_step fold_task task_state task_coordination_view
ended_events = refl

-- The stream that begins with the event that no fold can read, and a further event.
pub poisoned_events :
    (board_of 3 (poison ∷ posted ∷ []) new_board).events
    ≡ committed_at (clock 3) poison new_board
      ∷ committed_at (clock 3) posted (board_of 3 (poison ∷ []) new_board)
      ∷ []
unfolding sort_texts lookup insert remove insert_key sort_keys same_text py_eq float_limit
    float_of_int to_str to_int to_float is_space has_text upper stamp_caller deliver commit
    find_existing append validate_plan_context gate_legacy gate_posted gate_bid_round gate_assigned
    gate_replan gate_done gate_by_type gate_view validate_v2_transition terminal_at
    result_for_existing rejection canonical_event same_event validate_envelope terminal_key
    validate_event validate_assignment_completed validate_assignment validate_task_assigned
    validate_task_replan validate_task_done validate_task_failed validate_clue validate_v2_payload
    validate_versioned validate_event_contract validate_task_posted validate_bid_round is_v2_content
    present_int present_number validate_present_common_fields validate_v1 validate_schema_version
    validate_task_scope is_finite_number is_nonempty_string is_string_list required_nonempty_string
    required_int number_at_least required_number required_list iterate text_field int_field revision
    matches_task note_posted effective_revision effective_task_revisions on_task_posted
    on_task_terminal on_clue on_bid_round_opened text_set commit_plan on_task_assigned
    find_assignment on_assignment_completed on_task_replan assignment_ids done_is_due on_terminal
    apply_event publish belongs task_step fold_task task_state task_coordination_view
poisoned_events = refl

-- An end of the task without its reason.
abbrev pub bare : Event
bare = event "e9" "task_failed" "task" (v2 empty)

pub bare_refused :
    append (clock 3) (board_of 3 (poison ∷ posted ∷ []) new_board) bare
    ≡ ok (appended_by 3 (board_of 3 (poison ∷ posted ∷ []) new_board) bare)
unfolding sort_texts lookup insert remove insert_key sort_keys same_text py_eq float_limit
    float_of_int to_str to_int to_float is_space has_text upper stamp_caller deliver commit
    find_existing append validate_plan_context gate_legacy gate_posted gate_bid_round gate_assigned
    gate_replan gate_done gate_by_type gate_view validate_v2_transition terminal_at
    result_for_existing rejection canonical_event same_event validate_envelope terminal_key
    validate_event validate_assignment_completed validate_assignment validate_task_assigned
    validate_task_replan validate_task_done validate_task_failed validate_clue validate_v2_payload
    validate_versioned validate_event_contract validate_task_posted validate_bid_round is_v2_content
    present_int present_number validate_present_common_fields validate_v1 validate_schema_version
    validate_task_scope is_finite_number is_nonempty_string is_string_list required_nonempty_string
    required_int number_at_least required_number required_list iterate text_field int_field revision
    matches_task note_posted effective_revision effective_task_revisions on_task_posted
    on_task_terminal on_clue on_bid_round_opened text_set commit_plan on_task_assigned
    find_assignment on_assignment_completed on_task_replan assignment_ids done_is_due on_terminal
    apply_event publish belongs task_step fold_task task_state task_coordination_view
bare_refused = refl

-- The board on which the round is opened, what that append leaves, and the board when the task is done.
abbrev pub before_round : Board
before_round = (appended_by 3 new_board posted).board

abbrev pub round_opened : Outcome
round_opened = appended_by 3 before_round round

abbrev pub finished : Board
finished = board_of 3 (plan ∷ completed ∷ done ∷ []) round_opened.board

pub before_round-Reach : Reach new_board before_round
before_round-Reach = AllCommit-Reach 3 new_board (posted ∷ []) here (finishing.0, tt)

pub round_opened-Commits : Commits 3 before_round round
round_opened-Commits = finishing.1.0

pub finished-Reach : Reach round_opened.board finished
finished-Reach =
    AllCommit-Reach 3 round_opened.board (plan ∷ completed ∷ done ∷ []) here finishing.1.1
