-- ===== src/Examples/Tasks.antt =====
-- The theorems on streams and tasks, at the streams that a board commits.
use blackboard_coordination.Board.Gate.Assigned.{append-assigned}
use blackboard_coordination.Base.{if◌then◌else◌, length, ◌+◌}
use blackboard_coordination.Python.Result.{ok}
use blackboard_coordination.Base.Int.{pos, ◌+ℤ◌}
use blackboard_coordination.Board.Contract.{terminal_key}
use blackboard_coordination.Python.Value.{py_eq, to_int, to_str, get_or, null}
use blackboard_coordination.Validation.Common.{is_v2_content}
use blackboard_coordination.View.Match.{or_empty, iterate, int_field, text_field}
use blackboard_coordination.Base.{
  if◌then◌else◌, ◌≡◌, refl, ℕ, List, [], ◌∷◌, some, none, get_elem?, String,
}
use blackboard_coordination.Board.State.{Board, new_board}
use blackboard_coordination.Board.Gate.Passed.{TaskAfter}
use blackboard_coordination.Board.Gate.Progress.{append-failed, append-done, append-replan}
use blackboard_coordination.Board.Append.{append, committed_at}
use blackboard_coordination.Board.History.Steps.{Reach, here, next, appends}
use blackboard_coordination.Board.History.Indexes.{WellIndexed, Reach-WellIndexed}
use blackboard_coordination.Contracts.{Event}
use blackboard_coordination.Board.History.Unique.{
  Reach-id_unique, Reach-key_unique, Reach-terminal_unique, Reach-keeps,
}
use blackboard_coordination.Board.Append.Cases.{Cases, append-Cases}
use blackboard_coordination.Examples.Data.{
  plain_builtins, board_of, appended_by, replan, clock, posted, failed, done, clue, round, plan,
  completed,
}
use blackboard_coordination.Examples.History.{
  before_failed, ended, ended_events, posted_first, finishing, replanning, AllCommit-Reach, failing,
  finished, round_opened, before_round, before_round-Reach, round_opened-Commits, finished-Reach,
}
use blackboard_coordination.View.Task.{same_plan, text_set, TaskStatus, without, with_cause}
use blackboard_coordination.Board.Append.Idempotence.{restamped, duplicate_of}
use blackboard_coordination.Board.History.Repeats.{append-append}

abbrev before_replan : Board
before_replan = board_of 3 (posted ∷ clue ∷ []) new_board

abbrev before_done : Board
before_done = board_of 3 (posted ∷ round ∷ plan ∷ completed ∷ []) new_board

append-failed_example : TaskAfter (appended_by 3 before_failed failed).board failed (λ t.
    (t.terminal ≡ some (committed_at (clock 3) failed before_failed))
    × (t.status ≡ TaskStatus.failed))
unfolding is_v2_content py_eq
append-failed_example =
    append-failed (clock 3) before_failed failed (appended_by 3 before_failed failed) failing.1.0.0
      failing.1.0.1 refl refl

append-done_example : TaskAfter (appended_by 3 before_done done).board done (λ t.
    (t.terminal ≡ some (committed_at (clock 3) done before_done)) × (t.status ≡ TaskStatus.done))
unfolding is_v2_content py_eq
append-done_example =
    append-done (clock 3) before_done done (appended_by 3 before_done done) finishing.1.1.1.1.0.0
      finishing.1.1.1.1.0.1 refl refl

append-replan_example : TaskAfter before_replan replan (λ s.
    TaskAfter (appended_by 3 before_replan replan).board replan (λ t.
      (refs : List String) × (text_set replan.content "evidence_refs" ≡ ok refs)
      × (t ≡ record s {
        pending = without (with_cause (get_or replan.content "cause_event_id" null) refs) s.pending;
        coordination_epoch = s.coordination_epoch +ℤ pos 1;
        active_bid_round = none;
        current_plan = none;
        completed = [];
        status = TaskStatus.replanning;
      })))
unfolding is_v2_content py_eq
append-replan_example =
    append-replan (clock 3) before_replan replan (appended_by 3 before_replan replan)
      replanning.1.1.0.0 replanning.1.1.0.1 refl refl

append-append_example :
    append (clock 5) finished (restamped 9 (clock 7) round)
    ≡ ok (record {
      board = finished;
      result = duplicate_of round_opened.result round;
      caller = restamped (length before_round.events + 1) (clock 3) round;
    })
append-append_example =
    append-append 9 (clock 7) (clock 3) (clock 5) before_round finished round round_opened
      before_round-Reach round_opened-Commits.0 round_opened-Commits.1 finished-Reach

ended-Reach : Reach new_board ended
ended-Reach = AllCommit-Reach 3 new_board (posted ∷ failed ∷ []) here failing

Reach-WellIndexed_example : WellIndexed ended
Reach-WellIndexed_example = Reach-WellIndexed ended-Reach

abbrev last_offset : ℕ
last_offset = 1

abbrev last : Event
last = committed_at (clock 3) failed before_failed

first_stands : get_elem? before_failed.events 0 ≡ some (committed_at (clock 3) posted new_board)
first_stands = posted_first

last_stands : get_elem? ended.events last_offset ≡ some last
last_stands = rw ended_events refl

last_key : terminal_key last ≡ ok (some ("t", pos 1))
unfolding terminal_key text_field int_field to_str to_int
last_key = refl

Reach-id_unique_example : last_offset ≡ last_offset
Reach-id_unique_example =
    Reach-id_unique last_offset last_offset last last ended-Reach last_stands last_stands refl

Reach-key_unique_example : last_offset ≡ last_offset
Reach-key_unique_example =
    Reach-key_unique last_offset last_offset last last "e4" ended-Reach last_stands last_stands refl
      refl

Reach-terminal_unique_example : last_offset ≡ last_offset
Reach-terminal_unique_example =
    Reach-terminal_unique last_offset last_offset last last ("t", pos 1) ended-Reach last_stands
      last_stands last_key last_key

Reach-keeps_example : get_elem? ended.events 0 ≡ some (committed_at (clock 3) posted new_board)
Reach-keeps_example =
    Reach-keeps 0 (committed_at (clock 3) posted new_board)
      (next here (appends (clock 3) failed (appended_by 3 before_failed failed) failing.1.0.0))
      first_stands

append-Cases_example : Cases (clock 3) before_failed failed (appended_by 3 before_failed failed)
append-Cases_example =
    append-Cases (clock 3) before_failed failed (appended_by 3 before_failed failed) failing.1.0.0

abbrev before_plan : Board
before_plan = board_of 3 (posted ∷ round ∷ []) new_board

no_evidence : text_set plan.content "input_evidence_refs" ≡ ok []
unfolding text_set iterate
no_evidence = refl

append-assigned_example : TaskAfter before_plan plan (λ s.
    TaskAfter (appended_by 3 before_plan plan).board plan (λ t. t ≡ record s {
      completed = if same_plan (or_empty s.current_plan) plan.content then s.completed else [];
      current_plan = some plan.content;
      active_bid_round = none;
      status = TaskStatus.assigned;
      pending = without [] s.pending;
    }))
unfolding is_v2_content py_eq
append-assigned_example =
    append-assigned (clock 3) before_plan plan (appended_by 3 before_plan plan) [] finishing.1.1.0.0
      finishing.1.1.0.1 refl refl no_evidence
