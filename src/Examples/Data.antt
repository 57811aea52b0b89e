-- ===== src/Examples/Data.antt =====
-- Events of a task `t` of one slot, from its posting to its end.
use blackboard_coordination.Base.{ℕ, String, none, some, List, [], ◌∷◌, Bool}
use blackboard_coordination.Base.Int.{pos}
use blackboard_coordination.Python.Value.{
  Builtins, Float, finite, Fields, int, str, list, dict, nil, cons, empty, entry, zero_float, bool,
}
use blackboard_coordination.Python.Result.{Result, ok, raised}
use blackboard_coordination.Contracts.{Event}
use blackboard_coordination.Board.State.{Board, new_board, rejection}
use blackboard_coordination.Board.Append.{Outcome, append}

-- Built-ins that read no number from a text.
instance abbrev pub plain_builtins : Builtins
plain_builtins = record {
  repr = λ v. "[]";
  parse_int = λ s. none;
  parse_float = λ s. none;
  int_text = λ n. "0";
}

abbrev pub clock : ℕ → Float
clock n = finite (pos n) 0

abbrev pub event : String → String → String → Fields → Event
event id kind ledger content = record {
  id = id;
  kind = kind;
  ledger = ledger;
  content = content;
  origin = "d";
  ts = zero_float;
  confidence = none;
  ttl = none;
  version = 0;
  idempotency_key = some id;
  extra = empty;
  trace_carrier = [];
}

abbrev pub v2 : Fields → Fields
v2 fields =
    entry "schema_version" (int (pos 2))
      (entry "task_id" (str "t") (entry "task_revision" (int (pos 1)) fields))

abbrev number : String → ℕ → Fields → Fields
number name n = entry name (int (pos n))

abbrev text : String → String → Fields → Fields
text name s = entry name (str s)

abbrev no_texts : String → Fields → Fields
no_texts name = entry name (list nil)

abbrev pub posted : Event
posted = event "e1" "task_posted" "task" (v2 empty)

abbrev pub clue : Event
clue = event "e2" "clue" "evidence" (v2 (text "clue_id" "c" empty))

abbrev pub replan : Event
replan = event "e3" "task_replan" "task" (
    v2 (
      number "from_epoch" 0
        (number "to_epoch" 1 (text "cause_event_id" "e2" (no_texts "evidence_refs" empty)))))

abbrev pub failed : Event
failed = event "e4" "task_failed" "task" (
    v2 (
      number "coordination_epoch" 0 (
        text "reason_code" "r" (
          text "failed_component" "c" (
            no_texts "related_event_ids"
              (entry "retryable" (bool Bool.false) (number "failed_at" 4 empty)))))))

abbrev pub round : Event
round = event "e5" "bid_round_opened" "task" (
    v2 (
      number "coordination_epoch" 1 (
        number "bid_round" 1
          (entry "slots" (list (cons (str "s") nil)) (number "deadline" 9 empty)))))

abbrev pub plan : Event
plan = event "e6" "task_assigned" "task" (
    v2 (
      number "coordination_epoch" 1 (
        text "plan_id" "p" (
          entry "assignments"
            (list (
              cons
                (dict (
                  text "assignment_id" "a" (
                    text "slot_id" "s" (
                      text "device_id" "d" (
                        text "supporting_bid_event_id" "b" (
                          number "assignment_epoch" 1 (
                            no_texts "allowed_actions" (
                              entry "action_template" (dict empty)
                                (entry "completion_rule" (dict empty) empty)))))))))
                nil))
            empty))))

abbrev pub completed : Event
completed = event "e7" "assignment_completed" "task" (
    v2 (
      number "coordination_epoch" 1 (
        number "assignment_epoch" 1 (
          text "plan_id" "p" (
            text "assignment_id" "a" (
              text "device_id" "d" (
                text "receipt_id" "r" (
                  no_texts "completion_evidence"
                    (number "final_progress" 1 (number "completed_at" 7 empty))))))))))

abbrev pub done : Event
done = event "e8" "task_done" "task" (
    v2 (
      number "coordination_epoch" 1 (
        text "plan_id" "p" (
          entry "completed_assignment_ids" (list (cons (str "a") nil))
            (no_texts "completion_evidence" (number "completed_at" 8 empty))))))

-- A legacy plan whose evidence is a number.
abbrev pub poison : Event
poison =
    event "e0" "task_assigned" "task" (text "task_id" "t" (number "input_evidence_refs" 7 empty))

-- What an append answers, when it does not raise.
abbrev pub outcome : Event → Result Outcome → Outcome
outcome e (ok o) = o
outcome e (raised x) = record { board = new_board; result = rejection e.id "RAISED"; caller = e }

abbrev pub appended_by : ℕ → Board → Event → Outcome
appended_by n b e = outcome e (append (clock n) b e)

abbrev pub board_of : ℕ → List Event → Board → Board
board_of n [] b = b
board_of n (e ∷ es) b = board_of n es (appended_by n b e).board
