-- ===== src/Publisher.antt =====
-- coordination/publisher.py: an event goes to the outbox, then to the board, and out of the outbox.
pub mod Once
use blackboard_coordination.Base.{
  ℕ, String, Bool, true, false, Option, none, some, ◌==◌, if◌then◌else◌,
}
use blackboard_coordination.Base.Int.{ℤ, pos}
use blackboard_coordination.Python.Result.{Exn, Result, ok, raised, value_error}
use blackboard_coordination.Python.Value.{Builtins, Value, Float, int, str, dict, empty, entry}
use blackboard_coordination.Contracts.{
  Event, AppendResult, AppendStatus, appended, duplicate_same, rejected, key_conflict,
  terminal_conflict,
}
use blackboard_coordination.Board.State.{Board}
use blackboard_coordination.Board.Append.{Outcome, append}
use blackboard_coordination.Sessions.Files.{Files}
use blackboard_coordination.Sessions.Codec.{optional}
use blackboard_coordination.Sessions.Outbox.{Digest, Owner, stage, resolve, refuse}

-- `DurableEventPublisher` over an outbox of a store: the callables are `stage`, `resolve` and, where
-- `rejects` says so, `refuse` of the outbox. The board answers with the `AppendResult` of the
-- contracts; `normalize_append_result` rebuilds it as that of coordination/models.py, field by field
-- and with the same values, so one record stands for both.
pub record DurableEventPublisher : Type 0 where
  pub owner : Owner
  pub source_offset : Option ℤ
  pub rejects : Bool
  pub auto_resolve_success : Bool

-- What a call ends with: a result, `PermanentAppendError`, `AppendConflictError`, or the exception
-- of a call.
pub data Published : Type 0 where
  returned : AppendResult → Published
  permanent_append_error : AppendResult → Published
  append_conflict_error : AppendResult → Published
  failed : Exn → Published

-- The board and the files that a call leaves, and how it ends.
pub record Publication : Type 0 where
  pub board : Board
  pub files : Files
  pub ending : Published

abbrev status_text : AppendStatus → String
status_text appended = "appended"
status_text duplicate_same = "duplicate_same"
status_text rejected = "rejected"
status_text key_conflict = "key_conflict"
status_text terminal_conflict = "terminal_conflict"

abbrev natural : ℕ → Value
natural n = int (pos n)

-- `to_json_value` of the answer
abbrev result_json : AppendResult → Value
result_json r = dict (
    entry "status" (str (status_text r.status)) (
      entry "offset" (optional natural r.offset) (
        entry "version" (optional natural r.version) (
          entry "event_id" (str r.event_id) (
            entry "existing_event_id" (optional str r.existing_event_id)
              (entry "reason_code" (optional str r.reason_code) empty))))))

module _ ⦃py : Builtins⦄ ⦃hash : Digest⦄ where
  abbrev or_raised : Board → Files → AppendResult → Result Files → Publication
  or_raised b fs r (ok gs) = record { board = b; files = gs; ending = permanent_append_error r }
  or_raised b fs r (raised x) = record { board = b; files = fs; ending = failed x }

  -- What follows the answer of the board, by its status.
  unfoldable pub settle :
      DurableEventPublisher → String → Board → Files → AppendResult → AppendStatus → Publication
  settle p key b fs r appended = record {
    board = b;
    files = if p.auto_resolve_success then resolve p.owner key fs else fs;
    ending = returned r;
  }
  settle p key b fs r duplicate_same = record {
    board = b;
    files = if p.auto_resolve_success then resolve p.owner key fs else fs;
    ending = returned r;
  }
  settle p key b fs r rejected =
      if p.rejects
      then or_raised b fs r (refuse p.owner key (result_json r) fs)
      else record { board = b; files = fs; ending = permanent_append_error r }
  settle p key b fs r key_conflict = record {
    board = b;
    files = fs;
    ending = append_conflict_error r;
  }
  settle p key b fs r terminal_conflict = record { board = b; files = fs; ending = returned r }

  unfoldable pub answered :
      DurableEventPublisher → String → Board → Files → Result Outcome → Publication
  answered p key b fs (raised x) = record { board = b; files = fs; ending = failed x }
  answered p key b fs (ok o) = settle p key o.board fs o.result o.result.status

  unfoldable pub submitted_from :
      DurableEventPublisher → String → Float → Board → Files × Result Event → Publication
  submitted_from p key now b (fs, raised x) = record { board = b; files = fs; ending = failed x }
  submitted_from p key now b (fs, ok c) = answered p key b fs (append now b c)

  unfoldable pub publish_keyed :
      DurableEventPublisher → Float → Event → Board → Files → Option String → Publication
  publish_keyed p now e b fs none = record { board = b; files = fs; ending = failed value_error }
  publish_keyed p now e b fs (some key) =
      if key == ""
      then record { board = b; files = fs; ending = failed value_error }
      else submitted_from p key now b (stage p.owner e p.source_offset fs)

  -- `publish`
  unfoldable pub publish : DurableEventPublisher → Float → Event → Board → Files → Publication
  publish p now e b fs = publish_keyed p now e b fs e.idempotency_key
