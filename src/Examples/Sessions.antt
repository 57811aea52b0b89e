-- ===== src/Examples/Sessions.antt =====
-- The durable state of a process: an outbox with a staged event, and a saved session.
use blackboard_coordination.View.Match.{int_field, iterate, text_field}
use blackboard_coordination.Base.Dict.{insert, lookup}
use blackboard_coordination.Base.{
  ◌≡◌, refl, true, false, not, ◌&&◌, ◌||◌, none, some, [], if◌then◌else◌,
}
use blackboard_coordination.Base.Int.{ℤ, pos, negsuc, ltb_ℤ}
use blackboard_coordination.Python.Result.{Result, ok, raised, value_error}
use blackboard_coordination.Python.Value.{
  null, float_limit, float_of_int, py_eq, to_float, to_int, to_str,
}
use blackboard_coordination.Contracts.{Event}
use blackboard_coordination.Sessions.Files.{
  Files, path_exists, read_json, any_file, of_task, atomic_write_json, remove_task, same_path,
  unlink,
}
use blackboard_coordination.Sessions.Codec.{
  event_to_dict, event_from_dict, optional_float, optional_text, record_from_dict, record_to_dict,
  to_ledger,
}
use blackboard_coordination.View.Match.{to_dict}
use blackboard_coordination.Sessions.Codec.Roundtrip.{unstamped, event_from_dict-event_to_dict}
use blackboard_coordination.Sessions.Outbox.{
  Digest, stage, refuse, outbox_path, load_consumer_offset, save_consumer_offset, is_none, resolve,
}
use blackboard_coordination.Sessions.Outbox.Staging.{stage-refuse}
use blackboard_coordination.Sessions.Tasks.{
  task_root, session_path, load_session, save_session, cleanup_task, may_replace,
  remove_raw_receipt, store_raw_receipt,
}
use blackboard_coordination.Sessions.Tasks.Cleanup.{cleanup_task_lem}
use blackboard_coordination.Sessions.Tasks.Session.{
  TaskSession, observed, session_to_json, assignment_from_dict, intent_from_dict, session_from_json,
  to_state,
}
use blackboard_coordination.Sessions.Tasks.Session.Roundtrip.{IsKnown}
use blackboard_coordination.Sessions.Steps.{
  Scope, Run, here, next, saves_offset, saves_session, cleans_task,
}
use blackboard_coordination.Sessions.Steps.Offsets.{Run-AtLeast}
use blackboard_coordination.Sessions.Steps.Pending.{Run-stage, Unsettled}
use blackboard_coordination.Sessions.Steps.Versions.{load_session-save_session, Run-version}
use blackboard_coordination.Examples.Data.{plain_builtins, clue, replan}

-- Texts are their own digests.
instance abbrev pub plain_digest : Digest
plain_digest = record { safe_key = λ s. s }

abbrev again : Event
again = record replan { idempotency_key = some "e2" }

abbrev staged_files : Files
staged_files = (stage (some "t") clue (some (pos 1)) []).0

staged : stage (some "t") clue (some (pos 1)) [] ≡ (staged_files, ok (unstamped clue))
unfolding lookup insert py_eq float_limit float_of_int to_str to_int to_float iterate text_field
    int_field same_path read_json path_exists unlink atomic_write_json any_file remove_task
    event_to_dict to_dict to_ledger optional_float optional_text record_to_dict event_from_dict
    record_from_dict is_none load_consumer_offset save_consumer_offset stage resolve refuse observed
    session_to_json to_state assignment_from_dict intent_from_dict session_from_json load_session
    may_replace save_session store_raw_receipt remove_raw_receipt cleanup_task
staged = refl

stage-refuse_example :
    (hs : Files) × (refuse (some "t") "e2" null staged_files ≡ ok hs)
    × (path_exists (outbox_path (some "t") "e2") hs ≡ false)
    × (stage (some "t") again none hs ≡ (hs, raised value_error))
stage-refuse_example =
    stage-refuse (some "t") clue again (some (pos 1)) none null "e2" [] staged_files
      (unstamped clue) staged refl refl

-- Clean-ups, and nothing that settles an event.
abbrev pub cleaning : Scope
cleaning = record { cleans = true; settles = λ owner key. false }

abbrev session : TaskSession
session = observed "t" (pos 1)

abbrev active : TaskSession
active = record session { state = "active"; session_version = pos 2 }

abbrev or_no_files : Result Files → Files
or_no_files (ok fs) = fs
or_no_files (raised x) = []

abbrev saved_files : Files
saved_files = or_no_files (save_session session staged_files)

saved : save_session session staged_files ≡ ok saved_files
unfolding lookup insert py_eq float_limit float_of_int to_str to_int to_float iterate text_field
    int_field same_path read_json path_exists unlink atomic_write_json any_file remove_task
    event_to_dict to_dict to_ledger optional_float optional_text record_to_dict event_from_dict
    record_from_dict is_none load_consumer_offset save_consumer_offset stage resolve refuse observed
    session_to_json to_state assignment_from_dict intent_from_dict session_from_json load_session
    may_replace save_session store_raw_receipt remove_raw_receipt cleanup_task
saved = refl

none_settles : Unsettled cleaning (some "t") "e2"
none_settles owner key h = cc

busy-Run : Run cleaning staged_files (cleanup_task "t" saved_files).0
busy-Run = next (next here (saves_session session saved_files saved)) (cleans_task "t" refl)

Run-stage_example :
    stage (some "t") again none (cleanup_task "t" saved_files).0
    ≡ ((cleanup_task "t" saved_files).0, ok (unstamped clue))
Run-stage_example =
    Run-stage cleaning (some "t") clue again (some (pos 1)) none "e2" [] staged_files
      (cleanup_task "t" saved_files).0 (unstamped clue) staged refl none_settles busy-Run refl

event_from_dict-event_to_dict_example : event_from_dict (event_to_dict clue) ≡ ok (unstamped clue)
event_from_dict-event_to_dict_example = event_from_dict-event_to_dict clue refl

observed-IsKnown : IsKnown session
unfolding observed
observed-IsKnown = record { state = refl; intent = tt }

load_session-save_session_example : load_session "t" saved_files ≡ ok (some session)
unfolding observed
load_session-save_session_example =
    load_session-save_session session staged_files saved_files observed-IsKnown saved

no_offset : load_consumer_offset saved_files ≡ ok (negsuc 0)
unfolding lookup insert py_eq float_limit float_of_int to_str to_int to_float iterate text_field
    int_field same_path read_json path_exists unlink atomic_write_json any_file remove_task
    event_to_dict to_dict to_ledger optional_float optional_text record_to_dict event_from_dict
    record_from_dict is_none load_consumer_offset save_consumer_offset stage resolve refuse observed
    session_to_json to_state assignment_from_dict intent_from_dict session_from_json load_session
    may_replace save_session store_raw_receipt remove_raw_receipt cleanup_task
no_offset = refl

abbrev offset_files : Files
offset_files = or_no_files (save_consumer_offset (pos 3) saved_files)

offset_saved : save_consumer_offset (pos 3) saved_files ≡ ok offset_files
unfolding lookup insert py_eq float_limit float_of_int to_str to_int to_float iterate text_field
    int_field same_path read_json path_exists unlink atomic_write_json any_file remove_task
    event_to_dict to_dict to_ledger optional_float optional_text record_to_dict event_from_dict
    record_from_dict is_none load_consumer_offset save_consumer_offset stage resolve refuse observed
    session_to_json to_state assignment_from_dict intent_from_dict session_from_json load_session
    may_replace save_session store_raw_receipt remove_raw_receipt cleanup_task
offset_saved = refl

abbrev active_files : Files
active_files = or_no_files (save_session active offset_files)

active_saved : save_session active offset_files ≡ ok active_files
unfolding lookup insert py_eq float_limit float_of_int to_str to_int to_float iterate text_field
    int_field same_path read_json path_exists unlink atomic_write_json any_file remove_task
    event_to_dict to_dict to_ledger optional_float optional_text record_to_dict event_from_dict
    record_from_dict is_none load_consumer_offset save_consumer_offset stage resolve refuse observed
    session_to_json to_state assignment_from_dict intent_from_dict session_from_json load_session
    may_replace save_session store_raw_receipt remove_raw_receipt cleanup_task
active_saved = refl

-- Neither clean-ups nor settled events.
abbrev saving : Scope
saving = record { cleans = false; settles = λ owner key. false }

saving-Run : Run saving saved_files active_files
saving-Run =
    next (next here (saves_offset (pos 3) offset_files offset_saved))
      (saves_session active active_files active_saved)

Run-AtLeast_example :
    (m : ℤ) × (load_consumer_offset active_files ≡ ok m) × (ltb_ℤ m (negsuc 0) ≡ false)
Run-AtLeast_example = Run-AtLeast saving saved_files active_files (negsuc 0) saving-Run no_offset

session_there : read_json (session_path "t") saved_files ≡ session_to_json session
unfolding lookup insert py_eq float_limit float_of_int to_str to_int to_float iterate text_field
    int_field same_path read_json path_exists unlink atomic_write_json any_file remove_task
    event_to_dict to_dict to_ledger optional_float optional_text record_to_dict event_from_dict
    record_from_dict is_none load_consumer_offset save_consumer_offset stage resolve refuse observed
    session_to_json to_state assignment_from_dict intent_from_dict session_from_json load_session
    may_replace save_session store_raw_receipt remove_raw_receipt cleanup_task
session_there = refl

Run-version_example :
    (s₂ : TaskSession) × (read_json (session_path "t") active_files ≡ session_to_json s₂)
    × (ltb_ℤ s₂.session_version session.session_version ≡ false)
Run-version_example =
    Run-version saving refl "t" saved_files active_files session session_there saving-Run

cleanup_task_lem_example :
    ((cleanup_task "t" saved_files).1
      ≡ not (
          any_file (task_root "t") "outbox" saved_files
          || any_file (task_root "t") "raw_receipts" saved_files))
    × (path_exists (session_path "t") (cleanup_task "t" saved_files).0 ≡ (
        not ((cleanup_task "t" saved_files).1 && of_task "t" (session_path "t"))
        && path_exists (session_path "t") saved_files))
    × (read_json (session_path "t") (cleanup_task "t" saved_files).0 ≡ (
        if (cleanup_task "t" saved_files).1 && of_task "t" (session_path "t")
        then null
        else read_json (session_path "t") saved_files))
cleanup_task_lem_example = cleanup_task_lem "t" saved_files (session_path "t")
