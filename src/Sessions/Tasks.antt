-- ===== src/Sessions/Tasks.antt =====
-- coordination/file_session_store.py: `FileTaskSessionStore`.
pub mod Session
pub mod Cleanup
use blackboard_coordination.Base.{
  String, Bool, true, false, not, ◌&&◌, Option, none, some, List, [], ◌∷◌, ◌==◌, if◌then◌else◌,
}
use blackboard_coordination.Base.Int.{ℤ, pos, ltb_ℤ, eq_ℤ}
use blackboard_coordination.Python.Result.{Result, ok, raised, value_error, ◌>>=◌}
use blackboard_coordination.Python.Value.{
  Builtins, Value, Fields, null, int, dict, get_or, to_int, to_str, truthy, py_eq, index,
}
use blackboard_coordination.View.Match.{as_dict}
use blackboard_coordination.Contracts.{Event}
use blackboard_coordination.Sessions.Files.{
  FilePath, Files, read_json, path_exists, unlink, atomic_write_json, any_file, remove_task,
  sorted_folder, sorted_sessions, sorted_outboxes,
}
use blackboard_coordination.Sessions.Codec.{OutboxRecord}
use blackboard_coordination.Sessions.Outbox.{
  Digest, Owner, is_none, stage, resolve, refuse, records_of,
}
use blackboard_coordination.Sessions.Tasks.Session.{TaskSession, session_to_json, session_from_json}

module _ ⦃py : Builtins⦄ ⦃hash : Digest⦄ where
  -- `_task_root`
  abbrev pub task_root : String → Owner
  task_root task_id = some (hash.safe_key task_id)

  abbrev pub session_path : String → FilePath
  session_path task_id = (task_root task_id, "", "session")

  abbrev pub receipt_path : String → String → FilePath
  receipt_path task_id intent_id = (task_root task_id, "raw_receipts", hash.safe_key intent_id)

  -- `load_session`
  unfoldable pub load_session : String → Files → Result (Option TaskSession)
  load_session task_id fs =
      let value = read_json (session_path task_id) fs in
      if is_none value then ok none else (do s ← session_from_json value; ok (some s))

  -- What `save_session` says of the session that is there.
  unfoldable pub may_replace : TaskSession → Value → Result Bool
  may_replace session current = do
    fields ← as_dict current
    current_version ← to_int (get_or fields "session_version" (int (pos 0)))
    ok (
        not (ltb_ℤ session.session_version current_version)
        && not (
            eq_ℤ current_version session.session_version
            && not (py_eq current (session_to_json session))))

  -- `save_session`: the files that it leaves.
  unfoldable pub save_session : TaskSession → Files → Result Files
  save_session session fs =
      let path = session_path session.task_id in
      let current = read_json path fs in
      let written = atomic_write_json path (session_to_json session) fs in
      if is_none current then ok written else (do
        allowed ← may_replace session current
        if allowed then ok written else raised value_error)

  -- One round of the loop of `list_sessions`: the session, or none where the round is skipped.
  listed : Files → Value → Result (Option TaskSession)
  listed fs (dict value) =
      let task_id = get_or value "task_id" null in
      if truthy task_id then load_session (to_str task_id) fs else ok none
  listed fs _ = ok none

  abbrev with_session : Option TaskSession → List TaskSession → List TaskSession
  with_session none rest = rest
  with_session (some s) rest = s ∷ rest

  sessions_of : Files → List (String × Value) → Result (List TaskSession)
  unfolding listed
  sessions_of fs [] = ok []
  sessions_of fs ((name, v) ∷ files) = do
    s ← listed fs v
    rest ← sessions_of fs files
    ok (with_session s rest)

  -- `list_sessions`
  unfoldable pub list_sessions : Files → Result (List TaskSession)
  unfolding sessions_of
  list_sessions fs = sessions_of fs (sorted_sessions fs)

  abbrev pub stage_task_event : String → Event → Option ℤ → Files → Files × Result Event
  stage_task_event task_id = stage (task_root task_id)

  -- `list_task_event_records`
  unfoldable pub list_task_event_records : String → Files → Result (List OutboxRecord)
  list_task_event_records task_id fs = records_of (sorted_folder (task_root task_id) "outbox" fs)

  unfoldable pub list_all_task_event_records : Files → Result (List OutboxRecord)
  list_all_task_event_records fs = records_of (sorted_outboxes fs)

  abbrev pub resolve_task_event : String → String → Files → Files
  resolve_task_event task_id = resolve (task_root task_id)

  abbrev pub reject_task_event : String → String → Value → Files → Result Files
  reject_task_event task_id = refuse (task_root task_id)

  unfoldable pub store_raw_receipt : String → String → Value → Files → Files
  store_raw_receipt task_id intent_id receipt =
      atomic_write_json (receipt_path task_id intent_id) receipt

  unfoldable pub remove_raw_receipt : String → String → Files → Files
  remove_raw_receipt task_id intent_id fs =
      let path = receipt_path task_id intent_id in
      if path_exists path fs then unlink path fs else fs

  -- `cleanup_task`. A task without a directory has no files to remove.
  unfoldable pub cleanup_task : String → Files → Files × Bool
  cleanup_task task_id fs =
      if any_file (task_root task_id) "outbox" fs
      then (fs, false)
      else if any_file (task_root task_id) "raw_receipts" fs
      then (fs, false)
      else (remove_task (hash.safe_key task_id) fs, true)
