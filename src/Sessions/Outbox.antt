-- ===== src/Sessions/Outbox.antt =====
-- coordination/file_session_store.py: `FileOutboxStore`.
pub mod Staging
use blackboard_coordination.Base.{
  ℕ, String, Bool, true, false, not, Option, none, some, List, [], ◌∷◌, ◌==◌, map, if◌then◌else◌,
}
use blackboard_coordination.Base.Int.{ℤ, negsuc, ltb_ℤ}
use blackboard_coordination.Python.Result.{Result, ok, raised, value_error, ◌>>=◌}
use blackboard_coordination.Python.Value.{
  Builtins, Value, Fields, null, int, dict, empty, entry, get_or, to_int, put,
}
use blackboard_coordination.View.Match.{as_dict}
use blackboard_coordination.Contracts.{Event}
use blackboard_coordination.Sessions.Files.{
  FilePath, Files, read_json, read_or, path_exists, unlink, atomic_write_json, any_file,
  sorted_folder,
}
use blackboard_coordination.Sessions.Codec.{
  OutboxRecord, event_to_dict, event_from_dict, record_to_dict, record_from_dict,
}

-- `safe_key`: SHA-256 of a text, in hexadecimal digits.
pub record Digest : Type 0 where
  pub safe_key : String → String

-- The directory of a store, or of a task in it.
abbrev pub Owner : Type 0
Owner = Option String

abbrev pub consumer_file : FilePath
consumer_file = (none, "", "consumer")

abbrev pub outbox_path : Owner → String → FilePath
outbox_path owner key = (owner, "outbox", key)

abbrev pub rejected_path : Owner → String → FilePath
rejected_path owner key = (owner, "rejected", key)

-- `v is None`
unfoldable pub is_none : Value → Bool
is_none null = true
is_none _ = false

module _ ⦃py : Builtins⦄ where
  -- `load_consumer_offset`
  unfoldable pub load_consumer_offset : Files → Result ℤ
  load_consumer_offset fs = do
    value ← as_dict (read_or (dict (entry "last_offset" (int (negsuc 0)) empty)) consumer_file fs)
    to_int (get_or value "last_offset" (int (negsuc 0)))

  -- `save_consumer_offset`: what it leaves of the files.
  unfoldable pub save_consumer_offset : ℤ → Files → Result Files
  save_consumer_offset offset fs = do
    previous ← load_consumer_offset fs
    if ltb_ℤ offset previous
        then raised value_error
        else ok (atomic_write_json consumer_file (dict (entry "last_offset" (int offset) empty)) fs)

  -- The event of a record that is there.
  abbrev pub staged_event : Value → Result Event
  staged_event existing = do r ← record_from_dict existing; ok r.event

  -- The rest of `stage_event` under the lock. An event that cannot be read back has been written.
  abbrev pub stage_at : FilePath → Event → Option ℤ → Value → Files → Files × Result Event
  stage_at path e source_offset existing fs =
      if is_none existing
      then (
        atomic_write_json path (record_to_dict e source_offset) fs,
        event_from_dict (event_to_dict e),
      )
      else (fs, staged_event existing)

  abbrev pub stage_keyed : Owner → String → Event → Option ℤ → Files → Files × Result Event
  stage_keyed owner key e source_offset fs =
      if path_exists (rejected_path owner key) fs
      then (fs, raised value_error)
      else stage_at (outbox_path owner key) e source_offset (read_json (outbox_path owner key) fs)
          fs

  module _ ⦃hash : Digest⦄ where
    -- The body that `stage_event` and `stage_task_event` share.
    unfoldable pub stage : Owner → Event → Option ℤ → Files → Files × Result Event
    stage owner e source_offset fs = elim e.idempotency_key [
      | none ↦ (fs, raised value_error)
      | some key ↦
          if key == ""
          then (fs, raised value_error)
          else stage_keyed owner (hash.safe_key key) e source_offset fs
    ]

    -- `stage_event`
    abbrev pub stage_event : Event → Option ℤ → Files → Files × Result Event
    stage_event = stage none

    -- The body that `resolve_event` and `resolve_task_event` share.
    unfoldable pub resolve : Owner → String → Files → Files
    resolve owner idempotency_key fs =
        let path = outbox_path owner (hash.safe_key idempotency_key) in
        if path_exists path fs then unlink path fs else fs

    -- `resolve_event`
    abbrev pub resolve_event : String → Files → Files
    resolve_event = resolve none

    -- The value goes to the rejected files, with the answer of the board.
    abbrev pub quarantine : Owner → String → Value → Value → Files → Result Files
    quarantine owner key result value fs = do
      record_fields ← as_dict value
      ok (
          unlink (outbox_path owner key) (
            atomic_write_json (rejected_path owner key)
              (dict (put "append_rejection" result record_fields)) fs))

    -- The body that `reject_event` and `reject_task_event` share.
    unfoldable pub refuse : Owner → String → Value → Files → Result Files
    refuse owner idempotency_key result fs =
        let key = hash.safe_key idempotency_key in
        let value = read_json (outbox_path owner key) fs in
        if is_none value then ok fs else quarantine owner key result value fs

    -- `reject_event`
    abbrev pub reject_event : String → Value → Files → Result Files
    reject_event = refuse none

  unfoldable pub records_of : List (String × Value) → Result (List OutboxRecord)
  records_of [] = ok []
  records_of ((name, v) ∷ rest) = do
    r ← record_from_dict v
    others ← records_of rest
    ok (r ∷ others)

  -- `list_event_records`. All names have one length, so their suffix does not change the order.
  unfoldable pub list_event_records : Files → Result (List OutboxRecord)
  list_event_records fs = records_of (sorted_folder none "outbox" fs)

  -- `list_events`
  unfoldable pub list_events : Files → Result (List Event)
  list_events fs = do
    records ← list_event_records fs
    ok (map (λ (r : OutboxRecord). r.event) records)

-- `has_pending_events`
unfoldable pub has_pending_events : Files → Bool
has_pending_events = any_file none "outbox"
