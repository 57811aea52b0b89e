-- ===== src/Sessions/Tasks/Cleanup.antt =====
-- What `cleanup_task` answers and removes.
use blackboard_coordination.Base.{String, ◌≡◌, not, ◌&&◌, ◌||◌, [], ◌∷◌, arith, if◌then◌else◌}
use blackboard_coordination.Python.Value.{Builtins, null}
use blackboard_coordination.Sessions.Files.{
  Files, FilePath, same_path_iff, of_task, read_json, path_exists, any_file, remove_task,
}
use blackboard_coordination.Sessions.Outbox.{Digest}
use blackboard_coordination.Sessions.Tasks.{task_root, cleanup_task}

pub read_json-remove_task :
    (t : String) (p : FilePath) (fs : Files)
    → read_json p (remove_task t fs) ≡ (if of_task t p then null else read_json p fs)
unfolding read_json remove_task
read_json-remove_task t p [] = ground arith
read_json-remove_task t p ((q, v) ∷ fs) =
    ground (arith, read_json-remove_task t p fs, same_path_iff q p)

pub path_exists-remove_task :
    (t : String) (p : FilePath) (fs : Files)
    → path_exists p (remove_task t fs) ≡ (not (of_task t p) && path_exists p fs)
unfolding path_exists remove_task
path_exists-remove_task t p [] = ground arith
path_exists-remove_task t p ((q, v) ∷ fs) =
    ground (arith, path_exists-remove_task t p fs, same_path_iff q p)

module _ ⦃py : Builtins⦄ ⦃hash : Digest⦄ where
  -- A clean-up answers whether the task has neither a pending event nor a raw receipt. When it
  -- does, exactly the files of the task are gone; else none is.
  pub cleanup_task_lem :
      (task_id : String) (fs : Files) (p : FilePath)
      → ((cleanup_task task_id fs).1
          ≡ not (
              any_file (task_root task_id) "outbox" fs
              || any_file (task_root task_id) "raw_receipts" fs))
        × (path_exists p (cleanup_task task_id fs).0 ≡ (
            not ((cleanup_task task_id fs).1 && of_task (hash.safe_key task_id) p)
            && path_exists p fs))
        × (read_json p (cleanup_task task_id fs).0 ≡ (
            if (cleanup_task task_id fs).1 && of_task (hash.safe_key task_id) p
            then null
            else read_json p fs))
  unfolding cleanup_task
  cleanup_task_lem task_id fs p = ground (
    arith,
    read_json-remove_task (hash.safe_key task_id) p fs,
    path_exists-remove_task (hash.safe_key task_id) p fs,
  )
