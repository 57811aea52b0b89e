-- ===== src/Sessions/Files.antt =====
-- coordination/file_session_store.py: the files under the root of a store.
--
-- A store writes `consumer.json`, `outbox/<key>.json` and `rejected/<key>.json`, and under
-- `tasks/<task>/` again `outbox` and `rejected`, with `session.json` and `raw_receipts/<key>.json`.
-- A path is the task (or none), the folder (or the empty text) and the name without its suffix. A
-- file stands for the value that `json.load` reads from it. Writes replace a file at once, as
-- `os.replace` does, and directories are not kept.
use Prim.Native.String.{◌++◌ as text_append, compare}
use text.Mathlib.Text.{is_lt}
use blackboard_coordination.Base.{
  String, ◌≡◌, Bool, true, false, not, ◌&&◌, ◌||◌, ◌↔◌, Option, none, some, List, [], ◌∷◌, ◌==◌,
  any, keep, arith, eq_iff, if◌then◌else◌,
}
use blackboard_coordination.Python.Value.{Value, null}

abbrev pub FilePath : Type 0
FilePath = Option String × String × String

abbrev same_owner : Option String → Option String → Bool
same_owner none none = true
same_owner (some t) (some u) = t == u
same_owner _ _ = false

unfoldable pub same_path : FilePath → FilePath → Bool
same_path (t, folder, name) (u, other, key) = same_owner t u && folder == other && name == key

abbrev pub Files : Type 0
Files = List (FilePath × Value)

-- `_read_json(path, None)`: a missing file reads as `None`.
unfoldable pub read_json : FilePath → Files → Value
read_json p [] = null
read_json p ((q, v) ∷ fs) = if same_path q p then v else read_json p fs

-- `_path_exists`
unfoldable pub path_exists : FilePath → Files → Bool
path_exists p fs = any (λ (f : FilePath × Value). same_path f.0 p) fs

-- `_unlink`
unfoldable pub unlink : FilePath → Files → Files
unlink p [] = []
unlink p ((q, v) ∷ fs) = let rest = unlink p fs in if same_path q p then rest else (q, v) ∷ rest

-- `_atomic_write_json`
unfoldable pub atomic_write_json : FilePath → Value → Files → Files
atomic_write_json p v fs = (p, v) ∷ unlink p fs

abbrev pub in_folder : Option String → String → FilePath → Bool
in_folder t folder (u, other, name) = same_owner u t && other == folder

-- `any(folder.glob("*.json"))`
unfoldable pub any_file : Option String → String → Files → Bool
any_file t folder fs = any (λ (f : FilePath × Value). in_folder t folder f.0) fs

-- The files of a task's directory.
abbrev pub of_task : String → FilePath → Bool
of_task t (u, folder, name) = same_owner u (some t)

-- The loop that removes a task's directory.
unfoldable pub remove_task : String → Files → Files
remove_task t fs = keep (λ (f : FilePath × Value). not (of_task t f.0)) fs

insert_named : (String × Value) → List (String × Value) → List (String × Value)
insert_named (k, v) [] = (k, v) ∷ []
insert_named (k, v) ((j, w) ∷ rest) =
    if is_lt (compare j k) then (j, w) ∷ insert_named (k, v) rest else (k, v) ∷ (j, w) ∷ rest

-- `sorted(folder.glob("*.json"), key=lambda item: item.name)`, with what the files hold
unfoldable pub sorted_folder : Option String → String → Files → List (String × Value)
unfolding insert_named
sorted_folder t folder [] = []
sorted_folder t folder ((q, v) ∷ fs) =
    let rest = sorted_folder t folder fs in
    if in_folder t folder q then insert_named (q.2, v) rest else rest

-- `sorted(tasks_root.glob("*/session.json"), key=lambda item: item.parent.name)`
unfoldable pub sorted_sessions : Files → List (String × Value)
unfolding insert_named
sorted_sessions [] = []
sorted_sessions (((some t, folder, name), v) ∷ fs) =
    let rest = sorted_sessions fs in
    if folder == "" && name == "session" then insert_named (t, v) rest else rest
sorted_sessions (((none, folder, name), v) ∷ fs) = sorted_sessions fs

-- `sorted(tasks_root.glob("*/outbox/*.json"), key=str)`: the part of the path that differs is
-- compared.
unfoldable pub sorted_outboxes : Files → List (String × Value)
unfolding insert_named
sorted_outboxes [] = []
sorted_outboxes (((some t, folder, name), v) ∷ fs) =
    let rest = sorted_outboxes fs in
    if folder == "outbox"
    then insert_named (text_append t (text_append "/outbox/" name), v) rest
    else rest
sorted_outboxes (((none, folder, name), v) ∷ fs) = sorted_outboxes fs

pub same_path_iff : (p q : FilePath) → (same_path p q ≡ true) ↔ (p ≡ q)
unfolding same_path
same_path_iff (none, f, n) (none, g, m) = ground (arith, eq_iff f g, eq_iff n m)
same_path_iff (none, f, n) (some u, g, m) = ground arith
same_path_iff (some t, f, n) (none, g, m) = ground arith
same_path_iff (some t, f, n) (some u, g, m) = ground (arith, eq_iff t u, eq_iff f g, eq_iff n m)

pub read_json-unlink :
    (p q : FilePath) (fs : Files)
    → read_json q (unlink p fs) ≡ (if same_path p q then null else read_json q fs)
unfolding read_json unlink
read_json-unlink p q [] = ground arith
read_json-unlink p q ((r, v) ∷ fs) =
    ground (arith, read_json-unlink p q fs, same_path_iff r p, same_path_iff r q, same_path_iff p q)

-- A read after a write.
pub read_json-write :
    (p q : FilePath) (v : Value) (fs : Files)
    → read_json q (atomic_write_json p v fs) ≡ (if same_path p q then v else read_json q fs)
unfolding read_json atomic_write_json
read_json-write p q v fs = ground (arith, read_json-unlink p q fs)

pub path_exists-unlink :
    (p q : FilePath) (fs : Files)
    → path_exists q (unlink p fs) ≡ (not (same_path p q) && path_exists q fs)
unfolding path_exists unlink
path_exists-unlink p q [] = ground arith
path_exists-unlink p q ((r, v) ∷ fs) =
    ground
      (arith, path_exists-unlink p q fs, same_path_iff r p, same_path_iff r q, same_path_iff p q)

pub path_exists-write :
    (p q : FilePath) (v : Value) (fs : Files)
    → path_exists q (atomic_write_json p v fs) ≡ (same_path p q || path_exists q fs)
unfolding atomic_write_json path_exists
path_exists-write p q v fs = ground (arith, path_exists-unlink p q fs)

-- `_read_json(path, default)`
abbrev pub read_or : Value → FilePath → Files → Value
read_or default p fs = if path_exists p fs then read_json p fs else default
