-- ===== src/Sessions/Steps/Frame.antt =====
-- What a call leaves alone.
use blackboard_coordination.Base.{
  String, ◌≡◌, refl, ◌∙◌, Bool, true, false, Option, none, some, ◌==◌, arith, ◌⊎◌, inl, inr,
  Bool-cases, if◌then◌else◌,
}
use blackboard_coordination.Base.Int.{ℤ}
use blackboard_coordination.Python.Result.{Result, ok, raised, value_error, ◌>>=◌}
use blackboard_coordination.Python.Result.Laws.{>>=-eq-ok}
use blackboard_coordination.Python.Value.{Builtins, Value, dict}
use blackboard_coordination.View.Match.{as_dict}
use blackboard_coordination.Contracts.{Event}
use blackboard_coordination.Sessions.Files.{
  FilePath, Files, same_path, same_path_iff, of_task, read_json, path_exists, unlink,
  atomic_write_json, remove_task, read_json-write, read_json-unlink, path_exists-write,
  path_exists-unlink, any_file,
}
use blackboard_coordination.Sessions.Codec.{record_to_dict, event_from_dict, event_to_dict}
use blackboard_coordination.Sessions.Outbox.{
  Owner, Digest, outbox_path, rejected_path, is_none, stage_keyed, stage, refuse, resolve,
  quarantine, staged_event,
}
use blackboard_coordination.Python.Value.{put}
use blackboard_coordination.Sessions.Tasks.{
  session_path, receipt_path, save_session, may_replace, remove_raw_receipt, cleanup_task,
  task_root,
}
use blackboard_coordination.Sessions.Tasks.Cleanup.{read_json-remove_task, path_exists-remove_task}
use blackboard_coordination.Sessions.Tasks.Session.{TaskSession, session_to_json}

-- The path has the same file in both.
pub record Same (p : FilePath) (gs fs : Files) : Type 0 where
  pub content : read_json p gs ≡ read_json p fs
  pub existing : path_exists p gs ≡ path_exists p fs

pub Same-refl : (p : FilePath) (fs : Files) → Same p fs fs
Same-refl p fs = record { content = refl; existing = refl }

pub Same-trans : (p : FilePath) (hs gs fs : Files) → Same p hs gs → Same p gs fs → Same p hs fs
Same-trans p hs gs fs a b = record {
  content = a.content ∙ b.content;
  existing = a.existing ∙ b.existing;
}

-- Files of different folders have different paths.
pub other_folder :
    (t u : Option String) (folder other name key : String)
    → (folder == other) ≡ false
    → same_path (t, folder, name) (u, other, key) ≡ false
unfolding same_path
other_folder t u folder other name key h = ground arith

pub write-Same :
    (q p : FilePath) (v : Value) (fs : Files)
    → same_path q p ≡ false
    → Same p (atomic_write_json q v fs) fs
write-Same q p v fs h = record {
  content = rw (read_json-write q p v fs, h) refl;
  existing = rw (path_exists-write q p v fs, h) refl;
}

pub unlink-Same : (q p : FilePath) (fs : Files) → same_path q p ≡ false → Same p (unlink q fs) fs
unlink-Same q p fs h = record {
  content = rw (read_json-unlink q p fs, h) refl;
  existing = rw (path_exists-unlink q p fs, h) refl;
}

if-Same :
    (p : FilePath) (b : Bool) (gs hs fs : Files)
    → Same p gs fs
    → Same p hs fs
    → Same p (if b then gs else hs) fs
if-Same p true gs hs fs a c = a
if-Same p false gs hs fs a c = c

-- The removal of a task's directory leaves the other files.
pub remove_task-Same :
    (t : String) (p : FilePath) (fs : Files) → of_task t p ≡ false → Same p (remove_task t fs) fs
remove_task-Same t p fs h = record {
  content = rw (read_json-remove_task t p fs, h) refl;
  existing = rw (path_exists-remove_task t p fs, h) refl;
}

-- What a call that stages an event leaves has the same file.
abbrev Leaves : FilePath → Files → Files × Result Event → Type 0
Leaves p fs r = Same p r.0 fs

module _ ⦃py : Builtins⦄ where
  -- The pending file of the key is another, or there is a file already.
  abbrev pub Untouched : Owner → String → FilePath → Files → Type 0
  Untouched owner key p fs =
      (same_path (outbox_path owner key) p ≡ false) ⊎ (is_none (read_json p fs) ≡ false)

  Untouched-other :
      (owner : Owner) (key : String) (fs : Files) (p : FilePath)
      → Untouched owner key p fs
      → is_none (read_json (outbox_path owner key) fs) ≡ true
      → same_path (outbox_path owner key) p ≡ false
  Untouched-other owner key fs p (inl other) new = other
  Untouched-other owner key fs p (inr there) new =
      ground (arith, same_path_iff (outbox_path owner key) p)

  stage_keyed-Same :
      (owner : Owner) (key : String) (e : Event) (n : Option ℤ) (fs : Files) (p : FilePath)
      → Untouched owner key p fs
      → Same p (stage_keyed owner key e n fs).0 fs
  stage_keyed-Same owner key e n fs p h =
      by_file (path_exists (rejected_path owner key) fs)
        (is_none (read_json (outbox_path owner key) fs)) refl
    where
      by_file :
          (gone new : Bool)
          → is_none (read_json (outbox_path owner key) fs) ≡ new
          → Leaves p fs (
              if gone
              then (fs, raised value_error)
              else if new
              then (
                atomic_write_json (outbox_path owner key) (record_to_dict e n) fs,
                event_from_dict (event_to_dict e),
              )
              else (fs, staged_event (read_json (outbox_path owner key) fs)))
      by_file true new q = Same-refl p fs
      by_file false true q =
          write-Same (outbox_path owner key) p (record_to_dict e n) fs
            (Untouched-other owner key fs p h q)
      by_file false false q = Same-refl p fs

  module _ ⦃hash : Digest⦄ where
    pub stage-Same :
        (owner : Owner) (e : Event) (n : Option ℤ) (fs : Files) (p : FilePath)
        → ((key : String) → Untouched owner key p fs)
        → Same p (stage owner e n fs).0 fs
    unfolding stage
    stage-Same owner e n fs p h = by_key e.idempotency_key
      where
        by_text :
            (b : Bool) (key : String)
            → Leaves p fs (
                if b
                then (fs, raised value_error)
                else stage_keyed owner (hash.safe_key key) e n fs)
        by_text true key = Same-refl p fs
        by_text false key =
            stage_keyed-Same owner (hash.safe_key key) e n fs p (h (hash.safe_key key))

        by_key :
            (k : Option String)
            → Leaves p fs (elim k [
              | none ↦ (fs, raised value_error)
              | some key ↦
                  if key == ""
                  then (fs, raised value_error)
                  else stage_keyed owner (hash.safe_key key) e n fs
            ])
        by_key none = Same-refl p fs
        by_key (some key) = by_text (key == "") key

    pub resolve-Same :
        (owner : Owner) (key : String) (fs : Files) (p : FilePath)
        → same_path (outbox_path owner (hash.safe_key key)) p ≡ false
        → Same p (resolve owner key fs) fs
    unfolding resolve
    resolve-Same owner key fs p h =
        let path = outbox_path owner (hash.safe_key key) in
        if-Same p (path_exists path fs) (unlink path fs) fs fs (unlink-Same path p fs h)
          (Same-refl p fs)

    pub refuse-Same :
        (owner : Owner) (key : String) (result : Value) (fs gs : Files) (p : FilePath)
        → same_path (outbox_path owner (hash.safe_key key)) p ≡ false
        → same_path (rejected_path owner (hash.safe_key key)) p ≡ false
        → refuse owner key result fs ≡ ok gs
        → Same p gs fs
    unfolding refuse
    refuse-Same owner key result fs gs p pending refused h =
        by_value (is_none (read_json (outbox_path owner (hash.safe_key key)) fs)) h
      where
        by_value :
            (b : Bool)
            → (if b
                then ok fs
                else quarantine owner
                    (hash.safe_key key)
                    result
                    (read_json (outbox_path owner (hash.safe_key key)) fs)
                    fs)
              ≡ ok gs
            → Same p gs fs
        by_value true q = let same : fs ≡ gs = cc in rw (← same) (Same-refl p fs)
        by_value false q =
            let (d, is_dict, r) =
              >>=-eq-ok (as_dict (read_json (outbox_path owner (hash.safe_key key)) fs)) _ q in
            let there =
              atomic_write_json (rejected_path owner (hash.safe_key key))
                (dict (put "append_rejection" result d)) fs in
            let same : unlink (outbox_path owner (hash.safe_key key)) there ≡ gs = cc in
            rw (← same) (
              Same-trans p (unlink (outbox_path owner (hash.safe_key key)) there) there fs
                (unlink-Same (outbox_path owner (hash.safe_key key)) p there pending)
                (write-Same (rejected_path owner (hash.safe_key key)) p
                  (dict (put "append_rejection" result d)) fs refused))

    -- A save that returned has written the session, where nothing was or what was could be replaced.
    pub save_session-written :
        (s : TaskSession) (fs gs : Files)
        → save_session s fs ≡ ok gs
        → (gs ≡ atomic_write_json (session_path s.task_id) (session_to_json s) fs)
          × ((is_none (read_json (session_path s.task_id) fs) ≡ true)
              ⊎ (may_replace s (read_json (session_path s.task_id) fs) ≡ ok true))
    unfolding save_session
    save_session-written s fs gs h =
        by_current (Bool-cases (is_none (read_json (session_path s.task_id) fs)))
      where
        written : Files
        written = atomic_write_json (session_path s.task_id) (session_to_json s) fs

        by_answer :
            (r : Result Bool)
            → (r >>= λ allowed. if allowed then ok written else raised value_error) ≡ ok gs
            → (gs ≡ written) × (r ≡ ok true)
        by_answer (raised x) q = cc
        by_answer (ok true) q = (cc, refl)
        by_answer (ok false) q = cc

        by_current :
            (is_none (read_json (session_path s.task_id) fs) ≡ true)
              ⊎ (is_none (read_json (session_path s.task_id) fs) ≡ false)
            → (gs ≡ written)
              × ((is_none (read_json (session_path s.task_id) fs) ≡ true)
                  ⊎ (may_replace s (read_json (session_path s.task_id) fs) ≡ ok true))
        by_current (inl new) = let q = rw new at h in (cc, inl new)
        by_current (inr old) =
            let (same, allowed) =
              by_answer (may_replace s (read_json (session_path s.task_id) fs)) (rw old at h) in
            (same, inr allowed)

    pub save_session-Same :
        (s : TaskSession) (fs gs : Files) (p : FilePath)
        → same_path (session_path s.task_id) p ≡ false
        → save_session s fs ≡ ok gs
        → Same p gs fs
    save_session-Same s fs gs p h q =
        rw (save_session-written s fs gs q).0
          (write-Same (session_path s.task_id) p (session_to_json s) fs h)

    pub remove_raw_receipt-Same :
        (task_id intent_id : String) (fs : Files) (p : FilePath)
        → same_path (receipt_path task_id intent_id) p ≡ false
        → Same p (remove_raw_receipt task_id intent_id fs) fs
    unfolding remove_raw_receipt
    remove_raw_receipt-Same task_id intent_id fs p h =
        let path = receipt_path task_id intent_id in
        if-Same p (path_exists path fs) (unlink path fs) fs fs (unlink-Same path p fs h)
          (Same-refl p fs)

    abbrev Cleaned : FilePath → Files → Files × Bool → Type 0
    Cleaned p fs r = Same p r.0 fs

    pub cleanup_task-Same :
        (task_id : String) (fs : Files) (p : FilePath)
        → of_task (hash.safe_key task_id) p ≡ false
        → Same p (cleanup_task task_id fs).0 fs
    unfolding cleanup_task
    cleanup_task-Same task_id fs p h =
        by_files (any_file (task_root task_id) "outbox" fs)
          (any_file (task_root task_id) "raw_receipts" fs)
      where
        by_files :
            (pending waiting : Bool)
            → Cleaned p fs (
                if pending
                then (fs, false)
                else if waiting
                then (fs, false)
                else (remove_task (hash.safe_key task_id) fs, true))
        by_files true waiting = Same-refl p fs
        by_files false true = Same-refl p fs
        by_files false false = remove_task-Same (hash.safe_key task_id) p fs h
