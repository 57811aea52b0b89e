-- ===== src/Sessions/Steps/Versions.antt =====
-- coordination/file_session_store.py: the saved session of a task, when it is loaded and over runs of
-- the calls of a store.
use blackboard_coordination.Base.{
  String, ◌≡◌, refl, ◌∙◌, Bool, true, false, not, ◌&&◌, some, arith, ◌⊎◌, inl, inr, Bool-cases,
}
use blackboard_coordination.Base.Int.{ℤ, ltb_ℤ}
use blackboard_coordination.Python.Result.{ok}
use blackboard_coordination.Python.Value.{Builtins, to_int}
use blackboard_coordination.Sessions.Files.{
  Files, same_path, same_path_iff, read_json, read_json-write,
}
use blackboard_coordination.Sessions.Outbox.{Digest, consumer_file, is_none}
use blackboard_coordination.Sessions.Tasks.{
  task_root, session_path, receipt_path, load_session, save_session, may_replace, store_raw_receipt,
}
use blackboard_coordination.Sessions.Tasks.Session.{TaskSession, session_to_json}
use blackboard_coordination.Sessions.Tasks.Session.Roundtrip.{
  IsKnown, session_from_json-session_to_json,
}
use blackboard_coordination.Sessions.Steps.{
  Scope, Step, Run, stages, resolves, refuses, saves_offset, saves_session, stores_receipt,
  removes_receipt, cleans_task, here, next,
}
use blackboard_coordination.Sessions.Steps.Offsets.{
  save_consumer_offset-Saved, ordered, offset_json,
}
use blackboard_coordination.Sessions.Steps.Frame.{
  Same, other_folder, write-Same, stage-Same, resolve-Same, refuse-Same, save_session-Same,
  save_session-written, remove_raw_receipt-Same,
}

consumer_session :
    (task_root : String) → same_path consumer_file (some task_root, "", "session") ≡ false
unfolding same_path
consumer_session t = refl

first_holds : (a b : Bool) → ok (not a && b) ≡ ok true → a ≡ false
first_holds true b h = cc
first_holds false b h = refl

session_to_json-is_some : (s : TaskSession) → is_none (session_to_json s) ≡ false
unfolding is_none session_to_json
session_to_json-is_some s = refl

module _ ⦃py : Builtins⦄ ⦃hash : Digest⦄ where
  saved_now :
      (s : TaskSession) (fs gs : Files)
      → save_session s fs ≡ ok gs
      → read_json (session_path s.task_id) gs ≡ session_to_json s
  saved_now s fs gs h =
      rw
        (
          (save_session-written s fs gs h).0,
          read_json-write (session_path s.task_id) (session_path s.task_id) (session_to_json s) fs,
          (same_path_iff (session_path s.task_id) (session_path s.task_id)).1 refl,
        )
        refl

  -- A session that was saved, with states of the enumerations, is loaded as it was.
  pub load_session-save_session :
      (s : TaskSession) (fs gs : Files)
      → IsKnown s
      → save_session s fs ≡ ok gs
      → load_session s.task_id gs ≡ ok (some s)
  unfolding load_session
  load_session-save_session s fs gs known h =
      rw (saved_now s fs gs h, session_to_json-is_some s, session_from_json-session_to_json s known)
        refl

  may_replace-version :
      (s old : TaskSession)
      → may_replace s (session_to_json old) ≡ ok true
      → ltb_ℤ s.session_version old.session_version ≡ false
  unfolding may_replace session_to_json to_int
  may_replace-version s old h = first_holds (ltb_ℤ s.session_version old.session_version) _ h

  -- A session of the task is saved, of at least the version given.
  record Stored (task_id : String) (fs : Files) (n : ℤ) : Type 0 where
    pub session : TaskSession
    pub there : read_json (session_path task_id) fs ≡ session_to_json session
    pub bound : ltb_ℤ session.session_version n ≡ false

  Same-Stored :
      (task_id : String) (fs gs : Files) (s : TaskSession)
      → read_json (session_path task_id) fs ≡ session_to_json s
      → Same (session_path task_id) gs fs
      → Stored task_id gs s.session_version
  Same-Stored task_id fs gs s h same = record {
    session = s;
    there = same.content ∙ h;
    bound = ground arith;
  }

  save_session-Stored :
      (task_id : String) (fs gs : Files) (s new : TaskSession)
      → read_json (session_path task_id) fs ≡ session_to_json s
      → save_session new fs ≡ ok gs
      → Stored task_id gs s.session_version
  save_session-Stored task_id fs gs s new h q =
      by_path (Bool-cases (same_path (session_path new.task_id) (session_path task_id)))
        (save_session-written new fs gs q).1
    where
      by_path :
          (same_path (session_path new.task_id) (session_path task_id) ≡ true)
            ⊎ (same_path (session_path new.task_id) (session_path task_id) ≡ false)
          → (is_none (read_json (session_path new.task_id) fs) ≡ true)
            ⊎ (may_replace new (read_json (session_path new.task_id) fs) ≡ ok true)
          → Stored task_id gs s.session_version
      by_path (inr other) _ =
          Same-Stored task_id fs gs s h (save_session-Same new fs gs (session_path task_id) other q)
      by_path (inl same) (inl nothing) =
          let path = (same_path_iff (session_path new.task_id) (session_path task_id)).0 same in
          cc (rw (path, h, session_to_json-is_some s) at nothing)
      by_path (inl same) (inr allowed) =
          let path = (same_path_iff (session_path new.task_id) (session_path task_id)).0 same in
          record {
            session = new;
            there = rw (← path) (saved_now new fs gs q);
            bound = may_replace-version new s (rw (path, h) at allowed);
          }

  module _ (scope : Scope) (keeps : scope.cleans ≡ false) where
    Step-Stored :
        (task_id : String) (fs gs : Files) (s : TaskSession)
        → read_json (session_path task_id) fs ≡ session_to_json s
        → Step scope fs gs
        → Stored task_id gs s.session_version
    unfolding store_raw_receipt
    Step-Stored t fs _ s h (stages o e m) = Same-Stored t fs _ s h (
        stage-Same o e m fs (session_path t)
          (λ k. inl (other_folder o (task_root t) "outbox" "" k "session" refl)))
    Step-Stored t fs _ s h (resolves o k allowed) = Same-Stored t fs _ s h (
        resolve-Same o k fs (session_path t)
          (other_folder o (task_root t) "outbox" "" (hash.safe_key k) "session" refl))
    Step-Stored t fs _ s h (refuses o k result gs allowed q) = Same-Stored t fs gs s h (
        refuse-Same o k result fs gs (session_path t)
          (other_folder o (task_root t) "outbox" "" (hash.safe_key k) "session" refl)
          (other_folder o (task_root t) "rejected" "" (hash.safe_key k) "session" refl) q)
    Step-Stored t fs _ s h (saves_offset m gs q) = Same-Stored t fs gs s h (
        rw (← (save_consumer_offset-Saved m fs gs q).written) (
          write-Same consumer_file (session_path t) (offset_json m) fs
            (consumer_session (hash.safe_key t))))
    Step-Stored t fs _ s h (saves_session new gs q) = save_session-Stored t fs gs s new h q
    Step-Stored t fs _ s h (stores_receipt u i receipt) = Same-Stored t fs _ s h (
        write-Same (receipt_path u i) (session_path t) receipt fs (
          other_folder (task_root u) (task_root t) "raw_receipts" "" (hash.safe_key i) "session"
            refl))
    Step-Stored t fs _ s h (removes_receipt u i) = Same-Stored t fs _ s h (
        remove_raw_receipt-Same u i fs (session_path t) (
          other_folder (task_root u) (task_root t) "raw_receipts" "" (hash.safe_key i) "session"
            refl))
    Step-Stored t fs _ s h (cleans_task u allowed) = cc

    -- Over any run without a clean-up the session file of a task, once it holds a session, holds a
    -- session of the same or a later version.
    pub Run-version :
        (task_id : String) (fs gs : Files) (s : TaskSession)
        → read_json (session_path task_id) fs ≡ session_to_json s
        → Run scope fs gs
        → (s₂ : TaskSession) × (read_json (session_path task_id) gs ≡ session_to_json s₂)
          × (ltb_ℤ s₂.session_version s.session_version ≡ false)
    Run-version task_id fs _ s h here = (s, h, ground arith)
    Run-version task_id fs hs s h (next {gs} run step) =
        let (s₂, there, bound) = Run-version task_id fs gs s h run in
        let a = Step-Stored task_id gs hs s₂ there step in
        (
          a.session,
          a.there,
          ordered a.session.session_version s₂.session_version s.session_version a.bound bound,
        )
