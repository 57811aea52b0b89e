-- ===== src/Sessions/Steps/Pending.antt =====
-- coordination/file_session_store.py: a staged event over runs of the calls of a store.
use blackboard_coordination.Base.{
  String, ◌≡◌, refl, ◌∙◌, true, false, Option, none, some, [], ◌∷◌, ◌==◌, arith, eq_iff, ◌⊎◌, inl,
  inr, Bool-cases,
}
use blackboard_coordination.Base.Int.{ℤ}
use blackboard_coordination.Python.Result.{ok}
use blackboard_coordination.Python.Value.{Builtins}
use blackboard_coordination.Contracts.{Event}
use blackboard_coordination.Sessions.Files.{Files, same_path, read_json, any_file}
use blackboard_coordination.Sessions.Outbox.{
  Digest, Owner, outbox_path, rejected_path, consumer_file, is_none, stage,
}
use blackboard_coordination.Sessions.Outbox.Staging.{
  Held, stage-Held, stage-keyed, Held-stage_keyed,
}
use blackboard_coordination.Sessions.Tasks.{
  task_root, receipt_path, store_raw_receipt, cleanup_task,
}
use blackboard_coordination.Sessions.Steps.{
  Scope, Step, Run, stages, resolves, refuses, saves_offset, saves_session, stores_receipt,
  removes_receipt, cleans_task, here, next,
}
use blackboard_coordination.Sessions.Steps.Offsets.{save_consumer_offset-Saved, offset_json}
use blackboard_coordination.Sessions.Steps.Frame.{
  Same, Same-refl, other_folder, write-Same, stage-Same, resolve-Same, refuse-Same,
  save_session-Same, remove_raw_receipt-Same, cleanup_task-Same,
}

-- The file of a pending event, and of its rejection, are those of before.
abbrev Kept : Owner → String → Files → Files → Type 0
Kept owner key gs fs = Same (outbox_path owner key) gs fs × Same (rejected_path owner key) gs fs

outbox_rejected :
    (o owner : Owner) (k key : String)
    → same_path (outbox_path o k) (outbox_path owner key) ≡ false
    → same_path (rejected_path o k) (rejected_path owner key) ≡ false
unfolding same_path
outbox_rejected o owner k key h = ground (arith, eq_iff k key)

-- A file that is there is in its folder.
any_file-read_json :
    (t : Option String) (folder name : String) (fs : Files)
    → is_none (read_json (t, folder, name) fs) ≡ false
    → any_file t folder fs ≡ true
unfolding any_file read_json same_path is_none
any_file-read_json t folder name [] h = cc
any_file-read_json t folder name (((u, other, key), v) ∷ fs) h =
    ground (arith, any_file-read_json t folder name fs)

module _ ⦃py : Builtins⦄ where
  module _ ⦃hash : Digest⦄ where
    -- A task with a pending event is not cleaned up.
    pub cleanup_task-pending :
        (task_id key : String) (fs : Files)
        → is_none (read_json (outbox_path (task_root task_id) key) fs) ≡ false
        → cleanup_task task_id fs ≡ (fs, false)
    unfolding cleanup_task
    cleanup_task-pending task_id key fs there =
        rw (any_file-read_json (task_root task_id) "outbox" key fs there) refl

    cleanup_task-Kept :
        (owner : Owner) (key task_id : String) (fs : Files)
        → is_none (read_json (outbox_path owner key) fs) ≡ false
        → Kept owner key (cleanup_task task_id fs).0 fs
    cleanup_task-Kept none key task_id fs there = (
      cleanup_task-Same task_id fs (outbox_path none key) refl,
      cleanup_task-Same task_id fs (rejected_path none key) refl,
    )
    cleanup_task-Kept (some t) key task_id fs there =
        by_task (Bool-cases (t == hash.safe_key task_id))
      where
        by_task :
            ((t == hash.safe_key task_id) ≡ true) ⊎ ((t == hash.safe_key task_id) ≡ false)
            → Kept (some t) key (cleanup_task task_id fs).0 fs
        by_task (inr other) = (
          cleanup_task-Same task_id fs (outbox_path (some t) key) other,
          cleanup_task-Same task_id fs (rejected_path (some t) key) other,
        )
        by_task (inl own) =
            rw
              (cleanup_task-pending task_id key fs
                (rw ((eq_iff t (hash.safe_key task_id)).0 own) at there))
              (Same-refl (outbox_path (some t) key) fs, Same-refl (rejected_path (some t) key) fs)

    module _ (scope : Scope) where
      -- No call that the run may hold settles the key.
      abbrev pub Unsettled : Owner → String → Type 0
      Unsettled owner key =
          (o : Owner) (k : String)
          → scope.settles o k ≡ true
          → same_path (outbox_path o (hash.safe_key k)) (outbox_path owner key) ≡ false

      Step-Kept :
          (owner : Owner) (key : String) (fs gs : Files)
          → Unsettled owner key
          → is_none (read_json (outbox_path owner key) fs) ≡ false
          → Step scope fs gs
          → Kept owner key gs fs
      unfolding store_raw_receipt
      Step-Kept owner key fs _ free there (stages o e m) = (
        stage-Same o e m fs (outbox_path owner key) (λ k. inr there),
        stage-Same o e m fs (rejected_path owner key)
            (λ k. inl (other_folder o owner "outbox" "rejected" k key refl)),
      )
      Step-Kept owner key fs _ free there (resolves o k allowed) = (
        resolve-Same o k fs (outbox_path owner key) (free o k allowed),
        resolve-Same o k fs (rejected_path owner key)
            (other_folder o owner "outbox" "rejected" (hash.safe_key k) key refl),
      )
      Step-Kept owner key fs gs free there (refuses o k result _ allowed q) = (
        refuse-Same o k result fs gs (outbox_path owner key) (free o k allowed)
            (other_folder o owner "rejected" "outbox" (hash.safe_key k) key refl) q,
        refuse-Same o k result fs gs (rejected_path owner key)
            (other_folder o owner "outbox" "rejected" (hash.safe_key k) key refl)
            (outbox_rejected o owner (hash.safe_key k) key (free o k allowed)) q,
      )
      Step-Kept owner key fs gs free there (saves_offset m _ q) =
          rw (← (save_consumer_offset-Saved m fs gs q).written) (
            write-Same consumer_file (outbox_path owner key) (offset_json m) fs
                (other_folder none owner "" "outbox" "consumer" key refl),
            write-Same consumer_file (rejected_path owner key) (offset_json m) fs
                (other_folder none owner "" "rejected" "consumer" key refl),
          )
      Step-Kept owner key fs gs free there (saves_session s _ q) = (
        save_session-Same s fs gs (outbox_path owner key)
            (other_folder (task_root s.task_id) owner "" "outbox" "session" key refl) q,
        save_session-Same s fs gs (rejected_path owner key)
            (other_folder (task_root s.task_id) owner "" "rejected" "session" key refl) q,
      )
      Step-Kept owner key fs _ free there (stores_receipt t i receipt) = (
        write-Same (receipt_path t i) (outbox_path owner key) receipt fs
            (other_folder (task_root t) owner "raw_receipts" "outbox" (hash.safe_key i) key refl),
        write-Same (receipt_path t i) (rejected_path owner key) receipt fs
            (other_folder (task_root t) owner "raw_receipts" "rejected" (hash.safe_key i) key refl),
      )
      Step-Kept owner key fs _ free there (removes_receipt t i) = (
        remove_raw_receipt-Same t i fs (outbox_path owner key)
            (other_folder (task_root t) owner "raw_receipts" "outbox" (hash.safe_key i) key refl),
        remove_raw_receipt-Same t i fs (rejected_path owner key)
            (other_folder (task_root t) owner "raw_receipts" "rejected" (hash.safe_key i) key refl),
      )
      Step-Kept owner key fs _ free there (cleans_task t allowed) =
          cleanup_task-Kept owner key t fs there

      Run-Held :
          (owner : Owner) (key : String) (fs gs : Files) (c : Event)
          → Unsettled owner key
          → Run scope fs gs
          → Held owner key fs c
          → Held owner key gs c
      Run-Held owner key fs _ c free here held = held
      Run-Held owner key fs hs c free (next {gs} run step) held =
          let before = Run-Held owner key fs gs c free run held in
          let (pending, refused) = Step-Kept owner key gs hs free before.present step in
          record {
            allowed = refused.existing ∙ before.allowed;
            present = rw pending.content before.present;
            event = rw pending.content before.event;
          }

      -- Once an event is staged, any run of calls that does not resolve or reject its key leaves it
      -- pending: staging an event under the key then gives it again and changes no file.
      pub Run-stage :
          (owner : Owner) (e e₂ : Event) (n n₂ : Option ℤ) (key : String) (fs gs hs : Files)
          (c : Event)
          → stage owner e n fs ≡ (gs, ok c)
          → e.idempotency_key ≡ some key
          → Unsettled owner (hash.safe_key key)
          → Run scope gs hs
          → e₂.idempotency_key ≡ some key
          → stage owner e₂ n₂ hs ≡ (hs, ok c)
      Run-stage owner e e₂ n n₂ key fs gs hs c h given free run given₂ =
          let (k, named, filled, held) = stage-Held owner e n fs gs c h in
          let same : k ≡ key = cc in
          stage-keyed owner e₂ n₂ hs key given₂ (rw same at filled)
          ∙ Held-stage_keyed owner (hash.safe_key key) e₂ n₂ hs c
              (Run-Held owner (hash.safe_key key) gs hs c free run (rw same at held))
