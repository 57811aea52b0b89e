-- ===== src/Sessions/Steps/Offsets.antt =====
-- The consumer offset of a store, over any run of its operations.
use blackboard_coordination.Base.{
  String, ◌≡◌, refl, ◌∙◌, true, false, none, arith, if◌then◌else◌, ◌⊎◌, inl, inr, Bool-cases,
}
use blackboard_coordination.Base.Int.{ℤ, ltb_ℤ}
use blackboard_coordination.Python.Result.{ok, raised, value_error}
use blackboard_coordination.Python.Result.Laws.{>>=-eq-ok}
use blackboard_coordination.Python.Value.{Builtins, Value, to_int, dict, entry, empty, int}
use blackboard_coordination.Sessions.Files.{
  Files, same_path, read_json-write, path_exists-write, atomic_write_json,
}
use blackboard_coordination.Sessions.Outbox.{
  Digest, Owner, consumer_file, outbox_path, rejected_path, load_consumer_offset,
  save_consumer_offset,
}
use blackboard_coordination.Sessions.Tasks.{receipt_path, store_raw_receipt}
use blackboard_coordination.Sessions.Steps.{
  Scope, Step, Run, stages, resolves, refuses, saves_offset, saves_session, stores_receipt,
  removes_receipt, cleans_task, here, next,
}
use blackboard_coordination.Sessions.Steps.Frame.{
  Same, other_folder, write-Same, stage-Same, resolve-Same, refuse-Same, save_session-Same,
  remove_raw_receipt-Same, cleanup_task-Same,
}

-- The value of the consumer file.
abbrev pub offset_json : ℤ → Value
offset_json n = dict (entry "last_offset" (int n) empty)

pub ordered : (a b c : ℤ) → ltb_ℤ a b ≡ false → ltb_ℤ b c ≡ false → ltb_ℤ a c ≡ false
ordered a b c h k = ground arith

outbox_other :
    (owner : Owner) (key : String) → same_path (outbox_path owner key) consumer_file ≡ false
outbox_other owner key = other_folder owner none "outbox" "" key "consumer" refl

rejected_other :
    (owner : Owner) (key : String) → same_path (rejected_path owner key) consumer_file ≡ false
rejected_other owner key = other_folder owner none "rejected" "" key "consumer" refl

module _ ⦃py : Builtins⦄ where
  Same-load_consumer_offset :
      (gs fs : Files) → Same consumer_file gs fs → load_consumer_offset gs ≡ load_consumer_offset fs
  unfolding load_consumer_offset
  Same-load_consumer_offset gs fs s = rw (s.content, s.existing) refl

  -- The offset that a store has is at least the one given.
  record AtLeast (fs : Files) (n : ℤ) : Type 0 where
    pub offset : ℤ
    pub loaded : load_consumer_offset fs ≡ ok offset
    pub bound : ltb_ℤ offset n ≡ false

  -- A save that returned did not go back, and its offset is the one that is loaded next.
  pub record Saved (n : ℤ) (fs gs : Files) : Type 0 where
    pub previous : ℤ
    pub loaded : load_consumer_offset fs ≡ ok previous
    pub bound : ltb_ℤ n previous ≡ false
    pub now : load_consumer_offset gs ≡ ok n
    pub written : atomic_write_json consumer_file (dict (entry "last_offset" (int n) empty)) fs ≡ gs

  written-loaded :
      (n : ℤ) (fs : Files)
      → load_consumer_offset
          (atomic_write_json consumer_file (dict (entry "last_offset" (int n) empty)) fs)
        ≡ ok n
  unfolding load_consumer_offset to_int same_path
  written-loaded n fs =
      rw
        (
          path_exists-write consumer_file consumer_file (dict (entry "last_offset" (int n) empty))
              fs,
          read_json-write consumer_file consumer_file (dict (entry "last_offset" (int n) empty)) fs,
        )
        refl

  pub save_consumer_offset-Saved :
      (n : ℤ) (fs gs : Files) → save_consumer_offset n fs ≡ ok gs → Saved n fs gs
  unfolding save_consumer_offset
  save_consumer_offset-Saved n fs gs h =
      let (previous, loaded, q) = >>=-eq-ok (load_consumer_offset fs) _ h in
      by_order previous loaded (Bool-cases (ltb_ℤ n previous)) q
    where
      by_order :
          (previous : ℤ)
          → load_consumer_offset fs ≡ ok previous
          → (ltb_ℤ n previous ≡ true) ⊎ (ltb_ℤ n previous ≡ false)
          → (if ltb_ℤ n previous
              then raised value_error
              else ok
                  (atomic_write_json consumer_file (dict (entry "last_offset" (int n) empty)) fs))
            ≡ ok gs
          → Saved n fs gs
      by_order previous loaded (inl back) q = cc (rw back at q)
      by_order previous loaded (inr on) q =
          let same : atomic_write_json consumer_file (dict (entry "last_offset" (int n) empty)) fs
              ≡ gs =
            cc (rw on at q) in
          record {
            previous = previous;
            loaded = loaded;
            bound = on;
            now = rw (← same) (written-loaded n fs);
            written = same;
          }

  Same-AtLeast :
      (fs gs : Files) (n : ℤ)
      → Same consumer_file gs fs
      → load_consumer_offset fs ≡ ok n
      → AtLeast gs n
  Same-AtLeast fs gs n s h = record {
    offset = n;
    loaded = Same-load_consumer_offset gs fs s ∙ h;
    bound = ground arith;
  }

  module _ ⦃hash : Digest⦄ (scope : Scope) where
    Step-AtLeast :
        (fs gs : Files) (n : ℤ) → Step scope fs gs → load_consumer_offset fs ≡ ok n → AtLeast gs n
    unfolding same_path store_raw_receipt
    Step-AtLeast fs _ n (stages owner e m) h =
        Same-AtLeast fs _ n
          (stage-Same owner e m fs consumer_file (λ key. inl (outbox_other owner key))) h
    Step-AtLeast fs _ n (resolves owner key allowed) h =
        Same-AtLeast fs _ n
          (resolve-Same owner key fs consumer_file (outbox_other owner (hash.safe_key key))) h
    Step-AtLeast fs _ n (refuses owner key result gs allowed q) h =
        Same-AtLeast fs gs n
          (refuse-Same owner key result fs gs consumer_file (outbox_other owner (hash.safe_key key))
            (rejected_other owner (hash.safe_key key)) q)
          h
    Step-AtLeast fs _ n (saves_offset m gs q) h =
        let s = save_consumer_offset-Saved m fs gs q in
        let same : s.previous ≡ n = cc in
        record { offset = m; loaded = s.now; bound = rw (← same) s.bound }
    Step-AtLeast fs _ n (saves_session s gs q) h =
        Same-AtLeast fs gs n (save_session-Same s fs gs consumer_file refl q) h
    Step-AtLeast fs _ n (stores_receipt task_id intent_id receipt) h =
        Same-AtLeast fs _ n
          (write-Same (receipt_path task_id intent_id) consumer_file receipt fs refl) h
    Step-AtLeast fs _ n (removes_receipt task_id intent_id) h =
        Same-AtLeast fs _ n (remove_raw_receipt-Same task_id intent_id fs consumer_file refl) h
    Step-AtLeast fs _ n (cleans_task task_id allowed) h =
        Same-AtLeast fs _ n (cleanup_task-Same task_id fs consumer_file refl) h

    -- Whatever a store does, its consumer offset can still be loaded and does not go back.
    pub Run-AtLeast :
        (fs gs : Files) (n : ℤ)
        → Run scope fs gs
        → load_consumer_offset fs ≡ ok n
        → (m : ℤ) × (load_consumer_offset gs ≡ ok m) × (ltb_ℤ m n ≡ false)
    Run-AtLeast fs _ n here h = (n, h, ground arith)
    Run-AtLeast fs hs n (next {gs} run step) h =
        let (m, loaded, bound) = Run-AtLeast fs gs n run h in
        let a = Step-AtLeast gs hs m step loaded in
        (a.offset, a.loaded, ordered a.offset m n a.bound bound)
