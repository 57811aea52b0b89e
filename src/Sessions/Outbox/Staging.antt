-- ===== src/Sessions/Outbox/Staging.antt =====
-- coordination/file_session_store.py: the files after `stage_event` and after a rejection.
use blackboard_coordination.Base.{
  String, ◌≡◌, refl, ap, sym, ◌∙◌, true, false, Option, none, some, ◌==◌, arith, ◌⊎◌, inl, inr,
  Bool-cases, Option-cases, eq_iff,
}
use blackboard_coordination.Base.Int.{ℤ}
use blackboard_coordination.Python.Result.{Result, ok, raised, value_error}
use blackboard_coordination.Python.Value.{Builtins, Value, dict}
use blackboard_coordination.Contracts.{Event}
use blackboard_coordination.Sessions.Files.{
  Files, same_path, read_json, path_exists, unlink, atomic_write_json, read_json-write,
  path_exists-write, path_exists-unlink, same_path_iff,
}
use blackboard_coordination.Sessions.Codec.{
  event_to_dict, event_from_dict, record_to_dict, record_from_dict,
}
use blackboard_coordination.Sessions.Codec.Roundtrip.{record_from_dict-record_to_dict}
use blackboard_coordination.Sessions.Outbox.{
  Owner, Digest, outbox_path, rejected_path, is_none, stage_at, stage_keyed, stage, staged_event,
  refuse, as_dict,
}
use blackboard_coordination.Python.Value.{put}
use blackboard_coordination.Python.Result.Laws.{>>=-eq-ok}

-- A path is itself.
same_outbox :
    (owner : Owner) (key : String)
    → same_path (outbox_path owner key) (outbox_path owner key) ≡ true
same_outbox owner key = (same_path_iff (outbox_path owner key) (outbox_path owner key)).1 refl

-- The pending and the rejected files of a key are different.
pub outbox-rejected :
    (owner : Owner) (key : String)
    → same_path (outbox_path owner key) (rejected_path owner key) ≡ false
unfolding same_path
outbox-rejected none key = refl
outbox-rejected (some t) key = ground arith

record_to_dict-is_some : (e : Event) (n : Option ℤ) → is_none (record_to_dict e n) ≡ false
unfolding is_none record_to_dict
record_to_dict-is_some e n = refl

raised-ok :
    (p q : Files × Result Event) (c : Event) → p.1 ≡ raised value_error → q.1 ≡ ok c → ¬ (p ≡ q)
raised-ok p q c raises returns h = cc

module _ ⦃py : Builtins⦄ where
  -- The key's event is pending, and it is `c`.
  pub record Held (owner : Owner) (key : String) (gs : Files) (c : Event) : Type 0 where
    pub allowed : path_exists (rejected_path owner key) gs ≡ false
    pub present : is_none (read_json (outbox_path owner key) gs) ≡ false
    pub event : staged_event (read_json (outbox_path owner key) gs) ≡ ok c

  written-Held :
      (owner : Owner) (key : String) (e : Event) (n : Option ℤ) (fs : Files) (c : Event)
      → path_exists (rejected_path owner key) fs ≡ false
      → event_from_dict (event_to_dict e) ≡ ok c
      → Held owner key (atomic_write_json (outbox_path owner key) (record_to_dict e n) fs) c
  written-Held owner key e n fs c free h =
      let now : read_json (outbox_path owner key)
            (atomic_write_json (outbox_path owner key) (record_to_dict e n) fs)
          ≡ record_to_dict e n =
        rw
          (
            read_json-write (outbox_path owner key) (outbox_path owner key) (record_to_dict e n) fs,
            same_outbox owner key,
          )
          refl in
      record {
        allowed =
            rw
              (
                path_exists-write (outbox_path owner key) (rejected_path owner key)
                    (record_to_dict e n) fs,
                outbox-rejected owner key,
              )
              free;
        present = rw now (record_to_dict-is_some e n);
        event = rw (now, record_from_dict-record_to_dict e c n h) refl;
      }

  stage_at-Held :
      (owner : Owner) (key : String) (e : Event) (n : Option ℤ) (fs gs : Files) (c : Event)
      → path_exists (rejected_path owner key) fs ≡ false
      → stage_at (outbox_path owner key) e n (read_json (outbox_path owner key) fs) fs ≡ (gs, ok c)
      → Held owner key gs c
  stage_at-Held owner key e n fs gs c free h =
      by_existing (Bool-cases (is_none (read_json (outbox_path owner key) fs)))
    where
      by_existing :
          (is_none (read_json (outbox_path owner key) fs) ≡ true)
            ⊎ (is_none (read_json (outbox_path owner key) fs) ≡ false)
          → Held owner key gs c
      by_existing (inl new) =
          let h₁ = rw new at h in
          rw (← ap (λ (p : Files × Result Event). p.0) h₁)
            (written-Held owner key e n fs c free (ap (λ (p : Files × Result Event). p.1) h₁))
      by_existing (inr old) =
          let h₁ = rw old at h in
          rw (← ap (λ (p : Files × Result Event). p.0) h₁) (record {
            allowed = free;
            present = old;
            event = ap (λ (p : Files × Result Event). p.1) h₁;
          })

  pub Held-stage_keyed :
      (owner : Owner) (key : String) (e : Event) (n : Option ℤ) (gs : Files) (c : Event)
      → Held owner key gs c
      → stage_keyed owner key e n gs ≡ (gs, ok c)
  Held-stage_keyed owner key e n gs c held =
      rw (held.allowed, held.present) (ap (λ (r : Result Event). (gs, r)) held.event)

  stage_keyed-Held :
      (owner : Owner) (key : String) (e : Event) (n : Option ℤ) (fs gs : Files) (c : Event)
      → stage_keyed owner key e n fs ≡ (gs, ok c)
      → Held owner key gs c
  stage_keyed-Held owner key e n fs gs c h =
      elim (Bool-cases (path_exists (rejected_path owner key) fs)) [
        | inl gone ↦ cc (rw gone at h)
        | inr free ↦ stage_at-Held owner key e n fs gs c free (rw free at h)
      ]

  module _ ⦃hash : Digest⦄ where
    pub stage-keyed :
        (owner : Owner) (e : Event) (n : Option ℤ) (gs : Files) (key : String)
        → e.idempotency_key ≡ some key
        → (key == "") ≡ false
        → stage owner e n gs ≡ stage_keyed owner (hash.safe_key key) e n gs
    unfolding stage
    stage-keyed owner e n gs key given filled = rw (given, filled) refl

    stage-refused :
        (owner : Owner) (e : Event) (n : Option ℤ) (fs : Files)
        → (e.idempotency_key ≡ none) ⊎ (e.idempotency_key ≡ some "")
        → stage owner e n fs ≡ (fs, raised value_error)
    unfolding stage
    stage-refused owner e n fs (inl missing) = rw missing refl
    stage-refused owner e n fs (inr blank) = rw blank refl

    -- A call that returned had a key, and left its event pending.
    pub stage-Held :
        (owner : Owner) (e : Event) (n : Option ℤ) (fs gs : Files) (c : Event)
        → stage owner e n fs ≡ (gs, ok c)
        → (key : String) × (e.idempotency_key ≡ some key)
          × ((key == "") ≡ false)
          × Held owner (hash.safe_key key) gs c
    stage-Held owner e n fs gs c h = by_key (Option-cases e.idempotency_key)
      where
        Staged : Type 0
        Staged =
            (key : String) × (e.idempotency_key ≡ some key)
            × ((key == "") ≡ false)
            × Held owner (hash.safe_key key) gs c

        not_refused : ¬ (stage owner e n fs ≡ (fs, raised value_error))
        not_refused q = raised-ok (fs, raised value_error) (gs, ok c) c refl refl (sym q ∙ h)

        by_text :
            (key : String)
            → e.idempotency_key ≡ some key
            → ((key == "") ≡ true) ⊎ ((key == "") ≡ false)
            → Staged
        by_text key given (inl blank) = absurd (
            not_refused
              (stage-refused owner e n fs (inr (given ∙ ap some ((eq_iff key "").0 blank)))))
        by_text key given (inr filled) = (
          key,
          given,
          filled,
          stage_keyed-Held owner (hash.safe_key key) e n fs gs c
              (sym (stage-keyed owner e n fs key given filled) ∙ h),
        )

        by_key :
            (e.idempotency_key ≡ none) ⊎ ((key : String) × (e.idempotency_key ≡ some key)) → Staged
        by_key (inl missing) = absurd (not_refused (stage-refused owner e n fs (inl missing)))
        by_key (inr (key, given)) = by_text key given (Bool-cases (key == ""))

    refused_files : Owner → String → Value → Files → Files
    refused_files owner key v fs =
        unlink (outbox_path owner key) (atomic_write_json (rejected_path owner key) v fs)

    outbox-free :
        (owner : Owner) (key : String) (v : Value) (gs : Files)
        → path_exists (outbox_path owner key) (refused_files owner key v gs) ≡ false
    unfolding refused_files
    outbox-free owner key v gs =
        rw
          (
            path_exists-unlink (outbox_path owner key) (outbox_path owner key)
                (atomic_write_json (rejected_path owner key) v gs),
            same_outbox owner key,
          )
          refl

    rejected-there :
        (owner : Owner) (key : String) (v : Value) (gs : Files)
        → path_exists (rejected_path owner key) (refused_files owner key v gs) ≡ true
    unfolding refused_files
    rejected-there owner key v gs =
        rw
          (
            path_exists-unlink (outbox_path owner key) (rejected_path owner key)
                (atomic_write_json (rejected_path owner key) v gs),
            path_exists-write (rejected_path owner key) (rejected_path owner key) v gs,
            outbox-rejected owner key,
            (same_path_iff (rejected_path owner key) (rejected_path owner key)).1 refl,
          )
          refl

    Held-refuse :
        (owner : Owner) (key : String) (result : Value) (gs : Files) (c : Event)
        → Held owner (hash.safe_key key) gs c
        → (v : Value) × (refuse owner key result gs
            ≡ ok (refused_files owner (hash.safe_key key) v gs))
    unfolding refuse refused_files record_from_dict
    Held-refuse owner key result gs c held =
        let (r, read, p) =
          >>=-eq-ok (record_from_dict (read_json (outbox_path owner (hash.safe_key key)) gs)) _
            held.event in
        let (d, is_dict, q) =
          >>=-eq-ok (as_dict (read_json (outbox_path owner (hash.safe_key key)) gs)) _ read in
        (dict (put "append_rejection" result d), rw (held.present, is_dict) refl)

    -- A staged event can be rejected, and then it is pending no more and staging any event under its key
    -- is refused.
    pub stage-refuse :
        (owner : Owner) (e e₂ : Event) (n n₂ : Option ℤ) (result : Value) (key : String)
        (fs gs : Files) (c : Event)
        → stage owner e n fs ≡ (gs, ok c)
        → e.idempotency_key ≡ some key
        → e₂.idempotency_key ≡ some key
        → (hs : Files) × (refuse owner key result gs ≡ ok hs)
          × (path_exists (outbox_path owner (hash.safe_key key)) hs ≡ false)
          × (stage owner e₂ n₂ hs ≡ (hs, raised value_error))
    stage-refuse owner e e₂ n n₂ result key fs gs c h given given₂ =
        let (k, named, filled, held) = stage-Held owner e n fs gs c h in
        let same : k ≡ key = cc in
        let (v, left) = Held-refuse owner key result gs c (rw same at held) in
        (
          refused_files owner (hash.safe_key key) v gs,
          left,
          outbox-free owner (hash.safe_key key) v gs,
          stage-keyed owner e₂ n₂ _ key given₂ (rw same at filled)
              ∙ rw (rejected-there owner (hash.safe_key key) v gs) refl,
        )
